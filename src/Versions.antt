-- ===== src/Versions.antt =====
-- The compare-and-swap write and the read that documents and collections share (PutDoc and GetDoc of
-- internal/store/docs.go, PutRecord and GetRecord of internal/store/collections.go): a table of
-- current versions and one of kept revisions. A revision is a count of writes.
pub mod Kept
pub mod Register
pub mod Retry
use aimem.Prelude.{
  ℕ, zero, suc, ◌+◌, ◌≡◌, ◌↔◌, refl, Bool, true, false, not, ◌&&◌, List, [], ◌∷◌, Option, none,
  some, Bytes, str_eq, leb, ltb, ◌==◌, if◌then◌else◌, any, filter, length,
}

-- A primary key: a document's name, or a collection and a record's id.
pub record Key (K : Type 0) : Type 0 where
  pub same : K → K → Bool
  pub same_iff : (a b : K) → (same a b ≡ true) ↔ (a ≡ b)

-- Doc, and Record.
pub record Version (K : Type 0) : Type 0 where
  pub name : K
  pub body : Bytes
  pub rev : ℕ
  pub updated_at : Bytes
  pub updated_by : Bytes
  pub deleted : Bool
  pub size : ℕ

-- The tables `docs` and `doc_revisions`, or `col_records` and `col_revisions`.
pub record Store (K : Type 0) : Type 0 where
  pub current : List (Version K)
  pub revisions : List (Version K)

-- The refusals; `stale` is DocConflict or RecordConflict, with the current version.
pub data PutError (K : Type 0) : Type 0 where
  bad_name bad_id not_object no_such constraint : PutError K
  too_large : ℕ → PutError K
  secret : List Bytes → PutError K
  stale : Version K → PutError K

pub data Answer (K S : Type 0) : Type 0 where
  put_ok : Version K → S → Answer K S
  put_err : PutError K → Answer K S

-- docHistoryKeep and colHistoryKeep.
abbrev pub history_keep : ℕ
history_keep = 20

-- What a write is asked for: the body that came, the body that is stored, the revision it was made on.
pub record Request (K : Type 0) : Type 0 where
  pub key : K
  pub sent : Bytes
  pub stored : Bytes
  pub updated_by : Bytes
  pub base_rev : ℕ
  pub deleted : Bool
  pub now : Bytes

abbrev pub same_flag : Bool → Bool → Bool
same_flag true b = b
same_flag false b = not b

-- The retry that is a no-op.
unfoldable pub is_identical : {K : Type 0} → Request K → Version K → Bool
is_identical r cur = str_eq r.sent cur.body && same_flag r.deleted cur.deleted

-- The next version.
abbrev pub next_of : {K : Type 0} → Request K → Version K
next_of r = record {
  name = r.key;
  body = r.stored;
  rev = r.base_rev + 1;
  updated_at = r.now;
  updated_by = r.updated_by;
  deleted = r.deleted;
  size = length r.stored;
}

module _ {K : Type 0} ⦃key : Key K⦄ where
  abbrev pub is_named : K → Version K → Bool
  is_named k v = key.same v.name k

  unfoldable pub find : K → List (Version K) → Option (Version K)
  find k [] = none
  find k (v ∷ vs) = if is_named k v then some v else find k vs

  -- INSERT … ON CONFLICT DO UPDATE.
  unfoldable pub upsert : Version K → List (Version K) → List (Version K)
  upsert next [] = next ∷ []
  upsert next (v ∷ vs) = if is_named next.name v then next ∷ vs else v ∷ upsert next vs

  -- The row of a revision table.
  abbrev pub is_revision : K → ℕ → Version K → Bool
  is_revision k rev v = is_named k v && (v.rev == rev)

  -- DELETE … WHERE name = ? AND rev <= ?.
  abbrev pub outlives : Version K → Version K → Bool
  outlives next v = not (is_named next.name v && leb (v.rev + history_keep) next.rev)

  unfoldable pub write : Version K → Store K → Answer K (Store K)
  unfolding upsert
  write next s =
      if any (is_revision next.name next.rev) s.revisions
      then put_err constraint
      else put_ok next (record {
        current = upsert next s.current;
        revisions = filter (outlives next) (next ∷ s.revisions);
      })

  -- The transaction of PutDoc and of PutRecord.
  on_current : Request K → Option (Version K) → Store K → Answer K (Store K)
  unfolding write is_identical
  on_current r none s =
      if r.deleted
      then put_err no_such
      else if not (r.base_rev == 0)
      then put_err no_such
      else write (next_of r) s
  on_current r (some cur) s =
      if is_identical r cur
      then put_ok cur s
      else if not (r.base_rev == cur.rev)
      then put_err (stale cur)
      else write (next_of r) s

  unfoldable pub put : Request K → Store K → Answer K (Store K)
  unfolding on_current find
  put r s = on_current r (find r.key s.current) s

  -- The row of one revision.
  unfoldable pub find_revision : ℕ → List (Version K) → Option (Version K)
  find_revision rev [] = none
  find_revision rev (v ∷ vs) = if v.rev == rev then some v else find_revision rev vs

  unfoldable pub find_row : K → ℕ → List (Version K) → Option (Version K)
  find_row k rev [] = none
  find_row k rev (v ∷ vs) = if is_revision k rev v then some v else find_row k rev vs

  -- GetDoc and GetRecord; `none` is "no such".
  unfoldable pub get : K → ℕ → Store K → Option (Version K)
  unfolding find find_row
  get k rev s = if ltb 0 rev then find_row k rev s.revisions else find k s.current
