-- ===== src/Versions/Retry.antt =====
-- The retry of a write (PutDoc of internal/store/docs.go, PutRecord of internal/store/collections.go):
-- an identical body is a no-op, whatever revision the retry was made on.
use aimem.Prelude.{
  if-cases, ℕ, ◌≡◌, refl, sym, ap, ◌∙◌, Bool, true, false, not, ◌&&◌, ◌∷◌, Option, none, some,
  Bytes, str_eq, str_eq_refl, ◌==◌, filter, if◌then◌else◌, any, inl, inr,
}
use aimem.Versions.{
  Key, Version, Store, put_ok, put_err, no_such, stale, constraint, Request, is_identical,
  same_flag, next_of, find, upsert, is_revision, outlives, write, on_current, put,
}
use aimem.Versions.Kept.{same_refl, find-upsert}

same_flag_refl : (b : Bool) → same_flag b b ≡ true
same_flag_refl true = refl
same_flag_refl false = refl

module _ {K : Type 0} ⦃key : Key K⦄ where
  abbrev written : Version K → Store K → Store K
  written next s = record {
    current = upsert next s.current;
    revisions = filter (outlives next) (next ∷ s.revisions);
  }

  write_ok :
      (next v : Version K) (s s' : Store K)
      → write next s ≡ put_ok v s'
      → (v ≡ next) × (find next.name s'.current ≡ some next)
  unfolding write
  write_ok next v s s' h =
      elim (if-cases (any (is_revision next.name next.rev) s.revisions) (put_err constraint)
        (put_ok next (written next s)) h) [
          | inl (taken, e) ↦ cc
          | inr (free, e) ↦
              let tables : s' ≡ written next s = cc in
              (
                cc,
                ap (λ t. find next.name t.current) tables
                    ∙ find-upsert next.name next s.current
                    ∙ rw (same_refl next.name) refl,
              )
        ]

  -- The version that an accepted write leaves as the newest, which has the write's body and flag.
  abbrev Left : Request K → Version K → Store K → Type 0
  Left r v s' = (find r.key s'.current ≡ some v) × (is_identical r v ≡ true)

  next-Left :
      (r : Request K) (v : Version K) (s s' : Store K)
      → r.sent ≡ r.stored
      → write (next_of r) s ≡ put_ok v s'
      → Left r v s'
  unfolding is_identical
  next-Left r v s s' same h =
      let (e, found) = write_ok (next_of r) v s s' h in
      (
        found ∙ ap some (sym e),
        ap (is_identical r) e
            ∙ ap (λ b. str_eq b r.stored && same_flag r.deleted r.deleted) same
            ∙ rw (str_eq_refl r.stored) (same_flag_refl r.deleted),
      )

  put-Left :
      (r : Request K) (v : Version K) (s s' : Store K) (o : Option (Version K))
      → find r.key s.current ≡ o
      → r.sent ≡ r.stored
      → on_current r o s ≡ put_ok v s'
      → Left r v s'
  unfolding on_current
  put-Left r v s s' none e same h =
      elim (if-cases r.deleted (put_err no_such)
        (if not (r.base_rev == 0) then put_err no_such else write (next_of r) s) h) [
          | inl (gone, x) ↦ cc
          | inr (live, x) ↦
              elim (if-cases (not (r.base_rev == 0)) (put_err no_such) (write (next_of r) s) x) [
                | inl (other, y) ↦ cc
                | inr (zero_base, y) ↦ next-Left r v s s' same y
              ]
        ]
  put-Left r v s s' (some cur) e same h =
      elim (if-cases (is_identical r cur) (put_ok cur s)
        (if not (r.base_rev == cur.rev) then put_err (stale cur) else write (next_of r) s) h) [
          | inl (again, x) ↦
              let first : v ≡ cur = cc in
              let tables : s' ≡ s = cc in
              (
                ap (λ t. find r.key t.current) tables ∙ e ∙ ap some (sym first),
                ap (is_identical r) first ∙ again,
              )
          | inr (changed, x) ↦
              elim (if-cases (not (r.base_rev == cur.rev)) (put_err (stale cur))
                (write (next_of r) s) x) [
                  | inl (other, y) ↦ cc
                  | inr (base, y) ↦ next-Left r v s s' same y
                ]
        ]

  -- An accepted write whose body is stored as it came, sent again at a later time and on any revision,
  -- answers the same version and changes nothing.
  pub put_retry :
      (r : Request K) (later : Bytes) (base : ℕ) (v : Version K) (s s' : Store K)
      → r.sent ≡ r.stored
      → put r s ≡ put_ok v s'
      → put (record r { now = later; base_rev = base }) s' ≡ put_ok v s'
  unfolding put on_current is_identical
  put_retry r later base v s s' same h =
      let (found, again) = put-Left r v s s' (find r.key s.current) refl same h in
      rw found (rw again refl)
