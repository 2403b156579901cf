-- ===== src/Docs.antt =====
-- Shared documents (internal/store/docs.go) and structured collections
-- (internal/store/collections.go): the checks of a write, then the compare-and-swap of
-- Versions.antt. json.Valid, strings.TrimSpace and redact.ScanAuthored are parameters.
pub mod Refine
use aimem.Prelude.{
  ℕ, zero, suc, ◌≡◌, ◌↔◌, refl, Bool, true, false, not, ◌&&◌, ◌||◌, List, [], ◌∷◌, Option, none,
  some, Bytes, bytes, str_eq, str_eq_iff, leb, ltb, ◌==◌, if◌then◌else◌, all, length, split_at,
  arith,
}
use aimem.Text.{doc_name}
use aimem.Task.Content.{valid_record_id}
use aimem.Versions.{
  Key, Version, Store, PutError, bad_name, bad_id, not_object, too_large, secret, Answer, put_ok,
  put_err, Request, put, get,
}

abbrev pub max_doc_bytes : ℕ
max_doc_bytes = 262144

abbrev pub max_record_bytes : ℕ
max_record_bytes = 32768

pub record RecordKey : Type 0 where
  pub collection : Bytes
  pub id : Bytes

unfoldable pub same_record : RecordKey → RecordKey → Bool
same_record a b = str_eq a.collection b.collection && str_eq a.id b.id

pub same_record_iff : (a b : RecordKey) → (same_record a b ≡ true) ↔ (a ≡ b)
unfolding same_record
same_record_iff a b = ground (arith, str_eq_iff a.collection b.collection, str_eq_iff a.id b.id)

instance abbrev pub doc_key : Key Bytes
doc_key = record { same = str_eq; same_iff = str_eq_iff }

instance abbrev pub record_key : Key RecordKey
record_key = record { same = same_record; same_iff = same_record_iff }

-- The checks in their order, `if bad { return err }` each, in front of the transaction.
abbrev pub guarded : {K S : Type 0} → List (Bool × PutError K) → Answer K S → Answer K S
guarded [] a = a
guarded ((bad, e) ∷ checks) a = if bad then put_err e else guarded checks a

abbrev pub is_found : List Bytes → Bool
is_found [] = false
is_found (c ∷ cs) = true

-- What the writes take from outside: the secrets that redact.ScanAuthored refuses, and for records
-- json.Valid and strings.TrimSpace.
pub record Checks : Type 0 where
  pub refused_secrets : Bytes → List Bytes
  pub json_valid : Bytes → Bool
  pub trim_space : Bytes → Bytes

pub starts_object : Bytes → Bool
starts_object [] = false
starts_object (c ∷ s) = c == b'{'

module _ (checks : Checks) where
  -- The request that PutDoc makes of its arguments: a deletion stores no body.
  abbrev pub doc_request : Bytes → Bytes → Bytes → ℕ → Bool → Bytes → Request Bytes
  doc_request name body updated_by base_rev deleted now = record {
    key = name;
    sent = body;
    stored = if deleted then [] else body;
    updated_by = updated_by;
    base_rev = base_rev;
    deleted = deleted;
    now = now;
  }

  abbrev pub doc_checks : Bytes → Bytes → List (Bool × PutError Bytes)
  doc_checks name body =
      (not (doc_name name), bad_name)
      ∷ (ltb max_doc_bytes (length body), too_large (length body))
      ∷ (is_found (checks.refused_secrets body), secret (checks.refused_secrets body))
      ∷ []

  -- PutDoc.
  unfoldable pub put_doc :
      Bytes → Bytes → Bytes → ℕ → Bool → Bytes → Store Bytes → Answer Bytes (Store Bytes)
  unfolding put doc_name
  put_doc name body updated_by base_rev deleted now s =
      guarded (doc_checks name body) (put (doc_request name body updated_by base_rev deleted now) s)

  -- GetDoc.
  unfoldable pub get_doc : Bytes → ℕ → Store Bytes → Option (Version Bytes)
  unfolding get
  get_doc name rev s = get name rev s

  abbrev pub record_body : Bytes → Bool → Bytes
  record_body body deleted = if deleted then bytes "{}" else body

  abbrev pub record_request : RecordKey → Bytes → Bytes → ℕ → Bool → Bytes → Request RecordKey
  record_request k body updated_by base_rev deleted now = record {
    key = k;
    sent = body;
    stored = body;
    updated_by = updated_by;
    base_rev = base_rev;
    deleted = deleted;
    now = now;
  }

  abbrev pub record_checks : RecordKey → Bytes → List (Bool × PutError RecordKey)
  record_checks k body =
      (not (doc_name k.collection), bad_name)
      ∷ (not (valid_record_id k.id), bad_id)
      ∷ (ltb max_record_bytes (length body), too_large (length body))
      ∷ (not (checks.json_valid body) || not (starts_object (checks.trim_space body)), not_object)
      ∷ (is_found (checks.refused_secrets body), secret (checks.refused_secrets body))
      ∷ []

  -- PutRecord.
  unfoldable pub put_record :
      RecordKey
      → Bytes
      → Bytes
      → ℕ
      → Bool
      → Bytes
      → Store RecordKey
      → Answer RecordKey (Store RecordKey)
  unfolding put doc_name valid_record_id starts_object
  put_record k body updated_by base_rev deleted now s =
      let b = record_body body deleted in
      guarded (record_checks k b) (put (record_request k b updated_by base_rev deleted now) s)

  -- GetRecord.
  unfoldable pub get_record : RecordKey → ℕ → Store RecordKey → Option (Version RecordKey)
  unfolding get
  get_record k rev s = get k rev s
