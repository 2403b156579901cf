-- ===== src/Tests/DocRuns.antt =====
-- The writes of documents and records at small stores.
use aimem.Prelude.{
  ℕ, ◌≤◌, ◌≡◌, refl, Bool, true, false, List, [], ◌∷◌, Option, none, some, Bytes, bytes, ltb,
  if◌then◌else◌, filter, length,
}
use aimem.Versions.{
  Version, Store, Answer, put_ok, put_err, Request, put, get, is_named, find_revision, history_keep,
}
use aimem.Versions.Register.{
  Represents, Agrees, register_put, empty_store, empty-Represents, put_all, put_all-kept_bound,
  get-Represents, newest,
}
use aimem.Docs.{
  Checks, RecordKey, doc_key, record_key, doc_request, doc_checks, guarded, put_doc, record_body,
  record_request, record_checks, put_record, is_found, starts_object,
}
use aimem.Docs.Refine.{put_doc-refines, put_record-refines, put_doc_retry, put_record_retry}

abbrev checks : Checks
checks = record { refused_secrets = λ s. []; json_valid = starts_object; trim_space = λ s. s }

abbrev handoff : Bytes
handoff = bytes "handoff"

abbrev route : RecordKey
route = record { collection = bytes "api"; id = bytes "v1/tasks" }

abbrev first_version : {K : Type 0} → K → Bytes → Version K
first_version k body = record {
  name = k;
  body = body;
  rev = 1;
  updated_at = bytes "T1";
  updated_by = bytes "ann";
  deleted = false;
  size = 2;
}

abbrev one_version : {K : Type 0} → K → Bytes → Store K
one_version k body = record {
  current = first_version k body ∷ [];
  revisions = first_version k body ∷ [];
}

doc_written :
    put_doc checks handoff (bytes "v1") (bytes "ann") 0 false (bytes "T1") empty_store
    ≡ put_ok (first_version handoff (bytes "v1")) (one_version handoff (bytes "v1"))
unfolding put_doc put aimem.Versions.write aimem.Versions.find aimem.Versions.upsert
    aimem.Text.doc_name aimem.Prelude.str_eq
doc_written = refl

record_written :
    put_record checks route (bytes "{}") (bytes "ann") 0 false (bytes "T1") empty_store
    ≡ put_ok (first_version route (bytes "{}")) (one_version route (bytes "{}"))
unfolding put_record put aimem.Versions.write aimem.Versions.find aimem.Versions.upsert
    aimem.Text.doc_name aimem.Task.Content.valid_record_id aimem.Prelude.split_at
    aimem.Prelude.str_eq aimem.Docs.same_record
record_written = refl

put_doc-refines_example :
    Agrees (put_doc checks handoff (bytes "v1") (bytes "ann") 0 false (bytes "T1") empty_store) (
      guarded (doc_checks checks handoff (bytes "v1")) (
        register_put
          (doc_request checks handoff (bytes "v1") (bytes "ann") 0 false (bytes "T1"))
          (λ k. [])))
put_doc-refines_example =
    put_doc-refines checks handoff (bytes "v1") (bytes "ann") 0 false (bytes "T1") empty_store
      (λ k. []) empty-Represents

put_record-refines_example :
    Agrees (put_record checks route (bytes "{}") (bytes "ann") 0 false (bytes "T1") empty_store) (
      guarded (record_checks checks route (record_body checks (bytes "{}") false)) (
        register_put
          (record_request checks route
            (record_body checks (bytes "{}") false)
            (bytes "ann")
            0
            false
            (bytes "T1"))
          (λ k. [])))
put_record-refines_example =
    put_record-refines checks route (bytes "{}") (bytes "ann") 0 false (bytes "T1") empty_store
      (λ k. []) empty-Represents

put_doc_retry_example :
    put_doc checks handoff
      (bytes "v1")
      (bytes "ann")
      0
      false
      (bytes "T2")
      (one_version handoff (bytes "v1"))
    ≡ put_ok (first_version handoff (bytes "v1")) (one_version handoff (bytes "v1"))
put_doc_retry_example =
    put_doc_retry checks handoff (bytes "v1") (bytes "ann") 0 0 false (bytes "T1") (bytes "T2")
      (first_version handoff (bytes "v1")) empty_store (one_version handoff (bytes "v1")) refl
      doc_written

put_record_retry_example :
    put_record checks route
      (bytes "{}")
      (bytes "ann")
      7
      false
      (bytes "T2")
      (one_version route (bytes "{}"))
    ≡ put_ok (first_version route (bytes "{}")) (one_version route (bytes "{}"))
put_record_retry_example =
    put_record_retry checks route (bytes "{}") (bytes "ann") 0 7 false (bytes "T1") (bytes "T2")
      (first_version route (bytes "{}")) empty_store (one_version route (bytes "{}")) record_written

one-Represents : Represents (one_version handoff (bytes "v1")) (λ k.
    if is_named k (first_version handoff (bytes "v1"))
    then first_version handoff (bytes "v1") ∷ []
    else [])
unfolding put_doc put register_put aimem.Versions.write aimem.Versions.find aimem.Versions.upsert
    aimem.Text.doc_name aimem.Prelude.str_eq
one-Represents = put_doc-refines_example.1

get-Represents_example : get handoff 1 (one_version handoff (bytes "v1")) ≡ (
    if ltb 0 1
    then find_revision 1 (first_version handoff (bytes "v1") ∷ [])
    else newest (first_version handoff (bytes "v1") ∷ []))
unfolding aimem.Prelude.str_eq
get-Represents_example =
    get-Represents handoff 1 (one_version handoff (bytes "v1"))
      (λ k.
        if is_named k (first_version handoff (bytes "v1"))
        then first_version handoff (bytes "v1") ∷ []
        else [])
      one-Represents

put_all-kept_bound_example :
    length (
      filter
        (is_named handoff)
        (put_all
          (doc_request checks handoff (bytes "v1") (bytes "ann") 0 false (bytes "T1") ∷ [])
          empty_store).revisions)
    ≤ history_keep
put_all-kept_bound_example =
    put_all-kept_bound
      (doc_request checks handoff (bytes "v1") (bytes "ann") 0 false (bytes "T1") ∷ []) handoff
