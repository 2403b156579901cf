-- ===== src/Docs/Refine.antt =====
-- PutDoc and PutRecord (internal/store/docs.go, internal/store/collections.go) against the register
-- of versions, and their retries.
use aimem.Prelude.{ℕ, ◌≡◌, refl, sym, ◌∙◌, Bool, true, false, List, [], ◌∷◌, Bytes, if◌then◌else◌}
use aimem.Versions.{Key, Version, Store, PutError, Answer, put_ok, put_err, Request, put}
use aimem.Versions.Register.{History, Represents, Agrees, Agrees-if, register_put, put-Represents}
use aimem.Versions.Retry.{put_retry}
use aimem.Docs.{
  Checks, RecordKey, doc_key, record_key, guarded, doc_request, doc_checks, put_doc, record_body,
  record_request, record_checks, put_record,
}

module _ {K : Type 0} ⦃key : Key K⦄ where
  guarded-Agrees :
      (l : List (Bool × PutError K)) (a : Answer K (Store K)) (b : Answer K (History K))
      → Agrees a b
      → Agrees (guarded l a) (guarded l b)
  guarded-Agrees [] a b h = h
  guarded-Agrees ((bad, e) ∷ l) a b h =
      Agrees-if bad (put_err e) (guarded l a) (put_err e) (guarded l b) (λ _. refl)
        (λ _. guarded-Agrees l a b h)

  -- Checks that let a write through let every write through.
  guarded-then :
      (l : List (Bool × PutError K)) (a b : Answer K (Store K)) {v : Version K} {s : Store K}
      → guarded l a ≡ put_ok v s
      → (a ≡ put_ok v s) × (guarded l b ≡ b)
  guarded-then [] a b h = (h, refl)
  guarded-then ((true, e) ∷ l) a b h = cc
  guarded-then ((false, e) ∷ l) a b h = guarded-then l a b h

module _ (checks : Checks) where
  -- Where the tables show a register, PutDoc answers as a compare-and-swap on the register behind the
  -- same checks, and the tables show the register after it.
  pub put_doc-refines :
      (name body updated_by : Bytes) (base_rev : ℕ) (deleted : Bool) (now : Bytes) (s : Store Bytes)
      (h : History Bytes)
      → Represents s h
      → Agrees (put_doc checks name body updated_by base_rev deleted now s) (
          guarded
            (doc_checks checks name body)
            (register_put (doc_request checks name body updated_by base_rev deleted now) h))
  unfolding put_doc
  put_doc-refines name body updated_by base_rev deleted now s h rep =
      guarded-Agrees (doc_checks checks name body) _ _
        (put-Represents (doc_request checks name body updated_by base_rev deleted now) s h rep)

  -- The same for PutRecord.
  pub put_record-refines :
      (k : RecordKey) (body updated_by : Bytes) (base_rev : ℕ) (deleted : Bool) (now : Bytes)
      (s : Store RecordKey) (h : History RecordKey)
      → Represents s h
      → Agrees (put_record checks k body updated_by base_rev deleted now s) (
          guarded (record_checks checks k (record_body checks body deleted)) (
            register_put
              (record_request checks k
                (record_body checks body deleted)
                updated_by
                base_rev
                deleted
                now)
              h))
  unfolding put_record
  put_record-refines k body updated_by base_rev deleted now s h rep =
      let b = record_body checks body deleted in
      guarded-Agrees (record_checks checks k b) _ _
        (put-Represents (record_request checks k b updated_by base_rev deleted now) s h rep)

  -- An accepted PutDoc that is no deletion, or one with an empty body, sent again in the
  -- state that it left, at any time and on any base revision, answers the same version and changes nothing.
  pub put_doc_retry :
      (name body updated_by : Bytes) (base_rev base_rev' : ℕ) (deleted : Bool) (now later : Bytes)
      (v : Version Bytes) (s s' : Store Bytes)
      → (if deleted then [] else body) ≡ body
      → put_doc checks name body updated_by base_rev deleted now s ≡ put_ok v s'
      → put_doc checks name body updated_by base_rev' deleted later s' ≡ put_ok v s'
  unfolding put_doc
  put_doc_retry name body updated_by base_rev base_rev' deleted now later v s s' whole h =
      let again : Request Bytes = doc_request checks name body updated_by base_rev' deleted later in
      let (done, passed) =
        guarded-then (doc_checks checks name body)
          (put (doc_request checks name body updated_by base_rev deleted now) s) (put again s') h in
      passed
      ∙ put_retry (doc_request checks name body updated_by base_rev deleted now) later base_rev' v s
          s' (sym whole) done

  -- An accepted PutRecord, a deletion too, sent again in the state that it left, at any time and on any
  -- base revision, answers the same version and changes nothing.
  pub put_record_retry :
      (k : RecordKey) (body updated_by : Bytes) (base_rev base_rev' : ℕ) (deleted : Bool)
      (now later : Bytes) (v : Version RecordKey) (s s' : Store RecordKey)
      → put_record checks k body updated_by base_rev deleted now s ≡ put_ok v s'
      → put_record checks k body updated_by base_rev' deleted later s' ≡ put_ok v s'
  unfolding put_record
  put_record_retry k body updated_by base_rev base_rev' deleted now later v s s' h =
      let b = record_body checks body deleted in
      let again : Request RecordKey =
        record_request checks k b updated_by base_rev' deleted later in
      let (done, passed) =
        guarded-then (record_checks checks k b)
          (put (record_request checks k b updated_by base_rev deleted now) s) (put again s') h in
      passed
      ∙ put_retry (record_request checks k b updated_by base_rev deleted now) later base_rev' v s s'
          refl done
