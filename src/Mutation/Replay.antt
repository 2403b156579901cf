-- ===== src/Mutation/Replay.antt =====
-- Retries of a mutation (checkedTaskMutation of internal/store/tasks.go).
use aimem.Prelude.{
  ◌≡◌, ◌≢◌, ◌∙◌, refl, true, false, Option, none, some, Bytes, str_eq, str_eq_refl, str_eq_iff,
  arith,
}
use aimem.Json.{Value, receipt_digest}
use aimem.Task.{TaskActor, actor_key}
use aimem.Task.Content.{Platform}
use aimem.Error.{Error, ok, err, retry_conflict, bad_actor, reserved_scope}
use aimem.Db.{
  Receipt, Saved, Db, Tx, task_scope_ok, is_reserved_project, bind_result-eq-ok, refuse_when-then,
  check_input-then, from_option-then,
}
use aimem.Mutation.{
  Codec, RequestKey, is_request, find_receipt, insert_receipt, replay_receipt, apply_first,
  receipt_mutation, checked_task_mutation, key_error, answer,
}

abbrev pub receipt_of : RequestKey → Bytes → Saved → Receipt
receipt_of k digest saved = record {
  actor = k.actor;
  operation = k.operation;
  scope = k.scope;
  key = k.key;
  digest = digest;
  result = saved;
}

is_request_self :
    (k : RequestKey) (digest : Bytes) (saved : Saved)
    → is_request k (receipt_of k digest saved) ≡ true
unfolding is_request
is_request_self k digest saved = simp str_eq_refl

find_receipt-insert_receipt :
    (k : RequestKey) (digest : Bytes) (saved : Saved) (db : Db) {u : Unit {0}} {db' : Db}
    → insert_receipt k digest saved db ≡ ok (u, db')
    → find_receipt k db'.requests ≡ some (receipt_of k digest saved)
unfolding insert_receipt find_receipt
find_receipt-insert_receipt k digest saved db h = ground (arith, is_request_self k digest saved)

-- Every stored receipt is still found.
abbrev pub KeepsRequests : Db → Db → Type 0
KeepsRequests db db' =
    (k : RequestKey) (r : Receipt)
    → find_receipt k db.requests ≡ some r
    → find_receipt k db'.requests ≡ some r

module _ {T : Type 0} ⦃c : Codec T⦄ (k : RequestKey) (digest : Bytes) where
  -- A first request leaves the receipt that a retry finds.
  apply_first_saved :
      (fn : Tx T) (db : Db) {out : T} {db' : Db}
      → apply_first k digest fn db ≡ ok (out, db')
      → find_receipt k db'.requests ≡ some (receipt_of k digest (c.save out))
  unfolding apply_first
  apply_first_saved fn db h =
      let (out₀, db₁, _, h₁) = bind_result-eq-ok (fn db) _ h in
      let (_, db₂, inserted, h₂) =
        bind_result-eq-ok (insert_receipt k digest (c.save out₀) db₁) _ h₁ in
      ground (arith, find_receipt-insert_receipt k digest (c.save out₀) db₁ inserted)

  replay_own :
      (out : T) (db : Db)
      → replay_receipt (receipt_of k digest (c.save out)) digest db ≡ ok (out, db)
  unfolding replay_receipt
  replay_own out db = rw (str_eq_refl digest) (rw (c.load-save out))

  -- After a success the receipt of the key holds the digest and the result.
  answer_saved :
      (found : Option Receipt) (fn : Tx T) (mid : Db) {out : T} {db' : Db}
      → find_receipt k mid.requests ≡ found
      → answer k digest fn found mid ≡ ok (out, db')
      → (r : Receipt) × (find_receipt k db'.requests ≡ some r)
        × (str_eq r.digest digest ≡ true)
        × (c.load r.result ≡ some out)
  unfolding answer
  answer_saved none fn mid {out} e h = (
    receipt_of k digest (c.save out),
    apply_first_saved fn mid h,
    str_eq_refl digest,
    c.load-save out,
  )
  answer_saved (some r) fn mid e h =
      unfold replay_receipt in (r, ground arith, ground arith, ground arith)

  receipt_mutation_saved :
      (check : Tx (Unit {0})) (fn : Tx T) (db : Db) {out : T} {db' : Db}
      → receipt_mutation k digest check fn db ≡ ok (out, db')
      → (r : Receipt) × (find_receipt k db'.requests ≡ some r)
        × (str_eq r.digest digest ≡ true)
        × (c.load r.result ≡ some out)
  unfolding receipt_mutation
  receipt_mutation_saved check fn db h =
      let (_, mid, _, h₁) = bind_result-eq-ok (check db) _ h in
      answer_saved (find_receipt k mid.requests) fn mid refl h₁

  -- The keyed part of a retry: after a success, with a fresh receipt or a replay, the same request
  -- in any later state with its receipt, under a check that passes, answers the same and changes
  -- nothing, whatever its effect would be.
  pub receipt_retry :
      (check check' : Tx (Unit {0})) (fn fn' : Tx T) (db : Db) {out : T} {db' : Db} (later : Db)
      → receipt_mutation k digest check fn db ≡ ok (out, db')
      → KeepsRequests db' later
      → check' later ≡ ok (tt, later)
      → receipt_mutation k digest check' fn' later ≡ ok (out, later)
  unfolding receipt_mutation answer replay_receipt
  receipt_retry check check' fn fn' db {out} {db'} later h keeps again =
      let (r, found, same, loaded) = receipt_mutation_saved check fn db h in
      rw (again) (rw (keeps k r found) (rw same (rw loaded)))

  -- The key with another input is refused, and nothing changes.
  pub receipt_reuse :
      (digest' : Bytes) (check check' : Tx (Unit {0})) (fn fn' : Tx T) (db : Db) {out : T}
      {db' : Db} (later : Db)
      → receipt_mutation k digest check fn db ≡ ok (out, db')
      → KeepsRequests db' later
      → check' later ≡ ok (tt, later)
      → digest ≢ digest'
      → receipt_mutation k digest' check' fn' later ≡ err retry_conflict
  unfolding receipt_mutation answer replay_receipt
  receipt_reuse digest' check check' fn fn' db {out} {db'} later h keeps again other =
      let (r, found, same, loaded) = receipt_mutation_saved check fn db h in
      rw again (
        rw (keeps k r found)
          (ground (arith, str_eq_iff r.digest digest, str_eq_iff r.digest digest')))

abbrev pub request_of : Bytes → Bytes → Bytes → Bytes → RequestKey
request_of a op scope key = record { actor = a; operation = op; scope = scope; key = key }

module _ {T : Type 0} ⦃c : Codec T⦄ (p : Platform) (actor : TaskActor) (op scope key : Bytes) where
  -- What an accepted mutation passed before its transaction.
  pub checked-eq-ok :
      (input : Value) (check : Tx (Unit {0})) (fn : Tx T) (db : Db) {out : T} {db' : Db}
      → checked_task_mutation p actor op scope key input check fn db ≡ ok (out, db')
      → (a : Bytes) × (actor_key p.refuses actor ≡ some a)
        × (is_reserved_project db.project_id ≡ false)
        × (key_error p key ≡ none)
        × (receipt_mutation (request_of a op scope key) (receipt_digest p.hashing input) check fn db
            ≡ ok (out, db'))
  unfolding checked_task_mutation task_scope_ok
  checked-eq-ok input check fn db h =
      let (scoped, h₁) =
        refuse_when-then _ db (is_reserved_project db.project_id) reserved_scope h in
      let (a, keyed, h₂) = from_option-then (actor_key p.refuses actor) bad_actor _ db h₁ in
      let (texted, h₃) = check_input-then _ db (key_error p key) h₂ in
      (a, keyed, scoped, texted, h₃)

  -- A mutation whose guards pass is its keyed part.
  checked-eq-receipt :
      (a : Bytes) (input : Value) (check : Tx (Unit {0})) (fn : Tx T) (db : Db)
      → actor_key p.refuses actor ≡ some a
      → is_reserved_project db.project_id ≡ false
      → key_error p key ≡ none
      → checked_task_mutation p actor op scope key input check fn db
        ≡ receipt_mutation (request_of a op scope key) (receipt_digest p.hashing input) check fn db
  unfolding checked_task_mutation task_scope_ok
  checked-eq-receipt a input check fn db keyed scoped texted = rw (scoped) (rw keyed (rw texted))

  -- A retry of an accepted mutation: the same actor, key and input answer the saved result and
  -- change nothing, whatever else happens to the effect, as long as the check passes again.
  pub checked_retry :
      (input : Value) (check check' : Tx (Unit {0})) (fn fn' : Tx T) (db : Db) {out : T} {db' : Db}
      (later : Db)
      → checked_task_mutation p actor op scope key input check fn db ≡ ok (out, db')
      → KeepsRequests db' later
      → later.project_id ≡ db.project_id
      → check' later ≡ ok (tt, later)
      → checked_task_mutation p actor op scope key input check' fn' later ≡ ok (out, later)
  checked_retry input check check' fn fn' db {out} {db'} later h keeps same again =
      let (a, keyed, scoped, texted, h₁) = checked-eq-ok input check fn db h in
      checked-eq-receipt a input check' fn' later keyed (rw same scoped) texted
      ∙ receipt_retry (request_of a op scope key) (receipt_digest p.hashing input) check check' fn
          fn' db later h₁ keeps again

  -- A check that fails refuses the retry too.
  pub checked_refused :
      (input input' : Value) (check check' : Tx (Unit {0})) (fn fn' : Tx T) (db : Db) {out : T}
      {db' : Db} (later : Db) (e : Error)
      → checked_task_mutation p actor op scope key input check fn db ≡ ok (out, db')
      → later.project_id ≡ db.project_id
      → check' later ≡ err e
      → checked_task_mutation p actor op scope key input' check' fn' later ≡ err e
  unfolding receipt_mutation
  checked_refused input input' check check' fn fn' db {out} {db'} later e h same refused =
      let (a, keyed, scoped, texted, h₁) = checked-eq-ok input check fn db h in
      checked-eq-receipt a input' check' fn' later keyed (rw same scoped) texted ∙ rw refused refl

  -- The same key with an input of another digest is a conflict, and nothing changes.
  pub checked_reuse :
      (input input' : Value) (check check' : Tx (Unit {0})) (fn fn' : Tx T) (db : Db) {out : T}
      {db' : Db} (later : Db)
      → checked_task_mutation p actor op scope key input check fn db ≡ ok (out, db')
      → KeepsRequests db' later
      → later.project_id ≡ db.project_id
      → check' later ≡ ok (tt, later)
      → receipt_digest p.hashing input ≢ receipt_digest p.hashing input'
      → checked_task_mutation p actor op scope key input' check' fn' later ≡ err retry_conflict
  checked_reuse input input' check check' fn fn' db {out} {db'} later h keeps same again other =
      let (a, keyed, scoped, texted, h₁) = checked-eq-ok input check fn db h in
      checked-eq-receipt a input' check' fn' later keyed (rw same scoped) texted
      ∙ receipt_reuse (request_of a op scope key) (receipt_digest p.hashing input)
          (receipt_digest p.hashing input') check check' fn fn' db later h₁ keeps again other
