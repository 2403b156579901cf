-- ===== src/Ledger/Receipts.antt =====
-- Accepted transitions and their receipts (reservationMutationTx of
-- internal/store/task_reservations.go).
use aimem.Prelude.{
  ◌≡◌, refl, true, false, not, List, ◌∷◌, Option, none, some, Bytes, str_eq, str_eq_refl,
  if◌then◌else◌, arith,
}
use aimem.Json.{Value, receipt_digest}
use aimem.Task.Content.{Platform}
use aimem.Error.{ok, retry_conflict, reservation_holder, bad_actor, tasks_disabled, reserved_scope}
use aimem.Db.{
  ReservationReceipt, Db, Tx, is_reserved_project, task_scope_ok, bind_result-eq-ok,
  refuse_when-then, check_input-then, check_error-then, from_option-then,
}
use aimem.Mutation.{key_error}
use aimem.Reservation.{Operation, operation_name, ReservationInput, Outcome, acting_member}
use aimem.Reservation.Input.{validate_binding}
use aimem.Ledger.{
  reservation_principal, recovery_principal, LedgerKey, is_ledger_request, find_ledger_receipt,
  insert_ledger_receipt, service_of, proof_digest_of,
}
use aimem.Ledger.Apply.{
  Caller, acts_for_recovery, digest_input, replay_outcome, apply_outcome, answer_outcome, acted_on,
  reservation_mutation,
}

abbrev pub receipt_of : LedgerKey → Bytes → Outcome → Bytes → Bytes → ReservationReceipt
receipt_of k digest out acted now = record {
  principal = k.principal;
  operation = k.operation;
  task_id = k.task_id;
  key = k.key;
  digest = digest;
  result = out;
  service_id = service_of out.coordination out.binding;
  proof_digest = proof_digest_of out.coordination;
  reservation_id = acted;
  committed_at = now;
}

insert-eq-ok :
    (k : LedgerKey) (digest : Bytes) (out : Outcome) (acted now : Bytes) (db : Db) {u : Unit {0}}
    {db' : Db}
    → insert_ledger_receipt k digest out acted now db ≡ ok (u, db')
    → db' ≡ record db {
      reservation_requests = receipt_of k digest out acted now ∷ db.reservation_requests;
    }
unfolding insert_ledger_receipt
insert-eq-ok k digest out acted now db h = ground arith

pub find-receipt_of :
    (k : LedgerKey) (digest : Bytes) (out : Outcome) (acted now : Bytes)
    (rs : List ReservationReceipt)
    → find_ledger_receipt k (receipt_of k digest out acted now ∷ rs)
      ≡ some (receipt_of k digest out acted now)
unfolding find_ledger_receipt is_ledger_request
find-receipt_of k digest out acted now rs = simp str_eq_refl

-- Every stored receipt is still found.
abbrev pub KeepsLedger : Db → Db → Type 0
KeepsLedger db db' =
    (k : LedgerKey) (r : ReservationReceipt)
    → find_ledger_receipt k db.reservation_requests ≡ some r
    → find_ledger_receipt k db'.reservation_requests ≡ some r

-- The stored outcome was served: same input, the member who acted, an authorized caller.
pub record Served (op : Operation) (c : Caller) (digest : Bytes) (r : ReservationReceipt) (db : Db)
    (out : Outcome) (db' : Db) : Type 0 where
  pub same_input : str_eq r.digest digest ≡ true
  pub member : acting_member op r.result.binding c.binding ≡ true
  pub authorized : c.authorize ≡ none
  pub result : out ≡ record r.result { replayed = true }
  pub unchanged : db' ≡ db

replay-Served :
    (op : Operation) (c : Caller) (digest : Bytes) (r : ReservationReceipt) (db : Db)
    {out : Outcome} {db' : Db}
    → replay_outcome op c digest r db ≡ ok (out, db')
    → Served op c digest r db out db'
unfolding replay_outcome
replay-Served op c digest r db h =
    let (same_input, h₁) = refuse_when-then _ db (not (str_eq r.digest digest)) retry_conflict h in
    let (member, h₂) =
      refuse_when-then _ db (not (acting_member op r.result.binding c.binding)) reservation_holder
        h₁ in
    let (authorized, h₃) = check_error-then _ db c.authorize h₂ in
    record {
      same_input = ground arith;
      member = ground arith;
      authorized = authorized;
      result = ground arith;
      unchanged = ground arith;
    }

-- The transition ran once, and its receipt holds the outcome.
pub record Ran (op : Operation) (c : Caller) (i : ReservationInput) (k : LedgerKey)
    (digest now : Bytes) (fn : Tx Outcome) (db : Db) (out : Outcome) (db' : Db) : Type 0 where
  pub enabled : db.tasks_enabled ≡ true
  pub made : Outcome
  pub mid : Db
  pub effect : fn db ≡ ok (made, mid)
  pub authorized : c.authorize ≡ none
  pub result : out ≡ record made { binding = c.binding }
  pub added : db' ≡ record mid {
    reservation_requests =
        receipt_of k digest out (acted_on op i out) now ∷ mid.reservation_requests;
  }

apply-Ran :
    (op : Operation) (c : Caller) (i : ReservationInput) (k : LedgerKey) (digest now : Bytes)
    (fn : Tx Outcome) (db : Db) {out : Outcome} {db' : Db}
    → apply_outcome op c i k digest now fn db ≡ ok (out, db')
    → Ran op c i k digest now fn db out db'
unfolding apply_outcome
apply-Ran op c i k digest now fn db {out} {db'} h =
    let (enabled, h₁) = refuse_when-then _ db (not db.tasks_enabled) tasks_disabled h in
    let (made, mid, effect, h₂) = bind_result-eq-ok (fn db) _ h₁ in
    let bound : Outcome = record made { binding = c.binding } in
    let (_, mid₂, added, h₃) =
      bind_result-eq-ok (insert_ledger_receipt k digest bound (acted_on op i bound) now mid) _ h₂ in
    let (authorized, h₄) = check_error-then _ mid₂ c.authorize h₃ in
    let result : out ≡ bound = ground arith in
    record {
      enabled = ground arith;
      made = made;
      mid = mid;
      effect = effect;
      authorized = authorized;
      result = result;
      added =
          rw result
            (ground (arith, insert-eq-ok k digest bound (acted_on op i bound) now mid added));
    }

abbrev pub principal_of : Platform → Caller → Option Bytes
principal_of p c =
    if acts_for_recovery c then recovery_principal p c.actor else reservation_principal p c.actor

abbrev pub key_of : Operation → Caller → ReservationInput → Bytes → LedgerKey
key_of op c i principal = record {
  principal = principal;
  operation = operation_name op;
  task_id = i.task_id;
  key = c.key;
}

module _ (p : Platform) (op : Operation) (c : Caller) (i : ReservationInput) (extra : Option Value)
    (now : Bytes) (fn : Tx Outcome) (db : Db) where
  -- The two ways in which a transition is accepted.
  pub data Accepted (out : Outcome) (db' : Db) : Type 0 where
    served :
        (a : Bytes) (r : ReservationReceipt)
        → principal_of p c ≡ some a
        → find_ledger_receipt (key_of op c i a) db.reservation_requests ≡ some r
        → Served op c (receipt_digest p.hashing (digest_input i extra)) r db out db'
        → Accepted out db'
    ran :
        (a : Bytes)
        → principal_of p c ≡ some a
        → find_ledger_receipt (key_of op c i a) db.reservation_requests ≡ none
        → Ran op c i
            (key_of op c i a)
            (receipt_digest p.hashing (digest_input i extra))
            now
            fn
            db
            out
            db'
        → Accepted out db'

  -- What was checked in front: the scope, the binding, the actor and the key.
  pub record Entered (a : Bytes) : Type 0 where
    pub scope : is_reserved_project db.project_id ≡ false
    pub bound : validate_binding c.binding ≡ none
    pub keyed : key_error p c.key ≡ none
    pub principal : principal_of p c ≡ some a

  pub mutation-Accepted :
      {out : Outcome} {db' : Db}
      → reservation_mutation p op c i extra now fn db ≡ ok (out, db')
      → ((a : Bytes) × Entered a) × Accepted out db'
  unfolding reservation_mutation task_scope_ok answer_outcome
  mutation-Accepted {out} {db'} h =
      let (scope, h₁) =
        refuse_when-then _ db (is_reserved_project db.project_id) reserved_scope h in
      let (bound, h₂) = check_input-then _ db (validate_binding c.binding) h₁ in
      let (a, principal, h₃) = from_option-then (principal_of p c) bad_actor _ db h₂ in
      let (keyed, h₄) = check_input-then _ db (key_error p c.key) h₃ in
      (
        (a, record { scope = scope; bound = bound; keyed = keyed; principal = principal }),
        go a principal (find_ledger_receipt (key_of op c i a) db.reservation_requests) refl h₄,
      )
    where
      go :
          (a : Bytes)
          → principal_of p c ≡ some a
          → (found : Option ReservationReceipt)
          → find_ledger_receipt (key_of op c i a) db.reservation_requests ≡ found
          → answer_outcome op c i
              (key_of op c i a)
              (receipt_digest p.hashing (digest_input i extra))
              now
              fn
              found
              db
            ≡ ok (out, db')
          → Accepted out db'
      go a principal none missing h = ran a principal missing (
          apply-Ran op c i (key_of op c i a) (receipt_digest p.hashing (digest_input i extra)) now
            fn db h)
      go a principal (some r) found h =
          served a r principal found
            (replay-Served op c (receipt_digest p.hashing (digest_input i extra)) r db h)
