-- ===== src/Ledger/Kept.antt =====
-- Receipts are never dropped (checkedTaskMutation of internal/store/tasks.go and
-- reservationMutationTx of internal/store/task_reservations.go).
use aimem.Prelude.{
  ◌≡◌, ap, ◌∙◌, List, ◌∷◌, none, some, Bytes, str_eq_iff, arith, Bool-cases, inl, inr,
}
use aimem.Json.{Value}
use aimem.Task.{TaskActor}
use aimem.Task.Content.{Platform}
use aimem.Error.{ok}
use aimem.Db.{Receipt, ReservationReceipt, Saved, Db, Tx}
use aimem.Mutation.{Codec, RequestKey, is_request, find_receipt}
use aimem.Mutation.Replay.{receipt_of, KeepsRequests}
use aimem.Mutation.Fresh.{Applied, Accepted, replayed, applied}
use aimem.Reservation.{Operation, ReservationInput, Outcome}
use aimem.Ledger.{LedgerKey, is_ledger_request, find_ledger_receipt}
use aimem.Ledger.Apply.{Caller}
use aimem.Ledger.Receipts
use aimem.Ledger.Receipts.{KeepsLedger}

-- What every accepted operation keeps: the project and the receipts of both tables.
pub record Kept (db db' : Db) : Type 0 where
  pub project : db'.project_id ≡ db.project_id
  pub requests : KeepsRequests db db'
  pub ledger : KeepsLedger db db'

pub same-Kept :
    (db db' : Db)
    → db'.project_id ≡ db.project_id
    → db'.requests ≡ db.requests
    → db'.reservation_requests ≡ db.reservation_requests
    → Kept db db'
same-Kept db db' p r l = record {
  project = p;
  requests = λ k x h. ap (find_receipt k) r ∙ h;
  ledger = λ k x h. ap (find_ledger_receipt k) l ∙ h;
}

pub unchanged-Kept : (db db' : Db) → db' ≡ db → Kept db db'
unchanged-Kept db db' e =
    same-Kept db db' (ap (λ d. d.project_id) e) (ap (λ d. d.requests) e)
      (ap (λ d. d.reservation_requests) e)

pub Kept-trans : {db mid db' : Db} → Kept db mid → Kept mid db' → Kept db db'
Kept-trans a b = record {
  project = b.project ∙ a.project;
  requests = λ k x h. b.requests k x (a.requests k x h);
  ledger = λ k x h. b.ledger k x (a.ledger k x h);
}

-- A receipt that is added under a key without one hides no other.
find_receipt-added :
    (k k' : RequestKey) (digest : Bytes) (saved : Saved) (rs : List Receipt) (r : Receipt)
    → find_receipt k rs ≡ none
    → find_receipt k' rs ≡ some r
    → find_receipt k' (receipt_of k digest saved ∷ rs) ≡ some r
unfolding find_receipt
find_receipt-added k k' digest saved rs r absent found =
    elim (Bool-cases (is_request k' (receipt_of k digest saved))) [
      | inl hit ↦
          let same : k ≡ k' =
            unfold is_request in
            ground (
              arith,
              hit,
              str_eq_iff k.actor k'.actor,
              str_eq_iff k.operation k'.operation,
              str_eq_iff k.scope k'.scope,
              str_eq_iff k.key k'.key,
            ) in
          cc
      | inr miss ↦ rw miss found
    ]

find_ledger-added :
    (k k' : LedgerKey) (digest : Bytes) (out : Outcome) (acted now : Bytes)
    (rs : List ReservationReceipt) (r : ReservationReceipt)
    → find_ledger_receipt k rs ≡ none
    → find_ledger_receipt k' rs ≡ some r
    → find_ledger_receipt k' (Receipts.receipt_of k digest out acted now ∷ rs) ≡ some r
unfolding find_ledger_receipt
find_ledger-added k k' digest out acted now rs r absent found =
    elim (Bool-cases (is_ledger_request k' (Receipts.receipt_of k digest out acted now))) [
      | inl hit ↦
          let same : k ≡ k' =
            unfold is_ledger_request in
            ground (
              arith,
              hit,
              str_eq_iff k.principal k'.principal,
              str_eq_iff k.operation k'.operation,
              str_eq_iff k.task_id k'.task_id,
              str_eq_iff k.key k'.key,
            ) in
          cc
      | inr miss ↦ rw miss found
    ]

module _ {T : Type 0} ⦃c : Codec T⦄ where
  -- A mutation whose effect keeps the receipts adds one.
  pub Applied-Kept :
      (k : RequestKey) (digest : Bytes) (fn : Tx T) (db : Db) {out : T} {db' : Db}
      → (one : Applied k digest fn db out db') → Kept db one.after
      → Kept db db'
  Applied-Kept k digest fn db {out} {db'} one g = record {
    project = ap (λ d. d.project_id) one.added ∙ g.project;
    requests = λ k' r h.
        ap (λ d. find_receipt k' d.requests) one.added
        ∙ find_receipt-added k k' digest (c.save out) one.after.requests r one.absent
            (g.requests k' r h);
    ledger = λ k' r h.
        ap (λ d. find_ledger_receipt k' d.reservation_requests) one.added ∙ g.ledger k' r h;
  }

  pub mutation-Kept :
      (p : Platform) (actor : TaskActor) (op scope key : Bytes) (input : Value)
      (check : Tx (Unit {0})) (fn : Tx T) (db : Db) {out : T} {db' : Db}
      → ((mid : Db) → fn db ≡ ok (out, mid) → Kept db mid)
      → Accepted p actor op scope key input check fn db out db'
      → Kept db db'
  mutation-Kept p actor op scope key input check fn db {out} {db'} f (replayed _ _ same) =
      unchanged-Kept db db' same
  mutation-Kept p actor op scope key input check fn db f (applied a _ _ one) =
      Applied-Kept _ _ fn db one (f one.after one.effect)

-- A transition whose effect keeps both tables of receipts adds one.
pub transition-Kept :
    (p : Platform) (op : Operation) (c : Caller) (i : ReservationInput) (extra : _) (now : Bytes)
    (fn : Tx Outcome) (db : Db) {out : Outcome} {db' : Db}
    → ((made : Outcome) (mid : Db)
        → fn db ≡ ok (made, mid)
        → (mid.project_id ≡ db.project_id)
          × (mid.requests ≡ db.requests)
          × (mid.reservation_requests ≡ db.reservation_requests))
    → Receipts.Accepted p op c i extra now fn db out db'
    → Kept db db'
transition-Kept p op c i extra now fn db {out} {db'} f (Receipts.served _ _ _ _ s) =
    unchanged-Kept db db' s.unchanged
transition-Kept p op c i extra now fn db {out} {db'} f (Receipts.ran a _ missing one) =
    let (project, requests, ledger) = f one.made one.mid one.effect in
    record {
      project = ap (λ d. d.project_id) one.added ∙ project;
      requests =
          λ k r h. ap (λ d. find_receipt k d.requests) one.added ∙ ap (find_receipt k) requests ∙ h;
      ledger = λ k r h.
          ap (λ d. find_ledger_receipt k d.reservation_requests) one.added
          ∙ find_ledger-added _ k _ out _ now one.mid.reservation_requests r
              (ap (find_ledger_receipt _) ledger ∙ missing) (ap (find_ledger_receipt k) ledger ∙ h);
    }
