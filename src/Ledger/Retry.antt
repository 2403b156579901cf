-- ===== src/Ledger/Retry.antt =====
-- Retries of a ledger transition (reservationMutationTx of internal/store/task_reservations.go):
-- a lost reply may be asked for again.
use aimem.Prelude.{
  ◌≡◌, refl, sym, ap, ◌∙◌, true, false, Option, none, some, Bytes, bytes, str_eq, str_eq_refl,
  str_eq_iff, arith,
}
use aimem.Json.{Value, receipt_digest}
use aimem.Reason.{recovery_binding}
use aimem.Task.Content.{Platform}
use aimem.Error.{ok, invalid}
use aimem.Db.{
  ReservationReceipt, Db, Tx, is_reserved_project, task_scope_ok, check_input-then,
  refuse_when-then,
}
use aimem.Reservation.{
  Operation, Binding, same_holder, is_empty, ReservationInput, Coordination, Outcome, acting_member,
}
use aimem.Reservation.Input.{validate_binding, validate_reservation_input}
use aimem.Ledger.{find_ledger_receipt}
use aimem.Ledger.Apply.{
  Caller, acted_on, acts_for_recovery, digest_input, replay_outcome, answer_outcome,
  reservation_mutation, apply_effect, coordination_error, apply_task_reservation,
}
use aimem.Ledger.Receipts.{
  Accepted, served, ran, mutation-Accepted, key_of, principal_of, receipt_of, find-receipt_of,
  KeepsLedger,
}
use aimem.Ledger.Moves.{Transition, apply_effect-Transition, Change-Keeps}

validate_binding-user :
    (b : Binding)
    → validate_binding b ≡ none
    → (is_empty b.user_id ≡ false) × (is_empty b.mode ≡ false)
unfolding validate_binding is_empty
validate_binding-user b h = ground (
  arith,
  str_eq_iff b.mode (bytes "personal"),
  str_eq_iff b.mode (bytes "recovery"),
  str_eq_iff b.mode (bytes "team"),
)

-- A member is the acting member of what it did itself.
acting_member_self :
    (op : Operation) (b : Binding) → validate_binding b ≡ none → acting_member op b b ≡ true
unfolding acting_member same_holder
acting_member_self op b h = ground (
  arith,
  validate_binding-user b h,
  str_eq_refl b.user_id,
  str_eq_refl b.mode,
  str_eq_refl b.profile_id,
  str_eq_refl b.role,
  str_eq_refl b.session_id,
)

module _ (p : Platform) (op : Operation) (c : Caller) (i : ReservationInput)
    (extra : Option Value) where
  abbrev digest : Bytes
  digest = receipt_digest p.hashing (digest_input i extra)

  -- After an acceptance the receipt of the request holds its outcome, for this member.
  pub record Recorded (a : Bytes) (out : Outcome) (db' : Db) : Type 0 where
    pub row : ReservationReceipt
    pub found : find_ledger_receipt (key_of op c i a) db'.reservation_requests ≡ some row
    pub same_input : str_eq row.digest digest ≡ true
    pub member : acting_member op row.result.binding c.binding ≡ true
    pub result : record row.result { replayed = true } ≡ record out { replayed = true }

  serve :
      (now : Bytes) (fn : Tx Outcome) (db : Db) (a : Bytes) (out : Outcome)
      → Recorded a out db
      → c.authorize ≡ none
      → answer_outcome op c i
          (key_of op c i a)
          digest
          now
          fn
          (find_ledger_receipt (key_of op c i a) db.reservation_requests)
          db
        ≡ ok (record out { replayed = true }, db)
  unfolding answer_outcome replay_outcome
  serve now fn db a out w authorized =
      rw w.found (rw w.same_input (rw w.member (rw authorized (ap (λ o. ok (o, db)) w.result))))

  -- Every acceptance leaves such a receipt, if the effect keeps the project.
  recorded :
      (now : Bytes) (fn : Tx Outcome) (db : Db) {out : Outcome} {db' : Db}
      → validate_binding c.binding ≡ none
      → (a : Bytes) → principal_of p c ≡ some a
      → Accepted p op c i extra now fn db out db'
      → Recorded a out db' × (c.authorize ≡ none)
  recorded now fn db {out} {db'} bound a principal (served b r principal' found s) =
      let same : b ≡ a = ground arith in
      (
        record {
          row = r;
          found = rw (s.unchanged) (rw same at found);
          same_input = s.same_input;
          member = s.member;
          result =
              ap {A = Outcome} {B = Outcome} (λ o. record o { replayed = true }) (sym s.result);
        },
        s.authorized,
      )
  recorded now fn db {out} {db'} bound a principal (ran b principal' missing one) =
      let same : b ≡ a = ground arith in
      (
        record {
          row = receipt_of (key_of op c i b) digest out (acted_on op i out) now;
          found = rw (one.added) (
              rw same (
                find-receipt_of (key_of op c i a) digest out (acted_on op i out) now
                  one.mid.reservation_requests));
          same_input = str_eq_refl digest;
          member = rw (one.result) (acting_member_self op c.binding bound);
          result = refl;
        },
        one.authorized,
      )

  Accepted-project :
      (now : Bytes) (fn : Tx Outcome) (db : Db) {out : Outcome} {db' : Db}
      → ((made : Outcome) (mid : Db) → fn db ≡ ok (made, mid) → mid.project_id ≡ db.project_id)
      → Accepted p op c i extra now fn db out db'
      → db'.project_id ≡ db.project_id
  Accepted-project now fn db keeps (served _ _ _ _ s) = ap (λ d. d.project_id) s.unchanged
  Accepted-project now fn db keeps (ran _ _ _ one) =
      ap (λ d. d.project_id) one.added ∙ keeps one.made one.mid one.effect

  -- The general retry, in any later state of the project with the receipts of the first outcome.
  pub mutation_retry :
      (now now' : Bytes) (fn fn' : Tx Outcome) (db : Db) {out : Outcome} {db' : Db} (later : Db)
      → ((made : Outcome) (mid : Db) → fn db ≡ ok (made, mid) → mid.project_id ≡ db.project_id)
      → reservation_mutation p op c i extra now fn db ≡ ok (out, db')
      → KeepsLedger db' later
      → later.project_id ≡ db'.project_id
      → reservation_mutation p op c i extra now' fn' later
        ≡ ok (record out { replayed = true }, later)
  unfolding reservation_mutation task_scope_ok
  mutation_retry now now' fn fn' db {out} {db'} later keeps h kept project =
      let ((a, e), accepted) = mutation-Accepted p op c i extra now fn db h in
      let (w, authorized) = recorded now fn db e.bound a e.principal accepted in
      let scope : is_reserved_project later.project_id ≡ false =
        rw (project ∙ Accepted-project now fn db keeps accepted) e.scope in
      let still : Recorded a out later = record {
        row = w.row;
        found = kept (key_of op c i a) w.row w.found;
        same_input = w.same_input;
        member = w.member;
        result = w.result;
      } in
      rw scope
        (rw e.bound (rw e.principal (rw e.keyed (serve now' fn' later a out still authorized))))

module _ (p : Platform) (op : Operation) (c : Caller) (i : ReservationInput)
    (coord : Option Coordination) where
  apply_effect-project :
      (new_id now : Bytes) (db : Db) (made : Outcome) (mid : Db)
      → apply_effect p c i op coord new_id now db ≡ ok (made, mid)
      → mid.project_id ≡ db.project_id
  apply_effect-project new_id now db made mid h =
      let t : Transition p c i coord new_id now op db made mid =
        apply_effect-Transition p c i coord new_id now op db h in
      ground (arith, t.ends.tables, Change-Keeps p c i coord new_id now op _ _ db t.change)

  -- What ApplyTaskReservation checks before its mutation.
  pub apply-checked :
      (new_id now : Bytes) (db : Db) {out : Outcome} {db' : Db}
      → apply_task_reservation p c i op coord new_id now db ≡ ok (out, db')
      → (validate_reservation_input p op i ≡ none)
        × (acts_for_recovery c ≡ false)
        × (coordination_error op coord ≡ none)
        × (reservation_mutation p op c i none now (apply_effect p c i op coord new_id now) db
            ≡ ok (out, db'))
  unfolding apply_task_reservation
  apply-checked new_id now db h =
      let (valid, h₁) = check_input-then _ db (validate_reservation_input p op i) h in
      let (member, h₂) =
        refuse_when-then _ db (acts_for_recovery c) (invalid recovery_binding) h₁ in
      let (fact, h₃) = check_input-then _ db (coordination_error op coord) h₂ in
      (valid, member, fact, h₃)

  -- A transition asked for again, in any later state of the project with the receipts.
  pub apply_retry :
      (new_id now new_id' now' : Bytes) (db : Db) {out : Outcome} {db' : Db} (later : Db)
      → apply_task_reservation p c i op coord new_id now db ≡ ok (out, db')
      → KeepsLedger db' later
      → later.project_id ≡ db'.project_id
      → apply_task_reservation p c i op coord new_id' now' later
        ≡ ok (record out { replayed = true }, later)
  unfolding apply_task_reservation
  apply_retry new_id now new_id' now' db later h kept project =
      let (valid, member, fact, h₁) = apply-checked new_id now db h in
      rw valid (
        rw member (
          rw fact (
            mutation_retry p op c i none now now' (apply_effect p c i op coord new_id now)
              (apply_effect p c i op coord new_id' now') db later
              (apply_effect-project new_id now db) h₁ kept project)))
