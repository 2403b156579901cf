-- ===== src/Ledger/Apply.antt =====
-- The transitions of the ledger: reservationMutationTx, DB.ApplyTaskReservation
-- (internal/store/task_reservations.go).
use aimem.Prelude.{
  Bool, true, false, not, ◌||◌, [], Option, none, some, Bytes, bytes, str_eq, ◌==◌, if◌then◌else◌,
  length,
}
use aimem.Json.{Value, obj, end, field, receipt_digest}
use aimem.Reason.{Reason, content_missing, recovery_binding}
use aimem.Task.{Task, TaskActor, TaskContent}
use aimem.Task.State
use aimem.Task.Content.{Platform}
use aimem.Error.{
  Error, invalid, retry_conflict, bad_actor, reservation_conflict, reservation_stale,
  task_not_ready, reservation_holder, dependency_unresolved, tasks_disabled,
}
use aimem.Db.{
  EventRow, ReservationReceipt, Tx, ◌>>=◌, ◌>>◌, pure, fail, gets, refuse_when, check_input,
  check_error, from_option, task_scope_ok, is_managed,
}
use aimem.Mutation.{key_error}
use aimem.Tasks.{read_task, check_revision, check_epic_assignable, write_task, next_revision}
use aimem.Reservation.{
  Operation, claim, transfer, update, release, finalize, operation_name, is_claim, is_update,
  Binding, no_holder, no_binding, is_empty, TaskReservation, ReservationInput, Coordination,
  Outcome, coordination_pin, coordination_intended, coordination_record, evidence_list,
  check_coordinated_holder, acting_member,
}
use aimem.Reservation.Input.{
  validate_reservation_input, validate_binding, validate_coordination, input_json,
}
use aimem.Ledger.{
  reservation_principal, recovery_principal, find_hold, advance_reservation, record_event,
  closed_by, track_service, check_process_pin, check_evidence_digest, holder_error, LedgerKey,
  find_ledger_receipt, insert_ledger_receipt,
}

-- The caller: who acts, as whom, under which request key, and the recheck before commit.
pub record Caller : Type 0 where
  pub actor : TaskActor
  pub binding : Binding
  pub key : Bytes
  pub authorize : Option Error

abbrev pub acts_for_recovery : Caller → Bool
acts_for_recovery c = str_eq c.binding.mode (bytes "recovery")

abbrev pub digest_input : ReservationInput → Option Value → Value
digest_input i none = input_json i
digest_input i (some extra) =
    obj (field (bytes "in") (input_json i) (field (bytes "extra") extra end))

-- A stored outcome: for the same input, the acting member and an authorized caller.
unfoldable pub replay_outcome : Operation → Caller → Bytes → ReservationReceipt → Tx Outcome
replay_outcome op c digest r = do
  refuse_when (not (str_eq r.digest digest)) retry_conflict
  refuse_when (not (acting_member op r.result.binding c.binding)) reservation_holder
  check_error c.authorize
  pure (record r.result { replayed = true })

abbrev pub acted_on : Operation → ReservationInput → Outcome → Bytes
acted_on op i out = if is_claim op then out.reservation.id else i.id

-- A new transition: the project's tasks must be on; the receipt, then the recheck.
unfoldable pub apply_outcome :
    Operation → Caller → ReservationInput → LedgerKey → Bytes → Bytes → Tx Outcome → Tx Outcome
apply_outcome op c i k digest now fn = do
  on ← gets (λ db. db.tasks_enabled)
  refuse_when (not on) tasks_disabled
  made ← fn
  let out : Outcome = record made { binding = c.binding }
  insert_ledger_receipt k digest out (acted_on op i out) now
  check_error c.authorize
  pure out

unfoldable pub answer_outcome :
    Operation
    → Caller
    → ReservationInput
    → LedgerKey
    → Bytes
    → Bytes
    → Tx Outcome
    → Option ReservationReceipt
    → Tx Outcome
unfolding replay_outcome apply_outcome
answer_outcome op c i k digest now fn none db = apply_outcome op c i k digest now fn db
answer_outcome op c i k digest now fn (some r) db = replay_outcome op c digest r db

module _ (p : Platform) where
  -- reservationMutationTx, with an authorize function given.
  unfoldable pub reservation_mutation :
      Operation → Caller → ReservationInput → Option Value → Bytes → Tx Outcome → Tx Outcome
  unfolding answer_outcome
  reservation_mutation op c i extra now fn = do
    task_scope_ok
    check_input (validate_binding c.binding)
    principal ←
        from_option
          (if acts_for_recovery c
            then recovery_principal p c.actor
            else reservation_principal p c.actor)
          bad_actor
    check_input (key_error p c.key)
    let k : LedgerKey = record {
      principal = principal;
      operation = operation_name op;
      task_id = i.task_id;
      key = c.key;
    }
    found ← gets (λ db. find_ledger_receipt k db.reservation_requests)
    answer_outcome op c i k (receipt_digest p.hashing (digest_input i extra)) now fn found

  -- The claim's branch: the task is free and READY.
  unfoldable pub claim_hold :
      Caller
      → ReservationInput
      → Option Coordination
      → Bytes
      → Task
      → TaskReservation
      → Tx TaskReservation
  claim_hold c i coord new_id t r = do
    refuse_when (not (length t.content.dependencies == 0)) dependency_unresolved
    managed ← gets (is_managed i.task_id)
    refuse_when (managed || not (is_empty r.id) || t.content.archived) reservation_conflict
    refuse_when (not (str_eq t.content.state State.ready)) task_not_ready
    check_process_pin (coordination_pin coord)
    pure (record r {
      id = new_id;
      holder = i.holder;
      binding = c.binding;
      intended_worker = coordination_intended coord;
    })

  -- The guards of every other transition, on the current hold.
  unfoldable pub check_hold :
      Operation → Caller → ReservationInput → Option Coordination → TaskReservation → Tx (Unit {0})
  check_hold op c i coord r = do
    refuse_when (is_empty r.id || not (str_eq r.id i.id) || not (r.fence == i.fence))
        reservation_stale
    check_error (holder_error (check_coordinated_holder op r c.binding coord))
    check_process_pin (coordination_pin coord)
    check_evidence_digest p coord (evidence_list i.terminal_evidence)

abbrev pub cleared : TaskReservation → TaskReservation
cleared r = record r { id = []; holder = no_holder; binding = no_binding }

-- update, release and finalize write the content; the last two end the hold. The content was
-- checked to be there.
unfoldable pub write_content :
    Operation
    → TaskActor
    → Option TaskContent
    → Bytes
    → Task
    → TaskReservation
    → Tx (Task × TaskReservation)
write_content op actor none now t r = fail (invalid content_missing)
write_content op actor (some content) now t r = do
  check_epic_assignable content.epic t.content.epic
  let t' = next_revision t content now
  write_task t' actor false
  let r' : TaskReservation = record r { task_revision = t'.revision }
  pure (t', if is_update op then r' else cleared r')

-- The switch over the operation, once the hold's guards pass.
unfoldable pub change_hold :
    Operation
    → Caller
    → ReservationInput
    → Bytes
    → Task
    → TaskReservation
    → Tx (Task × TaskReservation)
unfolding write_content
change_hold transfer c i now t r =
    pure (t, record r { holder = i.holder; binding = c.binding; intended_worker = none })
change_hold update c i now t r = write_content update c.actor i.content now t r
change_hold release c i now t r = write_content release c.actor i.content now t r
change_hold finalize c i now t r = write_content finalize c.actor i.content now t r
change_hold _ c i now t r = pure (t, r)

unfoldable pub coordination_error : Operation → Option Coordination → Option Reason
coordination_error op none = none
coordination_error op (some coord) = validate_coordination op coord

module _ (p : Platform) (c : Caller) (i : ReservationInput) where
  -- The transition on a task read at the expected revision.
  unfoldable pub move_hold :
      Operation
      → Option Coordination
      → Bytes
      → Bytes
      → Task
      → TaskReservation
      → Tx (Task × TaskReservation)
  unfolding claim_hold check_hold change_hold
  move_hold claim coord new_id now t r = do r' ← claim_hold p c i coord new_id t r; pure (t, r')
  move_hold op coord new_id now t r = do check_hold p op c i coord r; change_hold op c i now t r

  pub event_of : Operation → Option Coordination → TaskReservation → TaskReservation → EventRow
  event_of op coord before after = record {
    task_id = after.task_id;
    fence = after.fence;
    operation = op;
    before = before;
    after = after;
    actor = c.actor;
    binding = c.binding;
    reason = i.reason;
    terminal_evidence = i.terminal_evidence;
    intent = i.intent;
    coordination = coordination_record coord;
    recovery = none;
    statement = [];
  }

  -- The transaction of DB.ApplyTaskReservation.
  unfoldable pub apply_effect : Operation → Option Coordination → Bytes → Bytes → Tx Outcome
  unfolding move_hold event_of
  apply_effect op coord new_id now = do
    t ← read_task i.task_id
    check_revision t i.expected_revision
    before ← gets (find_hold i.task_id t.revision)
    moved ← move_hold op coord new_id now t before
    after ← advance_reservation moved.1
    record_event (event_of op coord before after)
    track_service before after (closed_by op) now
    pure (record {
      task = moved.0;
      reservation = after;
      binding = c.binding;
      recovery = none;
      coordination = coordination_record coord;
      replayed = false;
    })

  -- DB.ApplyTaskReservation.
  unfoldable pub apply_task_reservation :
      Operation → Option Coordination → Bytes → Bytes → Tx Outcome
  unfolding coordination_error
  apply_task_reservation op coord new_id now = do
    check_input (validate_reservation_input p op i)
    refuse_when (acts_for_recovery c) (invalid recovery_binding)
    check_input (coordination_error op coord)
    reservation_mutation p op c i none now (apply_effect op coord new_id now)
