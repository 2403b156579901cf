-- ===== src/Ledger/Recover.antt =====
-- The recovery of a hold: validateRecovery, DB side of Registry.RecoverTaskReservation and
-- RecoveryReplay (internal/store/task_reservation_recovery.go).
use aimem.Prelude.{
  true, false, not, ◌&&◌, ◌||◌, [], Option, none, some, Bytes, bytes, str_eq, ◌==◌, if◌then◌else◌,
  is_some,
}
use aimem.Json.{receipt_digest}
use aimem.Reason.{
  Reason, recovery_target, recovery_evidence_list, stop_without_holder, unknown_operation,
}
use aimem.Task.{TaskActor}
use aimem.Task.State
use aimem.Task.Content.{Platform, ◌then_check◌, refuse_if}
use aimem.Error.{
  Error, Result, ok, err, invalid, retry_conflict, bad_actor, reservation_stale, recovery_evidence,
}
use aimem.Db.{
  EventRow, ReservationReceipt, Tx, ◌>>=◌, ◌>>◌, pure, gets, refuse_when, check_input, from_option,
}
use aimem.Tasks.{read_task, check_revision}
use aimem.Reservation.{
  Operation, release, finalize, recovery_release, recovery_cancel, operation_name, Binding,
  no_binding, is_empty, is_no_binding, TaskReservation, ReservationInput, RecoveryEvidence,
  RecoveryRecord, Outcome,
}
use aimem.Reservation.Input.{
  validate_reservation_input, valid_evidence, evidence_json, content_state,
}
use aimem.Ledger.{
  recovery_principal, find_hold, advance_reservation, record_event, track_service, LedgerKey,
  find_ledger_receipt,
}
use aimem.Ledger.Apply.{Caller, digest_input, write_content, reservation_mutation}

-- The input of a recovery is that of a release, or of a finalize as CANCELLED.
abbrev pub recovery_input_check : Platform → Operation → ReservationInput → Option Reason
recovery_input_check p recovery_release i = validate_reservation_input p release i
recovery_input_check p recovery_cancel i =
    validate_reservation_input p finalize i
    then_check refuse_if (not (str_eq (content_state i.content) State.cancelled)) recovery_target
recovery_input_check p _ i = some unknown_operation

module _ (p : Platform) (i : ReservationInput) (e : RecoveryEvidence) (actor : TaskActor) where
  -- validateRecovery.
  unfoldable pub validate_recovery : Operation → Tx (Unit {0})
  validate_recovery op = do
    check_input (recovery_input_check p op i)
    refuse_when (is_some i.terminal_evidence) (invalid recovery_evidence_list)
    refuse_when (not (valid_evidence p e)) recovery_evidence
    refuse_when (not (is_some (recovery_principal p actor))) bad_actor

  -- The guards on the hold that is found.
  unfoldable pub check_recoverable : TaskReservation → Tx (Unit {0})
  check_recoverable hold = do
    refuse_when (is_empty hold.id || not (str_eq hold.id i.id) || not (hold.fence == i.fence))
        reservation_stale
    refuse_when (str_eq e.kind (bytes "stop_evidence") && not (str_eq hold.holder.ref e.holder_ref))
        reservation_stale
    refuse_when (is_no_binding hold.binding && not (str_eq e.kind (bytes "attestation")))
        recovery_evidence

  abbrev recovery_record : Operation → Binding → RecoveryRecord
  recovery_record op affected = record {
    operation = op;
    evidence_kind = e.kind;
    evidence_ref = e.ref;
    affected = affected;
  }

  pub recovery_event : Operation → TaskReservation → TaskReservation → EventRow
  recovery_event op before after = record {
    task_id = after.task_id;
    fence = after.fence;
    operation = op;
    before = before;
    after = after;
    actor = actor;
    binding = no_binding;
    reason = i.reason;
    terminal_evidence = none;
    intent = [];
    coordination = none;
    recovery = some (recovery_record op before.binding);
    statement = e.statement;
  }

  -- The transaction of RecoverTaskReservation. It writes as a release does.
  unfoldable pub recover_effect : Operation → Bytes → Tx Outcome
  unfolding check_recoverable recovery_event
  recover_effect op now = do
    t ← read_task i.task_id
    check_revision t i.expected_revision
    hold ← gets (find_hold i.task_id t.revision)
    check_recoverable hold
    moved ← write_content release actor i.content now t hold
    after ← advance_reservation moved.1
    record_event (recovery_event op hold after)
    track_service hold after (operation_name op) now
    pure (record {
      task = moved.0;
      reservation = after;
      binding = no_binding;
      recovery = some (recovery_record op hold.binding);
      coordination = none;
      replayed = false;
    })

  abbrev pub recovery_caller : Bytes → Option Error → Caller
  recovery_caller key authorize = record {
    actor = actor;
    binding = record no_binding { user_id = actor.name; mode = bytes "recovery" };
    key = key;
    authorize = authorize;
  }

  -- RecoverTaskReservation.
  unfoldable pub recover_task_reservation : Operation → Bytes → Option Error → Bytes → Tx Outcome
  unfolding validate_recovery
  recover_task_reservation op key authorize now = do
    validate_recovery op
    refuse_when (str_eq e.kind (bytes "stop_evidence") && is_empty e.holder_ref)
        (invalid stop_without_holder)
    reservation_mutation p op (recovery_caller key authorize) i (some (evidence_json e)) now
        (recover_effect op now)

  abbrev recovered : Bytes → Option ReservationReceipt → Result (Option Outcome)
  recovered digest none = ok none
  recovered digest (some r) =
      if str_eq r.digest digest
      then ok (some (record r.result { replayed = true }))
      else err retry_conflict

  -- RecoveryReplay: the receipt of this exact request, without running it.
  unfoldable pub recovery_replay : Operation → Bytes → Tx (Option Outcome)
  unfolding validate_recovery
  recovery_replay op key = do
    validate_recovery op
    principal ← from_option (recovery_principal p actor) bad_actor
    let k : LedgerKey = record {
      principal = principal;
      operation = operation_name op;
      task_id = i.task_id;
      key = key;
    }
    λ db.
        elim (recovered (receipt_digest p.hashing (digest_input i (some (evidence_json e))))
          (find_ledger_receipt k db.reservation_requests)) [
            | ok out ↦ ok (out, db)
            | err bad ↦ err bad
          ]
