-- ===== src/Ledger.antt =====
-- The reservation ledger (internal/store/task_reservations.go, task_reservation_coordination.go,
-- task_reservation_recovery.go): a hold on a task, its fence, and the transitions that a caller
-- makes with a receipt. `authorize` is what the caller's recheck answers.
pub mod Apply
pub mod Recover
pub mod Receipts
pub mod Hold
pub mod Retry
pub mod Moves
pub mod Fence
pub mod Recovered
pub mod Closes
pub mod Tables
pub mod HoldSteps
pub mod Kept
pub mod Steps
pub mod KeptSteps
pub mod Replays
pub mod Protects
pub mod Terminal
use aimem.Prelude.{
  ℕ, ◌+◌, ◌-◌, ◌^◌, ◌≡◌, refl, Bool, true, false, not, ◌&&◌, ◌||◌, ◌++◌, List, [], ◌∷◌, Option,
  none, some, Bytes, bytes, str_eq, ltb, ◌==◌, if◌then◌else◌, length, map, any, is_some, lookup,
  insert,
}
use aimem.Text.{task_text, full_task_id}
use aimem.Json.{Value, obj, end, field, receipt_digest}
use aimem.Reason.{
  Reason, claim_entry, recovery_binding, recovery_target, recovery_evidence_list,
  stop_without_holder,
}
use aimem.Task.{Task, TaskActor, TaskContent, actor_key, max_task_actor_name}
use aimem.Task.State
use aimem.Task.Content.{Platform}
use aimem.Error.{
  Error, Result, ok, err, invalid, not_found, retry_conflict, bad_actor, reservation_conflict,
  reservation_stale, fence_exhausted, task_not_ready, reservation_holder, coordination_mismatch,
  process_mismatch, evidence_mismatch, dependency_unresolved, tasks_disabled, recovery_evidence,
  constraint, no_closure,
}
use aimem.Db.{
  ReservationRow, EventRow, ReservationReceipt, ServiceRow, Db, Tx, ◌>>=◌, ◌>>◌, pure, fail, gets,
  refuse_when, check_input, check_error, from_option, task_scope_ok, is_managed,
}
use aimem.Mutation.{key_error}
use aimem.Tasks.{read_task, check_revision, check_epic_assignable, write_task, next_revision}
use aimem.Reservation.{
  Operation, claim, transfer, update, release, finalize, recovery_release, recovery_cancel,
  operation_name, is_claim, is_transfer, is_update, is_release, is_finalize, Holder, Binding,
  no_holder, no_binding, is_empty, is_no_binding, Worker, TaskReservation, ReservationInput,
  ProcessPin, same_pin, CoordinationRecord, Coordination, RecoveryEvidence, RecoveryRecord, Outcome,
  coordination_pin, coordination_intended, coordination_record, evidence_list, HolderRefusal,
  another_holder, fact_mismatch, check_coordinated_holder, acting_member,
}
use aimem.Reservation.Evidence.{evidence_digest}
use aimem.Reservation.Input.{
  validate_reservation_input, validate_binding, validate_coordination, valid_evidence, input_json,
  evidence_json, content_state,
}

abbrev pub max_int64 : ℕ
max_int64 = 9223372036854775807

-- reservationPrincipal and recoveryPrincipal.
unfoldable pub reservation_principal : Platform → TaskActor → Option Bytes
reservation_principal p a = elim (actor_key p.refuses a) [
  | none ↦ none
  | some _ ↦ some (
      if str_eq a.kind (bytes "user") then bytes "user/" ++ a.user_id else bytes "admin/" ++ a.name)
]

unfoldable pub recovery_principal : Platform → TaskActor → Option Bytes
recovery_principal p a =
    if not (str_eq a.kind (bytes "recovery"))
      || not (is_empty a.user_id)
      || not (is_empty a.token_id)
    then none
    else if is_some (task_text p.refuses a.name max_task_actor_name true)
    then none
    else some (bytes "recovery/" ++ a.name)

-- The two columns of an intended worker, and the worker that they are read back as: none where
-- both are empty.
abbrev pub intended_columns : Option Worker → Worker
intended_columns none = record { user_id = []; agent_id = [] }
intended_columns (some w) = w

abbrev pub read_worker : Bytes → Bytes → Option Worker
read_worker user agent =
    if is_empty user && is_empty agent
    then none
    else some (record { user_id = user; agent_id = agent })

-- readTaskReservation: no row is no hold at fence 0.
abbrev pub hold_of : Bytes → ℕ → Option ReservationRow → TaskReservation
hold_of task revision none = record {
  task_id = task;
  id = [];
  fence = 0;
  holder = no_holder;
  binding = no_binding;
  task_revision = revision;
  intended_worker = none;
}
hold_of task revision (some r) = record {
  task_id = task;
  id = r.active_id;
  fence = r.fence;
  holder = r.holder;
  binding = r.binding;
  task_revision = revision;
  intended_worker = read_worker r.intended_user r.intended_agent;
}

unfoldable pub find_hold : Bytes → ℕ → Db → TaskReservation
find_hold task revision db = hold_of task revision (lookup task db.reservations)

-- advanceReservation: the next fence, and an intended worker only while a hold lasts.
abbrev pub advanced : TaskReservation → TaskReservation
advanced r = record r {
  fence = r.fence + 1;
  intended_worker = if is_empty r.id then none else r.intended_worker;
}

abbrev pub reservation_row : TaskReservation → ReservationRow
reservation_row r = record {
  fence = r.fence;
  active_id = r.id;
  holder = r.holder;
  binding = r.binding;
  intended_user = (intended_columns r.intended_worker).user_id;
  intended_agent = (intended_columns r.intended_worker).agent_id;
}

unfoldable pub advance_reservation : TaskReservation → Tx TaskReservation
advance_reservation r db =
    if r.fence == max_int64
    then err fence_exhausted
    else ok (
      advanced r,
      record db { reservations = insert r.task_id (reservation_row (advanced r)) db.reservations },
    )

-- recordReservationEvent and recordRecoveryEvent.
unfoldable pub record_event : EventRow → Tx (Unit {0})
record_event e db = ok (tt, record db { events = e ∷ db.events })

-- holderClosedBy, and the recovery operations' own names.
unfoldable pub closed_by : Operation → Bytes
unfolding operation_name
closed_by release = bytes "holder_release"
closed_by finalize = bytes "holder_finalize"
closed_by recovery_release = operation_name recovery_release
closed_by recovery_cancel = operation_name recovery_cancel
closed_by _ = []

abbrev is_service : Bytes → Bytes → ServiceRow → Bool
is_service task service r = str_eq r.task_id task && str_eq r.service_id service

-- INSERT … ON CONFLICT(task_id, service_id) DO UPDATE.
unfoldable pub open_service : ServiceRow → List ServiceRow → List ServiceRow
open_service n [] = n ∷ []
open_service n (r ∷ rs) =
    if is_service n.task_id n.service_id r then n ∷ rs else r ∷ open_service n rs

abbrev close_row : TaskReservation → TaskReservation → Bytes → Bytes → ServiceRow → ServiceRow
close_row before after by now r =
    if is_service after.task_id before.binding.service_id r && str_eq r.reservation_id before.id
    then record r {
      closing_fence = after.fence;
      closed_by = by;
      closed_at = now;
      task_revision = after.task_revision;
    }
    else r

-- trackServiceReservation.
unfoldable pub track_service : TaskReservation → TaskReservation → Bytes → Bytes → Tx (Unit {0})
unfolding open_service
track_service before after by now db =
    if not (is_empty after.id)
      && (not (is_empty after.binding.service_id)
          && (not (str_eq after.id before.id)
              || not (str_eq after.binding.service_id before.binding.service_id)))
    then ok (
      tt,
      record db {
        services =
            open_service
              (record {
                task_id = after.task_id;
                service_id = after.binding.service_id;
                reservation_id = after.id;
                closing_fence = 0;
                closed_by = [];
                closed_at = [];
                task_revision = after.task_revision;
              })
              db.services;
      },
    )
    else if not (is_empty before.id)
        && (is_empty after.id && not (is_empty before.binding.service_id))
    then (if is_empty by
        then err no_closure
        else ok (tt, record db { services = map (close_row before after by now) db.services }))
    else ok (tt, db)

abbrev pin_matches : Option ProcessPin → Option ProcessPin → Bool
pin_matches none current = true
pin_matches (some pin) none = false
pin_matches (some pin) (some current) = same_pin current pin

-- checkProcessPin.
unfoldable pub check_process_pin : Option ProcessPin → Tx (Unit {0})
check_process_pin pin db = refuse_when (not (pin_matches pin db.process)) process_mismatch db

abbrev evidence_matches : Platform → Option Coordination → List Bytes → Bool
evidence_matches p none es = true
evidence_matches p (some c) es =
    is_empty c.reference.evidence_digest
    || str_eq (evidence_digest p es) c.reference.evidence_digest

-- checkEvidenceDigest.
unfoldable pub check_evidence_digest : Platform → Option Coordination → List Bytes → Tx (Unit {0})
check_evidence_digest p c es = refuse_when (not (evidence_matches p c es)) evidence_mismatch

abbrev pub holder_error : Option HolderRefusal → Option Error
holder_error none = none
holder_error (some another_holder) = some reservation_holder
holder_error (some fact_mismatch) = some coordination_mismatch

-- The primary key of `task_reservation_requests`.
pub record LedgerKey : Type 0 where
  pub principal : Bytes
  pub operation : Bytes
  pub task_id : Bytes
  pub key : Bytes

unfoldable pub is_ledger_request : LedgerKey → ReservationReceipt → Bool
is_ledger_request k r =
    str_eq r.principal k.principal
    && str_eq r.operation k.operation
    && str_eq r.task_id k.task_id
    && str_eq r.key k.key

unfoldable pub find_ledger_receipt : LedgerKey → List ReservationReceipt → Option ReservationReceipt
find_ledger_receipt k [] = none
find_ledger_receipt k (r ∷ rs) = if is_ledger_request k r then some r else find_ledger_receipt k rs

abbrev pub proof_digest_of : Option CoordinationRecord → Bytes
proof_digest_of none = []
proof_digest_of (some c) = c.proof_digest

abbrev pub service_of : Option CoordinationRecord → Binding → Bytes
service_of none b = []
service_of (some c) b = b.service_id

unfoldable pub insert_ledger_receipt : LedgerKey → Bytes → Outcome → Bytes → Bytes → Tx (Unit {0})
insert_ledger_receipt k digest out acted_on now db =
    if is_some (find_ledger_receipt k db.reservation_requests)
    then err constraint
    else ok (
      tt,
      record db {
        reservation_requests =
            record {
              principal = k.principal;
              operation = k.operation;
              task_id = k.task_id;
              key = k.key;
              digest = digest;
              result = out;
              service_id = service_of out.coordination out.binding;
              proof_digest = proof_digest_of out.coordination;
              reservation_id = acted_on;
              committed_at = now;
            }
            ∷ db.reservation_requests;
      },
    )
