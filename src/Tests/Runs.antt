-- ===== src/Tests/Runs.antt =====
-- The runs of the project are accepted.
use aimem.Prelude.{◌≡◌, refl, Bool, true, false, [], ◌∷◌, Option, none, some, bytes, str_eq, lookup}
use aimem.Json.{receipt_digest}
use aimem.Task.{Task}
use aimem.Task.State
use aimem.Task.Content.{validate_content}
use aimem.Error.{Result, ok, err}
use aimem.Db.{Db}
use aimem.Tasks.{find_task, find_history, has_change, update_json, update_replays}
use aimem.Tasks.Consistent.{IsConsistent}
use aimem.Tasks.Cas.{create_task-IsConsistent}
use aimem.Reservation.{Outcome, is_empty, claim}
use aimem.Reservation.Input.{is_terminal}
use aimem.Ledger.{find_hold}
use aimem.Ledger.HoldSteps.{fence_of}
use aimem.Ledger.Tables.{apply_task_reservation-KeepsTables}
use aimem.Tests.Project.{
  write, platform, member, task_id, hold_id, now, content_in, caller_with, claim_input, empty_db,
  db1, db2, db3, task_at, no_outcome, db_after, value_of, create_run, update_run, later_run,
  claim_run, work_run, finish_run, other_run, recover_run, claim_out, work_out, finish_out,
  recover_out,
}

abbrev pub is_ok : {A : Type 0} → Result (A × Db) → Bool
is_ok (ok (a, db)) = true
is_ok (err e) = false

pub is_ok-runs :
    {A : Type 0} (a : A) (r : Result (A × Db)) → is_ok r ≡ true → r ≡ ok (value_of a r, db_after r)
is_ok-runs a (ok (b, db)) h = refl
is_ok-runs a (err e) h = cc

accepted :
    (is_ok create_run ≡ true)
    × (is_ok update_run ≡ true)
    × (is_ok other_run ≡ true)
    × (is_ok claim_run ≡ true)
    × (is_ok work_run ≡ true)
    × (is_ok finish_run ≡ true)
    × (is_ok recover_run ≡ true)
    × (is_ok later_run ≡ true)
unfolding write aimem.Text.task_text aimem.Text.in_class aimem.Text.matches aimem.Text.full_task_id
    aimem.Text.doc_name aimem.Text.Utf8.runes aimem.Text.Utf8.is_control aimem.Text.Utf8.is_space
    aimem.Json.is_zero aimem.Json.decoded aimem.Json.receipt_digest aimem.Task.contains
    aimem.Task.valid_task_state aimem.Task.actor_key aimem.Task.assignee_column
    aimem.Prelude.split_at aimem.Task.Content.cut aimem.Task.Content.valid_record_id
    aimem.Task.Content.valid_project_id aimem.Task.Content.valid_capability
    aimem.Task.Content.validate_ref aimem.Task.Content.validate_refs
    aimem.Task.Content.valid_assignee aimem.Task.Content.content_json
    aimem.Task.Content.validate_content aimem.Db.run aimem.Db.is_reserved_project
    aimem.Db.task_scope_ok aimem.Db.is_managed aimem.Db.has_active_reservation
    aimem.Db.reject_active_reservation aimem.Mutation.is_request aimem.Mutation.find_receipt
    aimem.Mutation.insert_receipt aimem.Mutation.replay_receipt aimem.Mutation.apply_first
    aimem.Mutation.receipt_mutation aimem.Mutation.checked_task_mutation
    aimem.Mutation.task_mutation aimem.Mutation.replays aimem.Tasks.find_task aimem.Tasks.read_task
    aimem.Tasks.get_task aimem.Tasks.find_history aimem.Tasks.has_change
    aimem.Tasks.record_state_change aimem.Tasks.put_row aimem.Tasks.add_history
    aimem.Tasks.write_task aimem.Tasks.save_task aimem.Tasks.check_epic_assignable
    aimem.Tasks.with_default_state aimem.Tasks.update_json aimem.Tasks.check_unheld
    aimem.Tasks.create_effect aimem.Tasks.create_task aimem.Tasks.update_effect
    aimem.Tasks.update_task aimem.Tasks.create_replays aimem.Tasks.update_replays
    aimem.Prelude.str_eq aimem.Prelude.lookup aimem.Prelude.insert aimem.Reservation.operation_name
    aimem.Reservation.valid_operation aimem.Reservation.is_empty aimem.Reservation.is_no_binding
    aimem.Reservation.same_holder aimem.Reservation.same_worker aimem.Reservation.same_pin
    aimem.Reservation.same_team aimem.Reservation.check_coordinated_holder
    aimem.Reservation.acting_member aimem.Reservation.Input.text
    aimem.Reservation.Input.holder_check aimem.Reservation.Input.hold_check
    aimem.Reservation.Input.content_rule aimem.Reservation.Input.state_rule
    aimem.Reservation.Input.evidence_rule aimem.Reservation.Input.validate_reservation_input
    aimem.Reservation.Input.validate_binding aimem.Reservation.Input.validate_coordination
    aimem.Reservation.Input.valid_evidence aimem.Reservation.Input.input_json
    aimem.Reservation.Input.evidence_json aimem.Reservation.Evidence.big_endian32
    aimem.Reservation.Evidence.evidence_bytes aimem.Reservation.Evidence.evidence_digest
    aimem.Ledger.reservation_principal aimem.Ledger.recovery_principal aimem.Ledger.find_hold
    aimem.Ledger.advance_reservation aimem.Ledger.record_event aimem.Ledger.closed_by
    aimem.Ledger.open_service aimem.Ledger.track_service aimem.Ledger.check_process_pin
    aimem.Ledger.check_evidence_digest aimem.Ledger.is_ledger_request
    aimem.Ledger.find_ledger_receipt aimem.Ledger.insert_ledger_receipt
    aimem.Ledger.Apply.replay_outcome aimem.Ledger.Apply.apply_outcome
    aimem.Ledger.Apply.answer_outcome aimem.Ledger.Apply.reservation_mutation
    aimem.Ledger.Apply.claim_hold aimem.Ledger.Apply.check_hold aimem.Ledger.Apply.write_content
    aimem.Ledger.Apply.change_hold aimem.Ledger.Apply.coordination_error
    aimem.Ledger.Apply.move_hold aimem.Ledger.Apply.apply_effect
    aimem.Ledger.Apply.apply_task_reservation aimem.Ledger.Recover.validate_recovery
    aimem.Ledger.Recover.check_recoverable aimem.Ledger.Recover.recover_effect
    aimem.Ledger.Recover.recover_task_reservation aimem.Ledger.Recover.recovery_replay
accepted = (refl, refl, refl, refl, refl, refl, refl, refl)

pub create_runs : create_run ≡ ok (value_of (task_at [] 0) create_run, db_after create_run)
create_runs = is_ok-runs (task_at [] 0) create_run accepted.0

pub update_runs : update_run ≡ ok (value_of (task_at [] 0) update_run, db_after update_run)
update_runs = is_ok-runs (task_at [] 0) update_run accepted.1

pub other_runs : other_run ≡ ok (value_of (task_at [] 0) other_run, db_after other_run)
other_runs = is_ok-runs (task_at [] 0) other_run accepted.2

pub claim_runs : claim_run ≡ ok (value_of (no_outcome) claim_run, db_after claim_run)
claim_runs = is_ok-runs (no_outcome) claim_run accepted.3

pub work_runs : work_run ≡ ok (value_of (no_outcome) work_run, db_after work_run)
work_runs = is_ok-runs (no_outcome) work_run accepted.4

pub finish_runs : finish_run ≡ ok (value_of (no_outcome) finish_run, db_after finish_run)
finish_runs = is_ok-runs (no_outcome) finish_run accepted.5

pub recover_runs : recover_run ≡ ok (value_of (no_outcome) recover_run, db_after recover_run)
recover_runs = is_ok-runs (no_outcome) recover_run accepted.6

pub later_runs : later_run ≡ ok (value_of (task_at [] 0) later_run, db_after later_run)
later_runs = is_ok-runs (task_at [] 0) later_run accepted.7

facts :
    (update_replays platform task_id (content_in State.in_progress) 1 member (bytes "k2") db1
      ≡ false)
    × (update_replays platform task_id
          (content_in State.blocked)
          1
          member
          (bytes "k3")
          (db_after update_run)
        ≡ false)
    × (validate_content platform (content_in State.blocked) ≡ none)
    × (claim_out.replayed ≡ false)
    × (work_out.replayed ≡ false)
    × (finish_out.replayed ≡ false)
    × (recover_out.replayed ≡ false)
    × (find_task task_id db2 ≡ some (task_at State.ready 1))
    × (find_task task_id db3 ≡ some (task_at State.in_progress 2))
    × (is_empty (find_hold task_id 1 db2).id ≡ false)
    × (is_terminal finish_out.task.content.state ≡ true)
    × (fence_of task_id (db_after other_run) ≡ fence_of task_id db2)
    × (str_eq
          (receipt_digest platform.hashing (update_json (content_in State.in_progress) 1))
          (receipt_digest platform.hashing (update_json (content_in State.blocked) 1))
        ≡ false)
unfolding aimem.Json.prune_zero fence_of update_replays find_task find_hold aimem.Mutation.replays
    write aimem.Text.task_text aimem.Text.in_class aimem.Text.matches aimem.Text.full_task_id
    aimem.Text.doc_name aimem.Text.Utf8.runes aimem.Text.Utf8.is_control aimem.Text.Utf8.is_space
    aimem.Json.is_zero aimem.Json.decoded aimem.Json.receipt_digest aimem.Task.contains
    aimem.Task.valid_task_state aimem.Task.actor_key aimem.Task.assignee_column
    aimem.Prelude.split_at aimem.Task.Content.cut aimem.Task.Content.valid_record_id
    aimem.Task.Content.valid_project_id aimem.Task.Content.valid_capability
    aimem.Task.Content.validate_ref aimem.Task.Content.validate_refs
    aimem.Task.Content.valid_assignee aimem.Task.Content.content_json
    aimem.Task.Content.validate_content aimem.Db.run aimem.Db.is_reserved_project
    aimem.Db.task_scope_ok aimem.Db.is_managed aimem.Db.has_active_reservation
    aimem.Db.reject_active_reservation aimem.Mutation.is_request aimem.Mutation.find_receipt
    aimem.Mutation.insert_receipt aimem.Mutation.replay_receipt aimem.Mutation.apply_first
    aimem.Mutation.receipt_mutation aimem.Mutation.checked_task_mutation
    aimem.Mutation.task_mutation aimem.Tasks.read_task aimem.Tasks.get_task aimem.Tasks.find_history
    aimem.Tasks.has_change aimem.Tasks.record_state_change aimem.Tasks.put_row
    aimem.Tasks.add_history aimem.Tasks.write_task aimem.Tasks.save_task
    aimem.Tasks.check_epic_assignable aimem.Tasks.with_default_state aimem.Tasks.update_json
    aimem.Tasks.check_unheld aimem.Tasks.create_effect aimem.Tasks.create_task
    aimem.Tasks.update_effect aimem.Tasks.update_task aimem.Tasks.create_replays
    aimem.Prelude.str_eq aimem.Prelude.lookup aimem.Prelude.insert aimem.Reservation.operation_name
    aimem.Reservation.valid_operation aimem.Reservation.is_empty aimem.Reservation.is_no_binding
    aimem.Reservation.same_holder aimem.Reservation.same_worker aimem.Reservation.same_pin
    aimem.Reservation.same_team aimem.Reservation.check_coordinated_holder
    aimem.Reservation.acting_member aimem.Reservation.Input.text
    aimem.Reservation.Input.holder_check aimem.Reservation.Input.hold_check
    aimem.Reservation.Input.content_rule aimem.Reservation.Input.state_rule
    aimem.Reservation.Input.evidence_rule aimem.Reservation.Input.validate_reservation_input
    aimem.Reservation.Input.validate_binding aimem.Reservation.Input.validate_coordination
    aimem.Reservation.Input.valid_evidence aimem.Reservation.Input.input_json
    aimem.Reservation.Input.evidence_json aimem.Reservation.Evidence.big_endian32
    aimem.Reservation.Evidence.evidence_bytes aimem.Reservation.Evidence.evidence_digest
    aimem.Ledger.reservation_principal aimem.Ledger.recovery_principal
    aimem.Ledger.advance_reservation aimem.Ledger.record_event aimem.Ledger.closed_by
    aimem.Ledger.open_service aimem.Ledger.track_service aimem.Ledger.check_process_pin
    aimem.Ledger.check_evidence_digest aimem.Ledger.is_ledger_request
    aimem.Ledger.find_ledger_receipt aimem.Ledger.insert_ledger_receipt
    aimem.Ledger.Apply.replay_outcome aimem.Ledger.Apply.apply_outcome
    aimem.Ledger.Apply.answer_outcome aimem.Ledger.Apply.reservation_mutation
    aimem.Ledger.Apply.claim_hold aimem.Ledger.Apply.check_hold aimem.Ledger.Apply.write_content
    aimem.Ledger.Apply.change_hold aimem.Ledger.Apply.coordination_error
    aimem.Ledger.Apply.move_hold aimem.Ledger.Apply.apply_effect
    aimem.Ledger.Apply.apply_task_reservation aimem.Ledger.Recover.validate_recovery
    aimem.Ledger.Recover.check_recoverable aimem.Ledger.Recover.recover_effect
    aimem.Ledger.Recover.recover_task_reservation aimem.Ledger.Recover.recovery_replay
facts = (refl, refl, refl, refl, refl, refl, refl, refl, refl, refl, refl, refl, refl)

pub update_new :
    update_replays platform task_id (content_in State.in_progress) 1 member (bytes "k2") db1 ≡ false
update_new = facts.0

pub again_new :
    update_replays platform task_id
      (content_in State.blocked)
      1
      member
      (bytes "k3")
      (db_after update_run)
    ≡ false
again_new = facts.1

pub blocked_valid : validate_content platform (content_in State.blocked) ≡ none
blocked_valid = facts.2

pub claim_new : claim_out.replayed ≡ false
claim_new = facts.3

pub work_new : work_out.replayed ≡ false
work_new = facts.4

pub finish_new : finish_out.replayed ≡ false
finish_new = facts.5

pub recover_new : recover_out.replayed ≡ false
recover_new = facts.6

pub found_ready : find_task task_id db2 ≡ some (task_at State.ready 1)
found_ready = facts.7

pub found_working : find_task task_id db3 ≡ some (task_at State.in_progress 2)
found_working = facts.8

pub held : is_empty (find_hold task_id 1 db2).id ≡ false
held = facts.9

pub finish_terminal : is_terminal finish_out.task.content.state ≡ true
finish_terminal = facts.10

pub fence_stands : fence_of task_id (db_after other_run) ≡ fence_of task_id db2
fence_stands = facts.11

pub other_digest :
    str_eq
      (receipt_digest platform.hashing (update_json (content_in State.in_progress) 1))
      (receipt_digest platform.hashing (update_json (content_in State.blocked) 1))
    ≡ false
other_digest = facts.12

-- The empty project is well-formed.
pub empty-IsConsistent : IsConsistent empty_db
unfolding lookup find_history has_change
empty-IsConsistent = record {
  rows = λ id row h. cc;
  complete = λ id row r h. cc;
  bounded = λ id r h. cc;
  feed_bounded = λ id r h. cc;
}

pub db1-IsConsistent : IsConsistent db1
db1-IsConsistent =
    create_task-IsConsistent platform (content_in State.ready) member (bytes "k1") task_id now
      empty_db empty-IsConsistent create_runs

pub db2-IsConsistent : IsConsistent db2
db2-IsConsistent =
    (apply_task_reservation-KeepsTables platform (caller_with (bytes "c1")) claim_input claim none
      hold_id now db1 db1-IsConsistent claim_runs).good
