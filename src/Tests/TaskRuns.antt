-- ===== src/Tests/TaskRuns.antt =====
-- The theorems on tasks, receipts and evidence, at the runs of the project.
use aimem.Prelude.{
  List, ◌+◌, ◌≡◌, ◌≢◌, refl, false, [], ◌∷◌, some, none, Bytes, bytes, str_eq, str_eq_iff,
  if◌then◌else◌, arith,
}
use aimem.Json.{Value, bool, str, obj, end, field, receipt_digest}
use aimem.Json.Canonical.{
  pads_obj, pads_field, pads_str, pads_zero, pads_end, blank_bool, receipt_digest-Pads,
}
use aimem.Task.State
use aimem.Error.{ok, err, retry_conflict}
use aimem.Db.{is_managed, has_active_reservation}
use aimem.Tasks.{find_task, create_task, update_task, update_json}
use aimem.Reservation.{claim, update}
use aimem.Tasks.Cas.{update_task_held, update_task_read, no_lost_update}
use aimem.Ledger.Steps.{Reaches, here, then_step, by_create, by_apply}
use aimem.Ledger.Replays.{after_guards, create_task_retry, update_task_retry, update_task_reuse}
use aimem.Reservation.Evidence.{evidence_bytes-injective}
use aimem.Tests.Project.{
  platform, member, task_id, other_id, now, content_in, empty_db, db1, db_after, task_at,
  update_run, create_out, update_out, later_run, later_out, db3, hold_id, caller_with, claim_input,
  work_input, claim_out, work_out,
}
use aimem.Tests.Runs.{
  create_runs, update_runs, later_runs, claim_runs, work_runs, update_new, again_new, blocked_valid,
  other_digest, db1-IsConsistent,
}

no_lost_update_example :
    update_task platform task_id
      (content_in State.blocked)
      1
      member
      (bytes "k3")
      now
      (db_after update_run)
    ≢ ok (task_at State.blocked 2, empty_db)
no_lost_update_example =
    no_lost_update platform task_id (content_in State.in_progress) (content_in State.blocked) 1
      member member (bytes "k2") (bytes "k3") now now db1 db1-IsConsistent update_new update_runs
      again_new

update_task_read_example :
    (update_out.revision ≡ 1 + 1)
    × (update_out.content ≡ content_in State.in_progress)
    × ((j : Bytes)
        → find_task j (db_after update_run)
          ≡ (if str_eq task_id j then some update_out else find_task j db1))
update_task_read_example =
    update_task_read platform task_id (content_in State.in_progress) 1 member (bytes "k2") now db1
      db1-IsConsistent update_new update_runs

-- After the update another task is created; after the creation the task is claimed and worked on.
other_created : Reaches platform (db_after update_run) (db_after later_run)
other_created =
    then_step
      (by_create (content_in State.backlog) member (bytes "k9") other_id now later_out later_runs)
      here

claimed_and_worked : Reaches platform db1 db3
claimed_and_worked =
    then_step
      (by_apply (caller_with (bytes "c1")) claim_input claim none hold_id now claim_out claim_runs)
      (then_step
        (by_apply (caller_with (bytes "c2")) work_input update none [] now work_out work_runs) here)

update_task_retry_example :
    update_task platform task_id
      (content_in State.in_progress)
      1
      member
      (bytes "k2")
      (bytes "T2")
      (db_after later_run)
    ≡ after_guards task_id (db_after later_run) (ok (update_out, db_after later_run))
update_task_retry_example =
    update_task_retry platform task_id (content_in State.in_progress) 1 member (bytes "k2") now
      (bytes "T2") db1 update_runs other_created

create_task_retry_example :
    create_task platform (content_in State.ready) member (bytes "k1") other_id (bytes "T2") db3
    ≡ ok (create_out, db3)
create_task_retry_example =
    create_task_retry platform (content_in State.ready) member (bytes "k1") task_id now other_id
      (bytes "T2") empty_db create_runs claimed_and_worked

digests_differ :
    receipt_digest platform.hashing (update_json (content_in State.in_progress) 1)
    ≢ receipt_digest platform.hashing (update_json (content_in State.blocked) 1)
digests_differ e = ground (
  arith,
  other_digest,
  str_eq_iff (receipt_digest platform.hashing (update_json (content_in State.in_progress) 1))
      (receipt_digest platform.hashing (update_json (content_in State.blocked) 1)),
)

update_task_reuse_example :
    update_task platform task_id
      (content_in State.blocked)
      1
      member
      (bytes "k2")
      now
      (db_after later_run)
    ≡ after_guards task_id (db_after later_run) (err retry_conflict)
update_task_reuse_example =
    update_task_reuse platform task_id (content_in State.in_progress) (content_in State.blocked) 1 1
      member (bytes "k2") now now db1 update_runs other_created refl blocked_valid digests_differ

update_task_held_example :
    (has_active_reservation task_id db1 ≡ false) × (is_managed task_id db1 ≡ false)
update_task_held_example =
    update_task_held platform task_id (content_in State.in_progress) 1 member (bytes "k2") now db1
      update_runs

abbrev two_refs : List Bytes
two_refs = bytes "a" ∷ bytes "b" ∷ []

evidence_bytes-injective_example : two_refs ≡ two_refs
evidence_bytes-injective_example =
    evidence_bytes-injective two_refs two_refs (omega arith, (omega arith, tt))
      (omega arith, (omega arith, tt)) refl

abbrev titled : Value
titled = obj (field (bytes "title") (str (bytes "t")) end)

abbrev titled_open : Value
titled_open =
    obj (field (bytes "title") (str (bytes "t")) (field (bytes "archived") (bool false) end))

receipt_digest-Pads_example :
    receipt_digest platform.hashing titled ≡ receipt_digest platform.hashing titled_open
receipt_digest-Pads_example =
    receipt_digest-Pads platform.hashing
      (pads_obj (pads_field (pads_str (bytes "t")) (pads_zero (blank_bool false refl) pads_end)))
