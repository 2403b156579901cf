-- ===== src/Tests/LedgerRuns.antt =====
-- The theorems on the ledger, at the runs of the project.
use aimem.Prelude.{
  ℕ, ◌+◌, ◌≡◌, refl, ◌≤◌, true, false, not, ◌&&◌, [], none, some, Bytes, bytes, str_eq, length,
  if◌then◌else◌, ◌==◌,
}
use aimem.Task.State
use aimem.Tasks.{find_task}
use aimem.Tasks.Consistent.{IsConsistent}
use aimem.Reservation.{
  claim, update, finalize, recovery_cancel, is_update, is_finalize, is_transfer, is_empty,
  same_holder, evidence_list,
}
use aimem.Reservation.Input.{is_terminal}
use aimem.Ledger.{find_hold}
use aimem.Ledger.Hold.{Claimable}
use aimem.Ledger.Recovered.{Recoverable}
use aimem.Ledger.Protects.{hold_protects}
use aimem.Ledger.HoldSteps.{fence_of}
use aimem.Ledger.Steps.{
  fence_order, Reaches, here, then_step, by_create, by_apply, Reaches-IsConsistent, Reaches-fence,
}
use aimem.Ledger.Fence.{read_back, apply_task_reservation_read}
use aimem.Ledger.Terminal.{only_finalize_completes, write_ends, claim_takes, only_holder_moves}
use aimem.Ledger.Closes.{recover_closes}
use aimem.Tests.Project.{
  platform, member, operator, task_id, other_id, hold_id, now, content_in, caller_with, personal,
  claim_input, work_input, finish_input, recover_input, attestation, db1, db2, db3, db_after,
  task_at, recover_run, other_run, claim_out, work_out, finish_out, recover_out, other_out,
}
use aimem.Tests.Runs.{
  claim_runs, work_runs, finish_runs, other_runs, recover_runs, claim_new, work_new, finish_new,
  recover_new, found_ready, found_working, held, finish_terminal, fence_stands, db2-IsConsistent,
}

other_created : Reaches platform db2 (db_after other_run)
other_created =
    then_step
      (by_create (content_in State.backlog) member (bytes "k9") other_id now other_out other_runs)
      here

worked : Reaches platform db2 db3
worked =
    then_step (by_apply (caller_with (bytes "c2")) work_input update none [] now work_out work_runs)
      here

hold_protects_example :
    (find_task task_id (db_after other_run) ≡ some (task_at State.ready 1))
    × (find_hold task_id 1 (db_after other_run) ≡ find_hold task_id 1 db2)
hold_protects_example =
    hold_protects platform task_id 1 db2-IsConsistent found_ready held other_created fence_stands

fence_order_example : claim_out.reservation.fence ≤ finish_input.fence
fence_order_example =
    fence_order platform (caller_with (bytes "c1")) (caller_with (bytes "c3")) claim_input
      finish_input claim finalize none none hold_id [] now now db1 db3 claim_runs claim_new worked
      finish_runs finish_new refl refl

Reaches-IsConsistent_example : IsConsistent db3
Reaches-IsConsistent_example = Reaches-IsConsistent platform worked db2-IsConsistent

Reaches-fence_example : fence_of task_id db2 ≤ fence_of task_id db3
Reaches-fence_example = Reaches-fence platform task_id worked

apply_task_reservation_read_example :
    (work_out.reservation.fence ≡ (find_hold task_id 1 db2).fence + 1)
    × ((j : Bytes) (rev : ℕ)
        → find_hold j rev db3 ≡ (
            if str_eq task_id j
            then record (read_back work_out.reservation) { task_revision = rev }
            else find_hold j rev db2))
apply_task_reservation_read_example =
    apply_task_reservation_read platform (caller_with (bytes "c2")) work_input update none [] now
      db2 work_runs work_new

only_finalize_completes_example :
    (is_finalize finalize ≡ true)
    × ((str_eq finish_out.task.content.state State.done
          && (length (evidence_list finish_input.terminal_evidence) == 0))
        ≡ false)
unfolding str_eq
only_finalize_completes_example =
    only_finalize_completes platform (caller_with (bytes "c3")) finish_input finalize none [] now
      db3 finish_runs finish_new found_working refl finish_terminal

write_ends_example :
    (is_terminal work_out.task.content.state ≡ is_finalize update)
    × (is_empty work_out.reservation.id ≡ not (is_update update))
write_ends_example =
    write_ends platform (caller_with (bytes "c2")) work_input update none [] now db2 refl work_runs
      work_new

claim_takes_example :
    (find_task task_id db1 ≡ some claim_out.task)
    × Claimable claim_input claim_out.task (find_hold task_id 1 db1) db1
    × (claim_out.reservation.id ≡ hold_id)
    × (claim_out.reservation.holder ≡ claim_input.holder)
    × (claim_out.reservation.binding ≡ personal)
claim_takes_example =
    claim_takes platform (caller_with (bytes "c1")) claim_input none hold_id now db1 claim_runs
      claim_new

only_holder_moves_example :
    (str_eq (find_hold task_id 1 db2).id hold_id ≡ true)
    × ((find_hold task_id 1 db2).fence ≡ 1)
    × (is_transfer update ≡ false)
    × (same_holder (find_hold task_id 1 db2).binding personal ≡ true)
only_holder_moves_example =
    only_holder_moves platform (caller_with (bytes "c2")) work_input update none [] now db2
      work_runs work_new refl refl

recover_closes_example :
    Recoverable platform recover_input attestation operator (find_hold task_id 2 db3)
    × (recover_out.reservation.fence ≡ 3)
    × ((rev : ℕ) → is_empty (find_hold task_id rev (db_after recover_run)).id ≡ true)
    × (str_eq recover_out.task.content.state State.done ≡ false)
recover_closes_example =
    recover_closes platform recover_input attestation operator recovery_cancel (bytes "r1") none now
      db3 recover_runs recover_new
