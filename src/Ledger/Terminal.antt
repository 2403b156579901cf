-- ===== src/Ledger/Terminal.antt =====
-- Which transition leaves which state of task and hold (DB.ApplyTaskReservation of
-- internal/store/task_reservations.go).
use aimem.Prelude.{
  Bool-cases, ◌≡◌, sym, ap, ◌∙◌, true, false, not, ◌&&◌, ◌⊎◌, inl, inr, Option, none, some, Bytes,
  str_eq, str_eq_iff, length, arith, ◌==◌,
}
use aimem.Task.{Task}
use aimem.Task.State
use aimem.Task.Content.{Platform}
use aimem.Error.{ok}
use aimem.Db.{Db}
use aimem.Tasks.{find_task}
use aimem.Reservation.{
  Operation, valid_operation, coordination_intended, claim, transfer, update, release, finalize,
  recovery_release, recovery_cancel, unknown, is_claim, is_update, is_finalize, is_empty, Binding,
  same_holder, check_coordinated_holder, TaskReservation, ReservationInput, Coordination, Outcome,
  evidence_list, is_transfer,
}
use aimem.Reservation.Input.{validate_reservation_input, content_state, is_terminal}
use aimem.Reservation.Rules.{valid-update, valid-release, valid-finalize}
use aimem.Ledger.{find_hold, advanced, holder_error}
use aimem.Ledger.Apply.{Caller, apply_task_reservation}
use aimem.Ledger.Hold.{Claimable, Holds, Wrote}
use aimem.Ledger.Moves.{writes, Change, claimed, transferred, wrote, kept}
use aimem.Ledger.Retry.{apply-checked}
use aimem.Ledger.Fence.{Made, apply-Made}

-- The state that a valid input of a writing operation asks for is terminal for finalize alone.
valid-is_terminal :
    (p : Platform) (op : Operation) (i : ReservationInput)
    → writes op ≡ true
    → validate_reservation_input p op i ≡ none
    → is_terminal (content_state i.content) ≡ is_finalize op
valid-is_terminal p update i w h = valid-update p i h
valid-is_terminal p release i w h = ground (
  arith,
  valid-release p i h,
  str_eq_iff (content_state i.content) State.ready,
  str_eq_iff (content_state i.content) State.blocked,
  str_eq_iff (content_state i.content) State.done,
  str_eq_iff (content_state i.content) State.cancelled,
)
valid-is_terminal p finalize i w h = (valid-finalize p i h).0
valid-is_terminal p claim i w h = cc
valid-is_terminal p transfer i w h = cc
valid-is_terminal p recovery_release i w h = cc
valid-is_terminal p recovery_cancel i w h = cc
valid-is_terminal p (unknown s) i w h = cc

done_evidence :
    (p : Platform) (op : Operation) (i : ReservationInput)
    → is_finalize op ≡ true
    → validate_reservation_input p op i ≡ none
    → (str_eq (content_state i.content) State.done
        && (length (evidence_list i.terminal_evidence) == 0))
      ≡ false
done_evidence p finalize i e h = (valid-finalize p i h).1
done_evidence p claim i e h = cc
done_evidence p transfer i e h = cc
done_evidence p update i e h = cc
done_evidence p release i e h = cc
done_evidence p recovery_release i e h = cc
done_evidence p recovery_cancel i e h = cc
done_evidence p (unknown s) i e h = cc

plain-allowed :
    (op : Operation) (r : TaskReservation) (b : Binding)
    → holder_error (check_coordinated_holder op r b none) ≡ none
    → (is_transfer op ≡ false) × (same_holder r.binding b ≡ true)
unfolding check_coordinated_holder
plain-allowed op r b h = ground arith

module _ (p : Platform) (c : Caller) (i : ReservationInput) (coord : Option Coordination)
    (new_id now : Bytes) where
  abbrev taken : TaskReservation → TaskReservation
  taken r = record r {
    id = new_id;
    holder = i.holder;
    binding = c.binding;
    intended_worker = coordination_intended coord;
  }

  claim-Change :
      (t : Task) (r : TaskReservation) (db : Db) {t' : Task} {r' : TaskReservation} {mid : Db}
      → Change p c i coord new_id now claim t r db t' r' mid
      → (t' ≡ t) × Claimable i t r db × (r' ≡ taken r)
  unfolding valid_operation
  claim-Change t r db (claimed _ free same hold left) = (same, free, hold)
  claim-Change t r db (transferred e _ _ _ _) = cc
  claim-Change t r db (wrote e _ _) = cc
  claim-Change t r db (kept e _ _ _ _) = cc

  -- A claim that was made now (not replayed) found an unmanaged, unarchived READY task without
  -- dependencies and no hold on it; it leaves the task as it was, and the hold is the caller's
  -- under the new id.
  pub claim_takes :
      (db : Db) {out : Outcome} {db' : Db}
      → apply_task_reservation p c i claim coord new_id now db ≡ ok (out, db')
      → out.replayed ≡ false
      → (find_task i.task_id db ≡ some out.task)
        × Claimable i out.task (find_hold i.task_id i.expected_revision db) db
        × (out.reservation.id ≡ new_id)
        × (out.reservation.holder ≡ i.holder)
        × (out.reservation.binding ≡ c.binding)
  claim_takes db {out} {db'} h first =
      let m : Made p c i claim coord new_id now db out db' =
        apply-Made p c i claim coord new_id now db h first in
      let (same, free, hold) =
        claim-Change m.old (find_hold i.task_id i.expected_revision db) db m.change in
      let kept_task : out.task ≡ m.old = m.new_task ∙ same in
      let new_hold : out.reservation
          ≡ advanced (taken (find_hold i.task_id i.expected_revision db)) =
        ground (arith, m.new_hold) in
      (
        m.found ∙ ap some (sym kept_task),
        rw kept_task free,
        ap (λ r. r.id) new_hold,
        ap (λ r. r.holder) new_hold,
        ap (λ r. r.binding) new_hold,
      )

module _ (p : Platform) (c : Caller) (i : ReservationInput) (op : Operation)
    (coord : Option Coordination) (new_id now : Bytes) where
  abbrev hold_before : Db → TaskReservation
  hold_before db = find_hold i.task_id i.expected_revision db

  write-Change :
      (t : Task) (r : TaskReservation) (db : Db) {t' : Task} {r' : TaskReservation} {mid : Db}
      → writes op ≡ true
      → Change p c i coord new_id now op t r db t' r' mid
      → Holds c i coord op r × Wrote op c.actor i.content now t r db t' r' mid
  unfolding valid_operation
  write-Change t r db w (claimed e _ _ _ _) = ground arith
  write-Change t r db w (transferred e _ _ _ _) = ground arith
  write-Change t r db w (wrote _ held one) = (held, one)
  write-Change t r db w (kept e _ _ _ _) = impossible op w e
    where
      impossible :
          (op : Operation) → writes op ≡ true → valid_operation op ≡ false → {A : Type 0} → A
      impossible update w e = cc
      impossible release w e = cc
      impossible finalize w e = cc
      impossible claim w e = cc
      impossible transfer w e = cc
      impossible recovery_release w e = cc
      impossible recovery_cancel w e = cc
      impossible (unknown s) w e = cc

  write_state :
      (db : Db) {out : Outcome} {db' : Db}
      → writes op ≡ true
      → apply_task_reservation p c i op coord new_id now db ≡ ok (out, db')
      → out.replayed ≡ false
      → out.task.content.state ≡ content_state i.content
  write_state db {out} {db'} w h first =
      let m : Made p c i op coord new_id now db out db' =
        apply-Made p c i op coord new_id now db h first in
      let (held, one) =
        write-Change m.old (find_hold i.task_id i.expected_revision db) db w m.change in
      ground (arith, m.new_task, one.task, one.given)

  -- A release, an update or a finalize that was made now: the task's state is terminal exactly after
  -- a finalize, and the hold lasts exactly after an update.
  pub write_ends :
      (db : Db) {out : Outcome} {db' : Db}
      → writes op ≡ true
      → apply_task_reservation p c i op coord new_id now db ≡ ok (out, db')
      → out.replayed ≡ false
      → (is_terminal out.task.content.state ≡ is_finalize op)
        × (is_empty out.reservation.id ≡ not (is_update op))
  unfolding is_empty
  write_ends db {out} {db'} w h first =
      let m : Made p c i op coord new_id now db out db' =
        apply-Made p c i op coord new_id now db h first in
      let (held, one) =
        write-Change m.old (find_hold i.task_id i.expected_revision db) db w m.change in
      (
        rw (write_state db w h first)
            (valid-is_terminal p op i w (apply-checked p op c i coord new_id now db h).0),
        ground (arith, m.new_hold, one.hold, held.active),
      )

  pub Change-Holds :
      (t : Task) (r : TaskReservation) (db : Db) {t' : Task} {r' : TaskReservation} {mid : Db}
      → is_claim op ≡ false
      → Change p c i coord new_id now op t r db t' r' mid
      → Holds c i coord op r
  Change-Holds t r db other (claimed e _ _ _ _) = ground arith
  Change-Holds t r db other (transferred _ held _ _ _) = held
  Change-Holds t r db other (wrote _ held _) = held
  Change-Holds t r db other (kept _ held _ _ _) = held

  unchanged :
      (t : Task) (r : TaskReservation) (db : Db) {t' : Task} {r' : TaskReservation} {mid : Db}
      → writes op ≡ false
      → Change p c i coord new_id now op t r db t' r' mid
      → t' ≡ t
  unchanged t r db w (claimed _ _ same _ _) = same
  unchanged t r db w (transferred _ _ same _ _) = same
  unchanged t r db w (wrote e _ _) = ground arith
  unchanged t r db w (kept _ _ same _ _) = same

  -- Where a transition that was made now turned an open task into a DONE or CANCELLED one, it was a
  -- finalize; as DONE, it carried evidence.
  pub only_finalize_completes :
      (db : Db) {old : Task} {out : Outcome} {db' : Db}
      → apply_task_reservation p c i op coord new_id now db ≡ ok (out, db')
      → out.replayed ≡ false
      → find_task i.task_id db ≡ some old
      → is_terminal old.content.state ≡ false
      → is_terminal out.task.content.state ≡ true
      → (is_finalize op ≡ true)
        × ((str_eq out.task.content.state State.done
              && (length (evidence_list i.terminal_evidence) == 0))
            ≡ false)
  only_finalize_completes db {old} {out} {db'} h first found open_before closed_after =
      go (Bool-cases (writes op))
    where
      m : Made p c i op coord new_id now db out db'
      m = apply-Made p c i op coord new_id now db h first

      go :
          ((writes op ≡ true) ⊎ (writes op ≡ false))
          → (is_finalize op ≡ true)
            × ((str_eq out.task.content.state State.done
                  && (length (evidence_list i.terminal_evidence) == 0))
                ≡ false)
      go (inl w) =
          let final : is_finalize op ≡ true = sym (write_ends db w h first).0 ∙ closed_after in
          (
            final,
            rw (write_state db w h first)
                (done_evidence p op i final (apply-checked p op c i coord new_id now db h).0),
          )
      go (inr w) =
          let same : out.task ≡ old =
            m.new_task
            ∙ unchanged m.old (find_hold i.task_id i.expected_revision db) db w m.change
            ∙ ground (arith, m.found) in
          ground arith

  -- Without a coordination fact, every transition but a claim that was made now came from the holder:
  -- the binding stored with the hold is the caller's own, for the id and the fence of the input.
  pub only_holder_moves :
      (db : Db) {out : Outcome} {db' : Db}
      → apply_task_reservation p c i op coord new_id now db ≡ ok (out, db')
      → out.replayed ≡ false
      → coord ≡ none
      → is_claim op ≡ false
      → (str_eq (hold_before db).id i.id ≡ true)
        × ((hold_before db).fence ≡ i.fence)
        × (is_transfer op ≡ false)
        × (same_holder (hold_before db).binding c.binding ≡ true)
  only_holder_moves db {out} {db'} h first plain other =
      let m : Made p c i op coord new_id now db out db' =
        apply-Made p c i op coord new_id now db h first in
      let held : Holds c i coord op (hold_before db) =
        Change-Holds m.old (hold_before db) db other m.change in
      let (fixed, own) = plain-allowed op (hold_before db) c.binding (rw plain at held.allowed) in
      (held.same_id, held.same_fence, fixed, own)
