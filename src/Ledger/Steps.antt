-- ===== src/Ledger/Steps.antt =====
-- Sequences of accepted operations on one project, by any callers, in any order: CreateTask,
-- UpdateTask and the comments (internal/store/tasks.go), the epics (epics.go), TriageTask
-- (task_triage.go), DB.ApplyTaskReservation (task_reservations.go) and RecoverTaskReservation
-- (task_reservation_recovery.go).
use aimem.Prelude.{ℕ, ◌≤◌, ◌≡◌, sym, ap, ◌∙◌, false, inl, inr, Option, Bytes, arith}
use aimem.Task.{Task, TaskActor, TaskComment, TaskContent}
use aimem.Task.Content.{Platform}
use aimem.Error.{Error, ok}
use aimem.Db.{Db}
use aimem.Tasks.{create_task, update_task}
use aimem.Tasks.Consistent.{IsConsistent}
use aimem.Tasks.Accepted.{
  create_task-Accepted, update_task-Accepted, create_SameGuards, update_SameGuards,
}
use aimem.Tasks.Triage.{
  TaskTriage, triage_task, triage_task-Accepted, triage_SameGuards, triage_task-IsConsistent,
}
use aimem.Epic.{Epic, EpicContent}
use aimem.Epics.{create_epic, update_epic, add_task_comment, add_task_comment_unheld}
use aimem.Epics.Apart.{
  create_epic-IsApart, update_epic-IsApart, add_task_comment-IsApart,
  add_task_comment_unheld-IsApart, IsApart-IsConsistent,
}
use aimem.Tasks.Cas.{create_task-IsConsistent, update_task-IsConsistent}
use aimem.Reservation.{
  Operation, is_claim, ReservationInput, Coordination, RecoveryEvidence, Outcome,
}
use aimem.Ledger.{find_hold}
use aimem.Ledger.Apply.{Caller, apply_task_reservation}
use aimem.Ledger.Recover.{recover_task_reservation}
use aimem.Ledger.Fence.{apply-cases, apply-Fresh, apply-Advances, apply-Made, Made}
use aimem.Ledger.Closes.{recover-cases, recover-Advances}
use aimem.Ledger.Tables.{apply_task_reservation-KeepsTables, recover_task_reservation-KeepsTables}
use aimem.Ledger.Terminal.{Change-Holds}
use aimem.Ledger.Hold.{Holds}
use aimem.Ledger.HoldSteps.{
  fence_of, HoldStep, same-HoldStep, fence-any, Advances-HoldStep, HoldStep-fence, Advances-own,
}

module _ (p : Platform) where
  pub data Step (db db' : Db) : Type 0 where
    by_create :
        (content : TaskContent) (actor : TaskActor) (key new_id now : Bytes) (t : Task)
        → create_task p content actor key new_id now db ≡ ok (t, db')
        → Step db db'
    by_update :
        (id : Bytes) (content : TaskContent) (expected : ℕ) (actor : TaskActor) (key now : Bytes)
        (t : Task)
        → update_task p id content expected actor key now db ≡ ok (t, db')
        → Step db db'
    by_triage :
        (id : Bytes) (patch : TaskTriage) (expected : ℕ) (actor : TaskActor) (key now : Bytes)
        (t : Task)
        → triage_task p id patch expected actor key now db ≡ ok (t, db')
        → Step db db'
    by_create_epic :
        (content : EpicContent) (actor : TaskActor) (key new_id now : Bytes) (e : Epic)
        → create_epic p content actor key new_id now db ≡ ok (e, db')
        → Step db db'
    by_update_epic :
        (id : Bytes) (content : EpicContent) (expected : ℕ) (actor : TaskActor) (key now : Bytes)
        (e : Epic)
        → update_epic p id content expected actor key now db ≡ ok (e, db')
        → Step db db'
    by_comment :
        (task body : Bytes) (actor : TaskActor) (key new_id now : Bytes) (c : TaskComment)
        → add_task_comment p task body actor key new_id now db ≡ ok (c, db')
        → Step db db'
    by_comment_unheld :
        (task body : Bytes) (actor : TaskActor) (key new_id now : Bytes) (c : TaskComment)
        → add_task_comment_unheld p task body actor key new_id now db ≡ ok (c, db')
        → Step db db'
    by_apply :
        (c : Caller) (i : ReservationInput) (op : Operation) (coord : Option Coordination)
        (new_id now : Bytes) (out : Outcome)
        → apply_task_reservation p c i op coord new_id now db ≡ ok (out, db')
        → Step db db'
    by_recover :
        (i : ReservationInput) (e : RecoveryEvidence) (actor : TaskActor) (op : Operation)
        (key : Bytes) (authorize : Option Error) (now : Bytes) (out : Outcome)
        → recover_task_reservation p i e actor op key authorize now db ≡ ok (out, db')
        → Step db db'

  pub data Reaches : Db → Db → Type 0 where
    here : {db : Db} → Reaches db db
    then_step : {db mid db' : Db} → Step db mid → Reaches mid db' → Reaches db db'

  pub Step-IsConsistent : {db db' : Db} → Step db db' → IsConsistent db → IsConsistent db'
  Step-IsConsistent {db} {db'} (by_create content actor key new_id now t h) good =
      create_task-IsConsistent p content actor key new_id now db good h
  Step-IsConsistent {db} {db'} (by_update id content expected actor key now t h) good =
      update_task-IsConsistent p id content expected actor key now db good h
  Step-IsConsistent {db} {db'} (by_triage id patch expected actor key now t h) good =
      triage_task-IsConsistent p id patch expected actor key now db good h
  Step-IsConsistent {db} {db'} (by_create_epic content actor key new_id now e h) good =
      IsApart-IsConsistent db db' (create_epic-IsApart p content actor key new_id now db h) good
  Step-IsConsistent {db} {db'} (by_update_epic id content expected actor key now e h) good =
      IsApart-IsConsistent db db' (update_epic-IsApart p id content expected actor key now db h)
        good
  Step-IsConsistent {db} {db'} (by_comment task body actor key new_id now c h) good =
      IsApart-IsConsistent db db' (add_task_comment-IsApart p task body actor key new_id now db h)
        good
  Step-IsConsistent {db} {db'} (by_comment_unheld task body actor key new_id now c h) good =
      IsApart-IsConsistent db db'
        (add_task_comment_unheld-IsApart p task body actor key new_id now db h) good
  Step-IsConsistent {db} {db'} (by_apply c i op coord new_id now out h) good =
      (apply_task_reservation-KeepsTables p c i op coord new_id now db good h).good
  Step-IsConsistent {db} {db'} (by_recover i e actor op key authorize now out h) good =
      (recover_task_reservation-KeepsTables p i e actor op key authorize now db good h).good

  -- From a state with well-formed task tables, whatever sequence of accepted operations runs, they
  -- stay well-formed.
  pub Reaches-IsConsistent : {db db' : Db} → Reaches db db' → IsConsistent db → IsConsistent db'
  Reaches-IsConsistent here good = good
  Reaches-IsConsistent (then_step s rest) good =
      Reaches-IsConsistent rest (Step-IsConsistent s good)

  pub Step-HoldStep : (j : Bytes) {db db' : Db} → Step db db' → HoldStep j db db'
  Step-HoldStep j {db} {db'} (by_create content actor key new_id now t h) =
      same-HoldStep j db db'
        (create_SameGuards p content actor key new_id now db
          (create_task-Accepted p content actor key new_id now db h)).reservations
  Step-HoldStep j {db} {db'} (by_update id content expected actor key now t h) =
      same-HoldStep j db db'
        (update_SameGuards p id content expected actor key now db
          (update_task-Accepted p id content expected actor key now db h)).reservations
  Step-HoldStep j {db} {db'} (by_triage id patch expected actor key now t h) =
      same-HoldStep j db db'
        (triage_SameGuards p id patch expected actor key now db
          (triage_task-Accepted p id patch expected actor key now db h)).reservations
  Step-HoldStep j {db} {db'} (by_create_epic content actor key new_id now e h) =
      same-HoldStep j db db' (create_epic-IsApart p content actor key new_id now db h).reservations
  Step-HoldStep j {db} {db'} (by_update_epic id content expected actor key now e h) =
      same-HoldStep j db db'
        (update_epic-IsApart p id content expected actor key now db h).reservations
  Step-HoldStep j {db} {db'} (by_comment task body actor key new_id now c h) =
      same-HoldStep j db db'
        (add_task_comment-IsApart p task body actor key new_id now db h).reservations
  Step-HoldStep j {db} {db'} (by_comment_unheld task body actor key new_id now c h) =
      same-HoldStep j db db'
        (add_task_comment_unheld-IsApart p task body actor key new_id now db h).reservations
  Step-HoldStep j {db} {db'} (by_apply c i op coord new_id now out h) =
      elim (apply-cases p c i op coord new_id now db h) [
        | inl (same, _) ↦ same-HoldStep j db db' (ap (λ d. d.reservations) same)
        | inr f ↦
            Advances-HoldStep j i.task_id i.expected_revision db out.reservation db'
              (apply-Advances p c i op coord new_id now db f)
      ]
  Step-HoldStep j {db} {db'} (by_recover i e actor op key authorize now out h) =
      elim (recover-cases p i e actor op key authorize now db h) [
        | inl (same, _) ↦ same-HoldStep j db db' (ap (λ d. d.reservations) same)
        | inr f ↦
            Advances-HoldStep j i.task_id i.expected_revision db out.reservation db'
              (recover-Advances p i e actor op key authorize now db f)
      ]

  -- Through any sequence of accepted operations, the fence of a task never goes back.
  pub Reaches-fence : (j : Bytes) {db db' : Db} → Reaches db db' → fence_of j db ≤ fence_of j db'
  Reaches-fence j here = omega arith
  Reaches-fence j {db} {db'} (then_step {mid = mid} s rest) =
      let first : fence_of j db ≤ fence_of j mid = HoldStep-fence j db mid (Step-HoldStep j s) in
      let after : fence_of j mid ≤ fence_of j db' = Reaches-fence j rest in omega arith

  -- The fences of a task's transitions are ordered: where one was made (not replayed), and after
  -- any further accepted operations another one, not a claim, is made on the same task, the later
  -- one presented no less than the fence that the earlier one took.
  pub fence_order :
      (c c' : Caller) (i i' : ReservationInput) (op op' : Operation)
      (coord coord' : Option Coordination) (new_id new_id' now now' : Bytes) (db : Db) {db₁ : Db}
      (db₂ : Db) {db₃ : Db} {out out' : Outcome}
      → apply_task_reservation p c i op coord new_id now db ≡ ok (out, db₁)
      → out.replayed ≡ false
      → Reaches db₁ db₂
      → apply_task_reservation p c' i' op' coord' new_id' now' db₂ ≡ ok (out', db₃)
      → out'.replayed ≡ false
      → i'.task_id ≡ i.task_id
      → is_claim op' ≡ false
      → out.reservation.fence ≤ i'.fence
  fence_order c c' i i' op op' coord coord' new_id new_id' now now' db {db₁} db₂ {db₃} {out} {out'}
        h first between h' first' same other =
      let m : Made p c' i' op' coord' new_id' now' db₂ out' db₃ =
        apply-Made p c' i' op' coord' new_id' now' db₂ h' first' in
      let held : Holds c' i' coord' op' (find_hold i'.task_id i'.expected_revision db₂) =
        Change-Holds p c' i' op' coord' new_id' now' m.old
          (find_hold i'.task_id i'.expected_revision db₂) db₂ other m.change in
      let presented : fence_of i'.task_id db₂ ≡ i'.fence =
        sym (fence-any i'.task_id i'.expected_revision db₂) ∙ held.same_fence in
      let taken : fence_of i.task_id db₁ ≡ out.reservation.fence =
        Advances-own i.task_id i.expected_revision db out.reservation db₁ (
          apply-Advances p c i op coord new_id now db
            (apply-Fresh p c i op coord new_id now db h first)) in
      let later : fence_of i.task_id db₁ ≤ fence_of i.task_id db₂ =
        Reaches-fence i.task_id between in
      let there : fence_of i.task_id db₂ ≡ i'.fence =
        ap (λ k. fence_of k db₂) (sym same) ∙ presented in
      omega arith
