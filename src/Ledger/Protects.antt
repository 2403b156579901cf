-- ===== src/Ledger/Protects.antt =====
-- What a hold protects: as long as a task's fence stands, no sequence of accepted operations changes
-- the task or its hold (rejectActiveReservation and the fence checks of
-- internal/store/task_reservations.go).
use aimem.Prelude.{
  ℕ, ◌+◌, ◌≤◌, ◌≡◌, refl, sym, ap, ◌∙◌, true, false, inl, inr, some, Bytes, str_eq, str_eq_iff,
  lookup, lookup-insert, arith, Bool-cases, Option-cases,
}
use aimem.Task.{Task, TaskActor, TaskContent}
use aimem.Task.Content.{Platform}
use aimem.Db.{Db, has_active_reservation}
use aimem.Mutation.Fresh.{applied, replayed}
use aimem.Tasks.{find_task, with_default_state, row_of}
use aimem.Tasks.Consistent.{IsConsistent}
use aimem.Tasks.Effects.{create_effect-eq-ok, update_effect_read, created, find_task-row}
use aimem.Tasks.Accepted.{
  CreateAccepted, UpdateAccepted, create_task-Accepted, update_task-Accepted,
}
use aimem.Tasks.Triage.{triage_task_held, triage_keeps, triage_task-Accepted}
use aimem.Epics.Apart.{
  create_epic-IsApart, update_epic-IsApart, add_task_comment-IsApart,
  add_task_comment_unheld-IsApart, IsApart-find_task,
}
use aimem.Tasks.Cas.{update_task_held}
use aimem.Reservation.{is_empty}
use aimem.Ledger.{find_hold}
use aimem.Ledger.Fence.{apply-cases, apply-Advances}
use aimem.Ledger.Closes.{recover-cases, recover-Advances}
use aimem.Ledger.Tables.{
  KeepsTables, apply_task_reservation-KeepsTables, recover_task_reservation-KeepsTables,
}
use aimem.Ledger.HoldSteps.{fence_of, HoldStep, HoldStep-fence, Advances-fence}
use aimem.Ledger.Steps.{
  Step, by_create, by_update, by_triage, by_create_epic, by_update_epic, by_comment,
  by_comment_unheld, by_apply, by_recover, Reaches, here, then_step, Step-IsConsistent,
  Step-HoldStep, Reaches-fence,
}

active-find_hold :
    (j : Bytes) (rev : ℕ) (db : Db)
    → is_empty (find_hold j rev db).id ≡ false
    → has_active_reservation j db ≡ true
unfolding is_empty find_hold has_active_reservation
active-find_hold j rev db h = elim (Option-cases (lookup j db.reservations)) [
  | inl e ↦ ground arith
  | inr (row, e) ↦ ground arith
]

-- A transition on another task, since the fence of `j` stands.
other_task :
    (j id : Bytes) (db db' : Db)
    → fence_of j db' ≡ fence_of j db
    → KeepsTables id db db'
    → (str_eq id j ≡ true → fence_of j db' ≡ fence_of j db + 1)
    → find_task j db' ≡ find_task j db
other_task j id db db' stands k next = elim (Bool-cases (str_eq id j)) [
  | inl hit ↦ let up : fence_of j db' ≡ fence_of j db + 1 = next hit in ground arith
  | inr miss ↦ k.others j miss
]

HoldStep-still :
    (j : Bytes) (rev : ℕ) (db db' : Db)
    → HoldStep j db db'
    → fence_of j db' ≡ fence_of j db
    → find_hold j rev db' ≡ find_hold j rev db
unfolding HoldStep
HoldStep-still j rev db db' (inl same) stands = same rev
HoldStep-still j rev db db' (inr next) stands = ground arith

module _ (p : Platform) where
  -- A step at which the fence stands leaves the task alone.
  create-keeps :
      (content : TaskContent) (actor : TaskActor) (key new_id now : Bytes) (j : Bytes) (db : Db)
      {t t' : Task} {db' : Db}
      → find_task j db ≡ some t
      → CreateAccepted p content actor key new_id now db t' db'
      → find_task j db' ≡ find_task j db
  unfolding find_task
  create-keeps content actor key new_id now j db found (replayed _ _ same) = rw same refl
  create-keeps content actor key new_id now j db {t} {t'} {db'} found (applied a _ _ one) =
      let (made, left, new) =
        create_effect-eq-ok p (with_default_state content) actor new_id now db one.effect in
      let (row, e, _) = find_task-row j db found in
      ground (
        arith,
        one.added,
        left,
        lookup-insert new_id j (row_of (created p (with_default_state content) new_id now))
            db.tasks,
        str_eq_iff new_id j,
      )

  update-keeps :
      (id : Bytes) (content : TaskContent) (expected : ℕ) (actor : TaskActor) (key now : Bytes)
      (j : Bytes) (db : Db) {t' : Task} {db' : Db}
      → IsConsistent db
      → str_eq id j ≡ false
      → UpdateAccepted p id content expected actor key now db t' db'
      → find_task j db' ≡ find_task j db
  update-keeps id content expected actor key now j db good miss (replayed _ _ same) = rw same refl
  update-keeps id content expected actor key now j db good miss (applied a _ _ one) =
      let read : find_task j one.after ≡ find_task j db =
        update_effect_read p id content expected actor now db good one.effect j ∙ rw miss refl in
      unfold find_task in rw (one.added) read

  Step-keeps :
      (j : Bytes) (rev : ℕ) {db db' : Db} {t : Task}
      → IsConsistent db
      → find_task j db ≡ some t
      → is_empty (find_hold j rev db).id ≡ false
      → fence_of j db' ≡ fence_of j db
      → Step p db db'
      → find_task j db' ≡ find_task j db
  Step-keeps j rev {db} good found active stands (by_create content actor key new_id now t h) =
      create-keeps content actor key new_id now j db found
        (create_task-Accepted p content actor key new_id now db h)
  Step-keeps j rev {db} good found active stands (by_update id content expected actor key now t h) =
      let (unheld, _) = update_task_held p id content expected actor key now db h in
      let miss : str_eq id j ≡ false =
        ground (arith, str_eq_iff id j, active-find_hold j rev db active) in
      update-keeps id content expected actor key now j db good miss
        (update_task-Accepted p id content expected actor key now db h)
  Step-keeps j rev {db} good found active stands (by_triage id patch expected actor key now t h) =
      let (unheld, _) = triage_task_held p id patch expected actor key now db h in
      let miss : str_eq id j ≡ false =
        ground (arith, str_eq_iff id j, active-find_hold j rev db active) in
      triage_keeps p id patch expected actor key now j db good miss
        (triage_task-Accepted p id patch expected actor key now db h)
  Step-keeps j rev {db} {db'} good found active stands
        (by_create_epic content actor key new_id now e h) =
      IsApart-find_task j db db' (create_epic-IsApart p content actor key new_id now db h)
  Step-keeps j rev {db} {db'} good found active stands
        (by_update_epic id content expected actor key now e h) =
      IsApart-find_task j db db' (update_epic-IsApart p id content expected actor key now db h)
  Step-keeps j rev {db} {db'} good found active stands
        (by_comment task body actor key new_id now c h) =
      IsApart-find_task j db db' (add_task_comment-IsApart p task body actor key new_id now db h)
  Step-keeps j rev {db} {db'} good found active stands
        (by_comment_unheld task body actor key new_id now c h) =
      IsApart-find_task j db db'
        (add_task_comment_unheld-IsApart p task body actor key new_id now db h)
  Step-keeps j rev {db} {db'} good found active stands (by_apply c i op coord new_id now out h) =
      elim (apply-cases p c i op coord new_id now db h) [
        | inl (same, _) ↦ rw same refl
        | inr f ↦
            other_task j i.task_id db db' stands
              (apply_task_reservation-KeepsTables p c i op coord new_id now db good h)
              (Advances-fence j i.task_id i.expected_revision db out.reservation db'
                (apply-Advances p c i op coord new_id now db f))
      ]
  Step-keeps j rev {db} {db'} good found active stands
        (by_recover i e actor op key authorize now out h) =
      elim (recover-cases p i e actor op key authorize now db h) [
        | inl (same, _) ↦ rw same refl
        | inr f ↦
            other_task j i.task_id db db' stands
              (recover_task_reservation-KeepsTables p i e actor op key authorize now db good h)
              (Advances-fence j i.task_id i.expected_revision db out.reservation db'
                (recover-Advances p i e actor op key authorize now db f))
      ]

  -- From a state with well-formed task tables where the task exists and has a hold, and through
  -- any sequence of accepted operations after which the task's fence is what it was, the task and
  -- its hold read as before.
  pub hold_protects :
      (j : Bytes) (rev : ℕ) {db db' : Db} {t : Task}
      → IsConsistent db
      → find_task j db ≡ some t
      → is_empty (find_hold j rev db).id ≡ false
      → Reaches p db db'
      → fence_of j db' ≡ fence_of j db
      → (find_task j db' ≡ some t) × (find_hold j rev db' ≡ find_hold j rev db)
  hold_protects j rev good found active here stands = (found, refl)
  hold_protects j rev {db} {db'} good found active (then_step {mid = mid} s rest) stands =
      let up : fence_of j db ≤ fence_of j mid = HoldStep-fence j db mid (Step-HoldStep p j s) in
      let on : fence_of j mid ≤ fence_of j db' = Reaches-fence p j rest in
      let still : fence_of j mid ≡ fence_of j db = omega arith in
      let held : find_hold j rev mid ≡ find_hold j rev db =
        HoldStep-still j rev db mid (Step-HoldStep p j s) still in
      let (task, hold) =
        hold_protects j rev (Step-IsConsistent p s good)
          (Step-keeps j rev good found active still s ∙ found)
          (ap (λ h. is_empty h.id) held ∙ active) rest (stands ∙ sym still) in
      (task, hold ∙ held)
