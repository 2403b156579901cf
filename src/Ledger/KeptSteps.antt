-- ===== src/Ledger/KeptSteps.antt =====
-- No accepted operation drops a receipt (internal/store/tasks.go, task_triage.go, epics.go,
-- task_reservations.go and task_reservation_recovery.go).
use aimem.Prelude.{ℕ, ◌≡◌, refl, ap, ◌∙◌, none, some, [], Bytes, bytes}
use aimem.Task.{Task, TaskActor, TaskContent}
use aimem.Task.Content.{Platform, content_json}
use aimem.Error.{ok}
use aimem.Db.{Db, pure}
use aimem.Mutation.{task_codec}
use aimem.Tasks.{
  with_default_state, update_json, check_unheld, create_effect, create_task, update_effect,
  update_task,
}
use aimem.Tasks.Effects.{create_effect-eq-ok, update_effect-eq-ok}
use aimem.Tasks.Triage.{triage_json, triage_effect, triage_effect-eq-ok, triage_task-Accepted}
use aimem.Tasks.Accepted.{create_task-Accepted, update_task-Accepted}
use aimem.Epics.Apart.{
  create_epic-IsApart, update_epic-IsApart, add_task_comment-IsApart,
  add_task_comment_unheld-IsApart,
}
use aimem.Reservation.Input.{evidence_json}
use aimem.Ledger.Apply.{apply_effect}
use aimem.Ledger.Recover.{recovery_caller, recover_effect}
use aimem.Ledger.Moves.{Transition, apply_effect-Transition, Change-Keeps}
use aimem.Ledger.Recovered.{Recovery, recover_effect-Recovery}
use aimem.Ledger.Receipts.{mutation-Accepted}
use aimem.Ledger.Retry.{apply-checked}
use aimem.Ledger.Closes.{recover-checked}
use aimem.Ledger.Kept.{Kept, same-Kept, unchanged-Kept, Kept-trans, mutation-Kept, transition-Kept}
use aimem.Ledger.Steps.{
  Step, by_create, by_update, by_triage, by_create_epic, by_update_epic, by_comment,
  by_comment_unheld, by_apply, by_recover, Reaches, here, then_step,
}

module _ (p : Platform) where
  pub create-Kept :
      (content : TaskContent) (actor : TaskActor) (key new_id now : Bytes) (db : Db) {t : Task}
      {db' : Db}
      → create_task p content actor key new_id now db ≡ ok (t, db')
      → Kept db db'
  create-Kept content actor key new_id now db h =
      mutation-Kept p actor (bytes "create") [] key (content_json (with_default_state content))
        (pure tt) (create_effect p (with_default_state content) actor new_id now) db
        (λ mid x.
          let left = (create_effect-eq-ok p (with_default_state content) actor new_id now db x).1 in
          same-Kept db mid (ap (λ d. d.project_id) left) (ap (λ d. d.requests) left)
            (ap (λ d. d.reservation_requests) left))
        (create_task-Accepted p content actor key new_id now db h)

  pub update-Kept :
      (id : Bytes) (content : TaskContent) (expected : ℕ) (actor : TaskActor) (key now : Bytes)
      (db : Db) {t : Task} {db' : Db}
      → update_task p id content expected actor key now db ≡ ok (t, db')
      → Kept db db'
  update-Kept id content expected actor key now db h =
      mutation-Kept p actor (bytes "update") id key (update_json content expected) (check_unheld id)
        (update_effect p id content expected actor now) db
        (λ mid x.
          let left = (update_effect-eq-ok p id content expected actor now db x).4 in
          same-Kept db mid (ap (λ d. d.project_id) left) (ap (λ d. d.requests) left)
            (ap (λ d. d.reservation_requests) left))
        (update_task-Accepted p id content expected actor key now db h)

  -- No accepted operation drops a receipt.
  Step-Kept : {db db' : Db} → Step p db db' → Kept db db'
  Step-Kept {db} {db'} (by_create content actor key new_id now t h) =
      create-Kept content actor key new_id now db h
  Step-Kept {db} {db'} (by_update id content expected actor key now t h) =
      update-Kept id content expected actor key now db h
  Step-Kept {db} {db'} (by_triage id patch expected actor key now t h) =
      mutation-Kept p actor (bytes "triage") id key (triage_json patch expected) (check_unheld id)
        (triage_effect p id patch expected actor now) db
        (λ mid x.
          let left = (triage_effect-eq-ok p id patch expected actor now db x).1.4 in
          same-Kept db mid (ap (λ d. d.project_id) left) (ap (λ d. d.requests) left)
            (ap (λ d. d.reservation_requests) left))
        (triage_task-Accepted p id patch expected actor key now db h)
  Step-Kept {db} {db'} (by_create_epic content actor key new_id now e h) =
      (create_epic-IsApart p content actor key new_id now db h).kept
  Step-Kept {db} {db'} (by_update_epic id content expected actor key now e h) =
      (update_epic-IsApart p id content expected actor key now db h).kept
  Step-Kept {db} {db'} (by_comment task body actor key new_id now c h) =
      (add_task_comment-IsApart p task body actor key new_id now db h).kept
  Step-Kept {db} {db'} (by_comment_unheld task body actor key new_id now c h) =
      (add_task_comment_unheld-IsApart p task body actor key new_id now db h).kept
  Step-Kept {db} {db'} (by_apply c i op coord new_id now out h) =
      transition-Kept p op c i none now (apply_effect p c i op coord new_id now) db
        (λ made mid x.
          let t : Transition p c i coord new_id now op db made mid =
            apply_effect-Transition p c i coord new_id now op db x in
          let g = Change-Keeps p c i coord new_id now op _ _ db t.change in
          (
            ap (λ d. d.project_id) t.ends.tables ∙ g.project,
            ap (λ d. d.requests) t.ends.tables ∙ g.task_requests,
            ap (λ d. d.reservation_requests) t.ends.tables ∙ g.requests,
          ))
        (mutation-Accepted p op c i none now (apply_effect p c i op coord new_id now) db
          (apply-checked p op c i coord new_id now db h).3).1
  Step-Kept {db} {db'} (by_recover i e actor op key authorize now out h) =
      transition-Kept p op (recovery_caller p i e actor key authorize) i (some (evidence_json e))
        now (recover_effect p i e actor op now) db
        (λ made mid x.
          let t : Recovery p i e actor op now db made mid =
            recover_effect-Recovery p i e actor op now db x in
          (
            ap (λ d. d.project_id) t.ends.tables ∙ ap (λ d. d.project_id) t.wrote.tables,
            ap (λ d. d.requests) t.ends.tables ∙ ap (λ d. d.requests) t.wrote.tables,
            ap (λ d. d.reservation_requests) t.ends.tables
                ∙ ap (λ d. d.reservation_requests) t.wrote.tables,
          ))
        (mutation-Accepted p op (recovery_caller p i e actor key authorize) i
          (some (evidence_json e)) now (recover_effect p i e actor op now) db
          (recover-checked p i e actor op key authorize now db h).2).1

  pub Reaches-Kept : {db db' : Db} → Reaches p db db' → Kept db db'
  Reaches-Kept {db} {db'} here = unchanged-Kept db db refl
  Reaches-Kept (then_step s rest) = Kept-trans (Step-Kept s) (Reaches-Kept rest)
