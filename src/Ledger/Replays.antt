-- ===== src/Ledger/Replays.antt =====
-- Retries long after the first call: whatever accepted operations ran in between, CreateTask,
-- UpdateTask (internal/store/tasks.go) and DB.ApplyTaskReservation
-- (internal/store/task_reservations.go) find the first receipt.
use aimem.Prelude.{
  ℕ, ◌≡◌, ◌≢◌, refl, ◌∙◌, false, none, [], Bytes, bytes, ltb, arith, if◌then◌else◌, Bool-cases, inl,
  inr,
}
use aimem.Json.{receipt_digest}
use aimem.Task.{Task, TaskActor, TaskContent}
use aimem.Task.Content.{Platform, validate_content, content_json}
use aimem.Error.{Error, Result, ok, err, managed_task, task_reserved, retry_conflict}
use aimem.Db.{Db, is_managed, has_active_reservation, pure}
use aimem.Mutation.{task_mutation, task_codec}
use aimem.Mutation.Replay.{checked_retry, checked_refused, checked_reuse}
use aimem.Tasks.{
  with_default_state, update_json, check_unheld, create_effect, create_task, update_effect,
  update_task,
}
use aimem.Tasks.Accepted.{create_task-checked, update_task-checked}
use aimem.Ledger.Kept.{Kept}
use aimem.Ledger.KeptSteps.{create-Kept, update-Kept, Reaches-Kept}
use aimem.Ledger.Steps.{Reaches}

check_unheld_result :
    (id : Bytes) (db : Db)
    → check_unheld id db ≡ (
        if is_managed id db
        then err managed_task
        else if has_active_reservation id db
        then err task_reserved
        else ok (tt, db))
unfolding check_unheld
check_unheld_result id db = ground arith

-- The answer of an update that is sent again: the guards of the task's present state come first.
abbrev pub after_guards : Bytes → Db → Result (Task × Db) → Result (Task × Db)
after_guards id db answer =
    if is_managed id db
    then err managed_task
    else if has_active_reservation id db
    then err task_reserved
    else answer

-- What a run behind the guard answers, from what it does where the guard fails and where it passes.
guard-cases :
    (id : Bytes) (db : Db) (r answer : Result (Task × Db))
    → ((e : Error) → check_unheld id db ≡ err e → r ≡ err e)
    → (check_unheld id db ≡ ok (tt, db) → r ≡ answer)
    → r ≡ after_guards id db answer
guard-cases id db r answer refused passed =
    let guard = check_unheld_result id db in
    elim (Bool-cases (is_managed id db)) [
      | inl managed ↦ rw managed (refused managed_task (guard ∙ rw managed refl))
      | inr free ↦ elim (Bool-cases (has_active_reservation id db)) [
        | inl held ↦ rw free (rw held (refused task_reserved (guard ∙ rw free (rw held refl))))
        | inr unheld ↦ rw free (rw unheld (passed (guard ∙ rw free (rw unheld refl))))
      ]
    ]

module _ (p : Platform) where
  -- An accepted CreateTask, sent again after any sequence of accepted operations, answers the task
  -- as it was first created and changes no table, whatever id and time the retry would have taken.
  pub create_task_retry :
      (content : TaskContent) (actor : TaskActor) (key new_id now new_id' now' : Bytes) (db : Db)
      {t : Task} {db₁ db₂ : Db}
      → create_task p content actor key new_id now db ≡ ok (t, db₁)
      → Reaches p db₁ db₂
      → create_task p content actor key new_id' now' db₂ ≡ ok (t, db₂)
  unfolding create_task task_mutation
  create_task_retry content actor key new_id now new_id' now' db {t} {db₁} {db₂} h between =
      let (valid, h₁) = create_task-checked p content actor key new_id now db h in
      let first : Kept db db₁ = create-Kept p content actor key new_id now db h in
      let later : Kept db₁ db₂ = Reaches-Kept p between in
      rw valid (
        checked_retry p actor (bytes "create") [] key (content_json (with_default_state content))
          (pure tt) (pure tt) (create_effect p (with_default_state content) actor new_id now)
          (create_effect p (with_default_state content) actor new_id' now') db db₂ h₁ later.requests
          (later.project ∙ first.project) refl)

  -- An accepted UpdateTask, sent again after any sequence of accepted operations: where the task
  -- has since become managed by a team or has got an active reservation it is refused for that, and
  -- else it answers the first result and changes no table, whatever the time.
  pub update_task_retry :
      (id : Bytes) (content : TaskContent) (expected : ℕ) (actor : TaskActor) (key now now' : Bytes)
      (db : Db) {t : Task} {db₁ db₂ : Db}
      → update_task p id content expected actor key now db ≡ ok (t, db₁)
      → Reaches p db₁ db₂
      → update_task p id content expected actor key now' db₂ ≡ after_guards id db₂ (ok (t, db₂))
  unfolding update_task
  update_task_retry id content expected actor key now now' db {t} {db₁} {db₂} h between =
      let (named, positive, valid, h₁) =
        update_task-checked p id content expected actor key now db h in
      let first : Kept db db₁ = update-Kept p id content expected actor key now db h in
      let later : Kept db₁ db₂ = Reaches-Kept p between in
      let same = later.project ∙ first.project in
      rw named (
        rw positive (
          rw valid (
            guard-cases id db₂ _ _
              (λ e bad.
                checked_refused p actor (bytes "update") id key (update_json content expected)
                  (update_json content expected) (check_unheld id) (check_unheld id)
                  (update_effect p id content expected actor now)
                  (update_effect p id content expected actor now') db db₂ e h₁ same bad)
              (λ good.
                checked_retry p actor (bytes "update") id key (update_json content expected)
                  (check_unheld id) (check_unheld id)
                  (update_effect p id content expected actor now)
                  (update_effect p id content expected actor now') db db₂ h₁ later.requests same
                  good))))

  -- The key of an accepted UpdateTask, sent again after any sequence of accepted operations with a
  -- valid content and revision whose digest is another: where the task has since become managed or
  -- reserved it is refused for that, and else as a conflict.
  pub update_task_reuse :
      (id : Bytes) (content content' : TaskContent) (expected expected' : ℕ) (actor : TaskActor)
      (key now now' : Bytes) (db : Db) {t : Task} {db₁ db₂ : Db}
      → update_task p id content expected actor key now db ≡ ok (t, db₁)
      → Reaches p db₁ db₂
      → ltb expected' 1 ≡ false
      → validate_content p content' ≡ none
      → receipt_digest p.hashing (update_json content expected)
        ≢ receipt_digest p.hashing (update_json content' expected')
      → update_task p id content' expected' actor key now' db₂
        ≡ after_guards id db₂ (err retry_conflict)
  unfolding update_task
  update_task_reuse id content content' expected expected' actor key now now' db {t} {db₁} {db₂} h
        between positive' valid' other =
      let (named, positive, valid, h₁) =
        update_task-checked p id content expected actor key now db h in
      let first : Kept db db₁ = update-Kept p id content expected actor key now db h in
      let later : Kept db₁ db₂ = Reaches-Kept p between in
      let same = later.project ∙ first.project in
      rw named (
        rw positive' (
          rw valid' (
            guard-cases id db₂ _ _
              (λ e bad.
                checked_refused p actor (bytes "update") id key (update_json content expected)
                  (update_json content' expected') (check_unheld id) (check_unheld id)
                  (update_effect p id content expected actor now)
                  (update_effect p id content' expected' actor now') db db₂ e h₁ same bad)
              (λ good.
                checked_reuse p actor (bytes "update") id key (update_json content expected)
                  (update_json content' expected') (check_unheld id) (check_unheld id)
                  (update_effect p id content expected actor now)
                  (update_effect p id content' expected' actor now') db db₂ h₁ later.requests same
                  good other))))
