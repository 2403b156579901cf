-- ===== src/Tasks/Accepted.antt =====
-- CreateTask and UpdateTask (internal/store/tasks.go) as mutations with a receipt: what an accepted
-- call did, and what a retry of it does.
use aimem.Prelude.{ℕ, ◌≡◌, true, false, not, none, [], Bytes, bytes, ltb, arith}
use aimem.Reason.{expected_revision}
use aimem.Text.{full_task_id}
use aimem.Task.{Task, TaskActor, TaskContent}
use aimem.Task.Content.{Platform, validate_content, content_json}
use aimem.Error.{ok, invalid, not_found}
use aimem.Db.{Db, is_managed, has_active_reservation, pure, refuse_when-then, check_input-then}
use aimem.Mutation.{checked_task_mutation, task_mutation, task_codec}
use aimem.Mutation.Fresh.{OnlyReads, Accepted, replayed, applied, checked-Accepted}
use aimem.Tasks.{
  with_default_state, update_json, check_unheld, create_effect, create_task, update_effect,
  update_task,
}
use aimem.Tasks.Effects.{create_effect-eq-ok, update_effect-eq-ok}

check_unheld-then :
    (id : Bytes) (db : Db) {u : Unit {0}} {mid : Db}
    → check_unheld id db ≡ ok (u, mid)
    → (mid ≡ db) × (is_managed id db ≡ false) × (has_active_reservation id db ≡ false)
unfolding check_unheld
check_unheld-then id db h = ground arith

pub check_unheld-OnlyReads : (id : Bytes) → OnlyReads (check_unheld id)
check_unheld-OnlyReads id db u mid h = (check_unheld-then id db h).0

pub pass-OnlyReads : OnlyReads (pure tt)
pass-OnlyReads db u mid h = ground arith

-- The project and the tables that guard a write stay as they are.
pub record SameGuards (db db' : Db) : Type 0 where
  pub project : db'.project_id ≡ db.project_id
  pub managed : db'.managed ≡ db.managed
  pub reservations : db'.reservations ≡ db.reservations

module _ (p : Platform) where
  -- What the two operations check before their mutation.
  pub create_task-checked :
      (content : TaskContent) (actor : TaskActor) (key new_id now : Bytes) (db : Db) {t : Task}
      {db' : Db}
      → create_task p content actor key new_id now db ≡ ok (t, db')
      → (validate_content p (with_default_state content) ≡ none)
        × (checked_task_mutation p actor
              (bytes "create")
              []
              key
              (content_json (with_default_state content))
              (pure tt)
              (create_effect p (with_default_state content) actor new_id now)
              db
            ≡ ok (t, db'))
  unfolding create_task task_mutation
  create_task-checked content actor key new_id now db h =
      check_input-then _ db (validate_content p (with_default_state content)) h

  pub update_task-checked :
      (id : Bytes) (content : TaskContent) (expected : ℕ) (actor : TaskActor) (key now : Bytes)
      (db : Db) {t : Task} {db' : Db}
      → update_task p id content expected actor key now db ≡ ok (t, db')
      → (full_task_id id ≡ true)
        × (ltb expected 1 ≡ false)
        × (validate_content p content ≡ none)
        × (checked_task_mutation p actor
              (bytes "update")
              id
              key
              (update_json content expected)
              (check_unheld id)
              (update_effect p id content expected actor now)
              db
            ≡ ok (t, db'))
  unfolding update_task
  update_task-checked id content expected actor key now db h =
      let (named, h₁) = refuse_when-then _ db (not (full_task_id id)) not_found h in
      let (positive, h₂) = refuse_when-then _ db (ltb expected 1) (invalid expected_revision) h₁ in
      let (valid, h₃) = check_input-then _ db (validate_content p content) h₂ in
      (ground arith, positive, valid, h₃)

  abbrev pub CreateAccepted :
      TaskContent → TaskActor → Bytes → Bytes → Bytes → Db → Task → Db → Type 0
  CreateAccepted content actor key new_id now db t db' =
      Accepted p actor (bytes "create") [] key (content_json (with_default_state content)) (pure tt)
        (create_effect p (with_default_state content) actor new_id now) db t db'

  abbrev pub UpdateAccepted :
      Bytes → TaskContent → ℕ → TaskActor → Bytes → Bytes → Db → Task → Db → Type 0
  UpdateAccepted id content expected actor key now db t db' =
      Accepted p actor (bytes "update") id key (update_json content expected) (check_unheld id)
        (update_effect p id content expected actor now) db t db'

  pub create_task-Accepted :
      (content : TaskContent) (actor : TaskActor) (key new_id now : Bytes) (db : Db) {t : Task}
      {db' : Db}
      → create_task p content actor key new_id now db ≡ ok (t, db')
      → CreateAccepted content actor key new_id now db t db'
  create_task-Accepted content actor key new_id now db h =
      checked-Accepted p actor (bytes "create") [] key (content_json (with_default_state content))
        (pure tt) (create_effect p (with_default_state content) actor new_id now) db pass-OnlyReads
        (create_task-checked content actor key new_id now db h).1

  pub update_task-Accepted :
      (id : Bytes) (content : TaskContent) (expected : ℕ) (actor : TaskActor) (key now : Bytes)
      (db : Db) {t : Task} {db' : Db}
      → update_task p id content expected actor key now db ≡ ok (t, db')
      → UpdateAccepted id content expected actor key now db t db'
  update_task-Accepted id content expected actor key now db h =
      checked-Accepted p actor (bytes "update") id key (update_json content expected)
        (check_unheld id) (update_effect p id content expected actor now) db
        (check_unheld-OnlyReads id) (update_task-checked id content expected actor key now db h).3

  pub create_SameGuards :
      (content : TaskContent) (actor : TaskActor) (key new_id now : Bytes) (db : Db) {t : Task}
      {db' : Db}
      → CreateAccepted content actor key new_id now db t db'
      → SameGuards db db'
  create_SameGuards content actor key new_id now db (replayed _ _ same) = ground arith
  create_SameGuards content actor key new_id now db (applied a _ _ one) =
      ground
        (arith, create_effect-eq-ok p (with_default_state content) actor new_id now db one.effect)

  pub update_SameGuards :
      (id : Bytes) (content : TaskContent) (expected : ℕ) (actor : TaskActor) (key now : Bytes)
      (db : Db) {t : Task} {db' : Db}
      → UpdateAccepted id content expected actor key now db t db'
      → SameGuards db db'
  update_SameGuards id content expected actor key now db (replayed _ _ same) = ground arith
  update_SameGuards id content expected actor key now db (applied a _ _ one) =
      ground (arith, update_effect-eq-ok p id content expected actor now db one.effect)
