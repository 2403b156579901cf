-- ===== src/Tasks/Cas.antt =====
-- What callers of UpdateTask (internal/store/tasks.go) rely on: compare-and-swap revisions and the
-- reservation guard; and that CreateTask and UpdateTask keep the tables well-formed.
use aimem.Prelude.{
  ℕ, ◌+◌, ◌≡◌, ◌≢◌, false, some, Bytes, bytes, arith, str_eq, str_eq_refl, if◌then◌else◌,
}
use aimem.Task.{Task, TaskActor, TaskContent}
use aimem.Task.Content.{Platform}
use aimem.Error.{ok}
use aimem.Db.{Db, is_managed, has_active_reservation}
use aimem.Mutation.{task_codec}
use aimem.Mutation.Fresh.{Accepted-checked, replayed, applied}
use aimem.Tasks.{
  with_default_state, update_json, check_unheld, find_task, create_task, update_effect, update_task,
  update_replays,
}
use aimem.Tasks.Effects.{
  update_effect-eq-ok, create_effect-IsConsistent, update_effect-IsConsistent, update_effect_read,
}
use aimem.Tasks.Accepted.{
  create_task-Accepted, update_task-Accepted, CreateAccepted, UpdateAccepted,
}
use aimem.Tasks.Consistent.{IsConsistent, IsConsistent-requests}

module _ (p : Platform) where
  -- An accepted UpdateTask, replays included, found the task without an active reservation and not
  -- managed by a team.
  pub update_task_held :
      (id : Bytes) (content : TaskContent) (expected : ℕ) (actor : TaskActor) (key now : Bytes)
      (db : Db) {t : Task} {db' : Db}
      → update_task p id content expected actor key now db ≡ ok (t, db')
      → (has_active_reservation id db ≡ false) × (is_managed id db ≡ false)
  unfolding check_unheld
  update_task_held id content expected actor key now db {t} {db'} h =
      let unheld : check_unheld id db ≡ ok (tt, db) =
        Accepted-checked p actor (bytes "update") id key (update_json content expected)
          (check_unheld id) (update_effect p id content expected actor now) db
          (update_task-Accepted p id content expected actor key now db h) in
      (ground arith, ground arith)

  -- An accepted CreateTask leaves the task tables well-formed, where they were before.
  pub create_task-IsConsistent :
      (content : TaskContent) (actor : TaskActor) (key new_id now : Bytes) (db : Db) {t : Task}
      {db' : Db}
      → IsConsistent db
      → create_task p content actor key new_id now db ≡ ok (t, db')
      → IsConsistent db'
  create_task-IsConsistent content actor key new_id now db {t} {db'} good h =
      keep (create_task-Accepted p content actor key new_id now db h)
    where
      keep : CreateAccepted p content actor key new_id now db t db' → IsConsistent db'
      keep (replayed _ _ same) = rw same good
      keep (applied a _ _ one) = rw (one.added) (
          IsConsistent-requests one.after _ (
            create_effect-IsConsistent p (with_default_state content) actor new_id now db good
              one.effect))

  -- An accepted UpdateTask leaves the task tables well-formed, where they were before.
  pub update_task-IsConsistent :
      (id : Bytes) (content : TaskContent) (expected : ℕ) (actor : TaskActor) (key now : Bytes)
      (db : Db) {t : Task} {db' : Db}
      → IsConsistent db
      → update_task p id content expected actor key now db ≡ ok (t, db')
      → IsConsistent db'
  update_task-IsConsistent id content expected actor key now db {t} {db'} good h =
      keep (update_task-Accepted p id content expected actor key now db h)
    where
      keep : UpdateAccepted p id content expected actor key now db t db' → IsConsistent db'
      keep (replayed _ _ same) = rw same good
      keep (applied a _ _ one) = rw (one.added) (
          IsConsistent-requests one.after _
            (update_effect-IsConsistent p id content expected actor now db good one.effect))

  -- Where the task tables are well-formed, a new UpdateTask (no receipt of it is stored) that
  -- succeeds moved the task from the expected revision to the next one; reading it back gives the
  -- result, and every other task reads as before.
  pub update_task_read :
      (id : Bytes) (content : TaskContent) (expected : ℕ) (actor : TaskActor) (key now : Bytes)
      (db : Db) {t : Task} {db' : Db}
      → IsConsistent db
      → update_replays p id content expected actor key db ≡ false
      → update_task p id content expected actor key now db ≡ ok (t, db')
      → (t.revision ≡ expected + 1)
        × (t.content ≡ content)
        × ((j : Bytes) → find_task j db' ≡ (if str_eq id j then some t else find_task j db))
  unfolding update_replays
  update_task_read id content expected actor key now db {t} {db'} good new h =
      go (update_task-Accepted p id content expected actor key now db h)
    where
      go :
          UpdateAccepted p id content expected actor key now db t db'
          → (t.revision ≡ expected + 1)
            × (t.content ≡ content)
            × ((j : Bytes) → find_task j db' ≡ (if str_eq id j then some t else find_task j db))
      go (replayed old _ _) = cc
      go (applied a _ _ one) =
          let (old, found, current, result, left) =
            update_effect-eq-ok p id content expected actor now db one.effect in
          (
            ground arith,
            ground arith,
            λ j.
                unfold find_task in
                rw (one.added)
                  (update_effect_read p id content expected actor now db good one.effect j),
          )

  -- No lost update: where the task tables are well-formed, after a new UpdateTask from a revision
  -- succeeded, another new one from the same revision does not.
  pub no_lost_update :
      (id : Bytes) (content content' : TaskContent) (expected : ℕ) (actor actor' : TaskActor)
      (key key' now now' : Bytes) (db : Db) {t : Task} {db' : Db}
      → IsConsistent db
      → update_replays p id content expected actor key db ≡ false
      → update_task p id content expected actor key now db ≡ ok (t, db')
      → update_replays p id content' expected actor' key' db' ≡ false
      → {t' : Task} {db'' : Db}
      → update_task p id content' expected actor' key' now' db' ≢ ok (t', db'')
  unfolding update_replays
  no_lost_update id content content' expected actor actor' key key' now now' db {t} {db'} good new h
        new' {t'} {db''} h' =
      go (update_task-Accepted p id content' expected actor' key' now' db' h')
    where
      go : UpdateAccepted p id content' expected actor' key' now' db' t' db'' → ⊥
      go (replayed old _ _) = cc
      go (applied a _ _ one) =
          let (old, found, current, result, left) =
            update_effect-eq-ok p id content' expected actor' now' db' one.effect in
          let (next, _, reads) = update_task_read id content expected actor key now db good new h in
          ground (arith, reads id, str_eq_refl id)
