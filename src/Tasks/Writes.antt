-- ===== src/Tasks/Writes.antt =====
-- What writeTask and saveTask (internal/store/tasks.go) leave in the tables, and that they change
-- no other table.
use aimem.Prelude.{
  ◌≡◌, Bool, true, false, not, ◌&&◌, List, [], ◌∷◌, Option, none, some, Bytes, str_eq,
  if◌then◌else◌, lookup, insert, is_some, arith,
}
use aimem.Task.{Task, TaskActor}
use aimem.Error.{ok, task_reserved}
use aimem.Db.{
  TaskRow, HistoryRow, StateChange, Db, has_active_reservation, reject_active_reservation,
  bind_result-eq-ok, refuse_when-then,
}
use aimem.Tasks.{
  find_history, record_state_change, row_of, put_row, add_history, write_task, save_task,
}

abbrev pub history_row : Task → TaskActor → HistoryRow
history_row t actor = record {
  task_id = t.id;
  revision = t.revision;
  body = record { task = t; actor = actor };
}

abbrev pub state_change : Task → Bytes → StateChange
state_change t from = record {
  task_id = t.id;
  revision = t.revision;
  from = from;
  to = t.content.state;
  at = t.updated_at;
}

abbrev pub stored : Task → Task
stored t = record t { coordination = none }

-- The feed after a write: an entry for a creation and for a change of state.
abbrev pub changes_after : Task → Bytes → Bool → List StateChange → List StateChange
changes_after t from create cs =
    if not create && str_eq from t.content.state then cs else state_change t from ∷ cs

-- The tables after a write.
abbrev pub written : Task → TaskActor → Bytes → Bool → Db → Db
written t actor from create db = record db {
  tasks = insert t.id (row_of t) db.tasks;
  history = history_row t actor ∷ db.history;
  state_changes = changes_after t from create db.state_changes;
}

abbrev pub previous_state : Bool → Option TaskRow → Bytes
previous_state true row = []
previous_state false none = []
previous_state false (some row) = row.state

put_row-eq-ok :
    (t : Task) (create : Bool) (db : Db) {from : Bytes} {db' : Db}
    → put_row t create db ≡ ok (from, db')
    → (from ≡ previous_state create (lookup t.id db.tasks))
      × (db' ≡ record db { tasks = insert t.id (row_of t) db.tasks })
      × (is_some (lookup t.id db.tasks) ≡ not create)
unfolding put_row
put_row-eq-ok t true db h = ground arith
put_row-eq-ok t false db h = ground arith

add_history-eq-ok :
    (t : Task) (actor : TaskActor) (db : Db) {u : Unit {0}} {db' : Db}
    → add_history t actor db ≡ ok (u, db')
    → (db' ≡ record db { history = history_row t actor ∷ db.history })
      × (is_some (find_history t.id t.revision db.history) ≡ false)
unfolding add_history
add_history-eq-ok t actor db h = ground arith

record_state_change-eq-ok :
    (t : Task) (from : Bytes) (create : Bool) (db : Db) {u : Unit {0}} {db' : Db}
    → record_state_change t from create db ≡ ok (u, db')
    → db' ≡ record db { state_changes = changes_after t from create db.state_changes }
unfolding record_state_change
record_state_change-eq-ok t from create db h = ground arith

-- A write that succeeds leaves exactly `written`, and its revision was new.
pub write_task-eq-ok :
    (t : Task) (actor : TaskActor) (create : Bool) (db : Db) {u : Unit {0}} {db' : Db}
    → write_task t actor create db ≡ ok (u, db')
    → (db' ≡ written (stored t) actor (previous_state create (lookup t.id db.tasks)) create db)
      × (is_some (find_history t.id t.revision db.history) ≡ false)
      × (is_some (lookup t.id db.tasks) ≡ not create)
unfolding write_task
write_task-eq-ok t actor create db h =
    let (from, db₁, h₁, k₁) = bind_result-eq-ok (put_row (stored t) create db) _ h in
    let (_, db₂, h₂, k₂) = bind_result-eq-ok (add_history (stored t) actor db₁) _ k₁ in
    ground (
      arith,
      put_row-eq-ok (stored t) create db h₁,
      add_history-eq-ok (stored t) actor db₁ h₂,
      record_state_change-eq-ok (stored t) from create db₂ k₂,
    )

-- An update is refused under an active reservation.
pub save_task-eq-ok :
    (t : Task) (actor : TaskActor) (create : Bool) (db : Db) {u : Unit {0}} {db' : Db}
    → save_task t actor create db ≡ ok (u, db')
    → (db' ≡ written (stored t) actor (previous_state create (lookup t.id db.tasks)) create db)
      × (is_some (find_history t.id t.revision db.history) ≡ false)
      × (is_some (lookup t.id db.tasks) ≡ not create)
      × (create ≡ false → has_active_reservation t.id db ≡ false)
unfolding save_task reject_active_reservation
save_task-eq-ok t actor true db h =
    let (a, b, c) = write_task-eq-ok t actor true db h in (a, b, c, λ e. cc)
save_task-eq-ok t actor false db h =
    let (unheld, k) = refuse_when-then _ db (has_active_reservation t.id db) task_reserved h in
    let (a, b, c) = write_task-eq-ok t actor false db k in (a, b, c, λ _. unheld)
