-- ===== src/Tasks.antt =====
-- The task store's operations (internal/store/tasks.go, task_triage.go, task_state_changes.go and
-- checkEpicAssignable of epics.go). `new_id` and `now` are what uuidv7.New and nowUTC answer.
pub mod Writes
pub mod Consistent
pub mod Effects
pub mod Accepted
pub mod Cas
pub mod Triage
pub mod Triaged
use aimem.Prelude.{
  ℕ, zero, suc, ◌+◌, ◌≡◌, refl, Bool, true, false, not, ◌&&◌, ◌||◌, ◌++◌, List, [], ◌∷◌, Option,
  none, some, Bytes, bytes, str_eq, ltb, ◌==◌, if◌then◌else◌, lookup, insert, any, is_some,
}
use aimem.Text.{TextError, task_text, full_task_id}
use aimem.Json.{Value, Fields, str, num, arr, obj, end, field, texts}
use aimem.Reason.{
  Reason, bad_text, expected_revision, epic_missing, epic_retired, triage_empty, triage_target,
  triage_source,
}
use aimem.Task.{
  Task, TaskActor, TaskChange, TaskComment, TaskContent, TaskCoordination, assignee_column,
  max_task_comment_bytes,
}
use aimem.Task.State
use aimem.Task.Content.{Platform, validate_content, content_json, refuse_if, ◌then_check◌}
use aimem.Epic.{Epic, retired_state}
use aimem.Error.{
  Error, Result, ok, err, invalid, task_conflict, not_found, archived, managed_task, constraint,
  no_rows,
}
use aimem.Db.{
  TaskRow, HistoryRow, StateChange, EpicRow, Attempt, Db, Tx, ◌>>=◌, ◌>>◌, pure, fail, gets,
  refuse_when, check_input, from_option, is_managed, reject_active_reservation,
}
use aimem.Mutation.{Codec, task_codec, comment_codec, checked_task_mutation, task_mutation, replays}

abbrev attempt_coordination : Bytes → Option Attempt → TaskCoordination
attempt_coordination team none = record { team_id = team; attempt_id = []; state = [] }
attempt_coordination team (some a) = record { team_id = team; attempt_id = a.id; state = a.state }

-- The joined team columns: none where the task is unmanaged.
abbrev coordination_of : Option Bytes → Option Attempt → Option TaskCoordination
coordination_of none a = none
coordination_of (some []) a = none
coordination_of (some (c ∷ team)) a = some (attempt_coordination (c ∷ team) a)

-- scanCurrentTask: the snapshot with the joined columns.
abbrev pub scan_task : Option TaskRow → Option Bytes → Option Attempt → Option Task
scan_task none team a = none
scan_task (some row) team a = some (record row.body { coordination = coordination_of team a })

-- taskReadQuery, of one task.
unfoldable pub find_task : Bytes → Db → Option Task
find_task id db = scan_task (lookup id db.tasks) (lookup id db.managed) (lookup id db.attempts)

-- readTask.
unfoldable pub read_task : Bytes → Tx Task
read_task id db = from_option (find_task id db) not_found db

-- GetTask.
unfoldable pub get_task : Bytes → Db → Result Task
get_task id db =
    if full_task_id id
    then elim (find_task id db) [ none ↦ err not_found | some t ↦ ok t ]
    else err not_found

-- A revision's history row.
unfoldable pub find_history : Bytes → ℕ → List HistoryRow → Option HistoryRow
find_history id rev [] = none
find_history id rev (r ∷ rs) =
    if str_eq r.task_id id && r.revision == rev then some r else find_history id rev rs

unfoldable pub has_change : Bytes → ℕ → List StateChange → Bool
has_change id rev = any (λ r. str_eq r.task_id id && r.revision == rev)

-- recordStateChange: no entry where an update keeps the state.
unfoldable pub record_state_change : Task → Bytes → Bool → Tx (Unit {0})
record_state_change t from create db =
    if not create && str_eq from t.content.state
    then ok (tt, db)
    else if has_change t.id t.revision db.state_changes
    then err constraint
    else ok (
      tt,
      record db {
        state_changes =
            record {
              task_id = t.id;
              revision = t.revision;
              from = from;
              to = t.content.state;
              at = t.updated_at;
            }
            ∷ db.state_changes;
      },
    )

-- The row of a snapshot.
abbrev pub row_of : Task → TaskRow
row_of t = record {
  state = t.content.state;
  archived = t.content.archived;
  assignee = assignee_column t.content.assignee;
  epic = t.content.epic;
  body = t;
}

-- INSERT INTO tasks, or SELECT state and UPDATE: the previous state.
unfoldable pub put_row : Task → Bool → Tx Bytes
put_row t true db =
    if is_some (lookup t.id db.tasks)
    then err constraint
    else ok ([], record db { tasks = insert t.id (row_of t) db.tasks })
put_row t false db = elim (lookup t.id db.tasks) [
  | none ↦ err no_rows
  | some row ↦ ok (row.state, record db { tasks = insert t.id (row_of t) db.tasks })
]

unfoldable pub add_history : Task → TaskActor → Tx (Unit {0})
add_history t actor db =
    if is_some (find_history t.id t.revision db.history)
    then err constraint
    else ok (
      tt,
      record db {
        history =
            record {
              task_id = t.id;
              revision = t.revision;
              body = record { task = t; actor = actor };
            }
            ∷ db.history;
      },
    )

-- writeTask: the current projection is never persisted.
unfoldable pub write_task : Task → TaskActor → Bool → Tx (Unit {0})
unfolding put_row add_history record_state_change
write_task t actor create = do
  let stored : Task = record t { coordination = none }
  from ← put_row stored create
  add_history stored actor
  record_state_change stored from create

-- saveTask.
unfoldable pub save_task : Task → TaskActor → Bool → Tx (Unit {0})
unfolding reject_active_reservation
save_task t actor true = write_task t actor true
save_task t actor false = do reject_active_reservation t.id; write_task t actor false

-- checkEpicAssignable.
unfoldable pub check_epic_assignable : Bytes → Bytes → Tx (Unit {0})
check_epic_assignable epic previous db =
    if str_eq epic [] then ok (tt, db) else elim (lookup epic db.epics) [
      | none ↦ err (invalid epic_missing)
      | some e ↦
          refuse_when (str_eq e.body.content.state retired_state && not (str_eq epic previous))
            (invalid epic_retired) db
    ]

-- The empty state defaults to BACKLOG on create.
unfoldable pub with_default_state : TaskContent → TaskContent
with_default_state c = if str_eq c.state [] then record c { state = State.backlog } else c

unfoldable pub update_json : TaskContent → ℕ → Value
update_json c expected =
    obj (field (bytes "content") (content_json c) (field (bytes "expected") (num expected) end))

-- The guard of an ordinary write: neither managed by a team nor under an active reservation.
unfoldable pub check_unheld : Bytes → Tx (Unit {0})
unfolding reject_active_reservation
check_unheld id = do
  managed ← gets (is_managed id)
  refuse_when managed managed_task
  reject_active_reservation id

abbrev pub check_revision : Task → ℕ → Tx (Unit {0})
check_revision t expected = refuse_when (not (t.revision == expected)) (task_conflict t)

abbrev pub next_revision : Task → TaskContent → Bytes → Task
next_revision t c now = record t { content = c; revision = t.revision + 1; updated_at = now }

module _ (p : Platform) where
  -- The transaction of CreateTask.
  unfoldable pub create_effect : TaskContent → TaskActor → Bytes → Bytes → Tx Task
  unfolding check_epic_assignable save_task
  create_effect content actor new_id now = do
    check_epic_assignable content.epic []
    let t : Task = record {
      id = new_id;
      revision = 1;
      coordination = none;
      content = content;
      created_at = now;
      updated_at = now;
    }
    save_task t actor true
    pure t

  -- CreateTask.
  unfoldable pub create_task : TaskContent → TaskActor → Bytes → Bytes → Bytes → Tx Task
  create_task content actor key new_id now = do
    let c = with_default_state content
    check_input (validate_content p c)
    task_mutation p actor (bytes "create") [] key (content_json c)
        (create_effect c actor new_id now)

  -- The transaction of UpdateTask.
  unfoldable pub update_effect : Bytes → TaskContent → ℕ → TaskActor → Bytes → Tx Task
  unfolding read_task check_epic_assignable save_task
  update_effect id content expected actor now = do
    t ← read_task id
    check_revision t expected
    check_epic_assignable content.epic t.content.epic
    save_task (next_revision t content now) actor false
    pure (next_revision t content now)

  -- UpdateTask.
  unfoldable pub update_task : Bytes → TaskContent → ℕ → TaskActor → Bytes → Bytes → Tx Task
  update_task id content expected actor key now = do
    refuse_when (not (full_task_id id)) not_found
    refuse_when (ltb expected 1) (invalid expected_revision)
    check_input (validate_content p content)
    checked_task_mutation p actor (bytes "update") id key (update_json content expected)
        (check_unheld id) (update_effect id content expected actor now)

  -- CreateReplays, UpdateReplays.
  unfoldable pub create_replays : TaskContent → TaskActor → Bytes → Db → Bool
  create_replays content actor key =
      replays p actor key (bytes "create") [] (content_json (with_default_state content))

  unfoldable pub update_replays : Bytes → TaskContent → ℕ → TaskActor → Bytes → Db → Bool
  update_replays id content expected actor key =
      replays p actor key (bytes "update") id (update_json content expected)
