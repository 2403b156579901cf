-- ===== src/Epics.antt =====
-- The operations on epics (internal/store/epics.go) and on task comments (addTaskComment of
-- internal/store/tasks.go): mutations with a receipt that leave the tasks and the ledger alone.
pub mod Apart
use aimem.Prelude.{
  ℕ, zero, suc, ◌+◌, Bool, true, false, not, ◌&&◌, ◌||◌, List, [], ◌∷◌, Option, none, some, Bytes,
  bytes, str_eq, ltb, ◌==◌, if◌then◌else◌, lookup, insert, any, is_some,
}
use aimem.Text.{TextError, task_text, full_task_id}
use aimem.Json.{Value, str, num, obj, end, field}
use aimem.Reason.{Reason, bad_text, expected_revision}
use aimem.Task.{TaskActor, TaskComment, max_task_comment_bytes}
use aimem.Task.Content.{Platform, named}
use aimem.Epic.{Epic, EpicContent, EpicChange, with_default_state, validate_epic, epic_json}
use aimem.Error.{
  Error, Result, ok, err, invalid, not_found, archived, constraint, epic_not_found, epic_conflict,
}
use aimem.Db.{
  Db, EpicRow, EpicHistoryRow, Tx, ◌>>=◌, ◌>>◌, pure, gets, refuse_when, check_input, from_option,
  task_scope_ok, reject_active_reservation,
}
use aimem.Mutation.{checked_task_mutation, task_mutation, epic_codec, comment_codec}
use aimem.Tasks.{read_task}

-- The row of an epic.
abbrev pub epic_row : Epic → EpicRow
epic_row e = record { state = e.content.state; body = e }

-- INSERT INTO epics, or UPDATE, which changes no row that is not there.
unfoldable pub put_epic : Epic → Bool → Tx (Unit {0})
put_epic e true db =
    if is_some (lookup e.id db.epics)
    then err constraint
    else ok (tt, record db { epics = insert e.id (epic_row e) db.epics })
put_epic e false db =
    if is_some (lookup e.id db.epics)
    then ok (tt, record db { epics = insert e.id (epic_row e) db.epics })
    else ok (tt, db)

abbrev is_epic_revision : Epic → EpicHistoryRow → Bool
is_epic_revision e row = str_eq row.epic_id e.id && (row.revision == e.revision)

unfoldable pub add_epic_history : Epic → TaskActor → Tx (Unit {0})
add_epic_history e actor db =
    if any (is_epic_revision e) db.epic_history
    then err constraint
    else ok (
      tt,
      record db {
        epic_history =
            record {
              epic_id = e.id;
              revision = e.revision;
              body = record { epic = e; actor = actor };
            }
            ∷ db.epic_history;
      },
    )

-- saveEpic.
unfoldable pub save_epic : Epic → TaskActor → Bool → Tx (Unit {0})
unfolding put_epic add_epic_history
save_epic e actor create = do put_epic e create; add_epic_history e actor

abbrev epic_of : Option EpicRow → Option Epic
epic_of none = none
epic_of (some row) = some row.body

-- readEpic.
unfoldable pub read_epic : Bytes → Tx Epic
read_epic id db = from_option (epic_of (lookup id db.epics)) epic_not_found db

-- GetEpic.
unfoldable pub get_epic : Bytes → Tx Epic
unfolding read_epic
get_epic id = do refuse_when (not (full_task_id id)) epic_not_found; task_scope_ok; read_epic id

abbrev pub next_epic : Epic → EpicContent → Bytes → Epic
next_epic e c now = record e { content = c; revision = e.revision + 1; updated_at = now }

unfoldable pub epic_update_json : EpicContent → ℕ → Value
epic_update_json c expected =
    obj (field (bytes "content") (epic_json c) (field (bytes "expected") (num expected) end))

-- LastInsertId of an AUTOINCREMENT column whose rows are never deleted, the newest row first.
abbrev pub next_sequence : List TaskComment → ℕ
next_sequence [] = 1
next_sequence (c ∷ cs) = c.sequence + 1

unfoldable pub insert_comment : TaskComment → Tx (Unit {0})
insert_comment c db =
    if any (λ d. str_eq d.id c.id) db.comments
    then err constraint
    else ok (tt, record db { comments = c ∷ db.comments })

module _ (p : Platform) where
  -- The transaction of CreateEpic.
  unfoldable pub create_epic_effect : EpicContent → TaskActor → Bytes → Bytes → Tx Epic
  unfolding save_epic
  create_epic_effect content actor new_id now = do
    let e : Epic = record {
      id = new_id;
      revision = 1;
      content = content;
      created_at = now;
      updated_at = now;
    }
    save_epic e actor true
    pure e

  -- CreateEpic.
  unfoldable pub create_epic : EpicContent → TaskActor → Bytes → Bytes → Bytes → Tx Epic
  create_epic content actor key new_id now = do
    let c = with_default_state content
    check_input (validate_epic p c)
    task_mutation p actor (bytes "epic-create") [] key (epic_json c)
        (create_epic_effect c actor new_id now)

  -- The transaction of UpdateEpic.
  unfoldable pub update_epic_effect : Bytes → EpicContent → ℕ → TaskActor → Bytes → Tx Epic
  unfolding read_epic save_epic
  update_epic_effect id content expected actor now = do
    e ← read_epic id
    refuse_when (not (e.revision == expected)) (epic_conflict e)
    save_epic (next_epic e content now) actor false
    pure (next_epic e content now)

  -- UpdateEpic.
  unfoldable pub update_epic : Bytes → EpicContent → ℕ → TaskActor → Bytes → Bytes → Tx Epic
  update_epic id content expected actor key now = do
    refuse_when (not (full_task_id id)) epic_not_found
    refuse_when (ltb expected 1) (invalid expected_revision)
    let c = with_default_state content
    check_input (validate_epic p c)
    task_mutation p actor (bytes "epic-update") id key (epic_update_json c expected)
        (update_epic_effect id c expected actor now)

  -- The transaction of addTaskComment.
  unfoldable pub comment_effect : Bytes → Bytes → TaskActor → Bytes → Bytes → Tx TaskComment
  unfolding read_task insert_comment
  comment_effect task body actor new_id now = do
    t ← read_task task
    refuse_when t.content.archived archived
    sequence ← gets (λ db. next_sequence db.comments)
    let c : TaskComment = record {
      id = new_id;
      task_id = task;
      sequence = sequence;
      body = body;
      actor = actor;
      created_at = now;
    }
    insert_comment c
    pure c

  -- addTaskComment, with its check.
  unfoldable pub add_comment :
      Bytes → Bytes → TaskActor → Bytes → Bytes → Bytes → Tx (Unit {0}) → Tx TaskComment
  add_comment task body actor key new_id now check = do
    refuse_when (not (full_task_id task)) not_found
    check_input (named (bytes "comment") (task_text p.refuses body max_task_comment_bytes true))
    checked_task_mutation p actor (bytes "comment") task key (str body) check
        (comment_effect task body actor new_id now)

  -- AddTaskComment and AddTaskCommentUnheld.
  unfoldable pub add_task_comment :
      Bytes → Bytes → TaskActor → Bytes → Bytes → Bytes → Tx TaskComment
  unfolding add_comment
  add_task_comment task body actor key new_id now =
      add_comment task body actor key new_id now (pure tt)

  unfoldable pub add_task_comment_unheld :
      Bytes → Bytes → TaskActor → Bytes → Bytes → Bytes → Tx TaskComment
  unfolding add_comment reject_active_reservation
  add_task_comment_unheld task body actor key new_id now =
      add_comment task body actor key new_id now (reject_active_reservation task)

-- GetTaskComment.
unfoldable pub find_comment : Bytes → Bytes → List TaskComment → Option TaskComment
find_comment task id [] = none
find_comment task id (c ∷ cs) =
    if str_eq c.task_id task && str_eq c.id id then some c else find_comment task id cs

unfoldable pub get_task_comment : Bytes → Bytes → Tx TaskComment
unfolding find_comment
get_task_comment task id db =
    if not (full_task_id task) || not (full_task_id id)
    then err not_found
    else from_option (find_comment task id db.comments) not_found db
