-- ===== src/Tests/CreatedRuns.antt =====
-- The lookup after a creation, at the creation of the project's task.
use aimem.Prelude.{◌≡◌, refl, ap, false, true, List, [], ◌∷◌, some, bytes, str_eq_refl, lookup}
use aimem.Text.{full_task_id}
use aimem.Task.State
use aimem.Error.{ok}
use aimem.Mutation.{replays, find_receipt}
use aimem.Tasks.{create_replays}
use aimem.Locate.{Projects, TaskHints, lives_in, locate_task, put, tables_of}
use aimem.Locate.Created.{hinted, create_hinted, locate_task-create}
use aimem.Tests.Project.{platform, member, task_id, now, content_in, empty_db, db1, create_out}
use aimem.Tests.Runs.{create_runs}

abbrev no_hints : TaskHints
no_hints = record { loc = []; miss = [] }

abbrev one_project : Projects
one_project = (db1.project_id, some db1) ∷ []

abbrev one_hint : TaskHints
one_hint = put create_out.id db1.project_id no_hints

create_new : create_replays platform (content_in State.ready) member (bytes "k1") empty_db ≡ false
unfolding create_replays replays find_receipt aimem.Task.actor_key aimem.Text.task_text
    aimem.Text.Utf8.runes aimem.Text.Utf8.is_control aimem.Text.Utf8.is_space aimem.Prelude.str_eq
    full_task_id
create_new = refl

task_id-full : full_task_id task_id ≡ true
unfolding full_task_id aimem.Text.in_class aimem.Text.matches
task_id-full = refl

create_leaves :
    create_hinted platform
      (content_in State.ready)
      member
      (bytes "k1")
      task_id
      now
      empty_db
      no_hints
    ≡ (ok create_out, db1, one_hint)
unfolding create_hinted
create_leaves = ap (hinted empty_db no_hints) create_runs

project_open : tables_of db1.project_id one_project ≡ some db1
unfolding lookup
project_open = rw (str_eq_refl db1.project_id) refl

locate_task-create_example :
    locate_task one_project [] create_out.id 9 one_hint ≡ (lives_in db1.project_id, one_hint)
locate_task-create_example =
    locate_task-create platform (content_in State.ready) member (bytes "k1") task_id now empty_db
      no_hints create_out db1 one_hint one_project [] 9 create_new task_id-full create_leaves
      project_open
