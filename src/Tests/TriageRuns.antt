-- ===== src/Tests/TriageRuns.antt =====
-- A triage of the project's task, back to BACKLOG with a next action.
use aimem.Prelude.{some, [], bytes}
use aimem.Task.{Task}
use aimem.Task.State
use aimem.Error.{Result}
use aimem.Db.{Db}
use aimem.Tasks.Triage.{TaskTriage, triage_task}
use aimem.Tests.Project.{platform, member, task_id, now, task_at, db1, value_of}

abbrev patch : TaskTriage
patch = record { state = some State.backlog; next_action = some (bytes "ask") }

abbrev triage_run : Result (Task × Db)
triage_run = triage_task platform task_id patch 1 member (bytes "k4") now db1

abbrev triage_out : Task
triage_out = value_of (task_at [] 0) triage_run
