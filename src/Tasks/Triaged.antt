-- ===== src/Tasks/Triaged.antt =====
-- What an accepted TriageTask did (internal/store/task_triage.go): only the patch's fields of an open
-- task, between BACKLOG and READY.
use aimem.Prelude.{ℕ, ◌≡◌, false, not, ◌&&◌, some, Bytes, is_some}
use aimem.Task.{Task, TaskActor}
use aimem.Task.Content.{Platform}
use aimem.Error.{archived}
use aimem.Db.{Db}
use aimem.Tasks.{find_task, next_revision}
use aimem.Tasks.Effects.{Rewrites}
use aimem.Tasks.Triage.{TaskTriage, triage_state, patched}

module _ (p : Platform) (id : Bytes) (patch : TaskTriage) (expected : ℕ) (actor : TaskActor)
    (now : Bytes) where
  -- What the transaction found, and the tables that it left.
  record Triaged (db : Db) (t : Task) (db' : Db) : Type 0 where
    old : Task
    found : find_task id db ≡ some old
    current : old.revision ≡ expected
    open_task : old.content.archived ≡ false
    source : (is_some patch.state && not (triage_state old.content.state)) ≡ false
    result : t ≡ next_revision old (patched patch old.content) now
    left : Rewrites p id (patched patch old.content) expected actor now db t db'
