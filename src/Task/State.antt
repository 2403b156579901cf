-- ===== src/Task/State.antt =====
-- The names of the seven task states (TaskStates of internal/store/tasks.go).
use aimem.Prelude.{Bytes, bytes}

abbrev pub backlog : Bytes
backlog = bytes "BACKLOG"

abbrev pub ready : Bytes
ready = bytes "READY"

abbrev pub in_progress : Bytes
in_progress = bytes "IN_PROGRESS"

abbrev pub review : Bytes
review = bytes "REVIEW"

abbrev pub blocked : Bytes
blocked = bytes "BLOCKED"

abbrev pub done : Bytes
done = bytes "DONE"

abbrev pub cancelled : Bytes
cancelled = bytes "CANCELLED"
