-- ===== src/Error.antt =====
-- The errors of the task store and ledger, and results that carry them. `refused` is what a
-- caller's authorize function answers; `constraint` is a violated primary key or UNIQUE index;
-- `no_rows` is
-- sql.ErrNoRows where the source passes it on; `decode` is a stored value of another type.
use aimem.Prelude.{Bytes}
use aimem.Reason.{Reason}
use aimem.Task.{Task}
use aimem.Epic.{Epic}

pub data Error : Type 0 where
  invalid : Reason → Error
  task_conflict : Task → Error
  epic_conflict : Epic → Error
  refused : Bytes → Error
  not_found archived retry_conflict reserved_scope bad_actor epic_not_found managed_task : Error
  task_reserved reservation_conflict reservation_stale fence_exhausted task_not_ready : Error
  reservation_holder coordination_mismatch process_mismatch evidence_mismatch : Error
  dependency_unresolved tasks_disabled recovery_evidence constraint no_rows no_closure decode :
      Error

pub data Result {ℓ} (A : Type ℓ) : Type ℓ where
  ok : A → Result A
  err : Error → Result A
