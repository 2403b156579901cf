-- ===== src/Ledger/Recovered.antt =====
-- An accepted recovery (RecoverTaskReservation of internal/store/task_reservation_recovery.go): what
-- it found, and that it closes the hold without completing the task.
use aimem.Prelude.{◌≡◌, ap, true, false, not, ◌&&◌, ◌||◌, some, Bytes, bytes, str_eq, ◌==◌, arith}
use aimem.Task.{Task, TaskActor}
use aimem.Task.Content.{Platform}
use aimem.Error.{ok, not_found, task_conflict, reservation_stale}
use aimem.Db.{Db, bind_result-eq-ok, refuse_when-then, from_option-then}
use aimem.Tasks.{find_task, read_task}
use aimem.Reservation.{
  Operation, release, operation_name, is_empty, is_no_binding, TaskReservation, ReservationInput,
  RecoveryEvidence, Outcome,
}
use aimem.Ledger.{find_hold}
use aimem.Ledger.Apply.{write_content}
use aimem.Ledger.Recover.{check_recoverable, recovery_event, recover_effect}
use aimem.Ledger.Hold.{Wrote, write_content-eq-ok}
use aimem.Ledger.Moves.{Advanced, finish}

module _ (p : Platform) (i : ReservationInput) (e : RecoveryEvidence) (actor : TaskActor) where
  -- The hold that a recovery found is the one that its input names, and the one that the stop
  -- evidence names; a hold without a binding needs an attestation.
  pub record Recoverable (r : TaskReservation) : Type 0 where
    pub active : is_empty r.id ≡ false
    pub same_id : str_eq r.id i.id ≡ true
    pub same_fence : r.fence ≡ i.fence
    pub verified :
        (str_eq e.kind (bytes "stop_evidence") && not (str_eq r.holder.ref e.holder_ref)) ≡ false
    pub attested : (is_no_binding r.binding && not (str_eq e.kind (bytes "attestation"))) ≡ false

  Recoverable-eq-ok :
      (r : TaskReservation) (db : Db) {u : Unit {0}} {db' : Db}
      → check_recoverable p i e actor r db ≡ ok (u, db')
      → Recoverable r × (db' ≡ db)
  unfolding check_recoverable
  Recoverable-eq-ok r db h =
      let (fenced, h₁) =
        refuse_when-then _ db (is_empty r.id || not (str_eq r.id i.id) || not (r.fence == i.fence))
          reservation_stale h in
      let (verified, h₂) =
        refuse_when-then _ db
          (str_eq e.kind (bytes "stop_evidence") && not (str_eq r.holder.ref e.holder_ref))
          reservation_stale h₁ in
      (
        record {
          active = ground arith;
          same_id = ground arith;
          same_fence = ground arith;
          verified = verified;
          attested = ground arith;
        },
        ground arith,
      )

  pub record Recovery (op : Operation) (now : Bytes) (db : Db) (out : Outcome) (db' : Db)
      : Type 0 where
    pub old : Task
    pub found : find_task i.task_id db ≡ some old
    pub current : old.revision ≡ i.expected_revision
    pub recoverable : Recoverable (find_hold i.task_id old.revision db)
    pub task : Task
    pub hold : TaskReservation
    pub mid : Db
    pub wrote :
        Wrote release actor i.content now old (find_hold i.task_id old.revision db) db task hold mid
    pub ends : Advanced task hold mid out db'
    pub fresh : out.replayed ≡ false

  pub recover_effect-Recovery :
      (op : Operation) (now : Bytes) (db : Db) {out : Outcome} {db' : Db}
      → recover_effect p i e actor op now db ≡ ok (out, db')
      → Recovery op now db out db'
  unfolding recover_effect read_task
  recover_effect-Recovery op now db {out} {db'} h =
      let (old, found, k₁) = from_option-then (find_task i.task_id db) not_found _ db h in
      let (current, k₂) =
        refuse_when-then _ db (not (old.revision == i.expected_revision)) (task_conflict old) k₁ in
      let before : TaskReservation = find_hold i.task_id old.revision db in
      let (_, db₁, h₂, k₃) = bind_result-eq-ok (check_recoverable p i e actor before db) _ k₂ in
      let (recoverable, same) = Recoverable-eq-ok before db h₂ in
      let (moved, mid, h₃, k₄) =
        bind_result-eq-ok (write_content release actor i.content now old before db₁) _ k₃ in
      let (result, tables) =
        finish before moved.1 (recovery_event p i e actor op before) (operation_name op) now _ mid
          k₄ in
      record {
        old = old;
        found = found;
        current = ground arith;
        recoverable = recoverable;
        task = moved.0;
        hold = moved.1;
        mid = mid;
        wrote = write_content-eq-ok release actor i.content now old before db (rw same at h₃);
        ends = record {
          task = ap (λ o. o.task) result;
          reservation = ap (λ o. o.reservation) result;
          tables = tables;
        };
        fresh = ap (λ o. o.replayed) result;
      }
