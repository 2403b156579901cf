-- ===== src/Ledger/Tables.antt =====
-- The task tables under the ledger's transitions (internal/store/task_reservations.go,
-- task_reservation_recovery.go): they stay well-formed, and only the named task changes.
use aimem.Prelude.{
  ◌≡◌, refl, ap, ◌∙◌, false, inl, inr, Option, some, Bytes, str_eq, lookup-insert, arith,
}
use aimem.Task.{Task, TaskActor, TaskContent}
use aimem.Task.Content.{Platform}
use aimem.Error.{Error, ok}
use aimem.Db.{Db}
use aimem.Tasks.{find_task, row_of}
use aimem.Tasks.Writes.{stored}
use aimem.Tasks.Consistent.{IsConsistent, IsRow, after, written-IsConsistent}
use aimem.Tasks.Effects.{find_task-row}
use aimem.Reservation.{
  Operation, release, TaskReservation, ReservationInput, Coordination, RecoveryEvidence, Outcome,
}
use aimem.Ledger.{find_hold}
use aimem.Ledger.Apply.{Caller, apply_task_reservation}
use aimem.Ledger.Recover.{recover_task_reservation}
use aimem.Ledger.Hold.{Wrote}
use aimem.Ledger.Moves.{Change, claimed, transferred, wrote, kept, Transition}
use aimem.Ledger.Fence.{apply-cases}
use aimem.Ledger.Recovered.{Recovery}
use aimem.Ledger.Closes.{recover-cases}

-- Well-formedness reads three tables.
same-IsConsistent :
    (db db' : Db)
    → db'.tasks ≡ db.tasks
    → db'.history ≡ db.history
    → db'.state_changes ≡ db.state_changes
    → IsConsistent db
    → IsConsistent db'
same-IsConsistent db db' tasks history changes good = record {
  rows = rw tasks (rw history good.rows);
  complete = rw tasks (rw history good.complete);
  bounded = rw tasks (rw history good.bounded);
  feed_bounded = rw tasks (rw changes good.feed_bounded);
}

-- What a transition keeps of the task tables.
pub record KeepsTables (id : Bytes) (db db' : Db) : Type 0 where
  pub good : IsConsistent db'
  pub others : (j : Bytes) → str_eq id j ≡ false → find_task j db' ≡ find_task j db

unmoved : (id : Bytes) (db db' : Db) → IsConsistent db → db' ≡ db → KeepsTables id db db'
unmoved id db db' good same = rw same (record { good = good; others = λ j miss. refl })

Wrote-KeepsTables :
    (id : Bytes) (op : Operation) (actor : TaskActor) (content : Option TaskContent) (now : Bytes)
    (t : Task) (r : TaskReservation) (db : Db) {t' : Task} {r' : TaskReservation} {mid : Db}
    → IsConsistent db
    → find_task id db ≡ some t
    → Wrote op actor content now t r db t' r' mid
    → KeepsTables id db mid
unfolding find_task
Wrote-KeepsTables id op actor content now t r db {t'} {r'} {mid} good found w =
    let (row, e, same) = find_task-row id db found in
    let old : IsRow db.history id row = good.rows id row e in
    let own : t'.id ≡ id = ground (arith, old.own_id, w.task) in
    record {
      good = rw (w.tables) (
          written-IsConsistent (stored t') actor _ false db good
            (after row (rw own e) (ground (arith, w.task))) refl);
      others = λ j miss.
          ground (arith, w.tables, own, lookup-insert t'.id j (row_of (stored t')) db.tasks);
    }

-- The ledger's rows are no task tables.
carried :
    (id : Bytes) (db mid db' : Db)
    → db'.tasks ≡ mid.tasks
    → db'.history ≡ mid.history
    → db'.state_changes ≡ mid.state_changes
    → db'.managed ≡ mid.managed
    → db'.attempts ≡ mid.attempts
    → KeepsTables id db mid
    → KeepsTables id db db'
unfolding find_task
carried id db mid db' tasks history changes managed attempts k = record {
  good = same-IsConsistent mid db' tasks history changes k.good;
  others = λ j miss. rw tasks (rw managed (rw attempts (k.others j miss)));
}

module _ (p : Platform) (c : Caller) (i : ReservationInput) (op : Operation)
    (coord : Option Coordination) (new_id now : Bytes) where
  Change-KeepsTables :
      (t : Task) (r : TaskReservation) (db : Db) {t' : Task} {r' : TaskReservation} {mid : Db}
      → IsConsistent db
      → find_task i.task_id db ≡ some t
      → Change p c i coord new_id now op t r db t' r' mid
      → KeepsTables i.task_id db mid
  Change-KeepsTables t r db {t'} {r'} {mid} good found (claimed _ _ _ _ same) =
      unmoved i.task_id db mid good same
  Change-KeepsTables t r db {t'} {r'} {mid} good found (transferred _ _ _ _ same) =
      unmoved i.task_id db mid good same
  Change-KeepsTables t r db good found (wrote _ _ w) =
      Wrote-KeepsTables i.task_id op c.actor i.content now t r db good found w
  Change-KeepsTables t r db {t'} {r'} {mid} good found (kept _ _ _ _ same) =
      unmoved i.task_id db mid good same

  -- An accepted ApplyTaskReservation keeps the task tables well-formed and every other task as it was.
  pub apply_task_reservation-KeepsTables :
      (db : Db) {out : Outcome} {db' : Db}
      → IsConsistent db
      → apply_task_reservation p c i op coord new_id now db ≡ ok (out, db')
      → KeepsTables i.task_id db db'
  apply_task_reservation-KeepsTables db {out} {db'} good h =
      elim (apply-cases p c i op coord new_id now db h) [
        | inl (same, again) ↦ unmoved i.task_id db db' good same
        | inr f ↦
            let t : Transition p c i coord new_id now op db f.made f.mid = f.transition in
            carried i.task_id db t.mid db'
              (ap (λ d. d.tasks) f.added ∙ ap (λ d. d.tasks) t.ends.tables)
              (ap (λ d. d.history) f.added ∙ ap (λ d. d.history) t.ends.tables)
              (ap (λ d. d.state_changes) f.added ∙ ap (λ d. d.state_changes) t.ends.tables)
              (ap (λ d. d.managed) f.added ∙ ap (λ d. d.managed) t.ends.tables)
              (ap (λ d. d.attempts) f.added ∙ ap (λ d. d.attempts) t.ends.tables)
              (Change-KeepsTables t.old (find_hold i.task_id t.old.revision db) db good t.found
                t.change)
      ]

module _ (p : Platform) (i : ReservationInput) (e : RecoveryEvidence) (actor : TaskActor)
    (op : Operation) (key : Bytes) (authorize : Option Error) (now : Bytes) where
  -- An accepted RecoverTaskReservation keeps the task tables well-formed and every other task as it
  -- was.
  pub recover_task_reservation-KeepsTables :
      (db : Db) {out : Outcome} {db' : Db}
      → IsConsistent db
      → recover_task_reservation p i e actor op key authorize now db ≡ ok (out, db')
      → KeepsTables i.task_id db db'
  recover_task_reservation-KeepsTables db {out} {db'} good h =
      elim (recover-cases p i e actor op key authorize now db h) [
        | inl (same, again) ↦ unmoved i.task_id db db' good same
        | inr f ↦
            let t : Recovery p i e actor op now db f.made f.mid = f.recovery in
            carried i.task_id db t.mid db'
              (ap (λ d. d.tasks) f.added ∙ ap (λ d. d.tasks) t.ends.tables)
              (ap (λ d. d.history) f.added ∙ ap (λ d. d.history) t.ends.tables)
              (ap (λ d. d.state_changes) f.added ∙ ap (λ d. d.state_changes) t.ends.tables)
              (ap (λ d. d.managed) f.added ∙ ap (λ d. d.managed) t.ends.tables)
              (ap (λ d. d.attempts) f.added ∙ ap (λ d. d.attempts) t.ends.tables)
              (Wrote-KeepsTables i.task_id release actor i.content now t.old
                (find_hold i.task_id t.old.revision db) db good t.found t.wrote)
      ]
