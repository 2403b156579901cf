-- ===== src/Ledger/Fence.antt =====
-- The fence of a hold, and what a reader finds after a transition (DB.ApplyTaskReservation of
-- internal/store/task_reservations.go).
use aimem.Prelude.{
  ℕ, ◌+◌, ◌≡◌, refl, sym, ap, ◌∙◌, Bool, true, false, ◌&&◌, ◌⊎◌, Option, none, some, Bytes, str_eq,
  str_eq_iff, if◌then◌else◌, lookup, lookup-insert, arith, Bool-cases, Option-cases, inl, inr,
}
use mathlib.Core.Path.{subst}
use aimem.Task.{Task}
use aimem.Task.Content.{Platform}
use aimem.Error.{ok}
use aimem.Db.{Db}
use aimem.Reservation.{
  Operation, Worker, is_empty, TaskReservation, ReservationInput, Coordination, Outcome,
}
use aimem.Tasks.{find_task}
use aimem.Ledger.{intended_columns, read_worker, hold_of, find_hold, advanced, reservation_row}
use aimem.Ledger.Apply.{Caller, apply_effect, apply_task_reservation}
use aimem.Ledger.Receipts.{Accepted, served, ran, mutation-Accepted}
use aimem.Ledger.Retry.{apply-checked}
use aimem.Ledger.Moves.{Keeps, Advanced, Change, Transition, apply_effect-Transition, Change-Keeps}

-- A hold as it reads back: an intended worker whose names are both empty is no worker.
abbrev pub names_nobody : Option Worker → Bool
names_nobody none = true
names_nobody (some w) = is_empty w.user_id && is_empty w.agent_id

abbrev pub read_back : TaskReservation → TaskReservation
read_back r = record r {
  intended_worker = if names_nobody r.intended_worker then none else r.intended_worker;
}

-- What an advanced hold means for readers.
pub record Advances (task : Bytes) (rev : ℕ) (db : Db) (after : TaskReservation) (db' : Db)
    : Type 0 where
  pub next_fence : after.fence ≡ (find_hold task rev db).fence + 1
  pub own_task : after.task_id ≡ task
  pub reads :
      (j : Bytes) (rev' : ℕ)
      → find_hold j rev' db' ≡ (
          if str_eq task j
          then record (read_back after) { task_revision = rev' }
          else find_hold j rev' db)

find_hold-task : (task : Bytes) (rev : ℕ) (db : Db) → (find_hold task rev db).task_id ≡ task
unfolding find_hold
find_hold-task task rev db = elim (Option-cases (lookup task db.reservations)) [
  | inl e ↦ ground arith
  | inr (row, e) ↦ ground arith
]

read_worker-columns :
    (o : Option Worker)
    → read_worker (intended_columns o).user_id (intended_columns o).agent_id
      ≡ (if names_nobody o then none else o)
unfolding is_empty
read_worker-columns none = refl
read_worker-columns (some w) = refl

-- The row of a hold reads back as the hold.
hold_of-row :
    (r : TaskReservation) (j : Bytes) (rev : ℕ)
    → r.task_id ≡ j
    → hold_of j rev (some (reservation_row r)) ≡ record (read_back r) { task_revision = rev }
hold_of-row r j rev e = rw (sym e) (rw (read_worker-columns r.intended_worker) refl)

pub Advanced-Advances :
    (task : Bytes) (rev : ℕ) (db mid : Db) (t : Task) (r : TaskReservation) {out : Outcome}
    {db' : Db}
    → Keeps (find_hold task rev db) db r mid
    → Advanced t r mid out db'
    → Advances task rev db out.reservation db'
unfolding find_hold
Advanced-Advances task rev db mid t r {out} {db'} k a = record {
  next_fence = ap (λ o. o.fence) a.reservation ∙ ap (λ n. n + 1) k.same_fence;
  own_task = ap (λ o. o.task_id) a.reservation ∙ own;
  reads = reads;
}
  where
    own : r.task_id ≡ task
    own = k.same_task ∙ find_hold-task task rev db

    rows :
        (j : Bytes)
        → lookup j db'.reservations ≡ (
            if str_eq task j then some (reservation_row (advanced r)) else lookup j db.reservations)
    rows j = ground (
      arith,
      a.tables,
      k.reservations,
      own,
      lookup-insert r.task_id j (reservation_row (advanced r)) mid.reservations,
    )

    reads :
        (j : Bytes) (rev' : ℕ)
        → find_hold j rev' db' ≡ (
            if str_eq task j
            then record (read_back out.reservation) { task_revision = rev' }
            else find_hold j rev' db)
    reads j rev' = elim (Bool-cases (str_eq task j)) [
      | inl hit ↦ rw hit (
          rw (rows j) (
            rw hit (
              hold_of-row (advanced r) j rev' (own ∙ (str_eq_iff task j).0 hit)
              ∙ ap {A = TaskReservation} {B = TaskReservation}
                  (λ h. record (read_back h) { task_revision = rev' }) (sym a.reservation))))
      | inr miss ↦ rw miss (rw (rows j) (rw miss refl))
    ]

module _ (p : Platform) (c : Caller) (i : ReservationInput) (op : Operation)
    (coord : Option Coordination) (new_id now : Bytes) where
  -- A transition that was made now, not replayed.
  pub record Fresh (db : Db) (out : Outcome) (db' : Db) : Type 0 where
    pub made : Outcome
    pub mid : Db
    pub transition : Transition p c i coord new_id now op db made mid
    pub enabled : db.tasks_enabled ≡ true
    pub result : out ≡ record made { binding = c.binding }
    pub added : db' ≡ record mid { reservation_requests = db'.reservation_requests }

  -- An accepted transition is a replay, which changes nothing, or was made now.
  pub apply-cases :
      (db : Db) {out : Outcome} {db' : Db}
      → apply_task_reservation p c i op coord new_id now db ≡ ok (out, db')
      → ((db' ≡ db) × (out.replayed ≡ true)) ⊎ Fresh db out db'
  apply-cases db {out} {db'} h =
      go
        (mutation-Accepted p op c i none now (apply_effect p c i op coord new_id now) db
          (apply-checked p op c i coord new_id now db h).3).1
    where
      go :
          Accepted p op c i none now (apply_effect p c i op coord new_id now) db out db'
          → ((db' ≡ db) × (out.replayed ≡ true)) ⊎ Fresh db out db'
      go (served a r principal found s) = inl (s.unchanged, ap (λ o. o.replayed) s.result)
      go (ran a principal missing one) = inr (record {
        made = one.made;
        mid = one.mid;
        transition = apply_effect-Transition p c i coord new_id now op db one.effect;
        enabled = one.enabled;
        result = one.result;
        added = ground (arith, one.added);
      })

  pub apply-Fresh :
      (db : Db) {out : Outcome} {db' : Db}
      → apply_task_reservation p c i op coord new_id now db ≡ ok (out, db')
      → out.replayed ≡ false
      → Fresh db out db'
  apply-Fresh db h first = elim (apply-cases db h) [ inl (same, again) ↦ cc | inr f ↦ f ]

  -- The same, as equations on what it left.
  pub record Made (db : Db) (out : Outcome) (db' : Db) : Type 0 where
    pub old : Task
    pub found : find_task i.task_id db ≡ some old
    pub current : old.revision ≡ i.expected_revision
    pub task : Task
    pub hold : TaskReservation
    pub mid : Db
    pub change :
        Change p c i coord new_id now op old
          (find_hold i.task_id i.expected_revision db)
          db
          task
          hold
          mid
    pub new_task : out.task ≡ task
    pub new_hold : out.reservation ≡ advanced hold
    pub tasks : db'.tasks ≡ mid.tasks
    pub history : db'.history ≡ mid.history
    pub state_changes : db'.state_changes ≡ mid.state_changes
    pub managed : db'.managed ≡ mid.managed

  pub apply-Made :
      (db : Db) {out : Outcome} {db' : Db}
      → apply_task_reservation p c i op coord new_id now db ≡ ok (out, db')
      → out.replayed ≡ false
      → Made db out db'
  apply-Made db {out} {db'} h first =
      let f : Fresh db out db' = apply-Fresh db h first in
      let t : Transition p c i coord new_id now op db f.made f.mid = f.transition in
      record {
        old = t.old;
        found = t.found;
        current = t.current;
        task = t.task;
        hold = t.hold;
        mid = t.mid;
        change =
            subst
              (λ v.
                Change p c i coord new_id now op t.old (find_hold i.task_id v db) db t.task t.hold
                  t.mid)
              t.current t.change;
        new_task = ap (λ o. o.task) f.result ∙ t.ends.task;
        new_hold = ap (λ o. o.reservation) f.result ∙ t.ends.reservation;
        tasks = ap (λ d. d.tasks) f.added ∙ ap (λ d. d.tasks) t.ends.tables;
        history = ap (λ d. d.history) f.added ∙ ap (λ d. d.history) t.ends.tables;
        state_changes = ap (λ d. d.state_changes) f.added ∙ ap (λ d. d.state_changes) t.ends.tables;
        managed = ap (λ d. d.managed) f.added ∙ ap (λ d. d.managed) t.ends.tables;
      }

  pub apply-Advances :
      (db : Db) {out : Outcome} {db' : Db}
      → Fresh db out db'
      → Advances i.task_id i.expected_revision db out.reservation db'
  unfolding find_hold
  apply-Advances db {out} {db'} f =
      let t : Transition p c i coord new_id now op db f.made f.mid = f.transition in
      let a : Advances i.task_id t.old.revision db f.made.reservation f.mid =
        Advanced-Advances i.task_id t.old.revision db t.mid t.task t.hold
          (Change-Keeps p c i coord new_id now op t.old (find_hold i.task_id t.old.revision db) db
            t.change)
          t.ends in
      let same : out.reservation ≡ f.made.reservation = ap (λ o. o.reservation) f.result in
      record {
        next_fence =
            ap (λ r. r.fence) same
            ∙ a.next_fence
            ∙ ap (λ v. (find_hold i.task_id v db).fence + 1) t.current;
        own_task = ap (λ r. r.task_id) same ∙ a.own_task;
        reads = λ j rev'. rw (f.added) (rw same (a.reads j rev'));
      }

  -- A transition that was made now (not replayed) took the fence after the hold's. Reading the
  -- task's hold back gives the outcome's, but that an intended worker whose two names are empty
  -- reads as none; the hold of every other task is as before.
  pub apply_task_reservation_read :
      (db : Db) {out : Outcome} {db' : Db}
      → apply_task_reservation p c i op coord new_id now db ≡ ok (out, db')
      → out.replayed ≡ false
      → (out.reservation.fence ≡ (find_hold i.task_id i.expected_revision db).fence + 1)
        × ((j : Bytes) (rev : ℕ)
            → find_hold j rev db' ≡ (
                if str_eq i.task_id j
                then record (read_back out.reservation) { task_revision = rev }
                else find_hold j rev db))
  apply_task_reservation_read db h first =
      let a = apply-Advances db (apply-Fresh db h first) in (a.next_fence, a.reads)
