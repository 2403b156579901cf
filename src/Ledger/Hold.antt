-- ===== src/Ledger/Hold.antt =====
-- What the parts of a ledger transition leave (DB.ApplyTaskReservation and RecoverTaskReservation of
-- internal/store): each changes only its own tables.
use aimem.Prelude.{
  ◌≡◌, refl, true, false, not, ◌||◌, List, ◌∷◌, Option, none, some, Bytes, str_eq, ◌==◌,
  if◌then◌else◌, length, insert, lookup, arith,
}
use aimem.Task.{Task, TaskActor, TaskContent}
use aimem.Task.State
use aimem.Task.Content.{Platform}
use aimem.Error.{ok, reservation_stale, dependency_unresolved, reservation_conflict, task_not_ready}
use aimem.Db.{EventRow, Db, is_managed, bind_result-eq-ok, refuse_when-then, check_error-then}
use aimem.Tasks.{check_epic_assignable, write_task, next_revision}
use aimem.Tasks.Writes.{stored, written, previous_state, write_task-eq-ok}
use aimem.Tasks.Effects.{check_epic-same}
use aimem.Reservation.{
  Operation, is_update, is_empty, TaskReservation, ReservationInput, Coordination, coordination_pin,
  coordination_intended, evidence_list, check_coordinated_holder,
}
use aimem.Ledger.{
  advanced, reservation_row, advance_reservation, record_event, track_service, check_process_pin,
  check_evidence_digest, holder_error,
}
use aimem.Ledger.Apply.{Caller, claim_hold, check_hold, cleared, write_content}

pub advance-eq-ok :
    (r : TaskReservation) (db : Db) {after : TaskReservation} {db' : Db}
    → advance_reservation r db ≡ ok (after, db')
    → (after ≡ advanced r)
      × (db' ≡ record db {
        reservations = insert r.task_id (reservation_row (advanced r)) db.reservations;
      })
unfolding advance_reservation
advance-eq-ok r db h = ground arith

-- The events and the services are tables of their own.
pub record SameHolds (db db' : Db) : Type 0 where
  pub tasks : db'.tasks ≡ db.tasks
  pub history : db'.history ≡ db.history
  pub state_changes : db'.state_changes ≡ db.state_changes
  pub reservations : db'.reservations ≡ db.reservations
  pub project : db'.project_id ≡ db.project_id
  pub managed : db'.managed ≡ db.managed
  pub attempts : db'.attempts ≡ db.attempts

pub record_event-same :
    (e : EventRow) (db : Db) {u : Unit {0}} {db' : Db}
    → record_event e db ≡ ok (u, db')
    → db' ≡ record db { events = e ∷ db.events }
unfolding record_event
record_event-same e db h = ground arith

pub track-same :
    (before after : TaskReservation) (by now : Bytes) (db : Db) {u : Unit {0}} {db' : Db}
    → track_service before after by now db ≡ ok (u, db')
    → db' ≡ record db { services = db'.services }
unfolding track_service
track-same before after by now db h = ground arith

check_process_pin-same :
    (pin : _) (db : Db) {u : Unit {0}} {db' : Db}
    → check_process_pin pin db ≡ ok (u, db')
    → db' ≡ db
unfolding check_process_pin
check_process_pin-same pin db h = ground arith

check_evidence-same :
    (p : Platform) (coord : Option Coordination) (es : List Bytes) (db : Db) {u : Unit {0}}
    {db' : Db}
    → check_evidence_digest p coord es db ≡ ok (u, db')
    → db' ≡ db
unfolding check_evidence_digest
check_evidence-same p coord es db h = ground arith

-- An accepted claim found a free, unmanaged, unarchived READY task without dependencies.
pub record Claimable (i : ReservationInput) (t : Task) (r : TaskReservation) (db : Db)
    : Type 0 where
  pub free : is_empty r.id ≡ true
  pub unmanaged : is_managed i.task_id db ≡ false
  pub current : t.content.archived ≡ false
  pub is_ready : str_eq t.content.state State.ready ≡ true
  pub independent : (length t.content.dependencies == 0) ≡ true

pub claim_hold-eq-ok :
    (p : Platform) (c : Caller) (i : ReservationInput) (coord : Option Coordination)
    (new_id : Bytes) (t : Task) (r : TaskReservation) (db : Db) {r' : TaskReservation} {db' : Db}
    → claim_hold p c i coord new_id t r db ≡ ok (r', db')
    → Claimable i t r db
      × (r' ≡ record r {
        id = new_id;
        holder = i.holder;
        binding = c.binding;
        intended_worker = coordination_intended coord;
      })
      × (db' ≡ db)
unfolding claim_hold
claim_hold-eq-ok p c i coord new_id t r db h =
    let (independent, h₁) =
      refuse_when-then _ db (not (length t.content.dependencies == 0)) dependency_unresolved h in
    let (free, h₂) =
      refuse_when-then _ db (is_managed i.task_id db || not (is_empty r.id) || t.content.archived)
        reservation_conflict h₁ in
    let (is_ready, h₃) =
      refuse_when-then _ db (not (str_eq t.content.state State.ready)) task_not_ready h₂ in
    let (_, db₁, h₄, h₅) = bind_result-eq-ok (check_process_pin (coordination_pin coord) db) _ h₃ in
    (
      record {
        free = ground arith;
        unmanaged = ground arith;
        current = ground arith;
        is_ready = ground arith;
        independent = ground arith;
      },
      ground arith,
      ground (arith, check_process_pin-same (coordination_pin coord) db h₄),
    )

-- What every other transition found on the hold: the id and the fence of the input, and a caller
-- that may make it.
pub record Holds (c : Caller) (i : ReservationInput) (coord : Option Coordination) (op : Operation)
    (r : TaskReservation) : Type 0 where
  pub active : is_empty r.id ≡ false
  pub same_id : str_eq r.id i.id ≡ true
  pub same_fence : r.fence ≡ i.fence
  pub allowed : holder_error (check_coordinated_holder op r c.binding coord) ≡ none

pub check_hold-eq-ok :
    (p : Platform) (op : Operation) (c : Caller) (i : ReservationInput)
    (coord : Option Coordination) (r : TaskReservation) (db : Db) {u : Unit {0}} {db' : Db}
    → check_hold p op c i coord r db ≡ ok (u, db')
    → Holds c i coord op r × (db' ≡ db)
unfolding check_hold
check_hold-eq-ok p op c i coord r db h =
    let (fenced, h₁) =
      refuse_when-then _ db (is_empty r.id || not (str_eq r.id i.id) || not (r.fence == i.fence))
        reservation_stale h in
    let (allowed, h₂) =
      check_error-then _ db (holder_error (check_coordinated_holder op r c.binding coord)) h₁ in
    let (_, db₁, h₃, h₄) = bind_result-eq-ok (check_process_pin (coordination_pin coord) db) _ h₂ in
    (
      record {
        active = ground arith;
        same_id = ground arith;
        same_fence = ground arith;
        allowed = allowed;
      },
      ground (
        arith,
        check_process_pin-same (coordination_pin coord) db h₃,
        check_evidence-same p coord (evidence_list i.terminal_evidence) db₁ h₄,
      ),
    )

-- A content write: the task's next revision, and the hold kept by an update alone.
pub record Wrote (op : Operation) (actor : TaskActor) (content : Option TaskContent) (now : Bytes)
    (t : Task) (r : TaskReservation) (db : Db) (t' : Task) (r' : TaskReservation) (db' : Db)
    : Type 0 where
  pub new_content : TaskContent
  pub given : content ≡ some new_content
  pub task : t' ≡ next_revision t new_content now
  pub hold : r' ≡ (
      if is_update op
      then record r { task_revision = t'.revision }
      else cleared (record r { task_revision = t'.revision }))
  pub tables :
      db' ≡ written (stored t') actor (previous_state false (lookup t'.id db.tasks)) false db

pub write_content-eq-ok :
    (op : Operation) (actor : TaskActor) (content : Option TaskContent) (now : Bytes) (t : Task)
    (r : TaskReservation) (db : Db) {t' : Task} {r' : TaskReservation} {db' : Db}
    → write_content op actor content now t r db ≡ ok ((t', r'), db')
    → Wrote op actor content now t r db t' r' db'
unfolding write_content
write_content-eq-ok op actor none now t r db h = cc
write_content-eq-ok op actor (some content) now t r db {t'} {r'} {db'} h =
    let (_, db₁, h₁, k₁) =
      bind_result-eq-ok (check_epic_assignable content.epic t.content.epic db) _ h in
    let (_, db₂, h₂, k₂) =
      bind_result-eq-ok (write_task (next_revision t content now) actor false db₁) _ k₁ in
    let wrote : db₂
        ≡ written (stored (next_revision t content now)) actor
            (previous_state false (lookup t.id db₁.tasks)) false db₁ =
      (write_task-eq-ok (next_revision t content now) actor false db₁ h₂).0 in
    let same : db₁ ≡ db = check_epic-same content.epic t.content.epic db h₁ in
    record {
      new_content = content;
      given = refl;
      task = ground arith;
      hold = ground arith;
      tables = ground arith;
    }
