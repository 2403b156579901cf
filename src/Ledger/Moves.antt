-- ===== src/Ledger/Moves.antt =====
-- An accepted transition as one value: the task and hold it found, how it changed them, and the
-- tables it left (the transactions of DB.ApplyTaskReservation and RecoverTaskReservation of
-- internal/store).
use aimem.Prelude.{
  ◌≡◌, refl, ap, Bool, true, false, not, Option, none, some, Bytes, ◌==◌, insert, arith,
}
use aimem.Task.{Task}
use aimem.Task.Content.{Platform}
use aimem.Error.{ok, not_found, task_conflict}
use aimem.Db.{
  EventRow, Db, Tx, ◌>>◌, pure, bind_result, bind_result-eq-ok, refuse_when-then, from_option-then,
}
use aimem.Tasks.{find_task, read_task}
use aimem.Reservation.{
  Operation, claim, transfer, update, release, finalize, recovery_release, recovery_cancel, unknown,
  valid_operation, TaskReservation, ReservationInput, Coordination, coordination_intended, Outcome,
}
use aimem.Ledger.{
  find_hold, advanced, reservation_row, advance_reservation, record_event, closed_by, track_service,
}
use aimem.Ledger.Apply.{
  Caller, claim_hold, check_hold, write_content, change_hold, move_hold, event_of, apply_effect,
}
use aimem.Ledger.Hold.{
  advance-eq-ok, record_event-same, track-same, Claimable, claim_hold-eq-ok, Holds,
  check_hold-eq-ok, Wrote, write_content-eq-ok,
}

-- The operations that write the task's content.
abbrev pub writes : Operation → Bool
writes update = true
writes release = true
writes finalize = true
writes _ = false

-- The end of a transition: the hold under its next fence.
pub record Advanced (t : Task) (r : TaskReservation) (mid : Db) (out : Outcome) (db' : Db)
    : Type 0 where
  pub task : out.task ≡ t
  pub reservation : out.reservation ≡ advanced r
  pub tables : db' ≡ record mid {
    reservations = insert r.task_id (reservation_row (advanced r)) mid.reservations;
    events = db'.events;
    services = db'.services;
  }

-- No change touches the ledger's own tables, the fence, or the guards of the project.
pub record Keeps (r : TaskReservation) (db : Db) (r' : TaskReservation) (db' : Db) : Type 0 where
  pub same_fence : r'.fence ≡ r.fence
  pub same_task : r'.task_id ≡ r.task_id
  pub reservations : db'.reservations ≡ db.reservations
  pub requests : db'.reservation_requests ≡ db.reservation_requests
  pub task_requests : db'.requests ≡ db.requests
  pub project : db'.project_id ≡ db.project_id
  pub managed : db'.managed ≡ db.managed

-- The end of both transactions: the next fence, the event, the service, and the outcome.
pub finish :
    (before r : TaskReservation) (event : TaskReservation → EventRow) (by now : Bytes)
    (result : TaskReservation → Outcome) (mid : Db) {out : Outcome} {db' : Db}
    → bind_result (advance_reservation r mid) (λ after.
      record_event (event after) >> (track_service before after by now >> pure (result after)))
      ≡ ok (out, db')
    → (out ≡ result (advanced r))
      × (db' ≡ record mid {
        reservations = insert r.task_id (reservation_row (advanced r)) mid.reservations;
        events = db'.events;
        services = db'.services;
      })
finish before r event by now result mid {out} {db'} h =
    let (after, db₂, h₄, k₄) = bind_result-eq-ok (advance_reservation r mid) _ h in
    let (_, db₃, h₅, k₅) = bind_result-eq-ok (record_event (event after) db₂) _ k₄ in
    let (_, db₄, h₆, k₆) = bind_result-eq-ok (track_service before after by now db₃) _ k₅ in
    ground (
      arith,
      advance-eq-ok r mid h₄,
      record_event-same (event after) db₂ h₅,
      track-same before after by now db₃ h₆,
    )

module _ (p : Platform) (c : Caller) (i : ReservationInput) (coord : Option Coordination)
    (new_id now : Bytes) where
  -- What a transition did to the task `t` and the hold `r`.
  pub data Change (op : Operation) (t : Task) (r : TaskReservation) (db : Db) (t' : Task)
      (r' : TaskReservation) (db' : Db) : Type 0 where
    claimed :
        op ≡ claim
        → Claimable i t r db
        → t' ≡ t
        → r' ≡ record r {
          id = new_id;
          holder = i.holder;
          binding = c.binding;
          intended_worker = coordination_intended coord;
        }
        → db' ≡ db
        → Change op t r db t' r' db'
    transferred :
        op ≡ transfer
        → Holds c i coord op r
        → t' ≡ t
        → r' ≡ record r { holder = i.holder; binding = c.binding; intended_worker = none }
        → db' ≡ db
        → Change op t r db t' r' db'
    wrote :
        writes op ≡ true
        → Holds c i coord op r
        → Wrote op c.actor i.content now t r db t' r' db'
        → Change op t r db t' r' db'
    kept :
        valid_operation op ≡ false
        → Holds c i coord op r
        → t' ≡ t
        → r' ≡ r
        → db' ≡ db
        → Change op t r db t' r' db'

  -- The guards on the hold, then a content write.
  abbrev guarded :
      Operation → Task → TaskReservation → Tx (Task × TaskReservation) → Tx (Task × TaskReservation)
  guarded op t r rest = check_hold p op c i coord r >> rest

  write-Change :
      (op : Operation) (t : Task) (r : TaskReservation) (db : Db) {t' : Task} {r' : TaskReservation}
      {db' : Db}
      → writes op ≡ true
      → guarded op t r (write_content op c.actor i.content now t r) db ≡ ok ((t', r'), db')
      → Change op t r db t' r' db'
  write-Change op t r db {t'} {r'} {db'} w h =
      let (_, db₁, h₁, k₁) = bind_result-eq-ok (check_hold p op c i coord r db) _ h in
      let (held, same) = check_hold-eq-ok p op c i coord r db h₁ in
      let k₂ : write_content op c.actor i.content now t r db ≡ ok ((t', r'), db') = ground arith in
      wrote w held (write_content-eq-ok op c.actor i.content now t r db k₂)

  kept-Change :
      (op : Operation) (t : Task) (r : TaskReservation) (db : Db) {t' : Task} {r' : TaskReservation}
      {db' : Db}
      → valid_operation op ≡ false
      → guarded op t r (pure (t, r)) db ≡ ok ((t', r'), db')
      → Change op t r db t' r' db'
  kept-Change op t r db inert h =
      let (_, db₁, h₁, k₁) = bind_result-eq-ok (check_hold p op c i coord r db) _ h in
      let (held, same) = check_hold-eq-ok p op c i coord r db h₁ in
      kept inert held (ground arith) (ground arith) (ground arith)

  move-Change :
      (op : Operation) (t : Task) (r : TaskReservation) (db : Db) {t' : Task} {r' : TaskReservation}
      {db' : Db}
      → move_hold p c i op coord new_id now t r db ≡ ok ((t', r'), db')
      → Change op t r db t' r' db'
  unfolding move_hold change_hold valid_operation
  move-Change claim t r db h =
      let (r₁, db₁, h₁, k₁) = bind_result-eq-ok (claim_hold p c i coord new_id t r db) _ h in
      let (found, result, same) = claim_hold-eq-ok p c i coord new_id t r db h₁ in
      claimed refl found (ground arith) (ground arith) (ground arith)
  move-Change transfer t r db h =
      let (_, db₁, h₁, k₁) = bind_result-eq-ok (check_hold p transfer c i coord r db) _ h in
      let (held, same) = check_hold-eq-ok p transfer c i coord r db h₁ in
      transferred refl held (ground arith) (ground arith) (ground arith)
  move-Change update t r db h = write-Change update t r db refl h
  move-Change release t r db h = write-Change release t r db refl h
  move-Change finalize t r db h = write-Change finalize t r db refl h
  move-Change recovery_release t r db h = kept-Change recovery_release t r db refl h
  move-Change recovery_cancel t r db h = kept-Change recovery_cancel t r db refl h
  move-Change (unknown s) t r db h = kept-Change (unknown s) t r db refl h

  -- An accepted transition: it found the task at the expected revision.
  pub record Transition (op : Operation) (db : Db) (out : Outcome) (db' : Db) : Type 0 where
    pub old : Task
    pub found : find_task i.task_id db ≡ some old
    pub current : old.revision ≡ i.expected_revision
    pub task : Task
    pub hold : TaskReservation
    pub mid : Db
    pub change : Change op old (find_hold i.task_id old.revision db) db task hold mid
    pub ends : Advanced task hold mid out db'

  pub apply_effect-Transition :
      (op : Operation) (db : Db) {out : Outcome} {db' : Db}
      → apply_effect p c i op coord new_id now db ≡ ok (out, db')
      → Transition op db out db'
  unfolding apply_effect read_task
  apply_effect-Transition op db {out} {db'} h =
      let (old, found, k₁) = from_option-then (find_task i.task_id db) not_found _ db h in
      let (current, k₂) =
        refuse_when-then _ db (not (old.revision == i.expected_revision)) (task_conflict old) k₁ in
      let before : TaskReservation = find_hold i.task_id old.revision db in
      let (moved, mid, h₃, k₃) =
        bind_result-eq-ok (move_hold p c i op coord new_id now old before db) _ k₂ in
      let (result, tables) =
        finish before moved.1 (event_of p c i op coord before) (closed_by op) now _ mid k₃ in
      record {
        old = old;
        found = found;
        current = ground arith;
        task = moved.0;
        hold = moved.1;
        mid = mid;
        change = move-Change op old before db h₃;
        ends = record {
          task = ap (λ o. o.task) result;
          reservation = ap (λ o. o.reservation) result;
          tables = tables;
        };
      }

  pub Change-Keeps :
      (op : Operation) (t : Task) (r : TaskReservation) (db : Db) {t' : Task} {r' : TaskReservation}
      {db' : Db}
      → Change op t r db t' r' db'
      → Keeps r db r' db'
  Change-Keeps op t r db (claimed _ _ _ hold same) = ground arith
  Change-Keeps op t r db (transferred _ _ _ hold same) = ground arith
  Change-Keeps op t r db (wrote _ _ w) = ground (arith, w.hold, w.tables)
  Change-Keeps op t r db (kept _ _ _ hold same) = ground arith
