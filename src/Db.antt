-- ===== src/Db.antt =====
-- One project's database (internal/store/store.go's schema) as far as tasks, epics and reservations
-- use it: a record with a field for each table, and transactions over it. A row that the source
-- stores as JSON is the value itself. Reads and writes of SQLite do not fail, but for the unique
-- keys, which are checked.
use aimem.Prelude.{
  has_prefix, ℕ, ◌≡◌, refl, Bool, true, false, ◌||◌, List, [], ◌∷◌, Option, none, some, Bytes,
  bytes, str_eq, lookup, is_some,
}
use aimem.Reason.{Reason}
use aimem.Task.{Task, TaskActor, TaskChange, TaskComment}
use aimem.Epic.{Epic, EpicChange}
use aimem.Reservation.{
  Operation, Holder, Binding, TaskReservation, ProcessPin, CoordinationRecord, RecoveryRecord,
  Outcome,
}
use aimem.Error.{Error, Result, ok, err, invalid}

-- A row of `tasks`: the filter columns and the snapshot.
pub record TaskRow : Type 0 where
  pub state : Bytes
  pub archived : Bool
  pub assignee : Bytes
  pub epic : Bytes
  pub body : Task

pub record HistoryRow : Type 0 where
  pub task_id : Bytes
  pub revision : ℕ
  pub body : TaskChange

-- TaskStateChange, without its sequence: the rows stand newest first.
pub record StateChange : Type 0 where
  pub task_id : Bytes
  pub revision : ℕ
  pub from : Bytes
  pub to : Bytes
  pub at : Bytes

pub record EpicRow : Type 0 where
  pub state : Bytes
  pub body : Epic

pub record EpicHistoryRow : Type 0 where
  pub epic_id : Bytes
  pub revision : ℕ
  pub body : EpicChange

-- A saved result of `task_requests`.
pub data Saved : Type 0 where
  saved_task : Task → Saved
  saved_comment : TaskComment → Saved
  saved_epic : Epic → Saved

pub record Receipt : Type 0 where
  pub actor : Bytes
  pub operation : Bytes
  pub scope : Bytes
  pub key : Bytes
  pub digest : Bytes
  pub result : Saved

-- A row of `team_assignments` with reserved = 1.
pub record Attempt : Type 0 where
  pub id : Bytes
  pub state : Bytes

-- A row of `task_reservations`.
pub record ReservationRow : Type 0 where
  pub fence : ℕ
  pub active_id : Bytes
  pub holder : Holder
  pub binding : Binding
  -- intended_user and intended_agent, both empty where the hold names no worker.
  pub intended_user : Bytes
  pub intended_agent : Bytes

-- A row of `task_reservation_events`: the transition and what it was made on.
pub record EventRow : Type 0 where
  pub task_id : Bytes
  pub fence : ℕ
  pub operation : Operation
  pub before : TaskReservation
  pub after : TaskReservation
  pub actor : TaskActor
  pub binding : Binding
  pub reason : Bytes
  pub terminal_evidence : Option (List Bytes)
  pub intent : Bytes
  pub coordination : Option CoordinationRecord
  pub recovery : Option RecoveryRecord
  pub statement : Bytes

-- A row of `task_reservation_requests`.
pub record ReservationReceipt : Type 0 where
  pub principal : Bytes
  pub operation : Bytes
  pub task_id : Bytes
  pub key : Bytes
  pub digest : Bytes
  pub result : Outcome
  pub service_id : Bytes
  pub proof_digest : Bytes
  pub reservation_id : Bytes
  pub committed_at : Bytes

-- A row of `task_reservation_services`.
pub record ServiceRow : Type 0 where
  pub task_id : Bytes
  pub service_id : Bytes
  pub reservation_id : Bytes
  pub closing_fence : ℕ
  pub closed_by : Bytes
  pub closed_at : Bytes
  pub task_revision : ℕ

pub record Db : Type 0 where
  pub project_id : Bytes
  pub tasks : List (Bytes × TaskRow)
  pub history : List HistoryRow
  pub state_changes : List StateChange
  pub comments : List TaskComment
  pub requests : List Receipt
  pub epics : List (Bytes × EpicRow)
  pub epic_history : List EpicHistoryRow
  -- `team_managed_tasks` with managed = 1, by task; `team_assignments` with reserved = 1, by task.
  pub managed : List (Bytes × Bytes)
  pub attempts : List (Bytes × Attempt)
  pub reservations : List (Bytes × ReservationRow)
  pub events : List EventRow
  pub reservation_requests : List ReservationReceipt
  pub services : List ServiceRow
  -- The meta rows `process` and `tasks` = on.
  pub process : Option ProcessPin
  pub tasks_enabled : Bool

-- A transaction: what it returns and the tables after it, or an error, which rolls it back.
abbrev pub Tx : Type 0 → Type 0
Tx A = Db → Result (A × Db)

abbrev pub bind_result : {A B : Type 0} → Result (A × Db) → (A → Tx B) → Result (B × Db)
bind_result (ok (a, db)) f = f a db
bind_result (err e) f = err e

infixl 5 ◌>>=◌ ◌>>◌
abbrev pub ◌>>=◌ : {A B : Type 0} → Tx A → (A → Tx B) → Tx B
◌>>=◌ m f db = bind_result (m db) f

abbrev pub ◌>>◌ : {B : Type 0} → Tx (Unit {0}) → Tx B → Tx B
m >> k = m >>= λ _. k

abbrev pub pure : {A : Type 0} → A → Tx A
pure a db = ok (a, db)

abbrev pub fail : {A : Type 0} → Error → Tx A
fail e db = err e

abbrev pub gets : {A : Type 0} → (Db → A) → Tx A
gets f db = ok (f db, db)

-- What a successful bind came from.
pub bind_result-eq-ok :
    {A B : Type 0} (r : Result (A × Db)) (f : A → Tx B) {b : B} {db' : Db}
    → bind_result r f ≡ ok (b, db')
    → (a : A) × (mid : Db) × (r ≡ ok (a, mid)) × (f a mid ≡ ok (b, db'))
bind_result-eq-ok (ok (a, mid)) f h = (a, mid, refl, h)
bind_result-eq-ok (err e) f h = cc

-- `if bad { return e }`.
abbrev pub refuse_when : Bool → Error → Tx (Unit {0})
refuse_when true e db = err e
refuse_when false e db = ok (tt, db)

-- `if err := validate(); err != nil { return invalid(err) }`.
abbrev pub check_input : Option Reason → Tx (Unit {0})
check_input none db = ok (tt, db)
check_input (some r) db = err (invalid r)

abbrev pub check_error : Option Error → Tx (Unit {0})
check_error none db = ok (tt, db)
check_error (some e) db = err e

-- What a guard in front of `k` found, where the whole succeeded: it passed and `k` ran.
module _ {B : Type 0} (k : Tx B) (db : Db) {b : B} {db' : Db} where
  pub refuse_when-then :
      (bad : Bool) (e : Error)
      → (refuse_when bad e >> k) db ≡ ok (b, db')
      → (bad ≡ false) × (k db ≡ ok (b, db'))
  refuse_when-then true e h = cc
  refuse_when-then false e h = (refl, h)

  pub check_input-then :
      (r : Option Reason)
      → (check_input r >> k) db ≡ ok (b, db')
      → (r ≡ none) × (k db ≡ ok (b, db'))
  check_input-then none h = (refl, h)
  check_input-then (some r) h = cc

  pub check_error-then :
      (r : Option Error) → (check_error r >> k) db ≡ ok (b, db') → (r ≡ none) × (k db ≡ ok (b, db'))
  check_error-then none h = (refl, h)
  check_error-then (some r) h = cc

-- An optional value, or the error.
abbrev pub from_option : {A : Type 0} → Option A → Error → Tx A
from_option none e db = err e
from_option (some a) e db = ok (a, db)

pub from_option-then :
    {A B : Type 0} (o : Option A) (e : Error) (k : A → Tx B) (db : Db) {b : B} {db' : Db}
    → (from_option o e >>= k) db ≡ ok (b, db')
    → (a : A) × (o ≡ some a) × (k a db ≡ ok (b, db'))
from_option-then none e k db h = cc
from_option-then (some a) e k db h = (a, refl, h)

-- Begin, the transaction's body, then Commit; an error rolls back.
unfoldable pub run : {A : Type 0} → Tx A → Db → Result A × Db
run m db = elim (m db) [ ok (a, db') ↦ (ok a, db') | err e ↦ (err e, db) ]

-- IsReservedProject.
unfoldable pub is_reserved_project : Bytes → Bool
unfolding has_prefix
is_reserved_project id = str_eq id (bytes "user") || has_prefix (bytes "group-") id

-- taskScopeOK.
unfoldable pub task_scope_ok : Tx (Unit {0})
task_scope_ok db = refuse_when (is_reserved_project db.project_id) Error.reserved_scope db

-- SELECT EXISTS over team_managed_tasks with managed = 1.
unfoldable pub is_managed : Bytes → Db → Bool
is_managed task db = is_some (lookup task db.managed)

abbrev pub active_id_of : Option ReservationRow → Bytes
active_id_of none = []
active_id_of (some r) = r.active_id

-- Whether the task has a row with active_id <> ''.
unfoldable pub has_active_reservation : Bytes → Db → Bool
has_active_reservation task db = elim (active_id_of (lookup task db.reservations)) [
  | [] ↦ false
  | _ ∷ _ ↦ true
]

-- rejectActiveReservation.
unfoldable pub reject_active_reservation : Bytes → Tx (Unit {0})
reject_active_reservation task db =
    refuse_when (has_active_reservation task db) Error.task_reserved db
