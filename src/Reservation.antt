-- ===== src/Reservation.antt =====
-- The reservation ledger's data (internal/store/task_reservations.go,
-- task_reservation_coordination.go, task_reservation_recovery.go) and the rules that look at a
-- hold and a caller alone: SameHolder, actingMember, checkCoordinatedHolder.
pub mod Input
pub mod Evidence
pub mod Rules
use aimem.Prelude.{
  ℕ, ◌≡◌, Bool, true, false, not, ◌&&◌, ◌||◌, List, [], ◌∷◌, Option, none, some, Bytes, bytes,
  str_eq, if◌then◌else◌,
}
use aimem.Task.{Task, TaskContent}

-- ReservationOperation and RecoveryOperation: strings in the source; `unknown` is any other.
pub data Operation : Type 0 where
  claim transfer update release finalize recovery_release recovery_cancel : Operation
  unknown : Bytes → Operation

unfoldable pub operation_name : Operation → Bytes
operation_name claim = bytes "claim"
operation_name transfer = bytes "transfer"
operation_name update = bytes "update"
operation_name release = bytes "release"
operation_name finalize = bytes "finalize"
operation_name recovery_release = bytes "recovery_release"
operation_name recovery_cancel = bytes "recovery_cancel"
operation_name (unknown s) = s

-- validReservationOperation.
unfoldable pub valid_operation : Operation → Bool
valid_operation claim = true
valid_operation transfer = true
valid_operation update = true
valid_operation release = true
valid_operation finalize = true
valid_operation _ = false

abbrev pub is_claim : Operation → Bool
is_claim claim = true
is_claim _ = false

abbrev pub is_transfer : Operation → Bool
is_transfer transfer = true
is_transfer _ = false

abbrev pub is_update : Operation → Bool
is_update update = true
is_update _ = false

abbrev pub is_release : Operation → Bool
is_release release = true
is_release _ = false

abbrev pub is_finalize : Operation → Bool
is_finalize finalize = true
is_finalize _ = false

pub record Holder : Type 0 where
  pub mode : Bytes
  pub ref : Bytes

pub record Binding : Type 0 where
  pub user_id : Bytes
  pub mode : Bytes
  pub service_id : Bytes
  pub profile_id : Bytes
  pub team_id : Bytes
  pub role : Bytes
  pub session_id : Bytes
  pub generation : Bytes

abbrev pub no_holder : Holder
no_holder = record { mode = []; ref = [] }

abbrev pub no_binding : Binding
no_binding = record {
  user_id = [];
  mode = [];
  service_id = [];
  profile_id = [];
  team_id = [];
  role = [];
  session_id = [];
  generation = [];
}

unfoldable pub is_empty : Bytes → Bool
is_empty [] = true
is_empty (c ∷ s) = false

-- b == ReservationBinding{}.
unfoldable pub is_no_binding : Binding → Bool
unfolding is_empty
is_no_binding b =
    is_empty b.user_id
    && is_empty b.mode
    && is_empty b.service_id
    && is_empty b.profile_id
    && is_empty b.team_id
    && is_empty b.role
    && is_empty b.session_id
    && is_empty b.generation

-- ReservationBinding.SameHolder.
unfoldable pub same_holder : Binding → Binding → Bool
unfolding is_empty
same_holder b o =
    not (is_empty b.user_id)
    && not (is_empty b.mode)
    && str_eq b.user_id o.user_id
    && str_eq b.mode o.mode
    && str_eq b.profile_id o.profile_id
    && str_eq b.role o.role

pub record Worker : Type 0 where
  pub user_id : Bytes
  pub agent_id : Bytes

unfoldable pub same_worker : Worker → Worker → Bool
same_worker a b = str_eq a.user_id b.user_id && str_eq a.agent_id b.agent_id

pub record TaskReservation : Type 0 where
  pub task_id : Bytes
  pub id : Bytes
  pub fence : ℕ
  pub holder : Holder
  pub binding : Binding
  pub task_revision : ℕ
  pub intended_worker : Option Worker

-- TaskReservationInput. `terminal_evidence` is none for a nil slice.
pub record ReservationInput : Type 0 where
  pub task_id : Bytes
  pub id : Bytes
  pub fence : ℕ
  pub expected_revision : ℕ
  pub holder : Holder
  pub content : Option TaskContent
  pub reason : Bytes
  pub terminal_evidence : Option (List Bytes)
  pub intent : Bytes

pub record ProcessPin : Type 0 where
  pub repo : Bytes
  pub commit : Bytes
  pub manifest : Bytes

unfoldable pub same_pin : ProcessPin → ProcessPin → Bool
same_pin a b = str_eq a.repo b.repo && str_eq a.commit b.commit && str_eq a.manifest b.manifest

pub record CoordinationRecord : Type 0 where
  pub kind : Bytes
  pub proof_digest : Bytes
  pub evidence_digest : Bytes

-- ReservationCoordination, with the embedded CoordinationRecord as `reference`.
pub record Coordination : Type 0 where
  pub reference : CoordinationRecord
  pub work_ref : Bytes
  pub intended_worker : Option Worker
  pub worker : Option Worker
  pub coordinator : Bool
  pub process : Option ProcessPin

pub record RecoveryEvidence : Type 0 where
  pub kind : Bytes
  pub ref : Bytes
  pub statement : Bytes
  pub holder_ref : Bytes

pub record RecoveryRecord : Type 0 where
  pub operation : Operation
  pub evidence_kind : Bytes
  pub evidence_ref : Bytes
  pub affected : Binding

pub record Outcome : Type 0 where
  pub task : Task
  pub reservation : TaskReservation
  pub binding : Binding
  pub recovery : Option RecoveryRecord
  pub coordination : Option CoordinationRecord
  pub replayed : Bool

-- pin, intended and record of a coordination that may be nil.
abbrev pub coordination_pin : Option Coordination → Option ProcessPin
coordination_pin none = none
coordination_pin (some c) = c.process

abbrev pub coordination_intended : Option Coordination → Option Worker
coordination_intended none = none
coordination_intended (some c) = c.intended_worker

abbrev pub coordination_record : Option Coordination → Option CoordinationRecord
coordination_record none = none
coordination_record (some c) = some c.reference

abbrev pub evidence_list : Option (List Bytes) → List Bytes
evidence_list none = []
evidence_list (some es) = es

-- The refusals of checkCoordinatedHolder.
pub data HolderRefusal : Type 0 where
  another_holder fact_mismatch : HolderRefusal

unfoldable pub same_team : Binding → Binding → Bool
same_team b hold =
    str_eq b.mode (bytes "team")
    && str_eq hold.mode (bytes "team")
    && str_eq b.service_id hold.service_id
    && str_eq b.team_id hold.team_id

abbrev workers_agree : Option Worker → Option Worker → Bool
workers_agree (some a) (some b) = same_worker a b
workers_agree _ _ = false

-- checkCoordinatedHolder: none lets the transition go on.
unfoldable pub check_coordinated_holder :
    Operation → TaskReservation → Binding → Option Coordination → Option HolderRefusal
unfolding same_team
check_coordinated_holder op hold b none =
    if is_transfer op
    then some another_holder
    else if not (same_holder hold.binding b)
    then some another_holder
    else none
check_coordinated_holder op hold b (some c) =
    if not (str_eq hold.holder.ref c.work_ref)
    then some fact_mismatch
    else if is_transfer op
    then (if not (same_team b hold.binding)
        then some another_holder
        else if not (workers_agree hold.intended_worker c.worker)
        then some fact_mismatch
        else none)
    else if c.coordinator
    then (if not (same_team b hold.binding) || not (str_eq b.role (bytes "coordinator"))
        then some another_holder
        else none)
    else if not (same_holder hold.binding b)
    then some another_holder
    else none

-- actingMember.
unfoldable pub acting_member : Operation → Binding → Binding → Bool
acting_member op recorded caller =
    if not (same_holder recorded caller)
    then false
    else if is_finalize op && str_eq recorded.role (bytes "coordinator")
    then str_eq recorded.session_id caller.session_id
    else true
