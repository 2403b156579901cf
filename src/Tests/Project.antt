-- ===== src/Tests/Project.antt =====
-- A project with one READY task, a member and an admin, and a platform that accepts every text.
use aimem.Prelude.{ℕ, true, false, ◌++◌, List, [], ◌∷◌, Option, none, some, Bytes, bytes}
use aimem.Json.{Value, Items, Fields, null, bool, num, str, arr, obj, nil, cons, end, field}
use aimem.Task.{Task, TaskActor, TaskContent}
use aimem.Task.State
use aimem.Task.Content.{Platform}
use aimem.Error.{Result, ok, err}
use aimem.Db.{Db}
use aimem.Tasks.{create_task, update_task}
use aimem.Reservation.{
  Binding, ReservationInput, Outcome, RecoveryEvidence, no_holder, no_binding, claim, update,
  finalize, recovery_cancel,
}
use aimem.Ledger.{hold_of}
use aimem.Ledger.Recover.{recover_task_reservation}
use aimem.Ledger.Apply.{Caller, apply_task_reservation}

-- A writer that keeps values apart: strings with their end marked, numbers as one code.
unfoldable mutual
  pub write : Value → Bytes
  write null = 1 ∷ []
  write (bool true) = 2 ∷ []
  write (bool false) = 3 ∷ []
  write (num n) = 4 ∷ n ∷ []
  write (str s) = 5 ∷ (s ++ (0 ∷ []))
  write (arr vs) = 6 ∷ write_items vs
  write (obj fs) = 7 ∷ write_fields fs

  pub write_items : Items → Bytes
  write_items nil = 0 ∷ []
  write_items (cons v vs) = write v ++ write_items vs

  pub write_fields : Fields → Bytes
  write_fields end = 0 ∷ []
  write_fields (field k v fs) = k ++ (0 ∷ (write v ++ write_fields fs))

abbrev pub platform : Platform
platform = record {
  refuses = λ s. false;
  is_print = λ r. true;
  http_url = λ s. true;
  hashing = record { marshal = write; sha256_hex = λ s. s };
  sha256_base64 = λ s. s;
}

abbrev pub empty_db : Db
empty_db = record {
  project_id = bytes "aimem";
  tasks = [];
  history = [];
  state_changes = [];
  comments = [];
  requests = [];
  epics = [];
  epic_history = [];
  managed = [];
  attempts = [];
  reservations = [];
  events = [];
  reservation_requests = [];
  services = [];
  process = none;
  tasks_enabled = true;
}

abbrev pub task_id : Bytes
task_id = bytes "01a17718-4ca9-7abc-9def-0123456789ab"

abbrev pub hold_id : Bytes
hold_id = bytes "01a17718-4ca9-7abc-9def-0123456789ac"

abbrev pub user_id : Bytes
user_id = bytes "01a17718-4ca9-7abc-9def-0123456789ad"

abbrev pub token_id : Bytes
token_id = bytes "01a17718-4ca9-7abc-9def-0123456789ae"

abbrev pub member : TaskActor
member = record { kind = bytes "user"; user_id = user_id; token_id = token_id; name = bytes "ann" }

abbrev pub now : Bytes
now = bytes "T1"

abbrev pub content_in : Bytes → TaskContent
content_in state = record {
  title = bytes "t";
  objective = [];
  acceptance_criteria = [];
  non_goals = [];
  state = state;
  assignee = none;
  blocker = [];
  dependencies = [];
  candidate_refs = [];
  evidence_refs = [];
  next_action = [];
  archived = false;
  epic = [];
  required_capability = [];
}

abbrev pub db_after : {A : Type 0} → Result (A × Db) → Db
db_after (ok (a, db)) = db
db_after (err e) = empty_db

abbrev pub value_of : {A : Type 0} → A → Result (A × Db) → A
value_of a (ok (b, db)) = b
value_of a (err e) = a

abbrev pub task_at : Bytes → ℕ → Task
task_at state n = record {
  id = task_id;
  revision = n;
  coordination = none;
  content = content_in state;
  created_at = now;
  updated_at = now;
}

abbrev pub personal : Binding
personal = record no_binding { user_id = user_id; mode = bytes "personal" }

abbrev pub caller_with : Bytes → Caller
caller_with key = record { actor = member; binding = personal; key = key; authorize = none }

abbrev pub claim_input : ReservationInput
claim_input = record {
  task_id = task_id;
  id = [];
  fence = 0;
  expected_revision = 1;
  holder = record { mode = bytes "personal"; ref = bytes "w1" };
  content = none;
  reason = [];
  terminal_evidence = none;
  intent = [];
}

abbrev pub move_input : ℕ → ℕ → Bytes → Bytes → Option (List Bytes) → ReservationInput
move_input fence revision state reason evidence = record {
  task_id = task_id;
  id = hold_id;
  fence = fence;
  expected_revision = revision;
  holder = no_holder;
  content = some (content_in state);
  reason = reason;
  terminal_evidence = evidence;
  intent = [];
}

abbrev pub attestation : RecoveryEvidence
attestation = record {
  kind = bytes "attestation";
  ref = bytes "case-1";
  statement = bytes "the member's machine is lost";
  holder_ref = [];
}

abbrev pub operator : TaskActor
operator = record { kind = bytes "recovery"; user_id = []; token_id = []; name = bytes "ops" }

abbrev pub other_id : Bytes
other_id = bytes "01a17718-4ca9-7abc-9def-0123456789af"

-- The runs: one task is created; it is updated; or it is claimed, updated under the hold and
-- finalized; or another task is created, or the hold recovered.
abbrev pub create_run : Result (Task × Db)
create_run = create_task platform (content_in State.ready) member (bytes "k1") task_id now empty_db

abbrev pub db1 : Db
db1 = db_after create_run

abbrev pub update_run : Result (Task × Db)
update_run =
    update_task platform task_id (content_in State.in_progress) 1 member (bytes "k2") now db1

abbrev pub no_outcome : Outcome
no_outcome = record {
  task = task_at [] 0;
  reservation = hold_of task_id 0 none;
  binding = no_binding;
  recovery = none;
  coordination = none;
  replayed = false;
}

abbrev pub claim_run : Result (Outcome × Db)
claim_run =
    apply_task_reservation platform (caller_with (bytes "c1")) claim_input claim none hold_id now
      db1

abbrev pub db2 : Db
db2 = db_after claim_run

abbrev pub work_input : ReservationInput
work_input = move_input 1 1 State.in_progress [] none

abbrev pub work_run : Result (Outcome × Db)
work_run =
    apply_task_reservation platform (caller_with (bytes "c2")) work_input update none [] now db2

abbrev pub db3 : Db
db3 = db_after work_run

abbrev pub finish_input : ReservationInput
finish_input = move_input 2 2 State.done (bytes "merged") (some (bytes "commit 1" ∷ []))

abbrev pub finish_run : Result (Outcome × Db)
finish_run =
    apply_task_reservation platform (caller_with (bytes "c3")) finish_input finalize none [] now db3

abbrev pub other_run : Result (Task × Db)
other_run = create_task platform (content_in State.backlog) member (bytes "k9") other_id now db2

abbrev pub later_run : Result (Task × Db)
later_run =
    create_task platform (content_in State.backlog) member (bytes "k9") other_id now
      (db_after update_run)

abbrev pub recover_input : ReservationInput
recover_input = move_input 2 2 State.cancelled (bytes "lost") none

abbrev pub recover_run : Result (Outcome × Db)
recover_run =
    recover_task_reservation platform recover_input attestation operator recovery_cancel
      (bytes "r1") none now db3

abbrev pub create_out : Task
create_out = value_of (task_at [] 0) create_run

abbrev pub update_out : Task
update_out = value_of (task_at [] 0) update_run

abbrev pub other_out : Task
other_out = value_of (task_at [] 0) other_run

abbrev pub later_out : Task
later_out = value_of (task_at [] 0) later_run

abbrev pub claim_out : Outcome
claim_out = value_of no_outcome claim_run

abbrev pub work_out : Outcome
work_out = value_of no_outcome work_run

abbrev pub finish_out : Outcome
finish_out = value_of no_outcome finish_run

abbrev pub recover_out : Outcome
recover_out = value_of no_outcome recover_run
