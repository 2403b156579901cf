-- ===== src/Task.antt =====
-- Tasks as internal/store/tasks.go declares them: actors, assignees, content, rows and history.
-- Revisions are int64 in the source and stay far below its bound.
use aimem.Prelude.{
  ℕ, ◌++◌, Bool, true, ◌&&◌, List, [], ◌∷◌, Option, none, some, Bytes, bytes, str_eq, if◌then◌else◌,
  any, is_some,
}
use aimem.Text.{task_text, full_task_id}
pub mod State
pub mod Content
use State

abbrev pub max_task_bytes : ℕ
max_task_bytes = 32768

abbrev pub max_task_comment_bytes : ℕ
max_task_comment_bytes = 32768

abbrev pub max_task_title_bytes : ℕ
max_task_title_bytes = 256

abbrev pub max_capability_bytes : ℕ
max_capability_bytes = 256

abbrev pub max_task_ref_bytes : ℕ
max_task_ref_bytes = 2048

abbrev pub max_task_list_entries : ℕ
max_task_list_entries = 32

abbrev pub max_task_key_bytes : ℕ
max_task_key_bytes = 128

abbrev pub max_task_actor_name : ℕ
max_task_actor_name = 128

abbrev pub task_states : List Bytes
task_states =
    State.backlog ∷ State.ready ∷ State.in_progress ∷ State.review ∷ State.blocked ∷ State.done
    ∷ State.cancelled ∷ []

-- slices.Contains.
unfoldable pub contains : List Bytes → Bytes → Bool
contains xs s = any (λ x. str_eq x s) xs

unfoldable pub valid_task_state : Bytes → Bool
unfolding contains
valid_task_state s = contains task_states s

-- TaskActor: the trusted principal that a mutation is stamped with.
pub record TaskActor : Type 0 where
  pub kind : Bytes
  pub user_id : Bytes
  pub token_id : Bytes
  pub name : Bytes

-- TaskActor.key: the retry receipt's principal, or none where the actor is malformed.
unfoldable pub actor_key : (Bytes → Bool) → TaskActor → Option Bytes
actor_key refuses a =
    if is_some (task_text refuses a.name max_task_actor_name true)
    then none
    else if str_eq a.kind (bytes "user")
    then (if full_task_id a.user_id && full_task_id a.token_id
        then some (bytes "user/" ++ (a.user_id ++ (bytes "/" ++ a.token_id)))
        else none)
    else if str_eq a.kind (bytes "admin") && (str_eq a.user_id [] && str_eq a.token_id [])
    then some (bytes "admin/" ++ a.name)
    else none

pub record TaskAssignee : Type 0 where
  pub kind : Bytes
  pub id : Bytes

-- TaskAssignee.column.
unfoldable pub assignee_column : Option TaskAssignee → Bytes
assignee_column none = []
assignee_column (some a) = a.kind ++ (bytes "/" ++ a.id)

pub record TaskRef : Type 0 where
  pub kind : Bytes
  pub ref : Bytes
  pub note : Bytes
  pub scope : Bytes

pub record TaskContent : Type 0 where
  pub title : Bytes
  pub objective : Bytes
  pub acceptance_criteria : Bytes
  pub non_goals : Bytes
  pub state : Bytes
  pub assignee : Option TaskAssignee
  pub blocker : Bytes
  pub dependencies : List Bytes
  pub candidate_refs : List TaskRef
  pub evidence_refs : List TaskRef
  pub next_action : Bytes
  pub archived : Bool
  pub epic : Bytes
  pub required_capability : Bytes

-- TaskCoordination: the team that manages a task and its reserved attempt, joined in at read time.
pub record TaskCoordination : Type 0 where
  pub team_id : Bytes
  pub attempt_id : Bytes
  pub state : Bytes

pub record Task : Type 0 where
  pub id : Bytes
  pub revision : ℕ
  pub coordination : Option TaskCoordination
  pub content : TaskContent
  pub created_at : Bytes
  pub updated_at : Bytes

pub record TaskChange : Type 0 where
  pub task : Task
  pub actor : TaskActor

pub record TaskComment : Type 0 where
  pub id : Bytes
  pub task_id : Bytes
  pub sequence : ℕ
  pub body : Bytes
  pub actor : TaskActor
  pub created_at : Bytes
