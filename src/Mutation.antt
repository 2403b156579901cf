-- ===== src/Mutation.antt =====
-- Mutations with a retry receipt: checkedTaskMutation, taskMutation and replays
-- (internal/store/tasks.go).
pub mod Replay
pub mod Fresh
use aimem.Prelude.{
  ℕ, ◌≡◌, refl, Bool, true, false, ◌&&◌, List, [], ◌∷◌, Option, none, some, Bytes, str_eq,
  if◌then◌else◌, is_some,
}
use aimem.Text.{task_text}
use aimem.Json.{Value, receipt_digest}
use aimem.Reason.{Reason, bad_key}
use aimem.Task.{Task, TaskActor, TaskComment, actor_key, max_task_key_bytes}
use aimem.Task.Content.{Platform}
use aimem.Epic.{Epic}
use aimem.Error.{Error, Result, ok, err, invalid, retry_conflict, bad_actor, constraint, decode}
use aimem.Db.{
  Saved, saved_task, saved_comment, saved_epic, Receipt, Db, Tx, ◌>>=◌, ◌>>◌, pure, fail, gets,
  refuse_when, check_input, from_option, task_scope_ok,
}

-- json.Marshal and json.Unmarshal of a mutation's result: what is saved is read back as it was.
pub record Codec (T : Type 0) : Type 0 where
  pub save : T → Saved
  pub load : Saved → Option T
  pub load-save : (t : T) → load (save t) ≡ some t

abbrev pub load_task : Saved → Option Task
load_task (saved_task t) = some t
load_task _ = none

abbrev pub load_comment : Saved → Option TaskComment
load_comment (saved_comment c) = some c
load_comment _ = none

abbrev pub load_epic : Saved → Option Epic
load_epic (saved_epic e) = some e
load_epic _ = none

pub task_load_save : (t : Task) → load_task (saved_task t) ≡ some t
task_load_save t = refl

pub comment_load_save : (c : TaskComment) → load_comment (saved_comment c) ≡ some c
comment_load_save c = refl

pub epic_load_save : (e : Epic) → load_epic (saved_epic e) ≡ some e
epic_load_save e = refl

instance abbrev pub task_codec : Codec Task
task_codec = record { save = saved_task; load = load_task; load-save = task_load_save }

instance abbrev pub comment_codec : Codec TaskComment
comment_codec = record { save = saved_comment; load = load_comment; load-save = comment_load_save }

instance abbrev pub epic_codec : Codec Epic
epic_codec = record { save = saved_epic; load = load_epic; load-save = epic_load_save }

-- The primary key of `task_requests`.
pub record RequestKey : Type 0 where
  pub actor : Bytes
  pub operation : Bytes
  pub scope : Bytes
  pub key : Bytes

unfoldable pub is_request : RequestKey → Receipt → Bool
is_request k r =
    str_eq r.actor k.actor
    && str_eq r.operation k.operation
    && str_eq r.scope k.scope
    && str_eq r.key k.key

unfoldable pub find_receipt : RequestKey → List Receipt → Option Receipt
find_receipt k [] = none
find_receipt k (r ∷ rs) = if is_request k r then some r else find_receipt k rs

unfoldable pub insert_receipt : RequestKey → Bytes → Saved → Tx (Unit {0})
insert_receipt k digest saved db =
    if is_some (find_receipt k db.requests)
    then err constraint
    else ok (
      tt,
      record db {
        requests =
            record {
              actor = k.actor;
              operation = k.operation;
              scope = k.scope;
              key = k.key;
              digest = digest;
              result = saved;
            }
            ∷ db.requests;
      },
    )

abbrev pub key_error : Platform → Bytes → Option Reason
key_error p key = elim (task_text p.refuses key max_task_key_bytes true) [
  | none ↦ none
  | some e ↦ some (bad_key e)
]

module _ {T : Type 0} ⦃c : Codec T⦄ where
  -- The saved result, if the digest is the saved one.
  unfoldable pub replay_receipt : Receipt → Bytes → Tx T
  replay_receipt r digest db =
      if str_eq r.digest digest then from_option (c.load r.result) decode db else err retry_conflict

  -- A first request: the effect, then its receipt, in one transaction.
  unfoldable pub apply_first : RequestKey → Bytes → Tx T → Tx T
  apply_first k digest fn = do out ← fn; insert_receipt k digest (c.save out); pure out

  answer : RequestKey → Bytes → Tx T → Option Receipt → Tx T
  unfolding replay_receipt apply_first
  answer k digest fn none db = apply_first k digest fn db
  answer k digest fn (some r) db = replay_receipt r digest db

  -- The transaction: the check, which also guards a replay, then the receipt or the effect.
  unfoldable pub receipt_mutation : RequestKey → Bytes → Tx (Unit {0}) → Tx T → Tx T
  unfolding answer
  receipt_mutation k digest check fn = do
    check
    found ← gets (λ db. find_receipt k db.requests)
    answer k digest fn found

module _ {T : Type 0} ⦃c : Codec T⦄ (p : Platform) where
  unfoldable pub checked_task_mutation :
      TaskActor → Bytes → Bytes → Bytes → Value → Tx (Unit {0}) → Tx T → Tx T
  checked_task_mutation actor op scope key input check fn = do
    task_scope_ok
    actor_k ← from_option (actor_key p.refuses actor) bad_actor
    check_input (key_error p key)
    receipt_mutation (record { actor = actor_k; operation = op; scope = scope; key = key })
        (receipt_digest p.hashing input) check fn

  -- taskMutation: no check.
  unfoldable pub task_mutation : TaskActor → Bytes → Bytes → Bytes → Value → Tx T → Tx T
  unfolding checked_task_mutation
  task_mutation actor op scope key input fn =
      checked_task_mutation actor op scope key input (pure tt) fn

-- replays: whether a receipt holds this exact input. It only reads.
unfoldable pub replays : Platform → TaskActor → Bytes → Bytes → Bytes → Value → Db → Bool
replays p actor key op scope input db = elim (actor_key p.refuses actor) [
  | none ↦ false
  | some actor_k ↦
      elim (find_receipt (record { actor = actor_k; operation = op; scope = scope; key = key })
        db.requests) [ none ↦ false | some r ↦ str_eq r.digest (receipt_digest p.hashing input) ]
]
