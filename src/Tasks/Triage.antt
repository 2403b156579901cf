-- ===== src/Tasks/Triage.antt =====
-- TriageTask (internal/store/task_triage.go): a partial update between BACKLOG and READY.
use aimem.Prelude.{
  ℕ, ◌≡◌, refl, ◌∙◌, Bool, true, false, not, ◌&&◌, ◌||◌, List, [], ◌∷◌, Option, none, some, Bytes,
  bytes, str_eq, ltb, ◌==◌, lookup, is_some, arith,
}
use aimem.Text.{full_task_id}
use aimem.Json.{Value, Fields, str, num, arr, obj, end, field, texts}
use aimem.Reason.{Reason, expected_revision, triage_empty, triage_target, triage_source}
use aimem.Task.{Task, TaskActor, TaskContent}
use aimem.Task.State
use aimem.Task.Content.{Platform, validate_content, refuse_if, ◌then_check◌}
use aimem.Error.{ok, invalid, task_conflict, not_found, archived}
use aimem.Db.{
  Db, Tx, ◌>>=◌, ◌>>◌, pure, refuse_when, check_input, is_managed, has_active_reservation,
  bind_result-eq-ok, refuse_when-then, check_input-then, from_option-then,
}
use aimem.Mutation.{checked_task_mutation, task_codec}
use aimem.Mutation.Fresh.{Accepted, replayed, applied, checked-Accepted, Accepted-checked}
use aimem.Tasks.{find_task, read_task, check_unheld, check_revision, next_revision, save_task}
use aimem.Tasks.Writes.{written, stored, previous_state, save_task-eq-ok}
use aimem.Tasks.Consistent.{IsConsistent, IsConsistent-requests}
use aimem.Tasks.Effects.{Rewrites, Rewrites-IsConsistent, Rewrites-read}
use aimem.Tasks.Accepted.{SameGuards, check_unheld-OnlyReads}

-- TaskTriage.
pub record TaskTriage : Type 0 where
  pub state : Option Bytes
  pub next_action : Option Bytes

-- triageStates.
abbrev pub triage_state : Bytes → Bool
triage_state s = str_eq s State.backlog || str_eq s State.ready

abbrev pub allowed : Option Bytes → Bool
allowed none = true
allowed (some s) = triage_state s

-- TaskTriage.validate.
unfoldable pub validate_triage : TaskTriage → Option Reason
validate_triage patch =
    refuse_if (not (is_some patch.state) && not (is_some patch.next_action)) triage_empty
    then_check refuse_if (not (allowed patch.state)) triage_target

-- A pointer with omitempty, and the names of the fields that the patch sets.
abbrev pointer_field : Bytes → Option Bytes → Fields → Fields
pointer_field k none fs = fs
pointer_field k (some s) fs = field k (str s) fs

abbrev named_field : Bytes → Option Bytes → List Bytes → List Bytes
named_field k none ks = ks
named_field k (some s) ks = k ∷ ks

unfoldable pub triage_json : TaskTriage → ℕ → Value
triage_json patch expected = obj (
    field (bytes "triage")
      (obj (
        pointer_field (bytes "state") patch.state
          (pointer_field (bytes "next_action") patch.next_action end)))
      (field (bytes "expected") (num expected) (
        field (bytes "named")
          (arr (
            texts (
              named_field (bytes "next_action") patch.next_action
                (named_field (bytes "state") patch.state []))))
          end)))

abbrev pub with_state : Option Bytes → TaskContent → TaskContent
with_state none c = c
with_state (some s) c = record c { state = s }

abbrev pub with_action : Option Bytes → TaskContent → TaskContent
with_action none c = c
with_action (some s) c = record c { next_action = s }

abbrev pub patched : TaskTriage → TaskContent → TaskContent
patched patch c = with_action patch.next_action (with_state patch.state c)

module _ (p : Platform) where
  -- The transaction of TriageTask.
  unfoldable pub triage_effect : Bytes → TaskTriage → ℕ → TaskActor → Bytes → Tx Task
  unfolding read_task save_task
  triage_effect id patch expected actor now = do
    t ← read_task id
    check_revision t expected
    refuse_when t.content.archived archived
    refuse_when (is_some patch.state && not (triage_state t.content.state)) (invalid triage_source)
    check_input (validate_content p (patched patch t.content))
    save_task (next_revision t (patched patch t.content) now) actor false
    pure (next_revision t (patched patch t.content) now)

  -- TriageTask.
  unfoldable pub triage_task : Bytes → TaskTriage → ℕ → TaskActor → Bytes → Bytes → Tx Task
  triage_task id patch expected actor key now = do
    refuse_when (not (full_task_id id)) not_found
    refuse_when (ltb expected 1) (invalid expected_revision)
    check_input (validate_triage patch)
    checked_task_mutation p actor (bytes "triage") id key (triage_json patch expected)
        (check_unheld id) (triage_effect id patch expected actor now)

  -- An accepted triage write found the task open at the expected revision, and leaves its next one with
  -- the patch's fields and no other changed.
  pub triage_effect-eq-ok :
      (id : Bytes) (patch : TaskTriage) (expected : ℕ) (actor : TaskActor) (now : Bytes) (db : Db)
      {t : Task} {db' : Db}
      → triage_effect id patch expected actor now db ≡ ok (t, db')
      → (c : TaskContent) × Rewrites p id c expected actor now db t db'
  unfolding triage_effect read_task
  triage_effect-eq-ok id patch expected actor now db {t} {db'} h =
      let (old, found, k₁) = from_option-then (find_task id db) not_found _ db h in
      let (current, k₂) =
        refuse_when-then _ db (not (old.revision == expected)) (task_conflict old) k₁ in
      let (unarchived, k₃) = refuse_when-then _ db old.content.archived archived k₂ in
      let (source, k₄) =
        refuse_when-then _ db (is_some patch.state && not (triage_state old.content.state))
          (invalid triage_source) k₃ in
      let (valid, k₅) = check_input-then _ db (validate_content p (patched patch old.content)) k₄ in
      let (_, db₂, h₄, k₆) =
        bind_result-eq-ok
          (save_task (next_revision old (patched patch old.content) now) actor false db) _ k₅ in
      let saved : db₂
          ≡ written (stored (next_revision old (patched patch old.content) now)) actor
              (previous_state false (lookup old.id db.tasks)) false db =
        (save_task-eq-ok (next_revision old (patched patch old.content) now) actor false db h₄).0 in
      (patched patch old.content, (old, found, ground arith, ground arith, ground arith))

  abbrev pub TriageAccepted :
      Bytes → TaskTriage → ℕ → TaskActor → Bytes → Bytes → Db → Task → Db → Type 0
  TriageAccepted id patch expected actor key now db t db' =
      Accepted p actor (bytes "triage") id key (triage_json patch expected) (check_unheld id)
        (triage_effect id patch expected actor now) db t db'

  pub triage_task-Accepted :
      (id : Bytes) (patch : TaskTriage) (expected : ℕ) (actor : TaskActor) (key now : Bytes)
      (db : Db) {t : Task} {db' : Db}
      → triage_task id patch expected actor key now db ≡ ok (t, db')
      → TriageAccepted id patch expected actor key now db t db'
  unfolding triage_task
  triage_task-Accepted id patch expected actor key now db h =
      let (named, h₁) = refuse_when-then _ db (not (full_task_id id)) not_found h in
      let (positive, h₂) = refuse_when-then _ db (ltb expected 1) (invalid expected_revision) h₁ in
      let (valid, h₃) = check_input-then _ db (validate_triage patch) h₂ in
      checked-Accepted p actor (bytes "triage") id key (triage_json patch expected)
        (check_unheld id) (triage_effect id patch expected actor now) db (check_unheld-OnlyReads id)
        h₃

  pub triage_SameGuards :
      (id : Bytes) (patch : TaskTriage) (expected : ℕ) (actor : TaskActor) (key now : Bytes)
      (db : Db) {t : Task} {db' : Db}
      → TriageAccepted id patch expected actor key now db t db'
      → SameGuards db db'
  triage_SameGuards id patch expected actor key now db (replayed _ _ same) = ground arith
  triage_SameGuards id patch expected actor key now db (applied a _ _ one) =
      ground (arith, triage_effect-eq-ok id patch expected actor now db one.effect)

  -- No triage of a task with an active reservation succeeds.
  pub triage_task_held :
      (id : Bytes) (patch : TaskTriage) (expected : ℕ) (actor : TaskActor) (key now : Bytes)
      (db : Db) {t : Task} {db' : Db}
      → triage_task id patch expected actor key now db ≡ ok (t, db')
      → (has_active_reservation id db ≡ false) × (is_managed id db ≡ false)
  unfolding check_unheld
  triage_task_held id patch expected actor key now db h =
      let unheld : check_unheld id db ≡ ok (tt, db) =
        Accepted-checked p actor (bytes "triage") id key (triage_json patch expected)
          (check_unheld id) (triage_effect id patch expected actor now) db
          (triage_task-Accepted id patch expected actor key now db h) in
      (ground arith, ground arith)

  pub triage_task-IsConsistent :
      (id : Bytes) (patch : TaskTriage) (expected : ℕ) (actor : TaskActor) (key now : Bytes)
      (db : Db) {t : Task} {db' : Db}
      → IsConsistent db
      → triage_task id patch expected actor key now db ≡ ok (t, db')
      → IsConsistent db'
  triage_task-IsConsistent id patch expected actor key now db {t} {db'} good h =
      keep (triage_task-Accepted id patch expected actor key now db h)
    where
      keep : TriageAccepted id patch expected actor key now db t db' → IsConsistent db'
      keep (replayed _ _ same) = rw same good
      keep (applied a _ _ one) =
          let (c, left) = triage_effect-eq-ok id patch expected actor now db one.effect in
          rw (one.added) (
            IsConsistent-requests one.after _
              (Rewrites-IsConsistent p id c expected actor now db good left))

  pub triage_keeps :
      (id : Bytes) (patch : TaskTriage) (expected : ℕ) (actor : TaskActor) (key now : Bytes)
      (j : Bytes) (db : Db) {t : Task} {db' : Db}
      → IsConsistent db
      → str_eq id j ≡ false
      → TriageAccepted id patch expected actor key now db t db'
      → find_task j db' ≡ find_task j db
  triage_keeps id patch expected actor key now j db good miss (replayed _ _ same) = rw same refl
  triage_keeps id patch expected actor key now j db good miss (applied a _ _ one) =
      let (c, left) = triage_effect-eq-ok id patch expected actor now db one.effect in
      let read : find_task j one.after ≡ find_task j db =
        Rewrites-read p id c expected actor now db good left j ∙ rw miss refl in
      unfold find_task in rw (one.added) read
