-- ===== src/Tasks/Effects.antt =====
-- The transactions of CreateTask and UpdateTask (internal/store/tasks.go): what an accepted one
-- found and leaves, and that both keep the tables well-formed.
use aimem.Prelude.{
  ℕ, ◌≡◌, refl, true, false, not, none, some, [], Bytes, str_eq, ◌==◌, lookup, lookup-insert,
  str_eq_iff, arith, Option-cases, inl, inr, if◌then◌else◌,
}
use aimem.Task.{Task, TaskActor, TaskContent}
use aimem.Task.Content.{Platform}
use aimem.Error.{ok, not_found, task_conflict}
use aimem.Db.{TaskRow, Db, bind_result-eq-ok, refuse_when-then, from_option-then}
use aimem.Tasks.{
  find_task, read_task, row_of, next_revision, check_epic_assignable, save_task, create_effect,
  update_effect,
}
use aimem.Tasks.Writes.{written, stored, previous_state, save_task-eq-ok}
use aimem.Tasks.Consistent.{IsConsistent, IsRow, first, after, written-IsConsistent}

pub check_epic-same :
    (epic previous : Bytes) (db : Db) {u : Unit {0}} {db' : Db}
    → check_epic_assignable epic previous db ≡ ok (u, db')
    → db' ≡ db
unfolding check_epic_assignable
check_epic-same epic previous db h = ground arith

-- A task that is found is its row's snapshot with the team columns joined in.
pub find_task-row :
    (id : Bytes) (db : Db) {t : Task}
    → find_task id db ≡ some t
    → (row : TaskRow) × (lookup id db.tasks ≡ some row) × (stored t ≡ stored row.body)
unfolding find_task
find_task-row id db {t} h = elim (Option-cases (lookup id db.tasks)) [
  | inl e ↦ ground arith
  | inr (row, e) ↦ (row, e, ground arith)
]

module _ (p : Platform) where
  -- The task that CreateTask makes.
  abbrev pub created : TaskContent → Bytes → Bytes → Task
  created content new_id now = record {
    id = new_id;
    revision = 1;
    coordination = none;
    content = content;
    created_at = now;
    updated_at = now;
  }

  pub create_effect-eq-ok :
      (content : TaskContent) (actor : TaskActor) (new_id now : Bytes) (db : Db) {t : Task}
      {db' : Db}
      → create_effect p content actor new_id now db ≡ ok (t, db')
      → (t ≡ created content new_id now)
        × (db' ≡ written (created content new_id now) actor [] true db)
        × (lookup new_id db.tasks ≡ none)
  unfolding create_effect
  create_effect-eq-ok content actor new_id now db h =
      let (_, db₁, h₁, k₁) = bind_result-eq-ok (check_epic_assignable content.epic [] db) _ h in
      let (_, db₂, h₂, k₂) =
        bind_result-eq-ok (save_task (created content new_id now) actor true db₁) _ k₁ in
      ground (
        arith,
        check_epic-same content.epic [] db h₁,
        save_task-eq-ok (created content new_id now) actor true db₁ h₂,
      )

  -- An accepted update found the task at the expected revision, outside any active reservation,
  -- and wrote exactly its successor.
  pub update_effect-eq-ok :
      (id : Bytes) (content : TaskContent) (expected : ℕ) (actor : TaskActor) (now : Bytes)
      (db : Db) {t : Task} {db' : Db}
      → update_effect p id content expected actor now db ≡ ok (t, db')
      → (old : Task) × (find_task id db ≡ some old)
        × (old.revision ≡ expected)
        × (t ≡ next_revision old content now)
        × (db' ≡ written (stored t) actor (previous_state false (lookup old.id db.tasks)) false db)
  unfolding update_effect read_task
  update_effect-eq-ok id content expected actor now db {t} {db'} h =
      let (old, found, k₁) = from_option-then (find_task id db) not_found _ db h in
      let (current, k₂) =
        refuse_when-then _ db (not (old.revision == expected)) (task_conflict old) k₁ in
      let (_, db₁, h₃, k₃) =
        bind_result-eq-ok (check_epic_assignable content.epic old.content.epic db) _ k₂ in
      let (_, db₂, h₄, k₄) =
        bind_result-eq-ok (save_task (next_revision old content now) actor false db₁) _ k₃ in
      let same : db₁ ≡ db = check_epic-same content.epic old.content.epic db h₃ in
      let saved : db₂
          ≡ written (stored (next_revision old content now)) actor
              (previous_state false (lookup old.id db₁.tasks)) false db₁ =
        (save_task-eq-ok (next_revision old content now) actor false db₁ h₄).0 in
      (old, found, ground arith, ground arith, ground arith)

  -- CreateTask keeps the tables well-formed.
  pub create_effect-IsConsistent :
      (content : TaskContent) (actor : TaskActor) (new_id now : Bytes) (db : Db) {t : Task}
      {db' : Db}
      → IsConsistent db
      → create_effect p content actor new_id now db ≡ ok (t, db')
      → IsConsistent db'
  create_effect-IsConsistent content actor new_id now db good h =
      let (_, left, new) = create_effect-eq-ok content actor new_id now db h in
      rw left (
        written-IsConsistent (created content new_id now) actor [] true db good (first new refl)
          refl)

  -- What a write of an existing task found and leaves: the task at the expected revision, and the
  -- tables with its next one.
  abbrev pub Rewrites : Bytes → TaskContent → ℕ → TaskActor → Bytes → Db → Task → Db → Type 0
  Rewrites id content expected actor now db t db' =
      (old : Task) × (find_task id db ≡ some old)
      × (old.revision ≡ expected)
      × (t ≡ next_revision old content now)
      × (db' ≡ written (stored t) actor (previous_state false (lookup old.id db.tasks)) false db)

  pub Rewrites-IsConsistent :
      (id : Bytes) (content : TaskContent) (expected : ℕ) (actor : TaskActor) (now : Bytes)
      (db : Db) {t : Task} {db' : Db}
      → IsConsistent db
      → Rewrites id content expected actor now db t db'
      → IsConsistent db'
  Rewrites-IsConsistent id content expected actor now db {t} good
        (old, found, current, result, left) =
      let (row, e, same) = find_task-row id db found in
      let r : IsRow db.history id row = good.rows id row e in
      let own : t.id ≡ id = ground (arith, r.own_id) in
      rw left (
        written-IsConsistent (stored t) actor _ false db good (after row (rw own e) (ground arith))
          refl)

  pub Rewrites-read :
      (id : Bytes) (content : TaskContent) (expected : ℕ) (actor : TaskActor) (now : Bytes)
      (db : Db) {t : Task} {db' : Db}
      → IsConsistent db
      → Rewrites id content expected actor now db t db'
      → (j : Bytes) → find_task j db' ≡ (if str_eq id j then some t else find_task j db)
  unfolding find_task
  Rewrites-read id content expected actor now db {t} {db'} good (old, found, current, result, left)
        j =
      let (row, e, same) = find_task-row id db found in
      let r : IsRow db.history id row = good.rows id row e in
      let own : t.id ≡ id = ground (arith, r.own_id) in
      ground (
        arith,
        lookup-insert t.id j (row_of (stored t)) db.tasks,
        str_eq_iff t.id j,
        str_eq_iff id j,
      )

  -- UpdateTask keeps the tables well-formed.
  pub update_effect-IsConsistent :
      (id : Bytes) (content : TaskContent) (expected : ℕ) (actor : TaskActor) (now : Bytes)
      (db : Db) {t : Task} {db' : Db}
      → IsConsistent db
      → update_effect p id content expected actor now db ≡ ok (t, db')
      → IsConsistent db'
  update_effect-IsConsistent id content expected actor now db good h =
      Rewrites-IsConsistent id content expected actor now db good
        (update_effect-eq-ok id content expected actor now db h)

  -- A read after an accepted update is its result, and the other tasks read as before.
  pub update_effect_read :
      (id : Bytes) (content : TaskContent) (expected : ℕ) (actor : TaskActor) (now : Bytes)
      (db : Db) {t : Task} {db' : Db}
      → IsConsistent db
      → update_effect p id content expected actor now db ≡ ok (t, db')
      → (j : Bytes) → find_task j db' ≡ (if str_eq id j then some t else find_task j db)
  update_effect_read id content expected actor now db good h =
      Rewrites-read id content expected actor now db good
        (update_effect-eq-ok id content expected actor now db h)
