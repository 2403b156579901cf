-- ===== src/Locate/Created.antt =====
-- CreateTask of a registry's project (internal/store/tasks.go) with the hint that it leaves, which a
-- lookup right after it uses (internal/store/taskloc.go).
use aimem.Prelude.{
  ℕ, ◌≡◌, refl, sym, ap, ◌∙◌, true, false, List, some, Bytes, lookup, lookup-insert_self, is_some,
}
use mathlib.Core.Path.{subst}
use aimem.Text.{full_task_id}
use aimem.Task.{Task, TaskActor, TaskContent}
use aimem.Task.Content.{Platform}
use aimem.Error.{Result, ok, err}
use aimem.Db.{Db}
use aimem.Mutation.Fresh.{replayed, applied}
use aimem.Tasks.{with_default_state, find_task, row_of, create_task, create_replays}
use aimem.Tasks.Effects.{created, create_effect-eq-ok}
use aimem.Tasks.Accepted.{CreateAccepted, create_task-Accepted}
use aimem.Locate.{
  Projects, TaskHints, ScanAttempt, lives_in, locate_task, put, reset_at, task_hint_max, tables_of,
  by_hint,
}

-- What CreateTask leaves: its result, the tables and the hints; a put after a success, a replay too.
abbrev pub hinted : Db → TaskHints → Result (Task × Db) → Result Task × Db × TaskHints
hinted db h (ok (t, db')) = (ok t, db', put t.id db'.project_id h)
hinted db h (err e) = (err e, db, h)

-- A lookup of an id whose hint is true.
locate_task-put :
    (id project : Bytes) (tables : Db) (h : TaskHints) (ps : Projects) (attempts : List ScanAttempt)
    (at : ℕ)
    → full_task_id id ≡ true
    → is_some (find_task id tables) ≡ true
    → tables_of project ps ≡ some tables
    → locate_task ps attempts id at (put id project h) ≡ (lives_in project, put id project h)
unfolding locate_task by_hint put
locate_task-put id project tables h ps attempts at full found here =
    rw
      (full, lookup-insert_self id project (reset_at task_hint_max h.loc), here, found, locate_task)
      refl

module _ (p : Platform) where
  unfoldable pub create_hinted :
      TaskContent
      → TaskActor
      → Bytes
      → Bytes
      → Bytes
      → Db
      → TaskHints
      → Result Task × Db × TaskHints
  unfolding create_task put
  create_hinted content actor key new_id now db h =
      hinted db h (create_task p content actor key new_id now db)

  created-found :
      (content : TaskContent) (actor : TaskActor) (key new_id now : Bytes) (db : Db) {t : Task}
      {db' : Db}
      → create_replays p content actor key db ≡ false
      → CreateAccepted p content actor key new_id now db t db'
      → (t.id ≡ new_id) × (is_some (find_task new_id db') ≡ true)
  unfolding create_replays find_task
  created-found content actor key new_id now db new (replayed old _ _) = cc
  created-found content actor key new_id now db {t} {db'} new (applied a _ _ one) =
      let (made, left, _) =
        create_effect-eq-ok p (with_default_state content) actor new_id now db one.effect in
      let row : lookup new_id db'.tasks
          ≡ some (row_of (created p (with_default_state content) new_id now)) =
        ap (λ d. lookup new_id d.tasks) one.added
        ∙ ap (λ d. lookup new_id d.tasks) left
        ∙ lookup-insert_self new_id (row_of (created p (with_default_state content) new_id now))
            db.tasks in
      (ap (λ x. x.id) made, rw row refl)

  -- A lookup after a new CreateTask (no receipt of it is stored) that succeeded with a full id: where
  -- the project's tables are the ones it left, the lookup answers the project by the hint, without a
  -- scan and with the hints as they are.
  pub locate_task-create :
      (content : TaskContent) (actor : TaskActor) (key new_id now : Bytes) (db : Db) (h : TaskHints)
      (t : Task) (db' : Db) (h' : TaskHints) (ps : Projects) (attempts : List ScanAttempt) (at : ℕ)
      → create_replays p content actor key db ≡ false
      → full_task_id new_id ≡ true
      → create_hinted content actor key new_id now db h ≡ (ok t, db', h')
      → tables_of db'.project_id ps ≡ some db'
      → locate_task ps attempts t.id at h' ≡ (lives_in db'.project_id, h')
  unfolding create_hinted
  locate_task-create content actor key new_id now db h t db' h' ps attempts at new full e here =
      go (create_task p content actor key new_id now db) refl e
    where
      go :
          (r : Result (Task × Db))
          → create_task p content actor key new_id now db ≡ r
          → hinted db h r ≡ (ok t, db', h')
          → locate_task ps attempts t.id at h' ≡ (lives_in db'.project_id, h')
      go (err bad) ran e = cc
      go (ok (t₀, db₀)) ran e =
          let same_task : t₀ ≡ t = cc in
          let same_db : db₀ ≡ db' = cc in
          let accepted : CreateAccepted p content actor key new_id now db t₀ db₀ =
            create_task-Accepted p content actor key new_id now db ran in
          let (own, found) = created-found content actor key new_id now db new accepted in
          let hints : put t₀.id db₀.project_id h ≡ h' = cc in
          let same_hints : put t.id db'.project_id h ≡ h' = rw same_task at (rw same_db at hints) in
          let located : locate_task ps attempts t₀.id at (put t₀.id db₀.project_id h)
              ≡ (lives_in db₀.project_id, put t₀.id db₀.project_id h) =
            locate_task-put t₀.id db₀.project_id db₀ h ps attempts at (rw own full) (rw own found)
              (rw (sym same_db) at here) in
          subst (λ x. locate_task ps attempts t.id at x ≡ (lives_in db'.project_id, x)) same_hints
            (rw same_task at (rw same_db at located))
