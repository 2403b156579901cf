-- ===== src/Epics/Apart.antt =====
-- What the operations of internal/store/epics.go and addTaskComment of internal/store/tasks.go leave
-- alone: the tasks and the ledger.
use mathlib.Core.Path.{subst}
use aimem.Prelude.{
  arith, lookup, is_some, ℕ, ◌≡◌, refl, sym, ap, ◌∙◌, Bool, true, false, not, [], Bytes, bytes, ltb,
  ◌==◌,
}
use aimem.Text.{task_text, full_task_id}
use aimem.Json.{Value, str}
use aimem.Reason.{expected_revision}
use aimem.Task.{TaskActor, TaskComment, max_task_comment_bytes}
use aimem.Task.Content.{Platform, named}
use aimem.Epic.{Epic, EpicContent, with_default_state, validate_epic, epic_json}
use aimem.Error.{ok, invalid, not_found, archived, epic_not_found, epic_conflict}
use aimem.Db.{
  Db, Tx, pure, refuse_when-then, check_input-then, from_option-then, bind_result-eq-ok,
  reject_active_reservation,
}
use aimem.Mutation.{Codec, epic_codec, comment_codec, task_mutation}
use aimem.Mutation.Fresh.{OnlyReads, Accepted, replayed, applied, checked-Accepted}
use aimem.Tasks.{find_task, read_task, find_history, has_change}
use aimem.Tasks.Accepted.{pass-OnlyReads}
use aimem.Tasks.Consistent.{IsConsistent}
use aimem.Ledger.Kept.{Kept, same-Kept, unchanged-Kept, Applied-Kept}
use aimem.Epics.{
  put_epic, add_epic_history, save_epic, epic_of, read_epic, next_epic, insert_comment,
  epic_update_json, create_epic_effect, create_epic, update_epic_effect, update_epic,
  comment_effect, add_comment, add_task_comment, add_task_comment_unheld,
}

pub record IsApart (db db' : Db) : Type 0 where
  pub tasks : db'.tasks ≡ db.tasks
  pub history : db'.history ≡ db.history
  pub feed : db'.state_changes ≡ db.state_changes
  pub reservations : db'.reservations ≡ db.reservations
  pub managed : db'.managed ≡ db.managed
  pub attempts : db'.attempts ≡ db.attempts
  pub kept : Kept db db'

pub IsApart-refl : (db : Db) → IsApart db db
IsApart-refl db = record {
  tasks = refl;
  history = refl;
  feed = refl;
  reservations = refl;
  managed = refl;
  attempts = refl;
  kept = unchanged-Kept db db refl;
}

save_epic-IsApart :
    (e : Epic) (actor : TaskActor) (create : Bool) (db : Db) {u : Unit {0}} {db' : Db}
    → save_epic e actor create db ≡ ok (u, db')
    → IsApart db db'
unfolding save_epic put_epic add_epic_history
save_epic-IsApart e actor true db {u} {db'} h = record {
  tasks = ground (arith, h);
  history = ground (arith, h);
  feed = ground (arith, h);
  reservations = ground (arith, h);
  managed = ground (arith, h);
  attempts = ground (arith, h);
  kept = same-Kept db db' (ground (arith, h)) (ground (arith, h)) (ground (arith, h));
}
save_epic-IsApart e actor false db {u} {db'} h = record {
  tasks = ground (arith, h);
  history = ground (arith, h);
  feed = ground (arith, h);
  reservations = ground (arith, h);
  managed = ground (arith, h);
  attempts = ground (arith, h);
  kept = same-Kept db db' (ground (arith, h)) (ground (arith, h)) (ground (arith, h));
}

-- A mutation whose effect is apart is apart.
transaction-IsApart :
    {T : Type 0} ⦃c : Codec T⦄ (p : Platform) (actor : TaskActor) (op scope key : Bytes)
    (input : Value) (check : Tx (Unit {0})) (fn : Tx T) (db : Db) {out : T} {db' : Db}
    → ((mid : Db) → fn db ≡ ok (out, mid) → IsApart db mid)
    → Accepted p actor op scope key input check fn db out db'
    → IsApart db db'
transaction-IsApart p actor op scope key input check fn db f (replayed _ _ same) =
    rw same (IsApart-refl db)
transaction-IsApart p actor op scope key input check fn db f (applied a _ _ one) =
    let g : IsApart db one.after = f one.after one.effect in
    record {
      tasks = ap (λ d. d.tasks) one.added ∙ g.tasks;
      history = ap (λ d. d.history) one.added ∙ g.history;
      feed = ap (λ d. d.state_changes) one.added ∙ g.feed;
      reservations = ap (λ d. d.reservations) one.added ∙ g.reservations;
      managed = ap (λ d. d.managed) one.added ∙ g.managed;
      attempts = ap (λ d. d.attempts) one.added ∙ g.attempts;
      kept = Applied-Kept _ _ fn db one g.kept;
    }

module _ (p : Platform) where
  pub create_epic-IsApart :
      (content : EpicContent) (actor : TaskActor) (key new_id now : Bytes) (db : Db) {e : Epic}
      {db' : Db}
      → create_epic p content actor key new_id now db ≡ ok (e, db')
      → IsApart db db'
  unfolding create_epic task_mutation create_epic_effect
  create_epic-IsApart content actor key new_id now db {e} {db'} h =
      let made : Epic = record {
        id = new_id;
        revision = 1;
        content = with_default_state content;
        created_at = now;
        updated_at = now;
      } in
      let (valid, h₁) = check_input-then _ db (validate_epic p (with_default_state content)) h in
      transaction-IsApart p actor (bytes "epic-create") [] key
        (epic_json (with_default_state content)) (pure tt)
        (create_epic_effect p (with_default_state content) actor new_id now) db
        (λ mid x.
          let (_, db₁, h₂, k) = bind_result-eq-ok (save_epic made actor true db) _ x in
          let same : db₁ ≡ mid = cc in
          subst (IsApart db) same (save_epic-IsApart made actor true db h₂))
        (checked-Accepted p actor (bytes "epic-create") [] key
          (epic_json (with_default_state content)) (pure tt)
          (create_epic_effect p (with_default_state content) actor new_id now) db pass-OnlyReads h₁)

  pub update_epic-IsApart :
      (id : Bytes) (content : EpicContent) (expected : ℕ) (actor : TaskActor) (key now : Bytes)
      (db : Db) {e : Epic} {db' : Db}
      → update_epic p id content expected actor key now db ≡ ok (e, db')
      → IsApart db db'
  unfolding update_epic task_mutation update_epic_effect read_epic
  update_epic-IsApart id content expected actor key now db {e} {db'} h =
      let (named_id, h₁) = refuse_when-then _ db (not (full_task_id id)) epic_not_found h in
      let (positive, h₂) = refuse_when-then _ db (ltb expected 1) (invalid expected_revision) h₁ in
      let (valid, h₃) = check_input-then _ db (validate_epic p (with_default_state content)) h₂ in
      let input : Value = epic_update_json (with_default_state content) expected in
      let effect : Tx Epic =
        update_epic_effect p id (with_default_state content) expected actor now in
      transaction-IsApart p actor (bytes "epic-update") id key input (pure tt) effect db
        (λ mid x.
          let (old, found, k₁) =
            from_option-then (epic_of (lookup id db.epics)) epic_not_found _ db x in
          let (current, k₂) =
            refuse_when-then _ db (not (old.revision == expected)) (epic_conflict old) k₁ in
          let (_, db₁, h₄, k₃) =
            bind_result-eq-ok
              (save_epic (next_epic old (with_default_state content) now) actor false db) _ k₂ in
          let same : db₁ ≡ mid = cc in
          subst (IsApart db) same
            (save_epic-IsApart (next_epic old (with_default_state content) now) actor false db h₄))
        (checked-Accepted p actor (bytes "epic-update") id key input (pure tt) effect db
          pass-OnlyReads h₃)

  comment_effect-IsApart :
      (task body : Bytes) (actor : TaskActor) (new_id now : Bytes) (db : Db) {c : TaskComment}
      {db' : Db}
      → comment_effect p task body actor new_id now db ≡ ok (c, db')
      → IsApart db db'
  unfolding comment_effect read_task insert_comment
  comment_effect-IsApart task body actor new_id now db {c} {db'} h =
      let (t, found, k₁) = from_option-then (find_task task db) not_found _ db h in
      let (live, k₂) = refuse_when-then _ db t.content.archived archived k₁ in
      record {
        tasks = ground (arith, k₂);
        history = ground (arith, k₂);
        feed = ground (arith, k₂);
        reservations = ground (arith, k₂);
        managed = ground (arith, k₂);
        attempts = ground (arith, k₂);
        kept = same-Kept db db' (ground (arith, k₂)) (ground (arith, k₂)) (ground (arith, k₂));
      }

  add_comment-IsApart :
      (task body : Bytes) (actor : TaskActor) (key new_id now : Bytes) (check : Tx (Unit {0}))
      (db : Db) {c : TaskComment} {db' : Db}
      → OnlyReads check
      → add_comment p task body actor key new_id now check db ≡ ok (c, db')
      → IsApart db db'
  unfolding add_comment
  add_comment-IsApart task body actor key new_id now check db reads h =
      let (named_id, h₁) = refuse_when-then _ db (not (full_task_id task)) not_found h in
      let (valid, h₂) =
        check_input-then _ db
          (named (bytes "comment") (task_text p.refuses body max_task_comment_bytes true)) h₁ in
      transaction-IsApart p actor (bytes "comment") task key (str body) check
        (comment_effect p task body actor new_id now) db
        (λ mid x. comment_effect-IsApart task body actor new_id now db x)
        (checked-Accepted p actor (bytes "comment") task key (str body) check
          (comment_effect p task body actor new_id now) db reads h₂)

  pub add_task_comment-IsApart :
      (task body : Bytes) (actor : TaskActor) (key new_id now : Bytes) (db : Db) {c : TaskComment}
      {db' : Db}
      → add_task_comment p task body actor key new_id now db ≡ ok (c, db')
      → IsApart db db'
  unfolding add_task_comment
  add_task_comment-IsApart task body actor key new_id now db h =
      add_comment-IsApart task body actor key new_id now (pure tt) db pass-OnlyReads h

  reject-OnlyReads : (task : Bytes) → OnlyReads (reject_active_reservation task)
  unfolding reject_active_reservation
  reject-OnlyReads task db u mid h = ground (arith, h)

  pub add_task_comment_unheld-IsApart :
      (task body : Bytes) (actor : TaskActor) (key new_id now : Bytes) (db : Db) {c : TaskComment}
      {db' : Db}
      → add_task_comment_unheld p task body actor key new_id now db ≡ ok (c, db')
      → IsApart db db'
  unfolding add_task_comment_unheld
  add_task_comment_unheld-IsApart task body actor key new_id now db h =
      add_comment-IsApart task body actor key new_id now (reject_active_reservation task) db
        (reject-OnlyReads task) h

pub IsApart-IsConsistent : (db db' : Db) → IsApart db db' → IsConsistent db → IsConsistent db'
IsApart-IsConsistent db db' a good = record {
  rows = λ id row h. rw (a.history) (good.rows id row (ap (lookup id) (sym a.tasks) ∙ h));
  complete = λ id row r h low high.
      rw (a.history) (good.complete id row r (ap (lookup id) (sym a.tasks) ∙ h) low high);
  bounded = λ id r h.
      rw (a.tasks)
        (good.bounded id r (ap (λ hs. is_some (find_history id r hs)) (sym a.history) ∙ h));
  feed_bounded =
      λ id r h. rw (a.tasks) (good.feed_bounded id r (ap (has_change id r) (sym a.feed) ∙ h));
}

pub IsApart-find_task :
    (j : Bytes) (db db' : Db) → IsApart db db' → find_task j db' ≡ find_task j db
unfolding find_task
IsApart-find_task j db db' a = rw (a.tasks, a.managed, a.attempts) refl
