-- ===== src/Tasks/Consistent.antt =====
-- The well-formedness of the task tables (`saveTask` of internal/store/tasks.go): the filter columns
-- repeat the snapshot, and the history holds every revision of a task and nothing beyond.
use aimem.Prelude.{
  ℕ, ◌≤◌, ◌+◌, ◌≡◌, refl, ◌⊎◌, inl, inr, Bool, true, false, List, Option, none, some, Bytes, str_eq,
  str_eq_iff, if◌then◌else◌, lookup, lookup-insert, is_some, arith, Bool-cases, ◌==◌, ◌&&◌,
}
use aimem.Task.{Task, TaskActor}
use aimem.Db.{TaskRow, HistoryRow, Receipt, Db}
use aimem.Tasks.{find_history, has_change, row_of}
use aimem.Tasks.Writes.{history_row, written}

-- A row under its id: columns, identity, nothing projected, and the history row of its revision.
pub record IsRow (history : List HistoryRow) (id : Bytes) (row : TaskRow) : Type 0 where
  pub columns : row ≡ row_of row.body
  pub own_id : row.body.id ≡ id
  pub unprojected : row.body.coordination ≡ none
  pub author : TaskActor
  pub recorded : find_history id row.body.revision history ≡ some (history_row row.body author)

pub record IsConsistent (db : Db) : Type 0 where
  pub rows : (id : Bytes) (row : TaskRow) → lookup id db.tasks ≡ some row → IsRow db.history id row
  -- Every revision from 1 to the current one is recorded.
  pub complete :
      (id : Bytes) (row : TaskRow) (r : ℕ)
      → lookup id db.tasks ≡ some row
      → 1 ≤ r
      → r ≤ row.body.revision
      → is_some (find_history id r db.history) ≡ true
  pub bounded :
      (id : Bytes) (r : ℕ)
      → is_some (find_history id r db.history) ≡ true
      → (row : TaskRow) × (lookup id db.tasks ≡ some row) × (r ≤ row.body.revision)
  pub feed_bounded :
      (id : Bytes) (r : ℕ)
      → has_change id r db.state_changes ≡ true
      → (row : TaskRow) × (lookup id db.tasks ≡ some row) × (r ≤ row.body.revision)

-- The other tables do not matter.
pub IsConsistent-requests :
    (db : Db) (rs : List Receipt) → IsConsistent db → IsConsistent (record db { requests = rs })
IsConsistent-requests db rs good = record {
  rows = good.rows;
  complete = good.complete;
  bounded = good.bounded;
  feed_bounded = good.feed_bounded;
}

-- `t` is a first revision under a new id, or the revision after the current one.
pub data Follows (t : Task) (current : Option TaskRow) : Type 0 where
  first : current ≡ none → t.revision ≡ 1 → Follows t current
  after :
      (row : TaskRow) → current ≡ some row → t.revision ≡ row.body.revision + 1 → Follows t current

module _ (t : Task) (actor : TaskActor) (from : Bytes) (create : Bool) (db : Db)
    (ok : IsConsistent db) (follows : Follows t (lookup t.id db.tasks))
    (plain : t.coordination ≡ none) where
  abbrev next : Db
  next = written t actor from create db

  find-written :
      (id : Bytes) (r : ℕ)
      → find_history id r next.history ≡ (
          if str_eq t.id id && t.revision == r
          then some (history_row t actor)
          else find_history id r db.history)
  unfolding find_history
  find-written id r = refl

  lookup-written :
      (id : Bytes)
      → lookup id next.tasks ≡ (if str_eq t.id id then some (row_of t) else lookup id db.tasks)
  lookup-written id = lookup-insert t.id id (row_of t) db.tasks

  -- The row under the written id is the new one, and the others are the old ones.
  lookup-written_cases :
      (id : Bytes) {row : TaskRow}
      → lookup id next.tasks ≡ some row
      → ((str_eq t.id id ≡ true) × (row ≡ row_of t))
        ⊎ ((str_eq t.id id ≡ false) × (lookup id db.tasks ≡ some row))
  lookup-written_cases id h = ground (arith, lookup-written id)

  rows-written :
      (id : Bytes) (row : TaskRow) → lookup id next.tasks ≡ some row → IsRow next.history id row
  rows-written id row h = elim (lookup-written_cases id h) [
    | inl (same, new) ↦ record {
      columns = ground arith;
      own_id = ground (arith, str_eq_iff t.id id);
      unprojected = ground arith;
      author = actor;
      recorded = ground (arith, find-written id row.body.revision);
    }
    | inr (other, old) ↦
        let was : IsRow db.history id row = ok.rows id row old in
        record {
          columns = was.columns;
          own_id = was.own_id;
          unprojected = was.unprojected;
          author = was.author;
          recorded = ground (arith, find-written id row.body.revision, was.recorded);
        }
  ]

  -- The revision just before the new one is the current one, or 0.
  pred_recorded :
      (id : Bytes) (r : ℕ)
      → str_eq t.id id ≡ true
      → 1 ≤ r
      → r ≤ t.revision
      → (r ≡ t.revision)
        ⊎ ((row : TaskRow) × (lookup id db.tasks ≡ some row) × (r ≤ row.body.revision))
  pred_recorded id r same low high = go follows
    where
      own : t.id ≡ id
      own = (str_eq_iff t.id id).0 same

      go :
          Follows t (lookup t.id db.tasks)
          → (r ≡ t.revision)
            ⊎ ((row : TaskRow) × (lookup id db.tasks ≡ some row) × (r ≤ row.body.revision))
      go (first e one) = inl (omega arith)
      go (after row e step) = elim (Bool-cases (r == t.revision)) [
        | inl same ↦ inl (ground arith)
        | inr less ↦ inr (row, rw (← own) e, ground arith)
      ]

  complete-written :
      (id : Bytes) (row : TaskRow) (r : ℕ)
      → lookup id next.tasks ≡ some row
      → 1 ≤ r
      → r ≤ row.body.revision
      → is_some (find_history id r next.history) ≡ true
  complete-written id row r h low high = elim (lookup-written_cases id h) [
    | inl (same, new) ↦ elim (pred_recorded id r same low (ground arith)) [
      | inl now ↦ ground (arith, find-written id r)
      | inr (old, e, le) ↦ ground (arith, find-written id r, ok.complete id old r e low le)
    ]
    | inr (other, old) ↦ ground (arith, find-written id r, ok.complete id row r old low high)
  ]

  -- A current row grows: its successor has at least its revision.
  grows :
      (id : Bytes) (row : TaskRow) (r : ℕ)
      → lookup id db.tasks ≡ some row
      → r ≤ row.body.revision
      → (new : TaskRow) × (lookup id next.tasks ≡ some new) × (r ≤ new.body.revision)
  grows id row r e le = elim (Bool-cases (str_eq t.id id)) [
    | inl same ↦ (row_of t, rw lookup-written (rw same), go same follows)
    | inr other ↦ (row, rw lookup-written (rw other e), le)
  ]
    where
      go : str_eq t.id id ≡ true → Follows t (lookup t.id db.tasks) → r ≤ t.revision
      go same (first f one) = ground (arith, str_eq_iff t.id id)
      go same (after old f step) = ground (arith, str_eq_iff t.id id)

  bounded-written :
      (id : Bytes) (r : ℕ)
      → is_some (find_history id r next.history) ≡ true
      → (row : TaskRow) × (lookup id next.tasks ≡ some row) × (r ≤ row.body.revision)
  bounded-written id r h = elim (Bool-cases (str_eq t.id id && t.revision == r)) [
    | inl new ↦ (row_of t, rw lookup-written (ground arith), ground arith)
    | inr old ↦
        let (row, e, le) = ok.bounded id r (ground (arith, find-written id r)) in
        grows id row r e le
  ]

  feed-written :
      (id : Bytes) (r : ℕ)
      → has_change id r next.state_changes ≡ true
      → ((str_eq t.id id ≡ true) × (r ≡ t.revision)) ⊎ (has_change id r db.state_changes ≡ true)
  unfolding has_change
  feed-written id r h = ground arith

  feed_bounded-written :
      (id : Bytes) (r : ℕ)
      → has_change id r next.state_changes ≡ true
      → (row : TaskRow) × (lookup id next.tasks ≡ some row) × (r ≤ row.body.revision)
  feed_bounded-written id r h = elim (feed-written id r h) [
    | inl (same, now) ↦ (row_of t, rw lookup-written (rw same), ground arith)
    | inr old ↦ let (row, e, le) = ok.feed_bounded id r old in grows id row r e le
  ]

  pub written-IsConsistent : IsConsistent next
  written-IsConsistent = record {
    rows = rows-written;
    complete = complete-written;
    bounded = bounded-written;
    feed_bounded = feed_bounded-written;
  }
