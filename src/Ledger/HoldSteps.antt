-- ===== src/Ledger/HoldSteps.antt =====
-- The hold of a task under one transition of the ledger (advanceReservation of
-- internal/store/task_reservations.go): it stays, or takes the next fence.
use aimem.Prelude.{
  ℕ, ◌+◌, ◌≤◌, ◌≡◌, refl, ap, ◌∙◌, true, ◌⊎◌, inl, inr, Bytes, str_eq, str_eq_iff, str_eq_refl,
  lookup, arith, Bool-cases, Option-cases,
}
use aimem.Db.{Db}
use aimem.Reservation.{TaskReservation}
use aimem.Ledger.{find_hold}
use aimem.Ledger.Fence.{Advances, read_back}

-- The fence that a task's next transition will pass.
unfoldable pub fence_of : Bytes → Db → ℕ
fence_of task db = (find_hold task 0 db).fence

-- What a step does to a task's hold: nothing, or a next fence.
unfoldable pub HoldStep : Bytes → Db → Db → Type 0
HoldStep j db db' =
    ((rev : ℕ) → find_hold j rev db' ≡ find_hold j rev db) ⊎ (fence_of j db' ≡ fence_of j db + 1)

pub same-HoldStep :
    (j : Bytes) (db db' : Db) → db'.reservations ≡ db.reservations → HoldStep j db db'
unfolding HoldStep find_hold
same-HoldStep j db db' same = inl (λ rev. rw same refl)

pub fence-any :
    (task : Bytes) (rev : ℕ) (db : Db) → (find_hold task rev db).fence ≡ fence_of task db
unfolding fence_of find_hold
fence-any task rev db = elim (Option-cases (lookup task db.reservations)) [
  | inl e ↦ ground arith
  | inr (row, e) ↦ ground arith
]

pub Advances-fence :
    (j task : Bytes) (rev : ℕ) (db : Db) (after : TaskReservation) (db' : Db)
    → Advances task rev db after db'
    → str_eq task j ≡ true
    → fence_of j db' ≡ fence_of j db + 1
unfolding fence_of
Advances-fence j task rev db after db' a hit =
    let own : task ≡ j = (str_eq_iff task j).0 hit in
    let read : find_hold j 0 db' ≡ record (read_back after) { task_revision = 0 } =
      a.reads j 0 ∙ rw hit refl in
    let before : (find_hold task rev db).fence ≡ (find_hold j 0 db).fence =
      fence-any task rev db ∙ ap (λ k. fence_of k db) own in
    ap (λ r. r.fence) read ∙ a.next_fence ∙ ap (λ n. n + 1) before

pub Advances-HoldStep :
    (j task : Bytes) (rev : ℕ) (db : Db) (after : TaskReservation) (db' : Db)
    → Advances task rev db after db'
    → HoldStep j db db'
unfolding HoldStep
Advances-HoldStep j task rev db after db' a = elim (Bool-cases (str_eq task j)) [
  | inl hit ↦ inr (Advances-fence j task rev db after db' a hit)
  | inr miss ↦ inl (λ rev'. a.reads j rev' ∙ rw miss refl)
]

pub HoldStep-fence : (j : Bytes) (db db' : Db) → HoldStep j db db' → fence_of j db ≤ fence_of j db'
unfolding HoldStep fence_of
HoldStep-fence j db db' (inl same) = ground (arith, same 0)
HoldStep-fence j db db' (inr next) = omega arith

-- An advanced hold shows its own fence.
pub Advances-own :
    (task : Bytes) (rev : ℕ) (db : Db) (after : TaskReservation) (db' : Db)
    → Advances task rev db after db'
    → fence_of task db' ≡ after.fence
unfolding fence_of
Advances-own task rev db after db' a =
    let read : find_hold task 0 db' ≡ record (read_back after) { task_revision = 0 } =
      a.reads task 0 ∙ rw (str_eq_refl task) refl in
    ap (λ r. r.fence) read
