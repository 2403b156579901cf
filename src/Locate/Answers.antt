-- ===== src/Locate/Answers.antt =====
-- The answers of LocateTask (internal/store/taskloc.go) against a scan of every project.
use aimem.Prelude.{
  ℕ, ◌+◌, ◌≤◌, ◌<◌, ◌≡◌, refl, sym, Bool, true, false, not, ◌&&◌, ◌||◌, List, [], ◌∷◌, Option, none,
  some, Bytes, str_eq_iff, ltb, leb, ◌==◌, length, lookup, insert, arith, Bool-cases, inl, inr,
}
use aimem.Text.{full_task_id}
use aimem.Db.{is_reserved_project}
use aimem.Locate.{
  task_miss_max, task_miss_ttl, TaskHints, remove, unvoided, put, forget, missed_at, missed,
  note_miss, Located, lives_in, missing, incomplete, ScanAttempt, Projects, remember, scan,
  scan_from, scan_attempts, after_miss, by_hint, locate_task, holds_task, is_closed_project,
  tables_of,
}

abbrev pub bit : Bool → ℕ
bit true = 1
bit false = 0

-- How many projects hold the task, and whether a reserved one does.
unfoldable pub holders : Bytes → Projects → ℕ
holders id [] = 0
holders id ((p, tables) ∷ ps) = bit (holds_task id tables) + holders id ps

unfoldable pub held_reserved : Bytes → Projects → Bool
held_reserved id [] = false
held_reserved id ((p, tables) ∷ ps) =
    (is_reserved_project p && holds_task id tables) || held_reserved id ps

unfoldable pub readable : Projects → Bool
readable [] = true
readable ((p, tables) ∷ ps) = not (is_closed_project tables) && readable ps

-- The misses of full ids are true: no project holds the task.
unfoldable pub misses_true : Projects → List (Bytes × ℕ) → Bool
unfolding holders
misses_true ps [] = true
misses_true ps ((k, seen) ∷ m) = (not (full_task_id k) || (holders k ps == 0)) && misses_true ps m

module _ (id : Bytes) where
  holders-hint :
      (p : Bytes) (ps : Projects) → holds_task id (tables_of p ps) ≡ true → 0 < holders id ps
  unfolding holders lookup
  holders-hint p [] h = cc
  holders-hint p ((q, t) ∷ ps) h = ground (arith, h, holders-hint p ps)

  -- A project that holds the task is the one that the scan finds.
  scan-hint :
      (p : Bytes) (b : Bool) (ps : Projects)
      → holders id ps ≤ 1
      → held_reserved id ps ≡ false
      → holds_task id (tables_of p ps) ≡ true
      → scan_from b ps id ≡ lives_in p
  unfolding scan_from holders held_reserved lookup
  scan-hint p b [] one res h = cc
  scan-hint p b ((q, t) ∷ ps) one res h = ground (
    arith,
    one,
    res,
    h,
    str_eq_iff q p,
    holders-hint p ps,
    scan-hint p b ps,
    scan-hint p (b || is_closed_project t) ps,
  )

  scan-none :
      (ps : Projects) → readable ps ≡ true → holders id ps ≡ 0 → scan_from false ps id ≡ missing
  unfolding scan_from holders readable
  scan-none [] r h = refl
  scan-none ((q, t) ∷ ps) r h = ground (arith, r, h, scan-none ps)

  never_missing : (ps : Projects) → ¬ (scan_from true ps id ≡ missing)
  unfolding scan_from
  never_missing [] h = cc
  never_missing ((q, t) ∷ ps) h = ground (arith, h, never_missing ps)

  -- What the scan says of a readable hub is true.
  none-scan :
      (ps : Projects)
      → held_reserved id ps ≡ false
      → scan_from false ps id ≡ missing
      → holders id ps ≡ 0
  unfolding scan_from holders held_reserved
  none-scan [] r h = refl
  none-scan ((q, t) ∷ ps) r h = ground (arith, r, h, none-scan ps, never_missing ps)

misses_true-lookup :
    (ps : Projects) (m : List (Bytes × ℕ)) (id : Bytes) (seen : ℕ)
    → full_task_id id ≡ true
    → misses_true ps m ≡ true
    → lookup id m ≡ some seen
    → holders id ps ≡ 0
unfolding misses_true lookup
misses_true-lookup ps [] id seen f t h = cc
misses_true-lookup ps ((k, s) ∷ m) id seen f t h =
    ground (arith, f, t, h, str_eq_iff k id, misses_true-lookup ps m id seen)

misses_true-remove :
    (ps : Projects) (m : List (Bytes × ℕ)) (id : Bytes)
    → misses_true ps m ≡ true
    → misses_true ps (remove id m) ≡ true
unfolding misses_true remove
misses_true-remove ps [] id t = refl
misses_true-remove ps ((k, s) ∷ m) id t = ground (arith, t, misses_true-remove ps m id)

misses_true-unvoided :
    (ps : Projects) (m : List (Bytes × ℕ)) (id : Bytes)
    → misses_true ps m ≡ true
    → misses_true ps (unvoided id m) ≡ true
unfolding misses_true unvoided
misses_true-unvoided ps [] id t = refl
misses_true-unvoided ps ((k, s) ∷ m) id t = ground (arith, t, misses_true-unvoided ps m id)

misses_true-insert :
    (ps : Projects) (m : List (Bytes × ℕ)) (id : Bytes) (now : ℕ)
    → holders id ps ≡ 0
    → misses_true ps m ≡ true
    → misses_true ps (insert id now m) ≡ true
unfolding misses_true insert
misses_true-insert ps [] id now none_holds t = ground (arith, none_holds)
misses_true-insert ps ((k, s) ∷ m) id now none_holds t =
    ground (arith, none_holds, t, misses_true-insert ps m id now none_holds)

empty_true : (ps : Projects) → misses_true ps [] ≡ true
unfolding misses_true
empty_true ps = refl

module _ (ps : Projects) (id : Bytes) (now : ℕ) where
  -- The answer of a scan, and hints that are still true.
  Right : Located × TaskHints → Type 0
  Right r = (r.0 ≡ scan ps id) × (misses_true ps r.1.miss ≡ true)

  remember-Right :
      (l : Located) (h : TaskHints)
      → held_reserved id ps ≡ false
      → scan ps id ≡ l
      → misses_true ps h.miss ≡ true
      → Right (remember id now l h)
  unfolding Right remember put note_miss
  remember-Right (lives_in p) h res e t = (sym e, misses_true-unvoided ps h.miss id t)
  remember-Right incomplete h res e t = (sym e, t)
  remember-Right missing h res e t = (
    sym e,
    elim (Bool-cases (leb task_miss_max (length h.miss))) [
      | inl full ↦ rw full (misses_true-insert ps [] id now (none-scan id ps res e) (empty_true ps))
      | inr room ↦ rw room (misses_true-insert ps h.miss id now (none-scan id ps res e) t)
    ],
  )

  missed_at-true :
      (o : Option ℕ) (h : TaskHints)
      → misses_true ps h.miss ≡ true
      → misses_true ps (missed_at id now o h).1.miss ≡ true
  unfolding missed_at
  missed_at-true none h t = t
  missed_at-true (some seen) h t = elim (Bool-cases (ltb (seen + task_miss_ttl) now)) [
    | inl old ↦ rw old (misses_true-remove ps h.miss id t)
    | inr fresh ↦ rw fresh t
  ]

  missed_at-some :
      (o : Option ℕ) (h : TaskHints)
      → (missed_at id now o h).0 ≡ true
      → (seen : ℕ) × (o ≡ some seen)
  unfolding missed_at
  missed_at-some none h e = cc
  missed_at-some (some seen) h e = (seen, refl)

  after_miss-Right :
      (rest : List ScanAttempt) (m : Bool × TaskHints)
      → readable ps ≡ true
      → held_reserved id ps ≡ false
      → (m.0 ≡ true → holders id ps ≡ 0)
      → misses_true ps m.1.miss ≡ true
      → Right (after_miss (record { projects = ps; moved = false } ∷ rest) id now m)
  unfolding Right after_miss scan_attempts
  after_miss-Right rest (true, h) r res none_holds t =
      (sym (scan-none id ps r (none_holds refl)), t)
  after_miss-Right rest (false, h) r res none_holds t = remember-Right (scan ps id) h res refl t

  by_hint-Right :
      (rest : List ScanAttempt) (o : Option Bytes) (h : TaskHints)
      → full_task_id id ≡ true
      → readable ps ≡ true
      → holders id ps ≤ 1
      → held_reserved id ps ≡ false
      → misses_true ps h.miss ≡ true
      → Right (by_hint ps (record { projects = ps; moved = false } ∷ rest) id now o h)
  unfolding Right by_hint missed forget
  by_hint-Right rest none h f r one res t =
      after_miss-Right rest (missed_at id now (lookup id h.miss) h) r res
        (λ e.
          let (seen, x) = missed_at-some (lookup id h.miss) h e in
          misses_true-lookup ps h.miss id seen f t x)
        (missed_at-true (lookup id h.miss) h t)
  by_hint-Right rest (some p) h f r one res t = elim (Bool-cases (holds_task id (tables_of p ps))) [
    | inl here ↦ rw here (sym (scan-hint id p false ps one res here), t)
    | inr gone ↦ rw gone (
        after_miss-Right rest (missed_at id now (lookup id h.miss) (forget id h)) r res
          (λ e.
            let (seen, x) = missed_at-some (lookup id h.miss) (forget id h) e in
            misses_true-lookup ps h.miss id seen f t x)
          (missed_at-true (lookup id h.miss) (forget id h) t))
  ]

  -- On readable projects of which at most one, an ordinary one, holds the task, with remembered misses
  -- that are true, a lookup of a full id answers as a scan of every project, whatever the hints say of
  -- its place; and the misses are true after it.
  pub locate_task-scan :
      (rest : List ScanAttempt) (h : TaskHints)
      → full_task_id id ≡ true
      → readable ps ≡ true
      → holders id ps ≤ 1
      → held_reserved id ps ≡ false
      → misses_true ps h.miss ≡ true
      → ((locate_task ps (record { projects = ps; moved = false } ∷ rest) id now h).0 ≡ scan ps id)
        × (misses_true ps
              (locate_task ps (record { projects = ps; moved = false } ∷ rest) id now h).1.miss
            ≡ true)
  unfolding locate_task Right
  locate_task-scan rest h f r one res t =
      rw f (by_hint-Right rest (lookup id h.loc) h f r one res t)
