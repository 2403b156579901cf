-- ===== src/Locate/Homes.antt =====
-- Where an answer of LocateTask (internal/store/taskloc.go) was seen, whatever the hints hold.
use aimem.Prelude.{
  ◌⊎◌, if-cases, ℕ, ◌≡◌, refl, sym, ap, ◌∙◌, Bool, true, false, not, ◌&&◌, ◌||◌, List, [], ◌∷◌,
  Option, none, some, Bytes, str_eq, str_eq_iff, if◌then◌else◌, lookup, arith, Bool-cases, inl, inr,
}
use aimem.Text.{full_task_id}
use aimem.Db.{is_reserved_project}
use aimem.Locate.{
  TaskHints, forget, missed, Located, lives_in, missing, incomplete, ScanAttempt, Projects,
  remember, scan, scan_from, scan_attempts, after_miss, by_hint, locate_task, holds_task,
  is_closed_project, tables_of,
}

-- The project holds the task.
unfoldable pub is_home : Bytes → Bytes → Projects → Bool
is_home id p [] = false
is_home id p ((q, tables) ∷ ps) = (str_eq q p && holds_task id tables) || is_home id p ps

module _ (id : Bytes) (now : ℕ) where
  scan-is_home :
      (b : Bool) (p : Bytes) (ps : Projects)
      → scan_from b ps id ≡ lives_in p
      → is_home id p ps ≡ true
  unfolding scan_from is_home
  scan-is_home true p [] h = cc
  scan-is_home false p [] h = cc
  scan-is_home b p ((q, t) ∷ ps) h =
      let next : Located = scan_from (b || is_closed_project t) ps id in
      elim (if-cases (is_reserved_project q) (scan_from b ps id)
        (if holds_task id t then lives_in q else next) h) [
          | inl (reserved, x) ↦ ground (arith, scan-is_home b p ps x)
          | inr (ordinary, x) ↦ elim (if-cases (holds_task id t) (lives_in q) next x) [
            | inl (here, y) ↦ let same : q ≡ p = cc in ground (arith, here, (str_eq_iff q p).1 same)
            | inr (other, y) ↦ ground (arith, scan-is_home (b || is_closed_project t) p ps y)
          ]
        ]

  hint-is_home :
      (p : Bytes) (ps : Projects) → holds_task id (tables_of p ps) ≡ true → is_home id p ps ≡ true
  unfolding is_home lookup
  hint-is_home p [] h = cc
  hint-is_home p ((q, t) ∷ ps) h = ground (arith, h, hint-is_home p ps)

  -- In one of the hubs that the lookup saw.
  abbrev pub seen_home : Bytes → List ScanAttempt → Bool
  seen_home p [] = false
  seen_home p (a ∷ rest) = is_home id p a.projects || seen_home p rest

  remember-answer : (l : Located) (h : TaskHints) → (remember id now l h).0 ≡ l
  unfolding remember
  remember-answer (lives_in p) h = refl
  remember-answer missing h = refl
  remember-answer incomplete h = refl

  -- An answer other than the start of the loop is of a hub that was seen.
  scan_attempts-seen :
      (attempts : List ScanAttempt) (last : Located) (h : TaskHints) (p : Bytes)
      → (scan_attempts attempts id now last h).0 ≡ lives_in p
      → (last ≡ lives_in p) ⊎ (seen_home p attempts ≡ true)
  unfolding scan_attempts
  scan_attempts-seen [] last h p e = inl e
  scan_attempts-seen (a ∷ rest) last h p e = elim (Bool-cases a.moved) [
    | inl moved ↦
        go_on moved
          (scan_attempts-seen rest (scan a.projects id) h p (ap (λ r. r.0) (sym (again moved)) ∙ e))
    | inr still ↦ inr (in_first (ap (λ r. r.0) (sym (done still)) ∙ e))
  ]
    where
      again :
          a.moved ≡ true
          → scan_attempts (a ∷ rest) id now last h
            ≡ scan_attempts rest id now (scan a.projects id) h
      again moved = rw moved refl

      done :
          a.moved ≡ false
          → scan_attempts (a ∷ rest) id now last h ≡ remember id now (scan a.projects id) h
      done still = rw still refl

      in_first :
          (remember id now (scan a.projects id) h).0 ≡ lives_in p → seen_home p (a ∷ rest) ≡ true
      in_first x = ground (
        arith,
        scan-is_home false p a.projects (sym (remember-answer (scan a.projects id) h) ∙ x),
      )

      go_on :
          a.moved ≡ true
          → ((scan a.projects id ≡ lives_in p) ⊎ (seen_home p rest ≡ true))
          → (last ≡ lives_in p) ⊎ (seen_home p (a ∷ rest) ≡ true)
      go_on moved (inl x) = inr (ground (arith, scan-is_home false p a.projects x))
      go_on moved (inr y) = inr (ground (arith, y))

  after_miss-seen :
      (attempts : List ScanAttempt) (m : Bool × TaskHints) (p : Bytes)
      → (after_miss attempts id now m).0 ≡ lives_in p
      → seen_home p attempts ≡ true
  unfolding after_miss
  after_miss-seen attempts (true, h) p e = cc
  after_miss-seen attempts (false, h) p e = elim (scan_attempts-seen attempts missing h p e) [
    | inl x ↦ cc
    | inr y ↦ y
  ]

  by_hint-seen :
      (ps : Projects) (attempts : List ScanAttempt) (o : Option Bytes) (h : TaskHints) (p : Bytes)
      → (by_hint ps attempts id now o h).0 ≡ lives_in p
      → (is_home id p ps || seen_home p attempts) ≡ true
  unfolding by_hint
  by_hint-seen ps attempts none h p e =
      ground (arith, after_miss-seen attempts (missed id now h) p e)
  by_hint-seen ps attempts (some q) h p e = go (Bool-cases (holds_task id (tables_of q ps)))
    where
      kept :
          holds_task id (tables_of q ps) ≡ true
          → by_hint ps attempts id now (some q) h ≡ (lives_in q, h)
      kept here = rw here refl

      dropped :
          holds_task id (tables_of q ps) ≡ false
          → by_hint ps attempts id now (some q) h
            ≡ after_miss attempts id now (missed id now (forget id h))
      dropped gone = rw gone refl

      go :
          ((holds_task id (tables_of q ps) ≡ true) ⊎ (holds_task id (tables_of q ps) ≡ false))
          → (is_home id p ps || seen_home p attempts) ≡ true
      go (inl here) =
          let x : lives_in q ≡ lives_in p = ap (λ r. r.0) (sym (kept here)) ∙ e in
          let same : q ≡ p = cc in
          ground (arith, ap (λ z. is_home id z ps) (sym same) ∙ hint-is_home q ps here)
      go (inr gone) = ground (
        arith,
        after_miss-seen attempts (missed id now (forget id h)) p
            (ap (λ r. r.0) (sym (dropped gone)) ∙ e),
      )

  -- A project that a lookup answers held the task when the lookup began or in one of its scans, whatever
  -- the hints and the attempts were.
  pub locate_task-is_home :
      (ps : Projects) (attempts : List ScanAttempt) (h : TaskHints) (p : Bytes)
      → (locate_task ps attempts id now h).0 ≡ lives_in p
      → (is_home id p ps || seen_home p attempts) ≡ true
  unfolding locate_task
  locate_task-is_home ps attempts h p e = go (Bool-cases (not (full_task_id id)))
    where
      malformed : not (full_task_id id) ≡ true → locate_task ps attempts id now h ≡ (missing, h)
      malformed other = rw other refl

      looked_up :
          not (full_task_id id) ≡ false
          → locate_task ps attempts id now h ≡ by_hint ps attempts id now (lookup id h.loc) h
      looked_up full = rw full refl

      go :
          ((not (full_task_id id) ≡ true) ⊎ (not (full_task_id id) ≡ false))
          → (is_home id p ps || seen_home p attempts) ≡ true
      go (inl other) =
          let x : missing ≡ lives_in p = ap (λ r. r.0) (sym (malformed other)) ∙ e in cc
      go (inr full) =
          by_hint-seen ps attempts (lookup id h.loc) h p (ap (λ r. r.0) (sym (looked_up full)) ∙ e)
