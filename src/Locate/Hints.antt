-- ===== src/Locate/Hints.antt =====
-- The size of the hints (internal/store/taskloc.go).
use aimem.Prelude.{
  ℕ, suc, ◌+◌, ◌≤◌, ◌<◌, Bool, true, false, not, List, [], ◌∷◌, Option, none, some, Bytes, ltb, leb,
  if◌then◌else◌, length, lookup, insert, arith, Bool-cases, inl, inr,
}
use aimem.Text.{full_task_id}
use aimem.Locate.{
  task_hint_max, task_miss_max, task_miss_ttl, TaskHints, remove, unvoided, put, forget, missed_at,
  missed, note_miss, Located, lives_in, missing, incomplete, ScanAttempt, Projects, remember, scan,
  scan_attempts, after_miss, by_hint, locate_task, holds_task, tables_of,
}

-- No map of the hints is over its limit.
pub record IsBounded (h : TaskHints) : Type 0 where
  pub few_found : length h.loc ≤ task_hint_max
  pub few_missed : length h.miss ≤ task_miss_max

length-insert :
    {V : Type 0} (k : Bytes) (v : V) (m : List (Bytes × V)) → length (insert k v m) ≤ suc (length m)
unfolding insert
length-insert k v [] = omega arith
length-insert k v ((j, w) ∷ m) = ground (arith, length-insert k v m)

length-remove : {V : Type 0} (k : Bytes) (m : List (Bytes × V)) → length (remove k m) ≤ length m
unfolding remove
length-remove k [] = omega arith
length-remove k ((j, w) ∷ m) = ground (arith, length-remove k m)

length-unvoided : (id : Bytes) (m : List (Bytes × ℕ)) → length (unvoided id m) ≤ length m
unfolding unvoided
length-unvoided id [] = omega arith
length-unvoided id ((k, at) ∷ m) = ground (arith, length-unvoided id m)

length-reset :
    {V : Type 0} (limit : ℕ) (k : Bytes) (v : V) (m : List (Bytes × V))
    → 0 < limit
    → length (insert k v (if leb limit (length m) then [] else m)) ≤ limit
length-reset limit k v m h = elim (Bool-cases (leb limit (length m))) [
  | inl full ↦ rw full (omega (arith, length-insert k v []))
  | inr room ↦ rw room (ground (arith, room, length-insert k v m))
]

pub put-IsBounded :
    (id project : Bytes) (h : TaskHints) → IsBounded h → IsBounded (put id project h)
unfolding put
put-IsBounded id project h b = record {
  few_found = length-reset task_hint_max id project h.loc (omega arith);
  few_missed = omega (arith, length-unvoided id h.miss, b.few_missed);
}

pub note_miss-IsBounded :
    (id : Bytes) (now : ℕ) (h : TaskHints) → IsBounded h → IsBounded (note_miss id now h)
unfolding note_miss
note_miss-IsBounded id now h b = record {
  few_found = b.few_found;
  few_missed = length-reset task_miss_max id now h.miss (omega arith);
}

forget-IsBounded : (id : Bytes) (h : TaskHints) → IsBounded h → IsBounded (forget id h)
unfolding forget
forget-IsBounded id h b = record {
  few_found = omega (arith, length-remove id h.loc, b.few_found);
  few_missed = b.few_missed;
}

missed_at-IsBounded :
    (id : Bytes) (now : ℕ) (o : Option ℕ) (h : TaskHints)
    → IsBounded h
    → IsBounded (missed_at id now o h).1
unfolding missed_at
missed_at-IsBounded id now none h b = b
missed_at-IsBounded id now (some at) h b = elim (Bool-cases (ltb (at + task_miss_ttl) now)) [
  | inl old ↦ rw old (record {
    few_found = b.few_found;
    few_missed = omega (arith, length-remove id h.miss, b.few_missed);
  })
  | inr fresh ↦ rw fresh b
]

remember-IsBounded :
    (id : Bytes) (now : ℕ) (l : Located) (h : TaskHints)
    → IsBounded h
    → IsBounded (remember id now l h).1
unfolding remember
remember-IsBounded id now (lives_in p) h b = put-IsBounded id p h b
remember-IsBounded id now missing h b = note_miss-IsBounded id now h b
remember-IsBounded id now incomplete h b = b

scan_attempts-IsBounded :
    (attempts : List ScanAttempt) (id : Bytes) (now : ℕ) (last : Located) (h : TaskHints)
    → IsBounded h
    → IsBounded (scan_attempts attempts id now last h).1
unfolding scan_attempts
scan_attempts-IsBounded [] id now last h b = b
scan_attempts-IsBounded (a ∷ rest) id now last h b = elim (Bool-cases a.moved) [
  | inl moved ↦ rw moved (scan_attempts-IsBounded rest id now (scan a.projects id) h b)
  | inr still ↦ rw still (remember-IsBounded id now (scan a.projects id) h b)
]

after_miss-IsBounded :
    (attempts : List ScanAttempt) (id : Bytes) (now : ℕ) (m : Bool × TaskHints)
    → IsBounded m.1
    → IsBounded (after_miss attempts id now m).1
unfolding after_miss
after_miss-IsBounded attempts id now (true, h) b = b
after_miss-IsBounded attempts id now (false, h) b =
    scan_attempts-IsBounded attempts id now missing h b

by_hint-IsBounded :
    (ps : Projects) (attempts : List ScanAttempt) (id : Bytes) (now : ℕ) (o : Option Bytes)
    (h : TaskHints)
    → IsBounded h
    → IsBounded (by_hint ps attempts id now o h).1
unfolding by_hint missed
by_hint-IsBounded ps attempts id now none h b =
    after_miss-IsBounded attempts id now (missed id now h)
      (missed_at-IsBounded id now (lookup id h.miss) h b)
by_hint-IsBounded ps attempts id now (some p) h b =
    elim (Bool-cases (holds_task id (tables_of p ps))) [
      | inl here ↦ rw here b
      | inr gone ↦ rw gone (
          after_miss-IsBounded attempts id now (missed id now (forget id h)) (
            missed_at-IsBounded id now (lookup id (forget id h).miss) (forget id h)
              (forget-IsBounded id h b)))
    ]

-- A lookup keeps the hints within their limits: 65,536 places and 4,096 misses.
pub locate_task-IsBounded :
    (ps : Projects) (attempts : List ScanAttempt) (id : Bytes) (now : ℕ) (h : TaskHints)
    → IsBounded h
    → IsBounded (locate_task ps attempts id now h).1
unfolding locate_task
locate_task-IsBounded ps attempts id now h b = elim (Bool-cases (not (full_task_id id))) [
  | inl other ↦ rw other b
  | inr full ↦ rw full (by_hint-IsBounded ps attempts id now (lookup id h.loc) h b)
]
