-- ===== src/Locate.antt =====
-- Where a task lives (internal/store/taskloc.go): the hints of recent lookups and the scan of every
-- project. A time is in nanoseconds.
pub mod Hints
pub mod Answers
pub mod Homes
pub mod Created
use aimem.Prelude.{
  ℕ, zero, suc, ◌+◌, ◌*◌, ◌≡◌, Bool, true, false, not, ◌&&◌, ◌||◌, List, [], ◌∷◌, Option, none,
  some, Bytes, str_eq, has_prefix, ltb, leb, if◌then◌else◌, length, lookup, insert, is_some,
}
use aimem.Text.{full_task_id}
use aimem.Db.{Db, is_reserved_project}
use aimem.Tasks.{find_task}

abbrev pub task_hint_max : ℕ
task_hint_max = 65536

abbrev pub task_miss_max : ℕ
task_miss_max = 4096

abbrev pub task_miss_ttl : ℕ
task_miss_ttl = 30000000000

-- taskHints.
pub record TaskHints : Type 0 where
  pub loc : List (Bytes × Bytes)
  pub miss : List (Bytes × ℕ)

-- delete(m, k).
unfoldable pub remove : {V : Type 0} → Bytes → List (Bytes × V) → List (Bytes × V)
remove k [] = []
remove k ((j, v) ∷ m) = let rest = remove k m in if str_eq j k then rest else (j, v) ∷ rest

-- The misses that `id` does not start with.
unfoldable pub unvoided : Bytes → List (Bytes × ℕ) → List (Bytes × ℕ)
unvoided id [] = []
unvoided id ((k, at) ∷ m) =
    let rest = unvoided id m in if has_prefix k id then rest else (k, at) ∷ rest

-- put, forget, missed and noteMiss.
abbrev pub reset_at : {V : Type 0} → ℕ → List (Bytes × V) → List (Bytes × V)
reset_at limit m = if leb limit (length m) then [] else m

unfoldable pub put : Bytes → Bytes → TaskHints → TaskHints
unfolding insert unvoided
put id project h = record {
  loc = insert id project (reset_at task_hint_max h.loc);
  miss = unvoided id h.miss;
}

unfoldable pub forget : Bytes → TaskHints → TaskHints
unfolding remove
forget id h = record h { loc = remove id h.loc }

missed_at : Bytes → ℕ → Option ℕ → TaskHints → Bool × TaskHints
unfolding remove
missed_at id now none h = (false, h)
missed_at id now (some at) h =
    if ltb (at + task_miss_ttl) now
    then (false, record h { miss = remove id h.miss })
    else (true, h)

unfoldable pub missed : Bytes → ℕ → TaskHints → Bool × TaskHints
unfolding missed_at
missed id now h = missed_at id now (lookup id h.miss) h

unfoldable pub note_miss : Bytes → ℕ → TaskHints → TaskHints
unfolding insert
note_miss id now h = record h { miss = insert id now (reset_at task_miss_max h.miss) }

-- The projects in the order of Registry.Projects, with their tables where they can be opened.
abbrev pub Projects : Type 0
Projects = List (Bytes × Option Db)

pub data Located : Type 0 where
  lives_in : Bytes → Located
  missing incomplete : Located

abbrev pub holds_task : Bytes → Option Db → Bool
holds_task id none = false
holds_task id (some db) = is_some (find_task id db)

abbrev pub is_closed_project : Option Db → Bool
is_closed_project none = true
is_closed_project (some db) = false

-- scanForTask, with whether a project before could not be opened.
unfoldable pub scan_from : Bool → Projects → Bytes → Located
scan_from unreadable [] id = if unreadable then incomplete else missing
scan_from unreadable ((p, tables) ∷ ps) id =
    let skip = scan_from unreadable ps id in
    let next = scan_from (unreadable || is_closed_project tables) ps id in
    if is_reserved_project p then skip else if holds_task id tables then lives_in p else next

abbrev pub scan : Projects → Bytes → Located
scan ps id = scan_from false ps id

-- One attempt of the loop: the projects as its scan sees them, and whether lifecycleGen moved.
pub record ScanAttempt : Type 0 where
  pub projects : Projects
  pub moved : Bool

remember : Bytes → ℕ → Located → TaskHints → Located × TaskHints
unfolding put note_miss
remember id now (lives_in p) h = (lives_in p, put id p h)
remember id now missing h = (missing, note_miss id now h)
remember id now incomplete h = (incomplete, h)

unfoldable pub scan_attempts :
    List ScanAttempt → Bytes → ℕ → Located → TaskHints → Located × TaskHints
unfolding scan_from remember
scan_attempts [] id now last h = (last, h)
scan_attempts (a ∷ rest) id now last h =
    let found = scan a.projects id in
    let again = scan_attempts rest id now found h in
    if a.moved then again else remember id now found h

-- The checked hint: its project, if that still holds the task.
abbrev pub opened : Option (Option Db) → Option Db
opened none = none
opened (some tables) = tables

abbrev pub tables_of : Bytes → Projects → Option Db
tables_of p ps = opened (lookup p ps)

after_miss : List ScanAttempt → Bytes → ℕ → Bool × TaskHints → Located × TaskHints
unfolding scan_attempts
after_miss attempts id now (true, h) = (missing, h)
after_miss attempts id now (false, h) = scan_attempts attempts id now missing h

by_hint : Projects → List ScanAttempt → Bytes → ℕ → Option Bytes → TaskHints → Located × TaskHints
unfolding after_miss missed forget lookup
by_hint ps attempts id now none h = after_miss attempts id now (missed id now h)
by_hint ps attempts id now (some p) h =
    let scanned = after_miss attempts id now (missed id now (forget id h)) in
    if holds_task id (tables_of p ps) then (lives_in p, h) else scanned

-- LocateTask: the projects when it begins, and its attempts, three in the source.
unfoldable pub locate_task :
    Projects → List ScanAttempt → Bytes → ℕ → TaskHints → Located × TaskHints
unfolding by_hint full_task_id
locate_task ps attempts id now h =
    if not (full_task_id id) then (missing, h) else by_hint ps attempts id now (lookup id h.loc) h
