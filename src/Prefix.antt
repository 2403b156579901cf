-- ===== src/Prefix.antt =====
-- Short task ids (internal/store/taskprefix.go): the shape of an id's start, and the ids of the hub
-- that start with it.
pub mod Range
pub mod Resolve
use aimem.Prelude.{
  ℕ, zero, suc, ◌+◌, ◌-◌, ◌≡◌, Bool, true, false, not, ◌&&◌, ◌||◌, ◌++◌, List, [], ◌∷◌, Option,
  none, some, Bytes, bytes, str_eq, ltb, leb, ◌==◌, if◌then◌else◌, length, take, filter, map,
}
use aimem.Text.{full_task_id, in_class, task_id_layout, IdClass}
use aimem.Db.{Db, is_reserved_project}
use aimem.Locate.{Projects, TaskHints, missed, note_miss, put}

abbrev pub task_id_prefix_min : ℕ
task_id_prefix_min = 13

abbrev pub task_id_match_max : ℕ
task_id_match_max = 10

-- IDPrefixShape: a proper start of the layout.
starts_layout : List IdClass → Bytes → Bool
unfolding in_class
starts_layout [] s = false
starts_layout (k ∷ ks) [] = true
starts_layout (k ∷ ks) (c ∷ s) = in_class k c && starts_layout ks s

is_nil : Bytes → Bool
is_nil [] = true
is_nil (c ∷ s) = false

unfoldable pub id_prefix_shape : Bytes → Bool
unfolding starts_layout is_nil
id_prefix_shape s = not (is_nil s) && starts_layout task_id_layout s

-- The order of TEXT columns, byte for byte.
unfoldable pub less : Bytes → Bytes → Bool
less [] [] = false
less [] (d ∷ t) = true
less (c ∷ s) [] = false
less (c ∷ s) (d ∷ t) = ltb c d || ((c == d) && less s t)

-- prefixBound.
abbrev pub prefix_bound : Bytes → Bytes
prefix_bound prefix = prefix ++ bytes "g"

-- WHERE id >= ? AND id < ?.
unfoldable pub in_range : Bytes → Bytes → Bool
unfolding less
in_range prefix id = not (less id prefix) && less id (prefix_bound prefix)

-- ORDER BY id.
place : Bytes → List Bytes → List Bytes
unfolding less
place x [] = x ∷ []
place x (y ∷ ys) = let after = place x ys in if less x y then x ∷ y ∷ ys else y ∷ after

sorted : List Bytes → List Bytes
unfolding place
sorted [] = []
sorted (x ∷ xs) = place x (sorted xs)

-- idsWithPrefix and taskIDsWithPrefix.
unfoldable pub task_ids_with_prefix : Bytes → ℕ → Db → List Bytes
unfolding sorted in_range
task_ids_with_prefix prefix limit db =
    take limit (sorted (filter (in_range prefix) (map (λ row. row.0) db.tasks)))

-- TaskIDMatch.
pub record TaskIdMatch : Type 0 where
  pub project : Bytes
  pub id : Bytes

-- The loop of taskIDMatches; `none` is the error of a project that cannot be opened.
unfoldable pub collect_matches : Bytes → List TaskIdMatch → Projects → Option (List TaskIdMatch)
unfolding task_ids_with_prefix
collect_matches prefix out [] = some out
collect_matches prefix out ((p, none) ∷ ps) =
    let skip = collect_matches prefix out ps in if is_reserved_project p then skip else none
collect_matches prefix out ((p, some db) ∷ ps) =
    let skip = collect_matches prefix out ps in
    let more =
      out
      ++ map (λ id. record { project = p; id = id })
          (task_ids_with_prefix prefix (task_id_match_max - length out) db) in
    let rest = collect_matches prefix more ps in
    if is_reserved_project p
    then skip
    else if leb task_id_match_max (length more)
    then some more
    else rest

abbrev pub task_id_matches : Bytes → Projects → Option (List TaskIdMatch)
task_id_matches prefix ps = collect_matches prefix [] ps

-- What a resolution answers.
pub data Resolved : Type 0 where
  resolved : Bytes → Resolved
  too_short absent incomplete : Resolved
  ambiguous : List TaskIdMatch → Resolved

-- The matches of a new scan; `moved` is whether lifecycleGen moved under it.
answer : Bytes → ℕ → Bool → Option (List TaskIdMatch) → TaskHints → Resolved × TaskHints
unfolding note_miss put
answer arg now moved none h = (incomplete, h)
answer arg now moved (some []) h = (absent, if moved then h else note_miss arg now h)
answer arg now moved (some (m ∷ [])) h = (resolved m.id, put m.id m.project h)
answer arg now moved (some (m ∷ n ∷ ms)) h = (ambiguous (m ∷ n ∷ ms), h)

after_miss : Bytes → Projects → ℕ → Bool → Bool × TaskHints → Resolved × TaskHints
unfolding answer collect_matches
after_miss arg ps now moved (true, h) = (absent, h)
after_miss arg ps now moved (false, h) = answer arg now moved (task_id_matches arg ps) h

-- ResolveTaskID.
unfoldable pub resolve_task_id : Bytes → Projects → ℕ → Bool → TaskHints → Resolved × TaskHints
unfolding full_task_id id_prefix_shape after_miss missed
resolve_task_id arg ps now moved h =
    if full_task_id arg || not (id_prefix_shape arg)
    then (resolved arg, h)
    else if ltb (length arg) task_id_prefix_min
    then (too_short, h)
    else after_miss arg ps now moved (missed arg now h)

-- resolveIDIn, for the ids of one project.
answer_in : List Bytes → Bytes → Resolved
answer_in [] arg = absent
answer_in (id ∷ []) arg = resolved id
answer_in (id ∷ j ∷ ids) arg = ambiguous (map (λ x. record { project = []; id = x }) (id ∷ j ∷ ids))

unfoldable pub resolve_id_in : Bytes → (Bytes → List Bytes) → Resolved
unfolding full_task_id id_prefix_shape answer_in
resolve_id_in arg list =
    if full_task_id arg || not (id_prefix_shape arg)
    then resolved arg
    else if ltb (length arg) task_id_prefix_min
    then too_short
    else answer_in (list arg) arg

-- ResolveProjectTaskID.
unfoldable pub resolve_project_task_id : Bytes → Db → Resolved
unfolding resolve_id_in task_ids_with_prefix
resolve_project_task_id arg db =
    resolve_id_in arg (λ prefix. task_ids_with_prefix prefix task_id_match_max db)
