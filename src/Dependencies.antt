-- ===== src/Dependencies.antt =====
-- The dependencies of a claim across projects (internal/store/task_reservation_dependencies.go): the
-- graph is gathered without locks, then checked again under the projects' transactions. A deadline or
-- a cancelled caller ends either with an error and is left out; `none` is a model that ran out of fuel.
pub mod Gather
pub mod Closed
pub mod Walk
pub mod Cycles
pub mod Accepted
pub mod Composed
use aimem.Prelude.{
  ℕ, zero, suc, ◌+◌, ◌*◌, ◌≡◌, Bool, true, false, not, ◌&&◌, ◌||◌, List, [], ◌∷◌, Option, none,
  some, Bytes, str_eq, leb, ◌==◌, if◌then◌else◌, any, length, lookup, map, is_some,
}
use aimem.Task.{Task, max_task_list_entries}
use aimem.Task.State
use aimem.Error.{Error, Result, ok, err, task_conflict, dependency_unresolved}
use aimem.Db.{Db}
use aimem.Tasks.{find_task}

abbrev pub max_dependency_walk : ℕ
max_dependency_walk = 512

-- dependencyNode, with its task's id; `project` also names the node's database.
pub record Node : Type 0 where
  pub id : Bytes
  pub task : Task
  pub project : Bytes
  pub access_id : Bytes

-- DependencyEvidence.
pub record Evidence : Type 0 where
  pub task_id : Bytes
  pub project : Bytes
  pub access_id : Bytes
  pub revision : ℕ

-- The hub as one step sees it: LocateTask's project, ExistingProjectAccessID with "" for none, a
-- project's tables, and what the caller's verifier answers of a project and its access id.
pub record Hub : Type 0 where
  pub locate : Bytes → Option Bytes
  pub access_id : Bytes → Bytes
  pub tables : Bytes → Db
  pub verify : Bytes → Bytes → Bool

abbrev pub contains : Bytes → List Bytes → Bool
contains id ids = any (str_eq id) ids

unfoldable pub find_node : Bytes → List Node → Option Node
find_node id [] = none
find_node id (n ∷ ns) = if str_eq n.id id then some n else find_node id ns

abbrev pub is_blank : Bytes → Bool
is_blank [] = true
is_blank (c ∷ s) = false

abbrev pub dependencies_of : Task → List Bytes
dependencies_of t = t.content.dependencies

-- What one round of the gathering loop does with an id.
pub data Visit : Type 0 where
  refused seen : Visit
  found : Node → Visit

node_of : Bytes → Bytes → Bytes → Option Task → Visit
node_of id project access none = refused
node_of id project access (some t) =
    found (record { id = id; task = t; project = project; access_id = access })

-- append(pending, deps...), the last one first.
abbrev pub pushed : List Bytes → List Bytes → List Bytes
pushed [] pending = pending
pushed (d ∷ ds) pending = pushed ds (d ∷ pending)

module _ (hub : Hub) where
  in_project : List Bytes → Bytes → Option Bytes → Visit
  unfolding node_of find_task
  in_project verified id none = refused
  in_project verified id (some project) =
      let access = hub.access_id project in
      if is_blank access
      then refused
      else if not (contains project verified) && not (hub.verify project access)
      then refused
      else node_of id project access (find_task id (hub.tables project))

  unfoldable pub visit : List Node → List Bytes → Bytes → Visit
  unfolding in_project find_node
  visit nodes verified id =
      if leb max_dependency_walk (length nodes)
      then refused
      else if is_some (find_node id nodes)
      then seen
      else in_project verified id (hub.locate id)

  -- The loop of locateDependencyGraph; the stack's top stands first.
  unfoldable pub gather : ℕ → List Node → List Bytes → List Bytes → Option (Result (List Node))
  unfolding visit
  gather zero nodes verified pending = none
  gather (suc fuel) nodes verified [] = some (ok nodes)
  gather (suc fuel) nodes verified (id ∷ pending) = elim (visit nodes verified id) [
    | refused ↦ some (err dependency_unresolved)
    | seen ↦ gather fuel nodes verified pending
    | found n ↦
        gather fuel (n ∷ nodes) (n.project ∷ verified) (pushed (dependencies_of n.task) pending)
  ]

  -- locateDependencyGraph. A task has at most 32 dependencies, so the loop makes at most this many rounds.
  unfoldable pub locate_dependency_graph : Bytes → Option (Result (List Node))
  unfolding gather
  locate_dependency_graph owner =
      gather (max_dependency_walk * (max_task_list_entries + 1) + 2) [] [] (owner ∷ [])

-- taskDependenciesEqual.
unfoldable pub dependencies_equal : List Bytes → List Bytes → Bool
dependencies_equal [] [] = true
dependencies_equal (a ∷ xs) (b ∷ ys) = str_eq a b && dependencies_equal xs ys
dependencies_equal _ _ = false

-- The colouring walk. The ids of colour 1 are those the walk has entered and not left, `path`; those
-- of colour 2 are `done`, the last one left first.
unfoldable pub dependencies_in : List (Bytes × Task) → Bytes → List Bytes
dependencies_in current id = elim (lookup id current) [ none ↦ [] | some t ↦ dependencies_of t ]

pub data Walked : Type 0 where
  unresolved out_of_fuel : Walked
  left : List Bytes → Walked

abbrev pub walked_then : Walked → (List Bytes → Walked) → Walked
walked_then (left done) f = f done
walked_then unresolved f = unresolved
walked_then out_of_fuel f = out_of_fuel

-- The loop over a node's dependencies, with the walk of one of them.
unfoldable pub walk_all :
    List (Bytes × Task) → (Bytes → List Bytes → Walked) → List Bytes → List Bytes → Walked
walk_all current walk [] done = left done
walk_all current walk (d ∷ ds) done =
    if not (is_some (lookup d current))
    then unresolved
    else walked_then (walk d done) (walk_all current walk ds)

abbrev pub finished : Bytes → Walked → Walked
finished id (left done) = left (id ∷ done)
finished id unresolved = unresolved
finished id out_of_fuel = out_of_fuel

unfoldable pub walk : List (Bytes × Task) → ℕ → List Bytes → Bytes → List Bytes → Walked
unfolding walk_all dependencies_in
walk current zero path id done = out_of_fuel
walk current (suc fuel) path id done =
    let entered =
      walk_all current (walk current fuel (id ∷ path)) (dependencies_in current id) done in
    if contains id path
    then unresolved
    else if contains id done
    then left done
    else finished id entered

-- The evidence loop over the owner's dependencies.
prepend : {A : Type 0} → A → Result (List A) → Result (List A)
prepend e (ok es) = ok (e ∷ es)
prepend e (err x) = err x

evidence_of : Bytes → Option Node → Option Task → Result Evidence
evidence_of id (some n) (some t) =
    if not (str_eq t.content.state State.done)
    then err dependency_unresolved
    else ok (record {
      task_id = id;
      project = n.project;
      access_id = n.access_id;
      revision = t.revision;
    })
evidence_of id _ _ = err dependency_unresolved

pub with_first : {A B : Type 0} → Result A → (A → B) → Result (List B) → Result (List B)
unfolding prepend
with_first (ok a) f rest = prepend (f a) rest
with_first (err e) f rest = err e

unfoldable pub collect :
    List Node → List (Bytes × Task) → Bytes → List Bytes → List Bytes → Result (List Evidence)
unfolding find_node evidence_of with_first
collect nodes current owner seen_ids [] = ok []
collect nodes current owner seen_ids (d ∷ ds) =
    let skipped = collect nodes current owner seen_ids ds in
    let rest = collect nodes current owner (d ∷ seen_ids) ds in
    if str_eq d owner
    then err dependency_unresolved
    else if contains d seen_ids
    then skipped
    else with_first (evidence_of d (find_node d nodes) (lookup d current)) (λ e. e) rest

abbrev pub with_owner : Option Task → Result (List Evidence) → Result (Option Task × List Evidence)
with_owner t (ok es) = ok (t, es)
with_owner t (err e) = err e

module _ (hub : Hub) where
  -- A node's task as it is now: the same revision and dependencies as when it was gathered.
  compare_task : Bytes → Node → Option Task → Result Task
  unfolding dependencies_equal
  compare_task owner n none = err dependency_unresolved
  compare_task owner n (some t) =
      if not (t.revision == n.task.revision)
        || not (dependencies_equal (dependencies_of t) (dependencies_of n.task))
      then if str_eq n.id owner then err (task_conflict t) else err dependency_unresolved
      else ok t

  recheck_node : Bytes → List Bytes → Node → Result Task
  unfolding compare_task find_task
  recheck_node owner checked n =
      if not (contains n.project checked)
        && (not (hub.tables n.project).tasks_enabled || not (hub.verify n.project n.access_id))
      then err dependency_unresolved
      else compare_task owner n (find_task n.id (hub.tables n.project))

  -- The first loop of validateDependencyGraph, in the order of the list.
  unfoldable pub recheck : Bytes → List Bytes → List Node → Result (List (Bytes × Task))
  unfolding recheck_node with_first
  recheck owner checked [] = ok []
  recheck owner checked (n ∷ ns) =
      with_first (recheck_node owner checked n) (λ t. (n.id, t))
        (recheck owner (n.project ∷ checked) ns)

  claim_evidence :
      List Node
      → List (Bytes × Task)
      → Bytes
      → Walked
      → Option (Result (Option Task × List Evidence))
  unfolding collect dependencies_in
  claim_evidence nodes current owner unresolved = some (err dependency_unresolved)
  claim_evidence nodes current owner out_of_fuel = none
  claim_evidence nodes current owner (left done) = some (
      with_owner (lookup owner current)
        (collect nodes current owner [] (dependencies_in current owner)))

  after_recheck :
      List Node
      → Bytes
      → Result (List (Bytes × Task))
      → Option (Result (Option Task × List Evidence))
  unfolding claim_evidence walk
  after_recheck nodes owner (err e) = some (err e)
  after_recheck nodes owner (ok current) =
      claim_evidence nodes current owner (walk current (length current + 1) [] owner [])

  -- validateDependencyGraph.
  unfoldable pub validate : Bytes → List Node → Option (Result (Option Task × List Evidence))
  unfolding recheck after_recheck
  validate owner nodes = after_recheck nodes owner (recheck owner [] nodes)
