-- ===== src/Dependencies/Gather.antt =====
-- The loop of locateDependencyGraph (internal/store/task_reservation_dependencies.go): it ends, it keeps
-- to 512 tasks, and what it returns lacks no dependency.
use aimem.Prelude.{
  if-cases, ℕ, zero, suc, ◌+◌, ◌-◌, ◌*◌, ◌≤◌, ◌<◌, ◌≡◌, refl, sym, ap, Bool, true, not, ◌&&◌, List,
  [], ◌∷◌, Option, none, some, Bytes, leb, if◌then◌else◌, length, is_some, arith, inl, inr,
}
use aimem.Task.{Task, max_task_list_entries}
use aimem.Tasks.{find_task}
use aimem.Dependencies.{
  max_dependency_walk, Node, Hub, contains, find_node, is_blank, dependencies_of, Visit, refused,
  seen, found, node_of, in_project, visit, pushed, gather, locate_dependency_graph,
}

module _ (hub : Hub) where
  -- A stored task has at most as many dependencies as its validation allows.
  abbrev pub Bounded : Type 0
  Bounded =
      (project id : Bytes) (t : Task)
      → find_task id (hub.tables project) ≡ some t
      → length (dependencies_of t) ≤ max_task_list_entries

  -- What a visit found: the id's task in some project, not gathered before, and room for it.
  pub record Found (nodes : List Node) (id : Bytes) (n : Node) : Type 0 where
    pub same : n.id ≡ id
    pub room : length nodes < max_dependency_walk
    pub few : Bounded → length (dependencies_of n.task) ≤ max_task_list_entries

  node_of-found :
      (id project access : Bytes) (o : Option Task) (n : Node)
      → node_of id project access o ≡ found n
      → (n.id ≡ id) × (o ≡ some n.task)
  unfolding node_of
  node_of-found id project access none n h = cc
  node_of-found id project access (some t) n h =
      let e : n ≡ record { id = id; task = t; project = project; access_id = access } = cc in
      (ap (λ m. m.id) e, sym (ap (λ m. some m.task) e))

  in_project-found :
      (verified : List Bytes) (id : Bytes) (o : Option Bytes) (n : Node)
      → in_project hub verified id o ≡ found n
      → (n.id ≡ id) × (Bounded → length (dependencies_of n.task) ≤ max_task_list_entries)
  unfolding in_project
  in_project-found verified id none n h = cc
  in_project-found verified id (some project) n h =
      let access = hub.access_id project in
      let last : Visit = node_of id project access (find_task id (hub.tables project)) in
      let refusal : Bool = not (contains project verified) && not (hub.verify project access) in
      elim (if-cases (is_blank access) refused (if refusal then refused else last) h) [
        | inl (blank, x) ↦ cc
        | inr (has, x) ↦ elim (if-cases refusal refused last x) [
          | inl (no_grant, y) ↦ cc
          | inr (granted, y) ↦
              let (same, e) =
                node_of-found id project access (find_task id (hub.tables project)) n y in
              (same, λ bounded. bounded project id n.task e)
        ]
      ]

  pub visit-Found :
      (nodes : List Node) (verified : List Bytes) (id : Bytes) (n : Node)
      → visit hub nodes verified id ≡ found n
      → Found nodes id n
  unfolding visit
  visit-Found nodes verified id n h =
      elim (if-cases (leb max_dependency_walk (length nodes)) refused
        (if is_some (find_node id nodes) then seen else in_project hub verified id (hub.locate id))
        h) [
          | inl (full, x) ↦ cc
          | inr (room, x) ↦
              elim (if-cases (is_some (find_node id nodes)) seen
                (in_project hub verified id (hub.locate id)) x) [
                  | inl (before, y) ↦ cc
                  | inr (new, y) ↦
                      let (same, few) = in_project-found verified id (hub.locate id) n y in
                      record { same = same; room = ground (arith, room); few = few }
                ]
        ]

  length-pushed :
      (ds pending : List Bytes) → length (pushed ds pending) ≡ length ds + length pending
  length-pushed [] pending = omega arith
  length-pushed (d ∷ ds) pending = omega (arith, length-pushed ds (d ∷ pending))

  -- The rounds that are left: the stack, and for each task that there is room for, its dependencies.
  rounds : List Node → List Bytes → ℕ
  rounds nodes pending =
      length pending + (max_dependency_walk - length nodes) * (max_task_list_entries + 1)

  -- With more fuel than rounds the loop ends.
  gather-ends :
      (fuel : ℕ) (nodes : List Node) (verified pending : List Bytes)
      → Bounded
      → rounds nodes pending < fuel
      → is_some (gather hub fuel nodes verified pending) ≡ true
  unfolding gather rounds
  gather-ends zero nodes verified pending bounded lt = absurd (omega arith)
  gather-ends (suc fuel) nodes verified [] bounded lt = refl
  gather-ends (suc fuel) nodes verified (id ∷ pending) bounded lt =
      go (visit hub nodes verified id) refl
        (λ n less.
          gather-ends fuel (n ∷ nodes) (n.project ∷ verified)
            (pushed (dependencies_of n.task) pending) bounded less)
        (λ less. gather-ends fuel nodes verified pending bounded less)
    where
      go :
          (v : Visit)
          → visit hub nodes verified id ≡ v
          → ((n : Node)
              → rounds (n ∷ nodes) (pushed (dependencies_of n.task) pending) < fuel
              → is_some (
                  gather hub fuel
                    (n ∷ nodes)
                    (n.project ∷ verified)
                    (pushed (dependencies_of n.task) pending))
                ≡ true)
          → (rounds nodes pending < fuel → is_some (gather hub fuel nodes verified pending) ≡ true)
          → is_some (gather hub (suc fuel) nodes verified (id ∷ pending)) ≡ true
      go refused e add skip = rw (e, gather) refl
      go seen e add skip = rw (e, gather) (skip (omega (arith, lt)))
      go (found n) e add skip =
          let f : Found nodes id n = visit-Found nodes verified id n e in
          rw (e, gather)
            (add n (
              omega
                (arith, lt, f.room, f.few bounded, length-pushed (dependencies_of n.task) pending)))

  -- With at most 32 dependencies to a task the gathering of any owner's graph ends.
  pub locate_dependency_graph_total :
      (owner : Bytes) → Bounded → is_some (locate_dependency_graph hub owner) ≡ true
  unfolding locate_dependency_graph rounds
  locate_dependency_graph_total owner bounded =
      gather-ends (max_dependency_walk * (max_task_list_entries + 1) + 2) [] [] (owner ∷ []) bounded
        (omega arith)
