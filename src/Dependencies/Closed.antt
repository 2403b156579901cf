-- ===== src/Dependencies/Closed.antt =====
-- What locateDependencyGraph (internal/store/task_reservation_dependencies.go) returns, and the same
-- tasks read again: no dependency is missing.
use aimem.Prelude.{
  if-cases, ℕ, zero, suc, ◌+◌, ◌*◌, ◌≤◌, ◌≡◌, refl, sym, ap, ◌∙◌, Bool, true, not, ◌&&◌, ◌||◌, List,
  [], ◌∷◌, Option, none, some, Bytes, str_eq, str_eq_iff, str_eq_refl, leb, if◌then◌else◌, all,
  length, is_some, arith, Bool-cases, inl, inr,
}
use mathlib.Core.Path.{subst}
use aimem.Task.{Task, max_task_list_entries}
use aimem.Tasks.{find_task}
use aimem.Error.{ok, err, dependency_unresolved}
use aimem.Dependencies.{
  max_dependency_walk, Node, Hub, contains, find_node, dependencies_of, Visit, refused, seen, found,
  visit, pushed, gather, locate_dependency_graph, in_project, node_of, is_blank,
}
use aimem.Dependencies.Gather.{Found, visit-Found}

pub all_mono :
    {A : Type 0} (p q : A → Bool) (xs : List A)
    → ((x : A) → p x ≡ true → q x ≡ true)
    → all p xs ≡ true
    → all q xs ≡ true
all_mono p q [] f h = refl
all_mono p q (x ∷ xs) f h = ground (arith, h, f x, all_mono p q xs f)

all-member_self :
    (ids : List Bytes) (q : Bytes → Bool)
    → ((d : Bytes) → contains d ids ≡ true → q d ≡ true)
    → all q ids ≡ true
all-member_self [] q f = refl
all-member_self (x ∷ xs) q f =
    let first : contains x (x ∷ xs) ≡ true = rw (str_eq_refl x) refl in
    ground (arith, f x first, all-member_self xs q (λ d m. f d (ground (arith, m))))

-- On the stack, or gathered.
abbrev known : List Node → List Bytes → Bytes → Bool
known nodes pending d = contains d pending || is_some (find_node d nodes)

abbrev waiting : List Node → List Bytes → Bool
waiting nodes pending = all (λ n. all (known nodes pending) (dependencies_of n.task)) nodes

-- Every dependency of a gathered task is gathered.
unfoldable pub nodes_closed : List Node → Bool
nodes_closed nodes =
    all (λ n. all (λ d. is_some (find_node d nodes)) (dependencies_of n.task)) nodes

pushed-member :
    (d : Bytes) (ds pending : List Bytes)
    → (contains d ds || contains d pending) ≡ true
    → contains d (pushed ds pending) ≡ true
pushed-member d [] pending h = h
pushed-member d (x ∷ ds) pending h = pushed-member d ds (x ∷ pending) (ground (arith, h))

known-found :
    (nodes : List Node) (pending : List Bytes) (id : Bytes) (n : Node) (d : Bytes)
    → n.id ≡ id
    → known nodes (id ∷ pending) d ≡ true
    → known (n ∷ nodes) (pushed (dependencies_of n.task) pending) d ≡ true
unfolding find_node
known-found nodes pending id n d same h = ground (
  arith,
  h,
  str_eq_iff d id,
  str_eq_iff n.id d,
  same,
  pushed-member d (dependencies_of n.task) pending,
)

known-pushed :
    (nodes : List Node) (pending : List Bytes) (n : Node) (d : Bytes)
    → contains d (dependencies_of n.task) ≡ true
    → known (n ∷ nodes) (pushed (dependencies_of n.task) pending) d ≡ true
known-pushed nodes pending n d m =
    ground (arith, pushed-member d (dependencies_of n.task) pending (ground (arith, m)))

known-seen :
    (nodes : List Node) (pending : List Bytes) (id d : Bytes)
    → is_some (find_node id nodes) ≡ true
    → known nodes (id ∷ pending) d ≡ true
    → known nodes pending d ≡ true
known-seen nodes pending id d here h = elim (Bool-cases (str_eq d id)) [
  | inl same ↦
      ground (arith, ap (λ z. is_some (find_node z nodes)) ((str_eq_iff d id).0 same) ∙ here)
  | inr other ↦ ground (arith, h, other)
]

module _ (hub : Hub) where
  node_of-unseen :
      (id project access : Bytes) (o : Option Task) → ¬ (node_of id project access o ≡ seen)
  unfolding node_of
  node_of-unseen id project access none h = cc
  node_of-unseen id project access (some t) h = cc

  in_project-unseen :
      (verified : List Bytes) (id : Bytes) (o : Option Bytes)
      → ¬ (in_project hub verified id o ≡ seen)
  unfolding in_project
  in_project-unseen verified id none h = cc
  in_project-unseen verified id (some project) h =
      let access = hub.access_id project in
      let last : Visit = node_of id project access (find_task id (hub.tables project)) in
      let refusal : Bool = not (contains project verified) && not (hub.verify project access) in
      elim (if-cases (is_blank access) refused (if refusal then refused else last) h) [
        | inl (blank, x) ↦ cc
        | inr (has, x) ↦ elim (if-cases refusal refused last x) [
          | inl (no_grant, y) ↦ cc
          | inr (granted, y) ↦
              absurd (node_of-unseen id project access (find_task id (hub.tables project)) y)
        ]
      ]

  -- A round of the loop, by what its visit was.
  gather-visit :
      (fuel : ℕ) (nodes : List Node) (verified pending : List Bytes) (id : Bytes) (v : Visit)
      → visit hub nodes verified id ≡ v
      → gather hub (suc fuel) nodes verified (id ∷ pending) ≡ elim v [
        | refused ↦ some (err dependency_unresolved)
        | seen ↦ gather hub fuel nodes verified pending
        | found n ↦
            gather hub fuel
              (n ∷ nodes)
              (n.project ∷ verified)
              (pushed (dependencies_of n.task) pending)
      ]
  unfolding gather
  gather-visit fuel nodes verified pending id v e = rw (e, gather) refl

  visit-seen :
      (nodes : List Node) (verified : List Bytes) (id : Bytes)
      → visit hub nodes verified id ≡ seen
      → is_some (find_node id nodes) ≡ true
  unfolding visit
  visit-seen nodes verified id h =
      elim (if-cases (leb max_dependency_walk (length nodes)) refused
        (if is_some (find_node id nodes) then seen else in_project hub verified id (hub.locate id))
        h) [
          | inl (full, x) ↦ cc
          | inr (room, x) ↦
              elim (if-cases (is_some (find_node id nodes)) seen
                (in_project hub verified id (hub.locate id)) x) [
                  | inl (before, y) ↦ before
                  | inr (new, y) ↦ absurd (in_project-unseen verified id (hub.locate id) y)
                ]
        ]

  -- The loop's invariant.
  record Gathering (owner : Bytes) (nodes : List Node) (pending : List Bytes) : Type 0 where
    few : length nodes ≤ max_dependency_walk
    owner_known : known nodes pending owner ≡ true
    waits : waiting nodes pending ≡ true

  Found-Gathering :
      (owner id : Bytes) (nodes : List Node) (pending : List Bytes) (n : Node)
      → Found hub nodes id n
      → Gathering owner nodes (id ∷ pending)
      → Gathering owner (n ∷ nodes) (pushed (dependencies_of n.task) pending)
  Found-Gathering owner id nodes pending n f g = record {
    few = omega (arith, f.room);
    owner_known = known-found nodes pending id n owner f.same g.owner_known;
    waits = ground (
      arith,
      all-member_self (dependencies_of n.task)
          (known (n ∷ nodes) (pushed (dependencies_of n.task) pending))
          (known-pushed nodes pending n),
      all_mono (λ m. all (known nodes (id ∷ pending)) (dependencies_of m.task))
          (λ m.
            all (known (n ∷ nodes) (pushed (dependencies_of n.task) pending))
              (dependencies_of m.task))
          nodes
          (λ m.
            all_mono (known nodes (id ∷ pending))
              (known (n ∷ nodes) (pushed (dependencies_of n.task) pending)) (dependencies_of m.task)
              (λ d. known-found nodes pending id n d f.same))
          g.waits,
    );
  }

  seen-Gathering :
      (owner id : Bytes) (nodes : List Node) (pending : List Bytes)
      → is_some (find_node id nodes) ≡ true
      → Gathering owner nodes (id ∷ pending)
      → Gathering owner nodes pending
  seen-Gathering owner id nodes pending here g = record {
    few = g.few;
    owner_known = known-seen nodes pending id owner here g.owner_known;
    waits =
        all_mono (λ m. all (known nodes (id ∷ pending)) (dependencies_of m.task))
          (λ m. all (known nodes pending) (dependencies_of m.task)) nodes
          (λ m.
            all_mono (known nodes (id ∷ pending)) (known nodes pending) (dependencies_of m.task)
              (λ d. known-seen nodes pending id d here))
          g.waits;
  }

  gather-keeps :
      (owner : Bytes) (fuel : ℕ) (nodes : List Node) (verified pending : List Bytes)
      (out : List Node)
      → Gathering owner nodes pending
      → gather hub fuel nodes verified pending ≡ some (ok out)
      → Gathering owner out []
  unfolding gather
  gather-keeps owner zero nodes verified pending out g h = cc
  gather-keeps owner (suc fuel) nodes verified [] out g h =
      let same : nodes ≡ out = cc in subst (λ ns. Gathering owner ns []) same g
  gather-keeps owner (suc fuel) nodes verified (id ∷ pending) out g h =
      go (visit hub nodes verified id) refl h
        (λ n.
          gather-keeps owner fuel (n ∷ nodes) (n.project ∷ verified)
            (pushed (dependencies_of n.task) pending) out)
        (gather-keeps owner fuel nodes verified pending out)
    where
      go :
          (v : Visit)
          → visit hub nodes verified id ≡ v
          → gather hub (suc fuel) nodes verified (id ∷ pending) ≡ some (ok out)
          → ((n : Node)
              → Gathering owner (n ∷ nodes) (pushed (dependencies_of n.task) pending)
              → gather hub fuel
                  (n ∷ nodes)
                  (n.project ∷ verified)
                  (pushed (dependencies_of n.task) pending)
                ≡ some (ok out)
              → Gathering owner out [])
          → (Gathering owner nodes pending
              → gather hub fuel nodes verified pending ≡ some (ok out)
              → Gathering owner out [])
          → Gathering owner out []
      go refused e k add skip =
          let no_way : some (err dependency_unresolved) ≡ some (ok out) =
            sym (gather-visit fuel nodes verified pending id refused e) ∙ k in
          cc
      go seen e k add skip =
          skip (seen-Gathering owner id nodes pending (visit-seen nodes verified id e) g)
            (sym (gather-visit fuel nodes verified pending id seen e) ∙ k)
      go (found n) e k add skip =
          add n (Found-Gathering owner id nodes pending n (visit-Found hub nodes verified id n e) g)
            (sym (gather-visit fuel nodes verified pending id (found n) e) ∙ k)

  -- A gathered graph has at most 512 tasks, the owner among them, and each task's dependencies.
  pub locate_dependency_graph-closed :
      (owner : Bytes) (nodes : List Node)
      → locate_dependency_graph hub owner ≡ some (ok nodes)
      → (length nodes ≤ max_dependency_walk)
        × (is_some (find_node owner nodes) ≡ true)
        × (nodes_closed nodes ≡ true)
  unfolding locate_dependency_graph nodes_closed
  locate_dependency_graph-closed owner nodes h =
      let g : Gathering owner nodes [] =
        gather-keeps owner (max_dependency_walk * (max_task_list_entries + 1) + 2) [] []
          (owner ∷ []) nodes
          (record { few = omega arith; owner_known = rw (str_eq_refl owner) refl; waits = refl })
          h in
      (g.few, g.owner_known, g.waits)
