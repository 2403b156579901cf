-- ===== src/Dependencies/Composed.antt =====
-- locateDependencyGraph and validateDependencyGraph one after the other, with any change of the hub
-- between them (internal/store/task_reservation_dependencies.go).
use aimem.Prelude.{
  if-cases, ◌+◌, ◌≡◌, ◌↔◌, refl, sym, ap, ◌∙◌, Bool, true, not, ◌&&◌, ◌||◌, List, [], ◌∷◌, Option,
  none, some, Bytes, str_eq, str_eq_iff, if◌then◌else◌, all, length, lookup, is_some, arith, inl,
  inr, ◌==◌,
}
use aimem.Task.{Task}
use aimem.Tasks.{find_task}
use aimem.Error.{Result, ok, err, task_conflict, dependency_unresolved}
use aimem.Dependencies.{
  Node, Hub, find_node, contains, dependencies_of, dependencies_equal, compare_task, recheck_node,
  recheck, walk, locate_dependency_graph,
}
use aimem.Dependencies.Walk.{Grounded, is_left}
use aimem.Dependencies.Cycles.{is_closed, walk_iff}
use aimem.Dependencies.Accepted.{with_first-ok}
use aimem.Dependencies.Closed.{all_mono, nodes_closed, locate_dependency_graph-closed}

dependencies_equal-eq : (xs ys : List Bytes) → dependencies_equal xs ys ≡ true → xs ≡ ys
unfolding dependencies_equal
dependencies_equal-eq [] [] h = refl
dependencies_equal-eq [] (y ∷ ys) h = cc
dependencies_equal-eq (x ∷ xs) [] h = cc
dependencies_equal-eq (x ∷ xs) (y ∷ ys) h =
    ground (arith, h, str_eq_iff x y, dependencies_equal-eq xs ys)

module _ (hub : Hub) (owner : Bytes) where
  compare_task-ok :
      (n : Node) (o : Option Task) (t : Task)
      → compare_task hub owner n o ≡ ok t
      → dependencies_of t ≡ dependencies_of n.task
  unfolding compare_task
  compare_task-ok n none t h = cc
  compare_task-ok n (some u) t h =
      let conflict : Result Task =
        if str_eq n.id owner then err (task_conflict u) else err dependency_unresolved in
      elim (if-cases
        (not (u.revision == n.task.revision)
          || not (dependencies_equal (dependencies_of u) (dependencies_of n.task)))
        conflict (ok u) h) [
          | inl (differs, x) ↦
              elim (if-cases (str_eq n.id owner) (err (task_conflict u)) (err dependency_unresolved)
                x) [ inl (a, y) ↦ cc | inr (b, y) ↦ cc ]
          | inr (same, x) ↦
              let e : u ≡ t = cc in
              ap dependencies_of (sym e)
              ∙ dependencies_equal-eq (dependencies_of u) (dependencies_of n.task)
                  (ground (arith, same))
        ]

  recheck_node-ok :
      (checked : List Bytes) (n : Node) (t : Task)
      → recheck_node hub owner checked n ≡ ok t
      → dependencies_of t ≡ dependencies_of n.task
  unfolding recheck_node
  recheck_node-ok checked n t h =
      let last : Result Task = compare_task hub owner n (find_task n.id (hub.tables n.project)) in
      let shut : Bool =
        not (contains n.project checked)
        && (not (hub.tables n.project).tasks_enabled || not (hub.verify n.project n.access_id)) in
      elim (if-cases shut (err dependency_unresolved) last h) [
        | inl (no_grant, x) ↦ cc
        | inr (granted, x) ↦ compare_task-ok n (find_task n.id (hub.tables n.project)) t x
      ]

  recheck-keys :
      (checked : List Bytes) (nodes : List Node) (current : List (Bytes × Task)) (d : Bytes)
      → recheck hub owner checked nodes ≡ ok current
      → is_some (find_node d nodes) ≡ is_some (lookup d current)
  unfolding recheck find_node lookup
  recheck-keys checked [] current d h = let same : current ≡ [] = cc in rw same refl
  recheck-keys checked (n ∷ ns) current d h =
      let (t, cs, one, rest, same) =
        with_first-ok (recheck_node hub owner checked n) (λ t. (n.id, t))
          (recheck hub owner (n.project ∷ checked) ns) current h in
      rw same (ground (arith, recheck-keys (n.project ∷ checked) ns cs d rest))

  recheck-dependencies :
      (p : Bytes → Bool) (checked : List Bytes) (nodes : List Node) (current : List (Bytes × Task))
      → recheck hub owner checked nodes ≡ ok current
      → all (λ n. all p (dependencies_of n.task)) nodes ≡ true
      → all (λ row. all p (dependencies_of row.1)) current ≡ true
  unfolding recheck
  recheck-dependencies p checked [] current h a = let same : current ≡ [] = cc in rw same refl
  recheck-dependencies p checked (n ∷ ns) current h a =
      let (t, cs, one, rest, same) =
        with_first-ok (recheck_node hub owner checked n) (λ t. (n.id, t))
          (recheck hub owner (n.project ∷ checked) ns) current h in
      rw same (
        rw (recheck_node-ok checked n t one)
          (ground (arith, a, recheck-dependencies p (n.project ∷ checked) ns cs rest)))

  recheck-is_closed :
      (nodes : List Node) (current : List (Bytes × Task))
      → recheck hub owner [] nodes ≡ ok current
      → nodes_closed nodes ≡ true
      → is_closed current ≡ true
  unfolding is_closed nodes_closed
  recheck-is_closed nodes current h closed =
      all_mono (λ row. all (λ d. is_some (find_node d nodes)) (dependencies_of row.1))
        (λ row. all (λ d. is_some (lookup d current)) (dependencies_of row.1)) current
        (λ row.
          all_mono (λ d. is_some (find_node d nodes)) (λ d. is_some (lookup d current))
            (dependencies_of row.1) (λ d here. sym (recheck-keys [] nodes current d h) ∙ here))
        (recheck-dependencies (λ d. is_some (find_node d nodes)) [] nodes current h closed)

-- A graph that was gathered and then read again as unchanged passes the walk exactly where every
-- chain of dependencies from the owner ends, so that the walk refuses nothing but a cycle.
pub locate-then-walk_iff :
    (before now : Hub) (owner : Bytes) (nodes : List Node) (current : List (Bytes × Task))
    → locate_dependency_graph before owner ≡ some (ok nodes)
    → recheck now owner [] nodes ≡ ok current
    → (is_left (walk current (length current + 1) [] owner []) ≡ true) ↔ Grounded current owner
locate-then-walk_iff before now owner nodes current h e =
    let (_, _, closed) = locate_dependency_graph-closed before owner nodes h in
    walk_iff current owner (recheck-is_closed now owner nodes current e closed)
