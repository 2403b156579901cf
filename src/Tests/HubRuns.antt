-- ===== src/Tests/HubRuns.antt =====
-- Lookups and dependency checks on a hub of one project with two tasks, of which the second depends on
-- the first.
use aimem.Prelude.{
  ℕ, ◌+◌, ◌≤◌, ◌≡◌, ◌↔◌, ◌||◌, not, refl, Bool, true, false, List, [], ◌∷◌, Option, none, some,
  Bytes, bytes, str_eq, if◌then◌else◌, length, all, lookup, is_some, arith,
}
use aimem.Text.{full_task_id}
use aimem.Task.{Task}
use aimem.Task.State
use aimem.Error.{ok}
use aimem.Db.{Db}
use aimem.Tasks.{find_task}
use aimem.Locate.{Projects, TaskHints, ScanAttempt, lives_in, locate_task, missed, scan}
use aimem.Locate.Hints.{IsBounded, locate_task-IsBounded}
use aimem.Locate.Homes.{is_home, seen_home, locate_task-is_home}
use aimem.Locate.Answers.{holders, held_reserved, readable, misses_true, locate_task-scan}
use aimem.Prefix.{id_prefix_shape, resolve_task_id}
use aimem.Prefix.Resolve.{Sound, resolve_task_id-Sound}
use aimem.Dependencies.{
  max_dependency_walk, Node, Evidence, Hub, dependencies_in, dependencies_of, find_node, recheck,
  walk, validate, locate_dependency_graph,
}
use aimem.Dependencies.Walk.{Grounded, is_left}
use aimem.Dependencies.Accepted.{settled, validate_total, validate-accepted}
use aimem.Dependencies.Gather.{Bounded, locate_dependency_graph_total}
use aimem.Dependencies.Closed.{nodes_closed, locate_dependency_graph-closed}
use aimem.Dependencies.Composed.{locate-then-walk_iff}
use aimem.Tests.Project.{empty_db, task_id, other_id, now, content_in, task_at}

abbrev first : Task
first = task_at State.done 4

abbrev second : Task
second = record {
  id = other_id;
  revision = 1;
  coordination = none;
  content = record (content_in State.ready) { dependencies = task_id ∷ [] };
  created_at = now;
  updated_at = now;
}

abbrev two_tasks : Db
two_tasks = record empty_db {
  tasks =
      (
        task_id,
        record { state = State.done; archived = false; assignee = []; epic = []; body = first },
      )
      ∷ (
        other_id,
        record { state = State.ready; archived = false; assignee = []; epic = []; body = second },
      )
      ∷ [];
}

abbrev hub : Hub
hub = record {
  locate = λ id. some (bytes "aimem");
  access_id = λ p. bytes "A1";
  tables = λ p. two_tasks;
  verify = λ p a. true;
}

abbrev node_of : Task → Node
node_of t = record { id = t.id; task = t; project = bytes "aimem"; access_id = bytes "A1" }

abbrev nodes : List Node
nodes = node_of first ∷ node_of second ∷ []

abbrev current : List (Bytes × Task)
current = (task_id, first) ∷ (other_id, second) ∷ []

abbrev evidence : List Evidence
evidence =
    record { task_id = task_id; project = bytes "aimem"; access_id = bytes "A1"; revision = 4 } ∷ []

gathered : locate_dependency_graph hub other_id ≡ some (ok nodes)
unfolding locate_dependency_graph aimem.Dependencies.gather aimem.Dependencies.visit find_node
    find_task aimem.Prelude.str_eq aimem.Prelude.lookup
gathered = refl

rechecked : recheck hub other_id [] nodes ≡ ok current
unfolding recheck find_task aimem.Prelude.str_eq aimem.Prelude.lookup
    aimem.Dependencies.dependencies_equal
rechecked = refl

validated : validate hub other_id nodes ≡ some (ok (some second, evidence))
unfolding validate recheck walk aimem.Dependencies.walk_all dependencies_in
    aimem.Dependencies.collect find_node find_task aimem.Prelude.str_eq aimem.Prelude.lookup
    aimem.Dependencies.dependencies_equal
validated = refl

few_dependencies : Bounded hub
unfolding find_task aimem.Prelude.lookup
few_dependencies project id t h = ground (arith, h)

validate-accepted_example :
    (rows : List (Bytes × Task)) × (recheck hub other_id [] nodes ≡ ok rows)
    × (lookup other_id rows ≡ some second)
    × Grounded rows other_id
    × (all (settled rows other_id) (dependencies_in rows other_id) ≡ true)
validate-accepted_example = validate-accepted hub other_id nodes (some second) evidence validated

validate_total_example : is_some (validate hub other_id nodes) ≡ true
validate_total_example = validate_total hub other_id nodes

locate_dependency_graph_total_example : is_some (locate_dependency_graph hub other_id) ≡ true
locate_dependency_graph_total_example = locate_dependency_graph_total hub other_id few_dependencies

locate_dependency_graph-closed_example :
    (length nodes ≤ max_dependency_walk)
    × (is_some (find_node other_id nodes) ≡ true)
    × (nodes_closed nodes ≡ true)
locate_dependency_graph-closed_example = locate_dependency_graph-closed hub other_id nodes gathered

locate-then-walk_iff_example :
    (is_left (walk current (length current + 1) [] other_id []) ≡ true) ↔ Grounded current other_id
locate-then-walk_iff_example =
    locate-then-walk_iff hub hub other_id nodes current gathered rechecked

abbrev projects : Projects
projects = (bytes "aimem", some two_tasks) ∷ (bytes "user", none) ∷ []

abbrev ordinary : Projects
ordinary = (bytes "aimem", some two_tasks) ∷ []

-- A hint to a project that is gone, and the miss of another task.
abbrev hints : TaskHints
hints = record {
  loc = (task_id, bytes "old") ∷ [];
  miss = (bytes "01a17718-4ca9-7abc-9def-0123456789ff", 5) ∷ [];
}

facts :
    (full_task_id task_id ≡ true)
    × (readable ordinary ≡ true)
    × (holders task_id ordinary ≤ 1)
    × (held_reserved task_id ordinary ≡ false)
    × (misses_true ordinary hints.miss ≡ true)
    × ((full_task_id (bytes "01a17718-4ca9") || not (id_prefix_shape (bytes "01a17718-4ca9")))
        ≡ false)
unfolding full_task_id aimem.Text.matches aimem.Text.in_class readable holders held_reserved
    misses_true find_task aimem.Prelude.str_eq aimem.Prelude.lookup aimem.Prelude.has_prefix
    aimem.Db.is_reserved_project id_prefix_shape
facts = (refl, refl, omega arith, refl, refl, refl)

locate_task-scan_example :
    ((locate_task ordinary (record { projects = ordinary; moved = false } ∷ []) task_id 9 hints).0
      ≡ scan ordinary task_id)
    × (misses_true ordinary
          (locate_task ordinary
            (record { projects = ordinary; moved = false } ∷ [])
            task_id
            9
            hints).1.miss
        ≡ true)
locate_task-scan_example =
    locate_task-scan ordinary task_id 9 [] hints facts.0 facts.1 facts.2 facts.3 facts.4

abbrev attempts : List ScanAttempt
attempts = record { projects = ordinary; moved = false } ∷ []

located : (locate_task ordinary attempts task_id 9 hints).0 ≡ lives_in (bytes "aimem")
unfolding aimem.Locate.scan_from find_task aimem.Prelude.str_eq aimem.Prelude.lookup
    aimem.Db.is_reserved_project
located = (locate_task-scan ordinary task_id 9 [] hints facts.0 facts.1 facts.2 facts.3 facts.4).0

locate_task-is_home_example :
    (is_home task_id (bytes "aimem") ordinary || seen_home task_id 9 (bytes "aimem") attempts)
    ≡ true
locate_task-is_home_example =
    locate_task-is_home task_id 9 ordinary attempts hints (bytes "aimem") located

hints-IsBounded : IsBounded hints
hints-IsBounded = record { few_found = omega arith; few_missed = omega arith }

locate_task-IsBounded_example :
    IsBounded
      (locate_task ordinary (record { projects = ordinary; moved = false } ∷ []) task_id 9 hints).1
locate_task-IsBounded_example =
    locate_task-IsBounded ordinary (record { projects = ordinary; moved = false } ∷ []) task_id 9
      hints hints-IsBounded

resolve_task_id-Sound_example :
    Sound
      (bytes "01a17718-4ca9")
      ordinary
      (missed (bytes "01a17718-4ca9") 9 hints).0
      (resolve_task_id (bytes "01a17718-4ca9") ordinary 9 false hints).0
resolve_task_id-Sound_example =
    resolve_task_id-Sound (bytes "01a17718-4ca9") ordinary 9 false hints facts.5
