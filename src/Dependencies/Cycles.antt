-- ===== src/Dependencies/Cycles.antt =====
-- Which graphs the walk of validateDependencyGraph (internal/store/task_reservation_dependencies.go)
-- accepts: where every dependency is there, those without a cycle below the owner.
use aimem.Prelude.{
  ℕ, zero, suc, ◌+◌, ◌≡◌, ◌↔◌, refl, sym, ap, ◌∙◌, Bool, true, false, not, List, [], ◌∷◌, Bytes,
  str_eq, str_eq_refl, if◌then◌else◌, all, length, lookup, is_some, arith, Bool-cases, inl, inr,
  ◌⊎◌,
}
use mathlib.Core.Path.{subst}
use aimem.Task.{Task}
use aimem.Dependencies.{
  contains, dependencies_in, dependencies_of, Walked, unresolved, out_of_fuel, left, walked_then,
  walk_all, finished, walk,
}
use aimem.Dependencies.Walk.{
  Grounded, grounded, contains-cons, all-member, is_left, is_out, walk-grounded, walk-ends,
  remaining-start,
}

-- A chain of one dependency or more.
pub data Chain (current : List (Bytes × Task)) : Bytes → Bytes → Type 0 where
  direct : (a b : Bytes) → contains b (dependencies_in current a) ≡ true → Chain current a b
  further :
      (a b c : Bytes)
      → contains b (dependencies_in current a) ≡ true
      → Chain current b c
      → Chain current a c

-- Every dependency of a task in the table is in the table.
unfoldable pub is_closed : List (Bytes × Task) → Bool
is_closed current =
    all (λ row. all (λ d. is_some (lookup d current)) (dependencies_of row.1)) current

module _ (current : List (Bytes × Task)) where
  Chain-next :
      (a b c : Bytes)
      → Chain current a b
      → contains c (dependencies_in current b) ≡ true
      → Chain current a c
  Chain-next a b c (direct _ _ m) n = further a b c m (direct b c n)
  Chain-next a b c (further _ x _ m rest) n = further a x c m (Chain-next x b c rest n)

  -- An id all of whose chains end is on no cycle.
  pub Grounded-acyclic : (x : Bytes) → Grounded current x → ¬ Chain current x x
  Grounded-acyclic x (grounded _ below) (direct _ _ m) =
      Grounded-acyclic x (below x m) (direct x x m)
  Grounded-acyclic x (grounded _ below) (further _ b _ m rest) =
      Grounded-acyclic b (below b m) (Chain-next b x b rest m)

  pub Grounded-below : (x y : Bytes) → Grounded current x → Chain current x y → Grounded current y
  Grounded-below x y (grounded _ below) (direct _ _ m) = below y m
  Grounded-below x y (grounded _ below) (further _ b _ m rest) = Grounded-below b y (below b m) rest

  -- The dependencies of the first row, and of another.
  own :
      (k : Bytes) (t : Task) (rows : List (Bytes × Task)) (id : Bytes)
      → str_eq k id ≡ true
      → dependencies_in ((k, t) ∷ rows) id ≡ dependencies_of t
  unfolding dependencies_in lookup
  own k t rows id same = rw (same, dependencies_in) refl

  later :
      (k : Bytes) (t : Task) (rows : List (Bytes × Task)) (id : Bytes)
      → str_eq k id ≡ false
      → dependencies_in ((k, t) ∷ rows) id ≡ dependencies_in rows id
  unfolding dependencies_in lookup
  later k t rows id other = rw (other, dependencies_in) refl

  rows-closed :
      (rows : List (Bytes × Task)) (id d : Bytes)
      → all (λ row. all (λ d. is_some (lookup d current)) (dependencies_of row.1)) rows ≡ true
      → contains d (dependencies_in rows id) ≡ true
      → is_some (lookup d current) ≡ true
  unfolding dependencies_in lookup
  rows-closed [] id d a m = cc
  rows-closed ((k, t) ∷ rows) id d a m = elim (Bool-cases (str_eq k id)) [
    | inl same ↦
        all-member (λ d. is_some (lookup d current)) (dependencies_of t) d (ground (arith, a))
          (ap (contains d) (sym (own k t rows id same)) ∙ m)
    | inr other ↦
        rows-closed rows id d (ground (arith, a))
          (ap (contains d) (sym (later k t rows id other)) ∙ m)
  ]

  abbrev is_unresolved : Walked → Bool
  is_unresolved unresolved = true
  is_unresolved (left done) = false
  is_unresolved out_of_fuel = false

  member-here : (d : Bytes) (ds : List Bytes) → contains d (d ∷ ds) ≡ true
  member-here d ds = rw (str_eq_refl d) refl

  member-there : (x d : Bytes) (ds : List Bytes) → contains x ds ≡ true → contains x (d ∷ ds) ≡ true
  member-there x d ds m = ground (arith, m)

  abbrev OnPath : List Bytes → Bytes → Type 0
  OnPath path id = (p : Bytes) → contains p path ≡ true → Chain current p id

  is_unresolved-if :
      (b : Bool) (x y : Walked)
      → (b ≡ true → is_unresolved x ≡ false)
      → (b ≡ false → is_unresolved y ≡ false)
      → is_unresolved (if b then x else y) ≡ false
  is_unresolved-if true x y h g = h refl
  is_unresolved-if false x y h g = g refl

  is_unresolved-then :
      (r : Walked) (f : List Bytes → Walked)
      → is_unresolved r ≡ false
      → ((done : List Bytes) → is_unresolved (f done) ≡ false)
      → is_unresolved (walked_then r f) ≡ false
  is_unresolved-then (left done) f h g = g done
  is_unresolved-then unresolved f h g = h
  is_unresolved-then out_of_fuel f h g = refl

  is_unresolved-finished :
      (id : Bytes) (r : Walked) → is_unresolved r ≡ false → is_unresolved (finished id r) ≡ false
  is_unresolved-finished id (left done) h = refl
  is_unresolved-finished id unresolved h = h
  is_unresolved-finished id out_of_fuel h = refl

  walk_all-accepts :
      (w : Bytes → List Bytes → Walked) (ds done : List Bytes)
      → ((d : Bytes)
          → contains d ds ≡ true
          → (is_some (lookup d current) ≡ true)
            × ((done' : List Bytes) → is_unresolved (w d done') ≡ false))
      → is_unresolved (walk_all current w ds done) ≡ false
  unfolding walk_all
  walk_all-accepts w [] done f = refl
  walk_all-accepts w (d ∷ ds) done f =
      let (there, first) = f d (member-here d ds) in
      is_unresolved-if (not (is_some (lookup d current))) unresolved
        (walked_then (w d done) (walk_all current w ds)) (λ missing. ground (arith, missing, there))
        (λ _.
          is_unresolved-then (w d done) (walk_all current w ds) (first done)
            (λ done'. walk_all-accepts w ds done' (λ x m. f x (member-there x d ds m))))

  -- On the way to a dependency the path is the old one and its owner.
  below :
      (path : List Bytes) (id d : Bytes)
      → OnPath path id
      → contains d (dependencies_in current id) ≡ true
      → OnPath (id ∷ path) d
  below path id d on m p h = go (contains-cons p id path h)
    where
      go : ((p ≡ id) ⊎ (contains p path ≡ true)) → Chain current p d
      go (inl same) = subst (λ q. Chain current q d) (sym same) (direct id d m)
      go (inr before) = Chain-next p id d (on p before) m

  opened :
      is_closed current ≡ true
      → all (λ row. all (λ d. is_some (lookup d current)) (dependencies_of row.1)) current ≡ true
  unfolding is_closed
  opened h = h

  walk-accepts :
      (fuel : ℕ) (path : List Bytes) (id : Bytes) (done : List Bytes)
      → is_closed current ≡ true
      → Grounded current id
      → OnPath path id
      → is_unresolved (walk current fuel path id done) ≡ false
  unfolding walk
  walk-accepts zero path id done closed g on = refl
  walk-accepts (suc fuel) path id done closed g on =
      let entered : Walked =
        walk_all current (walk current fuel (id ∷ path)) (dependencies_in current id) done in
      is_unresolved-if (contains id path) unresolved
        (if contains id done then left done else finished id entered)
        (λ cycle. absurd (Grounded-acyclic id g (on id cycle)))
        (λ _.
          is_unresolved-if (contains id done) (left done) (finished id entered) (λ _. refl)
            (λ _. is_unresolved-finished id entered (
              walk_all-accepts (walk current fuel (id ∷ path)) (dependencies_in current id) done
                (λ d m. (
                  rows-closed current id d (opened closed) m,
                  λ done'.
                      walk-accepts fuel (id ∷ path) d done' closed
                        (Grounded-below id d g (direct id d m)) (below path id d on m),
                )))))

  is_left-left : (r : Walked) → is_left r ≡ true → (done : List Bytes) × (r ≡ left done)
  is_left-left (left done) h = (done, refl)
  is_left-left unresolved h = cc
  is_left-left out_of_fuel h = cc

  left_if : (r : Walked) → is_unresolved r ≡ false → is_out r ≡ false → is_left r ≡ true
  left_if (left done) a b = refl
  left_if unresolved a b = cc
  left_if out_of_fuel a b = cc

  -- The walk of validateDependencyGraph, from an owner and with one unit of fuel more than tasks,
  -- accepts a graph in which no dependency is missing exactly where every chain from the owner ends.
  pub walk_iff :
      (owner : Bytes)
      → is_closed current ≡ true
      → (is_left (walk current (length current + 1) [] owner []) ≡ true) ↔ Grounded current owner
  walk_iff owner closed = (
    (λ h.
        let (done, e) = is_left-left (walk current (length current + 1) [] owner []) h in
        (walk-grounded current (length current + 1) [] owner [] done (λ x m. cc) e).1),
    (λ g.
        left_if (walk current (length current + 1) [] owner [])
          (walk-accepts (length current + 1) [] owner [] closed g (λ p m. cc))
          (walk-ends current (length current + 1) [] owner []
            (omega (arith, remaining-start current)))),
  )
