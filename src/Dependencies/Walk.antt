-- ===== src/Dependencies/Walk.antt =====
-- The colouring walk of validateDependencyGraph (internal/store/task_reservation_dependencies.go): it
-- ends, and it accepts where no chain of dependencies is endless.
use mathlib.Core.Path.{subst}
use aimem.Prelude.{
  if-cases, ℕ, zero, suc, ◌+◌, ◌≤◌, ◌<◌, ◌≡◌, refl, sym, ap, ◌∙◌, Bool, true, false, not, List, [],
  ◌∷◌, none, some, Bytes, str_eq, str_eq_iff, if◌then◌else◌, all, length, lookup, is_some, arith,
  Bool-cases, Option-cases, inl, inr, ◌⊎◌,
}
use aimem.Task.{Task}
use aimem.Dependencies.{
  contains, dependencies_in, Walked, unresolved, out_of_fuel, left, walked_then, walk_all, finished,
  walk,
}

-- Every chain of dependencies from the id ends.
pub data Grounded (current : List (Bytes × Task)) : Bytes → Type 0 where
  grounded :
      (id : Bytes)
      → ((d : Bytes) → contains d (dependencies_in current id) ≡ true → Grounded current d)
      → Grounded current id

pub contains-cons :
    (x y : Bytes) (ids : List Bytes)
    → contains x (y ∷ ids) ≡ true
    → (x ≡ y) ⊎ (contains x ids ≡ true)
contains-cons x y ids h = elim (Bool-cases (str_eq x y)) [
  | inl same ↦ inl ((str_eq_iff x y).0 same)
  | inr other ↦ inr (ground (arith, h, other))
]

pub all-member :
    (p : Bytes → Bool) (ids : List Bytes) (d : Bytes)
    → all p ids ≡ true
    → contains d ids ≡ true
    → p d ≡ true
all-member p [] d a m = cc
all-member p (x ∷ xs) d a m = elim (contains-cons d x xs m) [
  | inl same ↦ let first : p x ≡ true = ground (arith, a) in ap p same ∙ first
  | inr later ↦ all-member p xs d (ground (arith, a)) later
]

walked_then-left :
    (r : Walked) (f : List Bytes → Walked) (done : List Bytes)
    → walked_then r f ≡ left done
    → (mid : List Bytes) × (r ≡ left mid) × (f mid ≡ left done)
walked_then-left (left mid) f done h = (mid, refl, h)
walked_then-left unresolved f done h = cc
walked_then-left out_of_fuel f done h = cc

abbrev pub is_out : Walked → Bool
is_out out_of_fuel = true
is_out (left done) = false
is_out unresolved = false

abbrev pub is_left : Walked → Bool
is_left (left done) = true
is_left out_of_fuel = false
is_left unresolved = false

is_out-then :
    (r : Walked) (f : List Bytes → Walked)
    → is_out r ≡ false
    → ((done : List Bytes) → is_out (f done) ≡ false)
    → is_out (walked_then r f) ≡ false
is_out-then (left done) f h g = g done
is_out-then unresolved f h g = refl
is_out-then out_of_fuel f h g = cc

is_out-finished : (id : Bytes) (r : Walked) → is_out r ≡ false → is_out (finished id r) ≡ false
is_out-finished id (left done) h = refl
is_out-finished id unresolved h = refl
is_out-finished id out_of_fuel h = cc

finished-left :
    (id : Bytes) (r : Walked) (done : List Bytes)
    → finished id r ≡ left done
    → (mid : List Bytes) × (r ≡ left mid) × (done ≡ id ∷ mid)
finished-left id (left mid) done h = (mid, refl, cc)
finished-left id unresolved done h = cc
finished-left id out_of_fuel done h = cc

is_out-if :
    (b : Bool) (x y : Walked)
    → is_out x ≡ false
    → (b ≡ false → is_out y ≡ false)
    → is_out (if b then x else y) ≡ false
is_out-if true x y h g = h
is_out-if false x y h g = g refl

module _ (current : List (Bytes × Task)) where
  abbrev pub AllGrounded : List Bytes → Type 0
  AllGrounded done = (x : Bytes) → contains x done ≡ true → Grounded current x

  Grounded-cons :
      (d : Bytes) (ds : List Bytes) → Grounded current d → AllGrounded ds → AllGrounded (d ∷ ds)
  Grounded-cons d ds g gs x m = go (contains-cons x d ds m)
    where
      go : ((x ≡ d) ⊎ (contains x ds ≡ true)) → Grounded current x
      go (inl same) = subst (Grounded current) (sym same) g
      go (inr later) = gs x later

  abbrev pub Sound : (Bytes → List Bytes → Walked) → Type 0
  Sound w =
      (d : Bytes) (done done' : List Bytes)
      → AllGrounded done
      → w d done ≡ left done'
      → AllGrounded done' × Grounded current d

  walk_all-grounded :
      (w : Bytes → List Bytes → Walked)
      → Sound w
      → (ds done done' : List Bytes) → AllGrounded done
      → walk_all current w ds done ≡ left done'
      → AllGrounded done' × AllGrounded ds
  unfolding walk_all
  walk_all-grounded w sound [] done done' good h =
      let same : done ≡ done' = cc in (λ x m. good x (ap (contains x) same ∙ m), λ x m. cc)
  walk_all-grounded w sound (d ∷ ds) done done' good h =
      elim (if-cases (not (is_some (lookup d current))) unresolved
        (walked_then (w d done) (walk_all current w ds)) h) [
          | inl (missing, e) ↦ cc
          | inr (here, e) ↦
              let (mid, one, rest) = walked_then-left (w d done) (walk_all current w ds) done' e in
              let (good_mid, g) = sound d done mid good one in
              let (good', gs) = walk_all-grounded w sound ds mid done' good_mid rest in
              (good', Grounded-cons d ds g gs)
        ]

  pub walk-grounded : (fuel : ℕ) (path : List Bytes) → Sound (walk current fuel path)
  unfolding walk
  walk-grounded zero path d done done' good h = cc
  walk-grounded (suc fuel) path id done done' good h =
      let entered : Walked =
        walk_all current (walk current fuel (id ∷ path)) (dependencies_in current id) done in
      elim (if-cases (contains id path) unresolved
        (if contains id done then left done else finished id entered) h) [
          | inl (cycle, e) ↦ cc
          | inr (fresh, e) ↦
              elim (if-cases (contains id done) (left done) (finished id entered) e) [
                | inl (before, f) ↦
                    let same : done ≡ done' = cc in
                    (λ x m. good x (ap (contains x) same ∙ m), good id before)
                | inr (first, f) ↦
                    let (mid, g, same) = finished-left id entered done' f in
                    let (good_mid, ds) =
                      walk_all-grounded (walk current fuel (id ∷ path))
                        (walk-grounded fuel (id ∷ path)) (dependencies_in current id) done mid good
                        g in
                    let top : Grounded current id = grounded id ds in
                    (
                      λ x m. Grounded-cons id mid top good_mid x (sym (ap (contains x) same) ∙ m),
                      top,
                    )
              ]
        ]

  -- The walk's fuel is the nodes that the path has not entered.
  pub remaining : List Bytes → List (Bytes × Task) → ℕ
  remaining path [] = 0
  remaining path ((k, t) ∷ m) = (if contains k path then 0 else 1) + remaining path m

  remaining-le :
      (id : Bytes) (path : List Bytes) (m : List (Bytes × Task))
      → remaining (id ∷ path) m ≤ remaining path m
  unfolding remaining
  remaining-le id path [] = omega arith
  remaining-le id path ((k, t) ∷ m) = ground (arith, remaining-le id path m)

  remaining-lt :
      (id : Bytes) (path : List Bytes) (m : List (Bytes × Task)) (t : Task)
      → lookup id m ≡ some t
      → contains id path ≡ false
      → remaining (id ∷ path) m < remaining path m
  unfolding remaining lookup
  remaining-lt id path [] t h fresh = cc
  remaining-lt id path ((k, u) ∷ m) t h fresh = elim (Bool-cases (str_eq k id)) [
    | inl same ↦
        let entered : contains k path ≡ false =
          ap (λ z. contains z path) ((str_eq_iff k id).0 same) ∙ fresh in
        ground (arith, same, entered, remaining-le id path m)
    | inr other ↦
        let later : lookup id m ≡ some t = ground (arith, h, other) in
        ground (arith, other, remaining-lt id path m t later fresh)
  ]

  pub remaining-start : (m : List (Bytes × Task)) → remaining [] m ≡ length m
  unfolding remaining
  remaining-start [] = refl
  remaining-start ((k, t) ∷ m) = omega (arith, remaining-start m)

  dependencies_in-leaf : (id : Bytes) → lookup id current ≡ none → dependencies_in current id ≡ []
  unfolding dependencies_in
  dependencies_in-leaf id leaf = rw (leaf, dependencies_in) refl

  walk_all-ends :
      (w : Bytes → List Bytes → Walked)
      → ((d : Bytes) (done : List Bytes) → is_out (w d done) ≡ false)
      → (ds done : List Bytes) → is_out (walk_all current w ds done) ≡ false
  unfolding walk_all
  walk_all-ends w ends [] done = refl
  walk_all-ends w ends (d ∷ ds) done =
      is_out-if (not (is_some (lookup d current))) unresolved
        (walked_then (w d done) (walk_all current w ds)) refl
        (λ _.
          is_out-then (w d done) (walk_all current w ds) (ends d done) (walk_all-ends w ends ds))

  pub walk-ends :
      (fuel : ℕ) (path : List Bytes) (id : Bytes) (done : List Bytes)
      → remaining path current < fuel
      → is_out (walk current fuel path id done) ≡ false
  unfolding walk walk_all
  walk-ends zero path id done lt = absurd (omega arith)
  walk-ends (suc fuel) path id done lt =
      is_out-if (contains id path) unresolved
        (if contains id done then left done else finished id entered) refl
        (λ fresh. is_out-if (contains id done) (left done) (finished id entered) refl (λ _.
          is_out-finished id entered
            (deeper fresh (λ d done' less. walk-ends fuel (id ∷ path) d done' less))))
    where
      entered : Walked
      entered = walk_all current (walk current fuel (id ∷ path)) (dependencies_in current id) done

      deeper :
          contains id path ≡ false
          → ((d : Bytes) (done' : List Bytes)
              → remaining (id ∷ path) current < fuel
              → is_out (walk current fuel (id ∷ path) d done') ≡ false)
          → is_out entered ≡ false
      deeper fresh ends = elim (Option-cases (lookup id current)) [
        | inl leaf ↦
            ap (λ ds. is_out (walk_all current (walk current fuel (id ∷ path)) ds done))
              (dependencies_in-leaf id leaf)
        | inr (t, here) ↦
            walk_all-ends (walk current fuel (id ∷ path))
              (λ d done'.
                ends d done' (omega (arith, lt, remaining-lt id path current t here fresh)))
              (dependencies_in current id) done
      ]
