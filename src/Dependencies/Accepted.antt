-- ===== src/Dependencies/Accepted.antt =====
-- What validateDependencyGraph (internal/store/task_reservation_dependencies.go) accepts.
use aimem.Prelude.{
  if-cases, ℕ, ◌+◌, ◌≡◌, refl, Bool, true, false, not, ◌&&◌, List, [], ◌∷◌, Option, none, some,
  Bytes, str_eq, if◌then◌else◌, all, length, lookup, is_some, arith, inl, inr,
}
use aimem.Task.{Task}
use aimem.Task.State
use aimem.Error.{Result, ok, err, dependency_unresolved}
use aimem.Dependencies.{
  Node, Evidence, Hub, contains, find_node, dependencies_in, Walked, unresolved, out_of_fuel, left,
  walk, evidence_of, with_first, prepend, collect, recheck, with_owner, claim_evidence,
  after_recheck, validate,
}
use aimem.Dependencies.Walk.{
  Grounded, all-member, is_out, walk-grounded, walk-ends, remaining-start,
}

-- The dependency is DONE, and is not the owner itself.
abbrev pub state_done : Option Task → Bool
state_done none = false
state_done (some t) = str_eq t.content.state State.done

abbrev pub settled : List (Bytes × Task) → Bytes → Bytes → Bool
settled current owner d = not (str_eq d owner) && state_done (lookup d current)

pub with_first-ok :
    {A B : Type 0} (r : Result A) (f : A → B) (rest : Result (List B)) (bs : List B)
    → with_first r f rest ≡ ok bs
    → (a : A) × (cs : List B) × (r ≡ ok a) × (rest ≡ ok cs) × (bs ≡ f a ∷ cs)
unfolding with_first prepend
with_first-ok (ok a) f (ok cs) bs h = (a, cs, refl, refl, cc)
with_first-ok (ok a) f (err e) bs h = cc
with_first-ok (err e) f rest bs h = cc

evidence_of-done :
    (d : Bytes) (n : Option Node) (t : Option Task) (e : Evidence)
    → evidence_of d n t ≡ ok e
    → state_done t ≡ true
unfolding evidence_of
evidence_of-done d none t e h = cc
evidence_of-done d (some n) none e h = cc
evidence_of-done d (some n) (some t) e h = ground (arith, h)

collect-settled :
    (nodes : List Node) (current : List (Bytes × Task)) (owner : Bytes) (seen_ids ds : List Bytes)
    (es : List Evidence)
    → all (settled current owner) seen_ids ≡ true
    → collect nodes current owner seen_ids ds ≡ ok es
    → all (settled current owner) ds ≡ true
unfolding collect
collect-settled nodes current owner seen_ids [] es a h = refl
collect-settled nodes current owner seen_ids (d ∷ ds) es a h =
    let skipped : Result (List Evidence) = collect nodes current owner seen_ids ds in
    let rest : Result (List Evidence) = collect nodes current owner (d ∷ seen_ids) ds in
    let first : Result Evidence = evidence_of d (find_node d nodes) (lookup d current) in
    elim (if-cases (str_eq d owner) (err dependency_unresolved)
      (if contains d seen_ids then skipped else with_first first (λ e. e) rest) h) [
        | inl (self, x) ↦ cc
        | inr (other, x) ↦
            elim (if-cases (contains d seen_ids) skipped (with_first first (λ e. e) rest) x) [
              | inl (again, y) ↦ ground (
                arith,
                all-member (settled current owner) seen_ids d a again,
                collect-settled nodes current owner seen_ids ds es a y,
              )
              | inr (fresh, y) ↦
                  let (e, cs, one, more, _) = with_first-ok first (λ e. e) rest es y in
                  let good : settled current owner d ≡ true = ground (
                    arith,
                    other,
                    evidence_of-done d (find_node d nodes) (lookup d current) e one,
                  ) in
                  let good' : all (settled current owner) (d ∷ seen_ids) ≡ true =
                    ground (arith, good, a) in
                  ground (
                    arith,
                    good,
                    collect-settled nodes current owner (d ∷ seen_ids) ds cs good' more,
                  )
            ]
      ]

with_owner-ok :
    (o t : Option Task) (r : Result (List Evidence)) (es : List Evidence)
    → with_owner o r ≡ ok (t, es)
    → (o ≡ t) × (r ≡ ok es)
with_owner-ok o t (ok fs) es h = (cc, cc)
with_owner-ok o t (err e) es h = cc

some-same : {A : Type 0} (a b : A) → some a ≡ some b → a ≡ b
some-same a b h = cc

module _ (hub : Hub) where
  claim_evidence-total :
      (nodes : List Node) (current : List (Bytes × Task)) (owner : Bytes) (w : Walked)
      → is_out w ≡ false
      → is_some (claim_evidence hub nodes current owner w) ≡ true
  unfolding claim_evidence
  claim_evidence-total nodes current owner unresolved h = refl
  claim_evidence-total nodes current owner out_of_fuel h = cc
  claim_evidence-total nodes current owner (left done) h = refl

  after_recheck-total :
      (nodes : List Node) (owner : Bytes) (r : Result (List (Bytes × Task)))
      → is_some (after_recheck hub nodes owner r) ≡ true
  unfolding after_recheck
  after_recheck-total nodes owner (err e) = refl
  after_recheck-total nodes owner (ok current) =
      claim_evidence-total nodes current owner (walk current (length current + 1) [] owner []) (
        walk-ends current (length current + 1) [] owner [] (omega (arith, remaining-start current)))

  -- The check of a gathered graph ends: its walk never runs out of fuel.
  pub validate_total :
      (owner : Bytes) (nodes : List Node) → is_some (validate hub owner nodes) ≡ true
  unfolding validate
  validate_total owner nodes = after_recheck-total nodes owner (recheck hub owner [] nodes)

  claim_evidence-accepted :
      (nodes : List Node) (current : List (Bytes × Task)) (owner : Bytes) (fuel : ℕ) (w : Walked)
      (t : Option Task) (es : List Evidence)
      → walk current fuel [] owner [] ≡ w
      → claim_evidence hub nodes current owner w ≡ some (ok (t, es))
      → (lookup owner current ≡ t)
        × Grounded current owner
        × (all (settled current owner) (dependencies_in current owner) ≡ true)
  unfolding claim_evidence
  claim_evidence-accepted nodes current owner fuel unresolved t es e h = cc
  claim_evidence-accepted nodes current owner fuel out_of_fuel t es e h = cc
  claim_evidence-accepted nodes current owner fuel (left done) t es e h =
      let found : Result (List Evidence) =
        collect nodes current owner [] (dependencies_in current owner) in
      let (same, one) = with_owner-ok (lookup owner current) t found es (some-same _ _ h) in
      (
        same,
        (walk-grounded current fuel [] owner [] done (λ x m. cc) e).1,
        collect-settled nodes current owner [] (dependencies_in current owner) es refl one,
      )

  after_recheck-accepted :
      (nodes : List Node) (owner : Bytes) (r : Result (List (Bytes × Task))) (t : Option Task)
      (es : List Evidence)
      → after_recheck hub nodes owner r ≡ some (ok (t, es))
      → (current : List (Bytes × Task)) × (r ≡ ok current)
        × (lookup owner current ≡ t)
        × Grounded current owner
        × (all (settled current owner) (dependencies_in current owner) ≡ true)
  unfolding after_recheck
  after_recheck-accepted nodes owner (err e) t es h = cc
  after_recheck-accepted nodes owner (ok current) t es h =
      let (a, b, c) =
        claim_evidence-accepted nodes current owner (length current + 1)
          (walk current (length current + 1) [] owner []) t es refl h in
      (current, refl, a, b, c)

  -- An accepted graph: read again as it is now, the owner is the answered task, every chain of
  -- dependencies from it ends, and each of its dependencies is DONE and is not the owner.
  pub validate-accepted :
      (owner : Bytes) (nodes : List Node) (t : Option Task) (es : List Evidence)
      → validate hub owner nodes ≡ some (ok (t, es))
      → (current : List (Bytes × Task)) × (recheck hub owner [] nodes ≡ ok current)
        × (lookup owner current ≡ t)
        × Grounded current owner
        × (all (settled current owner) (dependencies_in current owner) ≡ true)
  unfolding validate
  validate-accepted owner nodes t es h =
      after_recheck-accepted nodes owner (recheck hub owner [] nodes) t es h
