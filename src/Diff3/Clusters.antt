-- ===== src/Diff3/Clusters.antt =====
-- The clusters of touching hunks (the inner loop of Merge in internal/diff3/diff3.go): the loop ends,
-- and a cluster takes at least the hunk that opens it.
use aimem.Prelude.{
  ℕ, zero, suc, ◌+◌, ◌≤◌, ◌<◌, ◌≡◌, refl, sym, ◌++◌, List, [], ◌∷◌, some, Bool, true, false, ◌&&◌,
  leb, length, All, arith, Bool-cases, inl, inr,
}
use aimem.Diff3.{
  Hunk, overlaps, Absorbed, absorb, at_least, Cluster, grow, is_nil, opening, cluster,
}
use aimem.Diff3.Script.{Ordered}

-- Every hunk begins where it ends, or before.
abbrev pub Forward : List Hunk → Type 0
Forward = All (λ h. h.b1 ≤ h.b2)

pub Ordered-Forward : (lo : ℕ) (hs : List Hunk) (n : ℕ) → Ordered lo hs n → Forward hs
Ordered-Forward lo [] n h = tt
Ordered-Forward lo (x ∷ hs) n (a, b, c, d) = (b, Ordered-Forward (suc x.b2) hs n d)

pub overlaps_opening : (h : Hunk) (c2 : ℕ) → h.b1 ≤ h.b2 → h.b2 ≤ c2 → overlaps h h.b1 c2 ≡ true
unfolding overlaps
overlaps_opening h c2 a b = ground arith

pub overlaps_apart : (h : Hunk) (c1 c2 : ℕ) → c1 ≤ c2 → c2 < h.b1 → overlaps h c1 c2 ≡ false
unfolding overlaps
overlaps_apart h c1 c2 a b = ground arith

-- What a side's loop does: it splits the side's hunks, and the range only grows.
pub record Splits (c2 : ℕ) (hs : List Hunk) (a : Absorbed) : Type 0 where
  pub lengths : length a.taken + length a.rest ≡ length hs
  pub grows : c2 ≤ a.limit
  pub forward : Forward hs → Forward a.rest

pub absorb-Splits : (c1 c2 : ℕ) (hs : List Hunk) → Splits c2 hs (absorb c1 c2 hs)
unfolding absorb
absorb-Splits c1 c2 [] = record { lengths = omega arith; grows = omega arith; forward = λ f. f }
absorb-Splits c1 c2 (h ∷ hs) =
    let more : Splits (at_least c2 h.b2) hs (absorb c1 (at_least c2 h.b2) hs) =
      absorb-Splits c1 (at_least c2 h.b2) hs in
    elim (Bool-cases (overlaps h c1 c2)) [
      | inl hit ↦ rw hit (record {
        lengths = omega (arith, more.lengths);
        grows = ground (arith, more.grows);
        forward = λ f. more.forward f.1;
      })
      | inr miss ↦ rw miss (record { lengths = omega arith; grows = omega arith; forward = λ f. f })
    ]

abbrev hunks_left : Cluster → ℕ
hunks_left c = length c.rest_local + length c.rest_hub

-- What the loop's result keeps.
pub record Shrinks (ll hh : List Hunk) (c : Cluster) : Type 0 where
  pub fewer : length c.rest_local + length c.rest_hub ≤ length ll + length hh
  pub local_forward : Forward ll → Forward c.rest_local
  pub hub_forward : Forward hh → Forward c.rest_hub

taken_some : (hs : List Hunk) → is_nil hs ≡ false → 0 < length hs
taken_some [] h = cc
taken_some (x ∷ hs) h = omega arith

-- With more fuel than hunks the loop ends.
pub grow_total :
    (fuel c1 c2 : ℕ) (ls hs ll hh : List Hunk)
    → length ll + length hh < fuel
    → (c : Cluster) × (grow fuel c1 c2 ls hs ll hh ≡ some c) × Shrinks ll hh c
unfolding grow
grow_total zero c1 c2 ls hs ll hh h = absurd (omega arith)
grow_total (suc fuel) c1 c2 ls hs ll hh h =
    let a : Absorbed = absorb c1 c2 ll in
    let b : Absorbed = absorb c1 a.limit hh in
    let sa : Splits c2 ll a = absorb-Splits c1 c2 ll in
    let sb : Splits a.limit hh b = absorb-Splits c1 a.limit hh in
    elim (Bool-cases (is_nil a.taken && is_nil b.taken)) [
      | inl done ↦ (
        record { limit = c2; locals = ls; hubs = hs; rest_local = ll; rest_hub = hh },
        rw done refl,
        record { fewer = omega arith; local_forward = λ f. f; hub_forward = λ f. f },
      )
      | inr more ↦
          let less : length a.rest + length b.rest < fuel =
            ground (arith, taken_some a.taken, taken_some b.taken, sa.lengths, sb.lengths) in
          let (c, e, s) =
            grow_total fuel c1 b.limit (ls ++ a.taken) (hs ++ b.taken) a.rest b.rest less in
          (
            c,
            rw more e,
            record {
              fewer = omega (arith, s.fewer, sa.lengths, sb.lengths);
              local_forward = λ f. s.local_forward (sa.forward f);
              hub_forward = λ f. s.hub_forward (sb.forward f);
            },
          )
    ]

-- Where the first round takes a hunk, the loop leaves fewer.
grow_progress :
    (fuel c1 c2 : ℕ) (ls hs ll hh : List Hunk)
    → length ll + length hh < fuel
    → (is_nil (absorb c1 c2 ll).taken && is_nil (absorb c1 (absorb c1 c2 ll).limit hh).taken)
      ≡ false
    → (c : Cluster) × (grow fuel c1 c2 ls hs ll hh ≡ some c)
      × Shrinks ll hh c
      × (length c.rest_local + length c.rest_hub < length ll + length hh)
unfolding grow
grow_progress zero c1 c2 ls hs ll hh h more = absurd (omega arith)
grow_progress (suc fuel) c1 c2 ls hs ll hh h more =
    let a : Absorbed = absorb c1 c2 ll in
    let b : Absorbed = absorb c1 a.limit hh in
    let sa : Splits c2 ll a = absorb-Splits c1 c2 ll in
    let sb : Splits a.limit hh b = absorb-Splits c1 a.limit hh in
    let less : length a.rest + length b.rest < length ll + length hh =
      ground (arith, taken_some a.taken, taken_some b.taken, sa.lengths, sb.lengths) in
    let (c, e, s) =
      grow_total fuel c1 b.limit (ls ++ a.taken) (hs ++ b.taken) a.rest b.rest (omega arith) in
    (
      c,
      rw more e,
      record {
        fewer = omega (arith, s.fewer);
        local_forward = λ f. s.local_forward (sa.forward f);
        hub_forward = λ f. s.hub_forward (sb.forward f);
      },
      omega (arith, s.fewer),
    )

absorb-opening :
    (h : Hunk) (hs : List Hunk) (c2 : ℕ)
    → h.b1 ≤ h.b2
    → h.b2 ≤ c2
    → is_nil (absorb h.b1 c2 (h ∷ hs)).taken ≡ false
unfolding absorb
absorb-opening h hs c2 a b = rw (overlaps_opening h c2 a b) refl

-- The side whose first hunk opens the cluster takes it.
abbrev takes_none : Hunk → List Hunk → List Hunk → Bool
takes_none first ll hh =
    is_nil (absorb first.b1 first.b2 ll).taken
    && is_nil (absorb first.b1 (absorb first.b1 first.b2 ll).limit hh).taken

opens_local : (l : Hunk) (ll hh : List Hunk) → Forward (l ∷ ll) → takes_none l (l ∷ ll) hh ≡ false
opens_local l ll hh f = rw (absorb-opening l ll l.b2 f.0 (omega arith)) refl

opens_hub : (h : Hunk) (ll hh : List Hunk) → Forward (h ∷ hh) → takes_none h ll (h ∷ hh) ≡ false
opens_hub h ll hh f =
    let none_left : is_nil (absorb h.b1 (absorb h.b1 h.b2 ll).limit (h ∷ hh)).taken ≡ false =
      absorb-opening h hh (absorb h.b1 h.b2 ll).limit f.0 (absorb-Splits h.b1 h.b2 ll).grows in
    ground (arith, none_left)

-- The cluster of an opening hunk is found, and takes a hunk at least.
pub cluster_progress :
    (ll hh : List Hunk) (first : Hunk)
    → opening ll hh ≡ some first
    → Forward ll
    → Forward hh
    → (c : Cluster) × (cluster first ll hh ≡ some c)
      × Shrinks ll hh c
      × (length c.rest_local + length c.rest_hub < length ll + length hh)
unfolding cluster opening
cluster_progress ll hh first e fl fh =
    grow_progress (length ll + length hh + 1) first.b1 first.b2 [] [] ll hh (omega arith)
      (takes ll hh e fl fh)
  where
    takes :
        (ll hh : List Hunk)
        → opening ll hh ≡ some first
        → Forward ll
        → Forward hh
        → (is_nil (absorb first.b1 first.b2 ll).taken
            && is_nil (absorb first.b1 (absorb first.b1 first.b2 ll).limit hh).taken)
          ≡ false
    takes [] [] e fl fh = cc
    takes (l ∷ ll) [] e fl fh = let same : l ≡ first = cc in rw (sym same) (opens_local l ll [] fl)
    takes [] (h ∷ hh) e fl fh = let same : h ≡ first = cc in rw (sym same) (opens_hub h [] hh fh)
    takes (l ∷ ll) (h ∷ hh) e fl fh = elim (Bool-cases (leb l.b1 h.b1)) [
      | inl le ↦
          let same : l ≡ first = ground (arith, e, le) in
          rw (sym same) (opens_local l ll (h ∷ hh) fl)
      | inr gt ↦
          let same : h ≡ first = ground (arith, e, gt) in rw (sym same) (opens_hub h (l ∷ ll) hh fh)
    ]
