-- ===== src/Diff3/Ranges.antt =====
-- The range of a cluster (the inner loop of Merge in internal/diff3/diff3.go): the hunks that it takes
-- lie inside it, one after another, and those that are left begin at its end or later.
use aimem.Prelude.{
  ℕ, zero, suc, ◌≤◌, ◌≡◌, refl, sym, ap, ◌∙◌, List, [], ◌∷◌, ◌++◌, some, true, false, ◌&&◌, All,
  append_assoc, leb, arith, Bool-cases, inl, inr,
}
use mathlib.Core.Path.{subst}
use aimem.Diff3.{
  Hunk, overlaps, Absorbed, absorb, at_least, Cluster, grow, is_nil, opening, cluster,
}
use aimem.Diff3.Slices.{Fits}
use aimem.Diff3.Script.{Ordered, Ordered-weaken}

abbrev Within : ℕ → List Hunk → Type 0
Within c2 = All (λ h. h.b2 ≤ c2)

Within-grow : (c2 c2' : ℕ) (hs : List Hunk) → c2 ≤ c2' → Within c2 hs → Within c2' hs
Within-grow c2 c2' [] le w = tt
Within-grow c2 c2' (h ∷ hs) le (a, w) = (omega arith, Within-grow c2 c2' hs le w)

Within-append : (c2 : ℕ) (hs ks : List Hunk) → Within c2 hs → Within c2 ks → Within c2 (hs ++ ks)
Within-append c2 [] ks w v = v
Within-append c2 (h ∷ hs) ks (a, w) v = (a, Within-append c2 hs ks w v)

Ordered-suffix : (lo : ℕ) (ls ll : List Hunk) (n : ℕ) → Ordered lo (ls ++ ll) n → Ordered lo ll n
Ordered-suffix lo [] ll n o = o
Ordered-suffix lo (h ∷ ls) ll n (a, b, c, d) =
    Ordered-weaken (suc h.b2) lo ll n (omega arith) (Ordered-suffix (suc h.b2) ls ll n d)

Ordered-prefix_Fits :
    (lo c2 : ℕ) (ls ll : List Hunk) (n : ℕ)
    → lo ≤ c2
    → Within c2 ls
    → Ordered lo (ls ++ ll) n
    → Fits lo c2 ls
Ordered-prefix_Fits lo c2 [] ll n le w o = le
Ordered-prefix_Fits lo c2 (h ∷ ls) ll n le (e, w) (a, b, c, d) = (
  a,
  b,
  Ordered-prefix_Fits h.b2 c2 ls ll n e w
      (Ordered-weaken (suc h.b2) h.b2 (ls ++ ll) n (omega arith) d),
)

-- What a side's loop takes: a start of its hunks, inside the range, which grows within the base.
record Takes (c2 n : ℕ) (hs : List Hunk) (a : Absorbed) : Type 0 where
  grows : c2 ≤ a.limit
  high : a.limit ≤ n
  inside : Within a.limit a.taken
  parts : a.taken ++ a.rest ≡ hs

absorb-Takes :
    (c1 c2 n : ℕ) (hs : List Hunk) → c2 ≤ n → Ordered c1 hs n → Takes c2 n hs (absorb c1 c2 hs)
unfolding absorb
absorb-Takes c1 c2 n [] le o = record { grows = omega arith; high = le; inside = tt; parts = refl }
absorb-Takes c1 c2 n (h ∷ hs) le (a, b, c, d) =
    let more : Takes (at_least c2 h.b2) n hs (absorb c1 (at_least c2 h.b2) hs) =
      absorb-Takes c1 (at_least c2 h.b2) n hs (ground arith)
        (Ordered-weaken (suc h.b2) c1 hs n (omega arith) d) in
    elim (Bool-cases (overlaps h c1 c2)) [
      | inl hit ↦ rw hit (record {
        grows = ground (arith, more.grows);
        high = more.high;
        inside = (ground (arith, more.grows), more.inside);
        parts = ap (λ ks. h ∷ ks) more.parts;
      })
      | inr miss ↦ rw miss (record { grows = omega arith; high = le; inside = tt; parts = refl })
    ]

-- A side that takes none leaves the range, and its next hunk begins at the range's end or later.
absorb-none :
    (c1 c2 n : ℕ) (hs : List Hunk)
    → c1 ≤ c2
    → Ordered c1 hs n
    → is_nil (absorb c1 c2 hs).taken ≡ true
    → ((absorb c1 c2 hs).limit ≡ c2) × Ordered c2 hs n
unfolding absorb overlaps
absorb-none c1 c2 n [] le o e = (refl, tt)
absorb-none c1 c2 n (h ∷ hs) le (a, b, c, d) e = elim (Bool-cases (overlaps h c1 c2)) [
  | inl hit ↦ let no : false ≡ true = rw hit at e in cc
  | inr miss ↦ rw miss (refl, (ground (arith, miss), b, c, d))
]

-- What Merge needs of a cluster that begins at `c1`.
pub record InRange (c1 n : ℕ) (c : Cluster) : Type 0 where
  pub low : c1 ≤ c.limit
  pub high : c.limit ≤ n
  pub locals : Fits c1 c.limit c.locals
  pub hubs : Fits c1 c.limit c.hubs
  pub rest_local : Ordered c.limit c.rest_local n
  pub rest_hub : Ordered c.limit c.rest_hub n

-- A side's hunks in a growing cluster: those taken, then those left, are in order.
abbrev Side : ℕ → ℕ → ℕ → List Hunk → List Hunk → Type 0
Side c1 c2 n ls ll = Ordered c1 (ls ++ ll) n × Within c2 ls

Side-Takes :
    (c1 c2 c2' n : ℕ) (ls ll : List Hunk) (a : Absorbed)
    → Side c1 c2 n ls ll
    → Takes c2' n ll a
    → (limit : ℕ) → c2 ≤ limit
    → a.limit ≤ limit
    → Side c1 limit n (ls ++ a.taken) a.rest
Side-Takes c1 c2 c2' n ls ll a (o, w) t limit le le' = (
  subst (λ ks. Ordered c1 ks n)
      (ap (λ ks. ls ++ ks) (sym t.parts) ∙ sym (append_assoc ls a.taken a.rest)) o,
  Within-append limit ls a.taken (Within-grow c2 limit ls le w)
      (Within-grow a.limit limit a.taken le' t.inside),
)

grow-InRange :
    (fuel c1 c2 n : ℕ) (ls hs ll hh : List Hunk) (c : Cluster)
    → c1 ≤ c2
    → c2 ≤ n
    → Side c1 c2 n ls ll
    → Side c1 c2 n hs hh
    → grow fuel c1 c2 ls hs ll hh ≡ some c
    → InRange c1 n c
unfolding grow
grow-InRange zero c1 c2 n ls hs ll hh c le le' l h e = cc
grow-InRange (suc fuel) c1 c2 n ls hs ll hh c le le' l h e =
    let a : Absorbed = absorb c1 c2 ll in
    let b : Absorbed = absorb c1 a.limit hh in
    let ol : Ordered c1 ll n = Ordered-suffix c1 ls ll n l.0 in
    let oh : Ordered c1 hh n = Ordered-suffix c1 hs hh n h.0 in
    let ta : Takes c2 n ll a = absorb-Takes c1 c2 n ll le' ol in
    let tb : Takes a.limit n hh b = absorb-Takes c1 a.limit n hh ta.high oh in
    elim (Bool-cases (is_nil a.taken && is_nil b.taken)) [
      | inl done ↦
          let last : Cluster = record {
            limit = c2;
            locals = ls;
            hubs = hs;
            rest_local = ll;
            rest_hub = hh;
          } in
          let ended : some last ≡ some c = rw done at e in
          let same : last ≡ c = cc in
          let (stays, left) = absorb-none c1 c2 n ll le ol (ground (arith, done)) in
          let (_, right) = absorb-none c1 a.limit n hh (omega arith) oh (ground (arith, done)) in
          subst (InRange c1 n) same (record {
            low = le;
            high = le';
            locals = Ordered-prefix_Fits c1 c2 ls ll n le l.1 l.0;
            hubs = Ordered-prefix_Fits c1 c2 hs hh n le h.1 h.0;
            rest_local = left;
            rest_hub = rw stays at right;
          })
      | inr more ↦
          grow-InRange fuel c1 b.limit n (ls ++ a.taken) (hs ++ b.taken) a.rest b.rest c
            (omega (arith, ta.grows, tb.grows)) tb.high
            (Side-Takes c1 c2 c2 n ls ll a l ta b.limit (omega (arith, ta.grows, tb.grows))
              tb.grows)
            (Side-Takes c1 c2 a.limit n hs hh b h tb b.limit (omega (arith, ta.grows, tb.grows))
              (omega arith))
            (rw more at e)
    ]

-- The earliest hunk opens a cluster at its own range, and both sides' hunks begin there or later.
pub opening-earliest :
    (lo n : ℕ) (ll hh : List Hunk) (first : Hunk)
    → opening ll hh ≡ some first
    → Ordered lo ll n
    → Ordered lo hh n
    → (lo ≤ first.b1)
      × (first.b1 ≤ first.b2)
      × (first.b2 ≤ n)
      × Ordered first.b1 ll n
      × Ordered first.b1 hh n
unfolding opening
opening-earliest lo n [] [] first e ol oh = cc
opening-earliest lo n (l ∷ ll) [] first e (a, b, c, d) oh =
    let same : l ≡ first = cc in rw (sym same) (a, b, c, (omega arith, b, c, d), tt)
opening-earliest lo n [] (h ∷ hh) first e ol (a, b, c, d) =
    let same : h ≡ first = cc in rw (sym same) (a, b, c, tt, (omega arith, b, c, d))
opening-earliest lo n (l ∷ ll) (h ∷ hh) first e (a, b, c, d) (a', b', c', d') =
    elim (Bool-cases (leb l.b1 h.b1)) [
      | inl le ↦
          let same : l ≡ first = ground (arith, e, le) in
          rw (sym same) (a, b, c, (omega arith, b, c, d), (ground (arith, le), b', c', d'))
      | inr gt ↦
          let same : h ≡ first = ground (arith, e, gt) in
          rw (sym same) (a', b', c', (ground (arith, gt), b, c, d), (omega arith, b', c', d'))
    ]

-- The cluster of the opening hunk stands in its range.
pub cluster-InRange :
    (lo n : ℕ) (ll hh : List Hunk) (first : Hunk) (c : Cluster)
    → opening ll hh ≡ some first
    → Ordered lo ll n
    → Ordered lo hh n
    → cluster first ll hh ≡ some c
    → InRange first.b1 n c
unfolding cluster
cluster-InRange lo n ll hh first c e ol oh found =
    let (_, b, k, l, h) = opening-earliest lo n ll hh first e ol oh in
    grow-InRange _ first.b1 first.b2 n [] [] ll hh c b k (l, tt) (h, tt) found
