-- ===== src/Diff3/Single.antt =====
-- Clusters of one hunk (Merge in internal/diff3/diff3.go): where the hunks of a side are in order,
-- the next one is apart from the one that opens a cluster.
use aimem.Prelude.{
  ℕ, suc, ◌+◌, ◌≤◌, ◌≡◌, refl, ◌∙◌, ◌++◌, List, [], ◌∷◌, some, false, ◌&&◌, length, arith,
}
use aimem.Diff3.{Hunk, absorb, at_least, grow, is_nil, cluster}
use aimem.Diff3.Script.{Ordered}
use aimem.Diff3.Clusters.{overlaps_apart, overlaps_opening}

absorb_apart :
    (c1 c2 n : ℕ) (hs : List Hunk)
    → c1 ≤ c2
    → Ordered (suc c2) hs n
    → absorb c1 c2 hs ≡ record { limit = c2; taken = []; rest = hs }
unfolding absorb
absorb_apart c1 c2 n [] le o = refl
absorb_apart c1 c2 n (h ∷ hs) le o = rw (overlaps_apart h c1 c2 le (omega (arith, o.0))) refl

absorb_one :
    (lo n : ℕ) (h : Hunk) (hs : List Hunk)
    → Ordered lo (h ∷ hs) n
    → absorb h.b1 h.b2 (h ∷ hs) ≡ record { limit = h.b2; taken = h ∷ []; rest = hs }
unfolding absorb
absorb_one lo n h hs (a, b, c, d) =
    let same : at_least h.b2 h.b2 ≡ h.b2 = ground arith in
    rw (overlaps_opening h h.b2 b (omega arith))
      (rw same (rw (absorb_apart h.b1 h.b2 n hs b d) refl))

-- A round that takes `ta` and `tb` and does not move the range's end, and a round that takes none.
grow_round :
    (fuel c1 c2 : ℕ) (ls hs ll hh ta ra tb rb : List Hunk)
    → absorb c1 c2 ll ≡ record { limit = c2; taken = ta; rest = ra }
    → absorb c1 c2 hh ≡ record { limit = c2; taken = tb; rest = rb }
    → (is_nil ta && is_nil tb) ≡ false
    → grow (suc fuel) c1 c2 ls hs ll hh ≡ grow fuel c1 c2 (ls ++ ta) (hs ++ tb) ra rb
unfolding grow
grow_round fuel c1 c2 ls hs ll hh ta ra tb rb ea eb more = rw ea (rw eb (rw more refl))

grow_end :
    (fuel c1 c2 n : ℕ) (ls hs ll hh : List Hunk)
    → c1 ≤ c2
    → Ordered (suc c2) ll n
    → Ordered (suc c2) hh n
    → grow (suc fuel) c1 c2 ls hs ll hh
      ≡ some (record { limit = c2; locals = ls; hubs = hs; rest_local = ll; rest_hub = hh })
unfolding grow
grow_end fuel c1 c2 n ls hs ll hh le ol oh =
    rw (absorb_apart c1 c2 n ll le ol) (rw (absorb_apart c1 c2 n hh le oh) refl)

-- The cluster that `h` opens where the other side has no hunk left: only `h` itself.
pub cluster_local :
    (lo n : ℕ) (h : Hunk) (hs : List Hunk)
    → Ordered lo (h ∷ hs) n
    → cluster h (h ∷ hs) []
      ≡ some (record { limit = h.b2; locals = h ∷ []; hubs = []; rest_local = hs; rest_hub = [] })
unfolding cluster
cluster_local lo n h hs (a, b, c, d) =
    let fuel : length (h ∷ hs) + length {A = Hunk} [] + 1 ≡ suc (suc (length hs)) = omega arith in
    rw fuel (
      grow_round (suc (length hs)) h.b1 h.b2 [] [] (h ∷ hs) [] (h ∷ []) hs [] []
        (absorb_one lo n h hs (a, b, c, d)) (absorb_apart h.b1 h.b2 n [] b tt) refl
      ∙ grow_end (length hs) h.b1 h.b2 n (h ∷ []) [] hs [] b d tt)

pub cluster_hub :
    (lo n : ℕ) (h : Hunk) (hs : List Hunk)
    → Ordered lo (h ∷ hs) n
    → cluster h [] (h ∷ hs)
      ≡ some (record { limit = h.b2; locals = []; hubs = h ∷ []; rest_local = []; rest_hub = hs })
unfolding cluster
cluster_hub lo n h hs (a, b, c, d) =
    let fuel : length {A = Hunk} [] + length (h ∷ hs) + 1 ≡ suc (suc (length hs)) = omega arith in
    rw fuel (
      grow_round (suc (length hs)) h.b1 h.b2 [] [] [] (h ∷ hs) [] [] (h ∷ []) hs
        (absorb_apart h.b1 h.b2 n [] b tt) (absorb_one lo n h hs (a, b, c, d)) refl
      ∙ grow_end (length hs) h.b1 h.b2 n [] (h ∷ []) [] hs b tt d)

-- Where both sides have the same hunks, the cluster is the first of each.
pub cluster_both :
    (lo n : ℕ) (h : Hunk) (hs : List Hunk)
    → Ordered lo (h ∷ hs) n
    → cluster h (h ∷ hs) (h ∷ hs)
      ≡ some
          (record { limit = h.b2; locals = h ∷ []; hubs = h ∷ []; rest_local = hs; rest_hub = hs })
unfolding cluster
cluster_both lo n h hs (a, b, c, d) =
    let fuel : length (h ∷ hs) + length (h ∷ hs) + 1 ≡ suc (suc (suc (length hs + length hs))) =
      omega arith in
    let one : absorb h.b1 h.b2 (h ∷ hs) ≡ record { limit = h.b2; taken = h ∷ []; rest = hs } =
      absorb_one lo n h hs (a, b, c, d) in
    rw fuel (
      grow_round (suc (suc (length hs + length hs))) h.b1 h.b2 [] [] (h ∷ hs) (h ∷ hs) (h ∷ []) hs
        (h ∷ []) hs one one refl
      ∙ grow_end (suc (length hs + length hs)) h.b1 h.b2 n (h ∷ []) (h ∷ []) hs hs b d d)
