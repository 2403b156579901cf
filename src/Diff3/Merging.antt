-- ===== src/Diff3/Merging.antt =====
-- The loop of Merge (internal/diff3/diff3.go): it ends, without a panic, and a side that did not change
-- takes nothing from the other.
use aimem.Prelude.{
  ℕ, zero, suc, ◌+◌, ◌≤◌, ◌<◌, ◌≡◌, refl, ◌∙◌, ap, List, [], ◌∷◌, Option, none, some, true, false,
  ◌||◌, Bytes, ltb, leb, length, append-nil, arith, str_eq_refl,
}
use aimem.Diff3.{
  max_lines, Hunk, cut, diff, apply_within, Cluster, opening, cluster, lines_equal, resolve, Merged,
  changed_lines, merged, settle, after, merge_from, merge,
}
use aimem.Diff3.Slices.{cut-same, cut_within, slice-in, apply_within-cut}
use aimem.Diff3.Script.{cut_within-diff, Ordered, Ordered-weaken, diff-Ordered, diff_same}
use aimem.Diff3.Single.{cluster_local, cluster_hub, cluster_both}
use aimem.Diff3.Clusters.{Ordered-Forward, cluster_progress}
use aimem.Diff3.Ranges.{InRange, opening-earliest, cluster-InRange}

module _ (local_label hub_label : Bytes) (base : List Bytes) where
  -- One round of the loop, from what its slices, its cluster and the rest of it give.
  merge_from-opening :
      (fuel pos : ℕ) (ll hh : List Hunk) (first : Hunk) (c : Cluster) (s m : Merged)
      → pos ≤ first.b1
      → first.b1 ≤ length base
      → opening ll hh ≡ some first
      → cluster first ll hh ≡ some c
      → settle local_label hub_label base first.b1 c ≡ some s
      → merge_from local_label hub_label base fuel c.limit c.rest_local c.rest_hub ≡ merged m
      → merge_from local_label hub_label base (suc fuel) pos ll hh
        ≡ merged (after (cut pos first.b1 base) s m)
  unfolding merge_from
  merge_from-opening fuel pos ll hh first c s m le le' e found settled rest =
      rw (e, found, rest, settled, slice-in pos first.b1 base le le', merge_from) refl

  merge_from-end :
      (fuel pos : ℕ) (ll hh : List Hunk)
      → pos ≤ length base
      → opening ll hh ≡ none
      → merge_from local_label hub_label base (suc fuel) pos ll hh
        ≡ merged (record { lines = cut pos (length base) base; conflicts = 0 })
  unfolding merge_from
  merge_from-end fuel pos ll hh le e =
      rw (e, slice-in pos (length base) base le (omega arith), merge_from) refl

  -- A cluster in its range is rebuilt from both sides without a panic.
  settle_total :
      (c1 : ℕ) (c : Cluster)
      → InRange c1 (length base) c
      → (s : Merged) × (settle local_label hub_label base c1 c ≡ some s)
  unfolding settle
  settle_total c1 c r = (
    changed_lines local_label hub_label base c (cut_within base c1 c.limit c.locals)
        (cut_within base c1 c.limit c.hubs),
    rw (apply_within-cut base c1 c.limit c.locals r.high r.locals)
        (rw (apply_within-cut base c1 c.limit c.hubs r.high r.hubs) refl),
  )

  merge_from_total :
      (fuel pos : ℕ) (ll hh : List Hunk)
      → length ll + length hh < fuel
      → pos ≤ length base
      → Ordered pos ll (length base)
      → Ordered pos hh (length base)
      → (m : Merged) × (merge_from local_label hub_label base fuel pos ll hh ≡ merged m)
  merge_from_total zero pos ll hh lt le ol oh = absurd (omega arith)
  merge_from_total (suc fuel) pos ll hh lt le ol oh =
      go (opening ll hh) refl
        (λ c a b f g. merge_from_total fuel c.limit c.rest_local c.rest_hub a b f g)
    where
      go :
          (o : Option Hunk)
          → opening ll hh ≡ o
          → ((c : Cluster)
              → length c.rest_local + length c.rest_hub < fuel
              → c.limit ≤ length base
              → Ordered c.limit c.rest_local (length base)
              → Ordered c.limit c.rest_hub (length base)
              → (m : Merged) × (merge_from local_label hub_label base fuel c.limit c.rest_local
                    c.rest_hub
                  ≡ merged m))
          → (m : Merged) × (merge_from local_label hub_label base (suc fuel) pos ll hh ≡ merged m)
      go none e ih = (
        record { lines = cut pos (length base) base; conflicts = 0 },
        merge_from-end fuel pos ll hh le e,
      )
      go (some first) e ih =
          let (a, b, d, _, _) = opening-earliest pos (length base) ll hh first e ol oh in
          let (c, found, s, fewer) =
            cluster_progress ll hh first e (Ordered-Forward pos ll (length base) ol)
              (Ordered-Forward pos hh (length base) oh) in
          let r : InRange first.b1 (length base) c =
            cluster-InRange pos (length base) ll hh first c e ol oh found in
          let (settled, se) = settle_total first.b1 c r in
          let (m, rest) = ih c (omega arith) r.high r.rest_local r.rest_hub in
          (
            after (cut pos first.b1 base) settled m,
            merge_from-opening fuel pos ll hh first c settled m a (omega arith) e found se rest,
          )

  -- Merge of inputs of at most 4,000 lines gives lines and a count: its loops end, and no slice of
  -- the base panics.
  pub merge_total :
      (local hub : List Bytes)
      → length base ≤ max_lines
      → length local ≤ max_lines
      → length hub ≤ max_lines
      → (m : Merged) × (merge local_label hub_label base local hub ≡ merged m)
  unfolding merge
  merge_total local hub a b c =
      let hl = diff base local in
      let hh = diff base hub in
      let (m, e) =
        merge_from_total (length hl + length hh + 1) 0 hl hh (omega arith) (omega arith)
          (diff-Ordered base local) (diff-Ordered base hub) in
      let short : (ltb max_lines (length base)
            || ltb max_lines (length local)
            || ltb max_lines (length hub))
          ≡ false =
        ground arith in
      (m, rw short (rw e refl))

  -- A cluster of one hunk becomes the hunk's lines; the side without a hunk has the base's.
  within_one :
      (h : Hunk)
      → h.b1 ≤ h.b2
      → h.b2 ≤ length base
      → apply_within base h.b1 h.b2 (h ∷ []) ≡ some h.repl
  unfolding cut_within
  within_one h a b =
      apply_within-cut base h.b1 h.b2 (h ∷ []) b (omega arith, a, omega arith)
      ∙ rw (cut-same h.b1 base) (rw (cut-same h.b2 base) (ap some (append-nil h.repl)))

  within_none :
      (h : Hunk)
      → h.b1 ≤ h.b2
      → h.b2 ≤ length base
      → apply_within base h.b1 h.b2 [] ≡ some (cut_within base h.b1 h.b2 [])
  within_none h a b = apply_within-cut base h.b1 h.b2 [] b a

  lines_equal_refl : (ls : List Bytes) → lines_equal ls ls ≡ true
  unfolding lines_equal
  lines_equal_refl [] = refl
  lines_equal_refl (x ∷ xs) = rw (str_eq_refl x) (lines_equal_refl xs)

  module _ (h : Hunk) (ll hh : List Hunk) (a : h.b1 ≤ h.b2) (b : h.b2 ≤ length base) where
    settle_local :
        settle local_label hub_label base h.b1
          (record { limit = h.b2; locals = h ∷ []; hubs = []; rest_local = ll; rest_hub = hh })
        ≡ some (record { lines = h.repl; conflicts = 0 })
    unfolding settle
    settle_local = rw (within_one h a b) (rw (within_none h a b) refl)

    settle_hub :
        settle local_label hub_label base h.b1
          (record { limit = h.b2; locals = []; hubs = h ∷ []; rest_local = ll; rest_hub = hh })
        ≡ some (record { lines = h.repl; conflicts = 0 })
    unfolding settle
    settle_hub = rw (within_one h a b) (rw (within_none h a b) refl)

    settle_both :
        settle local_label hub_label base h.b1
          (record { limit = h.b2; locals = h ∷ []; hubs = h ∷ []; rest_local = ll; rest_hub = hh })
        ≡ some (record { lines = h.repl; conflicts = 0 })
    unfolding settle resolve
    settle_both = rw (within_one h a b) (rw (lines_equal_refl h.repl) refl)

  -- The rest of the base, where no hunk is left.
  no_hunk :
      (fuel pos : ℕ)
      → pos ≤ length base
      → merge_from local_label hub_label base (suc fuel) pos [] []
        ≡ merged (record { lines = cut_within base pos (length base) []; conflicts = 0 })
  unfolding cut_within opening
  no_hunk fuel pos le = merge_from-end fuel pos [] [] le refl

  -- The merge where one side has no hunk, and where both have the same: the base with those edits.
  merge_from_local :
      (fuel pos : ℕ) (hs : List Hunk)
      → length hs < fuel
      → pos ≤ length base
      → Ordered pos hs (length base)
      → merge_from local_label hub_label base fuel pos hs []
        ≡ merged (record { lines = cut_within base pos (length base) hs; conflicts = 0 })
  unfolding cut_within opening
  merge_from_local zero pos hs lt le o = absurd (omega arith)
  merge_from_local (suc fuel) pos [] lt le o = no_hunk fuel pos le
  merge_from_local (suc fuel) pos (h ∷ hs) lt le (a, b, c, d) =
      merge_from-opening fuel pos (h ∷ hs) [] h
        (record { limit = h.b2; locals = h ∷ []; hubs = []; rest_local = hs; rest_hub = [] })
        (record { lines = h.repl; conflicts = 0 })
        (record { lines = cut_within base h.b2 (length base) hs; conflicts = 0 }) a (omega arith)
        refl (cluster_local pos (length base) h hs (a, b, c, d)) (settle_local h hs [] b c)
        (merge_from_local fuel h.b2 hs (omega arith) c
          (Ordered-weaken (suc h.b2) h.b2 hs (length base) (omega arith) d))

  merge_from_hub :
      (fuel pos : ℕ) (hs : List Hunk)
      → length hs < fuel
      → pos ≤ length base
      → Ordered pos hs (length base)
      → merge_from local_label hub_label base fuel pos [] hs
        ≡ merged (record { lines = cut_within base pos (length base) hs; conflicts = 0 })
  unfolding cut_within opening
  merge_from_hub zero pos hs lt le o = absurd (omega arith)
  merge_from_hub (suc fuel) pos [] lt le o = no_hunk fuel pos le
  merge_from_hub (suc fuel) pos (h ∷ hs) lt le (a, b, c, d) =
      merge_from-opening fuel pos [] (h ∷ hs) h
        (record { limit = h.b2; locals = []; hubs = h ∷ []; rest_local = []; rest_hub = hs })
        (record { lines = h.repl; conflicts = 0 })
        (record { lines = cut_within base h.b2 (length base) hs; conflicts = 0 }) a (omega arith)
        refl (cluster_hub pos (length base) h hs (a, b, c, d)) (settle_hub h [] hs b c)
        (merge_from_hub fuel h.b2 hs (omega arith) c
          (Ordered-weaken (suc h.b2) h.b2 hs (length base) (omega arith) d))

  merge_from_both :
      (fuel pos : ℕ) (hs : List Hunk)
      → length hs < fuel
      → pos ≤ length base
      → Ordered pos hs (length base)
      → merge_from local_label hub_label base fuel pos hs hs
        ≡ merged (record { lines = cut_within base pos (length base) hs; conflicts = 0 })
  unfolding cut_within opening
  merge_from_both zero pos hs lt le o = absurd (omega arith)
  merge_from_both (suc fuel) pos [] lt le o = no_hunk fuel pos le
  merge_from_both (suc fuel) pos (h ∷ hs) lt le (a, b, c, d) =
      let same : leb h.b1 h.b1 ≡ true = ground arith in
      merge_from-opening fuel pos (h ∷ hs) (h ∷ hs) h
        (record { limit = h.b2; locals = h ∷ []; hubs = h ∷ []; rest_local = hs; rest_hub = hs })
        (record { lines = h.repl; conflicts = 0 })
        (record { lines = cut_within base h.b2 (length base) hs; conflicts = 0 }) a (omega arith)
        (rw same refl) (cluster_both pos (length base) h hs (a, b, c, d)) (settle_both h hs hs b c)
        (merge_from_both fuel h.b2 hs (omega arith) c
          (Ordered-weaken (suc h.b2) h.b2 hs (length base) (omega arith) d))

  -- Where only one side changed, and where both made the same change, Merge of inputs of at most
  -- 4,000 lines gives the changed side, with no conflict.
  pub merge_one_sided :
      (other : List Bytes)
      → length base ≤ max_lines
      → length other ≤ max_lines
      → (merge local_label hub_label base other base
          ≡ merged (record { lines = other; conflicts = 0 }))
        × (merge local_label hub_label base base other
            ≡ merged (record { lines = other; conflicts = 0 }))
        × (merge local_label hub_label base other other
            ≡ merged (record { lines = other; conflicts = 0 }))
  unfolding merge
  merge_one_sided other a b =
      let hs = diff base other in
      let o : Ordered 0 hs (length base) = diff-Ordered base other in
      let short : ltb max_lines (length base) ≡ false = ground arith in
      let short' : ltb max_lines (length other) ≡ false = ground arith in
      let given : cut_within base 0 (length base) hs ≡ other = cut_within-diff base other in
      (
        rw short (
            rw short' (
              rw (diff_same base) (
                rw (merge_from_local (length hs + 0 + 1) 0 hs (omega arith) (omega arith) o)
                  (rw given refl)))),
        rw short (
            rw short' (
              rw (diff_same base) (
                rw (merge_from_hub (0 + length hs + 1) 0 hs (omega arith) (omega arith) o)
                  (rw given refl)))),
        rw short (
            rw short' (
              rw (merge_from_both (length hs + length hs + 1) 0 hs (omega arith) (omega arith) o)
                (rw given refl))),
      )
