-- ===== src/Diff3/Script.antt =====
-- The edit script (diff and applyWithin of internal/diff3/diff3.go): applied to the base it gives the
-- other side, and its hunks are in order, apart, and inside the base.
use aimem.Prelude.{
  ℕ, suc, ◌+◌, ◌≤◌, ◌≡◌, refl, sym, ap, ◌∙◌, ◌++◌, List, [], ◌∷◌, Option, none, some, Bytes, str_eq,
  str_eq_iff, str_eq_refl, leb, length, append-nil, append_assoc, arith, Bool-cases, inl, inr,
}
use aimem.Diff3.{
  Hunk, cut, cell, Region, region_at, extended, closed, walk, lcs_table, diff, apply_within,
}
use aimem.Diff3.Slices.{Suffix, Suffix-next, cut-same, cut-next, cut_within, Fits, apply_within-cut}

-- What the walk has still to give: the base from `cur` to the open region or to base[i], then the
-- region's lines.
abbrev pending : ℕ → ℕ → Option Region → List Bytes → List Bytes
pending cur i none base = cut cur i base
pending cur i (some r) base = cut cur r.start base ++ r.lines

abbrev start_of : ℕ → Option Region → ℕ
start_of i none = i
start_of i (some r) = r.start

-- A region opened at base[i], or extended there, still holds what was pending.
pending-region :
    (cur i : ℕ) (o : Option Region) (base : List Bytes)
    → pending cur i (some (region_at i o)) base ≡ pending cur i o base
pending-region cur i none base = append-nil (cut cur i base)
pending-region cur i (some r) base = refl

pending-extended :
    (cur i : ℕ) (o : Option Region) (y : Bytes) (ys base : List Bytes)
    → pending cur i (some (extended (region_at i o) y)) base ++ ys ≡ pending cur i o base ++ y ∷ ys
pending-extended cur i none y ys base = append_assoc (cut cur i base) (y ∷ []) ys
pending-extended cur i (some r) y ys base = simp append_assoc

start-region : (i : ℕ) (o : Option Region) → (region_at i o).start ≡ start_of i o
start-region i none = refl
start-region i (some r) = refl

module _ (base : List Bytes) (t : List (List ℕ)) where
  -- At the base's end the pending lines are a last hunk.
  apply-last :
      (cur i : ℕ) (o : Option Region)
      → i ≡ length base
      → cut_within base cur (length base) (closed i o []) ≡ pending cur i o base
  unfolding cut_within
  apply-last cur i none e = rw e refl
  apply-last cur i (some r) e = rw e (
      rw (cut-same (length base) base) (ap (λ zs. cut cur r.start base ++ zs) (append-nil r.lines)))

  -- A line that both sides have closes the region.
  apply-matched :
      (cur i : ℕ) (o : Option Region) (x : Bytes) (xs ys : List Bytes) (rest : List Hunk)
      → cur ≤ start_of i o
      → start_of i o ≤ i
      → Suffix i (x ∷ xs) base
      → ((c : ℕ) → c ≤ i → cut_within base c (length base) rest ≡ cut c (i + 1) base ++ ys)
      → cut_within base cur (length base) (closed i o rest) ≡ pending cur i o base ++ x ∷ ys
  unfolding cut_within
  apply-matched cur i none x xs ys rest le le' (at, n) ih =
      ih cur le
      ∙ ap (λ zs. zs ++ ys) (cut-next cur i x xs base le at)
      ∙ append_assoc (cut cur i base) (x ∷ []) ys
  apply-matched cur i (some r) x xs ys rest le le' (at, n) ih =
      let one : cut i (i + 1) base ≡ x ∷ [] =
        cut-next i i x xs base (omega arith) at ∙ ap (λ zs. zs ++ x ∷ []) (cut-same i base) in
      ap (λ zs. cut cur r.start base ++ (r.lines ++ zs))
        (ih i (omega arith) ∙ ap (λ zs. zs ++ ys) one)
      ∙ sym (append_assoc (cut cur r.start base) r.lines (x ∷ ys))

  apply-walk :
      (cur i j : ℕ) (bs os : List Bytes) (o : Option Region)
      → cur ≤ start_of i o
      → start_of i o ≤ i
      → Suffix i bs base
      → cut_within base cur (length base) (walk t i j bs os o) ≡ pending cur i o base ++ os
  unfolding walk
  apply-walk cur i j [] [] o le le' s =
      apply-last cur i o (omega (arith, s.1)) ∙ sym (append-nil (pending cur i o base))
  apply-walk cur i j [] (y ∷ ys) o le le' s =
      apply-walk cur i (j + 1) [] ys (some (extended (region_at i o) y))
        (omega (arith, start-region i o)) (omega (arith, start-region i o)) s
      ∙ pending-extended cur i o y ys base
  apply-walk cur i j (x ∷ xs) [] o le le' s =
      apply-walk cur (i + 1) j xs [] (some (region_at i o)) (omega (arith, start-region i o))
        (omega (arith, start-region i o)) (Suffix-next i x xs base s)
      ∙ ap (λ zs. zs ++ []) (pending-region cur i o base)
  apply-walk cur i j (x ∷ xs) (y ∷ ys) o le le' s = elim (Bool-cases (str_eq x y)) [
    | inl same ↦ rw same (
        apply-matched cur i o x xs ys (walk t (i + 1) (j + 1) xs ys none) le le' s (λ c h.
          apply-walk c (i + 1) (j + 1) xs ys none (omega arith) (omega arith)
            (Suffix-next i x xs base s))
        ∙ ap (λ z. pending cur i o base ++ z ∷ ys) ((str_eq_iff x y).0 same))
    | inr other ↦ rw other (elim (Bool-cases (leb (cell t (i + 1) j) (cell t i (j + 1)))) [
      | inl right ↦ rw right (
          apply-walk cur i (j + 1) (x ∷ xs) ys (some (extended (region_at i o) y))
            (omega (arith, start-region i o)) (omega (arith, start-region i o)) s
          ∙ pending-extended cur i o y ys base)
      | inr down ↦ rw down (
          apply-walk cur (i + 1) j xs (y ∷ ys) (some (region_at i o))
            (omega (arith, start-region i o)) (omega (arith, start-region i o))
            (Suffix-next i x xs base s)
          ∙ ap (λ zs. zs ++ y ∷ ys) (pending-region cur i o base))
    ])
  ]

pub cut_within-diff :
    (base other : List Bytes) → cut_within base 0 (length base) (diff base other) ≡ other
unfolding diff
cut_within-diff base other =
    apply-walk base (lcs_table base other) 0 0 0 base other none (omega arith) (omega arith)
      (refl, omega arith)
    ∙ ap (λ zs. zs ++ other) (cut-same 0 base)

-- Hunks in order: each begins at `lo` or later and ends by `n`, and a line that both sides have
-- stands between one and the next.
abbrev pub Ordered : ℕ → List Hunk → ℕ → Type 0
Ordered lo [] n = Unit
Ordered lo (h ∷ hs) n = (lo ≤ h.b1) × (h.b1 ≤ h.b2) × (h.b2 ≤ n) × Ordered (suc h.b2) hs n

pub Ordered-weaken :
    (lo lo' : ℕ) (hs : List Hunk) (n : ℕ) → lo' ≤ lo → Ordered lo hs n → Ordered lo' hs n
Ordered-weaken lo lo' [] n le h = tt
Ordered-weaken lo lo' (x ∷ hs) n le (a, b, c, d) = (omega arith, b, c, d)

closed-Ordered :
    (lo i : ℕ) (o : Option Region) (hs : List Hunk) (n : ℕ)
    → lo ≤ start_of i o
    → start_of i o ≤ i
    → i ≤ n
    → Ordered (suc i) hs n
    → Ordered lo (closed i o hs) n
closed-Ordered lo i none hs n a b c h = Ordered-weaken (suc i) lo hs n (omega arith) h
closed-Ordered lo i (some r) hs n a b c h = (a, b, c, h)

walk-Ordered :
    (t : List (List ℕ)) (lo i j : ℕ) (bs os : List Bytes) (o : Option Region) (n : ℕ)
    → lo ≤ start_of i o
    → start_of i o ≤ i
    → i + length bs ≡ n
    → Ordered lo (walk t i j bs os o) n
unfolding walk
walk-Ordered t lo i j [] [] o n a b e = closed-Ordered lo i o [] n a b (omega arith) tt
walk-Ordered t lo i j [] (y ∷ ys) o n a b e =
    walk-Ordered t lo i (j + 1) [] ys (some (extended (region_at i o) y)) n
      (omega (arith, start-region i o)) (omega (arith, start-region i o)) e
walk-Ordered t lo i j (x ∷ xs) [] o n a b e =
    walk-Ordered t lo (i + 1) j xs [] (some (region_at i o)) n (omega (arith, start-region i o))
      (omega (arith, start-region i o)) (omega arith)
walk-Ordered t lo i j (x ∷ xs) (y ∷ ys) o n a b e = elim (Bool-cases (str_eq x y)) [
  | inl same ↦ rw same (
      closed-Ordered lo i o (walk t (i + 1) (j + 1) xs ys none) n a b (omega arith) (
        walk-Ordered t (suc i) (i + 1) (j + 1) xs ys none n (omega arith) (omega arith)
          (omega arith)))
  | inr other ↦ rw other (elim (Bool-cases (leb (cell t (i + 1) j) (cell t i (j + 1)))) [
    | inl right ↦ rw right (
        walk-Ordered t lo i (j + 1) (x ∷ xs) ys (some (extended (region_at i o) y)) n
          (omega (arith, start-region i o)) (omega (arith, start-region i o)) e)
    | inr down ↦ rw down (
        walk-Ordered t lo (i + 1) j xs (y ∷ ys) (some (region_at i o)) n
          (omega (arith, start-region i o)) (omega (arith, start-region i o)) (omega arith))
  ])
]

-- The hunks of `diff base other` are in order, apart, and inside the base.
pub diff-Ordered : (base other : List Bytes) → Ordered 0 (diff base other) (length base)
unfolding diff
diff-Ordered base other =
    walk-Ordered (lcs_table base other) 0 0 0 base other none (length base) (omega arith)
      (omega arith) (omega arith)

pub Ordered-Fits : (lo : ℕ) (hs : List Hunk) (n : ℕ) → lo ≤ n → Ordered lo hs n → Fits lo n hs
Ordered-Fits lo [] n le o = le
Ordered-Fits lo (h ∷ hs) n le (a, b, c, d) =
    (a, b, Ordered-Fits h.b2 hs n c (Ordered-weaken (suc h.b2) h.b2 hs n (omega arith) d))

-- Applying the edits of `diff base other` to the base panics nowhere and gives `other`.
pub apply_within-diff :
    (base other : List Bytes) → apply_within base 0 (length base) (diff base other) ≡ some other
apply_within-diff base other =
    apply_within-cut base 0 (length base) (diff base other) (omega arith)
      (Ordered-Fits 0 (diff base other) (length base) (omega arith) (diff-Ordered base other))
    ∙ ap some (cut_within-diff base other)

walk_same : (t : List (List ℕ)) (i j : ℕ) (xs : List Bytes) → walk t i j xs xs none ≡ []
unfolding walk
walk_same t i j [] = refl
walk_same t i j (x ∷ xs) = rw (str_eq_refl x) (walk_same t (i + 1) (j + 1) xs)

-- A side that did not change has no edits.
pub diff_same : (base : List Bytes) → diff base base ≡ []
unfolding diff
diff_same base = walk_same (lcs_table base base) 0 0 base
