-- ===== src/Diff3/Slices.antt =====
-- Laws of the slices that a merge copies (base[a:b] of internal/diff3/diff3.go).
use aimem.Prelude.{
  ℕ, zero, suc, ◌+◌, ◌-◌, ◌≤◌, ◌≡◌, refl, sym, ap, ◌∙◌, ◌++◌, List, [], ◌∷◌, Bytes, length, take,
  drop, leb, ◌&&◌, true, some, arith,
}
use aimem.Diff3.{Hunk, cut, slice, apply_within}

-- `rest` is base[i:].
abbrev pub Suffix : ℕ → List Bytes → List Bytes → Type 0
Suffix i rest base = (drop i base ≡ rest) × (i + length rest ≡ length base)

pub drop-next :
    (i : ℕ) (x : Bytes) (xs base : List Bytes) → drop i base ≡ x ∷ xs → drop (suc i) base ≡ xs
drop-next zero x xs [] h = cc
drop-next zero x xs (b ∷ bs) h = cc
drop-next (suc i) x xs [] h = cc
drop-next (suc i) x xs (b ∷ bs) h = drop-next i x xs bs h

pub Suffix-next :
    (i : ℕ) (x : Bytes) (xs base : List Bytes) → Suffix i (x ∷ xs) base → Suffix (i + 1) xs base
Suffix-next i x xs base (h, n) =
    let e : suc i ≡ i + 1 = omega arith in
    (ap (λ (k : ℕ). drop k base) (sym e) ∙ drop-next i x xs base h, omega arith)

pub cut-same : (a : ℕ) (xs : List Bytes) → cut a a xs ≡ []
cut-same a xs = let e : a - a ≡ 0 = omega arith in rw e refl

take-suc :
    (n : ℕ) (x : Bytes) (xs ys : List Bytes)
    → drop n ys ≡ x ∷ xs
    → take (suc n) ys ≡ take n ys ++ x ∷ []
take-suc zero x xs [] h = cc
take-suc zero x xs (y ∷ ys) h = ground arith
take-suc (suc n) x xs [] h = cc
take-suc (suc n) x xs (y ∷ ys) h = ap (λ zs. y ∷ zs) (take-suc n x xs ys h)

drop_nil : (n : ℕ) → drop {A = Bytes} n [] ≡ []
drop_nil zero = refl
drop_nil (suc n) = refl

drop-drop : (a b : ℕ) (xs : List Bytes) → drop b (drop a xs) ≡ drop (a + b) xs
drop-drop zero b xs = let e : 0 + b ≡ b = omega arith in rw e refl
drop-drop (suc a) b [] = drop_nil b ∙ sym (drop_nil (suc a + b))
drop-drop (suc a) b (x ∷ xs) =
    let e : suc a + b ≡ suc (a + b) = omega arith in rw e (drop-drop a b xs)

-- A slice grows by the line at its end.
pub cut-next :
    (a i : ℕ) (x : Bytes) (xs base : List Bytes)
    → a ≤ i
    → drop i base ≡ x ∷ xs
    → cut a (i + 1) base ≡ cut a i base ++ x ∷ []
cut-next a i x xs base le h =
    let e : (i + 1) - a ≡ suc (i - a) = omega arith in
    let f : a + (i - a) ≡ i = omega arith in
    rw e (take-suc (i - a) x xs (drop a base) (drop-drop a (i - a) base ∙ rw f h))

-- To the end of the list a slice is the rest.
take_all : (n : ℕ) (xs : List Bytes) → length xs ≤ n → take n xs ≡ xs
take_all zero [] h = refl
take_all zero (x ∷ xs) h = absurd (omega arith)
take_all (suc n) [] h = refl
take_all (suc n) (x ∷ xs) h = ap (λ zs. x ∷ zs) (take_all n xs (omega arith))

length-drop : (n : ℕ) (xs : List Bytes) → length (drop n xs) ≡ length xs - n
length-drop zero xs = omega arith
length-drop (suc n) [] = omega arith
length-drop (suc n) (x ∷ xs) = omega (arith, length-drop n xs)

pub cut-end : (a : ℕ) (xs : List Bytes) → cut a (length xs) xs ≡ drop a xs
cut-end a xs = take_all (length xs - a) (drop a xs) (omega (arith, length-drop a xs))

-- Inside the list a slice does not panic.
pub slice-in :
    (a b : ℕ) (xs : List Bytes) → a ≤ b → b ≤ length xs → slice a b xs ≡ some (cut a b xs)
unfolding slice
slice-in a b xs h k =
    let inside : (leb a b && leb b (length xs)) ≡ true = ground arith in rw inside refl

-- The lines that a side's hunks make of base[c1:c2), whatever the bounds are.
unfoldable pub cut_within : List Bytes → ℕ → ℕ → List Hunk → List Bytes
cut_within base c1 c2 [] = cut c1 c2 base
cut_within base c1 c2 (h ∷ hs) = cut c1 h.b1 base ++ (h.repl ++ cut_within base h.b2 c2 hs)

-- The hunks follow one another inside [cur:c2).
abbrev pub Fits : ℕ → ℕ → List Hunk → Type 0
Fits cur c2 [] = cur ≤ c2
Fits cur c2 (h ∷ hs) = (cur ≤ h.b1) × (h.b1 ≤ h.b2) × Fits h.b2 c2 hs

pub Fits-le : (cur c2 : ℕ) (hs : List Hunk) → Fits cur c2 hs → cur ≤ c2
Fits-le cur c2 [] f = f
Fits-le cur c2 (h ∷ hs) (a, b, f) = omega (arith, Fits-le h.b2 c2 hs f)

-- Such hunks are applied without a panic.
pub apply_within-cut :
    (base : List Bytes) (cur c2 : ℕ) (hs : List Hunk)
    → c2 ≤ length base
    → Fits cur c2 hs
    → apply_within base cur c2 hs ≡ some (cut_within base cur c2 hs)
unfolding apply_within cut_within
apply_within-cut base cur c2 [] k f = slice-in cur c2 base f k
apply_within-cut base cur c2 (h ∷ hs) k (a, b, f) =
    rw (slice-in cur h.b1 base a (omega (arith, Fits-le h.b2 c2 hs f)))
      (rw (apply_within-cut base h.b2 c2 hs k f) refl)
