-- ===== src/Prelude/GoStrings.antt =====
-- Go strings: byte sequences, compared byte for byte. A literal of the source is ASCII, so its
-- bytes are its code points.
use Prim.Native.Nat.{ℕ}
use Prim.Native.Char.{code}
use Prim.Native.String.{String}
use mathlib.Core.Path.{◌≡◌, refl}
use mathlib.Core.Logic.{◌↔◌, inl, inr}
use mathlib.Core.Bool.{Bool, true, false, ◌&&◌}
use mathlib.Core.List.{List, [], ◌∷◌}
use native.Mathlib.Omega.{arith}
use aimem.Prelude.Tests.{◌==◌, if◌then◌else◌, Bool-cases}

abbrev pub Bytes : Type 0
Bytes = List ℕ

abbrev pub bytes : String → Bytes
bytes String.[] = []
bytes (String.◌∷◌ c s) = code c ∷ bytes s

-- a == b on Go strings.
unfoldable pub str_eq : Bytes → Bytes → Bool
str_eq [] [] = true
str_eq (a ∷ s) (b ∷ t) = (a == b) && str_eq s t
str_eq _ _ = false

pub str_eq_iff : (s t : Bytes) → (str_eq s t ≡ true) ↔ (s ≡ t)
unfolding str_eq
str_eq_iff [] [] = (λ _. refl, λ _. refl)
str_eq_iff [] (b ∷ t) = ((λ h. cc), (λ h. cc))
str_eq_iff (a ∷ s) [] = ((λ h. cc), (λ h. cc))
str_eq_iff (a ∷ s) (b ∷ t) =
    ((λ h. ground (arith, str_eq_iff s t)), (λ h. ground (arith, str_eq_iff s t)))

pub str_eq_refl : (s : Bytes) → str_eq s s ≡ true
str_eq_refl s = (str_eq_iff s s).1 refl

-- strings.Split at a byte.
abbrev pub onto_first : ℕ → List Bytes → List Bytes
onto_first c [] = (c ∷ []) ∷ []
onto_first c (l ∷ ls) = (c ∷ l) ∷ ls

unfoldable pub split_at : ℕ → Bytes → List Bytes
split_at sep [] = [] ∷ []
split_at sep (c ∷ s) =
    let rest = split_at sep s in if c == sep then [] ∷ rest else onto_first c rest

-- There is a first part.
pub split_some : (sep : ℕ) (s : Bytes) → (l : Bytes) × (ls : List Bytes) × (split_at sep s ≡ l ∷ ls)
unfolding split_at
split_some sep [] = ([], [], refl)
split_some sep (c ∷ s) =
    let (l, ls, e) = split_some sep s in
    elim (Bool-cases (c == sep)) [
      | inl same ↦ ([], split_at sep s, rw same refl)
      | inr other ↦ (c ∷ l, ls, rw other (rw e refl))
    ]

-- strings.HasPrefix, the prefix first.
unfoldable pub has_prefix : Bytes → Bytes → Bool
has_prefix [] s = true
has_prefix (c ∷ p) [] = false
has_prefix (c ∷ p) (d ∷ s) = (c == d) && has_prefix p s
