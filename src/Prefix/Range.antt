-- ===== src/Prefix/Range.antt =====
-- The range of ids that a prefix query reads (internal/store/taskprefix.go).
use aimem.Prelude.{◌≡◌, refl, Bool, true, [], ◌∷◌, Bytes, has_prefix, ltb, all, arith}
use aimem.Prefix.{less, in_range}

-- The bytes of an id are all below 'g'.
abbrev pub below_g : Bytes → Bool
below_g s = all (λ c. ltb c b'g') s

-- For ids of hex digits and dashes the range from the prefix to its bound holds the ids that start with
-- the prefix, and no other.
pub in_range-has_prefix :
    (prefix id : Bytes) → below_g id ≡ true → in_range prefix id ≡ has_prefix prefix id
unfolding in_range less has_prefix
in_range-has_prefix [] [] b = refl
in_range-has_prefix [] (c ∷ s) b = ground (arith, b)
in_range-has_prefix (p ∷ ps) [] b = refl
in_range-has_prefix (p ∷ ps) (c ∷ s) b = ground (arith, b, in_range-has_prefix ps s)
