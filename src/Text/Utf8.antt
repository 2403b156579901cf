-- ===== src/Text/Utf8.antt =====
-- unicode/utf8 and unicode, as `taskText` (internal/store/tasks.go) uses them: the strict decoder
-- (no overlong form, no surrogate, nothing above U+10FFFF) and three classes of runes.
use aimem.Prelude.{
  ℕ, zero, suc, ◌+◌, ◌-◌, ◌*◌, ◌≡◌, Bool, ◌&&◌, ◌||◌, List, [], ◌∷◌, Option, none, some, Bytes, leb,
  ltb, ◌==◌, if◌then◌else◌, refl,
}
use mathlib.Core.Option

-- Between two bytes: how many continuation bytes the rune still needs, its bits so far, and the
-- range of the next byte.
pub record Partial : Type 0 where
  pub need : ℕ
  pub bits : ℕ
  pub lo : ℕ
  pub hi : ℕ

abbrev between : ℕ → ℕ → ℕ → Bool
between lo hi c = leb lo c && leb c hi

abbrev pub idle : Partial
idle = record { need = 0; bits = 0; lo = 0x80; hi = 0xBF }

-- The first byte of a rune: the rune itself, or what it waits for.
lead : ℕ → Option (Partial × Option ℕ)
lead c =
    if ltb c 0x80
    then some (idle, some c)
    else if between 0xC2 0xDF c
    then some (record idle { need = 1; bits = c - 0xC0 }, none)
    else if c == 0xE0
    then some (record { need = 2; bits = 0; lo = 0xA0; hi = 0xBF }, none)
    else if c == 0xED
    then some (record { need = 2; bits = 13; lo = 0x80; hi = 0x9F }, none)
    else if between 0xE1 0xEF c
    then some (record idle { need = 2; bits = c - 0xE0 }, none)
    else if c == 0xF0
    then some (record { need = 3; bits = 0; lo = 0x90; hi = 0xBF }, none)
    else if c == 0xF4
    then some (record { need = 3; bits = 4; lo = 0x80; hi = 0x8F }, none)
    else if between 0xF1 0xF3 c
    then some (record idle { need = 3; bits = c - 0xF0 }, none)
    else none

-- A continuation byte.
continue : ℕ → Partial → ℕ → Option (Partial × Option ℕ)
continue more p c =
    let bits = p.bits * 64 + (c - 0x80) in
    if between p.lo p.hi c
    then (if more == 0
        then some (idle, some bits)
        else some (record idle { need = more; bits = bits }, none))
    else none

step : ℕ → Partial → ℕ → Option (Partial × Option ℕ)
unfolding lead continue
step zero p c = lead c
step (suc more) p c = continue more p c

abbrev emit : Option ℕ → List ℕ → List ℕ
emit none rs = rs
emit (some r) rs = r ∷ rs

runes_from : Partial → Bytes → Option (List ℕ)
unfolding step
runes_from p [] = if p.need == 0 then some [] else none
runes_from p (c ∷ s) = elim (step p.need p c) [
  | none ↦ none
  | some (p', out) ↦ Option.map (emit out) (runes_from p' s)
]

-- The runes of a string, or none where utf8.ValidString is false.
unfoldable pub runes : Bytes → Option (List ℕ)
unfolding runes_from
runes s = runes_from idle s

-- unicode.IsControl: category Cc.
unfoldable pub is_control : ℕ → Bool
is_control r = ltb r 0x20 || between 0x7F 0x9F r

-- unicode.IsSpace: White_Space.
unfoldable pub is_space : ℕ → Bool
is_space r =
    between 0x09 0x0D r
    || r == 0x20
    || r == 0x85
    || r == 0xA0
    || r == 0x1680
    || between 0x2000 0x200A r
    || r == 0x2028
    || r == 0x2029
    || r == 0x202F
    || r == 0x205F
    || r == 0x3000

euro : runes (0xE2 ∷ 0x82 ∷ 0xAC ∷ 0x41 ∷ []) ≡ some (0x20AC ∷ 0x41 ∷ [])
unfolding runes
euro = refl

overlong : runes (0xC0 ∷ 0x80 ∷ []) ≡ none
unfolding runes
overlong = refl

surrogate : runes (0xED ∷ 0xA0 ∷ 0x80 ∷ []) ≡ none
unfolding runes
surrogate = refl
