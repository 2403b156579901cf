-- ===== src/Json.antt =====
-- Decoded JSON values and the retry receipts' canonical form (pruneZero, isZero and receiptDigest
-- of internal/store/tasks.go). The numbers of the inputs are whole and not negative.
pub mod Canonical
use aimem.Prelude.{
  ℕ, zero, suc, ◌+◌, ◌*◌, ◌/◌, ◌%◌, ◌^◌, ◌≡◌, refl, Bool, true, false, not, ◌++◌, List, [], ◌∷◌,
  Bytes, bytes, str_eq, ltb, ◌==◌, if◌then◌else◌,
}

mutual
  pub data Value : Type 0 where
    null : Value
    bool : Bool → Value
    num : ℕ → Value
    str : Bytes → Value
    arr : Items → Value
    obj : Fields → Value

  pub data Items : Type 0 where
    nil : Items
    cons : Value → Items → Items

  pub data Fields : Type 0 where
    end : Fields
    field : Bytes → Value → Fields → Fields

-- A number as json.Unmarshal reads it, a float64: below 2^53 it is itself, else it keeps 53 bits and is
-- rounded to the nearest, a tie to the even one. The bits past the 53, of a number below 2^64:
abbrev float_limit : ℕ
float_limit = 9007199254740992

excess_bits : ℕ → ℕ → ℕ
excess_bits zero n = 0
excess_bits (suc fuel) n =
    let more = excess_bits fuel (n / 2) + 1 in if ltb n float_limit then 0 else more

round_even : ℕ → ℕ → ℕ
round_even step n =
    let below = n / step * step in
    let twice = 2 * (n % step) in
    if ltb twice step
    then below
    else if ltb step twice
    then below + step
    else if n / step % 2 == 0
    then below
    else below + step

unfoldable pub float64 : ℕ → ℕ
unfolding excess_bits round_even
float64 n = if ltb n float_limit then n else round_even (2 ^ excess_bits 12 n) n

-- json.Marshal of an input, then json.Unmarshal: the value with its numbers as float64.
unfoldable mutual
  unfolding float64

  pub decoded : Value → Value
  decoded null = null
  decoded (bool b) = bool b
  decoded (num n) = num (float64 n)
  decoded (str s) = str s
  decoded (arr vs) = arr (decoded_items vs)
  decoded (obj fs) = obj (decoded_fields fs)

  pub decoded_items : Items → Items
  decoded_items nil = nil
  decoded_items (cons v vs) = cons (decoded v) (decoded_items vs)

  pub decoded_fields : Fields → Fields
  decoded_fields end = end
  decoded_fields (field k v fs) = field k (decoded v) (decoded_fields fs)

-- isZero.
unfoldable pub is_zero : Value → Bool
is_zero null = true
is_zero (str []) = true
is_zero (str (c ∷ s)) = false
is_zero (bool b) = not b
is_zero (num n) = n == 0
is_zero (arr nil) = true
is_zero (arr (cons v vs)) = false
is_zero (obj end) = true
is_zero (obj (field k v fs)) = false

-- One member of an object, once its value is pruned.
abbrev pub keep : Bytes → Value → Fields → Fields
keep k v rest = if is_zero v then rest else field k v rest

-- pruneZero: zero members go, elements of arrays stay in place.
unfoldable mutual
  pub prune_zero : Value → Value
  prune_zero null = null
  prune_zero (bool b) = bool b
  prune_zero (num n) = num n
  prune_zero (str s) = str s
  prune_zero (arr vs) = arr (prune_items vs)
  prune_zero (obj fs) = obj (prune_fields fs)

  pub prune_items : Items → Items
  prune_items nil = nil
  prune_items (cons v vs) = cons (prune_zero v) (prune_items vs)

  pub prune_fields : Fields → Fields
  prune_fields end = end
  prune_fields (field k v fs) = keep k (prune_zero v) (prune_fields fs)

-- An array of texts.
abbrev pub texts : List Bytes → Items
texts [] = nil
texts (s ∷ ss) = cons (str s) (texts ss)

-- `encoding/json` and `crypto/sha256`, which the digest is made with.
pub record Hashing : Type 0 where
  pub marshal : Value → Bytes
  pub sha256_hex : Bytes → Bytes

abbrev pub receipt_digest_format : Bytes
receipt_digest_format = bytes "1"

-- receiptDigest.
unfoldable pub receipt_digest : Hashing → Value → Bytes
receipt_digest h v =
    receipt_digest_format ++ (bytes ":" ++ h.sha256_hex (h.marshal (prune_zero (decoded v))))
