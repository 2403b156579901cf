-- ===== src/Json/Canonical.antt =====
-- The canonical form that receiptDigest hashes (internal/store/tasks.go):
-- a member that an older client leaves out or sends empty does not change it.
use aimem.Prelude.{ℕ, ◌≡◌, refl, ap, Bool, true, false, [], Bytes}
use aimem.Json.{
  Value, Items, Fields, null, bool, num, str, arr, obj, nil, cons, end, field, is_zero, keep,
  float64, decoded, decoded_items, decoded_fields, prune_zero, prune_items, prune_fields, Hashing,
  receipt_digest,
}

-- Null, false, 0, the empty text and array, and an object all of whose members are such values.
mutual
  pub data Blank : Value → Type 0 where
    blank_null : Blank null
    blank_bool : (b : Bool) → b ≡ false → Blank (bool b)
    blank_num : (n : ℕ) → n ≡ 0 → Blank (num n)
    blank_str : (s : Bytes) → s ≡ [] → Blank (str s)
    blank_arr : Blank (arr nil)
    blank_obj : {fs : Fields} → BlankFields fs → Blank (obj fs)

  pub data BlankFields : Fields → Type 0 where
    blank_end : BlankFields end
    blank_field :
        {k : Bytes} {v : Value} {fs : Fields}
        → Blank v
        → BlankFields fs
        → BlankFields (field k v fs)

-- `w` is `v` with members added, at any depth, whose value is blank.
mutual
  pub data Pads : Value → Value → Type 0 where
    pads_null : Pads null null
    pads_bool : (b : _) → Pads (bool b) (bool b)
    pads_num : (n : _) → Pads (num n) (num n)
    pads_str : (s : Bytes) → Pads (str s) (str s)
    pads_arr : {vs ws : Items} → PadsItems vs ws → Pads (arr vs) (arr ws)
    pads_obj : {fs gs : Fields} → PadsFields fs gs → Pads (obj fs) (obj gs)

  pub data PadsItems : Items → Items → Type 0 where
    pads_nil : PadsItems nil nil
    pads_cons :
        {v w : Value} {vs ws : Items}
        → Pads v w
        → PadsItems vs ws
        → PadsItems (cons v vs) (cons w ws)

  pub data PadsFields : Fields → Fields → Type 0 where
    pads_end : PadsFields end end
    pads_field :
        {k : Bytes} {v w : Value} {fs gs : Fields}
        → Pads v w
        → PadsFields fs gs
        → PadsFields (field k v fs) (field k w gs)
    pads_zero :
        {k : Bytes} {v : Value} {fs gs : Fields}
        → Blank v
        → PadsFields fs gs
        → PadsFields fs (field k v gs)

mutual
  unfolding decoded prune_zero is_zero float64

  Blank-is_zero : {v : Value} → Blank v → is_zero (prune_zero (decoded v)) ≡ true
  Blank-is_zero blank_null = refl
  Blank-is_zero (blank_bool b e) = rw e refl
  Blank-is_zero (blank_num n e) = rw e refl
  Blank-is_zero (blank_str s e) = rw e refl
  Blank-is_zero blank_arr = refl
  Blank-is_zero (blank_obj all) = rw (BlankFields-prune all) refl

  BlankFields-prune : {fs : Fields} → BlankFields fs → prune_fields (decoded_fields fs) ≡ end
  BlankFields-prune blank_end = refl
  BlankFields-prune (blank_field z rest) = rw (Blank-is_zero z) (BlankFields-prune rest)

mutual
  unfolding decoded prune_zero

  Pads-prune : {v w : Value} → Pads v w → prune_zero (decoded v) ≡ prune_zero (decoded w)
  Pads-prune pads_null = refl
  Pads-prune (pads_bool b) = refl
  Pads-prune (pads_num n) = refl
  Pads-prune (pads_str s) = refl
  Pads-prune (pads_arr p) = ap arr (pads_prune_items p)
  Pads-prune (pads_obj p) = ap obj (pads_prune_fields p)

  pads_prune_items :
      {vs ws : Items}
      → PadsItems vs ws
      → prune_items (decoded_items vs) ≡ prune_items (decoded_items ws)
  pads_prune_items pads_nil = refl
  pads_prune_items (pads_cons p q) = λ i. cons (Pads-prune p i) (pads_prune_items q i)

  pads_prune_fields :
      {fs gs : Fields}
      → PadsFields fs gs
      → prune_fields (decoded_fields fs) ≡ prune_fields (decoded_fields gs)
  pads_prune_fields pads_end = refl
  pads_prune_fields (pads_field {k = k} p q) = λ i. keep k (Pads-prune p i) (pads_prune_fields q i)
  pads_prune_fields (pads_zero z q) = rw (Blank-is_zero z) (pads_prune_fields q)

-- An input that differs from another only by added members, at any depth, whose values are null,
-- false, 0, an empty text or array, or an object of only such members, has the same receipt digest.
pub receipt_digest-Pads :
    (h : Hashing) {v w : Value} → Pads v w → receipt_digest h v ≡ receipt_digest h w
unfolding receipt_digest
receipt_digest-Pads h p = rw (Pads-prune p)
