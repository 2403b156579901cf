-- ===== src/Reservation/Evidence.antt =====
-- EvidenceDigest (internal/store/task_reservation_coordination.go): the digest that binds a
-- finalize's terminal evidence, reference by reference, in order.
use aimem.Prelude.{
  ℕ, ◌/◌, ◌%◌, ◌^◌, ◌<◌, ◌≡◌, refl, List, [], ◌∷◌, ◌++◌, Bytes, bytes, length, All, arith,
}
use aimem.Task.Content.{Platform}

-- binary.BigEndian.PutUint32 of uint32(n).
unfoldable pub big_endian32 : ℕ → Bytes
big_endian32 n =
    let w = n % 2 ^ 32 in (w / 16777216) ∷ (w / 65536 % 256) ∷ (w / 256 % 256) ∷ (w % 256) ∷ []

-- What the hash is fed: each reference after its length.
unfoldable pub evidence_bytes : List Bytes → Bytes
unfolding big_endian32
evidence_bytes [] = []
evidence_bytes (ref ∷ refs) = big_endian32 (length ref) ++ (ref ++ evidence_bytes refs)

unfoldable pub evidence_digest : Platform → List Bytes → Bytes
unfolding evidence_bytes
evidence_digest p refs = bytes "e1_" ++ p.sha256_base64 (evidence_bytes refs)

big_endian32-injective :
    (m n : ℕ) {s t : Bytes}
    → m < 2 ^ 32
    → n < 2 ^ 32
    → big_endian32 m ++ s ≡ big_endian32 n ++ t
    → (m ≡ n) × (s ≡ t)
unfolding big_endian32
big_endian32-injective m n hm hn e = (ground arith, ground arith)

append_split :
    (s t : Bytes) {u v : Bytes} → length s ≡ length t → s ++ u ≡ t ++ v → (s ≡ t) × (u ≡ v)
append_split [] [] h e = (refl, e)
append_split [] (c ∷ t) h e = ground arith
append_split (c ∷ s) [] h e = ground arith
append_split (c ∷ s) (d ∷ t) {u} {v} h e =
    let (heads, tails) = append_split s t {u = u} {v = v} (omega arith) (ground arith) in
    (ground arith, tails)

abbrev pub FitsWord : Bytes → Type 0
FitsWord s = length s < 2 ^ 32

-- The framing is injective: two lists of references, each shorter than 4 GiB, that feed the hash
-- the same bytes are the same list.
pub evidence_bytes-injective :
    (refs refs' : List Bytes)
    → All FitsWord refs
    → All FitsWord refs'
    → evidence_bytes refs ≡ evidence_bytes refs'
    → refs ≡ refs'
unfolding evidence_bytes
evidence_bytes-injective [] [] f f' e = refl
evidence_bytes-injective [] (r ∷ rs) f f' e = ground arith
evidence_bytes-injective (r ∷ rs) [] f f' e = ground arith
evidence_bytes-injective (r ∷ rs) (r' ∷ rs') f f' e =
    let (lengths, rest) = big_endian32-injective (length r) (length r') f.0 f'.0 e in
    let (heads, tails) = append_split r r' lengths rest in
    let more = evidence_bytes-injective rs rs' f.1 f'.1 tails in λ i. heads i ∷ more i
