-- ===== src/Envelope/Numbers.antt =====
-- The numbers that `rlpEncodeUint64` of src/ethereum/EthereumTransaction.cpp writes against those of
-- `RLPEncoder::encode(uint64_t)`.
use komozoievm.Rlp.{is_itself, encode_bytes, encode_length, digits, encode_number}
use komozoievm.Envelope.{rlp_head, rlp_encode_bytes, uint_bytes, or_zero, rlp_encode_uint64}
use komozoievm.Rlp.RoundTrip.{length-digits, of_be-digits}
use komozoievm.Common.Bytes.{of_be}
use native.Mathlib.Nat.{div-div-eq-div-mul, zero-div, pow-suc, mul_comm}
use mathlib.Core.List.{append_assoc}
use komozoievm.Common.{
  ℕ, zero, suc, ◌+◌, ◌/◌, ◌%◌, ◌^◌, ◌<◌, ◌≡◌, refl, sym, ap, ◌∙◌, List, [], ◌∷◌, ◌++◌, Bool, true,
  false, ◌==◌, if◌then◌else◌, length, arith, Bool-cases, inl, inr, ◌⊎◌, lt→ltb,
}

-- Strings of fewer than 56 bytes are written alike by the two encoders.
pub rlp_encode_bytes-encode_bytes :
    (s out : List ℕ) → length s < 56 → rlp_encode_bytes s out ≡ encode_bytes s out
unfolding rlp_encode_bytes encode_bytes rlp_head encode_length
rlp_encode_bytes-encode_bytes s out h =
    let comm : 0x80 + length s ≡ length s + 0x80 = omega arith in
    elim (Bool-cases (is_itself s)) [
      | inl itself ↦ rw itself refl
      | inr longer ↦ rw (longer, lt→ltb _ _ h, comm) refl
    ]

shift : (v i : ℕ) → v / 256 ^ suc i ≡ v / 256 / 256 ^ i
shift v i =
    ap (λ k. v / k) (pow-suc 256 i ∙ mul_comm (256 ^ i) 256)
    ∙ sym (div-div-eq-div-mul v 256 (256 ^ i))

last_byte : (x : ℕ) (b : Bool) → (if b then [] else x ∷ []) ≡ (if b then [] else [] ++ x ∷ [])
last_byte x true = refl
last_byte x false = refl

no_top : (k v : ℕ) → (v == 0) ≡ true → (v / 256 / 256 ^ k == 0) ≡ true
no_top k v z =
    let zero_v : v / 256 ≡ 0 = ground arith in
    let top : v / 256 / 256 ^ k ≡ 0 = ap (λ t. t / 256 ^ k) zero_v ∙ zero-div (256 ^ k) in
    ground arith

-- A last digit is behind the digits of the rest.
uint_bytes-suc :
    (k v : ℕ)
    → uint_bytes (suc k) v ≡ (if v == 0 then [] else uint_bytes k (v / 256) ++ (v % 256) ∷ [])
unfolding uint_bytes
uint_bytes-suc zero v = let one : v / 1 ≡ v = omega arith in rw one (last_byte (v % 256) (v == 0))
uint_bytes-suc (suc k) v =
    rw (shift v k, uint_bytes-suc k v)
      (elim (Bool-cases (v == 0)) [
        | inl z ↦ let top : (v / 256 / 256 ^ k == 0) ≡ true = no_top k v z in rw (z, top) refl
        | inr nz ↦ rw nz (elim (Bool-cases (v / 256 / 256 ^ k == 0)) [
          | inl top ↦ rw top refl
          | inr top ↦ rw top refl
        ])
      ])

-- The digits of a number with room for them are those of `RLPEncoder`.
uint_bytes-digits : (k v : ℕ) → v < 256 ^ k → uint_bytes k v ≡ digits k v
unfolding uint_bytes digits
uint_bytes-digits zero v h = refl
uint_bytes-digits (suc k) v h =
    uint_bytes-suc k v
    ∙ ap (λ ds. if v == 0 then [] else ds ++ (v % 256) ∷ [])
        (uint_bytes-digits k (v / 256) (omega (arith, h, pow-suc 256 k)))

or_zero_lem : (ds : List ℕ) → 0 < of_be 0 ds → or_zero ds ≡ ds
unfolding or_zero of_be
or_zero_lem [] h = absurd (omega arith)
or_zero_lem (d ∷ ds) h = refl

written_alike :
    (k n : ℕ) (out : List ℕ)
    → k < 56
    → 0 < n
    → n < 256 ^ k
    → rlp_encode_bytes (or_zero (uint_bytes k n)) out ≡ encode_bytes (digits k n) out
written_alike k n out h p l =
    ap (λ ds. rlp_encode_bytes (or_zero ds) out) (uint_bytes-digits k n l)
    ∙ ap (λ ds. rlp_encode_bytes ds out)
        (or_zero_lem (digits k n) (omega (arith, of_be-digits k n l)))
    ∙ rlp_encode_bytes-encode_bytes (digits k n) out (omega (arith, length-digits k n))

-- Each 64-bit number but 0 is written alike by the two encoders; the transaction's own writes 0 as
-- the byte 0x00, and the other as the empty string.
pub rlp_encode_uint64-encode_number :
    (n : ℕ) (out : List ℕ)
    → n < 2 ^ 64
    → ((0 < n) × (rlp_encode_uint64 n out ≡ encode_number n out))
      ⊎ ((n ≡ 0)
          × (rlp_encode_uint64 n out ≡ out ++ 0 ∷ [])
          × (encode_number n out ≡ out ++ 0x80 ∷ []))
unfolding rlp_encode_uint64 encode_number
rlp_encode_uint64-encode_number zero out h = inr (refl, refl, append_assoc out (0x80 ∷ []) [])
rlp_encode_uint64-encode_number (suc n) out h =
    inl (omega arith, written_alike 8 (suc n) out (omega arith) (omega arith) h)
