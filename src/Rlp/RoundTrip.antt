-- ===== src/Rlp/RoundTrip.antt =====
-- What src/ethereum/RLPEncoder.cpp writes, read back by a decoder of the short forms.
use komozoievm.Rlp.{
  top_bytes, bytes_from, encode_length, is_itself, encode_bytes, digits, encode_number,
}
use komozoievm.Common.{
  ℕ, zero, suc, ◌+◌, ◌-◌, ◌/◌, ◌%◌, ◌^◌, ◌≤◌, ◌<◌, ◌≡◌, refl, List, [], ◌∷◌, ◌++◌, Option, none,
  some, true, false, ltb, ◌==◌, if◌then◌else◌, length, take, drop, length-append, take-append,
  drop-append, arith, Bool-cases, inl, inr, lt→ltb, ge→ltb,
}
use mathlib.Core.List.{append_assoc}
use komozoievm.Common.Bytes.{of_be, of_be-append, raw_byte}

-- A string in one of the two short forms, and what stands behind it.
unfoldable pub decode_short : List ℕ → Option (List ℕ × List ℕ)
decode_short [] = none
decode_short (b ∷ rest) =
    if ltb b 0x80
    then some (b ∷ [], rest)
    else if ltb b 0xB8
    then some (take (b - 0x80) rest, drop (b - 0x80) rest)
    else none

-- What a short string adds.
short_form : List ℕ → List ℕ
unfolding is_itself
short_form s = if is_itself s then s else (length s + 0x80) ∷ s

encode_bytes-short_form :
    (s dst : List ℕ) → length s < 56 → encode_bytes s dst ≡ dst ++ short_form s
unfolding encode_bytes short_form
encode_bytes-short_form s dst h = elim (Bool-cases (is_itself s)) [
  | inl itself ↦ rw itself refl
  | inr longer ↦
      let small : (length s + 0x80) % 256 ≡ length s + 0x80 = omega arith in
      rw (longer, lt→ltb _ _ h, small) (append_assoc dst ((length s + 0x80) ∷ []) s)
]

decode_short-short_form :
    (s rest : List ℕ) → length s < 56 → decode_short (short_form s ++ rest) ≡ some (s, rest)
unfolding decode_short short_form is_itself
decode_short-short_form s rest h = elim (Bool-cases (is_itself s)) [
  | inl itself ↦ rw itself (itself_lem s itself)
  | inr longer ↦
      let over : ltb (length s + 0x80) 0x80 ≡ false = ge→ltb _ _ (omega arith) in
      let under : ltb (length s + 0x80) 0xB8 ≡ true = lt→ltb _ _ (omega arith) in
      let size : length s + 0x80 - 0x80 ≡ length s = omega arith in
      rw (longer, over, under, size, take-append s rest, drop-append s rest) refl
]
  where
    itself_lem : (s : List ℕ) → is_itself s ≡ true → decode_short (s ++ rest) ≡ some (s, rest)
    itself_lem [] i = absurd (ground arith)
    itself_lem (b ∷ []) i = rw i refl
    itself_lem (b ∷ c ∷ t) i = absurd (ground arith)

-- A string of fewer than 56 bytes is appended in a form that is read back as that string, whatever
-- stands behind it.
encode_bytes-decode_short :
    (s dst rest : List ℕ)
    → length s < 56
    → (form : List ℕ) × (encode_bytes s dst ≡ dst ++ form)
      × (decode_short (form ++ rest) ≡ some (s, rest))
encode_bytes-decode_short s dst rest h =
    (short_form s, encode_bytes-short_form s dst h, decode_short-short_form s rest h)

pub length-digits : (room n : ℕ) → length (digits room n) ≤ room
unfolding digits
length-digits zero n = omega arith
length-digits (suc room) n =
    ground
      (arith, length-digits room (n / 256), length-append (digits room (n / 256)) ((n % 256) ∷ []))

pub of_be-digits : (room n : ℕ) → n < 256 ^ room → of_be 0 (digits room n) ≡ n
unfolding digits of_be
of_be-digits zero n h = omega arith
of_be-digits (suc room) n h = elim (Bool-cases (n == 0)) [
  | inl none_left ↦ rw none_left (ground arith)
  | inr more ↦ rw more (
      omega (
        arith,
        of_be-append 0 (digits room (n / 256)) (n % 256),
        of_be-digits room (n / 256) (omega arith),
      ))
]

-- A 64-bit number is appended as a string that is read back, and whose big-endian value it is.
pub encode_number-decode_short :
    (n : ℕ) (dst rest : List ℕ)
    → n < 2 ^ 64
    → (s form : List ℕ) × (encode_number n dst ≡ dst ++ form)
      × (decode_short (form ++ rest) ≡ some (s, rest))
      × (of_be 0 s ≡ n)
unfolding encode_number
encode_number-decode_short n dst rest h =
    let few : length (digits 8 n) < 56 = omega (arith, length-digits 8 n) in
    (
      digits 8 n,
      short_form (digits 8 n),
      encode_bytes-short_form (digits 8 n) dst few,
      decode_short-short_form (digits 8 n) rest few,
      of_be-digits 8 n h,
    )

-- A length from 56 to 2 ^ 24 - 1 is written as the one byte that says that no length bytes follow:
-- the same for every such length.
encode_length_lost :
    (n offset : ℕ) (dst : List ℕ)
    → 56 ≤ n
    → n < 2 ^ 24
    → encode_length n offset dst ≡ dst ++ ((offset + 55) % 256) ∷ []
unfolding encode_length top_bytes bytes_from
encode_length_lost n offset dst h k =
    let long : ltb n 56 ≡ false = ge→ltb _ _ h in
    let top : (raw_byte n 3 == 0) ≡ true = ground arith in
    let no_more : offset + 55 + 0 ≡ offset + 55 = omega arith in rw (long, top, no_more) refl
