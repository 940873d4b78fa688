-- ===== src/Rlp.antt =====
-- src/ethereum/RLPEncoder.{h,cpp}: each operation as a function of the bytes written so far.
pub mod RoundTrip
pub mod Items
pub mod AccessLists
use komozoievm.Common.{
  ℕ, zero, suc, ◌+◌, ◌-◌, ◌*◌, ◌/◌, ◌%◌, ◌^◌, List, [], ◌∷◌, ◌++◌, Bool, true, false, ltb, ◌==◌,
  if◌then◌else◌, length, set, ◌&&◌,
}
use komozoievm.Common.Bytes.{raw_byte}
use mathlib.Core.List.{reverse}

-- The bytes of a length that `encodeLength` keeps: from the highest of four down to the first that
-- is 0.
unfoldable pub top_bytes : ℕ → ℕ → ℕ
top_bytes zero n = 0
top_bytes (suc i) n = let more = top_bytes i n in if raw_byte n i == 0 then 0 else more + 1

unfoldable pub bytes_from : ℕ → ℕ → ℕ → List ℕ
bytes_from i zero n = []
bytes_from i (suc count) n = raw_byte n i ∷ bytes_from (i + 1) count n

unfoldable pub encode_length : ℕ → ℕ → List ℕ → List ℕ
unfolding top_bytes bytes_from
encode_length n offset dst =
    let count = top_bytes 4 n in
    if ltb n 56
    then dst ++ ((n + offset) % 256) ∷ []
    else dst ++ ((offset + 55 + count) % 256) ∷ bytes_from (4 - count) count n

-- One byte below 0x80 stands for itself.
unfoldable pub is_itself : List ℕ → Bool
is_itself [] = false
is_itself (b ∷ []) = ltb b 0x80
is_itself (b ∷ c ∷ s) = false

unfoldable pub encode_bytes : List ℕ → List ℕ → List ℕ
unfolding is_itself encode_length
encode_bytes s dst = if is_itself s then dst ++ s else encode_length (length s) 0x80 dst ++ s

unfoldable pub encode_reversed : List ℕ → List ℕ → List ℕ
unfolding is_itself encode_length
encode_reversed s dst =
    if is_itself s then dst ++ s else encode_length (length s) 0x80 dst ++ reverse s

-- The digits that `encode(uint64_t)` puts at the end of its buffer.
unfoldable pub digits : ℕ → ℕ → List ℕ
digits zero n = []
digits (suc room) n =
    let high = digits room (n / 256) in if n == 0 then [] else high ++ (n % 256) ∷ []

unfoldable pub encode_number : ℕ → List ℕ → List ℕ
unfolding encode_bytes digits
encode_number n dst = encode_bytes (digits 8 n) dst

-- `lengthOfLength`; the count of the bits of a number is a parameter.
unfoldable pub length_of_length : (ℕ → ℕ) → ℕ → ℕ
length_of_length count_bits n = if ltb n 56 then 1 else (count_bits n + 15) / 8

-- The bytes of the length behind the first, the lowest first.
unfoldable pub write_low : ℕ → ℕ → ℕ → List ℕ → List ℕ
write_low at zero n dst = dst
write_low at (suc count) n dst = write_low (at + 1) count (n / 256) (set dst at (n % 256))

-- `encodeListStartAtOffset`: the bytes afterwards, and where the list starts. There have to be
-- enough bytes free in front of the offset.
unfoldable pub encode_list_start_at_offset : (ℕ → ℕ) → ℕ → List ℕ → List ℕ × ℕ
unfolding length_of_length write_low
encode_list_start_at_offset count_bits offset dst =
    let n = length dst - offset in
    let n_len = length_of_length count_bits n in
    let start = offset - n_len in
    if ltb n 56 then (set dst start ((n + 0xC0) % 256), start) else (
      write_low (start + 1) (n_len - 1) n (set dst start ((0xC0 + 55 + n_len - 1) % 256)),
      start,
    )
