-- ===== src/Curve/Field.antt =====
-- The field of the curve: `Secp256k1Field` of src/crypto/Secp256k1.h and src/crypto/Secp256k1.cpp.
-- A number is its value; where the code works on `data.chunks`, a list of chunks, the lowest first.
use komozoievm.Modular.{word, not_zero, wrapped_sub, value, chunks, mod_add, mod_sub}
use komozoievm.Common.{
  ℕ, zero, suc, ◌+◌, ◌*◌, ◌/◌, ◌%◌, ◌^◌, List, [], ◌∷◌, Option, none, some, leb, if◌then◌else◌,
  take, drop,
}

-- `SECP256K1_CURVE_P`.
abbrev pub field_p : ℕ
field_p = 115792089237316195423570985008687907853269984665640564039457584007908834671663

-- 2 ^ 256 - P.
abbrev pub fold_by : ℕ
fold_by = 4294968273

-- A row of `operator*`: the chunks from `temp1` on, those of the accumulator before those of
-- the folder, with the carry stored behind the row if it is not 0.
unfoldable pub mul_row : ℕ → List ℕ → List ℕ → ℕ → List ℕ
mul_row a (b ∷ bs) (t ∷ ts) carry =
    let prod = (a * b + t + carry) % 2 ^ 128 in prod % word ∷ mul_row a bs ts (prod / word)
mul_row a [] (t ∷ ts) carry = if not_zero carry then carry ∷ ts else t ∷ ts
mul_row a bs [] carry = []

-- The rows of `operator*`; `temp1++` and `temp2++` move to the next chunk.
unfoldable pub mul_rows : List ℕ → List ℕ → List ℕ → List ℕ
unfolding mul_row
mul_rows [] bs ts = ts
mul_rows (a ∷ rest) bs ts = elim (mul_row a bs ts 0) [ [] ↦ [] | t ∷ us ↦ t ∷ mul_rows rest bs us ]

-- The carry that runs up the chunks behind the first.
unfoldable pub add_carry : List ℕ → ℕ → List ℕ × ℕ
add_carry [] carry = ([], carry)
add_carry (x ∷ xs) carry =
    let sum = (x + carry) % word in
    let more = add_carry xs (if leb sum x then 1 else 0) in
    if not_zero carry then (sum ∷ more.0, more.1) else (x ∷ xs, carry)

-- A round of the loop of `modReduce256k1FromParts` with one chunk above the 256 bits.
unfoldable pub fold_round : List ℕ → ℕ → List ℕ × ℕ
unfolding add_carry
fold_round [] high = ([], high)
fold_round (x ∷ xs) high =
    let tmp = (high * fold_by + x) % 2 ^ 128 in
    let more = add_carry xs (tmp / word % word) in (tmp % word ∷ more.0, more.1)

-- That loop; the fuel counts its tests.
unfoldable pub fold_loop : ℕ → List ℕ → ℕ → Option (List ℕ)
unfolding fold_round
fold_loop zero low high = none
fold_loop (suc fuel) low high =
    let out = fold_round low high in
    let rest = fold_loop fuel (out.0) (out.1) in if not_zero high then rest else some low

-- `modReduce256k1` of 256 bits.
unfoldable pub mod_reduce : ℕ → ℕ
mod_reduce v = if leb field_p v then wrapped_sub v field_p else v

-- The subtraction behind the loop.
unfoldable pub subtract_once : Option (List ℕ) → Option ℕ
unfolding mod_reduce value
subtract_once none = none
subtract_once (some low) = some (mod_reduce (value low))

-- `modReduce256k1FromParts` with one chunk above the 256 bits.
unfoldable pub reduce_chunk : List ℕ → ℕ → Option ℕ
unfolding fold_loop subtract_once
reduce_chunk low high = subtract_once (fold_loop 3 low high)

-- The loop of `modReduce256k1FromParts` with 256 bits above the 256 bits.
unfoldable pub fold_parts : List ℕ → List ℕ → ℕ → List ℕ × ℕ
fold_parts (x ∷ xs) (h ∷ hs) carry =
    let tmp = (h * fold_by + carry + x) % 2 ^ 128 in
    let more = fold_parts xs hs (tmp / word) in (tmp % word ∷ more.0, more.1)
fold_parts xs hs carry = (xs, carry)

-- `modReduce256k1FromParts` with 256 bits above the 256 bits.
unfoldable pub reduce_parts : List ℕ → List ℕ → Option ℕ
unfolding fold_parts reduce_chunk
reduce_parts low high = let out = fold_parts low high 0 in reduce_chunk (out.0) (out.1)

-- `modReduce256k1` of 512 bits.
unfoldable pub reduce_wide : ℕ → Option ℕ
unfolding reduce_parts chunks
reduce_wide v = reduce_parts (chunks 4 v) (chunks 4 (v / 2 ^ 256))

-- `operator*` of two numbers.
unfoldable pub field_mul : ℕ → ℕ → Option ℕ
unfolding mul_rows reduce_parts chunks
field_mul a b =
    let out = mul_rows (chunks 4 a) (chunks 4 b) (0 ∷ 0 ∷ 0 ∷ 0 ∷ 0 ∷ 0 ∷ 0 ∷ 0 ∷ []) in
    reduce_parts (take 4 out) (drop 4 out)

-- The loop of `operator*` with an `int`.
unfoldable pub scale_chunks : List ℕ → ℕ → ℕ → List ℕ × ℕ
scale_chunks [] other carry = ([], carry)
scale_chunks (x ∷ xs) other carry =
    let tmp = (x * other + carry) % 2 ^ 128 in
    let more = scale_chunks xs other (tmp / word) in (tmp % word ∷ more.0, more.1)

-- `operator*` with an `int` that is not negative.
unfoldable pub field_scale : ℕ → ℕ → Option ℕ
unfolding scale_chunks reduce_chunk chunks
field_scale a other = let out = scale_chunks (chunks 4 a) other 0 in reduce_chunk (out.0) (out.1)

-- `operator+`.
unfoldable pub field_add : ℕ → ℕ → ℕ
unfolding mod_add value chunks
field_add a b = value (mod_add (chunks 4 field_p) (chunks 4 a) (chunks 4 b))

-- `operator-`.
unfoldable pub field_sub : ℕ → ℕ → ℕ
unfolding mod_sub value chunks
field_sub a b = value (mod_sub (chunks 4 field_p) (chunks 4 a) (chunks 4 b))
