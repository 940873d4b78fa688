-- ===== src/Modular/Lost.antt =====
-- The borrow that the loop of `operator-` of src/crypto/modbigint.h, and of the same loop in
-- src/crypto/Secp256k1.h, loses at a chunk of all ones.
use komozoievm.Modular.{word, value, sub_loop, sub_raw}
use komozoievm.Modular.Chunks.{AreChunks, span, sub_raw_value, sub_loop-sub_raw}
use komozoievm.Common.{
  ℕ, ◌+◌, ◌-◌, ◌*◌, ◌%◌, ◌^◌, ◌<◌, ◌≡◌, List, [], ◌∷◌, true, false, All, ltb, length, arith,
}

scale : (s c : ℕ) → word * (word * s) * c ≡ word * (word * (s * c))
scale s c = grind arith

free-AreChunks : (ys : List ℕ) → All (λ y. y < 2 ^ 64 - 1) ys → AreChunks ys
free-AreChunks [] h = tt
free-AreChunks (y ∷ ys) (h, k) = (omega arith, free-AreChunks ys k)

-- In chunks of the same width, where the lowest chunk needs a borrow and the next chunk that is
-- subtracted is all ones, and none above it is, the difference comes out 2^128 too large.
pub sub_loop_lost :
    (a₀ a₁ b₀ : ℕ) (xs ys : List ℕ)
    → AreChunks (a₀ ∷ a₁ ∷ xs)
    → b₀ < 2 ^ 64
    → a₀ < b₀
    → All (λ y. y < 2 ^ 64 - 1) ys
    → length xs ≡ length ys
    → let b = b₀ ∷ (2 ^ 64 - 1) ∷ ys in
      let out = sub_loop (a₀ ∷ a₁ ∷ xs) b 0 in
      value (out.0) + value b ≡ value (a₀ ∷ a₁ ∷ xs) + 2 ^ 128 + span (a₀ ∷ a₁ ∷ xs) * out.1
unfolding sub_loop value span
sub_loop_lost a₀ a₁ b₀ xs ys (h₀, (h₁, h)) k less free e =
    let first : ltb a₀ ((b₀ + 0) % word) ≡ true = ground arith in
    let second : ltb a₁ ((2 ^ 64 - 1 + 1) % word) ≡ false = ground arith in
    let (v, f, d, n) = sub_raw_value xs ys 0 h (free-AreChunks ys free) e (omega arith) in
    rw (first, second, sub_loop-sub_raw xs ys 0 h free (omega arith))
      (omega (arith, v, scale (span xs) ((sub_raw xs ys 0).1)))
