-- ===== src/Machine/Words.antt =====
-- The arithmetic, comparison and bit instructions of src/ethereum/EVM.cpp.
pub mod Power
use Prim.Native.Nat.{bit_and, bit_or, bit_xor}
use komozoievm.External.{Env}
use komozoievm.Context.State.{M, Outcome, succeeded, pure, pop, push, charge, ◌>>=◌, ◌>>◌}
use komozoievm.Machine.Op.{
  ArithOp, add, mul, sub, div, sdiv, mod_op, smod, addmod, mulmod, exp, signextend, CompareOp, lt,
  gt, slt, sgt, eq, iszero, BitOp, and_op, or_op, xor_op, not_op, byte, shl, shr, sar,
}
use komozoievm.Common.{
  ℕ, zero, suc, ◌+◌, ◌-◌, ◌*◌, ◌/◌, ◌%◌, ◌^◌, Bool, true, false, ltb, leb, ◌==◌, if◌then◌else◌,
  ◌&&◌, not,
}
use komozoievm.Common.Bytes.{raw_byte}

abbrev pub word_mod : ℕ
word_mod = 2 ^ 256

-- `a OP b` for the two topmost words, at a cost of `g`.
abbrev binary : (ℕ → ℕ → ℕ) → ℕ → M Outcome
binary f g = do a ← pop; b ← pop; push (f a b); charge g; pure succeeded

abbrev ternary : (ℕ → ℕ → ℕ → ℕ) → ℕ → M Outcome
ternary f g = do a ← pop; b ← pop; n ← pop; push (f a b n); charge g; pure succeeded

-- The first loop of EXP, which squares the base while the exponent is even and not 0.
unfoldable pub exp_squares : ℕ → ℕ → ℕ → ℕ × ℕ
exp_squares zero b n = (b, n)
exp_squares (suc rounds) b n = elim (n % 2 == 0 && not (n == 0)) [
  | true ↦ exp_squares rounds (b * b % word_mod) (n / 2)
  | false ↦ (b, n)
]

-- The second loop, which counts the exponent down.
unfoldable pub exp_products : ℕ → ℕ → ℕ → ℕ
exp_products a b zero = a
exp_products a b (suc n) = exp_products (a * b % word_mod) b n

-- An exponent below 2 ^ 256 is halved fewer than 256 times.
unfoldable pub exp_word : ℕ → ℕ → ℕ
unfolding exp_squares exp_products
exp_word b n = let r = exp_squares 256 b n in exp_products 1 r.0 r.1

-- The number of bytes of the exponent, from the lowest one up to a byte that is 0.
unfoldable pub exponent_bytes : ℕ → ℕ → ℕ → ℕ
exponent_bytes zero i n = 0
exponent_bytes (suc rounds) i n =
    let rest = exponent_bytes rounds (i + 1) n in if raw_byte n i == 0 then 0 else rest + 1

unfoldable pub sign_extend : Env → ℕ → ℕ → ℕ
sign_extend e a b =
    let idx = 8 * a + 7 in
    let sign = b / 2 ^ idx % 2 in
    let mask = e.of_negative 1 / 2 ^ (256 - idx) in
    let high : ℕ = if sign == 0 then 0 else e.of_negative 1 in
    if ltb a 32 then bit_or (high * 2 ^ idx % word_mod) (bit_and b mask) else b

unfoldable pub exec_arith : Env → ArithOp → M Outcome
unfolding pop push charge exp_word exponent_bytes sign_extend
exec_arith e add = binary (λ a b. (a + b) % word_mod) 3
exec_arith e mul = binary (λ a b. a * b % word_mod) 5
exec_arith e sub = binary (λ a b. (a + word_mod - b) % word_mod) 3
exec_arith e div = binary e.div 5
exec_arith e sdiv = binary e.sdiv 5
exec_arith e mod_op = binary e.mod_word 5
exec_arith e smod = binary e.smod 5
exec_arith e addmod = ternary (λ a b n. e.mod_wide (a + b) n) 8
exec_arith e mulmod = ternary (λ a b n. e.mod_wide (a * b) n) 8
exec_arith e exp = do
  b ← pop
  n ← pop
  push (exp_word b n)
  charge (10 + exponent_bytes 32 0 n * 50)
  pure succeeded
exec_arith e signextend = do a ← pop; b ← pop; push (sign_extend e a b); charge 5; pure succeeded

abbrev truth : Bool → ℕ
truth b = if b then 1 else 0

unfoldable pub exec_compare : Env → CompareOp → M Outcome
unfolding pop push charge
exec_compare e lt = binary (λ a b. truth (ltb a b)) 3
exec_compare e gt = binary (λ a b. truth (ltb b a)) 3
exec_compare e slt = binary (λ a b. truth (e.signed_less_than a b)) 3
exec_compare e sgt = binary (λ a b. truth (e.signed_less_than b a)) 3
exec_compare e eq = binary (λ a b. truth (a == b)) 3
exec_compare e iszero = do a ← pop; push (truth (a == 0)); charge 3; pure succeeded

-- The shift amount or the byte index is on top; 256 and 32 are tested before a byte is used.
unfoldable pub exec_bits : Env → BitOp → M Outcome
unfolding pop push charge
exec_bits e and_op = binary bit_and 3
exec_bits e or_op = binary bit_or 3
exec_bits e xor_op = binary bit_xor 3
exec_bits e not_op = do a ← pop; push (word_mod - 1 - a); charge 3; pure succeeded
exec_bits e byte = binary (λ b a. if leb 32 b then 0 else raw_byte a (31 - b)) 3
exec_bits e shl = binary (λ b a. if leb 256 b then 0 else a * 2 ^ b % word_mod) 3
exec_bits e shr = binary (λ b a. if leb 256 b then 0 else a / 2 ^ b) 3
exec_bits e sar =
    binary
      (λ b a.
        if leb 256 b then (if raw_byte a 31 / 128 == 0 then 0 else e.of_negative 1) else e.sar a b)
      3
