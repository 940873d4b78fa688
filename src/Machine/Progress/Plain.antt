-- ===== src/Machine/Progress/Plain.antt =====
-- The instructions that compute, compare, read the environment or storage, and jump.
use komozoievm.External.{Env}
use komozoievm.Context.State.{M, Outcome, succeeded, failed, pure, pop, push, charge, ◌>>=◌, ◌>>◌}
use komozoievm.Machine.Op
use komozoievm.Machine.Op.{
  ArithOp, CompareOp, BitOp, EnvOp, ControlOp, MemoryOp, jump, jumpi, pc, msize, gas, jumpdest,
}
use komozoievm.Machine.Words.{
  exec_arith, exec_compare, exec_bits, exponent_bytes, exp_word, sign_extend,
}
use komozoievm.Machine.Progress.Steps.{
  Steps, goes_on, Steps-weaken, free-then, pay-then, pure-Free, pure-Steps, pop-Free, push-Free,
}
use komozoievm.Common.{ℕ, zero, suc, ◌+◌, ◌*◌, ◌^◌, ◌≤◌, refl, Bool, arith}

-- More than any instruction takes that does not run another contract.
abbrev pub most : ℕ
most = 2 ^ 26

pub to_most :
    {p : Bool} {h : ℕ} {m : M Outcome} → Steps p goes_on h m → h ≤ most → Steps p goes_on most m
to_most s b = Steps-weaken s (λ o. omega arith) b

pub failed-Steps : {p : Bool} {h : ℕ} (m : _) → Steps p goes_on h (pure (failed m))
failed-Steps m =
    Steps-weaken (pure-Steps {low = goes_on} (failed m) refl) (λ o. omega arith) (omega arith)

-- An answer, and then the charge.
pub paid : {p : Bool} (g : ℕ) → 1 ≤ g → Steps p goes_on g (charge g >> pure succeeded)
paid g h = Steps-weaken (pay-then g h (pure-Free succeeded)) (λ o. omega arith) (omega arith)

pub answered :
    {p : Bool} (x g : ℕ) → 1 ≤ g → Steps p goes_on g (push x >> (charge g >> pure succeeded))
answered x g h = free-then (push-Free x) λ _. paid g h

binary-Steps :
    {p : Bool} (f : ℕ → ℕ → ℕ) (g : ℕ)
    → 1 ≤ g
    → g ≤ most
    → Steps p goes_on most (do a ← pop; b ← pop; push (f a b); charge g; pure succeeded)
binary-Steps f g h b =
    to_most (free-then pop-Free λ x. free-then pop-Free λ y. answered (f x y) g h) b

ternary-Steps :
    {p : Bool} (f : ℕ → ℕ → ℕ → ℕ) (g : ℕ)
    → 1 ≤ g
    → g ≤ most
    → Steps p goes_on most (do a ← pop; b ← pop; n ← pop; push (f a b n); charge g; pure succeeded)
ternary-Steps f g h b =
    to_most
      (free-then pop-Free
        λ x. free-then pop-Free λ y. free-then pop-Free λ z. answered (f x y z) g h)
      b

exponent_bytes-le : (rounds i n : ℕ) → exponent_bytes rounds i n ≤ rounds
unfolding exponent_bytes
exponent_bytes-le zero i n = omega arith
exponent_bytes-le (suc rounds) i n = ground (arith, exponent_bytes-le rounds (i + 1) n)

pub exec_arith-Steps : {p : Bool} (e : Env) (o : ArithOp) → Steps p goes_on most (exec_arith e o)
unfolding exec_arith
exec_arith-Steps e Op.ArithOp.exp = free-then pop-Free λ b. free-then pop-Free λ n.
    to_most (answered (exp_word b n) (10 + exponent_bytes 32 0 n * 50) (omega arith))
      (omega (arith, exponent_bytes-le 32 0 n))
exec_arith-Steps e Op.ArithOp.signextend =
    binary-Steps (sign_extend e) 5 (omega arith) (omega arith)
exec_arith-Steps e Op.ArithOp.addmod = ternary-Steps _ 8 (omega arith) (omega arith)
exec_arith-Steps e Op.ArithOp.mulmod = ternary-Steps _ 8 (omega arith) (omega arith)
exec_arith-Steps e Op.ArithOp.add = binary-Steps _ 3 (omega arith) (omega arith)
exec_arith-Steps e Op.ArithOp.sub = binary-Steps _ 3 (omega arith) (omega arith)
exec_arith-Steps e _ = binary-Steps _ 5 (omega arith) (omega arith)

pub exec_compare-Steps :
    {p : Bool} (e : Env) (o : CompareOp) → Steps p goes_on most (exec_compare e o)
unfolding exec_compare
exec_compare-Steps e Op.CompareOp.iszero =
    free-then pop-Free λ a. to_most (answered _ 3 (omega arith)) (omega arith)
exec_compare-Steps e _ = binary-Steps _ 3 (omega arith) (omega arith)

pub exec_bits-Steps : {p : Bool} (e : Env) (o : BitOp) → Steps p goes_on most (exec_bits e o)
unfolding exec_bits
exec_bits-Steps e Op.BitOp.not_op =
    free-then pop-Free λ a. to_most (answered _ 3 (omega arith)) (omega arith)
exec_bits-Steps e _ = binary-Steps _ 3 (omega arith) (omega arith)
