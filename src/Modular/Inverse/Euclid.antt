-- ===== src/Modular/Inverse/Euclid.antt =====
-- The loop of `modinv` in src/crypto/modbigint.h follows Euclid's algorithm: the remainders, and the
-- multiples of the number that they are, with alternating signs.
use komozoievm.External.{Numbers}
use komozoievm.Modular.{wrapped_sub, inv_loop}
use komozoievm.Modular.Inverse.{step_lem}
use komozoievm.Modular.Inverse.Products.{
  product_step, below_step, above_step, negative, mul-negative,
}
use komozoievm.Common.Powers.{mul-mod}
use native.Mathlib.Nat.{div-add-mod', mod-lt, mul-le-mul_right}
use komozoievm.Common.{
  ℕ, zero, suc, ◌+◌, ◌*◌, ◌/◌, ◌%◌, ◌^◌, ◌≤◌, ◌<◌, ◌≡◌, refl, sym, ap, ◌∙◌, subst, Option, none,
  some, arith, inl, inr, ◌⊎◌,
}

subtracted_above : (q u v : ℕ) → wrapped_sub (v % 2 ^ 256) (q * negative u) ≡ (v + q * u) % 2 ^ 256
subtracted_above q u v = omega (arith, mul-negative q u)

subtracted_below : (q u v : ℕ) → wrapped_sub (negative v) (q * (u % 2 ^ 256)) ≡ negative (v + q * u)
subtracted_below q u v = omega (arith, mul-mod q u (2 ^ 256))

-- The remainder is a multiple of the number less one of the modulus, or one of the modulus less a
-- multiple of the number; `t` is the factor, or its negative, in 256 bits.
abbrev pub Above : (m x r u t : ℕ) → Type 0
Above m x r u t = (c : ℕ) × (u * x ≡ r + c * m) × (t ≡ u % 2 ^ 256)

abbrev pub Below : (m x r u t : ℕ) → Type 0
Below m x r u t = (c : ℕ) × (u * x + r ≡ c * m) × (t ≡ negative u)

pub record Euclid (m x a b s t : ℕ) : Type 0 where
  pub u : ℕ
  pub v : ℕ
  pub within : a ≤ m
  pub smaller : b < a
  pub product : a * u + b * v ≡ m
  pub half : 2 * v ≤ m
  pub signs : (Below m x a v s × Above m x b u t) ⊎ (Above m x a v s × Below m x b u t)

first : ℕ → Option (ℕ × ℕ) → ℕ
first d none = d
first d (some p) = p.0

second : ℕ → Option (ℕ × ℕ) → ℕ
second d none = d
second d (some p) = p.1

module _ (n : Numbers) (divides : (a b : ℕ) → 0 < b → n.div a b ≡ a / b) (m x : ℕ)
    (m_small : m < 2 ^ 256) where
  next :
      (a b s t : ℕ)
      → 0 < b
      → Euclid m x a b s t
      → Euclid m x b (a % b) t (wrapped_sub s (n.div a b * t))
  next a b s t pos i = record {
    u = i.v + q * i.u;
    v = i.u;
    within = omega (arith, i.smaller, i.within);
    smaller = mod-lt a pos;
    product = product_step a b q r e i.u i.v m i.product;
    half = omega (arith, i.product, mul-le-mul_right i.u two);
    signs = elim (i.signs) [
      | inl ((c, below, old), (d, above, new)) ↦ inr (
        (d, above, new),
        (
          c + q * d,
          below_step a b q r e i.u i.v x c d m below above,
          subtracted s t _ _ old new ∙ subtracted_below q i.u i.v,
        ),
      )
      | inr ((c, above, old), (d, below, new)) ↦ inl (
        (d, below, new),
        (
          c + q * d,
          above_step a b q r e i.u i.v x c d m above below,
          subtracted s t _ _ old new ∙ subtracted_above q i.u i.v,
        ),
      )
    ];
  }
    where
      q : ℕ
      q = a / b

      r : ℕ
      r = a % b

      e : q * b + r ≡ a
      e = div-add-mod' a b

      two : 2 ≤ a
      two = omega (arith, pos, i.smaller)

      subtracted :
          (s t s' t' : ℕ)
          → s ≡ s'
          → t ≡ t'
          → wrapped_sub s (n.div a b * t) ≡ wrapped_sub s' (q * t')
      subtracted s t s' t' old new = rw (divides a b pos, old, new) refl

  pub ended :
      (fuel a b s t g c : ℕ)
      → inv_loop n fuel a b s t ≡ some (g, c)
      → Euclid m x a b s t
      → (d : ℕ) × Euclid m x g 0 c d
  unfolding inv_loop first second
  ended zero a b s t g c h i = absurd (ground arith)
  ended (suc fuel) a zero s t g c h i = (
    t,
    subst (λ z. Euclid m x z 0 c t) (ap (first 0) h)
        (subst (λ z. Euclid m x a 0 z t) (ap (second 0) h) i),
  )
  ended (suc fuel) a (suc b) s t g c h i =
      ended fuel (suc b) (a % suc b) t (wrapped_sub s (n.div a (suc b) * t)) g c
        (sym
            (step_lem n divides fuel a (suc b) s t (omega (arith, i.within, m_small)) (omega arith))
          ∙ h)
        (next a (suc b) s t (omega arith) i)
