-- ===== src/Modular/Inverse/Products.antt =====
-- Sums of products that a round of `modinv` in src/crypto/modbigint.h keeps.
use native.Mathlib.Nat.{mul-add, add-mul, mul_comm, mul_assoc}
use komozoievm.Common.{ℕ, ◌+◌, ◌-◌, ◌*◌, ◌/◌, ◌%◌, ◌^◌, ◌≡◌, sym, ap, ◌∙◌, arith}

module _ (a b q r : ℕ) (e : q * b + r ≡ a) where
  times : (u : ℕ) → a * u ≡ b * (q * u) + r * u
  times u =
      ap (λ z. z * u) (sym e)
      ∙ add-mul (q * b) r u
      ∙ ap (λ z. z * u + r * u) (mul_comm q b)
      ∙ ap (λ z. z + r * u) (mul_assoc b q u)

  pub product_step : (u v m : ℕ) → a * u + b * v ≡ m → b * (v + q * u) + r * u ≡ m
  product_step u v m h = omega (arith, h, times u, mul-add b v (q * u))

  split : (u v x : ℕ) → (v + q * u) * x ≡ v * x + q * (u * x)
  split u v x = add-mul v (q * u) x ∙ ap (λ z. v * x + z) (mul_assoc q u x)

  pub below_step :
      (u v x c d m : ℕ)
      → v * x + a ≡ c * m
      → u * x ≡ b + d * m
      → (v + q * u) * x + r ≡ (c + q * d) * m
  below_step u v x c d m h k =
      omega (arith, e, h, split u v x, split d c m, ap (λ z. q * z) k, mul-add q b (d * m))

  pub above_step :
      (u v x c d m : ℕ)
      → v * x ≡ a + c * m
      → u * x + b ≡ d * m
      → (v + q * u) * x ≡ r + (c + q * d) * m
  above_step u v x c d m h k =
      omega (arith, e, h, split u v x, split d c m, ap (λ z. q * z) k, mul-add q (u * x) b)

-- The negative of a number in 256 bits.
abbrev pub negative : ℕ → ℕ
negative u = (2 ^ 256 - u % 2 ^ 256) % 2 ^ 256

-- A multiple of a negative.
pub mul-negative : (q u : ℕ) → q * negative u % 2 ^ 256 ≡ negative (q * u)
mul-negative q u = omega (arith, whole, mul-add q (negative u) u)
  where
    n : ℕ
    n = (negative u + u) / 2 ^ 256

    round : negative u + u ≡ n * 2 ^ 256
    round = omega arith

    whole : q * (negative u + u) ≡ q * n * 2 ^ 256
    whole = ap (λ z. q * z) round ∙ sym (mul_assoc q n (2 ^ 256))
