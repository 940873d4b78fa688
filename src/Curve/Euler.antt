-- ===== src/Curve/Euler.antt =====
-- Euler's test of a square for the root that `modsqrt` of src/crypto/Secp256k1.h tries.
use komozoievm.Curve.Field.{field_p, mod_reduce}
use komozoievm.Common.Powers.{mod-mul, mul-mod, pow-add}
use native.Mathlib.Nat.{pow-suc, mod-eq_of_lt}
use komozoievm.Common.{
  ℕ, suc, ◌+◌, ◌-◌, ◌*◌, ◌/◌, ◌%◌, ◌^◌, ◌<◌, ◌≡◌, refl, sym, ap, ◌∙◌, ◌≢◌, ◌==◌, false, arith,
}
use mathlib.Core.Path.{◌≡⟨◌⟩◌, ◌∎}

-- Twice the exponent of the root is one more than the exponent of Euler's test.
exponents :
    mod_reduce ((field_p + 1) / 4) + mod_reduce ((field_p + 1) / 4) ≡ suc ((field_p - 1) / 2)
unfolding mod_reduce
exponents = refl

pub differ : (x y : ℕ) → (x == y) ≡ false → x ≢ y
differ x y h e = ground arith

-- A power whose doubled exponent is one more than one that gives 1 squares to the base.
squares_back :
    (a k h m : ℕ)
    → k + k ≡ suc h
    → a < m
    → a ^ h % m ≡ 1
    → (1 * a ^ k % m) * (1 * a ^ k % m) % m ≡ a
squares_back a k h m double low one =
    (1 * a ^ k % m) * (1 * a ^ k % m) % m
    ≡⟨ mod-mul (1 * a ^ k) (1 * a ^ k % m) m ⟩ 1 * a ^ k * (1 * a ^ k % m) % m
    ≡⟨ mul-mod (1 * a ^ k) (1 * a ^ k) m ⟩ 1 * a ^ k * (1 * a ^ k) % m
    ≡⟨ ap (λ (t : ℕ). t * t % m) (omega arith) ⟩ a ^ k * a ^ k % m
    ≡⟨ ap (λ (t : ℕ). t % m) (pow-add a k k ∙ ap (λ t. a ^ t) double ∙ pow-suc a h) ⟩ a ^ h * a % m
    ≡⟨ sym (mod-mul (a ^ h) a m) ⟩ a ^ h % m * a % m
    ≡⟨ ap (λ (t : ℕ). t * a % m) one ⟩ 1 * a % m
    ≡⟨ ap (λ (t : ℕ). t % m) (omega arith) ⟩ a % m
    ≡⟨ mod-eq_of_lt low ⟩ a ∎

-- The number that `modsqrt` tries squares to a number that passes Euler's test.
pub tried_root :
    (a : ℕ)
    → a < field_p
    → a ^ ((field_p - 1) / 2) % field_p ≡ 1
    → (1 * a ^ mod_reduce ((field_p + 1) / 4) % field_p)
        * (1 * a ^ mod_reduce ((field_p + 1) / 4) % field_p)
        % field_p
      ≡ a
tried_root a low one =
    squares_back a (mod_reduce ((field_p + 1) / 4)) ((field_p - 1) / 2) field_p exponents low one
