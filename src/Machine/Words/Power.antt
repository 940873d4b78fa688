-- ===== src/Machine/Words/Power.antt =====
-- The EXP instruction computes a power.
use komozoievm.Machine.Words.{word_mod, exp_squares, exp_products, exp_word}
use komozoievm.Common.{
  ℕ, zero, suc, ◌*◌, ◌/◌, ◌%◌, ◌^◌, ◌<◌, ◌≡◌, refl, sym, ap, ◌∙◌, ◌⊎◌, Bool-cases, inl, inr, ◌==◌,
  not, ◌&&◌, arith,
}
use komozoievm.Common.Powers.{mod-mul, mod-pow, pow-double}
use native.Mathlib.Nat.{pow-suc, mul_comm, mul_assoc}
use native.Mathlib.Nat.{two-pow-succ, pow-zero, mod-eq_of_lt, one-mul, mul-one}

exp_products_lem : (a b n : ℕ) → exp_products a b n % word_mod ≡ a * b ^ n % word_mod
unfolding exp_products
exp_products_lem a b zero = ap (λ (t : ℕ). t % word_mod) (rw (pow-zero b) (sym (mul-one a)))
exp_products_lem a b (suc n) =
    exp_products_lem (a * b % word_mod) b n
    ∙ mod-mul (a * b) (b ^ n) word_mod
    ∙ ap (λ (t : ℕ). t % word_mod) (mul_assoc a b (b ^ n) ∙ rw (pow-suc, mul_comm b (b ^ n)))

exp_products-lt : (a b n : ℕ) → a < word_mod → exp_products a b n < word_mod
unfolding exp_products
exp_products-lt a b zero h = h
exp_products-lt a b (suc n) h = exp_products-lt (a * b % word_mod) b n (omega arith)

exp_squares_lem :
    (rounds b n : ℕ)
    → (exp_squares rounds b n).0 ^ (exp_squares rounds b n).1 % word_mod ≡ b ^ n % word_mod
unfolding exp_squares
exp_squares_lem zero b n = refl
exp_squares_lem (suc rounds) b n = elim (Bool-cases (n % 2 == 0 && not (n == 0))) [
  | inl even ↦
      rw (even, exp_squares)
        (exp_squares_lem rounds (b * b % word_mod) (n / 2)
          ∙ mod-pow (b * b) (n / 2) word_mod
          ∙ ap (λ (t : ℕ). t % word_mod)
              (pow-double b (n / 2) ∙ ap (λ (t : ℕ). b ^ t) (ground arith)))
  | inr odd ↦ rw (odd, exp_squares)
]

-- Where the rounds are enough the first loop ends by its own test.
exp_squares_done :
    (rounds b n : ℕ)
    → n < 2 ^ rounds
    → ((exp_squares rounds b n).1 % 2 ≡ 1) ⊎ ((exp_squares rounds b n).1 ≡ 0)
unfolding exp_squares
exp_squares_done zero b n h = inr (omega arith)
exp_squares_done (suc rounds) b n h = ground (
  arith,
  two-pow-succ rounds,
  exp_squares_done rounds (b * b % word_mod) (n / 2) (omega (arith, two-pow-succ rounds)),
)

one_fits : 1 < word_mod
one_fits = omega arith

-- EXP pushes the power modulo 2 ^ 256, for every base and exponent; for a 256-bit exponent the 256
-- rounds given to the loop that squares are all that it makes: it stops at an odd exponent or at 0.
pub exp_word-pow :
    (b n : ℕ)
    → n < word_mod
    → (exp_word b n ≡ b ^ n % word_mod)
      × (((exp_squares 256 b n).1 % 2 ≡ 1) ⊎ ((exp_squares 256 b n).1 ≡ 0))
unfolding exp_word
exp_word-pow b n h = (value, exp_squares_done 256 b n h)
  where
    r : ℕ × ℕ
    r = exp_squares 256 b n

    value : exp_products 1 r.0 r.1 ≡ b ^ n % word_mod
    value =
        sym (mod-eq_of_lt (exp_products-lt 1 r.0 r.1 one_fits))
        ∙ exp_products_lem 1 r.0 r.1
        ∙ ap (λ (t : ℕ). t % word_mod) (one-mul (r.0 ^ r.1))
        ∙ exp_squares_lem 256 b n
