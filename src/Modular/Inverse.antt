-- ===== src/Modular/Inverse.antt =====
-- Termination of the loop of `modinv` of src/crypto/modbigint.h and src/crypto/Secp256k1.h.
pub mod Products
pub mod Euclid
pub mod Inverting
use komozoievm.External.{Numbers}
use komozoievm.Modular.{wrapped_sub, inv_loop, mod_inv}
use native.Mathlib.Nat.{div-add-mod', mod-lt}
use komozoievm.Common.{
  ℕ, zero, suc, ◌+◌, ◌*◌, ◌/◌, ◌%◌, ◌^◌, ◌≤◌, ◌<◌, ◌≡◌, refl, ap, ◌∙◌, Option, none, some, false,
  leb, ◌==◌, if◌then◌else◌, arith, inl, inr, ◌⊎◌,
}

half_lem : (q b r a : ℕ) → q * b + r ≡ a → r < b → b ≤ a → r + r ≤ a
half_lem zero b r a e h k = absurd (omega arith)
half_lem (suc q) b r a e h k = let next : suc q * b ≡ b + q * b = grind arith in omega arith

-- The rest of a division by a smaller number is at most half of the number.
half : (a b : ℕ) → 0 < b → b ≤ a → a % b + a % b ≤ a
half a b h k = half_lem (a / b) b (a % b) a (div-add-mod' a b) (mod-lt a h) k

-- Two rounds for each bit, and the one that ends.
unfoldable pub rounds : ℕ → ℕ
rounds zero = 1
rounds (suc k) = suc (suc (rounds k))

pub Ends : Option (ℕ × ℕ) → Type 0
Ends o = (out : ℕ × ℕ) × (o ≡ some out) × (out.1 < 2 ^ 256)

zero_or_more : (b : ℕ) → (b ≡ 0) ⊎ (0 < b)
zero_or_more zero = inl refl
zero_or_more (suc b) = inr (omega arith)

twice : (m : ℕ) → 2 ^ suc m ≡ 2 ^ m + 2 ^ m
twice m = grind arith

chosen :
    (r t m : ℕ)
    → t < 2 ^ 256
    → (if r == 1 then if leb (2 ^ 255) t then (t + m) % 2 ^ 256 else t else 0) < 2 ^ 256
chosen r t m h = ground arith

module _ (n : Numbers) (divides : (a b : ℕ) → 0 < b → n.div a b ≡ a / b) where
  -- A round turns the remainders into the smaller one and the rest of the division by it.
  pub rest_lem : (a b : ℕ) → a < 2 ^ 256 → 0 < b → wrapped_sub a (n.div a b * b) ≡ a % b
  rest_lem a b h k =
      ap (λ q. wrapped_sub a (q * b)) (divides a b k) ∙ omega (arith, div-add-mod' a b)

  pub step_lem :
      (fuel a b s t : ℕ)
      → a < 2 ^ 256
      → 0 < b
      → inv_loop n (suc fuel) a b s t ≡ inv_loop n fuel b (a % b) t (wrapped_sub s (n.div a b * t))
  unfolding inv_loop
  step_lem fuel a b s t h k =
      let more : (b == 0) ≡ false = ground arith in
      rw more (ap (λ r. inv_loop n fuel b r t (wrapped_sub s (n.div a b * t))) (rest_lem a b h k))

  stop_lem : (fuel a b s t : ℕ) → s < 2 ^ 256 → b ≡ 0 → Ends (inv_loop n (suc fuel) a b s t)
  unfolding inv_loop Ends
  stop_lem fuel a b s t m e = ((a, s), rw e refl, m)

  goes_on : {o o' : Option (ℕ × ℕ)} → o ≡ o' → Ends o' → Ends o
  unfolding Ends
  goes_on e (out, is, h) = (out, e ∙ is, h)

  pub inv_loop-Ends :
      (k a b s t : ℕ)
      → a < 2 ^ 256
      → b < 2 ^ 256
      → b < 2 ^ k
      → s < 2 ^ 256
      → t < 2 ^ 256
      → Ends (inv_loop n (rounds k) a b s t)
  unfolding rounds
  inv_loop-Ends zero a b s t h k l i j = stop_lem 0 a b s t i (omega arith)
  inv_loop-Ends (suc m) a b s t h k l i j = elim (zero_or_more b) [
    | inl z ↦ stop_lem (suc (rounds m)) a b s t i z
    | inr p ↦
        let rest : a % b < b = mod-lt a p in
        let s' = wrapped_sub s (n.div a b * t) in
        goes_on (step_lem (suc (rounds m)) a b s t h p) (elim (zero_or_more (a % b)) [
          | inl z ↦ stop_lem (rounds m) b (a % b) t s' j z
          | inr q ↦
              let small : b % (a % b) < 2 ^ m =
                omega (arith, half b (a % b) q (omega arith), twice m) in
              goes_on (step_lem (rounds m) b (a % b) t s' k q) (
                inv_loop-Ends m (a % b) (b % (a % b)) s' _ (omega arith) (omega (arith, mod-lt b q))
                  small (omega arith) (omega arith))
        ])
  ]

  -- Where `/` of the number library divides, the 513 rounds given to the loop of `modinv` are
  -- enough for any two 256-bit numbers, and the result is such a number.
  pub mod_inv-total :
      (m x : ℕ)
      → m < 2 ^ 256
      → x < 2 ^ 256
      → (out : ℕ) × (mod_inv n m x ≡ some out) × (out < 2 ^ 256)
  unfolding mod_inv rounds Ends
  mod_inv-total m x h k =
      let ((r, t), is, l) = inv_loop-Ends 256 m x 0 1 h k k (omega arith) (omega arith) in
      (
        _,
        ap
            (λ o. elim o [
              | none ↦ none
              | some (r', t') ↦
                  some (if r' == 1 then if leb (2 ^ 255) t' then (t' + m) % 2 ^ 256 else t' else 0)
            ])
            is,
        chosen r t m l,
      )
