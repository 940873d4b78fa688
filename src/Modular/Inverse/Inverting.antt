-- ===== src/Modular/Inverse/Inverting.antt =====
-- `modinv` of src/crypto/modbigint.h and src/crypto/Secp256k1.h finds the inverse, where there is one.
use komozoievm.External.{Numbers}
use komozoievm.Modular.{mod_inv}
use komozoievm.Modular.Inverse.{rounds, Ends, inv_loop-Ends}
use komozoievm.Modular.Inverse.Products.{negative}
use komozoievm.Modular.Inverse.Euclid.{Euclid, Above, Below, ended}
use native.Mathlib.Nat.{
  div-add-mod', mod-eq_of_lt, mul-le-mul_left, mul-suc, suc-mul, add-mul, mul_comm, mul_assoc,
  add-mul-mod_self_right, eq_of_mul-eq-mul_left,
}
use komozoievm.Common.{
  ℕ, zero, suc, ◌+◌, ◌-◌, ◌*◌, ◌/◌, ◌%◌, ◌^◌, ◌≤◌, ◌<◌, ◌≡◌, ◌≢◌, refl, sym, ap, ◌∙◌, subst, none,
  some, true, false, arith, inl, inr, ◌⊎◌, ◌==◌, leb, if◌then◌else◌, Bool-cases, ==→eq,
}

-- The number is inverse to `x`, or it is 0 and there is no inverse.
abbrev pub IsInverse : (m x out : ℕ) → Type 0
IsInverse m x out = (out * x % m ≡ 1) ⊎ ((out ≡ 0) × ((y : ℕ) → y * x % m ≢ 1))

no_common : (g y z : ℕ) → g * y ≡ 1 + g * z → g ≡ 1
no_common zero y z h = absurd (omega (arith, h))
no_common (suc g) y z h = elim (Bool-cases (leb y z)) [
  | inl le ↦ absurd (omega (arith, h, mul-le-mul_left (suc g) (lower y z le)))
  | inr gt ↦ omega (arith, h, mul-le-mul_left (suc g) (higher y z gt), mul-suc (suc g) z)
]
  where
    lower : (y z : ℕ) → leb y z ≡ true → y ≤ z
    lower y z e = ground arith

    higher : (y z : ℕ) → leb y z ≡ false → suc z ≤ y
    higher y z e = ground arith

one_more : (m k : ℕ) → 1 < m → (1 + k * m) % m ≡ 1
one_more m k h = add-mul-mod_self_right 1 k m ∙ mod-eq_of_lt h

-- The factor as the code turns it into a number below the modulus.
abbrev chosen : ℕ → ℕ → ℕ
chosen m c = if leb (2 ^ 255) c then (c + m) % 2 ^ 256 else c

no_multiple : (k m : ℕ) → 1 < m → 1 ≡ k * m → ⊥
no_multiple zero m h e = omega (arith, e)
no_multiple (suc k) m h e = omega (arith, h, e, suc-mul k m)

less_one :
    (m v c : ℕ) → 1 < m → m < 2 ^ 256 → 0 < v → 2 * v ≤ m → c ≡ negative v → chosen m c ≡ m - v
less_one m v c h l p half is = ground arith

module _ (m x : ℕ) (m_small : m < 2 ^ 256) (more : 1 < m) where
  found : (v c : ℕ) → 2 * v ≤ m → (Below m x 1 v c) ⊎ (Above m x 1 v c) → chosen m c * x % m ≡ 1
  found v c half (inl (k, below, is)) =
      ap (λ z. z * x % m) kept
      ∙ sym (add-mul-mod_self_right ((m - v) * x) k m)
      ∙ ap (λ z. z % m) whole
      ∙ one_more m x more
    where
      positive : (w : ℕ) → w * x + 1 ≡ k * m → 0 < w
      positive zero e = absurd (no_multiple k m more (omega (arith, e)))
      positive (suc w) e = omega arith

      kept : chosen m c ≡ m - v
      kept = less_one m v c more m_small (positive v below) half is

      times : (m - v) * x + v * x ≡ m * x
      times = sym (add-mul (m - v) v x) ∙ ap (λ z. z * x) (omega (arith, half))

      whole : (m - v) * x + k * m ≡ 1 + x * m
      whole = omega (arith, times, below, mul_comm m x)
  found v c half (inr (k, above, is)) =
      ap (λ z. z * x % m) kept ∙ ap (λ z. z % m) above ∙ one_more m k more
    where
      kept : chosen m c ≡ v
      kept = rw is (ground arith)

  unfound : (g u d : ℕ) → g * u ≡ m → u * x ≡ d * m → g ≢ 1 → (y : ℕ) → y * x % m ≢ 1
  unfound g u d whole multiple other y one =
      other (no_common g (y * d) (e * u) (left ∙ omega (arith, one, div-add-mod' (y * x) m, right)))
    where
      e : ℕ
      e = y * x / m

      positive : (w : ℕ) → g * w ≡ m → 0 < w
      positive zero e = absurd (omega (arith, e, more))
      positive (suc w) e = omega arith

      share : x ≡ d * g
      share =
          eq_of_mul-eq-mul_left u (positive u whole) x (d * g)
            (multiple ∙ ap (λ z. d * z) (sym whole) ∙ sym (mul_assoc d g u) ∙ mul_comm (d * g) u)

      left : g * (y * d) ≡ y * x
      left = mul_comm g (y * d) ∙ mul_assoc y d g ∙ ap (λ z. y * z) (sym share)

      right : e * m ≡ g * (e * u)
      right =
          ap (λ z. e * z) (sym whole)
          ∙ sym (mul_assoc e g u)
          ∙ ap (λ z. z * u) (mul_comm e g)
          ∙ mul_assoc g e u

module _ (n : Numbers) (divides : (a b : ℕ) → 0 < b → n.div a b ≡ a / b) where
  start : (m x : ℕ) → x < m → Euclid m x m x 0 1
  start m x l = record {
    u = 1;
    v = 0;
    within = omega arith;
    smaller = l;
    product = omega arith;
    half = omega arith;
    signs = inl ((1, omega arith, refl), (0, omega arith, refl));
  }

  answered :
      (m x g c d : ℕ)
      → m < 2 ^ 256
      → 1 < m
      → Euclid m x g 0 c d
      → IsInverse m x (if g == 1 then chosen m c else 0)
  answered m x g c d small more i = elim (Bool-cases (g == 1)) [
    | inl one ↦ rw one (
        inl (
          found m x small more i.v c i.half
            (subst (λ z. Below m x z i.v c ⊎ Above m x z i.v c) (==→eq g 1 one) factor)))
    | inr other ↦ rw other (
        inr (
          refl,
          unfound m x small more g i.u (multiple.0) (omega (arith, i.product)) (multiple.1)
              (apart other),
        ))
  ]
    where
      factor : Below m x g i.v c ⊎ Above m x g i.v c
      factor = elim (i.signs) [ inl (old, new) ↦ inl old | inr (old, new) ↦ inr old ]

      multiple : (e : ℕ) × (i.u * x ≡ e * m)
      multiple = elim (i.signs) [
        | inl (old, (e, is, t)) ↦ (e, omega (arith, is))
        | inr (old, (e, is, t)) ↦ (e, omega (arith, is))
      ]

      apart : (g == 1) ≡ false → g ≢ 1
      apart f e = ground arith

  -- Where `/` of the number library divides, `modinv` of a number below a modulus from 2 to
  -- 2^256 - 1 answers with a number whose product with it is 1 modulo the modulus, or with 0, and
  -- then there is no such number.
  pub mod_inv-IsInverse :
      (m x : ℕ)
      → m < 2 ^ 256
      → 1 < m
      → x < m
      → (out : ℕ) × (mod_inv n m x ≡ some out) × IsInverse m x out
  unfolding mod_inv rounds Ends
  mod_inv-IsInverse m x small more l =
      let ((g, c), is, b) =
        inv_loop-Ends n divides 256 m x 0 1 small (omega (arith, l, small))
          (omega (arith, l, small)) (omega arith) (omega arith) in
      let (d, i) = ended n divides m x small 513 m x 0 1 g c is (start m x l) in
      (
        _,
        ap (λ o. elim o [ none ↦ none | some (r, t) ↦ some (if r == 1 then chosen m t else 0) ]) is,
        answered m x g c d small more i,
      )
