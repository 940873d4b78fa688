-- ===== src/Curve/Quotients.antt =====
-- Division in the field of src/crypto/Secp256k1.h.
use komozoievm.External.{Numbers}
use komozoievm.Modular.{mod_inv}
use komozoievm.Modular.Inverse.{mod_inv-total}
use komozoievm.Modular.Inverse.Inverting.{mod_inv-IsInverse}
use komozoievm.Curve.Field.{field_p, mod_reduce}
use komozoievm.Curve.Folding.{mod_reduce_lem}
use komozoievm.Curve.Products.{field_mul_lem}
use komozoievm.Curve.Points.{field_inverse, field_div}
use komozoievm.Common.Powers.{mod-mul, mul-mod}
use mathlib.Core.Option
use native.Mathlib.Nat.{mod-lt, mul_assoc}
use komozoievm.Common.{
  ℕ, ◌*◌, ◌/◌, ◌%◌, ◌^◌, ◌<◌, ◌≡◌, sym, ap, ◌∙◌, Option, none, some, arith, inl, inr,
}

-- A product with an inverse of `b` undoes a product with `b`.
undone : (a b out p : ℕ) → out * b % p ≡ 1 → a * (out % p) % p * b % p ≡ a % p
undone a b out p one =
    mod-mul (a * (out % p)) b p
    ∙ ap (λ z. z % p) (mul_assoc a (out % p) b)
    ∙ sym (mul-mod a (out % p * b) p)
    ∙ ap (λ z. a * z % p) (mod-mul out b p ∙ one)
    ∙ ap (λ z. z % p) (omega arith)

value_or : ℕ → Option ℕ → ℕ
value_or d none = d
value_or d (some v) = v

-- The number that a field element is a quotient of.
abbrev pub Divides : (a b q : ℕ) → Type 0
Divides a b q = (q < field_p) × (q * b % field_p ≡ a % field_p)

module _ (n : Numbers) (divides : (a b : ℕ) → 0 < b → n.div a b ≡ a / b) where
  inverted :
      (x y : ℕ)
      → y * x % field_p ≡ 1
      → (out : ℕ) × (mod_inv n field_p (x % field_p) ≡ some out)
        × (out < 2 ^ 256)
        × (out * x % field_p ≡ 1)
  unfolding value_or
  inverted x y one =
      let small : x % field_p < field_p = mod-lt x (omega arith) in
      let (out, is, inverse) =
        mod_inv-IsInverse n divides field_p (x % field_p) (omega arith) (omega arith) small in
      let (out', is', word) =
        mod_inv-total n divides field_p (x % field_p) (omega arith) (omega (arith, small)) in
      let same : out' ≡ out = ap (value_or 0) (sym is' ∙ is) in
      (
        out,
        is,
        omega (arith, word, same),
        elim inverse [
          | inl found ↦ sym (mul-mod out x field_p) ∙ found
          | inr (zero, none_there) ↦ absurd (none_there y (mul-mod y x field_p ∙ one))
        ],
      )

  inverse_word :
      (x y : ℕ)
      → x < 2 ^ 256
      → y * x % field_p ≡ 1
      → (out : ℕ) × (field_inverse n (mod_reduce x) ≡ some (out % field_p))
        × (out * x % field_p ≡ 1)
  unfolding field_inverse
  inverse_word x y h one =
      let (out, is, word, inverse) = inverted x y one in
      (
        out,
        ap (λ z. field_inverse n z) (mod_reduce_lem x h)
            ∙ ap (Option.map mod_reduce) is
            ∙ ap some (mod_reduce_lem out word),
        inverse,
      )

  -- Where `/` of the number library divides: `operator/` of two numbers below 2^256, the second with
  -- an inverse modulo P, gives a number below P whose product with the second is the first modulo P.
  pub field_div-Divides :
      (a b y : ℕ)
      → a < 2 ^ 256
      → b < 2 ^ 256
      → y * b % field_p ≡ 1
      → (q : ℕ) × (field_div n a b ≡ some q) × Divides a b q
  unfolding field_div
  field_div-Divides a b y h k one =
      let (out, is, inverse) = inverse_word b y k one in
      (
        a * (out % field_p) % field_p,
        rw is (field_mul_lem a (out % field_p) h (omega arith)),
        (mod-lt (a * (out % field_p)) (omega arith), undone a b out field_p inverse),
      )
