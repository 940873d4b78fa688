-- ===== src/Curve/Signing/Low.antt =====
-- The lower half of the order, where `Secp256k1PrivateKey::sign` of src/crypto/Secp256k1.cpp puts the
-- second number of a signature.
use komozoievm.External.{Numbers}
use komozoievm.Curve.Signing.{nothing, IsOwn, with_id-IsOwn}
use komozoievm.Modular.{wrapped_sub, value, chunks, mod_of, mod_add, mod_mul, mod_div, inverse}
use komozoievm.Curve.Points.{◌>>=◌}
use komozoievm.Curve.Keys.{curve_n, Signature, nonce_loop, sign}
use mathlib.Core.Option
use mathlib.Core.Option.{some-injective, none-ne-some}
use komozoievm.Common.{
  ℕ, zero, suc, ◌+◌, ◌*◌, ◌%◌, ◌^◌, ◌<◌, ◌≡◌, refl, Option, none, some, Bool, true, false, leb,
  ◌==◌, if◌then◌else◌, arith, inl, inr, ◌⊎◌,
}

chain_lem :
    {A B : Type 0} (o : Option A) (f : A → Option B) (b : B)
    → o >>= f ≡ some b
    → (a : A) × (o ≡ some a) × (f a ≡ some b)
chain_lem none f b h = absurd (none-ne-some _ h)
chain_lem (some a) f b h = (a, refl, h)

either_branch :
    {C : Type 0} (b : Bool) (o o' : Option Signature) (g : Signature)
    → (if b then o else o') ≡ some g
    → (o ≡ some g → C)
    → (o' ≡ some g → C)
    → C
either_branch true o o' g h f k = f h
either_branch false o o' g h f k = k h

module _ (n : Numbers) (divides : (a b : ℕ) → 0 < b → n.mod_word a b ≡ a % b) where
  map_below :
      (o : Option ℕ) (f : ℕ → ℕ) (s : ℕ)
      → ((a : ℕ) → f a < curve_n)
      → Option.map f o ≡ some s
      → s < curve_n
  map_below none f s k h = absurd (none-ne-some _ h)
  map_below (some a) f s k h = omega (arith, some-injective _ _ h, k a)

  product_below : (a b : ℕ) → mod_mul n curve_n a b < curve_n
  unfolding mod_mul mod_of
  product_below a b =
      omega (arith, divides (n.mod_wide (a * b % 2 ^ 512) curve_n) curve_n (omega arith))

  lowered :
      (s : ℕ)
      → s < curve_n
      → (if leb (2 ^ 255) s then mod_of n curve_n (wrapped_sub curve_n s) else s) < 2 ^ 255
  unfolding mod_of
  lowered s h = ground (arith, divides (wrapped_sub curve_n s) curve_n (omega arith))

  -- A signature that `sign` answers with is the zero signature, or one below 2^255 in s from which
  -- the recovery gives the x of the signer's key.
  pub sign-IsOwn :
      (random : ℕ → ℕ) (fuel scalar hash k : ℕ) (g : Signature)
      → sign n random fuel scalar hash k ≡ some g
      → (g ≡ nothing) ⊎ (IsOwn n scalar hash g × (g.s < 2 ^ 255))
  unfolding sign mod_div
  sign-IsOwn random zero scalar hash k g h = absurd (none-ne-some _ h)
  sign-IsOwn random (suc fuel) scalar hash k g h =
      let (found, is, h₁) =
        chain_lem (nonce_loop n (suc fuel) (if k == 0 then random fuel else mod_of n curve_n k)) _ g
          h in
      let sum = value (
        mod_add (chunks 4 curve_n) (chunks 4 (mod_mul n curve_n (found.1) scalar))
          (chunks 4 hash)) in
      let (s, has, h₂) = chain_lem (mod_div n curve_n sum (found.0)) _ g h₁ in
      let small =
        map_below (inverse n curve_n (mod_of n curve_n (found.0))) (mod_mul n curve_n sum) s
          (product_below sum) has in
      either_branch (s == 0) _ _ g h₂
        (λ e. sign-IsOwn random fuel scalar hash ((found.0 + 1) % 2 ^ 256) g e)
        (λ e.
          elim (with_id-IsOwn n scalar hash (found.1)
            (if leb (2 ^ 255) s then mod_of n curve_n (wrapped_sub curve_n s) else s) g e) [
              | inl z ↦ inl z
              | inr (o, same) ↦ inr (o, omega (arith, same, lowered s small))
            ])
