-- ===== src/Curve/Signing.antt =====
-- What `Secp256k1PrivateKey::sign` of src/crypto/Secp256k1.cpp answers.
pub mod Low
use komozoievm.External.{Numbers}
use komozoievm.Modular.{wrapped_sub, value, chunks, mod_of, mod_add, mod_mul, mod_div, inverse}
use komozoievm.Curve.Totals.{generator-Fits, group_mul-Returns, recover-Returns}
use komozoievm.Curve.Points.{◌>>=◌, Point, group_mul, generator}
use komozoievm.Curve.Keys.{curve_n, Signature, recover, is_own, with_id, nonce_loop, sign}
use mathlib.Core.Bool.{true≢false}
use mathlib.Core.Option
use mathlib.Core.Option.{some-injective, none-ne-some}
use komozoievm.Common.{
  ℕ, zero, suc, ◌+◌, ◌*◌, ◌/◌, ◌%◌, ◌^◌, ◌<◌, ◌≡◌, refl, sym, ap, ◌∙◌, Option, none, some, Bool,
  true, false, leb, ◌==◌, if◌then◌else◌, arith, inl, inr, ◌⊎◌,
}

abbrev pub nothing : Signature
nothing = record { r = 0; s = 0; v = 0 }

-- A signature from which the recovery gives the x of the signer's own key.
pub record IsOwn (n : Numbers) (scalar hash : ℕ) (g : Signature) : Type 0 where
  pub own : Point
  pub found : Point
  pub is_key : group_mul n generator scalar ≡ some own
  pub is_found : recover n g hash ≡ some found
  pub finite : found.infinity ≡ false
  pub same : found.x ≡ own.x

own_lem :
    (found own : Point) → is_own found own ≡ true → (found.infinity ≡ false) × (found.x ≡ own.x)
unfolding is_own
own_lem found own h = by_cases found.infinity found.x own.x h
  where
    by_cases : (i : Bool) (a b : ℕ) → (if i then false else a == b) ≡ true → (i ≡ false) × (a ≡ b)
    by_cases true a b h = absurd (ground arith)
    by_cases false a b h = (refl, ground arith)

-- The tests of the last loop of `sign`.
first_of : Option Point → Option Point → Option Point → Signature → Signature → Option Signature
first_of o f s even odd = o >>= λ own. f >>= λ first.
    if is_own first own
    then some even
    else (s >>= λ second. some (if is_own second own then odd else nothing))

first_of_lem :
    (o f s : Option Point) (even odd g : Signature)
    → first_of o f s even odd ≡ some g
    → (g ≡ nothing)
      ⊎ ((own : Point) × (found : Point) × (o ≡ some own)
          × (is_own found own ≡ true)
          × (((f ≡ some found) × (g ≡ even)) ⊎ ((s ≡ some found) × (g ≡ odd))))
unfolding first_of
first_of_lem none f s even odd g h = absurd (none-ne-some _ h)
first_of_lem (some own) none s even odd g h = absurd (none-ne-some _ h)
first_of_lem (some own) (some first) s even odd g h = by_first (is_own first own) refl s h
  where
    by_second :
        (b : Bool) (second : Point)
        → is_own second own ≡ b
        → some (if b then odd else nothing) ≡ some g
        → (g ≡ nothing) ⊎ ((is_own second own ≡ true) × (g ≡ odd))
    by_second true second e h = inr (e, sym (some-injective _ _ h))
    by_second false second e h = inl (sym (some-injective _ _ h))

    by_first :
        (b : Bool)
        → is_own first own ≡ b
        → (s : Option Point)
        → (if b
            then some even
            else (s >>= λ second. some (if is_own second own then odd else nothing)))
          ≡ some g
        → (g ≡ nothing)
          ⊎ ((own' : Point) × (found : Point) × (some own ≡ some own')
              × (is_own found own' ≡ true)
              × (((some first ≡ some found) × (g ≡ even)) ⊎ ((s ≡ some found) × (g ≡ odd))))
    by_first true e s h = inr (own, first, refl, e, inl (refl, sym (some-injective _ _ h)))
    by_first false e none h = absurd (none-ne-some _ h)
    by_first false e (some second) h = elim (by_second (is_own second own) second refl h) [
      | inl z ↦ inl z
      | inr (k, l) ↦ inr (own, second, refl, k, inr (refl, l))
    ]

from_parts :
    (n : Numbers) (scalar hash : ℕ) (g g' : Signature) (own found : Point)
    → g ≡ g'
    → group_mul n generator scalar ≡ some own
    → recover n g' hash ≡ some found
    → is_own found own ≡ true
    → IsOwn n scalar hash g × (g.s ≡ g'.s)
from_parts n scalar hash g g' own found e is_key is_found is =
    let (finite, same) = own_lem found own is in
    (
      record {
        own = own;
        found = found;
        is_key = is_key;
        is_found = ap (λ t. recover n t hash) e ∙ is_found;
        finite = finite;
        same = same;
      },
      ap (λ t. t.s) e,
    )

-- The last loop of `sign` answers with the zero signature, or with a signature of the given numbers
-- whose recovery gives the x of the signer's key.
pub with_id-IsOwn :
    (n : Numbers) (scalar hash r s : ℕ) (g : Signature)
    → with_id n scalar hash r s ≡ some g
    → (g ≡ nothing) ⊎ (IsOwn n scalar hash g × (g.s ≡ s))
unfolding with_id first_of
with_id-IsOwn n scalar hash r s g h =
    elim (first_of_lem (group_mul n generator scalar)
      (recover n (record { r = r; s = s; v = 0 }) hash)
      (recover n (record { r = r; s = s; v = 1 }) hash) (record { r = r; s = s; v = 0 })
      (record { r = r; s = s; v = 1 }) g h) [
        | inl z ↦ inl z
        | inr (own, found, is_key, is, inl (is_found, e)) ↦
            inr (from_parts n scalar hash g _ own found e is_key is_found is)
        | inr (own, found, is_key, is, inr (is_found, e)) ↦
            inr (from_parts n scalar hash g _ own found e is_key is_found is)
      ]

own_true : (found own : Point) → found.infinity ≡ false → found.x ≡ own.x → is_own found own ≡ true
unfolding is_own
own_true found own finite same = rw finite (ground (arith, same))

-- Where the point of the recovery fails the test, the signature is not the signer's.
not-IsOwn :
    (n : Numbers) (scalar hash : ℕ) (g : Signature) (own found : Point)
    → group_mul n generator scalar ≡ some own
    → recover n g hash ≡ some found
    → is_own found own ≡ false
    → ¬ IsOwn n scalar hash g
not-IsOwn n scalar hash g own found is_key is_found fails o =
    true≢false (sym (own_true found own finite same) ∙ fails)
  where
    point : o.found ≡ found
    point = some-injective _ _ (sym o.is_found ∙ is_found)

    finite : found.infinity ≡ false
    finite = ap (λ (p : Point). p.infinity) (sym point) ∙ o.finite

    same : found.x ≡ own.x
    same =
        ap (λ (p : Point). p.x) (sym point)
        ∙ o.same
        ∙ ap (λ (p : Point). p.x) (some-injective _ _ (sym o.is_key ∙ is_key))

-- What the last loop of `sign` answers of two signatures: the first that is the signer's, or the
-- zero signature where neither is.
abbrev pub Picked : Numbers → ℕ → ℕ → (even odd g : Signature) → Type 0
Picked n scalar hash even odd g =
    (IsOwn n scalar hash even × (g ≡ even))
    ⊎ ((¬ IsOwn n scalar hash even × IsOwn n scalar hash odd × (g ≡ odd))
        ⊎ (¬ IsOwn n scalar hash even × ¬ IsOwn n scalar hash odd × (g ≡ nothing)))

first_of_picks :
    (o f s : Option Point) (even odd : Signature) (own first second : Point)
    → o ≡ some own
    → f ≡ some first
    → s ≡ some second
    → (i j : Bool) → is_own first own ≡ i
    → is_own second own ≡ j
    → first_of o f s even odd ≡ some (if i then even else if j then odd else nothing)
unfolding first_of
first_of_picks o f s even odd own first second e h k true j is_first is_second =
    rw (e, h, k, is_first) refl
first_of_picks o f s even odd own first second e h k false j is_first is_second =
    rw (e, h, k, is_first, is_second) refl

picked :
    (n : Numbers) (scalar hash : ℕ) (even odd : Signature) (own first second : Point)
    → group_mul n generator scalar ≡ some own
    → recover n even hash ≡ some first
    → recover n odd hash ≡ some second
    → (i j : Bool) → is_own first own ≡ i
    → is_own second own ≡ j
    → Picked n scalar hash even odd (if i then even else if j then odd else nothing)
picked n scalar hash even odd own first second e h k true j is_first is_second =
    inl ((from_parts n scalar hash even even own first refl e h is_first).0, refl)
picked n scalar hash even odd own first second e h k false true is_first is_second = inr (
    inl (
      not-IsOwn n scalar hash even own first e h is_first,
      (from_parts n scalar hash odd odd own second refl e k is_second).0,
      refl,
    ))
picked n scalar hash even odd own first second e h k false false is_first is_second = inr (
    inr (
      not-IsOwn n scalar hash even own first e h is_first,
      not-IsOwn n scalar hash odd own second e k is_second,
      refl,
    ))

-- Where `/` of the number library divides and its `%` gives a number below the divisor, the last
-- loop of `sign` always answers for an r below 2^256. Of the two signatures of r and s, with the
-- recovery id 0 and 1, it answers with the first from which the recovery gives a point with the x of
-- the signer's key; and with the zero signature only where neither does.
pub with_id-Answers :
    (n : Numbers)
    → ((a b : ℕ) → 0 < b → n.div a b ≡ a / b)
    → ((a b : ℕ) → 0 < b → n.mod_word a b < b)
    → (scalar hash r s : ℕ) → r < 2 ^ 256
    → (g : Signature) × (with_id n scalar hash r s ≡ some g)
      × Picked n scalar hash (record { r = r; s = s; v = 0 }) (record { r = r; s = s; v = 1 }) g
unfolding with_id first_of
with_id-Answers n divides below scalar hash r s h =
    let own = group_mul-Returns n divides below generator scalar generator-Fits in
    let first = recover-Returns n divides below (record { r = r; s = s; v = 0 }) hash h in
    let second = recover-Returns n divides below (record { r = r; s = s; v = 1 }) hash h in
    let i = is_own first.result own.result in
    let j = is_own second.result own.result in
    (
      if i
          then record { r = r; s = s; v = 0 }
          else if j
          then record { r = r; s = s; v = 1 }
          else nothing,
      first_of_picks (group_mul n generator scalar)
          (recover n (record { r = r; s = s; v = 0 }) hash)
          (recover n (record { r = r; s = s; v = 1 }) hash) (record { r = r; s = s; v = 0 })
          (record { r = r; s = s; v = 1 }) own.result first.result second.result own.is first.is
          second.is i j refl refl,
      picked n scalar hash (record { r = r; s = s; v = 0 }) (record { r = r; s = s; v = 1 })
          own.result first.result second.result own.is first.is second.is i j refl refl,
    )
