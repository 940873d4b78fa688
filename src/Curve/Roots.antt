-- ===== src/Curve/Roots.antt =====
-- Powers and square roots of src/crypto/Secp256k1.h, and a point and its mirror image.
use komozoievm.External.{Numbers}
use komozoievm.Modular.{wrapped_sub}
use komozoievm.Curve.Field.{field_p, mod_reduce, field_mul}
use komozoievm.Curve.Euler.{differ, tried_root}
use komozoievm.Curve.Products.{field_mul_lem}
use komozoievm.Curve.Points.{
  ◌>>=◌, field_exp, field_sqrt, Point, infinite, double, chord, group_add, group_neg,
}
use komozoievm.Common.Powers.{mod-mul, mul-mod, mod-pow, pow-double}
use native.Mathlib.Nat.{pow-suc, pow-zero, mul_comm, mul-one, mul_assoc, mod-eq_of_lt, two-pow-succ}
use komozoievm.Common.{
  ℕ, zero, suc, ◌+◌, ◌-◌, ◌*◌, ◌/◌, ◌≢◌, ◌%◌, ◌^◌, ◌<◌, ◌≡◌, refl, sym, ap, ◌∙◌, Option, some, Bool,
  true, false, ◌==◌, if◌then◌else◌, arith, Bool-cases, inl, inr, ◌⊎◌,
}

even_power : (b e : ℕ) → e % 2 ≡ 0 → (b * b) ^ (e / 2) ≡ b ^ e
even_power b e h = pow-double b (e / 2) ∙ ap (λ t. b ^ t) (omega (arith, h))

odd_power : (b e : ℕ) → e % 2 ≡ 1 → b * (b * b) ^ (e / 2) ≡ b ^ e
odd_power b e h =
    ap (λ t. b * t) (pow-double b (e / 2))
    ∙ mul_comm b (b ^ (e / 2 + e / 2))
    ∙ sym (pow-suc b (e / 2 + e / 2))
    ∙ ap (λ t. b ^ t) (omega (arith, h))

-- A factor with the square of the base raised to half the exponent.
squared : (a b k : ℕ) → a * (b * b % field_p) ^ k % field_p ≡ a * (b * b) ^ k % field_p
squared a b k =
    sym (mul-mod a ((b * b % field_p) ^ k) field_p)
    ∙ ap (λ t. a * t % field_p) (mod-pow (b * b) k field_p)
    ∙ mul-mod a ((b * b) ^ k) field_p

no_power : (e b a : ℕ) → e ≡ 0 → a < field_p → a ≡ a * b ^ e % field_p
no_power e b a z h = rw (z, pow-zero b, mul-one a) (sym (mod-eq_of_lt h))

-- `exp` of a base below 2^256 and a factor below P gives the factor times the power modulo P,
-- where the exponent has no more bits than there are rounds.
field_exp-pow :
    (bits e b a : ℕ)
    → e < 2 ^ bits
    → b < 2 ^ 256
    → a < field_p
    → field_exp bits e b a ≡ some (a * b ^ e % field_p)
unfolding field_exp
field_exp-pow zero e b a h k l = ap some (no_power e b a (omega arith) l)
field_exp-pow (suc bits) e b a h k l =
    let half : e / 2 < 2 ^ bits = omega (arith, two-pow-succ bits) in
    elim (Bool-cases (e % 2 == 0)) [
      | inl even ↦
          rw (even, field_mul_lem b b k k)
            (field_exp-pow bits (e / 2) (b * b % field_p) a half (omega arith) l
              ∙ ap some
                  (squared a b (e / 2) ∙ ap (λ t. a * t % field_p) (even_power b e (ground arith))))
      | inr odd ↦
          rw (odd, field_mul_lem a b (omega arith) k, field_mul_lem b b k k)
            (field_exp-pow bits (e / 2) (b * b % field_p) (a * b % field_p) half (omega arith)
                (omega arith)
              ∙ ap some (
                  squared (a * b % field_p) b (e / 2)
                  ∙ mod-mul (a * b) ((b * b) ^ (e / 2)) field_p
                  ∙ ap (λ t. t % field_p) (mul_assoc a b ((b * b) ^ (e / 2)))
                  ∙ ap (λ t. a * t % field_p) (odd_power b e (ground arith))))
    ]

-- What `modsqrt` answers for a number: a square root of it, or 0 where the number is none of the
-- squares by Euler's test, the power of half of P - 1.
pub record IsRoot (a root : ℕ) : Type 0 where
  pub answers : field_sqrt a ≡ some root
  pub below : root < field_p
  pub squares : (root * root % field_p ≡ a) ⊎ ((root ≡ 0) × (a ^ ((field_p - 1) / 2) % field_p ≢ 1))

chosen_root :
    {Passes : Type 0} (a w : ℕ)
    → w < field_p
    → (Passes → w * w % field_p ≡ a)
    → (root : ℕ) × ((if w * w % field_p == a then w else 0) ≡ root)
      × (root < field_p)
      × ((root * root % field_p ≡ a) ⊎ ((root ≡ 0) × ¬ Passes))
chosen_root a w h back = elim (Bool-cases (w * w % field_p == a)) [
  | inl equal ↦ (w, rw equal refl, h, inl (ground arith))
  | inr other ↦ (
    0,
    rw other refl,
    omega arith,
    inr (refl, λ passes. differ (w * w % field_p) a other (back passes)),
  )
]

reduced : (w : ℕ) → w < field_p → mod_reduce w ≡ w
unfolding mod_reduce
reduced w h = ground arith

-- `modsqrt` behind the power.
sqrt_of : ℕ → Option ℕ → Option ℕ
sqrt_of a o = o >>= λ power. field_mul (mod_reduce power) (mod_reduce power) >>= λ square.
    some (if square == a then mod_reduce power else 0)

sqrt_of_lem :
    (a w : ℕ) → w < field_p → sqrt_of a (some w) ≡ some (if w * w % field_p == a then w else 0)
unfolding sqrt_of
sqrt_of_lem a w h = rw (reduced w h, field_mul_lem w w (omega arith) (omega arith)) refl

sqrt_steps :
    (a w : ℕ)
    → (a == 0) ≡ false
    → field_exp 256 (mod_reduce ((field_p + 1) / 4)) a 1 ≡ some w
    → w < field_p
    → field_sqrt a ≡ some (if w * w % field_p == a then w else 0)
unfolding field_sqrt sqrt_of
sqrt_steps a w nz is h =
    ap (λ b. if b then some 0 else sqrt_of a (field_exp 256 (mod_reduce ((field_p + 1) / 4)) a 1))
      nz
    ∙ ap (sqrt_of a) is
    ∙ sqrt_of_lem a w h

-- `modsqrt` of a number a below P answers with a number below P. It is a square root of a, or else
-- it is 0 and a is not a square by Euler's test: a to the power of (P - 1) / 2 is not 1 modulo P.
pub field_sqrt-IsRoot : (a : ℕ) → a < field_p → (root : ℕ) × IsRoot a root
unfolding field_sqrt
field_sqrt-IsRoot a h = elim (Bool-cases (a == 0)) [
  | inl z ↦ (0, record { answers = rw z refl; below = omega arith; squares = inl (ground arith) })
  | inr nz ↦
      let w = 1 * a ^ mod_reduce ((field_p + 1) / 4) % field_p in
      let small : w < field_p = omega arith in
      let (root, is, low, squares) = chosen_root a w small (tried_root a h) in
      (
        root,
        record {
          answers =
              sqrt_steps a w nz
                (field_exp-pow 256 (mod_reduce ((field_p + 1) / 4)) a 1 (omega arith) (omega arith)
                  (omega arith))
                small
              ∙ ap some is;
          below = low;
          squares = squares;
        },
      )
]

-- The tests of `operator+` of two points.
sum_of : (i j x y z : Bool) (p q : Point) (twice slope : Option Point) → Option Point
sum_of i j x y z p q twice slope =
    if i
    then some q
    else if j
    then some p
    else if x
    then if y then if z then some infinite else twice else some infinite
    else slope

no_sum :
    (i j x y z : Bool) (p q : Point) (twice slope : Option Point)
    → i ≡ false
    → j ≡ false
    → x ≡ true
    → (y ≡ true → z ≡ true)
    → sum_of i j x y z p q twice slope ≡ some infinite
unfolding sum_of
no_sum i j x false z p q twice slope hi hj hx h = rw (hi, hj, hx) refl
no_sum i j x true z p q twice slope hi hj hx h = rw (hi, hj, hx, h refl) refl

-- The negation of a point that is not infinite.
mirror : Point → Point
mirror p = record { x = p.x; y = mod_reduce (wrapped_sub field_p p.y); infinity = false }

neg-mirror : (p : Point) → p.infinity ≡ false → group_neg p ≡ mirror p
unfolding group_neg mirror
neg-mirror p h = ap (λ b. if b then p else mirror p) h

only_zero :
    (y : ℕ) → y < field_p → (y == mod_reduce (wrapped_sub field_p y)) ≡ true → (y == 0) ≡ true
unfolding mod_reduce
only_zero y h e = ground arith

add-mirror :
    (n : Numbers) (p : Point)
    → p.infinity ≡ false
    → p.y < field_p
    → group_add n p (mirror p) ≡ some infinite
unfolding group_add sum_of mirror
add-mirror n p f h =
    no_sum p.infinity false (p.x == p.x) (p.y == mod_reduce (wrapped_sub field_p p.y)) (p.y == 0) p
      (mirror p) (double n p) (chord n p (mirror p)) f refl (ground arith) (only_zero p.y h)

-- A point that is not infinite, with a y below P, and its negation add up to the infinite point.
group_add-neg :
    (n : Numbers) (p : Point)
    → p.infinity ≡ false
    → p.y < field_p
    → group_add n p (group_neg p) ≡ some infinite
group_add-neg n p f h = ap (group_add n p) (neg-mirror p f) ∙ add-mirror n p f h
