-- ===== src/Curve/Points.antt =====
-- Inverses, powers and square roots in the field, and the points of the curve: `Secp256k1Field` and
-- `Secp256k1Group` of src/crypto/Secp256k1.h and src/crypto/Secp256k1.cpp. `none` stands for a loop
-- whose fuel ran out.
use mathlib.Core.Option
use komozoievm.External.{Numbers}
use komozoievm.Modular.{wrapped_sub, mod_inv}
use komozoievm.Curve.Field.{field_p, mod_reduce, field_mul, field_scale, field_sub}
use komozoievm.Common.{
  ℕ, zero, suc, ◌+◌, ◌/◌, ◌%◌, ◌^◌, Option, none, some, Bool, true, false, ◌==◌, if◌then◌else◌,
}

infixl 5 ◌>>=◌
abbrev pub ◌>>=◌ : {A B : Type 0} → Option A → (A → Option B) → Option B
◌>>=◌ o f = elim o [ none ↦ none | some a ↦ f a ]

-- `inverse`, which converts the result of `modinv` to a field element.
unfoldable pub field_inverse : Numbers → ℕ → Option ℕ
unfolding mod_inv mod_reduce
field_inverse n x = Option.map mod_reduce (mod_inv n field_p x)

-- `operator/`.
unfoldable pub field_div : Numbers → ℕ → ℕ → Option ℕ
unfolding field_inverse field_mul mod_reduce
field_div n a b = do i ← field_inverse n (mod_reduce b); field_mul a i

-- `exp`: `bits` rounds over the bits of the exponent, from the lowest.
unfoldable pub field_exp : ℕ → ℕ → ℕ → ℕ → Option ℕ
unfolding field_mul
field_exp zero e base result = some result
field_exp (suc bits) e base result = do
  next ← if e % 2 == 0 then some result else field_mul result base
  square ← field_mul base base
  field_exp bits (e / 2) square next

-- `modsqrt`.
unfoldable pub field_sqrt : ℕ → Option ℕ
unfolding field_exp field_mul mod_reduce
field_sqrt x = if x == 0 then some 0 else do
  power ← field_exp 256 (mod_reduce ((field_p + 1) / 4)) x 1
  let root = mod_reduce power
  square ← field_mul root root
  some (if square == x then root else 0)

-- `Secp256k1Group`.
pub record Point : Type 0 where
  pub x : ℕ
  pub y : ℕ
  pub infinity : Bool

abbrev pub infinite : Point
infinite = record { x = 0; y = 0; infinity = true }

-- The third point on a line of slope `s` through points at `x` and `x'`, mirrored.
unfoldable pub third : ℕ → ℕ → ℕ → ℕ → Option Point
unfolding field_mul field_sub
third s x y x' = do
  square ← field_mul s s
  let nx = field_sub (field_sub square x) x'
  down ← field_mul s (field_sub x nx)
  some (record { x = nx; y = field_sub down y; infinity = false })

-- `operator+` of a point that is not infinite with itself.
unfoldable pub double : Numbers → Point → Option Point
unfolding field_mul field_scale field_div third
double n p = do
  square ← field_mul p.x p.x
  triple ← field_scale square 3
  twice ← field_scale p.y 2
  s ← field_div n triple twice
  third s p.x p.y p.x

-- `operator+` of two points with different x.
unfoldable pub chord : Numbers → Point → Point → Option Point
unfolding field_sub field_div third
chord n p q = do s ← field_div n (field_sub q.y p.y) (field_sub q.x p.x); third s p.x p.y q.x

-- `operator+`.
unfoldable pub group_add : Numbers → Point → Point → Option Point
unfolding double chord
group_add n p q =
    if p.infinity
    then some q
    else if q.infinity
    then some p
    else if p.x == q.x
    then if p.y == q.y then if p.y == 0 then some infinite else double n p else some infinite
    else chord n p q

-- The loop of `operator*` over the lowest `bits` bits of the scalar, from the highest.
unfoldable pub mul_loop : Numbers → ℕ → ℕ → Point → Point → Option Point
unfolding group_add
mul_loop n zero scalar addend result = some result
mul_loop n (suc i) scalar addend result = do
  doubled ← group_add n result result
  next ← if scalar / 2 ^ i % 2 == 0 then some doubled else group_add n doubled addend
  mul_loop n i scalar addend next

-- `operator*`.
unfoldable pub group_mul : Numbers → Point → ℕ → Option Point
unfolding mul_loop
group_mul n p scalar = mul_loop n 256 scalar p infinite

-- `generator`.
abbrev pub generator : Point
generator = record {
  x = 55066263022277343669578718895168534326250603453777594175500187360389116729240;
  y = 32670510020758816978083085130507043184471273380659243275938904335757337482424;
  infinity = false;
}

-- `operator-` of one point.
unfoldable pub group_neg : Point → Point
unfolding mod_reduce
group_neg p =
    if p.infinity
    then p
    else record { x = p.x; y = mod_reduce (wrapped_sub field_p p.y); infinity = false }

-- `operator-` of two points.
unfoldable pub group_sub : Numbers → Point → Point → Option Point
unfolding group_add group_neg
group_sub n p q = group_add n p (group_neg q)
