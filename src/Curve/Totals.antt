-- ===== src/Curve/Totals.antt =====
-- Termination of the operations on points of src/crypto/Secp256k1.cpp, and of the recovery of a key.
use mathlib.Core.Option
use komozoievm.External.{Numbers}
use komozoievm.Modular.{wrapped_sub, mod_of, inverse}
use komozoievm.Modular.Inverse.{mod_inv-total}
use komozoievm.Curve.Field.{field_p, mod_reduce}
use komozoievm.Curve.Returns.{
  Returns, bind-Returns, choose-Returns, some-Returns, Word, mul-Returns, scale-Returns,
  reduce_word, sub_word, exp-Returns, root_word, add_word, flipped,
}
use komozoievm.Curve.Points.{
  field_inverse, field_div, field_sqrt, Point, infinite, third, double, chord, group_add, mul_loop,
  group_mul, generator, group_neg, group_sub,
}
use komozoievm.Curve.Keys.{curve_n, Signature, recover_point, recover}
use komozoievm.Common.{
  ℕ, zero, suc, ◌+◌, ◌/◌, ◌%◌, ◌^◌, ◌<◌, ◌≡◌, ap, some, Bool, true, false, ◌==◌, if◌then◌else◌,
  arith,
}

-- A point of 256-bit numbers.
pub Fits : Point → Type 0
Fits p = Word p.x × Word p.y

infinite-Fits : Fits infinite
unfolding Fits
infinite-Fits = (omega arith, omega arith)

pub generator-Fits : Fits generator
unfolding Fits
generator-Fits = (omega arith, omega arith)

third-Returns : (s x y x' : ℕ) → Word s → Word x → Returns Fits (third s x y x')
unfolding third Fits
third-Returns s x y x' h k = bind-Returns _ (mul-Returns s s h h) λ square p.
    bind-Returns _ (mul-Returns s _ h (sub_word x _))
      λ down q. some-Returns Fits _ (sub_word _ x', sub_word down y)

if_some : (p q : Point) (b : Bool) → Fits p → Fits q → Returns Fits (some (if b then p else q))
if_some p q true h k = some-Returns Fits p h
if_some p q false h k = some-Returns Fits q k

either-Fits : (p q : Point) (b : Bool) → Fits p → Fits q → Fits (if b then p else q)
either-Fits p q true h k = h
either-Fits p q false h k = k

neg-Fits : (p : Point) → Fits p → Fits (group_neg p)
unfolding group_neg Fits
neg-Fits p (h, k) =
    let lower : wrapped_sub field_p p.y < 2 ^ 256 = omega arith in
    either-Fits p (record { x = p.x; y = mod_reduce (wrapped_sub field_p p.y); infinity = false })
      p.infinity (h, k) (h, reduce_word (wrapped_sub field_p p.y) lower)

module _ (n : Numbers) (divides : (a b : ℕ) → 0 < b → n.div a b ≡ a / b)
    (below : (a b : ℕ) → 0 < b → n.mod_word a b < b) where
  inverse-Returns : (x : ℕ) → Word x → Returns Word (field_inverse n x)
  unfolding field_inverse
  inverse-Returns x h =
      let (out, is, k) = mod_inv-total n divides field_p x (omega arith) h in
      record {
        result = mod_reduce out;
        is = ap (Option.map mod_reduce) is;
        holds = reduce_word out k;
      }

  div-Returns : (a b : ℕ) → Word a → Word b → Returns Word (field_div n a b)
  unfolding field_div
  div-Returns a b h k =
      bind-Returns _ (inverse-Returns (mod_reduce b) (reduce_word b k)) λ i l. mul-Returns a i h l

  double-Returns : (p : Point) → Fits p → Returns Fits (double n p)
  unfolding double Fits
  double-Returns p (h, k) = bind-Returns _ (mul-Returns p.x p.x h h) λ square l.
      bind-Returns _ (scale-Returns square 3 l (omega arith)) λ triple l.
        bind-Returns _ (scale-Returns p.y 2 k (omega arith)) λ twice m.
          bind-Returns _ (div-Returns triple twice l m) λ s i. third-Returns s p.x p.y p.x i h

  chord-Returns : (p q : Point) → Fits p → Fits q → Returns Fits (chord n p q)
  unfolding chord Fits
  chord-Returns p q (h, k) (l, m) =
      bind-Returns _ (div-Returns _ _ (sub_word q.y p.y) (sub_word q.x p.x))
        λ s i. third-Returns s p.x p.y q.x i h

  add-Returns : (p q : Point) → Fits p → Fits q → Returns Fits (group_add n p q)
  unfolding group_add
  add-Returns p q h k = choose-Returns p.infinity (some-Returns Fits q k) (
      choose-Returns q.infinity (some-Returns Fits p h) (
        choose-Returns (p.x == q.x)
          (choose-Returns (p.y == q.y)
            (choose-Returns (p.y == 0) (some-Returns Fits infinite infinite-Fits)
              (double-Returns p h))
            (some-Returns Fits infinite infinite-Fits))
          (chord-Returns p q h k)))

  loop-Returns :
      (i scalar : ℕ) (p q : Point) → Fits p → Fits q → Returns Fits (mul_loop n i scalar p q)
  unfolding mul_loop
  loop-Returns zero scalar p q h k = some-Returns Fits q k
  loop-Returns (suc i) scalar p q h k = bind-Returns _ (add-Returns q q k k) λ doubled l.
      bind-Returns _
        (choose-Returns (scalar / 2 ^ i % 2 == 0) (some-Returns Fits doubled l)
          (add-Returns doubled p l h))
        λ next m. loop-Returns i scalar p next h m

  -- `operator*` of a point of 256-bit numbers returns such a point, for every scalar.
  pub group_mul-Returns : (p : Point) (scalar : ℕ) → Fits p → Returns Fits (group_mul n p scalar)
  unfolding group_mul
  group_mul-Returns p scalar h = loop-Returns 256 scalar p infinite h infinite-Fits

  key-Returns :
      (rx ry : ℕ) (g : Signature) (inv hash : ℕ)
      → Word rx
      → Word ry
      → Returns Fits (recover_point n rx ry g inv hash)
  unfolding recover_point group_sub Fits
  key-Returns rx ry g inv hash h k = bind-Returns _ (group_mul-Returns _ g.s (h, k)) λ sr l.
      bind-Returns _
        (group_mul-Returns generator (wrapped_sub curve_n (n.mod_word hash curve_n))
          (omega arith, omega arith))
        λ zg m. bind-Returns _ (add-Returns sr (group_neg zg) l (neg-Fits zg m)) λ diff i.
          bind-Returns _ (group_mul-Returns diff inv i) λ found j.
            if_some infinite (group_neg found) found.infinity infinite-Fits (neg-Fits found j)

  root-Returns : (a : ℕ) → Word a → Returns Word (field_sqrt a)
  unfolding field_sqrt
  root-Returns a h = choose-Returns (a == 0) (some-Returns Word 0 (omega arith)) (
      bind-Returns _ (exp-Returns 256 (mod_reduce ((field_p + 1) / 4)) a 1 h (omega arith))
        λ power k.
          bind-Returns _ (mul-Returns _ _ (reduce_word power k) (reduce_word power k))
            λ square l. root_word square power a k)

  scalar-Returns : (v : ℕ) → Returns Word (inverse n curve_n (mod_of n curve_n v))
  unfolding inverse mod_of
  scalar-Returns v =
      let fits = below v curve_n (omega arith) in
      let (out, is, k) =
        mod_inv-total n divides curve_n (n.mod_word v curve_n) (omega arith)
          (omega (arith, fits)) in
      record {
        result = n.mod_word out curve_n;
        is = ap (Option.map (λ a. n.mod_word a curve_n)) is;
        holds = omega (arith, below out curve_n (omega arith));
      }

  -- Where `/` of the number library divides and its `%` gives a number below the divisor,
  -- `recover` returns, with numbers of 256 bits, for every hash and every signature with an r
  -- below 2^256.
  pub recover-Returns : (g : Signature) (hash : ℕ) → Word g.r → Returns Fits (recover n g hash)
  unfolding recover inverse mod_of
  recover-Returns g hash h =
      let rx = mod_reduce g.r in
      let fits = reduce_word g.r h in
      bind-Returns _ (mul-Returns rx rx fits fits) λ square k.
        bind-Returns _ (mul-Returns square rx k fits) λ cube l.
          bind-Returns _ (root-Returns _ (add_word cube 7)) λ root m.
            bind-Returns _ (scalar-Returns g.r) λ inv i.
              choose-Returns _ (some-Returns Fits infinite infinite-Fits)
                (key-Returns rx _ g inv hash fits (flipped _ root m))
