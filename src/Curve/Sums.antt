-- ===== src/Curve/Sums.antt =====
-- `operator+` and `operator-` of the field in src/crypto/Secp256k1.h against sums and differences
-- modulo P.
use komozoievm.Modular.{value, chunks}
use komozoievm.Modular.Sums.{IsReduced, mod_add-IsReduced, mod_sub-IsReduced}
use komozoievm.Curve.Field.{field_p, field_add, field_sub}
use komozoievm.Curve.Products.{chunks-IsNumber}
use komozoievm.Common.{ℕ, ◌+◌, ◌-◌, ◌%◌, ◌^◌, ◌<◌, ◌≡◌, sym, ap, ◌∙◌, All, arith}

chunks-IsReduced : (x : ℕ) → x < field_p → IsReduced (chunks 4 field_p) (chunks 4 x)
chunks-IsReduced x h =
    let (n, v) = chunks-IsNumber x (omega arith) in
    let (m, w) = chunks-IsNumber field_p (omega arith) in
    record {
      are_chunks = n.are_chunks;
      same_length = n.four ∙ sym m.four;
      below = omega (arith, v, w);
    }

-- `operator+` of two numbers below P gives their sum modulo P.
pub field_add_lem : (a b : ℕ) → a < field_p → b < field_p → field_add a b ≡ (a + b) % field_p
unfolding field_add
field_add_lem a b h k =
    let (n, v) = chunks-IsNumber a (omega arith) in
    let (m, w) = chunks-IsNumber b (omega arith) in
    let (p, u) = chunks-IsNumber field_p (omega arith) in
    let (r, s) =
      mod_add-IsReduced _ _ _ p.are_chunks (chunks-IsReduced a h) (chunks-IsReduced b k) in
    s ∙ ap (λ q. (value (chunks 4 a) + value (chunks 4 b)) % q) u ∙ omega (arith, v, w)

-- `operator-` of two numbers below P, the second with no chunk of all ones, gives their difference
-- modulo P.
pub field_sub_lem :
    (a b : ℕ)
    → a < field_p
    → b < field_p
    → All (λ y. y < 2 ^ 64 - 1) (chunks 4 b)
    → field_sub a b ≡ (a + field_p - b) % field_p
unfolding field_sub
field_sub_lem a b h k free =
    let (n, v) = chunks-IsNumber a (omega arith) in
    let (m, w) = chunks-IsNumber b (omega arith) in
    let (p, u) = chunks-IsNumber field_p (omega arith) in
    let (r, s) =
      mod_sub-IsReduced _ _ _ p.are_chunks (chunks-IsReduced a h) (chunks-IsReduced b k) free in
    s ∙ ap (λ q. (value (chunks 4 a) + q - value (chunks 4 b)) % q) u ∙ omega (arith, v, w)
