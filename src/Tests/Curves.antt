-- ===== src/Tests/Curves.antt =====
-- Theorems on the field and the curve at concrete inputs.
use komozoievm.Modular.{value, sub_loop, mod_add, mod_sub, mod_inv}
use komozoievm.Modular.Chunks.{span}
use komozoievm.Modular.Sums.{IsReduced, mod_add-IsReduced, mod_sub-IsReduced}
use komozoievm.Modular.Lost.{sub_loop_lost}
use komozoievm.Modular.Inverse.Inverting.{IsInverse, mod_inv-IsInverse}
use komozoievm.Curve.Points.{field_div}
use komozoievm.Curve.Quotients.{Divides, field_div-Divides}
use komozoievm.Curve.Field.{field_p, field_mul}
use komozoievm.Curve.Products.{field_mul_lem}
use komozoievm.Curve.Points.{generator, group_add}
use komozoievm.Curve.Roots.{IsRoot, field_sqrt-IsRoot}
use komozoievm.Curve.Keys.{Signature, recover, with_id}
use komozoievm.Curve.Returns.{Returns}
use komozoievm.Curve.Totals.{Fits, recover-Returns}
use komozoievm.Curve.Signing.{Picked, with_id-Answers}
use komozoievm.Tests.Setting.{tested_numbers}
use native.Mathlib.Nat.{mod-lt}
use komozoievm.Common.{
  ℕ, ◌+◌, ◌-◌, ◌*◌, ◌/◌, ◌%◌, ◌^◌, ◌<◌, ◌≡◌, ◌==◌, if◌then◌else◌, refl, List, [], ◌∷◌, some, arith,
  false,
}

tested_mod : (a b : ℕ) → 0 < b → (if b == 0 then 0 else a % b) < b
tested_mod a b h = let on : (b == 0) ≡ false = ground arith in rw on (mod-lt a h)

tested_div : (a b : ℕ) → 0 < b → tested_numbers.div a b ≡ a / b
tested_div a b h = refl

field_mul_lem_example : field_mul (2 ^ 255) (2 ^ 255 + 1) ≡ some (2 ^ 255 * (2 ^ 255 + 1) % field_p)
field_mul_lem_example = field_mul_lem (2 ^ 255) (2 ^ 255 + 1) (omega arith) (omega arith)

abbrev modulus : List ℕ
modulus = 5 ∷ 7 ∷ []

abbrev left : List ℕ
left = 3 ∷ 6 ∷ []

abbrev right : List ℕ
right = 4 ∷ 5 ∷ []

left-IsReduced : IsReduced modulus left
unfolding value
left-IsReduced = record {
  are_chunks = (omega arith, (omega arith, tt));
  same_length = refl;
  below = omega arith;
}

right-IsReduced : IsReduced modulus right
unfolding value
right-IsReduced = record {
  are_chunks = (omega arith, (omega arith, tt));
  same_length = refl;
  below = omega arith;
}

mod_add-IsReduced_example :
    IsReduced modulus (mod_add modulus left right)
    × (value (mod_add modulus left right) ≡ (value left + value right) % value modulus)
mod_add-IsReduced_example =
    mod_add-IsReduced modulus left right (omega arith, (omega arith, tt)) left-IsReduced
      right-IsReduced

mod_sub-IsReduced_example :
    IsReduced modulus (mod_sub modulus right left)
    × (value (mod_sub modulus right left)
        ≡ (value right + value modulus - value left) % value modulus)
mod_sub-IsReduced_example =
    mod_sub-IsReduced modulus right left (omega arith, (omega arith, tt)) right-IsReduced
      left-IsReduced (omega arith, (omega arith, tt))

sub_loop_lost_example :
    let b = 1 ∷ (2 ^ 64 - 1) ∷ 3 ∷ [] in
    let out = sub_loop (0 ∷ 9 ∷ 8 ∷ []) b 0 in
    value (out.0) + value b ≡ value (0 ∷ 9 ∷ 8 ∷ []) + 2 ^ 128 + span (0 ∷ 9 ∷ 8 ∷ []) * out.1
sub_loop_lost_example =
    sub_loop_lost 0 9 1 (8 ∷ []) (3 ∷ []) (omega arith, (omega arith, (omega arith, tt)))
      (omega arith) (omega arith) (omega arith, tt) refl

mod_inv-IsInverse_example :
    (out : ℕ) × (mod_inv tested_numbers 65537 12345 ≡ some out) × IsInverse 65537 12345 out
mod_inv-IsInverse_example =
    mod_inv-IsInverse tested_numbers tested_div 65537 12345 (omega arith) (omega arith)
      (omega arith)

-- Half of P + 1 is inverse to 2.
field_div-Divides_example : (q : ℕ) × (field_div tested_numbers 7 2 ≡ some q) × Divides 7 2 q
field_div-Divides_example =
    field_div-Divides tested_numbers tested_div 7 2 ((field_p + 1) / 2) (omega arith) (omega arith)
      (omega arith)

field_sqrt-IsRoot_example : (root : ℕ) × IsRoot 4 root
field_sqrt-IsRoot_example = field_sqrt-IsRoot 4 (omega arith)

abbrev signature : Signature
signature = record { r = 1234; s = 5678; v = 1 }

recover-Returns_example : Returns Fits (recover tested_numbers signature 99)
recover-Returns_example =
    recover-Returns tested_numbers tested_div tested_mod signature 99 (omega arith)

with_id-Answers_example :
    (g : Signature) × (with_id tested_numbers 11 99 1234 5678 ≡ some g)
    × Picked tested_numbers 11 99
        (record { r = 1234; s = 5678; v = 0 })
        (record { r = 1234; s = 5678; v = 1 })
        g
with_id-Answers_example =
    with_id-Answers tested_numbers tested_div tested_mod 11 99 1234 5678 (omega arith)

-- Twice the generator.
twice_g :
    group_add tested_numbers generator generator
    ≡ some (record {
      x = 89565891926547004231252920425935692360644145829622209833684329913297188986597;
      y = 12158399299693830322967808612713398636155367887041628176798871954788371653930;
      infinity = false;
    })
unfolding group_add
twice_g = refl
