-- ===== src/Modular/Chunks.antt =====
-- What `addRaw` and `subRaw` of src/crypto/modbigint.h do to the numbers that the chunks hold.
use komozoievm.Modular.{word, not_zero, value, add_raw, sub_raw, sub_loop}
use komozoievm.Common.{
  ℕ, suc, ◌+◌, ◌-◌, ◌*◌, ◌/◌, ◌%◌, ◌^◌, ◌≤◌, ◌<◌, ◌≡◌, refl, ap, List, [], ◌∷◌, All, ltb, ◌==◌,
  if◌then◌else◌, ◌&&◌, ◌||◌, length, arith,
}

-- Chunks of 64 bits.
abbrev pub AreChunks : List ℕ → Type 0
AreChunks = All (λ x. x < 2 ^ 64)

-- 2 ^ (64 * n), for the width of a list.
unfoldable pub span : List ℕ → ℕ
span [] = 1
span (x ∷ xs) = word * span xs

scale : (s c : ℕ) → word * s * c ≡ word * (s * c)
scale s c = grind arith

one_add :
    (a b c : ℕ)
    → a < 2 ^ 64
    → b < 2 ^ 64
    → c ≤ 1
    → (carry : ℕ) × ((if ltb ((a + b + c) % word) a || (not_zero c && ((a + b + c) % word) == a)
          then 1
          else 0)
        ≡ carry)
      × (carry ≤ 1)
      × ((a + b + c) % word + word * carry ≡ a + b + c)
one_add a b c h k l = ((a + b + c) / word, ground arith, omega arith, omega arith)

pub add_raw_value :
    (xs ys : List ℕ) (c : ℕ)
    → AreChunks xs
    → AreChunks ys
    → length xs ≡ length ys
    → c ≤ 1
    → (value ((add_raw xs ys c).0) + span xs * (add_raw xs ys c).1 ≡ value xs + value ys + c)
      × ((add_raw xs ys c).1 ≤ 1)
      × AreChunks ((add_raw xs ys c).0)
      × (length ((add_raw xs ys c).0) ≡ length xs)
unfolding add_raw value span
add_raw_value [] [] c h k e l = (omega arith, l, tt, refl)
add_raw_value [] (b ∷ ys) c h k e l = absurd (omega arith)
add_raw_value (a ∷ xs) [] c h k e l = absurd (omega arith)
add_raw_value (a ∷ xs) (b ∷ ys) c (ha, h) (hb, k) e l =
    let (carry, is, few, one) = one_add a b c ha hb l in
    let (v, f, d, n) = add_raw_value xs ys carry h k (omega arith) few in
    rw is (
      omega (arith, v, one, scale (span xs) ((add_raw xs ys carry).1)),
      f,
      (omega arith, d),
      ap suc n,
    )

one_sub :
    (a b c : ℕ)
    → a < 2 ^ 64
    → b < 2 ^ 64
    → c ≤ 1
    → (borrow : ℕ) × ((if ltb a b || (not_zero c && a == b) then 1 else 0) ≡ borrow)
      × (borrow ≤ 1)
      × ((a + word + word - b - c) % word + b + c ≡ a + word * borrow)
one_sub a b c h k l = (1 - (a + word - b - c) / word, ground arith, omega arith, omega arith)

pub sub_raw_value :
    (xs ys : List ℕ) (c : ℕ)
    → AreChunks xs
    → AreChunks ys
    → length xs ≡ length ys
    → c ≤ 1
    → (value ((sub_raw xs ys c).0) + value ys + c ≡ value xs + span xs * (sub_raw xs ys c).1)
      × ((sub_raw xs ys c).1 ≤ 1)
      × AreChunks ((sub_raw xs ys c).0)
      × (length ((sub_raw xs ys c).0) ≡ length xs)
unfolding sub_raw value span
sub_raw_value [] [] c h k e l = (omega arith, l, tt, refl)
sub_raw_value [] (b ∷ ys) c h k e l = absurd (omega arith)
sub_raw_value (a ∷ xs) [] c h k e l = absurd (omega arith)
sub_raw_value (a ∷ xs) (b ∷ ys) c (ha, h) (hb, k) e l =
    let (borrow, is, few, one) = one_sub a b c ha hb l in
    let (v, f, d, n) = sub_raw_value xs ys borrow h k (omega arith) few in
    rw is (
      omega (arith, v, one, scale (span xs) ((sub_raw xs ys borrow).1)),
      f,
      (omega arith, d),
      ap suc n,
    )

-- The number in chunks is below the span.
pub value-lt : (xs : List ℕ) → AreChunks xs → value xs < span xs
unfolding value span
value-lt [] h = omega arith
value-lt (x ∷ xs) (h, k) = omega (arith, value-lt xs k)

-- Where the second list has no chunk of all ones, the loop of `operator-` is `subRaw`.
pub sub_loop-sub_raw :
    (xs ys : List ℕ) (c : ℕ)
    → AreChunks xs
    → All (λ y. y < 2 ^ 64 - 1) ys
    → c ≤ 1
    → sub_loop xs ys c ≡ sub_raw xs ys c
unfolding sub_loop sub_raw
sub_loop-sub_raw [] ys c h k l = refl
sub_loop-sub_raw (a ∷ xs) [] c h k l = refl
sub_loop-sub_raw (a ∷ xs) (b ∷ ys) c (ha, h) (hb, k) l =
    let (borrow, is, few, one) = one_sub a b c ha (omega arith) l in
    let same : (if ltb a ((b + c) % word) then 1 else 0) ≡ borrow = ground (arith, is) in
    rw (same, is, sub_loop-sub_raw xs ys borrow h k few) refl
