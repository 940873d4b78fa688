-- ===== src/Curve/Folding.antt =====
-- What the folds of `modReduce256k1FromParts` of src/crypto/Secp256k1.cpp do to the number modulo P.
use komozoievm.Modular.{word, not_zero, value}
use komozoievm.Modular.Chunks.{AreChunks, span, value-lt}
use komozoievm.Curve.Field.{
  field_p, fold_by, add_carry, fold_round, fold_loop, mod_reduce, subtract_once, reduce_chunk,
  fold_parts, reduce_parts,
}
use komozoievm.Common.{
  ℕ, zero, suc, ◌+◌, ◌*◌, ◌/◌, ◌%◌, ◌^◌, ◌≤◌, ◌<◌, ◌≡◌, refl, sym, ap, ◌∙◌, List, [], ◌∷◌, some,
  true, leb, if◌then◌else◌, length, arith, Bool-cases, inl, inr, ◌⊎◌,
}

pub swap : (s c : ℕ) → word * s * c ≡ word * (s * c)
swap s c = grind arith

one_carry :
    (x c : ℕ)
    → x < 2 ^ 64
    → c < 2 ^ 64
    → not_zero c ≡ true
    → (carry : ℕ) × ((if leb ((x + c) % word) x then 1 else 0) ≡ carry)
      × (carry ≤ 1)
      × ((x + c) % word + word * carry ≡ x + c)
one_carry x c h k nz = ((x + c) / word, ground arith, omega arith, omega arith)

pub add_carry_value :
    (xs : List ℕ) (c : ℕ)
    → AreChunks xs
    → c < 2 ^ 64
    → (value ((add_carry xs c).0) + span xs * (add_carry xs c).1 ≡ value xs + c)
      × ((add_carry xs c).1 < 2 ^ 64)
      × AreChunks ((add_carry xs c).0)
      × (length ((add_carry xs c).0) ≡ length xs)
unfolding add_carry value span
add_carry_value [] c h l = (omega arith, l, tt, refl)
add_carry_value (x ∷ xs) c (hx, h) l = elim (Bool-cases (not_zero c)) [
  | inl nz ↦
      let (carry, is, few, one) = one_carry x c hx l nz in
      let (v, f, d, n) = add_carry_value xs carry h (omega arith) in
      rw (nz, is)
        (
          omega (arith, v, one, swap (span xs) ((add_carry xs carry).1)),
          f,
          (omega arith, d),
          ap suc n,
        )
  | inr z ↦
      let zero_carry : c ≡ 0 = ground arith in
      let gone : word * span xs * c ≡ 0 = ap (λ k. word * span xs * k) zero_carry ∙ grind arith in
      rw z (omega (arith, gone, zero_carry), l, (hx, h), refl)
]

-- A round keeps the number modulo P: 2^256 turns into 2^256 - P.
pub fold_round_value :
    (x : ℕ) (xs : List ℕ) (high : ℕ)
    → AreChunks (x ∷ xs)
    → high < 2 ^ 64
    → (value ((fold_round (x ∷ xs) high).0) + word * span xs * (fold_round (x ∷ xs) high).1
        ≡ value (x ∷ xs) + fold_by * high)
      × ((fold_round (x ∷ xs) high).1 < 2 ^ 64)
      × AreChunks ((fold_round (x ∷ xs) high).0)
      × (length ((fold_round (x ∷ xs) high).0) ≡ suc (length xs))
unfolding fold_round value
fold_round_value x xs high (hx, h) k =
    let carry = (high * fold_by + x) % 2 ^ 128 / word % word in
    let (v, f, d, n) = add_carry_value xs carry h (omega arith) in
    (omega (arith, v, swap (span xs) ((add_carry xs carry).1)), f, (omega arith, d), ap suc n)

pub span-four : (xs : List ℕ) → length xs ≡ 4 → span xs ≡ 2 ^ 256
unfolding span
span-four [] h = absurd (omega arith)
span-four (a ∷ []) h = absurd (omega arith)
span-four (a ∷ b ∷ []) h = absurd (omega arith)
span-four (a ∷ b ∷ c ∷ []) h = absurd (omega arith)
span-four (a ∷ b ∷ c ∷ d ∷ []) h = refl
span-four (a ∷ b ∷ c ∷ d ∷ e ∷ xs) h = absurd (omega arith)

-- Four chunks.
pub record IsNumber (xs : List ℕ) : Type 0 where
  pub are_chunks : AreChunks xs
  pub four : length xs ≡ 4

pub value-bound : (xs : List ℕ) → IsNumber xs → value xs < 2 ^ 256
value-bound xs n = omega (arith, value-lt xs n.are_chunks, span-four xs n.four)

round_lem :
    (low : List ℕ) (high : ℕ)
    → IsNumber low
    → high < 2 ^ 64
    → (value ((fold_round low high).0) + 2 ^ 256 * (fold_round low high).1
        ≡ value low + fold_by * high)
      × IsNumber ((fold_round low high).0)
unfolding span
round_lem [] high n k = absurd (omega (arith, n.four))
round_lem (x ∷ xs) high n k =
    let (v, f, d, m) = fold_round_value x xs high n.are_chunks k in
    let wide : word * span xs ≡ 2 ^ 256 = span-four (x ∷ xs) n.four in
    (
      ap (λ t. value ((fold_round (x ∷ xs) high).0) + t * (fold_round (x ∷ xs) high).1) (sym wide)
          ∙ v,
      record { are_chunks = d; four = m ∙ n.four },
    )

-- A number of four chunks that stands for `total` modulo P.
pub Stands : ℕ → List ℕ → Type 0
Stands total out = IsNumber out × ((k : ℕ) × (total ≡ value out + field_p * k))

loop_ends :
    (fuel : ℕ) (low : List ℕ) (high : ℕ) → high ≡ 0 → fold_loop (suc fuel) low high ≡ some low
unfolding fold_loop
loop_ends fuel low high e = rw e refl

loop_goes :
    (fuel : ℕ) (low : List ℕ) (high : ℕ)
    → 0 < high
    → fold_loop (suc fuel) low high
      ≡ fold_loop fuel ((fold_round low high).0) ((fold_round low high).1)
unfolding fold_loop
loop_goes fuel low high h = let on : not_zero high ≡ true = ground arith in rw on refl

zero_or_one : (n : ℕ) → n ≤ 1 → (n ≡ 0) ⊎ (n ≡ 1)
zero_or_one zero h = inl refl
zero_or_one (suc zero) h = inr refl
zero_or_one (suc (suc n)) h = absurd (omega arith)

-- Three tests are enough for the loop.
pub fold_loop-Stands :
    (low : List ℕ) (high : ℕ)
    → IsNumber low
    → high < 2 ^ 64
    → (out : List ℕ) × (fold_loop 3 low high ≡ some out) × Stands (value low + 2 ^ 256 * high) out
unfolding Stands
fold_loop-Stands low zero n h = (low, loop_ends 2 low 0 refl, (n, (0, omega arith)))
fold_loop-Stands low (suc m) n h =
    let high = suc m in
    let low₁ = (fold_round low high).0 in
    let high₁ = (fold_round low high).1 in
    let (v, n₁) = round_lem low high n h in
    let few : high₁ ≤ 1 = omega (arith, v, value-bound low n) in
    let (w, n₂) = round_lem low₁ high₁ n₁ (omega (arith, few)) in
    let ends : (high₁ ≡ 0) ⊎ (high₁ ≡ 1) = zero_or_one high₁ few in
    elim ends [
      | inl z ↦ (
        low₁,
        loop_goes 2 low high (omega arith) ∙ loop_ends 1 low₁ high₁ z,
        (n₁, (high, omega (arith, v, z))),
      )
      | inr o ↦
          let none_left : (fold_round low₁ high₁).1 ≡ 0 =
            omega (arith, v, w, o, value-bound low n, value-bound low₁ n₁) in
          (
            (fold_round low₁ high₁).0,
            loop_goes 2 low high (omega arith)
                ∙ loop_goes 1 low₁ high₁ (omega (arith, o))
                ∙ loop_ends 0 _ _ none_left,
            (n₂, (high + 1, omega (arith, v, w, o, none_left))),
          )
    ]

pub mod_reduce_lem : (v : ℕ) → v < 2 ^ 256 → mod_reduce v ≡ v % field_p
unfolding mod_reduce
mod_reduce_lem v h = ground arith

-- A chunk above 256 bits is folded to the number modulo P.
pub reduce_chunk_lem :
    (low : List ℕ) (high : ℕ)
    → IsNumber low
    → high < 2 ^ 64
    → reduce_chunk low high ≡ some ((value low + 2 ^ 256 * high) % field_p)
unfolding reduce_chunk subtract_once Stands
reduce_chunk_lem low high n h =
    let (out, is, (m, (k, total))) = fold_loop-Stands low high n h in
    ap subtract_once is
    ∙ ap some (mod_reduce_lem (value out) (value-bound out m) ∙ omega (arith, total))

product_bound : (h c x : ℕ) → h < 2 ^ 64 → c < 2 ^ 64 → x < 2 ^ 64 → h * fold_by + c + x < 2 ^ 128
product_bound h c x i j k = omega arith

pub fold_parts_value :
    (xs hs : List ℕ) (carry : ℕ)
    → AreChunks xs
    → AreChunks hs
    → length xs ≡ length hs
    → carry < 2 ^ 64
    → (value ((fold_parts xs hs carry).0) + span xs * (fold_parts xs hs carry).1
        ≡ value xs + fold_by * value hs + carry)
      × ((fold_parts xs hs carry).1 < 2 ^ 64)
      × AreChunks ((fold_parts xs hs carry).0)
      × (length ((fold_parts xs hs carry).0) ≡ length xs)
unfolding fold_parts value span
fold_parts_value [] [] carry h k e l = (omega arith, l, tt, refl)
fold_parts_value [] (y ∷ hs) carry h k e l = absurd (omega arith)
fold_parts_value (x ∷ xs) [] carry h k e l = absurd (omega arith)
fold_parts_value (x ∷ xs) (y ∷ hs) carry (hx, h) (hy, k) e l =
    let next = (y * fold_by + carry + x) % 2 ^ 128 / word in
    let (v, f, d, n) = fold_parts_value xs hs next h k (omega arith) (omega arith) in
    (omega (arith, v, swap (span xs) ((fold_parts xs hs next).1)), f, (omega arith, d), ap suc n)

-- 256 bits above 256 bits are folded to the number modulo P.
pub reduce_parts_lem :
    (low high : List ℕ)
    → IsNumber low
    → IsNumber high
    → reduce_parts low high ≡ some ((value low + 2 ^ 256 * value high) % field_p)
unfolding reduce_parts
reduce_parts_lem low high n m =
    let (v, f, d, e) =
      fold_parts_value low high 0 n.are_chunks m.are_chunks (n.four ∙ sym m.four) (omega arith) in
    let w =
      ap (λ t. value ((fold_parts low high 0).0) + t * (fold_parts low high 0).1)
        (sym (span-four low n.four))
      ∙ v in
    reduce_chunk_lem _ _ (record { are_chunks = d; four = e ∙ n.four }) f
    ∙ ap some (omega (arith, w))
