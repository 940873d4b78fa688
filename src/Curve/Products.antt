-- ===== src/Curve/Products.antt =====
-- `operator*` of the field in src/crypto/Secp256k1.cpp against products modulo P.
use komozoievm.Modular.{word, not_zero, value, chunks}
use komozoievm.Modular.Chunks.{AreChunks, span}
use komozoievm.Curve.Field.{
  field_p, mul_row, mul_rows, field_mul, scale_chunks, field_scale, reduce_wide,
}
use komozoievm.Curve.Folding.{IsNumber, reduce_parts_lem, reduce_chunk_lem, span-four, swap}
use native.Mathlib.Nat.{mul-le-mul_left}
use komozoievm.Common.{
  ℕ, zero, suc, ◌+◌, ◌-◌, ◌*◌, ◌/◌, ◌%◌, ◌^◌, ◌≤◌, ◌<◌, ◌≡◌, refl, sym, ap, ◌∙◌, List, [], ◌∷◌,
  some, false, length, take, drop, arith, Bool-cases, inl, inr,
}

wide_product :
    (a b t c : ℕ) → a < 2 ^ 64 → b < 2 ^ 64 → t < 2 ^ 64 → c < 2 ^ 64 → a * b + t + c < 2 ^ 128
wide_product a b t c h i j k =
    omega (arith, let few : b ≤ 2 ^ 64 - 1 = omega arith in mul-le-mul_left a few)

-- The chunks behind the first of a row are n zeros.
unfoldable Fresh : List ℕ → List ℕ → ℕ → Type 0
Fresh [] [] n = n ≡ 0
Fresh [] (t ∷ ts) zero = ⊥
Fresh [] (t ∷ ts) (suc n) = (t ≡ 0) × Fresh [] ts n
Fresh (b ∷ bs) [] n = ⊥
Fresh (b ∷ bs) (t ∷ ts) n = Fresh bs ts n

same_tail : (a b : ℕ) (bs ts : List ℕ) (n : ℕ) → Fresh (a ∷ bs) ts n → Fresh (b ∷ bs) ts n
unfolding Fresh
same_tail a b bs [] n e = e
same_tail a b bs (t ∷ ts) n e = e

times_zero : (a : ℕ) → a * 0 ≡ 0
times_zero a = grind arith

no_carry : (c : ℕ) → not_zero c ≡ false → c ≡ 0
no_carry c h = ground arith

spread : (a b s : ℕ) → a * (b + word * s) ≡ a * b + word * (a * s)
spread a b s = grind arith

mul_row_value :
    (a : ℕ) (bs ts : List ℕ) (carry n : ℕ)
    → a < 2 ^ 64
    → AreChunks bs
    → AreChunks ts
    → carry < 2 ^ 64
    → Fresh bs ts (suc n)
    → (value (mul_row a bs ts carry) ≡ value ts + a * value bs + carry)
      × AreChunks (mul_row a bs ts carry)
      × Fresh (a ∷ bs) (mul_row a bs ts carry) n
      × (length (mul_row a bs ts carry) ≡ length ts)
unfolding mul_row value Fresh
mul_row_value a [] [] carry n h k l m e = absurd (omega (arith, e))
mul_row_value a [] (t ∷ ts) carry n h k (lt, l) m (e, f) = elim (Bool-cases (not_zero carry)) [
  | inl nz ↦ rw nz (omega (arith, e, times_zero a), (m, l), f, refl)
  | inr z ↦ rw z (omega (arith, times_zero a, no_carry carry z), (lt, l), f, refl)
]
mul_row_value a (b ∷ bs) [] carry n h k l m e = absurd e
mul_row_value a (b ∷ bs) (t ∷ ts) carry n h (kb, k) (lt, l) m e =
    let prod = (a * b + t + carry) % 2 ^ 128 in
    let (v, d, f, len) = mul_row_value a bs ts (prod / word) n h k l (omega arith) e in
    (
      omega (arith, v, spread a b (value bs), wide_product a b t carry h kb lt m),
      (omega arith, d),
      same_tail a b bs _ n f,
      ap suc len,
    )

-- What the rows of `rest` do to chunks.
Multiplies : List ℕ → List ℕ → List ℕ → List ℕ → Type 0
Multiplies rest bs ts out =
    (value out ≡ value ts + value rest * value bs) × AreChunks out × (length out ≡ length ts)

below_row :
    (a : ℕ) (rest bs us : List ℕ)
    → ((vs : List ℕ)
        → AreChunks vs
        → Fresh bs vs (length rest)
        → Multiplies rest bs vs (mul_rows rest bs vs))
    → AreChunks us
    → Fresh (a ∷ bs) us (length rest)
    → (value (elim us [ [] ↦ [] | t ∷ vs ↦ t ∷ mul_rows rest bs vs ])
        ≡ value us + word * (value rest * value bs))
      × AreChunks (elim us [ [] ↦ [] | t ∷ vs ↦ t ∷ mul_rows rest bs vs ])
      × (length (elim us [ [] ↦ [] | t ∷ vs ↦ t ∷ mul_rows rest bs vs ]) ≡ length us)
unfolding Fresh value Multiplies
below_row a rest bs [] ih d f = absurd f
below_row a rest bs (t ∷ vs) ih (dt, d) f =
    let (v, e, n) = ih vs d f in (omega (arith, v), (dt, e), ap suc n)

gather : (a r b : ℕ) → (a + word * r) * b ≡ a * b + word * (r * b)
gather a r b = grind arith

mul_rows_value :
    (rest bs ts : List ℕ)
    → AreChunks rest
    → AreChunks bs
    → AreChunks ts
    → Fresh bs ts (length rest)
    → Multiplies rest bs ts (mul_rows rest bs ts)
unfolding mul_rows value Multiplies
mul_rows_value [] bs ts h k l e = (grind arith, l, refl)
mul_rows_value (a ∷ rest) bs ts (ha, h) k l e =
    let (v, d, f, n) = mul_row_value a bs ts 0 (length rest) ha k l (omega arith) e in
    let (w, c, m) =
      below_row a rest bs (mul_row a bs ts 0) (λ vs x y. mul_rows_value rest bs vs h k x y) d f in
    (omega (arith, v, w, gather a (value rest) (value bs)), c, m ∙ n)

-- The value of the four chunks of a number.
pub chunks-IsNumber : (x : ℕ) → x < 2 ^ 256 → IsNumber (chunks 4 x) × (value (chunks 4 x) ≡ x)
unfolding chunks value
chunks-IsNumber x h = (
  record {
    are_chunks = (omega arith, (omega arith, (omega arith, (omega arith, tt))));
    four = refl;
  },
  omega arith,
)

pub chunks-low : (x : ℕ) → IsNumber (chunks 4 x) × (value (chunks 4 x) ≡ x % 2 ^ 256)
unfolding chunks value
chunks-low x = (
  record {
    are_chunks = (omega arith, (omega arith, (omega arith, (omega arith, tt))));
    four = refl;
  },
  omega arith,
)

-- Eight chunks split in the middle.
split_chunks :
    (ts : List ℕ)
    → AreChunks ts
    → length ts ≡ 8
    → IsNumber (take 4 ts)
      × IsNumber (drop 4 ts)
      × (value ts ≡ value (take 4 ts) + 2 ^ 256 * value (drop 4 ts))
unfolding value
split_chunks (a ∷ b ∷ c ∷ d ∷ ts) (ha, (hb, (hc, (hd, h)))) n = (
  record { are_chunks = (ha, (hb, (hc, (hd, tt)))); four = refl },
  record { are_chunks = h; four = omega (arith, n) },
  omega arith,
)
split_chunks [] h n = absurd (omega (arith, n))
split_chunks (a ∷ []) h n = absurd (omega (arith, n))
split_chunks (a ∷ b ∷ []) h n = absurd (omega (arith, n))
split_chunks (a ∷ b ∷ c ∷ []) h n = absurd (omega (arith, n))

-- `operator*` of two numbers below 2^256 gives their product modulo P.
pub field_mul_lem : (a b : ℕ) → a < 2 ^ 256 → b < 2 ^ 256 → field_mul a b ≡ some (a * b % field_p)
unfolding field_mul chunks Fresh Multiplies
field_mul_lem a b h k =
    let (na, va) = chunks-IsNumber a h in
    let (nb, vb) = chunks-IsNumber b k in
    let zeros : List ℕ = 0 ∷ 0 ∷ 0 ∷ 0 ∷ 0 ∷ 0 ∷ 0 ∷ 0 ∷ [] in
    let (v, d, n) =
      mul_rows_value (chunks 4 a) (chunks 4 b) zeros na.are_chunks nb.are_chunks
        (
          omega arith,
          (
            omega arith,
            (
              omega arith,
              (omega arith, (omega arith, (omega arith, (omega arith, (omega arith, tt))))),
            ),
          ),
        )
        (refl, (refl, (refl, (refl, refl)))) in
    let (low, high, s) = split_chunks (mul_rows (chunks 4 a) (chunks 4 b) zeros) d n in
    reduce_parts_lem _ _ low high
    ∙ ap (λ x. some (x % field_p))
        (sym s ∙ v ∙ ap (λ x. 0 + x * value (chunks 4 b)) va ∙ ap (λ y. 0 + a * y) vb ∙ omega arith)

times : (k x s : ℕ) → (x + word * s) * k ≡ x * k + word * (s * k)
times k x s = grind arith

scale_chunks_value :
    (xs : List ℕ) (k carry : ℕ)
    → AreChunks xs
    → k < 2 ^ 64
    → carry < 2 ^ 64
    → (value ((scale_chunks xs k carry).0) + span xs * (scale_chunks xs k carry).1
        ≡ value xs * k + carry)
      × ((scale_chunks xs k carry).1 < 2 ^ 64)
      × AreChunks ((scale_chunks xs k carry).0)
      × (length ((scale_chunks xs k carry).0) ≡ length xs)
unfolding scale_chunks value span
scale_chunks_value [] k carry h l m = (grind arith, m, tt, refl)
scale_chunks_value (x ∷ xs) k carry (hx, h) l m =
    let next = (x * k + carry) % 2 ^ 128 / word in
    let bound = wide_product x k 0 carry hx l (omega arith) m in
    let (v, f, d, n) = scale_chunks_value xs k next h l (omega arith) in
    (
      omega (arith, v, bound, swap (span xs) ((scale_chunks xs k next).1), times k x (value xs)),
      f,
      (omega arith, d),
      ap suc n,
    )

-- `operator*` with a number of one chunk gives the product modulo P.
pub field_scale_lem :
    (a k : ℕ) → a < 2 ^ 256 → k < 2 ^ 64 → field_scale a k ≡ some (a * k % field_p)
unfolding field_scale
field_scale_lem a k h l =
    let (na, va) = chunks-IsNumber a h in
    let (v, f, d, n) = scale_chunks_value (chunks 4 a) k 0 na.are_chunks l (omega arith) in
    let wide = span-four (chunks 4 a) na.four in
    let out = scale_chunks (chunks 4 a) k 0 in
    reduce_chunk_lem (out.0) (out.1) (record { are_chunks = d; four = n ∙ na.four }) f
    ∙ ap (λ x. some (x % field_p))
        (ap (λ t. value (out.0) + t * out.1) (sym wide) ∙ v ∙ ap (λ x. x * k + 0) va ∙ omega arith)

-- `modReduce256k1` of 512 bits gives the number modulo P.
pub reduce_wide_lem : (v : ℕ) → v < 2 ^ 512 → reduce_wide v ≡ some (v % field_p)
unfolding reduce_wide
reduce_wide_lem v h =
    let (n, low) = chunks-low v in
    let (m, high) = chunks-IsNumber (v / 2 ^ 256) (omega arith) in
    reduce_parts_lem (chunks 4 v) (chunks 4 (v / 2 ^ 256)) n m
    ∙ ap (λ x. some (x % field_p)) (omega (arith, low, high))
