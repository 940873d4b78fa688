-- ===== src/Modular/Sums.antt =====
-- `operator+` and `operator-` of src/crypto/modbigint.h and of the field in src/crypto/Secp256k1.h
-- against sums and differences modulo P.
use komozoievm.Modular.{word, not_zero, value, add_raw, sub_raw, mod_add, mod_sub}
use komozoievm.Modular.Chunks.{
  AreChunks, span, add_raw_value, sub_raw_value, value-lt, sub_loop-sub_raw,
}
use native.Mathlib.Nat.{mod-eq_of_lt, mod-eq-sub-mod}
use komozoievm.Common.{
  ℕ, zero, suc, ◌+◌, ◌-◌, ◌*◌, ◌%◌, ◌^◌, ◌≤◌, ◌<◌, ◌≡◌, refl, sym, ap, ◌∙◌, List, [], ◌∷◌, true,
  false, All, leb, ◌||◌, length, arith, Bool-cases, inl, inr, ◌⊎◌,
}

span-length : (xs ys : List ℕ) → length xs ≡ length ys → span xs ≡ span ys
unfolding span
span-length [] [] h = refl
span-length [] (y ∷ ys) h = absurd (omega arith)
span-length (x ∷ xs) [] h = absurd (omega arith)
span-length (x ∷ xs) (y ∷ ys) h = ap (λ s. word * s) (span-length xs ys (omega arith))

bit_product : (s c : ℕ) → c ≤ 1 → ((c ≡ 0) × (s * c ≡ 0)) ⊎ ((c ≡ 1) × (s * c ≡ s))
bit_product s zero h = inl (refl, grind arith)
bit_product s (suc zero) h = inr (refl, grind arith)
bit_product s (suc (suc c)) h = absurd (omega arith)

mod_once : (n p : ℕ) → p ≤ n → n < p + p → n % p ≡ n - p
mod_once n p h k = mod-eq-sub-mod h ∙ mod-eq_of_lt (omega arith)

reduce_once :
    (S V P t AB c b : ℕ)
    → S + t * c ≡ AB
    → c ≤ 1
    → V + P ≡ S + t * b
    → b ≤ 1
    → V < t
    → S < t
    → P < t
    → P ≤ AB
    → AB < P + P
    → V ≡ AB - P
reduce_once S V P t AB c b sum few dif few' hv hs hp low high = elim (bit_product t c few) [
  | inl (c₀, tc) ↦ elim (bit_product t b few') [
    | inl (b₀, tb) ↦ omega arith
    | inr (b₁, tb) ↦ omega arith
  ]
  | inr (c₁, tc) ↦ elim (bit_product t b few') [
    | inl (b₀, tb) ↦ omega arith
    | inr (b₁, tb) ↦ omega arith
  ]
]

-- Chunks of a width with a number below P.
pub record IsReduced (p xs : List ℕ) : Type 0 where
  pub are_chunks : AreChunks xs
  pub same_length : length xs ≡ length p
  pub below : value xs < value p

module _ (p a b : List ℕ) (cp : AreChunks p) (ra : IsReduced p a) (rb : IsReduced p b) where
  abbrev sum : List ℕ
  sum = (add_raw a b 0).0

  abbrev carry : ℕ
  carry = (add_raw a b 0).1

  same_span : span a ≡ span p
  same_span = span-length a p ra.same_length

  -- What the raw sum is, with its carry.
  sum_lem :
      (value sum + span p * carry ≡ value a + value b)
      × (carry ≤ 1)
      × AreChunks sum
      × (length sum ≡ length p)
      × (value sum < span p)
  sum_lem =
      let (v, f, d, n) =
        add_raw_value a b 0 ra.are_chunks rb.are_chunks (ra.same_length ∙ sym rb.same_length)
          (omega arith) in
      (
        ap (λ s. value sum + s * carry) (sym same_span) ∙ v ∙ omega arith,
        f,
        d,
        n ∙ ra.same_length,
        omega (arith, value-lt sum d, span-length sum p (n ∙ ra.same_length)),
      )

  reduced_sum :
      (value p ≤ value a + value b)
      → (value ((sub_raw sum p 0).0) ≡ value a + value b - value p)
        × AreChunks ((sub_raw sum p 0).0)
        × (length ((sub_raw sum p 0).0) ≡ length p)
  reduced_sum large =
      let (v, f, d, n, below) = sum_lem in
      let (w, g, e, m) = sub_raw_value sum p 0 d cp n (omega arith) in
      let bound = value-lt ((sub_raw sum p 0).0) e in
      let wide = span-length ((sub_raw sum p 0).0) p (m ∙ n) in
      let top = span-length sum p n in
      (
        reduce_once (value sum) (value ((sub_raw sum p 0).0)) (value p) (span p) (value a + value b)
            carry ((sub_raw sum p 0).1) v f
            (omega arith ∙ w ∙ ap (λ t. value sum + t * (sub_raw sum p 0).1) top) g
            (omega (arith, bound, wide)) below (value-lt p cp) large
            (omega (arith, ra.below, rb.below)),
        e,
        m ∙ n,
      )

over_large :
    (S P t AB c : ℕ) → S + t * c ≡ AB → c ≤ 1 → P < t → not_zero c || leb P S ≡ true → P ≤ AB
over_large S P t AB c sum few hp over = elim (bit_product t c few) [
  | inl (c₀, tc) ↦ ground (arith, c₀)
  | inr (c₁, tc) ↦ omega arith
]

under_small :
    (S P t AB c : ℕ) → S + t * c ≡ AB → c ≤ 1 → not_zero c || leb P S ≡ false → (S ≡ AB) × (S < P)
under_small S P t AB c sum few under = elim (bit_product t c few) [
  | inl (c₀, tc) ↦ (omega arith, ground (arith, c₀))
  | inr (c₁, tc) ↦ absurd (ground (arith, c₁))
]

-- `operator+` of two numbers below P in chunks of P's width gives their sum modulo P, again below
-- P in such chunks.
pub mod_add-IsReduced :
    (p a b : List ℕ)
    → AreChunks p
    → IsReduced p a
    → IsReduced p b
    → IsReduced p (mod_add p a b) × (value (mod_add p a b) ≡ (value a + value b) % value p)
unfolding mod_add
mod_add-IsReduced p a b cp ra rb =
    let (v, f, d, n, below) = sum_lem p a b cp ra rb in
    elim (Bool-cases (not_zero ((add_raw a b 0).1) || leb (value p) (value ((add_raw a b 0).0)))) [
      | inl over ↦
          let large = over_large _ _ _ _ _ v f (value-lt p cp) over in
          let (w, e, m) = reduced_sum p a b cp ra rb large in
          rw over (
            record {
              are_chunks = e;
              same_length = m;
              below = omega (arith, w, large, ra.below, rb.below);
            },
            w ∙ sym (mod_once _ _ large (omega (arith, ra.below, rb.below))),
          )
      | inr under ↦
          let (small, less) = under_small _ _ _ _ _ v f under in
          rw under (
            record { are_chunks = d; same_length = n; below = less },
            small ∙ sym (mod-eq_of_lt (omega (arith, small, less))),
          )
    ]

wrapped :
    (V D A B P t b c : ℕ)
    → D + B + 0 ≡ A + t * b
    → b ≤ 1
    → V + t * c ≡ D + P + 0
    → c ≤ 1
    → V < t
    → D < t
    → A < P
    → B < P
    → P < t
    → b ≡ 1
    → (V ≡ A + P - B) × (A < B)
wrapped V D A B P t b c dif few sum few' hv hd ha hb hp one = elim (bit_product t b few) [
  | inl (b₀, tb) ↦ absurd (omega arith)
  | inr (b₁, tb) ↦ elim (bit_product t c few') [
    | inl (c₀, tc) ↦ (omega arith, omega arith)
    | inr (c₁, tc) ↦ (omega arith, omega arith)
  ]
]

unwrapped :
    (D A B P t b : ℕ)
    → D + B + 0 ≡ A + t * b
    → not_zero b ≡ false
    → A < P
    → (D + P ≡ A + P - B) × (D < P)
unwrapped D A B P t b dif zero_borrow ha =
    let none_left : b ≡ 0 = ground arith in
    let same : t * b ≡ 0 = ap (λ k. t * k) none_left ∙ grind arith in (omega arith, omega arith)

-- `operator-` of two numbers below P in chunks of P's width, where the second has no chunk of all
-- ones, gives their difference modulo P, again below P in such chunks.
pub mod_sub-IsReduced :
    (p a b : List ℕ)
    → AreChunks p
    → IsReduced p a
    → IsReduced p b
    → All (λ y. y < 2 ^ 64 - 1) b
    → IsReduced p (mod_sub p a b)
      × (value (mod_sub p a b) ≡ (value a + value p - value b) % value p)
unfolding mod_sub
mod_sub-IsReduced p a b cp ra rb free =
    let loop = sub_loop-sub_raw a b 0 ra.are_chunks free (omega arith) in
    let (v, f, d, n) =
      sub_raw_value a b 0 ra.are_chunks rb.are_chunks (ra.same_length ∙ sym rb.same_length)
        (omega arith) in
    let wide = span-length a p ra.same_length in
    let v' = v ∙ ap (λ t. value a + t * (sub_raw a b 0).1) wide in
    rw loop (elim (Bool-cases (not_zero ((sub_raw a b 0).1))) [
      | inl over ↦
          let one : (sub_raw a b 0).1 ≡ 1 = ground (arith, f, over) in
          let (w, g, e, m) =
            add_raw_value ((sub_raw a b 0).0) p 0 d cp (n ∙ ra.same_length) (omega arith) in
          let same = span-length ((sub_raw a b 0).0) p (n ∙ ra.same_length) in
          let w' =
            ap
              (λ t.
                value ((add_raw ((sub_raw a b 0).0) p 0).0)
                + t * (add_raw ((sub_raw a b 0).0) p 0).1)
              (sym same)
            ∙ w in
          let (is, less) =
            wrapped _ _ _ _ _ _ _ _ v' f w' g
              (omega (arith, value-lt _ e, span-length _ p (m ∙ n ∙ ra.same_length)))
              (omega (arith, value-lt _ d, same)) ra.below rb.below (value-lt p cp) one in
          rw over (
            record {
              are_chunks = e;
              same_length = m ∙ n ∙ ra.same_length;
              below = omega (arith, is, less);
            },
            is ∙ sym (mod-eq_of_lt (omega (arith, less, ra.below, rb.below))),
          )
      | inr under ↦
          let (w, less) = unwrapped _ _ _ _ _ _ v' under ra.below in
          rw under (
            record { are_chunks = d; same_length = n ∙ ra.same_length; below = less },
            sym (
                ap (λ k. k % value p) (sym w)
                ∙ mod_once _ _ (omega arith) (omega (arith, less))
                ∙ omega arith),
          )
    ])
