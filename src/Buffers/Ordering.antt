-- ===== src/Buffers/Ordering.antt =====
-- The comparisons of src/util/Bytes.cpp order the contents as a dictionary does.
use komozoievm.Buffers.{Comparison, below, same, above, memcmp, greater, equal, less}
use komozoievm.Common.{
  ℕ, suc, ◌≡◌, refl, sym, ap, ◌∙◌, ◌⊎◌, inl, inr, List, [], ◌∷◌, Bool, true, false, Option, none,
  some, ltb, ◌==◌, ◌&&◌, if◌then◌else◌, length, arith, Bool-cases, ==→eq, subst,
}

-- One list stands behind the other in a dictionary.
abbrev pub behind : List ℕ → List ℕ → Bool
behind [] ys = false
behind (x ∷ xs) [] = true
behind (x ∷ xs) (y ∷ ys) = if ltb x y then false else if ltb y x then true else behind xs ys

abbrev pub same_bytes : List ℕ → List ℕ → Bool
same_bytes [] [] = true
same_bytes [] (y ∷ ys) = false
same_bytes (x ∷ xs) [] = false
same_bytes (x ∷ xs) (y ∷ ys) = x == y && same_bytes xs ys

-- What `operator>` makes of the first bytes.
abbrev by_length : Comparison → List ℕ → List ℕ → Bool
by_length c xs ys = elim c [ same ↦ ltb (length ys) (length xs) | above ↦ true | below ↦ false ]

least : ℕ → ℕ → ℕ
least m n = if ltb m n then m else n

least_suc : (m n : ℕ) → least (suc m) (suc n) ≡ suc (least m n)
unfolding least
least_suc m n = ground arith

least_zero : (m : ℕ) → least m 0 ≡ 0
unfolding least
least_zero m = ground arith

zero_least : (n : ℕ) → least 0 n ≡ 0
unfolding least
zero_least n = ground arith

by_length_suc :
    (c : Comparison) (x y : ℕ) (xs ys : List ℕ) → by_length c (x ∷ xs) (y ∷ ys) ≡ by_length c xs ys
by_length_suc same x y xs ys = ground arith
by_length_suc above x y xs ys = refl
by_length_suc below x y xs ys = refl

behind_lem :
    (xs ys : List ℕ) → by_length (memcmp (least (length xs) (length ys)) xs ys) xs ys ≡ behind xs ys
unfolding memcmp
behind_lem [] ys =
    ap (λ n. by_length (memcmp n [] ys) [] ys) (zero_least (length ys)) ∙ ground arith
behind_lem (x ∷ xs) [] =
    ap (λ n. by_length (memcmp n (x ∷ xs) []) (x ∷ xs) []) (least_zero (suc (length xs)))
    ∙ ground arith
behind_lem (x ∷ xs) (y ∷ ys) =
    ap (λ n. by_length (memcmp n (x ∷ xs) (y ∷ ys)) (x ∷ xs) (y ∷ ys))
      (least_suc (length xs) (length ys))
    ∙ by_length_suc _ x y xs ys
    ∙ at (ltb x y) (ltb y x) (behind_lem xs ys)
  where
    at :
        (b c : Bool)
        → by_length (memcmp (least (length xs) (length ys)) xs ys) xs ys ≡ behind xs ys
        → by_length
            (if b then below else if c then above else memcmp (least (length xs) (length ys)) xs ys)
            xs
            ys
          ≡ (if b then false else if c then true else behind xs ys)
    at true c h = refl
    at false true h = refl
    at false false h = h

same_bytes_self : (xs : List ℕ) → same_bytes xs xs ≡ true
same_bytes_self [] = refl
same_bytes_self (x ∷ xs) = ground (arith, same_bytes_self xs)

behind_self : (xs : List ℕ) → behind xs xs ≡ false
behind_self [] = refl
behind_self (x ∷ xs) = ground (arith, behind_self xs)

abbrev is_same : Comparison → Bool
is_same c = elim c [ same ↦ true | above ↦ false | below ↦ false ]

same_lem :
    (xs ys : List ℕ)
    → (if length xs == length ys then is_same (memcmp (length xs) xs ys) else false)
      ≡ same_bytes xs ys
unfolding memcmp
same_lem [] [] = refl
same_lem [] (y ∷ ys) = ground arith
same_lem (x ∷ xs) [] = ground arith
same_lem (x ∷ xs) (y ∷ ys) =
    ap
      (λ l.
        if l
        then is_same
            (if ltb x y then below else if ltb y x then above else memcmp (length xs) xs ys)
        else false)
      sucs
    ∙ at (length xs == length ys) (ltb x y) (ltb y x) refl refl (same_lem xs ys)
  where
    sucs : (suc (length xs) == suc (length ys)) ≡ (length xs == length ys)
    sucs = ground arith

    at :
        (l b c : Bool)
        → ltb x y ≡ b
        → ltb y x ≡ c
        → (if l then is_same (memcmp (length xs) xs ys) else false) ≡ same_bytes xs ys
        → (if l
            then is_same (if b then below else if c then above else memcmp (length xs) xs ys)
            else false)
          ≡ ((x == y) && same_bytes xs ys)
    at l true c e f h = ground arith
    at l false true e f h = ground arith
    at l false false e f h = let is : (x == y) ≡ true = ground arith in rw is h

-- What `operator>` and `operator==` should say of two pointers to contents.
abbrev pub behind_of : Option (List ℕ) → Option (List ℕ) → Bool
behind_of (some xs) (some ys) = behind xs ys
behind_of _ _ = false

abbrev pub same_of : Option (List ℕ) → Option (List ℕ) → Bool
same_of none none = true
same_of (some xs) (some ys) = same_bytes xs ys
same_of _ _ = false

abbrev pub read : (ℕ → List ℕ) → Option ℕ → Option (List ℕ)
read contents none = none
read contents (some k) = some (contents k)

greater_lem :
    (contents : ℕ → List ℕ) (p q : Option ℕ)
    → greater contents p q ≡ behind_of (read contents p) (read contents q)
unfolding greater least
greater_lem contents none q = refl
greater_lem contents (some a) none = refl
greater_lem contents (some a) (some b) = elim (Bool-cases (b == a)) [
  | inl one ↦ rw one (
      sym (
        subst (λ k. behind (contents a) (contents k) ≡ false) (sym (==→eq b a one))
          (behind_self (contents a))))
  | inr two ↦ rw two (behind_lem (contents a) (contents b))
]

equal_lem :
    (contents : ℕ → List ℕ) (p q : Option ℕ)
    → equal contents p q ≡ same_of (read contents p) (read contents q)
unfolding equal
equal_lem contents none none = refl
equal_lem contents none (some b) = refl
equal_lem contents (some a) none = refl
equal_lem contents (some a) (some b) = elim (Bool-cases (a == b)) [
  | inl one ↦ rw one (
      sym (
        subst (λ k. same_bytes (contents a) (contents k) ≡ true) (==→eq a b one)
          (same_bytes_self (contents a))))
  | inr two ↦ rw two (same_lem (contents a) (contents b))
]

behind_trans : (xs ys zs : List ℕ) → behind xs ys ≡ true → behind ys zs ≡ true → behind xs zs ≡ true
behind_trans [] ys zs h k = h
behind_trans (x ∷ xs) [] zs h k = absurd (ground arith)
behind_trans (x ∷ xs) (y ∷ ys) [] h k = refl
behind_trans (x ∷ xs) (y ∷ ys) (z ∷ zs) h k = ground (arith, behind_trans xs ys zs)

-- Exactly one of three tests holds.
abbrev pub ExactlyOne : Bool → Bool → Bool → Type 0
ExactlyOne a b c =
    ((a ≡ true) × (b ≡ false) × (c ≡ false))
    ⊎ ((a ≡ false) × (b ≡ true) × (c ≡ false))
    ⊎ ((a ≡ false) × (b ≡ false) × (c ≡ true))

one_of_three : (xs ys : List ℕ) → ExactlyOne (behind xs ys) (same_bytes xs ys) (behind ys xs)
one_of_three [] [] = inr (inl (refl, refl, refl))
one_of_three [] (y ∷ ys) = inr (inr (refl, refl, refl))
one_of_three (x ∷ xs) [] = inl (refl, refl, refl)
one_of_three (x ∷ xs) (y ∷ ys) = ground (arith, one_of_three xs ys)

-- `operator>` says which of two contents stands behind the other in a dictionary, and
-- `operator==` whether they are the same, wherever they are stored; a null pointer stands behind and
-- before nothing, and is the same as another. `operator>` is transitive, and of two contents that
-- are not null exactly one is greater, or they are equal.
pub comparisons_lem :
    (contents : ℕ → List ℕ) (p q r : Option ℕ)
    → (greater contents p q ≡ behind_of (read contents p) (read contents q))
      × (equal contents p q ≡ same_of (read contents p) (read contents q))
      × (greater contents p q ≡ true → greater contents q r ≡ true → greater contents p r ≡ true)
      × ((a b : ℕ)
          → ExactlyOne
              (greater contents (some a) (some b))
              (equal contents (some a) (some b))
              (less contents (some a) (some b)))
unfolding less
comparisons_lem contents p q r = (
  greater_lem contents p q,
  equal_lem contents p q,
  λ h k.
      greater_lem contents p r
      ∙ chain (read contents p) (read contents q) (read contents r)
          (sym (greater_lem contents p q) ∙ h) (sym (greater_lem contents q r) ∙ k),
  λ a b.
      rw
        (
          greater_lem contents (some a) (some b),
          equal_lem contents (some a) (some b),
          greater_lem contents (some b) (some a),
        )
        (one_of_three (contents a) (contents b)),
)
  where
    chain :
        (x y z : Option (List ℕ))
        → behind_of x y ≡ true
        → behind_of y z ≡ true
        → behind_of x z ≡ true
    chain none y z h k = absurd (ground arith)
    chain (some x) none z h k = absurd (ground arith)
    chain (some x) (some y) none h k = absurd (ground arith)
    chain (some x) (some y) (some z) h k = behind_trans x y z h k
