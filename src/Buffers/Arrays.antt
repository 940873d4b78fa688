-- ===== src/Buffers/Arrays.antt =====
-- The class `ConstArray` of src/include/util/ConstArray.h: a length, and memory of its own or a null
-- pointer. `none` stands for a read behind the memory or of a null pointer.
use komozoievm.Common.{
  ℕ, zero, suc, ◌+◌, ◌<◌, ◌≡◌, refl, ap, ◌∙◌, List, [], ◌∷◌, ◌++◌, Option, none, some, length,
  get_elem?, replicate, ltb, if◌then◌else◌, sym, drop, length-append, length-replicate, arith,
}
use mathlib.Core.Path.{ap₂}

pub record ConstArray (A : Type 0) : Type 0 where
  pub size : ℕ
  pub elements : Option (List A)

module _ {A : Type 0} where
  -- The constructor from memory.
  unfoldable pub new_array : Option (List A) → ℕ → ConstArray A
  new_array memory size = record { size = size; elements = memory }

  -- `get`, which warns of an index out of range, and reads there.
  unfoldable pub get : ConstArray A → ℕ → Option A
  get a i = elim (a.elements) [ none ↦ none | some xs ↦ get_elem? xs i ]

  -- A loop over `n` elements from `i` on.
  unfoldable pub read_from : ConstArray A → (n i : ℕ) → Option (List A)
  unfolding get
  read_from a zero i = some []
  read_from a (suc n) i =
      let rest = read_from a n (suc i) in
      elim (get a i) [ none ↦ none | some x ↦ elim rest [ none ↦ none | some xs ↦ some (x ∷ xs) ] ]

  -- The constructor that copies.
  unfoldable pub copy_array : ConstArray A → Option (ConstArray A)
  unfolding read_from
  copy_array other = elim (read_from other other.size 0) [
    | none ↦ none
    | some xs ↦ some (record { size = other.size; elements = some xs })
  ]

  -- The constructor that moves, and what it leaves of the other: its length stays.
  unfoldable pub move_array : ConstArray A → ConstArray A × ConstArray A
  move_array other = (other, record other { elements = none })

  -- `addZeros`, with the element that the constructor without arguments makes.
  unfoldable pub add_zeros : A → ℕ → ConstArray A → Option (ConstArray A)
  unfolding read_from
  add_zeros blank i a = elim (read_from a a.size 0) [
    | none ↦ none
    | some xs ↦ some (record { size = a.size + i; elements = some (xs ++ replicate i blank) })
  ]

  -- The destructor, which reads every element before the memory is freed.
  unfoldable pub destroy_array : ConstArray A → Option (ConstArray A)
  unfolding read_from
  destroy_array a = elim (a.elements) [
    | none ↦ some a
    | some xs ↦ elim (read_from a a.size 0) [
      | none ↦ none
      | some ys ↦ some (record a { elements = none })
    ]
  ]

  -- The assignment of another array that copies.
  unfoldable pub assign_copy_array : ConstArray A → ConstArray A → Option (ConstArray A)
  unfolding destroy_array copy_array
  assign_copy_array a other = elim (destroy_array a) [ none ↦ none | some gone ↦ copy_array other ]

  -- The assignment of another array that moves.
  unfoldable pub assign_move_array :
      ConstArray A → ConstArray A → Option (ConstArray A × ConstArray A)
  unfolding destroy_array move_array
  assign_move_array a other = elim (destroy_array a) [
    | none ↦ none
    | some gone ↦ some (move_array other)
  ]

  -- An array of these elements.
  abbrev pub Holds : ConstArray A → List A → Type 0
  Holds a xs = (a.elements ≡ some xs) × (a.size ≡ length xs)

  elem-drop :
      (xs : List A) (i : ℕ) (y : A) (ys : List A) → drop i xs ≡ y ∷ ys → get_elem? xs i ≡ some y
  elem-drop [] zero y ys h = cc
  elem-drop [] (suc i) y ys h = cc
  elem-drop (x ∷ xs) zero y ys h = cc
  elem-drop (x ∷ xs) (suc i) y ys h = elem-drop xs i y ys h

  drop_next :
      (xs : List A) (i : ℕ) (y : A) (ys : List A) → drop i xs ≡ y ∷ ys → drop (suc i) xs ≡ ys
  drop_next [] zero y ys h = cc
  drop_next [] (suc i) y ys h = cc
  drop_next (x ∷ xs) zero y ys h = cc
  drop_next (x ∷ xs) (suc i) y ys h = drop_next xs i y ys h

  read_rest :
      (a : ConstArray A) (xs ys : List A) (i : ℕ)
      → a.elements ≡ some xs
      → drop i xs ≡ ys
      → read_from a (length ys) i ≡ some ys
  unfolding read_from get
  read_rest a xs [] i e h = refl
  read_rest a xs (y ∷ ys) i e h =
      ap₂
        (λ o r. elim o [ none ↦ none | some x ↦ elim r [ none ↦ none | some zs ↦ some (x ∷ zs) ] ])
        (ap (λ o. elim o [ none ↦ none | some zs ↦ get_elem? zs i ]) e ∙ elem-drop xs i y ys h)
        (read_rest a xs ys (suc i) e (drop_next xs i y ys h))

  read_all : (a : ConstArray A) (xs : List A) → Holds a xs → read_from a a.size 0 ≡ some xs
  read_all a xs (e, n) = ap (λ k. read_from a k 0) n ∙ read_rest a xs xs 0 e refl

  copied :
      (b : ConstArray A) (ys : List A)
      → Holds b ys
      → copy_array b ≡ some (record { size = b.size; elements = some ys })
  unfolding copy_array
  copied b ys h =
      ap
        (λ r. elim r [
          | none ↦ none
          | some xs ↦ some (record { size = b.size; elements = some xs })
        ])
        (read_all b ys h)

  destroyed :
      (a : ConstArray A) (xs : List A)
      → Holds a xs
      → destroy_array a ≡ some (record a { elements = none })
  unfolding destroy_array
  destroyed a xs h =
      ap
        (λ o. elim o [
          | none ↦ some a
          | some zs ↦ elim (read_from a a.size 0) [
            | none ↦ none
            | some ys ↦ some (record a { elements = none })
          ]
        ])
        (h.0)
      ∙ ap (λ r. elim r [ none ↦ none | some ys ↦ some (record a { elements = none }) ])
          (read_all a xs h)

  read_gone :
      (b : ConstArray A) (n : ℕ) → 0 < n → read_from (record b { elements = none }) n 0 ≡ none
  unfolding read_from get
  read_gone b zero h = absurd (omega arith)
  read_gone b (suc n) h = refl

  in_range :
      (xs : List A) (i : ℕ) → get_elem? xs i ≡ (if ltb i (length xs) then get_elem? xs i else none)
  in_range [] i = ground arith
  in_range (x ∷ xs) zero = ground arith
  in_range (x ∷ xs) (suc i) = ground (arith, in_range xs i)

  -- Of arrays that hold their elements: a loop over one reads its elements and nothing outside. `get`
  -- of an index below the size gives the element there, and of any other reads outside the memory. A
  -- copy, by the constructor or the assignment, holds the same elements, `addZeros` appends to them,
  -- and a move hands them over. The array that was moved keeps its size without memory: no element
  -- of it can be read, and if it had any, not copied either.
  pub arrays-Holds :
      (blank : A) (a b : ConstArray A) (xs ys : List A) (k : ℕ)
      → Holds a xs
      → Holds b ys
      → (read_from b b.size 0 ≡ some ys)
        × ((i : ℕ) → get b i ≡ (if ltb i b.size then get_elem? ys i else none))
        × ((c : ConstArray A) × (copy_array b ≡ some c) × Holds c ys)
        × ((c : ConstArray A) × (assign_copy_array a b ≡ some c) × Holds c ys)
        × ((c : ConstArray A) × (add_zeros blank k b ≡ some c) × Holds c (ys ++ replicate k blank))
        × ((c gone : ConstArray A) × (assign_move_array a b ≡ some (c, gone))
            × Holds c ys
            × (gone.size ≡ length ys)
            × ((i : ℕ) → get gone i ≡ none)
            × (0 < length ys → copy_array gone ≡ none))
  unfolding copy_array assign_copy_array add_zeros assign_move_array move_array get
  arrays-Holds blank a b xs ys k ha hb = (
    read_all b ys hb,
    λ i.
        ap (λ o. elim o [ none ↦ none | some zs ↦ get_elem? zs i ]) (hb.0)
        ∙ in_range ys i
        ∙ ap (λ n. if ltb i n then get_elem? ys i else none) (sym (hb.1)),
    (record { size = b.size; elements = some ys }, copied b ys hb, (refl, hb.1)),
    (
      record { size = b.size; elements = some ys },
      ap (λ o. elim o [ none ↦ none | some gone ↦ copy_array b ]) (destroyed a xs ha)
          ∙ copied b ys hb,
      (refl, hb.1),
    ),
    (
      record { size = b.size + k; elements = some (ys ++ replicate k blank) },
      ap
          (λ r. elim r [
            | none ↦ none
            | some zs ↦
                some (record { size = b.size + k; elements = some (zs ++ replicate k blank) })
          ])
          (read_all b ys hb),
      (refl, omega (arith, hb.1, length-append ys (replicate k blank), length-replicate k blank)),
    ),
    (
      b,
      record b { elements = none },
      ap (λ o. elim o [ none ↦ none | some gone ↦ some (move_array b) ]) (destroyed a xs ha),
      hb,
      hb.1,
      λ i. refl,
      λ some_left.
          ap
            (λ r. elim r [
              | none ↦ none
              | some zs ↦ some (record { size = b.size; elements = some zs })
            ])
            (read_gone b b.size (omega (arith, hb.1, some_left))),
    ),
  )
