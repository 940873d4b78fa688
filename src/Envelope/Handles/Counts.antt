-- ===== src/Envelope/Handles/Counts.antt =====
-- The counts of references of src/ethereum/EthereumTransaction.h against the handles.
use komozoievm.Envelope.Handles.{
  Store, points_at, pointer, differ, release, acquire, new_handle, copy_handle, move_handle,
  assign_copy, assign_move, destroy,
}
use komozoievm.Common.{
  ℕ, zero, suc, ◌+◌, ◌-◌, ◌%◌, ◌≤◌, ◌<◌, ◌≡◌, refl, sym, ap, ◌∙◌, List, [], ◌∷◌, ◌++◌, Bool, true,
  false, Option, none, some, ◌==◌, if◌then◌else◌, ◌&&◌, ◌||◌, set, length, length-set, arith,
  Bool-cases, inl, inr, ◌⊎◌,
}
use native.Mathlib.Nat.{mod-eq_of_lt, add-mod_right}

unfoldable pub one_if : Bool → ℕ
one_if true = 1
one_if false = 0

-- How many handles point at data `k`.
unfoldable pub holders : ℕ → List (Option ℕ) → ℕ
unfolding points_at one_if
holders k [] = 0
holders k (o ∷ os) = one_if (points_at k o) + holders k os

-- Every count is the number of the handles, and no handle points at data that were freed.
pub record IsCounted (s : Store) : Type 0 where
  pub counted : (k : ℕ) → s.refs k ≡ holders k s.handles
  pub alive : (k : ℕ) → s.freed k ≡ true → holders k s.handles ≡ 0

pub holders-set :
    (k : ℕ) (os : List (Option ℕ)) (i : ℕ) (o : Option ℕ)
    → i < length os
    → holders k (set os i o) + one_if (points_at k (pointer os i))
      ≡ holders k os + one_if (points_at k o)
unfolding holders pointer
holders-set k [] i o h = absurd (omega arith)
holders-set k (p ∷ os) zero o h = omega arith
holders-set k (p ∷ os) (suc i) o h = omega (arith, holders-set k os i o (omega arith))

pub holders-pointer :
    (k : ℕ) (os : List (Option ℕ)) (i : ℕ) → one_if (points_at k (pointer os i)) ≤ holders k os
unfolding holders pointer one_if points_at
holders-pointer k [] i = omega arith
holders-pointer k (p ∷ os) zero = omega arith
holders-pointer k (p ∷ os) (suc i) = omega (arith, holders-pointer k os i)

holders-append :
    (k : ℕ) (os : List (Option ℕ)) (o : Option ℕ)
    → holders k (os ++ o ∷ []) ≡ holders k os + one_if (points_at k o)
unfolding holders
holders-append k [] o = omega arith
holders-append k (p ∷ os) o = omega (arith, holders-append k os o)

holders-le : (k : ℕ) (os : List (Option ℕ)) → holders k os ≤ length os
unfolding holders one_if
holders-le k [] = omega arith
holders-le k (p ∷ os) = ground (arith, holders-le k os)

not_both :
    (k : ℕ) (o p : Option ℕ)
    → differ o p ≡ true
    → one_if (points_at k o) + one_if (points_at k p) ≤ 1
unfolding differ points_at one_if
not_both k none none h = omega arith
not_both k none (some d) h = ground arith
not_both k (some d) none h = ground arith
not_both k (some c) (some d) h = ground arith

added : (w : ℕ) (b : Bool) (r : ℕ) → r < w - 1 → (if b then (r + 1) % w else r) ≡ r + one_if b
unfolding one_if
added w true r h = mod-eq_of_lt (omega (arith, h))
added w false r h = omega arith

taken :
    (w : ℕ) (b : Bool) (r : ℕ)
    → r < w
    → one_if b ≤ r
    → (if b then (r + w - 1) % w else r) + one_if b ≡ r
unfolding one_if
taken w true r h k =
    let shifted : r + w - 1 ≡ r - 1 + w = omega (arith, k, h) in
    let small : (r - 1) % w ≡ r - 1 = mod-eq_of_lt (omega (arith, h)) in
    omega (arith, ap (λ n. n % w) shifted, add-mod_right (r - 1) w, small, k)
taken w false r h k = omega arith

pub freed_cases :
    (b p : Bool) (r : ℕ) → b || (p && r == 1) ≡ true → (b ≡ true) ⊎ ((one_if p ≡ 1) × (r ≡ 1))
unfolding one_if
freed_cases true p r h = inl refl
freed_cases false true r h = inr (refl, ground arith)
freed_cases false false r h = absurd (ground arith)

pub holders-none :
    (k : ℕ) (os : List (Option ℕ)) (i : ℕ)
    → i < length os
    → holders k (set os i none) + one_if (points_at k (pointer os i)) ≡ holders k os
unfolding points_at one_if
holders-none k os i h = holders-set k os i none h ∙ omega arith

pub pointer-set :
    (os : List (Option ℕ)) (i j : ℕ) (o : Option ℕ) → pointer os j ≡ o → pointer (set os i o) j ≡ o
unfolding pointer
pointer-set [] i j o e = e
pointer-set (p ∷ os) zero zero o e = refl
pointer-set (p ∷ os) zero (suc j) o e = e
pointer-set (p ∷ os) (suc i) zero o e = e
pointer-set (p ∷ os) (suc i) (suc j) o e = pointer-set os i j o e

itself : (k : ℕ) (o : Option ℕ) → o ≡ some k → one_if (points_at k o) ≡ 1
unfolding points_at one_if
itself k o e = let same : (k == k) ≡ true = ground arith in rw (e, same) refl

module _ (i j : ℕ) (s : Store) (c : IsCounted s) (hi : i < length s.handles)
    (hj : j < length s.handles) (few : length s.handles < s.width - 1) where
  low : (k : ℕ) → s.refs k < s.width - 1
  low k = omega (arith, c.counted k, holders-le k s.handles, few)

  pub copy_handle-IsCounted : IsCounted (copy_handle j s)
  unfolding copy_handle acquire
  copy_handle-IsCounted = record {
    counted = λ k.
        added s.width (points_at k (pointer s.handles j)) (s.refs k) (low k)
        ∙ omega (arith, c.counted k, holders-append k s.handles (pointer s.handles j));
    alive = λ k f. omega (
      arith,
      c.alive k f,
      holders-pointer k s.handles j,
      holders-append k s.handles (pointer s.handles j),
    );
  }

  pub move_handle-IsCounted : IsCounted (move_handle j s)
  unfolding move_handle
  move_handle-IsCounted =
      let moved : (k : ℕ)
          → holders k (set s.handles j none ++ pointer s.handles j ∷ []) ≡ holders k s.handles =
        λ k.
          holders-append k (set s.handles j none) (pointer s.handles j)
          ∙ holders-none k s.handles j hj in
      record { counted = λ k. c.counted k ∙ sym (moved k); alive = λ k f. moved k ∙ c.alive k f }

  pub lowered :
      (k : ℕ)
      → (if points_at k (pointer s.handles i) then (s.refs k + s.width - 1) % s.width else s.refs k)
          + one_if (points_at k (pointer s.handles i))
        ≡ s.refs k
  lowered k =
      taken s.width (points_at k (pointer s.handles i)) (s.refs k) (omega (arith, low k))
        (omega (arith, holders-pointer k s.handles i, c.counted k))

  pub destroy-IsCounted : IsCounted (destroy i s)
  unfolding destroy release
  destroy-IsCounted = record {
    counted = λ k. omega (arith, lowered k, c.counted k, holders-none k s.handles i hi);
    alive = λ k f. elim (freed_cases (s.freed k) (points_at k (pointer s.handles i)) (s.refs k) f) [
      | inl gone ↦ omega (arith, c.alive k gone, holders-none k s.handles i hi)
      | inr (one, last) ↦ omega (arith, one, last, c.counted k, holders-none k s.handles i hi)
    ];
  }

  pub assign_copy-IsCounted : IsCounted (assign_copy i j s)
  unfolding assign_copy acquire release
  assign_copy-IsCounted =
      let old = pointer s.handles i in
      let new = pointer s.handles j in
      let shift = λ (k : ℕ). holders-set k s.handles i new hi in
      elim (Bool-cases (differ old new)) [
        | inl other ↦ rw other (record {
          counted = λ k.
              added s.width (points_at k new) _ (omega (arith, lowered k, low k))
              ∙ omega (arith, lowered k, c.counted k, shift k);
          alive = λ k f. elim (freed_cases (s.freed k) (points_at k old) (s.refs k) f) [
            | inl gone ↦ omega (arith, c.alive k gone, shift k, holders-pointer k s.handles j)
            | inr (one, last) ↦
                omega (arith, one, last, c.counted k, shift k, not_both k old new other)
          ];
        })
        | inr same ↦ rw same c
      ]

set_to :
    (k l : ℕ) (s : Store)
    → holders k s.handles ≡ 0
    → s.refs l ≡ holders l s.handles
    → (if points_at l (some k) then 1 else s.refs l)
      ≡ holders l s.handles + one_if (points_at l (some k))
unfolding points_at one_if
set_to k l s fresh e = elim (Bool-cases (l == k)) [
  | inl same ↦ let is : l ≡ k = ground arith in rw (same, is) (omega (arith, fresh))
  | inr other ↦ rw other (omega (arith, e))
]

still_held :
    (made freed : Bool) (n : ℕ)
    → (freed ≡ true → n ≡ 0)
    → (if made then false else freed) ≡ true
    → n + one_if made ≡ 0
unfolding one_if
still_held true freed n alive f = absurd (ground arith)
still_held false freed n alive f = omega (arith, alive f)

pub new_handle-IsCounted :
    (k : ℕ) (s : Store) → IsCounted s → holders k s.handles ≡ 0 → IsCounted (new_handle k s)
unfolding new_handle
new_handle-IsCounted k s c fresh = record {
  counted = λ l. set_to k l s fresh (c.counted l) ∙ sym (holders-append l s.handles (some k));
  alive = λ l f.
      holders-append l s.handles (some k)
      ∙ still_held (points_at l (some k)) (s.freed l) _ (c.alive l) f;
}

-- The constructors, the assignment that copies and the destructor keep every count the number of
-- the handles and no handle at freed data, where there are fewer handles than the width of
-- the counts less one, the handles named are there, and no handle points at the data that are made.
pub handles-IsCounted :
    (k i j : ℕ) (s : Store)
    → IsCounted s
    → holders k s.handles ≡ 0
    → i < length s.handles
    → j < length s.handles
    → length s.handles < s.width - 1
    → IsCounted (new_handle k s)
      × IsCounted (copy_handle j s)
      × IsCounted (move_handle j s)
      × IsCounted (assign_copy i j s)
      × IsCounted (destroy i s)
handles-IsCounted k i j s c fresh hi hj few = (
  new_handle-IsCounted k s c fresh,
  copy_handle-IsCounted i j s c hi hj few,
  move_handle-IsCounted i j s c hi hj few,
  assign_copy-IsCounted i j s c hi hj few,
  destroy-IsCounted i j s c hi hj few,
)

-- The assignment that moves one handle to data over another with a different pointer leaves the
-- count of the moved data one above the number of the handles, where the counts were right, the
-- handles are there and there are fewer handles than the width less one.
pub assign_move_lost :
    (i j k : ℕ) (s : Store)
    → IsCounted s
    → i < length s.handles
    → j < length s.handles
    → length s.handles < s.width - 1
    → differ (pointer s.handles i) (pointer s.handles j) ≡ true
    → pointer s.handles j ≡ some k
    → (assign_move i j s).refs k ≡ holders k (assign_move i j s).handles + 1
unfolding assign_move acquire release
assign_move_lost i j k s c hi hj few other is =
    let old = pointer s.handles i in
    let new = pointer s.handles j in
    let room : j < length (set s.handles i new) = omega (arith, length-set s.handles i new, hj) in
    let down = lowered i j s c hi hj few k in
    let cleared = holders-none k (set s.handles i new) j room in
    let kept = ap (λ o. one_if (points_at k o)) (pointer-set s.handles i j new refl) in
    rw other (
      added s.width (points_at k new) _ (omega (arith, down, low i j s c hi hj few k))
      ∙ omega (
        arith,
        down,
        cleared,
        kept,
        holders-set k s.handles i new hi,
        c.counted k,
        itself k new is,
      ))
