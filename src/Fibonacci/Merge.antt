-- ===== src/Fibonacci/Merge.antt =====
-- The slots of `consolidate`: what one root does to them, and all of them. No index passes the end
-- while the slots are enough for the number of elements.
use komozoievm.Fibonacci.Node.{Priorities, IsOrder, Tree, priority, degree, less_than}
use komozoievm.Fibonacci.{joined, settle, settle_from, settle_all}
use komozoievm.Fibonacci.Shape.{
  total, total-append, double, items, all_items, size, all_size, IsSound, IsSound-size,
  total-add_child, IsSound-add_child,
}
use komozoievm.Common.{
  ℕ, zero, suc, ◌+◌, ◌^◌, ◌≤◌, ◌<◌, ◌≡◌, refl, sym, ap, ◌∙◌, List, [], ◌∷◌, Option, none, some, All,
  length, arith, Bool-cases, inl, inr,
}

abbrev pub kept : {X : Type 0} → List (Option X) → List X
kept [] = []
kept (none ∷ aux) = kept aux
kept (some t ∷ aux) = t ∷ kept aux

pub power_at : (m n : ℕ) → m ≡ n → 2 ^ m ≡ 2 ^ n
power_at m n h = ap (λ (k : ℕ). 2 ^ k) h

power_grows : (d k : ℕ) → 2 ^ k ≤ 2 ^ (k + d)
power_grows zero k = omega (arith, power_at (k + 0) k (omega arith))
power_grows (suc d) k =
    omega (arith, power_grows d k, double (k + d), power_at (k + suc d) (k + d + 1) (omega arith))

module _ (o : Priorities) (ord : IsOrder o) {A : Type 0} where
  -- The tree in a slot is sound, and of the slot's degree.
  unfoldable pub InSlots : ℕ → List (Option (Tree A o.P)) → Type 0
  InSlots k [] = Unit
  InSlots k (none ∷ aux) = InSlots (suc k) aux
  InSlots k (some t ∷ aux) = IsSound o t × (degree t ≡ k) × InSlots (suc k) aux

  -- The trees of some slots.
  abbrev slot_items : List (Option (Tree A o.P)) → List (A × o.P)
  slot_items aux = all_items (kept aux)

  abbrev slot_size : List (Option (Tree A o.P)) → ℕ
  slot_size aux = all_size (kept aux)

  -- What a tree does to slots that are enough.
  record Settled (k : ℕ) (x : Tree A o.P) (aux aux' : List (Option (Tree A o.P))) : Type 0 where
    slots : InSlots k aux'
    same_length : length aux' ≡ length aux
    same_items :
        (f : A × o.P → ℕ) → total f (slot_items aux') ≡ total f (items x) + total f (slot_items aux)

  joined-IsSound :
      (x y : Tree A o.P)
      → IsSound o x
      → IsSound o y
      → degree y ≡ degree x
      → IsSound o (joined o x y) × (degree (joined o x y) ≡ suc (degree x))
  unfolding joined
  joined-IsSound x y s t same = elim (Bool-cases (less_than o y x)) [
    | inl below ↦ rw below (
        let (u, v) =
          IsSound-add_child o y x t s (sym same) (ord.asym (priority y) (priority x) below) in
        (u, v ∙ ap suc same))
    | inr above ↦ rw above (IsSound-add_child o x y s t same above)
  ]

  total-joined :
      (f : A × o.P → ℕ) (x y : Tree A o.P)
      → total f (items (joined o x y)) ≡ total f (items x) + total f (items y)
  unfolding joined
  total-joined f x y = elim (Bool-cases (less_than o y x)) [
    | inl below ↦ rw below (omega (arith, total-add_child o f y x))
    | inr above ↦ rw above (total-add_child o f x y)
  ]

  settle-Settled :
      (k : ℕ) (x : Tree A o.P) (aux : List (Option (Tree A o.P)))
      → IsSound o x
      → degree x ≡ k
      → InSlots k aux
      → size x + slot_size aux < 2 ^ (k + length aux)
      → (aux' : List (Option (Tree A o.P))) × (settle o x aux ≡ some aux') × Settled k x aux aux'
  unfolding settle InSlots
  settle-Settled k x [] s d slots fits =
      absurd (
        omega
          (arith, IsSound-size o x s, ap (λ (n : ℕ). 2 ^ n) d, power_at (k + 0) k (omega arith)))
  settle-Settled k x (none ∷ aux) s d slots fits = (
    some x ∷ aux,
    refl,
    record {
      slots = (s, d, slots);
      same_length = refl;
      same_items = λ f. total-append f (items x) (slot_items aux);
    },
  )
  settle-Settled k x (some y ∷ aux) s d (t, e, slots) fits =
      let (u, v) = joined-IsSound x y s t (e ∙ sym d) in
      let (aux', runs, r) = settle-Settled (suc k) (joined o x y) aux u (v ∙ ap suc d) slots (
        omega (
          arith,
          total-joined (λ z. 1) x y,
          total-append (λ z. 1) (items y) (slot_items aux),
          power_at (k + suc (length aux)) (suc k + length aux) (omega arith),
        )) in
      (
        none ∷ aux',
        rw runs refl,
        record {
          slots = r.slots;
          same_length = ap suc r.same_length;
          same_items = λ f. omega (
            arith,
            r.same_items f,
            total-joined f x y,
            total-append f (items y) (slot_items aux),
          );
        },
      )

  settle_from-Settled :
      (d k : ℕ) (x : Tree A o.P) (aux : List (Option (Tree A o.P)))
      → IsSound o x
      → degree x ≡ k + d
      → InSlots k aux
      → size x + slot_size aux < 2 ^ (k + length aux)
      → (aux' : List (Option (Tree A o.P))) × (settle_from o d x aux ≡ some aux')
        × Settled k x aux aux'
  unfolding settle_from InSlots
  settle_from-Settled zero k x aux s d slots fits =
      settle-Settled k x aux s (d ∙ omega arith) slots fits
  settle_from-Settled (suc d) k x [] s e slots fits = absurd (
      omega (
        arith,
        IsSound-size o x s,
        power_at (degree x) (k + suc d) e,
        power_grows (suc d) k,
        power_at (k + 0) k (omega arith),
      ))
  settle_from-Settled (suc d) k x (none ∷ aux) s e slots fits =
      let (aux', runs, r) =
        settle_from-Settled d (suc k) x aux s (e ∙ omega arith) slots
          (omega (arith, power_at (k + suc (length aux)) (suc k + length aux) (omega arith))) in
      (
        none ∷ aux',
        rw runs refl,
        record { slots = r.slots; same_length = ap suc r.same_length; same_items = r.same_items },
      )
  settle_from-Settled (suc d) k x (some y ∷ aux) s e (t, g, slots) fits =
      let (aux', runs, r) = settle_from-Settled d (suc k) x aux s (e ∙ omega arith) slots (
        omega (
          arith,
          total-append (λ z. 1) (items y) (slot_items aux),
          power_at (k + suc (length aux)) (suc k + length aux) (omega arith),
        )) in
      (
        some y ∷ aux',
        rw runs refl,
        record {
          slots = (t, g, r.slots);
          same_length = ap suc r.same_length;
          same_items = λ f. omega (
            arith,
            r.same_items f,
            total-append f (items y) (slot_items aux),
            total-append f (items y) (slot_items aux'),
          );
        },
      )

  -- All roots find a slot; the slots hold their elements and those that were there.
  pub settle_all-slots :
      (roots : List (Tree A o.P)) (aux : List (Option (Tree A o.P)))
      → All (IsSound o) roots
      → InSlots 0 aux
      → all_size roots + slot_size aux < 2 ^ length aux
      → (aux' : List (Option (Tree A o.P))) × (settle_all o roots aux ≡ some aux')
        × InSlots 0 aux'
        × ((f : A × o.P → ℕ)
            → total f (slot_items aux') ≡ total f (all_items roots) + total f (slot_items aux))
  unfolding settle_all
  settle_all-slots [] aux s slots fits = (aux, refl, slots, λ f. omega arith)
  settle_all-slots (x ∷ roots) aux (s, more) slots fits =
      let (aux₁, runs₁, r) = settle_from-Settled (degree x) 0 x aux s (omega arith) slots (
        omega (
          arith,
          total-append (λ z. 1) (items x) (all_items roots),
          power_at (0 + length aux) (length aux) (omega arith),
        )) in
      let (aux₂, runs₂, slots₂, same) = settle_all-slots roots aux₁ more r.slots (
        omega (
          arith,
          r.same_items (λ z. 1),
          total-append (λ z. 1) (items x) (all_items roots),
          power_at (length aux₁) (length aux) r.same_length,
        )) in
      (
        aux₂,
        rw (runs₁, settle_all) runs₂,
        slots₂,
        λ f. omega (arith, same f, r.same_items f, total-append f (items x) (all_items roots)),
      )
