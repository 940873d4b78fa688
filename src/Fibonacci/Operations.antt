-- ===== src/Fibonacci/Operations.antt =====
-- The operations of the heap in src/util/FibbonacciHeap.cpp: they keep its invariant, and what they
-- do to the items that it holds.
use mathlib.Core.List.{Permᴰ}
use komozoievm.Fibonacci.Node.{Priorities, IsOrder, Tree, leaf}
use komozoievm.Fibonacci.{Heap, empty_heap, log2, add_root, collect, consolidate, insert}
use komozoievm.Fibonacci.Shape.{
  total, total-append, items, all_items, all_size, IsSound, IsSound-leaf, items-children, double,
}
use komozoievm.Fibonacci.Merge.{kept, power_at, InSlots, settle_all-slots}
use komozoievm.Fibonacci.Roots.{
  log2-bound, no_roots, IsLed, add_root-IsLed, collect-Collected, add_root-items,
}
use komozoievm.Common.{
  ℕ, zero, suc, ◌+◌, ◌^◌, ◌<◌, ◌≡◌, refl, ap, subst, ◌∙◌, List, [], ◌∷◌, Option, none, some, All,
  length, replicate, ◌==◌, arith, Bool-cases, inl, inr, length-replicate, ==→eq,
}

kept-replicate : {X : Type 0} (n : ℕ) → kept (replicate {A = Option X} n none) ≡ []
kept-replicate zero = refl
kept-replicate {X} (suc n) = kept-replicate {X = X} n

InSlots-replicate :
    (o : Priorities) (ord : IsOrder o) (A : Type 0) (n k : ℕ)
    → InSlots o ord {A = A} k (replicate {A = Option (Tree A o.P)} n none)
unfolding InSlots
InSlots-replicate o ord A zero k = tt
InSlots-replicate o ord A (suc n) k = InSlots-replicate o ord A n (suc k)

module _ (o : Priorities) (ord : IsOrder o) {A : Type 0} where
  abbrev pub heap_items : Heap A o.P → List (A × o.P)
  heap_items h = all_items h.roots

  -- The trees are sound, `min` is right, and `count` is the number of elements.
  pub record IsValid (h : Heap A o.P) : Type 0 where
    pub is_led : IsLed o ord h
    pub counted : all_size h.roots ≡ h.count

  pub same_everywhere :
      {ts us : List (Tree A o.P)} (Q : Tree A o.P → Type 0) → Permᴰ ts us → All Q ts → All Q us
  same_everywhere Q Permᴰ.nil a = tt
  same_everywhere Q (Permᴰ.cons e p) (x, a) = (subst Q e x, same_everywhere Q p a)
  same_everywhere Q (Permᴰ.swap e g) (x, (y, a)) = (subst Q g y, (subst Q e x, a))
  same_everywhere Q (Permᴰ.trans p q) a = same_everywhere Q q (same_everywhere Q p a)

  pub total_all :
      (f : A × o.P → ℕ) (t : Tree A o.P) (ts : List (Tree A o.P))
      → total f (all_items (t ∷ ts)) ≡ total f (items t) + total f (all_items ts)
  total_all f t ts = total-append f (items t) (all_items ts)

  pub same_total :
      {ts us : List (Tree A o.P)} (f : A × o.P → ℕ)
      → Permᴰ ts us
      → total f (all_items ts) ≡ total f (all_items us)
  same_total f Permᴰ.nil = refl
  same_total f (Permᴰ.cons {a} {b} {l₁} {l₂} e p) =
      omega
        (arith, total_all f a l₁, total_all f b l₂, same_total f p, ap (λ t. total f (items t)) e)
  same_total f (Permᴰ.swap {a} {b} {a'} {b'} {l} e g) = omega (
    arith,
    total_all f a (b ∷ l),
    total_all f b l,
    total_all f a' (b' ∷ l),
    total_all f b' l,
    ap (λ t. total f (items t)) e,
    ap (λ t. total f (items t)) g,
  )
  same_total f (Permᴰ.trans p q) = same_total f p ∙ same_total f q

  pub no_elements : (ts : List (Tree A o.P)) → all_size ts ≡ 0 → ts ≡ []
  no_elements [] h = refl
  no_elements (t ∷ ts) h =
      absurd (
        omega
          (arith, h, total_all (λ x. 1) t ts, ap (λ xs. total (λ x. 1) xs) (items-children o t)))

  abbrev bare : Heap A o.P → Heap A o.P
  bare h = record h { roots = []; min = none }

  -- A consolidation of sound roots that `count` counts, with a null `min`: the heap is valid
  -- behind it, and holds the same items.
  pub consolidate-IsValid :
      (h : Heap A o.P)
      → All (IsSound o) h.roots
      → h.min ≡ none
      → all_size h.roots ≡ h.count
      → (h' : Heap A o.P) × (consolidate o h ≡ some h')
        × IsValid h'
        × (h'.count ≡ h.count)
        × ((f : A × o.P → ℕ) → total f (heap_items h') ≡ total f (heap_items h))
  unfolding consolidate
  consolidate-IsValid h s m c = elim (Bool-cases (h.count == 0)) [
    | inl empty ↦
        let none_left : h.roots ≡ [] = no_elements h.roots (c ∙ ==→eq _ _ empty) in
        (
          h,
          rw empty refl,
          record { is_led = record { sound = s; led = rw (none_left, m) no_roots }; counted = c },
          refl,
          λ f. refl,
        )
    | inr full ↦
        let n : ℕ = log2 h.count h.count + 2 in
        let nothing_kept : all_items (kept (replicate {A = Option (Tree A o.P)} n none)) ≡ [] =
          ap all_items (kept-replicate n) in
        let enough : all_size h.roots + all_size (kept (replicate {A = Option (Tree A o.P)} n none))
            < 2 ^ length (replicate {A = Option (Tree A o.P)} n none) =
          rw (nothing_kept, length-replicate {A = Option (Tree A o.P)} n none)
            (omega (
              arith,
              c,
              log2-bound h.count h.count (omega arith),
              double (log2 h.count h.count + 1),
              power_at (log2 h.count h.count + 2) (log2 h.count h.count + 1 + 1) (omega arith),
            )) in
        let (aux', runs, slots, same) =
          settle_all-slots o ord h.roots (replicate n none) s (InSlots-replicate o ord A n 0)
            enough in
        let r =
          collect-Collected o ord 0 aux' (bare h) slots (record { sound = tt; led = no_roots }) in
        let items_same : (f : A × o.P → ℕ)
            → total f (heap_items (collect o aux' (bare h))) ≡ total f (heap_items h) =
          λ f. omega (arith, r.same_items f, same f, ap (λ xs. total f xs) nothing_kept) in
        (
          collect o aux' (bare h),
          rw (full, runs) refl,
          record { is_led = r.led; counted = omega (arith, items_same (λ x. 1), c, r.same_count) },
          r.same_count,
          items_same,
        )
  ]

  -- Where the priorities are in a strict order, an insertion into a valid heap gives a valid heap,
  -- which has one item more.
  pub insert-IsValid :
      (x : A) (p : o.P) (h : Heap A o.P)
      → IsValid h
      → IsValid (insert o x p h)
        × ((f : A × o.P → ℕ)
            → total f (heap_items (insert o x p h)) ≡ f (x, p) + total f (heap_items h))
  unfolding insert
  insert-IsValid x p h v = (
    record {
      is_led = record { sound = l.sound; led = l.led };
      counted = omega (arith, same (λ z. 1), v.counted);
    },
    same,
  )
    where
      l : IsLed o ord (add_root o (leaf x p) h)
      l = add_root-IsLed o ord (leaf x p) h (IsSound-leaf o x p) v.is_led

      same :
          (f : A × o.P → ℕ)
          → total f (heap_items (add_root o (leaf x p) h)) ≡ f (x, p) + total f (heap_items h)
      same f = omega (
        arith,
        add_root-items o ord f (leaf x p) h,
        ap (λ xs. total f xs) (items-children o (leaf x p)),
      )

  pub empty_heap-IsValid : IsValid empty_heap
  empty_heap-IsValid = record { is_led = record { sound = tt; led = no_roots }; counted = refl }
