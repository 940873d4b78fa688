-- ===== src/Fibonacci/Removal.antt =====
-- `deleteMin` of src/util/FibbonacciHeap.cpp, on every branch.
use mathlib.Core.List.Permᴰ
use mathlib.Core.List.{Permᴰ}
use komozoievm.Fibonacci.Node.{
  Priorities, IsOrder, Tree, node, Ring, nil, link, element, priority, children,
}
use komozoievm.Fibonacci.{Heap, nothing_there, deleted, get_min, hand_out, delete_root, delete_min}
use komozoievm.Fibonacci.Shape.{
  total, All-append, items, ring_items, all_items, all_size, IsSound, IsSoundRing, IsSound-children,
  items-children,
}
use komozoievm.Fibonacci.Roots.{get_elem?-before, LeastAt, no_roots, least_at, all_items-append}
use komozoievm.Common.{
  ℕ, zero, suc, ◌+◌, ◌-◌, ◌≡◌, refl, sym, ap, subst, List, [], ◌∷◌, ◌++◌, Option, none, some, false,
  All, get_elem?, arith, inl, inr, ◌⊎◌,
}
use komozoievm.Fibonacci.Operations.{
  heap_items, IsValid, same_everywhere, total_all, same_total, consolidate-IsValid,
}

module _ (o : Priorities) (ord : IsOrder o) {A : Type 0} where
  -- What `unorderedRemove` is relied on for: the element in a place that is there is taken out, and
  -- the others stay, in any order.
  abbrev pub TakesOut : (List (Tree A o.P) → ℕ → List (Tree A o.P)) → Type 0
  TakesOut remove =
      (ts : List (Tree A o.P)) (i : ℕ) (t : Tree A o.P)
      → get_elem? ts i ≡ some t
      → Permᴰ (t ∷ remove ts i) ts

  mutual
    unfolding items IsSound

    least_in :
        (p : o.P) (t : Tree A o.P)
        → IsSound o t
        → o.less (priority t) p ≡ false
        → All (λ (z : A × o.P). o.less z.1 p ≡ false) (items t)
    least_in p (node x q d cs) s low = (low, least_in_ring p q cs low s.1)

    least_in_ring :
        (p q : o.P) (cs : Ring A o.P)
        → o.less q p ≡ false
        → IsSoundRing o q cs
        → All (λ (z : A × o.P). o.less z.1 p ≡ false) (ring_items cs)
    least_in_ring p q nil low r = tt
    least_in_ring p q (link t cs) low (above, s, r) =
        All-append _ (items t) (ring_items cs)
          (least_in p t s (ord.trans p q (priority t) low above)) (least_in_ring p q cs low r)

  least_everywhere :
      (p : o.P) (ts : List (Tree A o.P))
      → All (IsSound o) ts
      → All (λ t. o.less (priority t) p ≡ false) ts
      → All (λ (z : A × o.P). o.less z.1 p ≡ false) (all_items ts)
  least_everywhere p [] s low = tt
  least_everywhere p (t ∷ ts) (s, more) (low, lows) =
      All-append _ (items t) (all_items ts) (least_in p t s low) (least_everywhere p ts more lows)

  -- What a removal leaves of a heap: the item that was least, and a valid heap of the others.
  pub record Removed (x : A) (p : o.P) (h h' : Heap A o.P) : Type 0 where
    pub valid : IsValid o ord h'
    pub one_less : h'.count + 1 ≡ h.count
    pub same_items :
        (f : A × o.P → ℕ) → total f (heap_items o ord h) ≡ f (x, p) + total f (heap_items o ord h')
    pub least : All (λ (z : A × o.P). o.less z.1 p ≡ false) (heap_items o ord h)
    pub was_min : get_min o h ≡ some x

  All-get_elem? :
      (Q : Tree A o.P → Type 0) (ts : List (Tree A o.P)) (i : ℕ) {t : Tree A o.P}
      → All Q ts
      → get_elem? ts i ≡ some t
      → Q t
  All-get_elem? Q [] i a h = absurd (ground arith)
  All-get_elem? Q (t ∷ ts) zero (q, a) h = subst Q (ground arith) q
  All-get_elem? Q (t ∷ ts) (suc i) (q, a) h = All-get_elem? Q ts i a h

  module _ (remove : List (Tree A o.P) → ℕ → List (Tree A o.P)) (takes : TakesOut remove) where
    -- The roots that `consolidate` is handed.
    abbrev left : List (Tree A o.P) → ℕ → Tree A o.P → List (Tree A o.P)
    left roots i m = remove (roots ++ children m) i

    left-IsSound :
        (roots : List (Tree A o.P)) (i : ℕ) (m : Tree A o.P)
        → get_elem? roots i ≡ some m
        → All (IsSound o) roots
        → All (IsSound o) (left roots i m)
    left-IsSound roots i m e s =
        (same_everywhere o ord (IsSound o)
          (Permᴰ.symm
            (takes (roots ++ children m) i m (get_elem?-before o ord roots (children m) i e)))
          (All-append _ roots (children m) s
            (IsSound-children o m (All-get_elem? (IsSound o) roots i s e)))).1

    total-left :
        (f : A × o.P → ℕ) (roots : List (Tree A o.P)) (i : ℕ) (m : Tree A o.P)
        → get_elem? roots i ≡ some m
        → total f (all_items roots)
          ≡ f (element m, priority m) + total f (all_items (left roots i m))
    total-left f roots i m e = omega (
      arith,
      same_total o ord f
          (takes (roots ++ children m) i m (get_elem?-before o ord roots (children m) i e)),
      total_all o ord f m (left roots i m),
      all_items-append o ord f roots (children m),
      ap (λ xs. total f xs) (items-children o m),
    )

    -- What `deleteMin` may do.
    Outcome : Heap A o.P → Type 0
    Outcome h =
        ((h.count ≡ 0) × (delete_min o remove h ≡ nothing_there))
        ⊎ ((x : A) × (p : o.P) × (h' : Heap A o.P) × (delete_min o remove h ≡ deleted x p h')
            × Removed x p h h')

    delete_min-Outcome :
        (roots : List (Tree A o.P)) (q : Option ℕ) (n : ℕ)
        → All (IsSound o) roots
        → all_size roots ≡ n
        → LeastAt o ord roots q
        → Outcome (record { roots = roots; min = q; count = n })
    unfolding Outcome delete_min delete_root hand_out get_min
    delete_min-Outcome _ _ n s c no_roots = inl (sym c, refl)
    delete_min-Outcome _ _ n s c (least_at roots i m e all) =
        let size_left : all_size (left roots i m) + 1 ≡ n =
          omega (arith, total-left (λ z. 1) roots i m e, c) in
        let (h', runs, valid, count, same) =
          consolidate-IsValid o ord (record { roots = left roots i m; min = none; count = n - 1 })
            (left-IsSound roots i m e s) refl (omega (arith, size_left)) in
        inr (
          element m,
          priority m,
          h',
          rw (e, delete_root, runs, hand_out) refl,
          record {
            valid = valid;
            one_less = omega (arith, count, size_left);
            same_items = λ f. omega (arith, same f, total-left f roots i m e);
            least = least_everywhere (priority m) roots s all;
            was_min = rw (e, get_min) refl;
          },
        )

  -- Where the priorities are in a strict order and `unorderedRemove` takes the item in its place
  -- out: a valid heap either is empty, and `deleteMin` leaves it; or `deleteMin` reads no index
  -- outside its slots and takes out an item that no other is below, which is the one that `getMin`
  -- gives.
  pub delete_min-Removed :
      (remove : List (Tree A o.P) → ℕ → List (Tree A o.P))
      → TakesOut remove
      → (h : Heap A o.P) → IsValid o ord h
      → ((h.count ≡ 0) × (delete_min o remove h ≡ nothing_there))
        ⊎ ((x : A) × (p : o.P) × (h' : Heap A o.P) × (delete_min o remove h ≡ deleted x p h')
            × Removed x p h h')
  unfolding Outcome
  delete_min-Removed remove takes h v =
      delete_min-Outcome remove takes h.roots h.min h.count v.is_led.sound v.counted v.is_led.led
