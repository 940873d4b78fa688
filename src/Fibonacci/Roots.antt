-- ===== src/Fibonacci/Roots.antt =====
-- The root list of the heap in src/util/FibbonacciHeap.cpp: where its `min` points, and what the loop
-- at the end of `consolidate` makes of the slots.
use komozoievm.Fibonacci.Node.{Priorities, IsOrder, Tree, priority, less_than}
use komozoievm.Fibonacci.{Heap, tree_at, next_min, log2, add_root, collect}
use komozoievm.Fibonacci.Shape.{total, total-append, All-append, items, all_items, IsSound, double}
use komozoievm.Fibonacci.Merge.{kept, InSlots}
use komozoievm.Common.{
  ℕ, zero, suc, ◌+◌, ◌/◌, ◌^◌, ◌≤◌, ◌<◌, ◌≡◌, refl, ◌∙◌, List, [], ◌∷◌, ◌++◌, Option, none, some,
  true, false, All, length, get_elem?, ltb, arith, Bool-cases, inl, inr, ltb→lt, ltb→ge,
}

pub log2-bound : (k n : ℕ) → n ≤ k → n < 2 ^ (log2 k n + 1)
unfolding log2
log2-bound zero n h = omega arith
log2-bound (suc k) n h = elim (Bool-cases (ltb n 2)) [
  | inl small ↦ rw small (omega (arith, ltb→lt _ _ small))
  | inr large ↦ rw large (
      omega (
        arith,
        ltb→ge _ _ large,
        log2-bound k (n / 2) (omega (arith, ltb→ge _ _ large)),
        double (log2 k (n / 2) + 1),
      ))
]

pub irreflexive : (o : Priorities) → IsOrder o → (p : o.P) → o.less p p ≡ false
irreflexive o ord p = elim (Bool-cases (o.less p p)) [ inl h ↦ ord.asym p p h | inr h ↦ h ]

module _ (o : Priorities) (ord : IsOrder o) {A : Type 0} where
  -- `min` points at a root below which no root is, or there are no roots.
  pub data LeastAt : List (Tree A o.P) → Option ℕ → Type 0 where
    no_roots : LeastAt [] none
    least_at :
        (roots : List (Tree A o.P)) (i : ℕ) (m : Tree A o.P)
        → get_elem? roots i ≡ some m
        → All (λ t. o.less (priority t) (priority m) ≡ false) roots
        → LeastAt roots (some i)

  -- The roots that are seen while `collect` runs.
  pub record IsLed (h : Heap A o.P) : Type 0 where
    pub sound : All (IsSound o) h.roots
    pub led : LeastAt h.roots h.min

  get_elem?-last :
      (ts : List (Tree A o.P)) (t : Tree A o.P) → get_elem? (ts ++ t ∷ []) (length ts) ≡ some t
  get_elem?-last [] t = refl
  get_elem?-last (x ∷ ts) t = get_elem?-last ts t

  pub get_elem?-before :
      (ts us : List (Tree A o.P)) (i : ℕ) {m : Tree A o.P}
      → get_elem? ts i ≡ some m
      → get_elem? (ts ++ us) i ≡ some m
  get_elem?-before [] us i h = absurd (ground arith)
  get_elem?-before (x ∷ ts) us zero h = h
  get_elem?-before (x ∷ ts) us (suc i) h = get_elem?-before ts us i h

  lowered :
      (m t : Tree A o.P) (ts : List (Tree A o.P))
      → o.less (priority t) (priority m) ≡ true
      → All (λ s. o.less (priority s) (priority m) ≡ false) ts
      → All (λ s. o.less (priority s) (priority t) ≡ false) ts
  lowered m t [] h all = tt
  lowered m t (s ∷ ts) h (low, all) = (ord.trans _ _ _ (ord.asym _ _ h) low, lowered m t ts h all)

  next_min-LeastAt :
      (t : Tree A o.P) (roots : List (Tree A o.P)) (q : Option ℕ)
      → LeastAt roots q
      → LeastAt (roots ++ t ∷ []) (next_min o t (length roots) q (tree_at roots q))
  unfolding next_min
  next_min-LeastAt t _ _ no_roots = least_at (t ∷ []) 0 t refl (irreflexive o ord (priority t), tt)
  next_min-LeastAt t _ _ (least_at roots i m e all) = elim (Bool-cases (less_than o t m)) [
    | inl below ↦
        rw (e, next_min, below)
          (least_at (roots ++ t ∷ []) (length roots) t (get_elem?-last roots t) (
            All-append _ roots (t ∷ []) (lowered m t roots below all)
              (irreflexive o ord (priority t), tt)))
    | inr above ↦
        rw (e, next_min, above)
          (least_at (roots ++ t ∷ []) i m (get_elem?-before roots (t ∷ []) i e)
            (All-append _ roots (t ∷ []) all (above, tt)))
  ]

  pub add_root-IsLed :
      (t : Tree A o.P) (h : Heap A o.P) → IsSound o t → IsLed h → IsLed (add_root o t h)
  unfolding add_root
  add_root-IsLed t h s l = record {
    sound = All-append _ h.roots (t ∷ []) l.sound (s, tt);
    led = next_min-LeastAt t h.roots h.min l.led;
  }

  pub all_items-append :
      (f : A × o.P → ℕ) (ts us : List (Tree A o.P))
      → total f (all_items (ts ++ us)) ≡ total f (all_items ts) + total f (all_items us)
  all_items-append f [] us = omega arith
  all_items-append f (t ∷ ts) us = omega (
    arith,
    all_items-append f ts us,
    total-append f (items t) (all_items (ts ++ us)),
    total-append f (items t) (all_items ts),
  )

  pub add_root-count : (t : Tree A o.P) (h : Heap A o.P) → (add_root o t h).count ≡ h.count
  unfolding add_root
  add_root-count t h = refl

  pub add_root-items :
      (f : A × o.P → ℕ) (t : Tree A o.P) (h : Heap A o.P)
      → total f (all_items (add_root o t h).roots) ≡ total f (all_items h.roots) + total f (items t)
  unfolding add_root
  add_root-items f t h =
      omega (arith, all_items-append f h.roots (t ∷ []), total-append f (items t) [])

  -- What `collect` makes of sound trees.
  pub record Collected (h h' : Heap A o.P) (ts : List (Tree A o.P)) : Type 0 where
    pub led : IsLed h'
    pub same_count : h'.count ≡ h.count
    pub same_items :
        (f : A × o.P → ℕ)
        → total f (all_items h'.roots) ≡ total f (all_items h.roots) + total f (all_items ts)

  pub collect-Collected :
      (k : ℕ) (aux : List (Option (Tree A o.P))) (h : Heap A o.P)
      → InSlots o ord k aux
      → IsLed h
      → Collected h (collect o aux h) (kept aux)
  unfolding collect InSlots
  collect-Collected k [] h slots l = record {
    led = l;
    same_count = refl;
    same_items = λ f. omega arith;
  }
  collect-Collected k (none ∷ aux) h slots l = collect-Collected (suc k) aux h slots l
  collect-Collected k (some t ∷ aux) h (s, d, slots) l =
      let r = collect-Collected (suc k) aux (add_root o t h) slots (add_root-IsLed t h s l) in
      record {
        led = r.led;
        same_count = r.same_count ∙ add_root-count t h;
        same_items = λ f. omega (
          arith,
          r.same_items f,
          add_root-items f t h,
          total-append f (items t) (all_items (kept aux)),
        );
      }
