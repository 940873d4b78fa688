-- ===== src/Fibonacci/Bag.antt =====
-- The heap of src/util/FibbonacciHeap.cpp against what it stands for: a bag of items, whose order is
-- forgotten.
use mathlib.Core.Quot
use mathlib.Core.Quot.{Quot, Quot-set}
use komozoievm.Fibonacci.Node.{Priorities, IsOrder, Tree}
use komozoievm.Fibonacci.{Heap, empty_heap, nothing_there, deleted, insert, delete_min}
use komozoievm.Fibonacci.Shape.{total}
use komozoievm.Fibonacci.Operations.{heap_items, IsValid, empty_heap-IsValid, insert-IsValid}
use komozoievm.Fibonacci.Removal.{TakesOut, delete_min-Removed}
use komozoievm.Common.{ℕ, ◌≡◌, refl, ap, ◌∙◌, false, List, [], ◌∷◌, All, arith, inl, inr, ◌⊎◌}

module _ {X : Type 0} where
  -- Two lists hold the same items, as often: every weight of the items adds up to the same.
  abbrev pub SameItems : List X → List X → Type 0
  SameItems xs ys = (f : X → ℕ) → total f xs ≡ total f ys

  unfoldable pub put : X → Quot SameItems → Quot SameItems
  put x =
      Quot.lift Quot-set (λ xs. Quot.mk (x ∷ xs)) (λ xs ys h. Quot.sound (λ f. omega (arith, h f)))

  SameItems-empty : (xs : List X) → total (λ x. 1) xs ≡ 0 → xs ≡ []
  SameItems-empty [] h = refl
  SameItems-empty (x ∷ xs) h = absurd (omega arith)

module _ (o : Priorities) (ord : IsOrder o) {A : Type 0} where
  -- What a heap stands for.
  abbrev pub bag : Heap A o.P → Quot (SameItems {X = A × o.P})
  bag h = Quot.mk (heap_items o ord h)

  -- A heap is valid and stands for a bag.
  abbrev pub StandsFor : Heap A o.P → Quot (SameItems {X = A × o.P}) → Type 0
  StandsFor h b = IsValid o ord h × (bag h ≡ b)

  empty_heap-StandsFor : StandsFor empty_heap (Quot.mk [])
  empty_heap-StandsFor = (empty_heap-IsValid o ord, refl)

  -- Where the priorities are in a strict order and `unorderedRemove` takes the item in its place
  -- out: a new heap stands for the empty bag. For a valid heap, the heap behind an insertion is
  -- valid and stands for the bag with one more item; a `deleteMin` either finds the heap empty,
  -- which then stands for the empty bag, or gives an item that no other comes before and a valid
  -- heap that stands for the bag without it.
  pub heap_refines :
      (remove : List (Tree A o.P) → ℕ → List (Tree A o.P))
      → TakesOut o ord remove
      → (x : A) (p : o.P) (h : Heap A o.P) → IsValid o ord h
      → StandsFor empty_heap (Quot.mk [])
        × StandsFor (insert o x p h) (put (x, p) (bag h))
        × (((bag h ≡ Quot.mk []) × (delete_min o remove h ≡ nothing_there))
            ⊎ ((y : A) × (q : o.P) × (h' : Heap A o.P) × (delete_min o remove h ≡ deleted y q h')
                × IsValid o ord h'
                × (bag h ≡ put (y, q) (bag h'))
                × All (λ (z : A × o.P). o.less z.1 q ≡ false) (heap_items o ord h)))
  unfolding put
  heap_refines remove takes x p h v =
      let (valid, same) = insert-IsValid o ord x p h v in
      (
        empty_heap-StandsFor,
        (valid, Quot.sound same),
        elim (delete_min-Removed o ord remove takes h v) [
          | inl (empty, runs) ↦
              inl (ap (λ xs. Quot.mk xs) (SameItems-empty _ (v.counted ∙ empty)), runs)
          | inr (y, q, h', runs, r) ↦
              inr (y, q, h', runs, r.valid, Quot.sound r.same_items, r.least)
        ],
      )
