-- ===== src/Tests/Heaps.antt =====
-- The heap of src/util/FibbonacciHeap.cpp at small contents, with numbers for priorities.
use mathlib.Core.List.Permᴰ
use mathlib.Core.List.{Permᴰ}
use mathlib.Core.Quot.{Quot}
use komozoievm.Fibonacci.Node.{Priorities, IsOrder}
use komozoievm.Fibonacci.{
  Heap, empty_heap, Deleted, nothing_there, outside, deleted, insert, delete_min, add_root,
  consolidate, delete_root, hand_out,
}
use komozoievm.Fibonacci.Operations
use komozoievm.Fibonacci.Operations.{heap_items, IsValid}
use komozoievm.Fibonacci.Removal.{TakesOut}
use komozoievm.Fibonacci.Bag
use komozoievm.Fibonacci.Bag.{SameItems, StandsFor, put, bag}
use komozoievm.Common.{ℕ, zero, suc, ◌≡◌, refl, List, [], ◌∷◌, false, All, ltb, arith, ◌⊎◌}

abbrev numbers : Priorities
numbers = record { P = ℕ; less = ltb }

numbers-IsOrder : IsOrder numbers
numbers-IsOrder = record { asym = λ a b h. ground arith; trans = λ a b c h k. ground arith }

abbrev erase : {X : Type 0} → List X → ℕ → List X
erase [] i = []
erase (x ∷ xs) zero = xs
erase (x ∷ xs) (suc i) = x ∷ erase xs i

erase-TakesOut : TakesOut numbers numbers-IsOrder {A = ℕ} erase
erase-TakesOut [] i t h = absurd (ground arith)
erase-TakesOut (x ∷ ts) zero t h = Permᴰ.cons (ground arith) (Permᴰ.refl ts)
erase-TakesOut (x ∷ ts) (suc i) t h =
    Permᴰ.trans (Permᴰ.swap refl refl) (Permᴰ.cons refl (erase-TakesOut ts i t h))

abbrev one_item : Heap ℕ ℕ
one_item = insert numbers {A = ℕ} 8 20 empty_heap

one_item-IsValid : IsValid numbers numbers-IsOrder one_item
one_item-IsValid =
    (Operations.insert-IsValid numbers numbers-IsOrder 8 20 empty_heap
      (Operations.empty_heap-IsValid numbers numbers-IsOrder)).0

heap_refines_example :
    StandsFor numbers numbers-IsOrder {A = ℕ} empty_heap (Quot.mk [])
    × StandsFor numbers numbers-IsOrder
        (insert numbers 7 30 one_item)
        (put (7, 30) (bag numbers numbers-IsOrder one_item))
    × (((bag numbers numbers-IsOrder one_item ≡ Quot.mk [])
          × (delete_min numbers erase one_item ≡ nothing_there))
        ⊎ ((y q : ℕ) × (h' : Heap ℕ ℕ) × (delete_min numbers erase one_item ≡ deleted y q h')
            × IsValid numbers numbers-IsOrder h'
            × (bag numbers numbers-IsOrder one_item ≡ put (y, q) (bag numbers numbers-IsOrder h'))
            × All (λ (z : ℕ × ℕ). ltb z.1 q ≡ false) (heap_items numbers numbers-IsOrder one_item)))
heap_refines_example =
    Bag.heap_refines numbers numbers-IsOrder erase erase-TakesOut 7 30 one_item one_item-IsValid

-- Three insertions, two removals.
removed : Deleted ℕ ℕ → List ℕ
removed (deleted x p h) = x ∷ (elim (delete_min numbers erase h) [
  | nothing_there ↦ []
  | outside ↦ []
  | deleted y q g ↦ y ∷ []
])
removed _ = []

two_least :
    removed (delete_min numbers erase (insert numbers 5 10 (insert numbers 7 30 one_item)))
    ≡ 5 ∷ 8 ∷ []
unfolding removed insert delete_min delete_root hand_out consolidate add_root
two_least = refl
