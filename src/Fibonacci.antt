-- ===== src/Fibonacci.antt =====
-- src/util/FibbonacciHeap.cpp and src/include/util/FibonacciHeap.h: the heap as a forest. A tree is
-- the value that its node reaches; a ring of siblings is listed from the node's `child` along
-- `right`, and `min`, which points at a root, is that root's place among the roots.
pub mod Node
pub mod Shape
pub mod Merge
pub mod Roots
pub mod Operations
pub mod Removal
pub mod Bag
use komozoievm.Fibonacci.Node.{
  Priorities, Tree, leaf, priority, element, degree, children, less_than, add_child,
}
use komozoievm.Common.{
  ℕ, zero, suc, ◌+◌, ◌-◌, ◌/◌, List, [], ◌∷◌, ◌++◌, Option, none, some, Bool, true, false, ltb,
  ◌==◌, if◌then◌else◌, length, get_elem?, replicate,
}

pub record Heap (A P : Type 0) : Type 0 where
  pub roots : List (Tree A P)
  pub min : Option ℕ
  pub count : ℕ

-- The root that a pointer like `min` points at.
abbrev pub tree_at : {A P : Type 0} → List (Tree A P) → Option ℕ → Option (Tree A P)
tree_at roots none = none
tree_at roots (some i) = get_elem? roots i

abbrev pub min_tree : {A P : Type 0} → Heap A P → Option (Tree A P)
min_tree h = tree_at h.roots h.min

abbrev pub empty_heap : {A P : Type 0} → Heap A P
empty_heap = record { roots = []; min = none; count = 0 }

-- `(int)(log2(n))` of a positive `int`, with as many halvings as the number says.
unfoldable pub log2 : ℕ → ℕ → ℕ
log2 zero n = 0
log2 (suc k) n = let half = log2 k (n / 2) in if ltb n 2 then 0 else half + 1

-- The outcomes of `deleteMin`: nothing is in the heap, or an index outside `aux` would be read.
pub data Deleted (A P : Type 0) : Type 0 where
  nothing_there : Deleted A P
  outside : Deleted A P
  deleted : A → P → Heap A P → Deleted A P

module _ (o : Priorities) {A : Type 0} where
  -- The one of two trees of a degree that the other becomes a child of.
  unfoldable pub joined : Tree A o.P → Tree A o.P → Tree A o.P
  unfolding add_child
  joined x y = if less_than o y x then add_child y x else add_child x y

  -- The `while` of `consolidate` from a slot on, and the write behind it; `none` where the slots end.
  unfoldable pub settle :
      Tree A o.P → List (Option (Tree A o.P)) → Option (List (Option (Tree A o.P)))
  unfolding joined
  settle x [] = none
  settle x (none ∷ aux) = some (some x ∷ aux)
  settle x (some y ∷ aux) = elim (settle (joined x y) aux) [
    | none ↦ none
    | some rest ↦ some (none ∷ rest)
  ]

  -- The same from slot `d`.
  unfoldable pub settle_from :
      ℕ → Tree A o.P → List (Option (Tree A o.P)) → Option (List (Option (Tree A o.P)))
  unfolding settle
  settle_from zero x aux = settle x aux
  settle_from (suc d) x [] = none
  settle_from (suc d) x (slot ∷ aux) = elim (settle_from d x aux) [
    | none ↦ none
    | some rest ↦ some (slot ∷ rest)
  ]

  -- The loop over the roots.
  unfoldable pub settle_all :
      List (Tree A o.P) → List (Option (Tree A o.P)) → Option (List (Option (Tree A o.P)))
  unfolding settle_from
  settle_all [] aux = some aux
  settle_all (x ∷ roots) aux = elim (settle_from (degree x) x aux) [
    | none ↦ none
    | some aux' ↦ settle_all roots aux'
  ]

  -- `min` behind a tree that is added in place `n`.
  unfoldable pub next_min : Tree A o.P → ℕ → Option ℕ → Option (Tree A o.P) → Option ℕ
  next_min t n q none = some n
  next_min t n q (some m) = if less_than o t m then some n else q

  -- `roots.add(t)`, and `min` if there is none or the tree is below it.
  unfoldable pub add_root : Tree A o.P → Heap A o.P → Heap A o.P
  unfolding next_min
  add_root t h = record h {
    roots = h.roots ++ t ∷ [];
    min = next_min t (length h.roots) h.min (min_tree h);
  }

  -- The loop over `aux`.
  unfoldable pub collect : List (Option (Tree A o.P)) → Heap A o.P → Heap A o.P
  unfolding add_root
  collect [] h = h
  collect (none ∷ aux) h = collect aux h
  collect (some t ∷ aux) h = collect aux (add_root t h)

  -- `consolidate`.
  unfoldable pub consolidate : Heap A o.P → Option (Heap A o.P)
  unfolding settle_all collect log2
  consolidate h =
      let aux : List (Option (Tree A o.P)) = replicate (log2 h.count h.count + 2) none in
      let settled : Option (Heap A o.P) = elim (settle_all h.roots aux) [
        | none ↦ none
        | some aux' ↦ some (collect aux' (record h { roots = []; min = none }))
      ] in
      if h.count == 0 then some h else settled

  -- `insert`.
  unfoldable pub insert : A → o.P → Heap A o.P → Heap A o.P
  unfolding add_root
  insert x p h = record (add_root (leaf x p) h) { count = h.count + 1 }

  -- `getMin`: `none` where nothing is written.
  unfoldable pub get_min : Heap A o.P → Option A
  get_min h = elim (min_tree h) [ none ↦ none | some m ↦ some (element m) ]

  -- The end of `deleteMin`, behind the consolidation.
  unfoldable pub hand_out : Tree A o.P → Option (Heap A o.P) → Deleted A o.P
  hand_out m none = outside
  hand_out m (some h) = deleted (element m) (priority m) h

  -- `deleteMin` where `min` is the root in place `i`: its children become roots, and it is removed.
  unfoldable pub delete_root :
      (List (Tree A o.P) → ℕ → List (Tree A o.P))
      → Heap A o.P
      → ℕ
      → Option (Tree A o.P)
      → Deleted A o.P
  unfolding hand_out consolidate
  delete_root remove h i none = outside
  delete_root remove h i (some m) = hand_out m (
      consolidate
        (record { roots = remove (h.roots ++ children m) i; min = none; count = h.count - 1 }))

  -- `deleteMin`; `remove` is `unorderedRemove`.
  unfoldable pub delete_min :
      (List (Tree A o.P) → ℕ → List (Tree A o.P)) → Heap A o.P → Deleted A o.P
  unfolding delete_root
  delete_min remove h = elim (h.min) [
    | none ↦ nothing_there
    | some i ↦ delete_root remove h i (get_elem? h.roots i)
  ]

  abbrev pub is_empty : Heap A o.P → Bool
  is_empty h = h.count == 0
