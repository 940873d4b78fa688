-- ===== src/Fibonacci/Shape.antt =====
-- The shape of the trees: a node of degree d stands over 2 ^ d nodes, and no child is below its
-- parent.
use komozoievm.Fibonacci.Node.{
  Priorities, Tree, node, Ring, nil, link, element, priority, degree, walk, children, leaf,
  add_child, insert_right,
}
use native.Mathlib.Numerals.{towards_suc}
use komozoievm.Common.{ℕ, suc, ◌+◌, ◌^◌, ◌≡◌, refl, sym, ap, List, [], ◌∷◌, ◌++◌, false, All, arith}

-- The sum of a weight over a list: two lists hold the same items, as often, when all weights agree.
abbrev pub total : {X : Type 0} → (X → ℕ) → List X → ℕ
total f [] = 0
total f (x ∷ xs) = f x + total f xs

pub total-append :
    {X : Type 0} (f : X → ℕ) (xs ys : List X) → total f (xs ++ ys) ≡ total f xs + total f ys
total-append f [] ys = omega arith
total-append f (x ∷ xs) ys = omega (arith, total-append f xs ys)

pub All-append :
    {X : Type 0} (Q : X → Type 0) (xs ys : List X) → All Q xs → All Q ys → All Q (xs ++ ys)
All-append Q [] ys a b = b
All-append Q (x ∷ xs) ys (q, a) b = (q, All-append Q xs ys a b)

module _ {A P : Type 0} where
  -- The elements of a tree with their priorities, the root's first.
  unfoldable mutual
    pub items : Tree A P → List (A × P)
    items (node x p d cs) = (x, p) ∷ ring_items cs

    pub ring_items : Ring A P → List (A × P)
    ring_items nil = []
    ring_items (link t cs) = items t ++ ring_items cs

  abbrev pub all_items : List (Tree A P) → List (A × P)
  all_items [] = []
  all_items (t ∷ ts) = items t ++ all_items ts

  -- How many elements there are.
  abbrev pub size : Tree A P → ℕ
  size t = total (λ x. 1) (items t)

  abbrev pub all_size : List (Tree A P) → ℕ
  all_size ts = total (λ x. 1) (all_items ts)

pub double : (d : ℕ) → 2 ^ d + 2 ^ d ≡ 2 ^ (d + 1)
double d = simp towards_suc (omega arith)

module _ (o : Priorities) {A : Type 0} where
  unfoldable mutual
    -- A tree of 2 ^ degree elements, under each node of which none comes before it.
    pub IsSound : Tree A o.P → Type 0
    IsSound (node x p d cs) = (size (node x p d cs) ≡ 2 ^ d) × IsSoundRing p cs

    pub IsSoundRing : o.P → Ring A o.P → Type 0
    IsSoundRing p nil = Unit
    IsSoundRing p (link t cs) = (o.less (priority t) p ≡ false) × IsSound t × IsSoundRing p cs

  pub IsSound-leaf : (x : A) (p : o.P) → IsSound (leaf x p)
  unfolding IsSound items
  IsSound-leaf x p = (omega arith, tt)

  pub IsSound-size : (t : Tree A o.P) → IsSound t → size t ≡ 2 ^ degree t
  unfolding IsSound
  IsSound-size (node x p d cs) s = s.0

  pub IsSound-children : (t : Tree A o.P) → IsSound t → All IsSound (children t)
  unfolding IsSound
  IsSound-children (node x p d cs) s = of_ring cs s.1
    where
      of_ring : (cs : Ring A o.P) → IsSoundRing p cs → All IsSound (walk cs)
      of_ring nil r = tt
      of_ring (link t cs) (low, s, r) = (s, of_ring cs r)

  walk-items : (cs : Ring A o.P) → all_items (walk cs) ≡ ring_items cs
  unfolding items
  walk-items nil = refl
  walk-items (link t cs) = ap (λ xs. items t ++ xs) (walk-items cs)

  pub items-children : (t : Tree A o.P) → items t ≡ (element t, priority t) ∷ all_items (children t)
  unfolding items
  items-children (node x p d cs) = ap (λ xs. (x, p) ∷ xs) (sym (walk-items cs))

  total-insert_right :
      (f : A × o.P → ℕ) (t : Tree A o.P) (cs : Ring A o.P)
      → total f (ring_items (insert_right t cs)) ≡ total f (items t) + total f (ring_items cs)
  unfolding insert_right items
  total-insert_right f t nil = omega (arith, total-append f (items t) [])
  total-insert_right f t (link c cs) = omega (
    arith,
    total-append f (items c) (items t ++ ring_items cs),
    total-append f (items t) (ring_items cs),
    total-append f (items c) (ring_items cs),
  )

  pub total-add_child :
      (f : A × o.P → ℕ) (x y : Tree A o.P)
      → total f (items (add_child x y)) ≡ total f (items x) + total f (items y)
  unfolding add_child items
  total-add_child f (node x p d cs) t = omega (arith, total-insert_right f t cs)

  IsSoundRing-insert_right :
      (p : o.P) (t : Tree A o.P) (cs : Ring A o.P)
      → o.less (priority t) p ≡ false
      → IsSound t
      → IsSoundRing p cs
      → IsSoundRing p (insert_right t cs)
  unfolding insert_right IsSound
  IsSoundRing-insert_right p t nil low s r = (low, s, tt)
  IsSoundRing-insert_right p t (link c cs) low s (low', s', r) = (low', s', (low, s, r))

  pub IsSound-add_child :
      (x y : Tree A o.P)
      → IsSound x
      → IsSound y
      → degree y ≡ degree x
      → o.less (priority y) (priority x) ≡ false
      → IsSound (add_child x y) × (degree (add_child x y) ≡ suc (degree x))
  unfolding add_child IsSound
  IsSound-add_child (node x p d cs) y s t same low =
      ((sized, IsSoundRing-insert_right p y cs low t s.1), omega arith)
    where
      sized : total (λ (x : A × o.P). 1) (items (add_child (node x p d cs) y)) ≡ 2 ^ (d + 1)
      sized = omega (
        arith,
        total-add_child (λ z. 1) (node x p d cs) y,
        s.0,
        IsSound-size y t,
        ap (λ (n : ℕ). 2 ^ n) same,
        double d,
      )
