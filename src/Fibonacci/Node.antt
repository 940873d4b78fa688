-- ===== src/Fibonacci/Node.antt =====
-- `FibonacciTree` of src/util/FibbonacciHeap.cpp.
use komozoievm.Common.{ℕ, ◌+◌, ◌≡◌, List, [], ◌∷◌, Bool, true, false}

-- The priorities, which are `double` values other than NaN, with their `<`.
pub record Priorities : Type 1 where
  pub P : Type 0
  pub less : P → P → Bool

-- What the order of such numbers satisfies.
pub record IsOrder (o : Priorities) : Type 0 where
  pub asym : (a b : o.P) → o.less a b ≡ true → o.less b a ≡ false
  pub trans : (a b c : o.P) → o.less b a ≡ false → o.less c b ≡ false → o.less c a ≡ false

-- A node with its data, its priority, its `degree` and the ring of its children.
mutual
  pub data Tree (A P : Type 0) : Type 0 where
    node : A → P → ℕ → Ring A P → Tree A P

  pub data Ring (A P : Type 0) : Type 0 where
    nil : Ring A P
    link : Tree A P → Ring A P → Ring A P

module _ {A P : Type 0} where
  abbrev pub element : Tree A P → A
  element (node x p d cs) = x

  abbrev pub priority : Tree A P → P
  priority (node x p d cs) = p

  abbrev pub degree : Tree A P → ℕ
  degree (node x p d cs) = d

  abbrev ring : Tree A P → Ring A P
  ring (node x p d cs) = cs

  -- The trees that a walk along `right` meets.
  abbrev pub walk : Ring A P → List (Tree A P)
  walk nil = []
  walk (link t cs) = t ∷ walk cs

  abbrev pub children : Tree A P → List (Tree A P)
  children (node x p d cs) = walk cs

  -- The constructor.
  abbrev pub leaf : A → P → Tree A P
  leaf x p = node x p 0 nil

  -- `addChild`: the first child, or the one to the right of `child`.
  unfoldable pub insert_right : Tree A P → Ring A P → Ring A P
  insert_right t nil = link t nil
  insert_right t (link c cs) = link c (link t cs)

  unfoldable pub add_child : Tree A P → Tree A P → Tree A P
  unfolding insert_right
  add_child (node x p d cs) t = node x p (d + 1) (insert_right t cs)

-- `lessThan`.
abbrev pub less_than : (o : Priorities) → {A : Type 0} → Tree A o.P → Tree A o.P → Bool
less_than o a b = o.less (priority a) (priority b)
