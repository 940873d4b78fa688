-- ===== src/Common/Maps.antt =====
-- The hash maps of the program as association lists, over numeric keys, and its hash sets as lists.
use Prim.Native.Nat.{ℕ}
use mathlib.Core.Path.{◌≡◌, refl, sym, subst}
use mathlib.Core.Bool.{Bool, false, ◌||◌}
use mathlib.Core.List.{List, [], ◌∷◌}
use mathlib.Core.Option.{Option, none, some}
use native.Mathlib.Omega.{arith}
use komozoievm.Common.Tests.{◌==◌, if◌then◌else◌}

abbrev pub Map : Type 0 → Type 0
Map V = List (ℕ × V)

module _ {V : Type 0} where
  -- `getPtr`: the value, or `none` for a null pointer.
  unfoldable pub lookup : ℕ → Map V → Option V
  lookup k [] = none
  lookup k ((j, v) ∷ m) = if k == j then some v else lookup k m

  -- `put`: replaces the value of a key that is there, and adds one that is not.
  unfoldable pub put : Map V → ℕ → V → Map V
  put [] k v = (k, v) ∷ []
  put ((j, w) ∷ m) k v = if k == j then (j, v) ∷ m else (j, w) ∷ put m k v

  -- `putFrom`: every entry of the second map is put into the first.
  unfoldable pub put_from : Map V → Map V → Map V
  put_from m [] = m
  put_from m ((k, v) ∷ es) = put_from (put m k v) es

  pub lookup-put :
      (m : Map V) (k j : ℕ) (v : V) → lookup j (put m k v) ≡ (if j == k then some v else lookup j m)
  unfolding lookup put
  lookup-put [] k j v = refl
  lookup-put ((i, w) ∷ m) k j v = ground (arith, lookup-put m k j v)

  -- No key stands twice, as in a hash map.
  abbrev pub Distinct : Map V → Type 0
  Distinct [] = Unit
  Distinct ((k, v) ∷ m) = (lookup k m ≡ none) × Distinct m

-- What a map holds over another: its own value, else the other's.
abbrev pub or_else {ℓ} : {A : Type ℓ} → Option A → Option A → Option A
or_else none b = b
or_else (some a) b = some a

module _ {V : Type 0} where
  put_absent : (m : Map V) (k j : ℕ) (v : V) → lookup j (put m k v) ≡ none → lookup j m ≡ none
  put_absent m k j v h = ground (arith, lookup-put m k j v)

  pub lookup-put_from :
      (m es : Map V) (k : ℕ)
      → Distinct es
      → lookup k (put_from m es) ≡ or_else (lookup k es) (lookup k m)
  unfolding lookup put_from
  lookup-put_from m [] k d = refl
  lookup-put_from m ((j, v) ∷ es) k (absent, d) =
      ground (arith, lookup-put_from (put m j v) es k d, lookup-put m j k v, later)
    where
      later : k ≡ j → lookup k es ≡ none
      later e = subst (λ i. lookup i es ≡ none) (sym e) absent

unfoldable pub contains : ℕ → List ℕ → Bool
contains k [] = false
contains k (j ∷ s) = k == j || contains k s
