-- ===== src/Context/Overlay/Below.antt =====
-- What the chain of contexts below a context has for a storage slot, as `getStorageSlot` of
-- src/ethereum/EVMSimulationContext.cpp finds it.
use komozoievm.External.{Env}
use komozoievm.Context.State.{Ctx}
use komozoievm.Context.Provider.{slots_of, get_storage_slot, single}
use komozoievm.Common.{
  ℕ, ◌≡◌, refl, ap, ◌∙◌, List, [], ◌∷◌, Option, none, some, Bool, true, false, lookup, ◌==◌,
  if◌then◌else◌,
}

-- The slot of an address that a context holds.
abbrev pub held_slot : Ctx → ℕ → ℕ → Option ℕ
held_slot c a key = lookup key (slots_of a c.storage)

-- The slot that the innermost of some contexts holds, of those that hold it.
abbrev pub first_held : List Ctx → ℕ → ℕ → Option ℕ
first_held [] a key = none
first_held (c ∷ cs) a key =
    let rest = first_held cs a key in elim (held_slot c a key) [ none ↦ rest | some v ↦ some v ]

-- A list of one value as that value, and any other as 0.
abbrev pub only_value : List ℕ → ℕ
only_value (v ∷ []) = v
only_value _ = 0

-- A slot below some contexts: what the innermost that holds it has, and where none does what the
-- state provider answers at the state block.
abbrev pub slot_below : Env → List Ctx → ℕ → ℕ → ℕ
slot_below e cs a key = elim (first_held cs a key) [
  | none ↦ only_value (e.base_slots a (key ∷ []) e.block.state_block)
  | some v ↦ v
]

abbrev pub or_zero : Option ℕ → ℕ
or_zero none = 0
or_zero (some v) = v

single_lem : (vs : List ℕ) → or_zero (single vs) ≡ only_value vs
unfolding single
single_lem [] = refl
single_lem (v ∷ []) = refl
single_lem (v ∷ u ∷ vs) = refl

same_block : (b : Bool) (n : ℕ) → (if b then n else n) ≡ n
same_block true n = refl
same_block false n = refl

-- One context on top of those below: `f` and `r` are what they hold and answer.
below_step :
    (o f r : Option ℕ) (p : ℕ) (h m : List Ctx)
    → or_zero r ≡ elim f [ none ↦ p | some v ↦ v ]
    → or_zero ((elim o as (λ _. Option ℕ × List Ctx) [ some v ↦ (some v, h) | none ↦ (r, m) ]).0)
      ≡ elim (elim o as (λ _. Option ℕ) [ none ↦ f | some v ↦ some v ]) [ none ↦ p | some v ↦ v ]
below_step none f r p h m same = same
below_step (some v) f r p h m same = refl

pub get_storage_slot-slot_below :
    (e : Env) (cs : List Ctx) (a key : ℕ)
    → or_zero ((get_storage_slot e cs a key e.block.state_block).0) ≡ slot_below e cs a key
unfolding get_storage_slot
get_storage_slot-slot_below e [] a key = single_lem (e.base_slots a (key ∷ []) e.block.state_block)
get_storage_slot-slot_below e (c ∷ cs) a key =
    below_step (held_slot c a key) (first_held cs a key) _ _ _ _ (
      ap (λ n. or_zero ((get_storage_slot e cs a key n).0))
        (same_block (e.block.state_block == 0) e.block.state_block)
      ∙ get_storage_slot-slot_below e cs a key)
