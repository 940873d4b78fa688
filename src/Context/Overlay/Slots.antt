-- ===== src/Context/Overlay/Slots.antt =====
-- What a context holds of an address's storage, and how `sload`, `sstore` and `tstore` change it.
use komozoievm.External.{Env}
use komozoievm.Context.State.{Ctx, World, done}
use komozoievm.Context.Provider.{slots_of, get_storage_slot}
use komozoievm.Context.Overlay.Below.{held_slot, or_zero, slot_below, get_storage_slot-slot_below}
use komozoievm.Context.Overlay.{sload, sstore, tload_frames, tstore}
use komozoievm.Common.{
  ℕ, ◌+◌, ◌%◌, ◌^◌, ◌≡◌, refl, List, [], ◌∷◌, Option, none, some, true, false, Map, lookup, put,
  lookup-put, ◌==◌, if◌then◌else◌, ◌&&◌, arith, Option-cases, inl, inr, ◌⊎◌, Bool-cases,
}

abbrev pub held_transient : Ctx → ℕ → ℕ → Option ℕ
held_transient c a key = lookup key (slots_of a c.transient)

pub slots_of-put :
    (st : Map (Map ℕ)) (a b : ℕ) (m : Map ℕ)
    → slots_of b (put st a m) ≡ (if b == a then m else slots_of b st)
slots_of-put st a b m = ground (arith, lookup-put st a b m)

-- A map put back under its own key with one more slot.
pub slot-put :
    (st : Map (Map ℕ)) (a b key k v : ℕ)
    → lookup k (slots_of b (put st a (put (slots_of a st) key v)))
      ≡ (if (b == a) && (k == key) then some v else lookup k (slots_of b st))
slot-put st a b key k v =
    ground
      (arith, slots_of-put st a b (put (slots_of a st) key v), lookup-put (slots_of a st) key k v)

-- In a context that is not static, SSTORE succeeds, changes what the context holds at exactly one
-- slot, and costs no gas of its own; in a static context nothing at all changes and the store is
-- refused.
pub sstore_slots :
    (e : Env) (key v : ℕ) (w : World)
    → ((w.frame.is_static ≡ true) × (sstore e key v w ≡ done false w))
      ⊎ ((w' : World) × (w.frame.is_static ≡ false)
          × (sstore e key v w ≡ done true w')
          × ((a k : ℕ)
              → held_slot w'.frame a k
                ≡ (if (a == w.frame.address) && (k == key) then some v else held_slot w.frame a k))
          × (w'.frame.gas_used ≡ w.frame.gas_used))
unfolding sstore
sstore_slots e key v w = elim (Bool-cases w.frame.is_static) [
  | inl static ↦ inl (static, rw static)
  | inr free ↦ elim (Option-cases (lookup key (slots_of w.frame.address w.frame.storage))) [
    | inr (old, e₁) ↦ inr (record w { frame = stored }, free, ground arith, slots, refl)
    | inl e₁ ↦ inr (record w { frame = stored; parents = below }, free, ground arith, slots, refl)
  ]
]
  where
    stored : Ctx
    stored = record (w.frame) {
      storage =
          put w.frame.storage w.frame.address
            (put (slots_of w.frame.address w.frame.storage) key v);
    }

    below : List Ctx
    below = (get_storage_slot e w.parents w.frame.address key e.block.state_block).1

    slots :
        (a k : ℕ)
        → held_slot stored a k
          ≡ (if (a == w.frame.address) && (k == key) then some v else held_slot w.frame a k)
    slots a k = slot-put w.frame.storage w.frame.address a key k v

-- An SLOAD answers with what the context holds, at no cost. Where it does not hold the slot, the
-- answer is what the innermost of the contexts below that holds it has; where none does, what the
-- state provider answers at the state block, 0 if that is not one value; and 2000 gas are charged.
-- Either way the context holds the answer afterwards, and every other slot is as before.
pub sload_slots :
    (e : Env) (key : ℕ) (w : World)
    → (v : ℕ) × (w' : World) × (sload e key w ≡ done v w')
      × ((a k : ℕ)
          → held_slot w'.frame a k
            ≡ (if (a == w.frame.address) && (k == key) then some v else held_slot w.frame a k))
      × (((held_slot w.frame w.frame.address key ≡ some v)
            × (w'.frame.gas_used ≡ w.frame.gas_used)
            × (w'.parents ≡ w.parents))
          ⊎ ((held_slot w.frame w.frame.address key ≡ none)
              × (v ≡ slot_below e w.parents w.frame.address key)
              × (w'.frame.gas_used ≡ (w.frame.gas_used + 2000) % 2 ^ 32)))
unfolding sload
sload_slots e key w = elim (Option-cases (lookup key mine)) [
  | inr (v, held) ↦ (
    v,
    record w { frame = record (w.frame) { storage = put w.frame.storage w.frame.address mine } },
    rw (held, sload),
    λ a k. same a k v held,
    inl (held, refl, refl),
  )
  | inl empty ↦ (
    value below.0,
    record w {
      frame = record (w.frame) {
        storage = put w.frame.storage w.frame.address (put mine key (value below.0));
        gas_used = (w.frame.gas_used + 2000) % 2 ^ 32;
      };
      parents = below.1;
    },
    rw (empty, sload),
    λ a k. slot-put w.frame.storage w.frame.address a key k (value below.0),
    inr (empty, given, refl),
  )
]
  where
    mine : Map ℕ
    mine = slots_of w.frame.address w.frame.storage

    below : Option ℕ × List Ctx
    below = get_storage_slot e w.parents w.frame.address key e.block.state_block

    value : Option ℕ → ℕ
    value = or_zero

    given : value below.0 ≡ slot_below e w.parents w.frame.address key
    given = get_storage_slot-slot_below e w.parents w.frame.address key

    same :
        (a k v : ℕ)
        → lookup key mine ≡ some v
        → lookup k (slots_of a (put w.frame.storage w.frame.address mine))
          ≡ (if (a == w.frame.address) && (k == key) then some v else held_slot w.frame a k)
    same a k v h = ground (arith, slots_of-put w.frame.storage w.frame.address a mine)

-- A TSTORE changes exactly one transient slot, and is refused with no change in a static context.
tstore_slots :
    (key v : ℕ) (w : World)
    → ((w.frame.is_static ≡ true) × (tstore key v w ≡ done false w))
      ⊎ ((w' : World) × (tstore key v w ≡ done true w')
          × ((a k : ℕ)
              → held_transient w'.frame a k ≡ (
                  if (a == w.frame.address) && (k == key)
                  then some v
                  else held_transient w.frame a k)))
unfolding tstore
tstore_slots key v w = elim (Bool-cases w.frame.is_static) [
  | inl static ↦ inl (static, rw static)
  | inr free ↦ inr (
    record w { frame = stored },
    rw free,
    λ a k. slot-put w.frame.transient w.frame.address a key k v,
  )
]
  where
    stored : Ctx
    stored = record (w.frame) {
      transient =
          put w.frame.transient w.frame.address
            (put (slots_of w.frame.address w.frame.transient) key v);
    }

-- Where a called context holds no transient slot of this key for its own address, TLOAD answers
-- with the slot that the calling context holds under that context's address, whatever the two
-- addresses are, and with 0 if there is no calling context.
tload_falls_through :
    (c p : Ctx) (ps : List Ctx) (key v : ℕ)
    → held_transient c c.address key ≡ none
    → held_transient p p.address key ≡ some v
    → ((tload_frames (c ∷ p ∷ ps) key).0 ≡ v) × ((tload_frames (c ∷ []) key).0 ≡ 0)
unfolding tload_frames
tload_falls_through c p ps key v mine theirs = ground arith
