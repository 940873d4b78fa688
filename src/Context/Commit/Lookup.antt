-- ===== src/Context/Commit/Lookup.antt =====
-- What a context holds after a call has written its changes to it.
use komozoievm.External.{Account}
use komozoievm.Context.State.{Ctx}
use komozoievm.Context.Provider.{slots_of}
use komozoievm.Context.Overlay.{update_account, update_storage_slots, update_transient_slots}
use komozoievm.Context.Overlay.Below.{held_slot}
use komozoievm.Context.Overlay.Slots.{held_transient, slots_of-put}
use komozoievm.Context.Commit.{
  write_accounts, write_storage, write_transient, add_from, write_changes_to,
}
use komozoievm.Common.{
  ℕ, ◌≡◌, refl, sym, ap, subst, ◌⊎◌, [], ◌∷◌, none, some, true, false, Map, lookup, put, put_from,
  lookup-put_from, or_else, Distinct, ◌==◌, if◌then◌else◌, arith, ◌∙◌, Bool-cases, Option-cases,
  inl, inr,
}

-- Every address stands once, and so does every slot of each.
abbrev pub DistinctSlots : Map (Map ℕ) → Type 0
DistinctSlots [] = Unit
DistinctSlots ((a, m) ∷ st) = (lookup a st ≡ none) × Distinct m × DistinctSlots st

-- What the maps of a call hold, over what the context that it is written to holds.
pub record Merged (c dst after : Ctx) : Type 0 where
  pub accounts :
      (a : ℕ) → lookup a after.accounts ≡ or_else (lookup a c.accounts) (lookup a dst.accounts)
  pub storage : (a k : ℕ) → held_slot after a k ≡ or_else (held_slot c a k) (held_slot dst a k)
  pub transient :
      (a k : ℕ) → held_transient after a k ≡ or_else (held_transient c a k) (held_transient dst a k)
  pub same_gas : after.gas_used ≡ dst.gas_used
  pub same_stack : after.stack ≡ dst.stack

update_account_lem :
    (b : ℕ) (v : Account) (dst : Ctx)
    → (update_account b v dst).1
      ≡ record dst { accounts = (if dst.is_static then dst.accounts else put dst.accounts b v) }
unfolding update_account
update_account_lem b v dst = elim (Bool-cases dst.is_static) [
  | inl static ↦ ground arith
  | inr free ↦ ground arith
]

write_accounts_lem :
    (m : Map Account) (dst : Ctx)
    → write_accounts m dst
      ≡ record dst { accounts = (if dst.is_static then dst.accounts else put_from dst.accounts m) }
unfolding write_accounts put_from
write_accounts_lem [] dst = elim (Bool-cases dst.is_static) [
  | inl static ↦ ground arith
  | inr free ↦ ground arith
]
write_accounts_lem ((b, v) ∷ m) dst =
    subst
      (λ d. write_accounts m d ≡ record dst {
        accounts = (if dst.is_static then dst.accounts else put_from (put dst.accounts b v) m);
      })
      (sym (update_account_lem b v dst))
      (write_accounts_lem m
          (record dst { accounts = (if dst.is_static then dst.accounts else put dst.accounts b v) })
        ∙ ap (λ s. record dst { accounts = s }) (ground arith))

abbrev merged : Map (Map ℕ) → ℕ → Map ℕ → Map ℕ
merged st b sl = elim (lookup b st) [ none ↦ sl | some old ↦ put_from old sl ]

-- Every map of slots is merged into the one of its address.
merge_all : Map (Map ℕ) → Map (Map ℕ) → Map (Map ℕ)
merge_all base [] = base
merge_all base ((b, sl) ∷ st) = merge_all (put base b (merged base b sl)) st

update_storage_slots_lem :
    (b : ℕ) (v : Map ℕ) (dst : Ctx)
    → (update_storage_slots b v dst).1 ≡ record dst {
      storage = (if dst.is_static then dst.storage else put dst.storage b (merged dst.storage b v));
    }
unfolding update_storage_slots
update_storage_slots_lem b v dst = elim (Bool-cases dst.is_static) [
  | inl static ↦ ground arith
  | inr free ↦ ground arith
]

write_storage_lem :
    (m : Map (Map ℕ)) (dst : Ctx)
    → write_storage m dst
      ≡ record dst { storage = (if dst.is_static then dst.storage else merge_all dst.storage m) }
unfolding write_storage merge_all
write_storage_lem [] dst = elim (Bool-cases dst.is_static) [
  | inl static ↦ ground arith
  | inr free ↦ ground arith
]
write_storage_lem ((b, v) ∷ m) dst =
    subst
      (λ d. write_storage m d ≡ record dst {
        storage =
            (if dst.is_static
              then dst.storage
              else merge_all (put dst.storage b (merged dst.storage b v)) m);
      })
      (sym (update_storage_slots_lem b v dst))
      (write_storage_lem m (record dst {
        storage =
            (if dst.is_static then dst.storage else put dst.storage b (merged dst.storage b v));
      })
        ∙ ap (λ s. record dst { storage = s }) (ground arith))

update_transient_slots_lem :
    (b : ℕ) (v : Map ℕ) (dst : Ctx)
    → (update_transient_slots b v dst).1 ≡ record dst {
      transient =
          (if dst.is_static then dst.transient else put dst.transient b (merged dst.transient b v));
    }
unfolding update_transient_slots
update_transient_slots_lem b v dst = elim (Bool-cases dst.is_static) [
  | inl static ↦ ground arith
  | inr free ↦ ground arith
]

write_transient_lem :
    (m : Map (Map ℕ)) (dst : Ctx)
    → write_transient m dst ≡ record dst {
      transient = (if dst.is_static then dst.transient else merge_all dst.transient m);
    }
unfolding write_transient merge_all
write_transient_lem [] dst = elim (Bool-cases dst.is_static) [
  | inl static ↦ ground arith
  | inr free ↦ ground arith
]
write_transient_lem ((b, v) ∷ m) dst =
    subst
      (λ d. write_transient m d ≡ record dst {
        transient =
            (if dst.is_static
              then dst.transient
              else merge_all (put dst.transient b (merged dst.transient b v)) m);
      })
      (sym (update_transient_slots_lem b v dst))
      (write_transient_lem m (record dst {
        transient =
            (if dst.is_static
              then dst.transient
              else put dst.transient b (merged dst.transient b v));
      })
        ∙ ap (λ s. record dst { transient = s }) (ground arith))

-- The slots that an address has behind the update of one.
merged_slots :
    (st : Map (Map ℕ)) (b : ℕ) (sl : Map ℕ) (a k : ℕ)
    → Distinct sl
    → lookup k (slots_of a (put st b (merged st b sl))) ≡ (
        if a == b
        then or_else (lookup k sl) (lookup k (slots_of b st))
        else lookup k (slots_of a st))
unfolding lookup
merged_slots st b sl a k d = elim (Option-cases (lookup b st)) [
  | inl e ↦ ground (arith, slots_of-put st b a sl)
  | inr (old, e) ↦ ground (arith, slots_of-put st b a (put_from old sl), lookup-put_from old sl k d)
]

pub slots_absent :
    (st : Map (Map ℕ)) (a b k : ℕ) → lookup b st ≡ none → a ≡ b → lookup k (slots_of a st) ≡ none
unfolding lookup
slots_absent st a b k absent e = subst (λ i. lookup k (slots_of i st) ≡ none) (sym e) (ground arith)

slots_of-merge_all :
    (base st : Map (Map ℕ)) (a k : ℕ)
    → DistinctSlots st
    → lookup k (slots_of a (merge_all base st))
      ≡ or_else (lookup k (slots_of a st)) (lookup k (slots_of a base))
unfolding merge_all lookup
slots_of-merge_all base [] a k d = refl
slots_of-merge_all base ((b, sl) ∷ st) a k (absent, d, ds) = ground (
  arith,
  slots_of-merge_all (put base b (merged base b sl)) st a k ds,
  merged_slots base b sl a k d,
  slots_absent st a b k absent,
)

abbrev written : Ctx → Ctx → Ctx
written c dst = record dst {
  accounts = put_from dst.accounts c.accounts;
  storage = merge_all dst.storage c.storage;
  transient = merge_all dst.transient c.transient;
  warm_accounts = add_from dst.warm_accounts c.warm_accounts;
}

-- The three writes in one, into a context that is not static.
write_changes_to_free :
    (c dst : Ctx) → dst.is_static ≡ false → write_changes_to c dst ≡ written c dst
unfolding write_changes_to
write_changes_to_free c dst free =
    rw (write_accounts_lem, write_storage_lem, write_transient_lem) (ground arith)

-- Where a call's maps hold an address and a slot once each, as hash maps do, its changes are
-- written to a context that is not static so that this one holds, for every account, storage slot
-- and transient slot, what the call held, and else what it held before; its gas and stack stay. Into
-- a static context only the set of warm accounts is written.
pub write_changes_to-Merged :
    (c dst : Ctx)
    → Distinct c.accounts
    → DistinctSlots c.storage
    → DistinctSlots c.transient
    → ((dst.is_static ≡ false) × Merged c dst (write_changes_to c dst))
      ⊎ ((dst.is_static ≡ true)
          × (write_changes_to c dst
              ≡ record dst { warm_accounts = add_from dst.warm_accounts c.warm_accounts }))
unfolding write_changes_to
write_changes_to-Merged c dst da ds dt = elim (Bool-cases dst.is_static) [
  | inl static ↦
      inr (static, rw (write_accounts_lem, write_storage_lem, write_transient_lem) (ground arith))
  | inr free ↦ inl (
    free,
    subst (Merged c dst) (sym (write_changes_to_free c dst free)) (record {
      accounts = λ a. lookup-put_from dst.accounts c.accounts a da;
      storage = λ a k. slots_of-merge_all dst.storage c.storage a k ds;
      transient = λ a k. slots_of-merge_all dst.transient c.transient a k dt;
      same_gas = refl;
      same_stack = refl;
    }),
  )
]
