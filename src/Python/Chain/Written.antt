-- ===== src/Python/Chain/Written.antt =====
-- What a `MockChain` of src/python.cpp holds behind the writes of a context.
use komozoievm.External.{Account}
use komozoievm.Context.State.{Ctx}
use komozoievm.Context.Provider.{slots_of}
use komozoievm.Context.Commit.{Update, account_updates, slot_updates, updates_of}
use komozoievm.Context.Commit.Lookup.{DistinctSlots, slots_absent}
use komozoievm.Context.Overlay.Below.{held_slot}
use komozoievm.Context.Overlay.Slots.{slots_of-put}
use komozoievm.Python.Chain.{
  MockChain, get_account_info, get_contract_code, update_account, update_storage_slots, sent,
  all_sent,
}
use komozoievm.Python.Chain.Views.{view, or_value}
use komozoievm.Common.{
  ℕ, ◌≡◌, refl, sym, subst, ap, ◌∙◌, List, [], ◌∷◌, ◌++◌, Option, none, some, Map, lookup, put,
  put_from, lookup-put_from, or_else, Distinct, arith,
}

all_sent-append :
    (us vs : List Update) (ch : MockChain) → all_sent (us ++ vs) ch ≡ all_sent vs (all_sent us ch)
unfolding all_sent
all_sent-append [] vs ch = refl
all_sent-append (u ∷ us) vs ch = all_sent-append us vs (sent u ch)

accounts_sent :
    (m : Map Account) (ch : MockChain)
    → all_sent (account_updates m) ch ≡ record ch { accounts = put_from ch.accounts m }
unfolding all_sent sent account_updates update_account put_from
accounts_sent [] ch = refl
accounts_sent ((a, info) ∷ m) ch = accounts_sent m (record ch { accounts = put ch.accounts a info })

slots_sent :
    (m : Map (Map ℕ)) (ch : MockChain) (a k : ℕ)
    → DistinctSlots m
    → lookup k (slots_of a (all_sent (slot_updates m) ch).storage)
      ≡ or_else (lookup k (slots_of a m)) (lookup k (slots_of a ch.storage))
unfolding all_sent sent slot_updates update_storage_slots lookup
slots_sent [] ch a k d = refl
slots_sent ((b, sl) ∷ m) ch a k (absent, d, ds) = ground (
  arith,
  slots_sent m (update_storage_slots b sl ch) a k ds,
  slots_of-put ch.storage b a (put_from (slots_of b ch.storage) sl),
  lookup-put_from (slots_of b ch.storage) sl k d,
  slots_absent m a b k absent,
)

-- Slots that are sent change nothing else.
others_kept :
    (m : Map (Map ℕ)) (ch : MockChain)
    → ((all_sent (slot_updates m) ch).accounts ≡ ch.accounts)
      × ((all_sent (slot_updates m) ch).code ≡ ch.code)
unfolding all_sent sent slot_updates update_storage_slots
others_kept [] ch = (refl, refl)
others_kept ((b, sl) ∷ m) ch = others_kept m (update_storage_slots b sl ch)

-- What a chain holds behind the writes of a context: what that held, and else what the chain held.
pub record Written (c : Ctx) (ch after : MockChain) : Type 0 where
  pub accounts :
      (a : ℕ)
      → get_account_info after a
        ≡ (elim (lookup a c.accounts) [ some info ↦ info | none ↦ get_account_info ch a ])
  pub slots :
      (d a k : ℕ)
      → (view d after).slot_of a k ≡ or_value ((view d ch).slot_of a k) (held_slot c a k)
  pub code : (a : ℕ) → get_contract_code after a ≡ get_contract_code ch a

or_value_else : (d : ℕ) (x y : Option ℕ) → or_value d (or_else x y) ≡ or_value (or_value d y) x
or_value_else d none y = refl
or_value_else d (some v) y = refl

pub updates_of-Written :
    (c : Ctx) (ch : MockChain)
    → Distinct c.accounts
    → DistinctSlots c.storage
    → Written c ch (all_sent (updates_of c) ch)
unfolding updates_of get_account_info get_contract_code
updates_of-Written c ch da ds = subst (Written c ch) (sym split) (record {
  accounts = λ a. ground (arith, kept.0, lookup-put_from ch.accounts c.accounts a da);
  slots = λ d a k.
      ap (or_value d) (slots_sent c.storage between a k ds)
      ∙ or_value_else d (held_slot c a k) (lookup k (slots_of a ch.storage));
  code =
      λ a. ap (λ (m : Map (List ℕ)). elim (lookup a m) [ some bytes ↦ bytes | none ↦ [] ]) kept.1;
})
  where
    between : MockChain
    between = record ch { accounts = put_from ch.accounts c.accounts }

    kept :
        ((all_sent (slot_updates c.storage) between).accounts ≡ put_from ch.accounts c.accounts)
        × ((all_sent (slot_updates c.storage) between).code ≡ ch.code)
    kept = others_kept c.storage between

    split : all_sent (updates_of c) ch ≡ all_sent (slot_updates c.storage) between
    split =
        all_sent-append (account_updates c.accounts) (slot_updates c.storage) ch
        ∙ ap (all_sent (slot_updates c.storage)) (accounts_sent c.accounts ch)
