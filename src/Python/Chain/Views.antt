-- ===== src/Python/Chain/Views.antt =====
-- What can be read of a `MockChain` of src/python.cpp, and how its operations change that.
use komozoievm.External.{Account}
use komozoievm.Context.Provider.{slots_of}
use komozoievm.Context.Overlay.Slots.{slots_of-put, slot-put}
use komozoievm.Python.Chain.{
  MockChain, fresh_account, get_account_info, get_contract_code, get_storage_slots, update_account,
  save_contract_code, update_storage_slots, set_balance, set_code, set_storage_slot,
}
use komozoievm.Common.{
  ℕ, ◌≡◌, refl, ap, ◌∙◌, map, List, [], ◌∷◌, Option, none, some, Map, lookup, put, put_from,
  lookup-put, lookup-put_from, Distinct, ◌==◌, if◌then◌else◌, arith,
}
use mathlib.Core.Path.{fun_ext}

-- A chain as functions of the address and the slot.
pub record View : Type 0 where
  pub account_of : ℕ → Account
  pub code_of : ℕ → List ℕ
  pub slot_of : ℕ → ℕ → ℕ

-- A slot's value, where none stands for the default.
abbrev pub or_value : ℕ → Option ℕ → ℕ
or_value d none = d
or_value d (some v) = v

abbrev pub view : ℕ → MockChain → View
view default ch = record {
  account_of = λ a. get_account_info ch a;
  code_of = λ a. get_contract_code ch a;
  slot_of = λ a k. or_value default (lookup k (slots_of a ch.storage));
}

-- The calls that change a chain.
pub data ChainCall : Type 0 where
  to_balance : ℕ → ℕ → ChainCall
  to_code : ℕ → List ℕ → ChainCall
  to_slot : ℕ → ℕ → ℕ → ChainCall
  to_account : ℕ → Account → ChainCall
  to_saved_code : ℕ → List ℕ → ChainCall
  to_slots : ℕ → Map ℕ → ChainCall

unfoldable pub called : ChainCall → MockChain → MockChain
called (to_balance a n) ch = set_balance a n ch
called (to_code a bytes) ch = set_code a bytes ch
called (to_slot a k v) ch = set_storage_slot a k v ch
called (to_account a info) ch = update_account a info ch
called (to_saved_code a bytes) ch = save_contract_code a bytes ch
called (to_slots a entries) ch = update_storage_slots a entries ch

unfoldable pub all_called : List ChainCall → MockChain → MockChain
unfolding called
all_called [] ch = ch
all_called (c ∷ cs) ch = all_called cs (called c ch)

-- A function with one other value.
abbrev pub at : {A : Type 0} → ℕ → A → (ℕ → A) → ℕ → A
at a x f b = if b == a then x else f b

-- What a call does to the functions.
unfoldable pub revised : ChainCall → View → View
revised (to_balance a n) v = record v { account_of = at a (fresh_account a n) v.account_of }
revised (to_code a bytes) v = record v { code_of = at a bytes v.code_of }
revised (to_slot a k x) v = record v { slot_of = at a (at k x (v.slot_of a)) v.slot_of }
revised (to_account a info) v = record v { account_of = at a info v.account_of }
revised (to_saved_code a bytes) v = record v { code_of = at a bytes v.code_of }
revised (to_slots a entries) v = record v {
  slot_of = at a (λ k. or_value (v.slot_of a k) (lookup k entries)) v.slot_of;
}

unfoldable pub all_revised : List ChainCall → View → View
unfolding revised
all_revised [] v = v
all_revised (c ∷ cs) v = all_revised cs (revised c v)

-- The entries of an update have distinct keys, as in a hash map.
abbrev pub IsCall : ChainCall → Type 0
IsCall (to_slots a entries) = Distinct entries
IsCall (to_balance a n) = Unit
IsCall (to_code a bytes) = Unit
IsCall (to_slot a k v) = Unit
IsCall (to_account a info) = Unit
IsCall (to_saved_code a bytes) = Unit

abbrev pub AreCalls : List ChainCall → Type 0
AreCalls [] = Unit
AreCalls (c ∷ cs) = IsCall c × AreCalls cs

put_account :
    (a : ℕ) (info : Account) (ch : MockChain)
    → get_account_info (record ch { accounts = put ch.accounts a info })
      ≡ at a info (λ b. get_account_info ch b)
unfolding get_account_info
put_account a info ch = fun_ext λ b. ground (arith, lookup-put ch.accounts a b info)

put_code :
    (a : ℕ) (bytes : List ℕ) (ch : MockChain)
    → get_contract_code (record ch { code = put ch.code a bytes })
      ≡ at a bytes (λ b. get_contract_code ch b)
unfolding get_contract_code
put_code a bytes ch = fun_ext λ b. ground (arith, lookup-put ch.code a b bytes)

put_slot :
    (d a key x : ℕ) (ch : MockChain)
    → (view d
        (record ch { storage = put ch.storage a (put (slots_of a ch.storage) key x) })).slot_of
      ≡ at a (at key x ((view d ch).slot_of a)) (view d ch).slot_of
put_slot d a key x ch = fun_ext λ b. fun_ext λ k. ground (arith, slot-put ch.storage a b key k x)

put_slots :
    (d a : ℕ) (entries : Map ℕ) (ch : MockChain)
    → Distinct entries
    → (view d (update_storage_slots a entries ch)).slot_of
      ≡ at a (λ k. or_value ((view d ch).slot_of a k) (lookup k entries)) (view d ch).slot_of
unfolding update_storage_slots
put_slots d a entries ch distinct = fun_ext λ b. fun_ext λ k. ground (
  arith,
  slots_of-put ch.storage a b (put_from (slots_of a ch.storage) entries),
  lookup-put_from (slots_of a ch.storage) entries k distinct,
)

view-called :
    (d : ℕ) (c : ChainCall) (ch : MockChain)
    → IsCall c
    → view d (called c ch) ≡ revised c (view d ch)
unfolding called revised set_balance set_code set_storage_slot update_account save_contract_code
    update_storage_slots get_account_info get_contract_code
view-called d (to_balance a n) ch h =
    ap (λ f. record (view d ch) { account_of = f }) (put_account a (fresh_account a n) ch)
view-called d (to_account a info) ch h =
    ap (λ f. record (view d ch) { account_of = f }) (put_account a info ch)
view-called d (to_code a bytes) ch h =
    ap (λ f. record (view d ch) { code_of = f }) (put_code a bytes ch)
view-called d (to_saved_code a bytes) ch h =
    ap (λ f. record (view d ch) { code_of = f }) (put_code a bytes ch)
view-called d (to_slot a k x) ch h =
    ap (λ f. record (view d ch) { slot_of = f }) (put_slot d a k x ch)
view-called d (to_slots a entries) ch h =
    ap (λ f. record (view d ch) { slot_of = f }) (put_slots d a entries ch h)

view-all_called :
    (d : ℕ) (cs : List ChainCall) (ch : MockChain)
    → AreCalls cs
    → view d (all_called cs ch) ≡ all_revised cs (view d ch)
unfolding all_called all_revised
view-all_called d [] ch h = refl
view-all_called d (c ∷ cs) ch (h, hs) =
    view-all_called d cs (called c ch) hs ∙ ap (λ v. all_revised cs v) (view-called d c ch h)

pub get_storage_slots_lem :
    (d : ℕ) (ch : MockChain) (a : ℕ) (keys : List ℕ)
    → get_storage_slots d ch a keys ≡ map ((view d ch).slot_of a) keys
unfolding get_storage_slots
get_storage_slots_lem d ch a [] = refl
get_storage_slots_lem d ch a (key ∷ keys) = ground (arith, get_storage_slots_lem d ch a keys)

-- Any sequence of calls that change a chain, where the entries of an update have distinct keys,
-- changes what the chain answers for accounts, code and slots as it changes three functions: each
-- call at its own address, and each slot at its own key. A list of keys is answered with the list
-- of their slots.
pub chain_refines :
    (d : ℕ) (cs : List ChainCall) (ch : MockChain)
    → AreCalls cs
    → (view d (all_called cs ch) ≡ all_revised cs (view d ch))
      × ((a : ℕ) (keys : List ℕ)
          → get_storage_slots d (all_called cs ch) a keys
            ≡ map ((all_revised cs (view d ch)).slot_of a) keys)
chain_refines d cs ch h = (
  same,
  λ a keys.
      get_storage_slots_lem d (all_called cs ch) a keys
      ∙ ap (λ (v : View). map (v.slot_of a) keys) same,
)
  where
    same : view d (all_called cs ch) ≡ all_revised cs (view d ch)
    same = view-all_called d cs ch h
