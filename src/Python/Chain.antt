-- ===== src/Python/Chain.antt =====
-- The class `MockChain` of src/python.cpp, a state provider in memory. The map that `storage` points
-- to for an address is allocated once and named by no other address, so it stands in its place.
pub mod Views
pub mod Written
use komozoievm.External.{Env, Account}
use komozoievm.Context.Provider.{slots_of}
use komozoievm.Context.Commit.{Update, account, slots}
use komozoievm.Common.{ℕ, List, [], ◌∷◌, none, some, Map, lookup, put, put_from}

pub record MockChain : Type 0 where
  pub accounts : Map Account
  pub code : Map (List ℕ)
  pub storage : Map (Map ℕ)

-- `MockChain()`.
abbrev pub new_chain : MockChain
new_chain = record { accounts = []; code = []; storage = [] }

-- `EthereumAccountInfo(address, balance, 0)`.
abbrev pub fresh_account : ℕ → ℕ → Account
fresh_account a n = record { balance = n; address = a; next_nonce = 0 }

-- `getAccountInfo`, of any block.
unfoldable pub get_account_info : MockChain → ℕ → Account
get_account_info ch a = elim (lookup a ch.accounts) [ some info ↦ info | none ↦ fresh_account a 0 ]

-- `getContractCode`.
unfoldable pub get_contract_code : MockChain → ℕ → List ℕ
get_contract_code ch a = elim (lookup a ch.code) [ some bytes ↦ bytes | none ↦ [] ]

-- `getStorageSlots`, of any block, with the value of a default-constructed number.
unfoldable pub get_storage_slots : ℕ → MockChain → ℕ → List ℕ → List ℕ
get_storage_slots default ch a [] = []
get_storage_slots default ch a (key ∷ keys) =
    let value : ℕ = elim (lookup key (slots_of a ch.storage)) [ some v ↦ v | none ↦ default ] in
    value ∷ get_storage_slots default ch a keys

-- `updateAccount`.
unfoldable pub update_account : ℕ → Account → MockChain → MockChain
update_account a info ch = record ch { accounts = put ch.accounts a info }

-- `saveContractCode`.
unfoldable pub save_contract_code : ℕ → List ℕ → MockChain → MockChain
save_contract_code a bytes ch = record ch { code = put ch.code a bytes }

-- `updateStorageSlots`.
unfoldable pub update_storage_slots : ℕ → Map ℕ → MockChain → MockChain
update_storage_slots a entries ch = record ch {
  storage = put ch.storage a (put_from (slots_of a ch.storage) entries);
}

-- `setBalance`, which makes the nonce 0.
unfoldable pub set_balance : ℕ → ℕ → MockChain → MockChain
set_balance a balance ch = record ch { accounts = put ch.accounts a (fresh_account a balance) }

-- `setCode`.
unfoldable pub set_code : ℕ → List ℕ → MockChain → MockChain
set_code a bytes ch = record ch { code = put ch.code a bytes }

-- `setStorageSlot`.
unfoldable pub set_storage_slot : ℕ → ℕ → ℕ → MockChain → MockChain
set_storage_slot a key value ch = record ch {
  storage = put ch.storage a (put (slots_of a ch.storage) key value);
}

-- What a run of the simulator reads of a chain.
unfoldable pub env_of : Env → MockChain → Env
unfolding get_account_info get_contract_code get_storage_slots
env_of e ch = record e {
  base_account = λ a number. get_account_info ch a;
  base_code = λ a. get_contract_code ch a;
  base_slots = λ a keys number. get_storage_slots e.default_word ch a keys;
}

-- One of the calls that a context writes its changes with, on a chain.
unfoldable pub sent : Update → MockChain → MockChain
unfolding update_account update_storage_slots
sent (account a info) ch = update_account a info ch
sent (slots a entries) ch = update_storage_slots a entries ch

unfoldable pub all_sent : List Update → MockChain → MockChain
unfolding sent
all_sent [] ch = ch
all_sent (u ∷ us) ch = all_sent us (sent u ch)
