-- ===== src/Context/Provider.antt =====
-- The reads of src/ethereum/EVMSimulationContext.cpp that go down the chain of contexts to the
-- state provider, and cache what they find in each context on the way.
use komozoievm.External.{Env, Account}
use komozoievm.Context.State.{Ctx}
use komozoievm.Common.{
  ℕ, ◌+◌, ◌%◌, ◌^◌, List, [], ◌∷◌, Option, none, some, Map, lookup, put, contains, ◌==◌,
  if◌then◌else◌,
}

-- `warmAccount`: 2500 more, depending on what `HashSet::add` answers.
unfoldable pub warm_account : Env → ℕ → Ctx → Ctx
warm_account e a c =
    let known = contains a c.warm_accounts in
    record c {
      warm_accounts = if known then c.warm_accounts else a ∷ c.warm_accounts;
      gas_used = if e.add_answer known then c.gas_used else (c.gas_used + 2500) % 2 ^ 32;
    }

-- A block number of 0 stands for the state block.
abbrev block_or_state : Env → ℕ → ℕ
block_or_state e number = if number == 0 then e.block.state_block else number

-- `getAccountInfo`, of the innermost context of a list.
unfoldable pub get_account_info : Env → List Ctx → ℕ → ℕ → Account × List Ctx
get_account_info e [] a number = (e.base_account a number, [])
get_account_info e (c ∷ cs) a number = elim (lookup a c.accounts) [
  | some info ↦ (info, c ∷ cs)
  | none ↦
      let below = get_account_info e cs a (block_or_state e number) in
      (below.0, record c { accounts = put c.accounts a below.0 } ∷ below.1)
]

-- `getContractCode`.
unfoldable pub get_contract_code : Env → List Ctx → ℕ → List ℕ × List Ctx
unfolding warm_account
get_contract_code e [] a = (e.base_code a, [])
get_contract_code e (c ∷ cs) a = elim (lookup a c.runcodes) [
  | some code ↦ (code, c ∷ cs)
  | none ↦
      let c' = warm_account e a c in
      let below = get_contract_code e cs a in
      (below.0, record c' { runcodes = put c'.runcodes a below.0 } ∷ below.1)
]

-- The slots cached for an address, or a new map of them.
abbrev pub slots_of : ℕ → Map (Map ℕ) → Map ℕ
slots_of a storage = elim (lookup a storage) [ none ↦ [] | some slots ↦ slots ]

-- A list of one value, as `getStorageSlot` wants it.
unfoldable pub single : List ℕ → Option ℕ
single (v ∷ []) = some v
single _ = none

-- `StateProvider::getStorageSlot`, which asks `getStorageSlots` for a list of one key; in a
-- context that is one round of its loop. Where the provider answers otherwise the context keeps
-- the default value that it has put already.
unfoldable pub get_storage_slot : Env → List Ctx → ℕ → ℕ → ℕ → Option ℕ × List Ctx
unfolding single
get_storage_slot e [] a key number = (single (e.base_slots a (key ∷ []) number), [])
get_storage_slot e (c ∷ cs) a key number =
    let slots = slots_of a c.storage in
    elim (lookup key slots) [
      | some v ↦ (some v, record c { storage = put c.storage a slots } ∷ cs)
      | none ↦
          let below = get_storage_slot e cs a key (block_or_state e number) in
          let v : ℕ = elim (below.0) [ none ↦ e.default_word | some v ↦ v ] in
          (below.0, record c { storage = put c.storage a (put slots key v) } ∷ below.1)
    ]
