-- ===== src/Context/Overlay/Caches.antt =====
-- The caches that the reads of src/ethereum/EVMSimulationContext.cpp leave in the contexts.
use komozoievm.External.{Env}
use komozoievm.Context.State.{Ctx}
use komozoievm.Context.Provider.{get_account_info, get_contract_code, get_storage_slot}
use komozoievm.Common.{ℕ, ◌≡◌, List}

-- One read from some contexts, by the innermost: of an account, of a contract's code or of a storage
-- slot, at the state block. Behind it each context on the way holds the answer.
pub data Read (e : Env) : List Ctx → List Ctx → Type 0 where
  account : (cs : List Ctx) (a : ℕ) → Read e cs (get_account_info e cs a e.block.state_block).1
  code : (cs : List Ctx) (a : ℕ) → Read e cs (get_contract_code e cs a).1
  slot : (cs : List Ctx) (a key : ℕ) → Read e cs (get_storage_slot e cs a key e.block.state_block).1

-- Some reads, one behind the other.
pub data Reads (e : Env) (cs : List Ctx) : List Ctx → Type 0 where
  here : Reads e cs cs
  next : {ds fs : List Ctx} → Reads e cs ds → Read e ds fs → Reads e cs fs

-- Two chains of contexts that give the same answers to all reads.
pub record IsAlike (e : Env) (cs ds : List Ctx) : Type 0 where
  pub accounts :
      (a : ℕ)
      → (get_account_info e ds a e.block.state_block).0
        ≡ (get_account_info e cs a e.block.state_block).0
  pub codes : (a : ℕ) → (get_contract_code e ds a).0 ≡ (get_contract_code e cs a).0
  pub slots :
      (a key : ℕ)
      → (get_storage_slot e ds a key e.block.state_block).0
        ≡ (get_storage_slot e cs a key e.block.state_block).0
