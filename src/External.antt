-- ===== src/External.antt =====
-- What the program takes from code that is not in the repository or is another project's: the
-- number and container library, the hash functions, and the state provider below the simulator.
use komozoievm.Common.{ℕ, ◌^◌, ◌<◌, ◌≡◌, Bool, List, Option, ℤ, pos}

-- `EthereumAccountInfo` of ethereum.h. `isValid` is read by no code that is modelled.
pub record Account : Type 0 where
  pub balance : ℕ
  pub address : ℕ
  pub next_nonce : ℕ

-- `block_info_t`, and the parts of `tx_gas_info_t` and `sim_tx_info_t` that every frame shares.
pub record BlockInfo : Type 0 where
  pub randao : ℕ
  pub coinbase : ℕ
  pub number : ℕ
  pub timestamp : ℕ
  pub base_fee : ℕ
  pub chain_id : ℕ
  pub gas_price : ℕ
  pub state_block : ℕ

-- The operations of the number library whose result the repository's text does not fix. A 256-bit
-- number is its value; sums, products, shifts and bit operations on it are written out where they
-- are used.
pub record Numbers : Type 0 where
  -- `/`, `sdiv`, `%`, `smod`, `sar` and `signedLessThan` of `uint256_t`.
  pub div : ℕ → ℕ → ℕ
  pub sdiv : ℕ → ℕ → ℕ
  pub mod_word : ℕ → ℕ → ℕ
  pub smod : ℕ → ℕ → ℕ
  pub sar : ℕ → ℕ → ℕ
  pub signed_less_than : ℕ → ℕ → Bool
  -- `%` of the 320-bit and the 512-bit number by a 256-bit one.
  pub mod_wide : ℕ → ℕ → ℕ
  -- The conversion to `int`, and the conversion of the `int` -n.
  pub to_int : ℕ → ℤ
  pub of_negative : ℕ → ℕ

-- What `HashSet::add` answers for an element that is there already, or not.
pub record Containers : Type 0 where
  pub add_answer : Bool → Bool
  -- `getMemory() != nullptr` for an `ArrayList` of this content.
  pub allocated : List ℕ → Bool
  -- The value of a default-constructed `uint256_t`.
  pub default_word : ℕ

-- The hashes, the key recovery, and the read side of the `StateProvider` that the outermost
-- context stands on. A slot is asked for with a list of one key.
pub record Env : Type 0 where
  pub numbers : Numbers
  pub open numbers use *
  pub containers : Containers
  pub open containers use *
  pub keccak256 : List ℕ → ℕ
  -- The 32 bytes of a SHA-256 digest, as `toBytes` writes them.
  pub sha2 : List ℕ → List ℕ
  -- The address of a valid signature's key, from the hash, the recovery id, `r` and `s`.
  pub recover : ℕ → ℕ → ℕ → ℕ → Option ℕ
  pub block : BlockInfo
  pub base_account : ℕ → ℕ → Account
  pub base_code : ℕ → List ℕ
  pub base_slots : ℕ → List ℕ → ℕ → List ℕ

-- A non-negative `int` comes back from a 256-bit number unchanged.
abbrev pub KeepsInts : Numbers → Type 0
KeepsInts n = (x : ℕ) → x < 2 ^ 31 → n.to_int x ≡ pos x
