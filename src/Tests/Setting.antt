-- ===== src/Tests/Setting.antt =====
-- A number library, containers and an empty chain for the tests.
use komozoievm.External.{Env, Numbers, Containers, BlockInfo}
use komozoievm.Context.State.{Ctx, World}
use komozoievm.Machine.Run.{Transaction, world_of}
use komozoievm.Common.{
  ℕ, ◌+◌, ◌-◌, ◌/◌, ◌%◌, ◌^◌, List, [], none, true, false, ℤ, pos, negsuc, ltb, ◌==◌, if◌then◌else◌,
  replicate, map,
}

-- The low 32 bits in two's complement.
abbrev pub low_int : ℕ → ℤ
low_int x = let r = x % 2 ^ 32 in if ltb r (2 ^ 31) then pos r else negsuc (2 ^ 32 - 1 - r)

abbrev pub tested_numbers : Numbers
tested_numbers = record {
  div = λ a b. a / b;
  sdiv = λ a b. a / b;
  mod_word = λ a b. if b == 0 then 0 else a % b;
  smod = λ a b. if b == 0 then 0 else a % b;
  sar = λ a b. a / 2 ^ b;
  signed_less_than = λ a b. ltb ((a + 2 ^ 255) % 2 ^ 256) ((b + 2 ^ 255) % 2 ^ 256);
  mod_wide = λ a b. if b == 0 then 0 else a % b;
  to_int = low_int;
  of_negative = λ n. 2 ^ 256 - n;
}

abbrev pub tested_containers : Containers
tested_containers = record { add_answer = λ known. known; allocated = λ m. true; default_word = 0 }

abbrev pub tested_block : BlockInfo
tested_block = record {
  randao = 7;
  coinbase = 0xC0;
  number = 100;
  timestamp = 1000;
  base_fee = 1;
  chain_id = 1;
  gas_price = 10;
  state_block = 99;
}

-- A chain on which one contract has a code, every account 1000, and every slot 11.
abbrev pub chain_with : List ℕ → Env
chain_with code = record {
  numbers = tested_numbers;
  containers = tested_containers;
  keccak256 = λ m. 42;
  sha2 = λ m. replicate 32 1;
  recover = λ h v r s. none;
  block = tested_block;
  base_account = λ a n. record { balance = 1000; address = a; next_nonce = 0 };
  base_code = λ a. if a == 0xA0 then code else [];
  base_slots = λ a keys n. map (λ k. 11) keys;
}

abbrev pub empty_chain : Env
empty_chain = chain_with []

abbrev pub call_a0 : List ℕ → Transaction
call_a0 calldata = record {
  sender = 0xB0;
  recipient = 0xA0;
  value = 0;
  calldata = calldata;
  gas_limit = 100000;
}

-- A context at address 0xA0 in the middle of a run.
abbrev pub context_with : List ℕ → List ℕ → Ctx
context_with code stack = record {
  origin = 0xB0;
  caller = 0xB0;
  address = 0xA0;
  value = 0;
  calldata = [];
  return_data = [];
  gas_limit = 100000;
  accounts = [];
  runcodes = [];
  storage = [];
  transient = [];
  warm_accounts = [];
  runcode = code;
  pc = 0;
  stack = stack;
  memory = [];
  gas_used = 0;
  is_static = false;
}

abbrev pub world_with : List ℕ → List ℕ → World
world_with code stack = world_of (context_with code stack)
