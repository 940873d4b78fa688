-- ===== src/Tests/Pythons.antt =====
-- The theorems on src/python.cpp at concrete chains, objects and calls.
use komozoievm.External.{Env}
use komozoievm.Context.State.{Res, World, Outcome, done}
use komozoievm.Context.Provider.{get_account_info}
use komozoievm.Machine.Run.{
  run_evm, transaction_context, world_of, start, loop, tick, exec, transfer, resolve_code,
  after_tick,
}
use komozoievm.Machine.Op.{decode}
use komozoievm.Machine.Data.{exec_memory}
use komozoievm.Machine.Control.{exec_push, exec_stop}
use komozoievm.Python.Objects.{
  Library, PyObject, EthereumTransaction, Block, none_object, int_object, float_object, finite,
  text, address, answer,
}
use komozoievm.Python.Values.{address_from_py, u256_from_py, gas_from_py}
use komozoievm.Python.Values.Accepted.{
  digits_of, taken, IsGas, address_from_py_text, gas_from_py-IsGas,
}
use komozoievm.Python.Chain.{MockChain, new_chain, get_storage_slots}
use komozoievm.Python.Chain.Views.{
  view, ChainCall, to_balance, to_slot, to_slots, all_called, all_revised, chain_refines,
}
use komozoievm.Python.Chain.Written.{Written}
use komozoievm.Python.Bindings.{
  storage_set, slots_got, words_from_py, u256_to_py, slots_got-storage_set,
}
use komozoievm.Python.Calls.{
  seen, env_for, run_execute, build_call_transaction, calldata_from_py, chain_simulate_call,
  chain_execute_call, run_simulate_on_chain, run_execute_on_chain,
}
use komozoievm.Python.Calls.Built.{Converts, Carries, build_call_transaction-Carries}
use komozoievm.Python.Calls.Runs.{result_of, simulated, run_execute-Written, simulate-execute}
use komozoievm.Common.{
  ◌==◌, ℕ, ◌-◌, ◌%◌, ◌^◌, ◌<◌, ◌≡◌, refl, ◌⊎◌, List, [], ◌∷◌, replicate, map, none, some, true,
  false, ltb, leb, ◌&&◌, if◌then◌else◌, arith, pos, lookup, put,
}
use komozoievm.Tests.Setting.{empty_chain}

-- Digits by their codes in ASCII, lower case alone.
abbrev digit : ℕ → ℕ
digit c = if leb 48 c && ltb c 58 then c - 48 else if leb 97 c && ltb c 103 then c - 87 else 255

abbrev library : Library
library = record {
  parse_hex_digit = digit;
  parse_address = λ s. 0xA0;
  parse_word = λ s. 7;
  default_address = 0;
  to_uint64 = λ x. x % 2 ^ 64;
}

chain_calls : List ChainCall
chain_calls = to_balance 3 100 ∷ to_slot 4 1 9 ∷ to_slots 4 ((2, 8) ∷ (1, 7) ∷ []) ∷ []

chain_refines_example :
    (view 0 (all_called chain_calls new_chain) ≡ all_revised chain_calls (view 0 new_chain))
    × ((a : ℕ) (keys : List ℕ)
        → get_storage_slots 0 (all_called chain_calls new_chain) a keys
          ≡ map ((all_revised chain_calls (view 0 new_chain)).slot_of a) keys)
unfolding chain_calls lookup
chain_refines_example = chain_refines 0 chain_calls new_chain (tt, (tt, ((refl, (refl, tt)), tt)))

forty_digits : List ℕ
forty_digits = 48 ∷ 120 ∷ replicate 40 97

address_from_py_text_example :
    address_from_py library (text forty_digits) ≡ taken library (digits_of forty_digits)
address_from_py_text_example = address_from_py_text library forty_digits

-- 5 / 2 is rounded to 3.
gas_from_py-IsGas_example : IsGas (float_object (finite false 5 1)) 3 × (3 < 2 ^ 32)
unfolding gas_from_py
gas_from_py-IsGas_example = gas_from_py-IsGas (float_object (finite false 5 1)) 3 refl

library-Converts : Converts library
library-Converts = record { keeps = λ x small. omega (arith, small); fits = λ x. omega arith }

build_call_transaction-Carries_example :
    (tx : EthereumTransaction) × (build_call_transaction library
        (address 0xA0)
        (address 0xB0)
        none_object
        (int_object (pos 5))
        9
      ≡ answer tx)
    × Carries [] 0xB0 0xA0 5 9 tx
unfolding calldata_from_py address_from_py u256_from_py
build_call_transaction-Carries_example =
    build_call_transaction-Carries library (address 0xA0) (address 0xB0) none_object
      (int_object (pos 5)) [] 0xB0 0xA0 5 9 library-Converts refl refl refl refl

abbrev payment : EthereumTransaction
payment = record {
  sender = 0xB0;
  recipient = 0xA0;
  gas = record {
    gas_limit = 100000;
    gas_price = 0;
    max_fee_per_gas = 0;
    max_priority_fee_per_gas = 0;
  };
  input = [];
  nonce = 0;
  value = 5;
}

abbrev first_block : Block
first_block = record {
  randao = 0;
  coinbase = 0;
  number = 1;
  timestamp = 0;
  gas_limit = 0;
  base_fee = 0;
  chain_id = 1;
}

-- The contract puts 7 into slot 1.
abbrev funded : MockChain
funded = record {
  accounts = (0xB0, record { balance = 100; address = 0xB0; next_nonce = 0 }) ∷ [];
  code = (0xA0, 0x60 ∷ 7 ∷ 0x60 ∷ 1 ∷ 0x55 ∷ 0 ∷ []) ∷ [];
  storage = [];
}

abbrev payment_env : Env
payment_env = env_for empty_chain funded payment first_block

abbrev stopped : Outcome
stopped = record { success = true; return_data = some []; message = none }

abbrev world_behind : Res Outcome → World
world_behind (done o w) = w
world_behind _ = world_of (transaction_context payment_env (seen payment))

abbrev paid : World
paid =
    world_behind
      (run_evm payment_env 20 true (world_of (transaction_context payment_env (seen payment))))

run_execute-Written_example :
    ((true ≡ false)
      × (run_execute empty_chain 20 funded payment first_block
          ≡ answer (result_of stopped paid.frame.gas_used, funded)))
    ⊎ ((true ≡ true)
        × (after : MockChain) × (run_execute empty_chain 20 funded payment first_block
            ≡ answer (result_of stopped paid.frame.gas_used, after))
        × Written paid.frame funded after)
unfolding run_evm transaction_context lookup put get_account_info env_for loop tick exec decode
    exec_push komozoievm.Machine.Run.get_initial_gas_cost exec_memory exec_stop
run_execute-Written_example =
    run_execute-Written empty_chain 20 funded payment first_block stopped paid refl
      (refl, (refl, tt)) (refl, (refl, tt), tt)

simulate-execute_example :
    (chain_simulate_call library empty_chain 20 funded
        (address 0xA0)
        (address 0xB0)
        none_object
        (int_object (pos 5))
        none_object
        (int_object (pos 9))
      ≡ simulated (
          chain_execute_call library empty_chain 20 funded
            (address 0xA0)
            (address 0xB0)
            none_object
            (int_object (pos 5))
            none_object
            (int_object (pos 9))))
    × (run_simulate_on_chain library empty_chain 20 funded none_object first_block
        ≡ simulated (run_execute_on_chain library empty_chain 20 funded none_object first_block))
simulate-execute_example =
    simulate-execute library empty_chain 20 funded (address 0xA0) (address 0xB0) none_object
      (int_object (pos 5)) none_object (int_object (pos 9)) none_object first_block

slots_got-storage_set_example :
    (after : MockChain) × (storage_set library
        (address 4)
        (int_object (pos 1))
        (int_object (pos 9))
        new_chain
      ≡ answer after)
    × ((b : ℕ) (keys : List PyObject) (ks : List ℕ)
        → words_from_py library keys ≡ answer ks
        → slots_got library 0 after b keys
          ≡ answer (
              map u256_to_py
                (map (λ k. if (b == 4) && (k == 1) then 9 else (view 0 new_chain).slot_of b k) ks)))
unfolding address_from_py u256_from_py
slots_got-storage_set_example =
    slots_got-storage_set library 0 new_chain (address 4) (int_object (pos 1)) (int_object (pos 9))
      4 1 9 refl refl refl
