-- ===== src/Python/Calls.antt =====
-- The functions of src/python.cpp that build transactions and run them on a chain. The arguments of
-- a constructor are converted here as they are listed; C++ fixes no order.
pub mod Runs
pub mod Built
use komozoievm.External.{Env, BlockInfo}
use komozoievm.Envelope.{GasInfo}
use komozoievm.Context.State.{Message, Outcome, done, fault, timeout}
use komozoievm.Machine.Run.{Transaction, Execution, simulate, execute}
use komozoievm.Python.Objects.{
  Block, EthereumTransaction, TransactionBuilder, PyObject, none_object, block_object, transaction,
  builder, type_error, cast_error, Answer, answer, raised, faulted, unfinished, ◌>>=◌, Library,
}
use komozoievm.Python.Values.{
  address_from_py, u256_from_py, cast_buffer, bytes_from_py, gas_from_py,
}
use komozoievm.Python.Chain.{MockChain, env_of, all_sent}
use komozoievm.Common.{ℕ, ◌+◌, ◌-◌, ◌%◌, ◌^◌, List, [], Option, none, some, Bool, take, length}

-- `initFrom` of src/ethereum/EthereumTransaction.h behind the constructor, whose `value` is a
-- `uint64_t`; of the call data, what `calldata()` gives, by a 16-bit length.
unfoldable pub init_from :
    (src dst : ℕ) → GasInfo → List ℕ → (nonce value : ℕ) → EthereumTransaction
init_from src dst gas input nonce value = record {
  sender = src;
  recipient = dst;
  gas = gas;
  input = take (length input % 2 ^ 16) input;
  nonce = nonce;
  value = value;
}

-- The call data that the bindings copy from an object.
unfoldable pub calldata_from_py : PyObject → Answer (List ℕ)
unfolding bytes_from_py
calldata_from_py o = bytes_from_py o

-- `buildCallTransaction`.
unfoldable pub build_call_transaction :
    Library → (dst src calldata value : PyObject) → ℕ → Answer EthereumTransaction
unfolding calldata_from_py init_from address_from_py u256_from_py
build_call_transaction lib dst src calldata value gas_limit = do
  input ← calldata_from_py calldata
  from ← address_from_py lib src
  to ← address_from_py lib dst
  amount ← u256_from_py lib value
  let gas : GasInfo = record {
    gas_limit = gas_limit;
    gas_price = 0;
    max_fee_per_gas = 0;
    max_priority_fee_per_gas = 0;
  }
  answer (init_from from to gas input 0 (lib.to_uint64 amount))

-- The constructor of `TransactionBuilder`.
unfoldable pub new_builder :
    Library → PyObject → ℕ → ℕ → PyObject → GasInfo → PyObject → Answer TransactionBuilder
unfolding calldata_from_py address_from_py u256_from_py
new_builder lib to nonce gas_limit value fees calldata = do
  dst ← address_from_py lib to
  amount ← u256_from_py lib value
  input ← calldata_from_py calldata
  answer (record {
    dst = dst;
    value = amount;
    nonce = nonce;
    gas_info = record fees { gas_limit = gas_limit };
    calldata = input;
  })

-- A builder's transaction, from a sender.
unfoldable pub transaction_of : Library → TransactionBuilder → ℕ → EthereumTransaction
unfolding init_from
transaction_of lib b sender =
    init_from sender b.dst b.gas_info b.calldata b.nonce (lib.to_uint64 b.value)

-- `build`.
unfoldable pub build : Library → TransactionBuilder → PyObject → Answer EthereumTransaction
unfolding transaction_of address_from_py
build lib b from = do sender ← address_from_py lib from; answer (transaction_of lib b sender)

-- `Transaction.call`, whose numbers pybind11 has converted.
unfoldable pub transaction_call :
    Library
    → (from to calldata : PyObject) → (nonce gas_limit value max_fee max_priority_fee : ℕ)
    → Answer EthereumTransaction
unfolding calldata_from_py init_from address_from_py
transaction_call lib from to calldata nonce gas_limit value max_fee max_priority_fee = do
  input ← calldata_from_py calldata
  sender ← address_from_py lib from
  recipient ← address_from_py lib to
  let gas : GasInfo = record {
    gas_limit = gas_limit;
    gas_price = 0;
    max_fee_per_gas = max_fee;
    max_priority_fee_per_gas = max_priority_fee;
  }
  answer (init_from sender recipient gas input nonce value)

-- What a run sees of a transaction.
abbrev pub seen : EthereumTransaction → Transaction
seen tx = record {
  sender = tx.sender;
  recipient = tx.recipient;
  value = tx.value;
  calldata = tx.input;
  gas_limit = tx.gas.gas_limit;
}

-- What a run reads: the chain, and the `sim_tx_info_t` of the transaction and the block.
unfoldable pub env_for : Env → MockChain → EthereumTransaction → Block → Env
unfolding env_of
env_for e ch tx b = record (env_of e ch) {
  block = record {
    randao = b.randao;
    coinbase = b.coinbase;
    number = b.number;
    timestamp = b.timestamp;
    base_fee = b.base_fee;
    chain_id = b.chain_id;
    gas_price = tx.gas.gas_price;
    state_block = (b.number + 2 ^ 64 - 1) % 2 ^ 64;
  };
}

-- `SimulationResult`. No message stands for the empty reason.
pub record SimulationResult : Type 0 where
  pub success : Bool
  pub return_data : List ℕ
  pub reason : Option Message
  pub gas_used : ℕ

-- `bytesToPy` of the bytes behind an outcome's pointer, which may be null.
unfoldable pub bytes_to_py : Option (List ℕ) → List ℕ
bytes_to_py none = []
bytes_to_py (some bytes) = bytes

-- `runSimulate`.
unfoldable pub run_simulate :
    Env → ℕ → MockChain → EthereumTransaction → Block → Answer SimulationResult
unfolding env_for simulate bytes_to_py
run_simulate e fuel ch tx b = elim (simulate (env_for e ch tx b) fuel (seen tx)) [
  | done o w ↦ answer (record {
    success = o.success;
    return_data = bytes_to_py o.return_data;
    reason = o.message;
    gas_used = 0;
  })
  | fault ↦ faulted
  | timeout ↦ unfinished
]

-- `runExecute`, with the chain behind it.
unfoldable pub run_execute :
    Env → ℕ → MockChain → EthereumTransaction → Block → Answer (SimulationResult × MockChain)
unfolding env_for execute bytes_to_py all_sent
run_execute e fuel ch tx b = elim (execute (env_for e ch tx b) fuel (seen tx)) [
  | done x w ↦ answer (
    record {
      success = x.outcome.success;
      return_data = bytes_to_py x.outcome.return_data;
      reason = x.outcome.message;
      gas_used = x.gas_used;
    },
    all_sent x.updates ch,
  )
  | fault ↦ faulted
  | timeout ↦ unfinished
]

-- The transaction that an object holds; a builder's is from the default address, as in
-- `runSimulateBuilder` and `runExecuteBuilder`.
unfoldable pub transaction_from_py : Library → PyObject → Answer EthereumTransaction
unfolding transaction_of
transaction_from_py lib (transaction tx) = answer tx
transaction_from_py lib (builder b) = answer (transaction_of lib b lib.default_address)
transaction_from_py lib _ = raised type_error

-- `runSimulateOnChain`.
unfoldable pub run_simulate_on_chain :
    Library → Env → ℕ → MockChain → PyObject → Block → Answer SimulationResult
unfolding transaction_from_py run_simulate
run_simulate_on_chain lib e fuel ch o b = do
  tx ← transaction_from_py lib o
  run_simulate e fuel ch tx b

-- `runExecuteOnChain`.
unfoldable pub run_execute_on_chain :
    Library → Env → ℕ → MockChain → PyObject → Block → Answer (SimulationResult × MockChain)
unfolding transaction_from_py run_execute
run_execute_on_chain lib e fuel ch o b = do
  tx ← transaction_from_py lib o
  run_execute e fuel ch tx b

-- `defaultBlock`, with the default values of the fields that it does not set.
abbrev pub default_block : Library → Env → Block
default_block lib e = record {
  randao = e.default_word;
  coinbase = lib.default_address;
  number = 1;
  timestamp = 1700000000;
  gas_limit = 30000000;
  base_fee = 0;
  chain_id = 1;
}

-- The block of a call, or the default one.
unfoldable pub block_from_py : Library → Env → PyObject → Answer Block
block_from_py lib e none_object = answer (default_block lib e)
block_from_py lib e (block_object b) = answer b
block_from_py lib e _ = raised cast_error

-- `chainSimulateCall`.
unfoldable pub chain_simulate_call :
    Library
    → Env
    → ℕ
    → MockChain
    → (dst src calldata value block gas : PyObject) → Answer SimulationResult
unfolding gas_from_py build_call_transaction block_from_py run_simulate
chain_simulate_call lib e fuel ch dst src calldata value block gas = do
  gas_limit ← gas_from_py gas
  tx ← build_call_transaction lib dst src calldata value gas_limit
  b ← block_from_py lib e block
  run_simulate e fuel ch tx b

-- `chainExecuteCall`.
unfoldable pub chain_execute_call :
    Library
    → Env
    → ℕ
    → MockChain
    → (dst src calldata value block gas : PyObject) → Answer (SimulationResult × MockChain)
unfolding gas_from_py build_call_transaction block_from_py run_execute
chain_execute_call lib e fuel ch dst src calldata value block gas = do
  gas_limit ← gas_from_py gas
  tx ← build_call_transaction lib dst src calldata value gas_limit
  b ← block_from_py lib e block
  run_execute e fuel ch tx b
