-- ===== src/Machine/Run.antt =====
-- One instruction, the loop over them, and whole transactions: `tickEVMRaw`, `runEVMRaw` and the
-- class `EVM` of src/ethereum/EVM.cpp.
pub mod Termination
pub mod Transactions
pub mod Transfer
use komozoievm.External.{Env}
use komozoievm.Context.State.{
  Ctx, World, Res, done, fault, timeout, M, Outcome, succeeded, failed, out_of_gas, invalid_opcode,
  static_state, insufficient_eth, not_implemented, frame, modify, pure, pop, charge, ◌>>=◌, ◌>>◌,
}
use komozoievm.Context.Memory.{checked}
use komozoievm.Context.Overlay.{read_code, pay_account, deduct_account}
use komozoievm.Context.Commit.{Update, updates_of}
use komozoievm.Machine.Op.{
  Op, stop, return_op, revert, invalid, arith_op, compare_op, bit_op, env_op, copy_op, memory_op,
  control_op, pop_op, push_op, dup, swap, log, call_op, missing, unknown, decode,
}
use komozoievm.Machine.Words.{exec_arith, exec_compare, exec_bits}
use komozoievm.Machine.Data.{exec_env, exec_copy, exec_memory}
use komozoievm.Machine.Control.{
  exec_control, exec_push, exec_dup, exec_swap, exec_log, exec_stop, exec_return, exec_revert,
  exec_invalid,
}
use komozoievm.Machine.Call.{exec_call}
use komozoievm.Common.{
  ℕ, zero, suc, ◌+◌, ◌%◌, ◌^◌, List, [], ◌∷◌, Option, none, some, Bool, true, false, ltb, leb, ◌==◌,
  if◌then◌else◌, length, take, drop, get_elem?, ◌&&◌, contains,
}
use komozoievm.Common.Bytes.{of_be}

-- POP.
unfoldable pub exec_pop : M Outcome
unfolding pop charge
exec_pop = do a ← pop; charge 2; pure succeeded

-- The cases of the `switch` in `tickEVMRaw`; `run` runs the callee of a call.
unfoldable pub exec : Env → (Bool → M Outcome) → Op → M Outcome
unfolding exec_pop
exec e run stop = exec_stop e
exec e run return_op = exec_return e
exec e run revert = exec_revert e
exec e run invalid = exec_invalid e
exec e run (arith_op o) = exec_arith e o
exec e run (compare_op o) = exec_compare e o
exec e run (bit_op o) = exec_bits e o
exec e run (env_op o) = exec_env e o
exec e run (copy_op o) = exec_copy e o
exec e run (memory_op o) = exec_memory e o
exec e run (control_op o) = exec_control o
exec e run pop_op = exec_pop
exec e run (push_op n) = exec_push n
exec e run (dup n) = exec_dup n
exec e run (swap n) = exec_swap n
exec e run (log n) = exec_log e n
exec e run (call_op o) = exec_call e run o
exec e run (missing n) = pure (failed (not_implemented n))
exec e run unknown = pure (failed invalid_opcode)

-- `tickEVMRaw`: a counter behind the code ends the call as STOP does.
unfoldable pub tick : Env → (Bool → M Outcome) → M Outcome
tick e run = do
  c ← frame
  let fetch = (do
    b ← checked (get_elem? c.runcode c.pc)
    modify (λ k. record k { pc = (k.pc + 1) % 2 ^ 32 })
    exec e run (decode b))
  if leb (length c.runcode) c.pc then exec_stop e else fetch

-- The transfer at the start of `runEVMRaw`; `none` where the run goes on.
unfoldable pub transfer : Env → M (Option Outcome)
unfolding pay_account deduct_account
transfer e = do
  c ← frame
  let move = (do
    paid ← pay_account e c.address c.value
    let deduct = (do
      deducted ← deduct_account e c.caller c.value
      if deducted then pure none else pure (some (failed insufficient_eth)))
    if paid then deduct else pure (some (failed static_state)))
  if c.value == 0 then pure none else move

unfoldable pub begins_with_ef : List ℕ → Bool
begins_with_ef [] = false
begins_with_ef (b ∷ _) = b == 0xEF

-- A code of more than 22 bytes that begins with 0xef names another account's code.
unfoldable pub resolve_code : Env → M (Unit {0})
unfolding begins_with_ef
resolve_code e = do
  c ← frame
  let delegated = ltb 22 (length c.runcode) && begins_with_ef c.runcode
  let load = (do
    code ← read_code e (of_be 0 (take 20 (drop 3 c.runcode)))
    modify (λ k. record k { runcode = code }))
  if delegated then load else pure tt

-- `runEVMRaw`, with its loop as an argument.
unfoldable pub start : Env → M Outcome → Bool → M Outcome
unfolding transfer resolve_code
start e loop pay = do
  stopped ← (if pay then transfer e else pure none)
  elim stopped [
    | some o ↦ pure o
    | none ↦ (do resolve_code e; c ← frame; if length c.runcode == 0 then pure succeeded else loop)
  ]

-- What the loop does with the outcome of an instruction: it ends, or goes on with `more`.
unfoldable pub after_tick : M Outcome → Outcome → M Outcome
after_tick more o = elim (o.return_data) [
  | some bytes ↦ pure o
  | none ↦ (do
    c ← frame
    let next = (if leb c.gas_limit c.gas_used then pure (failed out_of_gas) else more)
    if o.success then next else pure o)
]

-- The loop of `runEVMRaw`. The fuel counts instructions, and the nesting of calls.
unfoldable pub loop : Env → ℕ → M Outcome
unfolding after_tick
loop e zero w = timeout
loop e (suc fuel) w = elim (tick e (start e (loop e fuel)) w) [
  | done o w' ↦ after_tick (loop e fuel) o w'
  | fault ↦ fault
  | timeout ↦ timeout
]

unfoldable pub run_evm : Env → ℕ → Bool → M Outcome
unfolding start
run_evm e fuel pay = start e (loop e fuel) pay

-- `getInitialGasCost`.
unfoldable pub add_byte_costs : ℕ → List ℕ → ℕ
add_byte_costs total [] = total
add_byte_costs total (b ∷ bs) = add_byte_costs ((total + (if b == 0 then 4 else 16)) % 2 ^ 32) bs

unfoldable pub get_initial_gas_cost : List ℕ → ℕ
unfolding add_byte_costs
get_initial_gas_cost calldata = add_byte_costs 21000 calldata

-- What a transaction gives to the simulation.
pub record Transaction : Type 0 where
  pub sender : ℕ
  pub recipient : ℕ
  pub value : ℕ
  pub calldata : List ℕ
  pub gas_limit : ℕ

abbrev pub extra_gas : ℕ
extra_gas = 0x2d0000

abbrev warm_set : List ℕ → List ℕ
warm_set [] = []
warm_set (a ∷ s) = let rest = warm_set s in if contains a rest then rest else a ∷ rest

-- The constructor of `EVMSimulationContext` for a transaction, which fetches the recipient's code;
-- `gasUsed` is set behind it.
unfoldable pub transaction_context : Env → Transaction → Ctx
transaction_context e tx = record {
  origin = tx.sender;
  caller = tx.sender;
  address = tx.recipient;
  value = tx.value;
  calldata = tx.calldata;
  return_data = [];
  gas_limit = (tx.gas_limit + extra_gas) % 2 ^ 32;
  accounts = [];
  runcodes = (tx.recipient, e.base_code tx.recipient) ∷ [];
  storage = [];
  transient = [];
  warm_accounts = warm_set (e.block.coinbase ∷ tx.recipient ∷ tx.sender ∷ []);
  runcode = e.base_code tx.recipient;
  pc = 0;
  stack = [];
  memory = [];
  gas_used = get_initial_gas_cost tx.calldata;
  is_static = false;
}

abbrev pub world_of : Ctx → World
world_of c = record { frame = c; parents = []; traces = [] }

-- `EVM::simulate` of a transaction: the outcome alone is looked at.
unfoldable pub simulate : Env → ℕ → Transaction → Res Outcome
unfolding run_evm transaction_context get_initial_gas_cost
simulate e fuel tx = run_evm e fuel true (world_of (transaction_context e tx))

-- `EVM::simulate` of a context that is there already.
unfoldable pub simulate_context : Env → ℕ → M Outcome
unfolding run_evm get_initial_gas_cost
simulate_context e fuel = do
  modify (λ c. record c { gas_used = get_initial_gas_cost c.calldata })
  run_evm e fuel true

-- `evm_execution_outcome_t`, and the updates that the state provider is sent.
pub record Execution : Type 0 where
  pub gas_used : ℕ
  pub outcome : Outcome
  pub updates : List Update

-- `EVM::execute`.
unfoldable pub execute : Env → ℕ → Transaction → Res Execution
unfolding run_evm transaction_context get_initial_gas_cost updates_of
execute e fuel tx =
    (do
      o ← run_evm e fuel true
      c ← frame
      pure (record {
        gas_used = c.gas_used;
        outcome = o;
        updates = if o.success then updates_of c else [];
      }))
      (world_of (transaction_context e tx))
