-- ===== src/Machine/Data.antt =====
-- The instructions of src/ethereum/EVM.cpp that read the environment, copy bytes, and use memory
-- and storage.
use komozoievm.External.{Env}
use komozoievm.Context.State.{
  M, Outcome, succeeded, failed, out_of_gas, static_state, frame, modify, pure, fail, pop, push,
  charge, ◌>>=◌, ◌>>◌,
}
use komozoievm.Context.Memory.{
  expand_memory, get_memory_starting_at, read_memory, write_memory, calldata_load,
}
use komozoievm.Context.Provider.{warm_account}
use komozoievm.Context.Overlay.{read_account, read_code, sload, sstore, tload, tstore}
use komozoievm.Machine.Op.{
  EnvOp, address, balance, origin, caller, callvalue, calldataload, calldatasize, codesize,
  gasprice, extcodesize, returndatasize, coinbase, timestamp, number, prevrandao, gaslimit, chainid,
  selfbalance, basefee, CopyOp, calldatacopy, codecopy, extcodecopy, returndatacopy, mcopy,
  MemoryOp, sha3, mload, mstore, mstore8,
}
use komozoievm.Machine.Op
use komozoievm.Common.{
  ℕ, ◌+◌, ◌-◌, ◌*◌, ◌/◌, ◌%◌, ◌^◌, List, [], ◌∷◌, ◌++◌, none, some, Bool, true, false, ℤ, pos,
  negsuc, ltb, leb, ◌==◌, if◌then◌else◌, length, take, drop, replicate, min, ◌&&◌,
}
use komozoievm.Common.Bytes.{of_be, to_be}

-- An address is the low 160 bits of a word.
abbrev pub to_address : ℕ → ℕ
to_address x = x % 2 ^ 160

-- `push(x); gasUsed += g;`
abbrev answer : ℕ → ℕ → M Outcome
answer x g = do push x; charge g; pure succeeded

unfoldable pub exec_env : Env → EnvOp → M Outcome
unfolding pop push charge
exec_env e address = do c ← frame; answer c.address 2
exec_env e balance = do
  a ← pop
  modify (warm_account e (to_address a))
  info ← read_account e (to_address a)
  answer info.balance 100
exec_env e origin = do c ← frame; answer c.origin 2
exec_env e caller = do c ← frame; answer c.caller 2
exec_env e callvalue = do c ← frame; answer c.value 2
exec_env e calldataload = do
  b ← pop
  c ← frame
  answer (if leb (length c.calldata) b then 0 else calldata_load c.calldata b) 3
exec_env e calldatasize = do c ← frame; answer (length c.calldata) 2
exec_env e codesize = do c ← frame; answer (length c.runcode) 2
exec_env e gasprice = answer e.block.gas_price 2
exec_env e extcodesize = do a ← pop; code ← read_code e (to_address a); answer (length code) 100
exec_env e returndatasize = do charge 2; c ← frame; push (length c.return_data); pure succeeded
exec_env e coinbase = answer e.block.coinbase 2
exec_env e timestamp = answer e.block.timestamp 2
exec_env e number = answer e.block.number 2
exec_env e prevrandao = answer e.block.randao 2
exec_env e gaslimit = do c ← frame; answer c.gas_limit 2
exec_env e chainid = answer e.block.chain_id 2
exec_env e selfbalance = do c ← frame; info ← read_account e c.address; answer info.balance 5
exec_env e basefee = answer e.block.base_fee 2

-- What `handleCopyInstruction` writes: the part of the source behind the offset that is there, and
-- zeros. `memcpy` between overlapping parts of the memory is undefined.
abbrev pub part : List ℕ → ℕ → ℕ → ℕ
part src off size = if ltb off (length src) then min (length src - off) size else 0

unfoldable pub copied : List ℕ → ℕ → ℕ → List ℕ
copied src off size =
    take (part src off size) (drop off src) ++ replicate (size - part src off size) 0

overlap : ℕ → ℕ → ℕ → Bool
overlap a b n = ltb a (b + n) && ltb b (a + n) && ltb 0 n

-- The source of a copy: the memory itself, or some bytes.
pub data Source : Type 0 where
  own_memory : Source
  given : List ℕ → Source

unfoldable pub source_bytes : Source → M (List ℕ)
source_bytes own_memory = do c ← frame; pure c.memory
source_bytes (given bytes) = pure bytes

unfoldable pub clashes : Source → List ℕ → ℕ → ℕ → ℕ → Bool
unfolding overlap
clashes own_memory src off dst size = overlap off dst (part src off size)
clashes (given bytes) src off dst size = false

unfoldable pub copy_ints : Source → ℕ → ℤ → ℤ → M Outcome
unfolding source_bytes clashes copied write_memory charge
copy_ints source dst off (negsuc size) = fail
copy_ints source dst off (pos size) = do
  src ← source_bytes source
  let finish = (do
    charge (3 * ((size + 31) / 32))
    s ← (elim off [ negsuc o ↦ fail | pos o ↦ pure o ])
    if clashes source src s dst size
        then fail
        else (do write_memory dst (copied src s size); pure succeeded))
  if size == 0 then pure succeeded else finish

-- A copy inside the memory to a lower offset first expands it to the source.
unfoldable pub expand_source : Env → Source → ℕ → ℕ → ℕ → M Bool
unfolding expand_memory
expand_source e own_memory dst off size =
    if ltb dst off then expand_memory e off size else pure true
expand_source e (given bytes) dst off size = pure true

unfoldable pub handle_copy : Env → Source → M Outcome
unfolding pop expand_source get_memory_starting_at copy_ints
handle_copy e source = do
  dst ← pop
  off ← pop
  size ← pop
  room ← expand_source e source dst off size
  let copy = (do
    memory ← get_memory_starting_at e dst size
    elim memory [
      | none ↦ pure (failed out_of_gas)
      | some d ↦ copy_ints source d (e.to_int off) (e.to_int size)
    ])
  if room then copy else pure (failed out_of_gas)

unfoldable pub exec_copy : Env → CopyOp → M Outcome
unfolding handle_copy charge pop
exec_copy e calldatacopy = do charge 3; c ← frame; handle_copy e (given c.calldata)
exec_copy e codecopy = do charge 3; c ← frame; handle_copy e (given c.runcode)
exec_copy e extcodecopy = do
  a ← pop
  charge 100
  code ← read_code e (to_address a)
  handle_copy e (given code)
exec_copy e returndatacopy = do charge 3; c ← frame; handle_copy e (given c.return_data)
exec_copy e mcopy = do charge 3; handle_copy e own_memory

-- `f` at the memory for the region, or out of gas.
abbrev pub at_memory : Env → ℕ → ℕ → (ℕ → M Outcome) → M Outcome
at_memory e offset size f = do
  memory ← get_memory_starting_at e offset size
  elim memory [ none ↦ pure (failed out_of_gas) | some o ↦ f o ]

-- A 256-bit number made from an `int`.
abbrev pub of_int : Env → ℤ → ℕ
of_int e (pos n) = n
of_int e (negsuc n) = e.of_negative (n + 1)

-- The bytes that an `int` counts; a negative one is a size that no object has.
abbrev pub read_int : ℕ → ℤ → M (List ℕ)
read_int o (pos n) = read_memory o n
read_int o (negsuc n) = fail

abbrev pub guard_static : Bool → M Outcome
guard_static ok = if ok then pure succeeded else pure (failed static_state)

unfoldable pub exec_memory : Env → MemoryOp → M Outcome
unfolding pop push charge get_memory_starting_at read_memory write_memory sload sstore tload tstore
exec_memory e sha3 = do
  b ← pop
  count ← pop
  at_memory e b (of_int e (e.to_int count)) (λ o. do
    bytes ← read_int o (e.to_int count)
    push (e.keccak256 bytes)
    charge 30
    pure succeeded)
exec_memory e mload = do
  a ← pop
  charge 3
  at_memory e a 32 (λ o. do bytes ← read_memory o 32; push (of_be 0 bytes); pure succeeded)
exec_memory e mstore = do
  a ← pop
  b ← pop
  charge 3
  at_memory e a 32 (λ o. do write_memory o (to_be 32 b); pure succeeded)
exec_memory e mstore8 = do
  a ← pop
  b ← pop
  charge 3
  at_memory e a 1 (λ o. do write_memory o ((b % 256) ∷ []); pure succeeded)
exec_memory e Op.MemoryOp.sload = do a ← pop; b ← sload e a; charge 100; push b; pure succeeded
exec_memory e Op.MemoryOp.sstore = do
  a ← pop
  b ← pop
  charge 100
  ok ← sstore e a b
  guard_static ok
exec_memory e Op.MemoryOp.tload = do a ← pop; charge 100; b ← tload a; push b; pure succeeded
exec_memory e Op.MemoryOp.tstore = do a ← pop; b ← pop; charge 100; ok ← tstore a b; guard_static ok
