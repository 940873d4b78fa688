-- ===== src/Machine/Control.antt =====
-- The instructions of src/ethereum/EVM.cpp that move the program counter, arrange the stack, log,
-- and end the call.
pub mod Jumps
use komozoievm.External.{Env}
use komozoievm.Context.State.{
  M, done, Trace, on_event_log, Outcome, Message, succeeded, failed, invalid_jump, stack_underflow,
  reverted, frame, modify, pure, fail, pop, push, charge, remaining_gas, ◌>>=◌, ◌>>◌,
}
use komozoievm.Context.Memory.{get_memory_starting_at, read_memory, checked}
use komozoievm.Machine.Op.{ControlOp, jump, jumpi, pc, msize, gas, jumpdest}
use komozoievm.Machine.Data.{at_memory}
use komozoievm.Common.{
  ℕ, zero, suc, ◌+◌, ◌-◌, ◌*◌, ◌%◌, ◌^◌, List, [], ◌∷◌, ◌++◌, Option, none, some, Bool, true, false,
  ℤ, pos, negsuc, ltb, leb, ◌==◌, if◌then◌else◌, length, take, drop, get_elem?, set, ◌||◌,
}
use komozoievm.Common.Bytes.{of_be, to_be}

-- The common end of JUMP and JUMPI: the counter is set before the target's byte is looked at.
unfoldable pub jump_to : ℕ → M Outcome
jump_to a = do
  c ← frame
  let go = (do
    modify (λ k. record k { pc = a })
    b ← checked (get_elem? c.runcode a)
    if b == 0x5B then pure succeeded else pure (failed invalid_jump))
  if leb (length c.runcode) a then pure (failed invalid_jump) else go

unfoldable pub exec_control : ControlOp → M Outcome
unfolding pop push charge jump_to
exec_control jump = do a ← pop; charge 8; jump_to a
exec_control jumpi = do
  a ← pop
  b ← pop
  charge 10
  let go = jump_to a
  if b == 0 then pure succeeded else go
exec_control pc = do c ← frame; push ((c.pc + 2 ^ 32 - 1) % 2 ^ 32); charge 2; pure succeeded
exec_control msize = do c ← frame; push (length c.memory); charge 2; pure succeeded
exec_control gas = do charge 2; c ← frame; push (remaining_gas c); pure succeeded
exec_control jumpdest = do charge 1; pure succeeded

-- PUSH0 to PUSH32: the bytes behind the opcode, which have to be there.
unfoldable pub exec_push : ℕ → M Outcome
unfolding push charge
exec_push count = do
  c ← frame
  bytes ← checked (
      if leb (c.pc + count) (length c.runcode) || count == 0
      then some (take count (drop c.pc c.runcode))
      else none)
  push (of_be 0 bytes)
  modify (λ k. record k { pc = (k.pc + count) % 2 ^ 32 })
  charge (if count == 0 then 2 else 3)
  pure succeeded

-- DUP1 to DUP16: the word at depth `count - 1`.
unfoldable pub exec_dup : ℕ → M Outcome
unfolding push charge
exec_dup count = do
  c ← frame
  let copy = (do a ← checked (get_elem? c.stack (count - 1)); push a; charge 3; pure succeeded)
  if ltb (length c.stack) count then pure (failed stack_underflow) else copy

-- SWAP1 to SWAP16: the top and the word at depth `n`, which is not tested for.
unfoldable pub exec_swap : ℕ → M Outcome
unfolding charge
exec_swap n = do
  c ← frame
  a ← checked (get_elem? c.stack n)
  b ← checked (get_elem? c.stack 0)
  modify (λ k. record k { stack = set (set k.stack n b) 0 a })
  charge 3
  pure succeeded

unfoldable pub pop_topics : ℕ → M (List ℕ)
unfolding pop
pop_topics zero = pure []
pop_topics (suc n) = do t ← pop; rest ← pop_topics n; pure (t ∷ rest)

abbrev pub trace : Trace → M (Unit {0})
trace t w = done tt (record w { traces = t ∷ w.traces })

-- The rest of a LOG behind the memory's pointer, for a size that is an `int`.
unfoldable pub log_region : ℕ → ℕ → ℤ → M Outcome
unfolding charge pop_topics read_memory
log_region count o (negsuc size) = fail
log_region count o (pos size) = do
  topics ← pop_topics count
  bytes ← read_memory o size
  c ← frame
  trace (on_event_log c.address topics bytes)
  charge (375 + 375 * count + 8 * size)
  pure succeeded

-- LOG0 to LOG4.
unfoldable pub exec_log : Env → ℕ → M Outcome
unfolding pop get_memory_starting_at log_region
exec_log e count = do a ← pop; b ← pop; at_memory e a b (λ o. log_region count o (e.to_int b))

abbrev pub returned : Bool → Option Message → Option (List ℕ) → Outcome
returned ok message bytes = record { success = ok; return_data = bytes; message = message }

-- The region that RETURN and REVERT name, with the size cut to 16 bits.
unfoldable pub region : Env → ℕ → ℕ → M (Option (List ℕ))
unfolding get_memory_starting_at read_memory
region e a b = do
  memory ← get_memory_starting_at e a b
  elim memory [
    | none ↦ pure none
    | some o ↦ (do bytes ← read_memory o (b % 2 ^ 16); pure (some bytes))
  ]

-- `{context.memory.getMemory(), 0}`: no bytes, at a pointer that is not null.
unfoldable pub no_bytes : Env → M (Option (List ℕ))
no_bytes e = do c ← frame; pure (if e.allocated c.memory then some [] else none)

unfoldable pub exec_stop : Env → M Outcome
unfolding no_bytes
exec_stop e = do bytes ← no_bytes e; pure (returned true none bytes)

unfoldable pub exec_return : Env → M Outcome
unfolding pop region
exec_return e = do a ← pop; b ← pop; bytes ← region e a b; pure (returned true none bytes)

unfoldable pub exec_revert : Env → M Outcome
unfolding pop region
exec_revert e = do
  a ← pop
  b ← pop
  let usual = (do bytes ← region e a b; pure (returned false (some reverted) bytes))
  if ltb 14000 a || ltb 14000 b
      then pure (returned false (some reverted) (some (to_be 32 a ++ to_be 32 b)))
      else usual

unfoldable pub exec_invalid : Env → M Outcome
unfolding no_bytes
exec_invalid e = do
  modify (λ c. record c { gas_used = c.gas_limit })
  bytes ← no_bytes e
  pure (returned false (some reverted) bytes)
