-- ===== src/Machine/Progress/Instructions.antt =====
-- The instructions that read the environment, memory and storage, jump, and arrange the stack.
use komozoievm.External.{Env}
use komozoievm.Context.State.{
  succeeded, failed, invalid_jump, stack_underflow, modify, pure, push, charge, remaining_gas, Ctx,
  ◌>>=◌, ◌>>◌,
}
use komozoievm.Context.Memory.{checked}
use komozoievm.Machine.Op
use komozoievm.Machine.Op.{
  ArithOp, CompareOp, BitOp, EnvOp, ControlOp, MemoryOp, jump, jumpi, pc, msize, gas, jumpdest,
}
use komozoievm.Machine.Data.{exec_env, to_address}
use komozoievm.Machine.Control.{jump_to, exec_control, exec_push, exec_dup, exec_swap}
use komozoievm.Machine.Progress.Steps.{
  Steps, Free, nothing, goes_on, free-then, cost-then, pay-then, pure-Free, if-Steps, frame-Free,
  modify-Free, le_max, pop-Free, push-Free,
}
use komozoievm.Machine.Progress.Memory.{checked-Free}
use komozoievm.Common.{
  ℕ, ◌+◌, ◌-◌, ◌%◌, ◌^◌, ◌≤◌, refl, [], ◌∷◌, Bool, true, false, length, get_elem?, if◌then◌else◌,
  leb, ltb, ◌==◌, arith,
}
use komozoievm.Machine.Data.{exec_memory, guard_static, of_int}
use komozoievm.Machine.Progress.Memory.{
  at_memory-goes_on, at_memory-Steps, read_memory-Free, write_memory-Free, read_int-Free,
}
use komozoievm.Machine.Progress.Plain.{most, to_most, failed-Steps, paid, answered}
use komozoievm.Machine.Progress.Reads.{
  read_account-Free, read_code-Steps, warm_account-Steps, tload-Free, sload-Steps, sstore-Free,
  tstore-Free,
}
use komozoievm.Common.Bytes.{to_be, of_be}

low :
    {p : Bool} (x g : ℕ)
    → 1 ≤ g
    → g ≤ 2000
    → Steps p goes_on most (push x >> (charge g >> pure succeeded))
low x g h b = to_most (answered x g h) (omega arith)

pub exec_env-Steps : {p : Bool} (e : Env) (o : EnvOp) → Steps p goes_on most (exec_env e o)
unfolding exec_env
exec_env-Steps e Op.EnvOp.balance =
    to_most
      (free-then pop-Free λ a. cost-then (warm_account-Steps e (to_address a)) λ _.
        free-then (read_account-Free e (to_address a))
          λ info. answered info.balance 100 (omega arith))
      (omega arith)
exec_env-Steps e Op.EnvOp.calldataload =
    free-then pop-Free λ b. free-then frame-Free λ c. low _ 3 (omega arith) (omega arith)
exec_env-Steps e Op.EnvOp.extcodesize =
    to_most
      (free-then pop-Free λ a.
        cost-then (read_code-Steps e (to_address a))
          λ code. answered (length code) 100 (omega arith))
      (omega arith)
exec_env-Steps e Op.EnvOp.returndatasize =
    to_most
      (pay-then 2 (omega arith) (
        free-then frame-Free
          λ c. free-then (push-Free (length c.return_data)) λ _. pure-Free succeeded))
      (omega arith)
exec_env-Steps e Op.EnvOp.selfbalance = free-then frame-Free λ c.
    free-then (read_account-Free e c.address) λ info. low info.balance 5 (omega arith) (omega arith)
exec_env-Steps e Op.EnvOp.gasprice = low _ 2 (omega arith) (omega arith)
exec_env-Steps e Op.EnvOp.coinbase = low _ 2 (omega arith) (omega arith)
exec_env-Steps e Op.EnvOp.timestamp = low _ 2 (omega arith) (omega arith)
exec_env-Steps e Op.EnvOp.number = low _ 2 (omega arith) (omega arith)
exec_env-Steps e Op.EnvOp.prevrandao = low _ 2 (omega arith) (omega arith)
exec_env-Steps e Op.EnvOp.chainid = low _ 2 (omega arith) (omega arith)
exec_env-Steps e Op.EnvOp.basefee = low _ 2 (omega arith) (omega arith)
exec_env-Steps e _ = free-then frame-Free λ c. low _ 2 (omega arith) (omega arith)

guard_static-Free : {p : Bool} (ok : Bool) → Free p (guard_static ok)
guard_static-Free ok = if-Steps ok (pure-Free _) (pure-Free _)

pub exec_memory-Steps : {p : Bool} (e : Env) (o : MemoryOp) → Steps p goes_on most (exec_memory e o)
unfolding exec_memory
exec_memory-Steps e Op.MemoryOp.sha3 =
    to_most
      (free-then pop-Free λ b. free-then pop-Free λ n.
        at_memory-goes_on e b (of_int e (e.to_int n)) λ o.
          free-then (read_int-Free o (e.to_int n))
            λ bytes. answered (e.keccak256 bytes) 30 (omega arith))
      (omega arith)
exec_memory-Steps e Op.MemoryOp.mload =
    to_most
      (free-then pop-Free λ a. pay-then 3 (omega arith) (
        at_memory-Steps e a 32 λ o.
          free-then (read_memory-Free o 32)
            λ bytes. free-then (push-Free _) λ _. pure-Free succeeded))
      (omega arith)
exec_memory-Steps e Op.MemoryOp.mstore =
    to_most
      (free-then pop-Free λ a. free-then pop-Free λ b. pay-then 3 (omega arith) (
        at_memory-Steps e a 32
          λ o. free-then (write_memory-Free o (to_be 32 b)) λ _. pure-Free succeeded))
      (omega arith)
exec_memory-Steps e Op.MemoryOp.mstore8 =
    to_most
      (free-then pop-Free λ a. free-then pop-Free λ b. pay-then 3 (omega arith) (
        at_memory-Steps e a 1
          λ o. free-then (write_memory-Free o ((b % 256) ∷ [])) λ _. pure-Free succeeded))
      (omega arith)
exec_memory-Steps e Op.MemoryOp.sload =
    to_most
      (free-then pop-Free λ a.
        cost-then (sload-Steps e a)
          λ v. pay-then 100 (omega arith) (free-then (push-Free v) λ _. pure-Free succeeded))
      (omega arith)
exec_memory-Steps e Op.MemoryOp.sstore =
    to_most
      (free-then pop-Free λ a.
        free-then pop-Free λ v.
          pay-then 100 (omega arith) (free-then (sstore-Free e a v) λ ok. guard_static-Free ok))
      (omega arith)
exec_memory-Steps e Op.MemoryOp.tload =
    to_most
      (free-then pop-Free λ a.
        pay-then 100 (omega arith)
          (free-then (tload-Free a) λ v. free-then (push-Free v) λ _. pure-Free succeeded))
      (omega arith)
exec_memory-Steps e Op.MemoryOp.tstore =
    to_most
      (free-then pop-Free λ a.
        free-then pop-Free
          λ v. pay-then 100 (omega arith) (free-then (tstore-Free a v) λ ok. guard_static-Free ok))
      (omega arith)

moved-Free : (f : Ctx → ℕ) → Free false (modify (λ k. record k { pc = f k }))
moved-Free f =
    modify-Free (λ k. record k { pc = f k }) (λ k. (refl, refl, refl, (λ h. cc), le_max _))

checked_jump :
    (a : ℕ) (c : Ctx)
    → Steps false nothing 0 (do
      modify (λ k. record k { pc = a })
      b ← checked (get_elem? c.runcode a)
      if b == 0x5B then pure succeeded else pure (failed invalid_jump))
checked_jump a c = free-then (moved-Free (λ k. a)) λ _.
    free-then (checked-Free (get_elem? c.runcode a))
      λ b. if-Steps (b == 0x5B) (pure-Free succeeded) (pure-Free (failed invalid_jump))

jump_to-Free : (a : ℕ) → Free false (jump_to a)
unfolding jump_to
jump_to-Free a =
    free-then frame-Free
      λ c. if-Steps (leb (length c.runcode) a) (pure-Free (failed invalid_jump)) (checked_jump a c)

pub exec_control-Steps : (o : ControlOp) → Steps false goes_on most (exec_control o)
unfolding exec_control
exec_control-Steps jump =
    to_most (free-then pop-Free λ a. pay-then 8 (omega arith) (jump_to-Free a)) (omega arith)
exec_control-Steps jumpi =
    to_most
      (free-then pop-Free λ a.
        free-then pop-Free
          λ b. pay-then 10 (omega arith) (if-Steps (b == 0) (pure-Free succeeded) (jump_to-Free a)))
      (omega arith)
exec_control-Steps pc = free-then frame-Free λ c. low _ 2 (omega arith) (omega arith)
exec_control-Steps msize = free-then frame-Free λ c. low _ 2 (omega arith) (omega arith)
exec_control-Steps gas =
    to_most
      (pay-then 2 (omega arith) (
        free-then frame-Free λ c. free-then (push-Free (remaining_gas c)) λ _. pure-Free succeeded))
      (omega arith)
exec_control-Steps jumpdest = to_most (paid 1 (omega arith)) (omega arith)

pub exec_push-Steps : (n : ℕ) → Steps false goes_on most (exec_push n)
unfolding exec_push
exec_push-Steps n = free-then frame-Free λ c. free-then (checked-Free _) λ bytes.
    free-then (push-Free (of_be 0 bytes))
      λ _. free-then (moved-Free (λ k. (k.pc + n) % 2 ^ 32)) λ _. at_push (n == 0)
  where
    at_push : (b : Bool) → Steps false goes_on most (charge (if b then 2 else 3) >> pure succeeded)
    at_push true = to_most (paid 2 (omega arith)) (omega arith)
    at_push false = to_most (paid 3 (omega arith)) (omega arith)

pub exec_dup-Steps : {p : Bool} (n : ℕ) → Steps p goes_on most (exec_dup n)
unfolding exec_dup
exec_dup-Steps n = free-then frame-Free λ c.
    if-Steps (ltb (length c.stack) n) (failed-Steps stack_underflow) (
      free-then (checked-Free (get_elem? c.stack (n - 1))) λ a. low a 3 (omega arith) (omega arith))

pub exec_swap-Steps : {p : Bool} (n : ℕ) → Steps p goes_on most (exec_swap n)
unfolding exec_swap
exec_swap-Steps n = free-then frame-Free λ c. free-then (checked-Free (get_elem? c.stack n)) λ a.
    free-then (checked-Free (get_elem? c.stack 0)) λ b.
      free-then (modify-Free _ (λ k. (refl, refl, refl, (λ _. refl), le_max _)))
        λ _. to_most (paid 3 (omega arith)) (omega arith)
