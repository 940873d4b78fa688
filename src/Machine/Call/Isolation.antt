-- ===== src/Machine/Call/Isolation.antt =====
-- The gas that `callRaw` of src/ethereum/EVM.cpp gives to the context that it calls.
use komozoievm.Context.State.{Ctx, remaining_gas}
use komozoievm.Machine.Call.{call_gas}
use komozoievm.Common.{ℕ, ◌-◌, ◌*◌, ◌^◌, ◌≤◌, ◌<◌, arith}

-- A callee is given at most 63/64 of the gas that is left, and no more than was asked for, where
-- the counter is within a limit below 2 ^ 26.
pub call_gas-le :
    (c : Ctx) (asked : ℕ)
    → c.gas_used ≤ c.gas_limit
    → c.gas_limit < 2 ^ 26
    → (call_gas c asked ≤ asked) × (64 * call_gas c asked ≤ 63 * (c.gas_limit - c.gas_used))
unfolding call_gas remaining_gas
call_gas-le c asked within small = ground arith
