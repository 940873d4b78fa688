-- ===== src/Tests/Machines.antt =====
-- The theorems on jumps, swaps and calls of src/ethereum/EVM.cpp at small contexts.
use komozoievm.Context.State.{World}
use komozoievm.Machine.Op.{jump}
use komozoievm.Machine.Control.{exec_control}
use komozoievm.Machine.Control.Jumps
use komozoievm.Machine.Control.Jumps.{Lands}
use komozoievm.Machine.Call.{call_gas}
use komozoievm.Machine.Call.Isolation
use komozoievm.Common.{◌-◌, ◌*◌, ◌≤◌, refl, [], ◌∷◌, arith}
use komozoievm.Tests.Setting.{context_with, world_with}

abbrev at_jump : World
at_jump = world_with (0x56 ∷ 0x5B ∷ []) (1 ∷ [])

exec_control-Lands_example : Lands 1 at_jump (exec_control jump at_jump)
exec_control-Lands_example = Jumps.exec_control-Lands 1 [] at_jump refl

abbrev at_swap : World
at_swap = world_with (0x91 ∷ 0x91 ∷ []) (7 ∷ 8 ∷ 9 ∷ [])

call_gas-le_example :
    (call_gas (context_with [] []) 100000 ≤ 100000)
    × (64 * call_gas (context_with [] []) 100000 ≤ 63 * (100000 - 0))
call_gas-le_example = Isolation.call_gas-le (context_with [] []) 100000 (omega arith) (omega arith)
