-- ===== src/Tests/Runs.antt =====
-- The theorems on whole runs of src/ethereum/EVM.cpp at a small program.
use komozoievm.Machine.Run.{simulate, get_initial_gas_cost}
use komozoievm.Machine.Run.Termination.{Halts}
use komozoievm.Machine.Run.Transactions
use komozoievm.Machine.Progress.Tick.{plain, call_free}
use komozoievm.Machine.Op.{decode}
use komozoievm.Machine.Run.{begins_with_ef, add_byte_costs, transaction_context}
use komozoievm.Common.{ℕ, refl, List, [], ◌∷◌, arith}
use komozoievm.Tests.Setting.{chain_with, call_a0}

add_and_stop : List ℕ
add_and_stop = 0x60 ∷ 2 ∷ 0x60 ∷ 3 ∷ 0x01 ∷ 0x00 ∷ []

simulate-Halts_example : Halts (simulate (chain_with add_and_stop) 22000000 (call_a0 []))
unfolding call_free plain decode add_and_stop begins_with_ef get_initial_gas_cost add_byte_costs
    transaction_context
simulate-Halts_example =
    Transactions.simulate-Halts (chain_with add_and_stop) (λ m. refl) 22000000 (call_a0 []) refl
      refl (omega arith) (omega arith) (omega arith) (omega arith)
