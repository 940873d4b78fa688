-- ===== src/Tests/Programs.antt =====
-- Small byte codes, run from the transaction to its outcome.
use komozoievm.Context.State.{Res, done, Outcome}
use komozoievm.Machine.Run.{simulate, exec, tick, loop}
use komozoievm.Machine.Op.{decode}
use komozoievm.Machine.Words.{exec_arith, exec_compare, exec_bits}
use komozoievm.Machine.Data.{exec_env, exec_copy, exec_memory}
use komozoievm.Machine.Control.{
  exec_control, exec_push, exec_dup, exec_swap, exec_log, exec_stop, exec_return, exec_revert,
  exec_invalid,
}
use komozoievm.Machine.Call.{exec_call}
use komozoievm.Common.{ℕ, ◌≡◌, refl, List, [], ◌∷◌, ◌++◌, Option, none, some, replicate}
use komozoievm.Common.Bytes.{of_be, to_be}
use komozoievm.Tests.Setting.{chain_with, call_a0}

-- 2 + 3, stored and returned.
add_and_return : List ℕ
add_and_return = 0x60 ∷ 2 ∷ 0x60 ∷ 3 ∷ 0x01 ∷ 0x60 ∷ 0 ∷ 0x52 ∷ 0x60 ∷ 32 ∷ 0x60 ∷ 0 ∷ 0xF3 ∷ []

result : Res Outcome → Option (List ℕ)
result (done o w) = o.return_data
result _ = none

add_and_return_runs :
    result (simulate (chain_with add_and_return) 20 (call_a0 [])) ≡ some (replicate 31 0 ++ 5 ∷ [])
unfolding simulate exec tick loop decode exec_arith exec_compare exec_bits exec_env exec_copy
    exec_memory exec_control exec_push exec_dup exec_swap exec_log exec_stop exec_return exec_revert
    exec_invalid exec_call of_be to_be add_and_return result
add_and_return_runs = refl
