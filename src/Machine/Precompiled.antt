-- ===== src/Machine/Precompiled.antt =====
-- src/ethereum/precompiledContracts.cpp, over the memory of the calling context.
use komozoievm.External.{Env}
use komozoievm.Context.State.{M, pure, fail, ◌>>=◌, ◌>>◌}
use komozoievm.Context.Memory.{read_memory, write_memory}
use komozoievm.Common.{
  ℕ, ◌+◌, ◌-◌, ◌*◌, ◌/◌, ◌^◌, Option, none, some, Bool, true, false, ℤ, pos, negsuc, ltb, leb, ◌==◌,
  if◌then◌else◌, replicate, min, ◌&&◌,
}
use komozoievm.Common.Bytes.{of_be, to_be}
use mathlib.Core.List.{reverse}

-- A `uint32_t` read as an `int`.
abbrev pub to_signed : ℕ → ℤ
to_signed x = if ltb x (2 ^ 31) then pos x else negsuc (2 ^ 32 - 1 - x)

-- `cost < gas` and `cost > gas`.
abbrev affordable : ℕ → ℤ → Bool
affordable cost (pos gas) = ltb cost gas
affordable cost (negsuc gas) = false

abbrev too_dear : ℕ → ℤ → Bool
too_dear cost (pos gas) = ltb gas cost
too_dear cost (negsuc gas) = true

-- `uint256_t(&args[off], n, true)`.
read_number : ℕ → ℕ → M ℕ
unfolding read_memory
read_number o n = do bytes ← read_memory o n; pure (of_be 0 bytes)

unfoldable pub precompiled_ec_recover : Env → ℕ → ℕ → ℕ → ℕ → M ℕ
unfolding read_number write_memory
precompiled_ec_recover e args args_size ret ret_size = do
  hash ← read_number args (min 0x20 args_size)
  v ← read_number (args + 0x20) (min 0x20 (args_size + 0x20))
  r ← read_number (args + 0x40) (min 0x20 (args_size + 0x40))
  s ← read_number (args + 0x60) (min 0x20 (args_size + 0x60))
  write_memory ret (replicate ret_size 0)
  let key : Option ℕ = if leb 27 v && leb v 28 then e.recover hash (v - 27) r s else none
  elim key [
    | none ↦ pure 3000
    | some a ↦ (do
      write_memory (ret + 12) (if ret_size == 0 then reverse (to_be 20 a) else to_be 20 a)
      pure 3000)
  ]

unfoldable pub precompiled_sha256 : Env → ℕ → ℕ → ℕ → ℕ → ℤ → M ℕ
unfolding read_memory write_memory
precompiled_sha256 e args args_size ret ret_size gas = do
  let cost = 60 + 12 * ((args_size + 31) / 32)
  let digest = (do
    bytes ← read_memory args args_size
    write_memory ret (e.sha2 bytes)
    if ltb 32 ret_size
        then (do write_memory (ret + 32) (replicate (ret_size - 32) 0); pure cost)
        else pure cost)
  if affordable cost gas then digest else pure cost

-- `memcpy` between overlapping regions is undefined.
unfoldable pub precompiled_memcpy : ℕ → ℕ → ℕ → ℕ → ℤ → M ℕ
unfolding read_memory write_memory
precompiled_memcpy args args_size ret ret_size gas = do
  let size = min args_size ret_size
  let cost = 15 + 3 * ((size + 31) / 32)
  let copy = (do bytes ← read_memory args size; write_memory ret bytes; pure cost)
  if affordable cost gas
      then (if ltb args (ret + size) && ltb ret (args + size) && ltb 0 size then fail else copy)
      else pure cost

-- Whether the contract succeeded, and the gas that it took. An unknown one takes all that is left.
unfoldable pub call_precompiled : Env → ℕ → ℕ → ℕ → ℕ → ℕ → ℕ → M (Bool × ℕ)
unfolding precompiled_ec_recover precompiled_sha256 precompiled_memcpy
call_precompiled e index args args_size ret ret_size left = do
  let gas = to_signed left
  let settle = λ (cost : ℕ). pure (if too_dear cost gas then false else true, cost)
  let recover = (do cost ← precompiled_ec_recover e args args_size ret ret_size; settle cost)
  let sha256 = (do cost ← precompiled_sha256 e args args_size ret ret_size gas; settle cost)
  let copy = (do cost ← precompiled_memcpy args args_size ret ret_size gas; settle cost)
  if index == 1
      then recover
      else if index == 2
      then sha256
      else if index == 4
      then copy
      else pure (false, left)
