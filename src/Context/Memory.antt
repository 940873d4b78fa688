-- ===== src/Context/Memory.antt =====
-- The memory of a call: `expandMemory`, `getMemoryStartingAt` and `calldataLoad` of
-- src/ethereum/EVMSimulationContext.{h,cpp}, and the reads and writes through the pointer that
-- `getMemoryStartingAt` returns.
pub mod Gas
pub mod Access
use komozoievm.External.{Env}
use komozoievm.Context.State.{M, frame, modify, pure, fail, charge, ◌>>=◌, ◌>>◌}
use komozoievm.Common.{
  ℕ, ◌+◌, ◌-◌, ◌*◌, ◌/◌, ◌%◌, ◌^◌, List, [], ◌∷◌, ◌++◌, Option, none, some, Bool, true, false, ℤ,
  pos, negsuc, ltb, leb, ◌==◌, if◌then◌else◌, length, take, drop, replicate, not, ◌||◌,
}
use komozoievm.Common.Bytes.{of_be}

-- `((n * n) >> 9) + 3 * n` for the words of a memory of `bytes` bytes.
abbrev pub word_count : ℕ → ℕ
word_count bytes = (bytes + 31) / 32

unfoldable pub word_cost : ℕ → ℕ
word_cost n = n * n / 2 ^ 9 + 3 * n

-- The part of `expandMemory` behind the conversions to `int`. A sum, or a square of the number of
-- words, that does not fit an `int` is undefined. The cost grows with the size, so the difference
-- is not negative.
unfoldable pub expand_to : ℕ → ℕ → M Bool
unfolding charge word_cost
expand_to offset size = do
  c ← frame
  let needed = offset + size
  let cost = word_cost (word_count needed) - word_cost (word_count (length c.memory))
  let grow = do
    charge cost
    c' ← frame
    if ltb c'.gas_limit c'.gas_used then pure false else (do
      modify (λ k. record k { memory = k.memory ++ replicate (needed - length k.memory) 0 })
      pure true)
  if leb (2 ^ 31) needed
      then fail
      else if ltb (length c.memory) needed
      then (if leb (2 ^ 31) (word_count needed * word_count needed) then fail else grow)
      else pure true

unfoldable pub expand_ints : ℤ → ℤ → M Bool
expand_ints (negsuc o) size = pure false
expand_ints (pos o) (negsuc s) = pure false
expand_ints (pos o) (pos s) = expand_to o s

-- The guard compares a 256-bit sum, which wraps.
unfoldable pub expand_memory : Env → ℕ → ℕ → M Bool
unfolding expand_ints expand_to
expand_memory e offset size =
    if ltb 1482849 ((offset + size) % 2 ^ 256)
    then pure false
    else expand_ints (e.to_int offset) (e.to_int size)

-- A pointer into the memory is the offset that it points to; `none` is the null pointer.
pointer : Env → List ℕ → ℤ → Option ℕ
pointer e m (negsuc o) = none
pointer e m (pos o) = if e.allocated m || not (o == 0) then some o else none

unfoldable pub get_memory_starting_at : Env → ℕ → ℕ → M (Option ℕ)
unfolding expand_memory pointer
get_memory_starting_at e offset size = do
  expanded ← expand_memory e offset size
  c ← frame
  if expanded then pure (pointer e c.memory (e.to_int offset)) else pure none

-- `memcpy` out of and into the memory, inside its bounds.
unfoldable pub load_bytes : List ℕ → ℕ → ℕ → Option (List ℕ)
load_bytes m o n = if leb (o + n) (length m) then some (take n (drop o m)) else none

unfoldable pub store_bytes : List ℕ → ℕ → List ℕ → Option (List ℕ)
store_bytes m o bytes =
    if leb (o + length bytes) (length m)
    then some (take o m ++ (bytes ++ drop (o + length bytes) m))
    else none

-- The value, or a fault.
abbrev pub checked : {A : Type 0} → Option A → M A
checked none = fail
checked (some a) = pure a

unfoldable pub read_memory : ℕ → ℕ → M (List ℕ)
unfolding load_bytes
read_memory o n = do c ← frame; checked (load_bytes c.memory o n)

unfoldable pub write_memory : ℕ → List ℕ → M (Unit {0})
unfolding store_bytes
write_memory o bytes = do
  c ← frame
  m ← checked (store_bytes c.memory o bytes)
  modify (λ k. record k { memory = m })

-- `calldataLoad`: 32 bytes from the offset on, with zeros behind the end of the call data.
unfoldable pub calldata_load : List ℕ → ℕ → ℕ
calldata_load bytes offset =
    let size = length bytes in
    if leb size (offset + 31)
    then (if leb size offset
        then 0
        else of_be 0 (drop offset bytes ++ replicate (32 + offset - size) 0))
    else of_be 0 (take 32 (drop offset bytes))
