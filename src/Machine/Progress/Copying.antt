-- ===== src/Machine/Progress/Copying.antt =====
-- The copy instructions: their charge is bounded by the memory that they touch.
use komozoievm.External.{Env}
use komozoievm.Machine.Op.{CopyOp}
use komozoievm.Machine.Op
use komozoievm.Context.State.{World, M, Outcome, succeeded, pure, charge, fail, fault, ◌>>=◌, ◌>>◌}
use komozoievm.Context.Memory.{write_memory, store_bytes, load_bytes}
use komozoievm.Machine.Data.{
  Source, own_memory, given, source_bytes, clashes, copied, part, copy_ints, expand_source,
  handle_copy, exec_copy, to_address,
}
use komozoievm.Machine.Progress.Steps.{
  cap, faulted, Steps, Free, nothing, goes_on, free-then, cost-then, pay-then, pure-Free,
  fail-Steps, if-Steps, at_most-Steps, frame-Free, charge-Steps, pop-Free,
}
use komozoievm.Machine.Progress.Memory.{
  write_memory-Free, most_expansion, expand_memory-Steps, at_memory-Steps,
}
use komozoievm.Machine.Progress.Plain.{most, to_most}
use komozoievm.Machine.Progress.Reads.{read_code-Steps}
use komozoievm.Common.{
  ℕ, ℤ, pos, negsuc, ◌+◌, ◌-◌, ◌*◌, ◌/◌, ◌%◌, ◌^◌, ◌<◌, ◌≡◌, refl, List, none, Bool, true, length,
  take, drop, replicate, length-append, length-take, length-drop, length-replicate, if◌then◌else◌,
  ltb, ◌==◌, arith, Bool-cases, inl, inr, ltb→lt, ltb→ge,
}

copied-length : (src : List ℕ) (off size : ℕ) → length (copied src off size) ≡ size
unfolding copied
copied-length src off size = ground (
  arith,
  length-append (take (part src off size) (drop off src)) (replicate (size - part src off size) 0),
  length-take (part src off size) (drop off src),
  length-drop off src,
  length-replicate {A = ℕ} (size - part src off size) 0,
)

store_too_large :
    (m : List ℕ) (o : ℕ) (bytes : List ℕ) → length m < length bytes → store_bytes m o bytes ≡ none
unfolding store_bytes
store_too_large m o bytes h = ground arith

load_too_large : (m : List ℕ) (o n : ℕ) → length m < n → load_bytes m o n ≡ none
unfolding load_bytes
load_too_large m o n h = ground arith

-- The copy behind the charge.
write_part : Source → List ℕ → ℕ → ℤ → ℕ → M Outcome
write_part source src dst off size = do
  s ← (elim off [ negsuc o ↦ fail | pos o ↦ pure o ])
  if clashes source src s dst size
      then fail
      else (do write_memory dst (copied src s size); pure succeeded)

write_part-Free :
    {p : Bool} (source : Source) (src : List ℕ) (dst : ℕ) (off : ℤ) (size : ℕ)
    → Free p (write_part source src dst off size)
unfolding write_part
write_part-Free source src dst (negsuc o) size = record { run = λ w small room. faulted }
write_part-Free source src dst (pos o) size = free-then (pure-Free o) λ s.
    if-Steps (clashes source src s dst size) fail-Steps
      (free-then (write_memory-Free dst (copied src s size)) λ _. pure-Free succeeded)

write_part_fault :
    (source : Source) (src : List ℕ) (dst : ℕ) (off : ℤ) (size : ℕ) (w : World)
    → length w.frame.memory < size
    → write_part source src dst off size w ≡ fault
unfolding write_part write_memory
write_part_fault source src dst (negsuc o) size w h = refl
write_part_fault source src dst (pos o) size w h =
    ground (arith, store_too_large w.frame.memory dst (copied src o size), copied-length src o size)

-- A charge before a copy that faults does not matter.
large_part-Steps :
    {p : Bool} (g : ℕ) (source : Source) (src : List ℕ) (dst : ℕ) (off : ℤ) (size : ℕ) {hi : ℕ}
    → cap < size
    → Steps p nothing hi (charge g >> write_part source src dst off size)
unfolding charge
large_part-Steps {p} g source src dst off size {hi} large = record {
  run = λ w small room.
      let charged : World = record w {
        frame = record (w.frame) { gas_used = (w.frame.gas_used + g) % 2 ^ 32 };
      } in
      rw (write_part_fault source src dst off size charged (omega arith)) faulted;
}

-- What the copies cost at most, without the expansion.
abbrev copy_cost : ℕ
copy_cost = 2 ^ 18

part-Steps :
    {p : Bool} (source : Source) (src : List ℕ) (dst : ℕ) (off : ℤ) (size : ℕ)
    → Steps p nothing copy_cost
        (charge (3 * ((size + 31) / 32)) >> write_part source src dst off size)
part-Steps source src dst off size = elim (Bool-cases (ltb cap size)) [
  | inl large ↦ large_part-Steps (3 * ((size + 31) / 32)) source src dst off size (ltb→lt _ _ large)
  | inr small ↦
      at_most-Steps
        (cost-then (charge-Steps (3 * ((size + 31) / 32)))
          λ _. write_part-Free source src dst off size)
        (omega (arith, ltb→ge _ _ small))
]

source_bytes-Free : {p : Bool} (source : Source) → Free p (source_bytes source)
unfolding source_bytes
source_bytes-Free own_memory = free-then frame-Free λ c. pure-Free c.memory
source_bytes-Free (given bytes) = pure-Free bytes

copy_ints-Steps :
    {p : Bool} (source : Source) (dst : ℕ) (off size : ℤ)
    → Steps p nothing copy_cost (copy_ints source dst off size)
unfolding copy_ints write_part
copy_ints-Steps source dst off (negsuc size) = fail-Steps
copy_ints-Steps source dst off (pos size) = free-then (source_bytes-Free source) λ src.
    if-Steps (size == 0) (at_most-Steps (pure-Free succeeded) (omega arith))
      (part-Steps source src dst off size)

expand_source-Steps :
    {p : Bool} (e : Env) (source : Source) (dst off size : ℕ)
    → Steps p nothing most_expansion (expand_source e source dst off size)
unfolding expand_source
expand_source-Steps e own_memory dst off size =
    if-Steps (ltb dst off) (expand_memory-Steps e off size)
      (at_most-Steps (pure-Free true) (omega arith))
expand_source-Steps e (given bytes) dst off size = at_most-Steps (pure-Free true) (omega arith)

handle_copy-Steps :
    {p : Bool} (e : Env) (source : Source)
    → Steps p nothing (2 ^ 25 + copy_cost) (handle_copy e source)
unfolding handle_copy
handle_copy-Steps e source =
    at_most-Steps
      (free-then pop-Free λ dst. free-then pop-Free λ off. free-then pop-Free λ size.
        cost-then (expand_source-Steps e source dst off size) λ room.
          if-Steps room
            (at_memory-Steps e dst size
              (λ d. copy_ints-Steps source d (e.to_int off) (e.to_int size)))
            (at_most-Steps (pure-Free _) (omega arith)))
      (omega arith)

pub exec_copy-Steps : {p : Bool} (e : Env) (o : CopyOp) → Steps p goes_on most (exec_copy e o)
unfolding exec_copy
exec_copy-Steps e Op.CopyOp.calldatacopy =
    to_most
      (pay-then 3 (omega arith) (free-then frame-Free λ c. handle_copy-Steps e (given c.calldata)))
      (omega arith)
exec_copy-Steps e Op.CopyOp.codecopy =
    to_most
      (pay-then 3 (omega arith) (free-then frame-Free λ c. handle_copy-Steps e (given c.runcode)))
      (omega arith)
exec_copy-Steps e Op.CopyOp.extcodecopy =
    to_most
      (free-then pop-Free λ a.
        pay-then 100 (omega arith)
          (cost-then (read_code-Steps e (to_address a)) λ code. handle_copy-Steps e (given code)))
      (omega arith)
exec_copy-Steps e Op.CopyOp.returndatacopy =
    to_most
      (pay-then 3 (omega arith)
        (free-then frame-Free λ c. handle_copy-Steps e (given c.return_data)))
      (omega arith)
exec_copy-Steps e Op.CopyOp.mcopy =
    to_most (pay-then 3 (omega arith) (handle_copy-Steps e own_memory)) (omega arith)
