-- ===== src/Machine/Op.antt =====
-- The opcodes of src/ethereum/EVM.cpp, grouped as the handlers are.
use komozoievm.Common.{ℕ, ◌-◌, leb, ◌==◌, if◌then◌else◌, ◌&&◌, List, [], ◌∷◌}

pub data ArithOp : Type 0 where
  add mul sub div sdiv mod_op smod addmod mulmod exp signextend : ArithOp

pub data CompareOp : Type 0 where
  lt gt slt sgt eq iszero : CompareOp

pub data BitOp : Type 0 where
  and_op or_op xor_op not_op byte shl shr sar : BitOp

pub data EnvOp : Type 0 where
  address balance origin caller callvalue calldataload calldatasize codesize gasprice : EnvOp
  extcodesize returndatasize coinbase timestamp number prevrandao gaslimit : EnvOp
  chainid selfbalance basefee : EnvOp

pub data CopyOp : Type 0 where
  calldatacopy codecopy extcodecopy returndatacopy mcopy : CopyOp

pub data MemoryOp : Type 0 where
  sha3 mload mstore mstore8 sload sstore tload tstore : MemoryOp

pub data ControlOp : Type 0 where
  jump jumpi pc msize gas jumpdest : ControlOp

pub data CallOp : Type 0 where
  call callcode delegatecall staticcall : CallOp

pub data Op : Type 0 where
  stop return_op revert invalid : Op
  arith_op : ArithOp → Op
  compare_op : CompareOp → Op
  bit_op : BitOp → Op
  env_op : EnvOp → Op
  copy_op : CopyOp → Op
  memory_op : MemoryOp → Op
  control_op : ControlOp → Op
  pop_op : Op
  push_op dup swap log : ℕ → Op
  call_op : CallOp → Op
  missing : ℕ → Op
  unknown : Op

-- The `case` labels that stand for one operation each.
pub single_ops : List (ℕ × Op)
single_ops =
    (0x00, stop)
    ∷ (0x01, arith_op add)
    ∷ (0x02, arith_op mul)
    ∷ (0x03, arith_op sub)
    ∷ (0x04, arith_op div)
    ∷ (0x05, arith_op sdiv)
    ∷ (0x06, arith_op mod_op)
    ∷ (0x07, arith_op smod)
    ∷ (0x08, arith_op addmod)
    ∷ (0x09, arith_op mulmod)
    ∷ (0x0A, arith_op exp)
    ∷ (0x0B, arith_op signextend)
    ∷ (0x10, compare_op lt)
    ∷ (0x11, compare_op gt)
    ∷ (0x12, compare_op slt)
    ∷ (0x13, compare_op sgt)
    ∷ (0x14, compare_op eq)
    ∷ (0x15, compare_op iszero)
    ∷ (0x16, bit_op and_op)
    ∷ (0x17, bit_op or_op)
    ∷ (0x18, bit_op xor_op)
    ∷ (0x19, bit_op not_op)
    ∷ (0x1A, bit_op byte)
    ∷ (0x1B, bit_op shl)
    ∷ (0x1C, bit_op shr)
    ∷ (0x1D, bit_op sar)
    ∷ (0x20, memory_op sha3)
    ∷ (0x30, env_op address)
    ∷ (0x31, env_op balance)
    ∷ (0x32, env_op origin)
    ∷ (0x33, env_op caller)
    ∷ (0x34, env_op callvalue)
    ∷ (0x35, env_op calldataload)
    ∷ (0x36, env_op calldatasize)
    ∷ (0x37, copy_op calldatacopy)
    ∷ (0x38, env_op codesize)
    ∷ (0x39, copy_op codecopy)
    ∷ (0x3A, env_op gasprice)
    ∷ (0x3B, env_op extcodesize)
    ∷ (0x3C, copy_op extcodecopy)
    ∷ (0x3D, env_op returndatasize)
    ∷ (0x3E, copy_op returndatacopy)
    ∷ (0x3F, missing 0x3F)
    ∷ (0x40, missing 0x40)
    ∷ (0x41, env_op coinbase)
    ∷ (0x42, env_op timestamp)
    ∷ (0x43, env_op number)
    ∷ (0x44, env_op prevrandao)
    ∷ (0x45, env_op gaslimit)
    ∷ (0x46, env_op chainid)
    ∷ (0x47, env_op selfbalance)
    ∷ (0x48, env_op basefee)
    ∷ (0x49, missing 0x49)
    ∷ (0x4A, missing 0x4A)
    ∷ (0x50, pop_op)
    ∷ (0x51, memory_op mload)
    ∷ (0x52, memory_op mstore)
    ∷ (0x53, memory_op mstore8)
    ∷ (0x54, memory_op sload)
    ∷ (0x55, memory_op sstore)
    ∷ (0x56, control_op jump)
    ∷ (0x57, control_op jumpi)
    ∷ (0x58, control_op pc)
    ∷ (0x59, control_op msize)
    ∷ (0x5A, control_op gas)
    ∷ (0x5B, control_op jumpdest)
    ∷ (0x5C, memory_op tload)
    ∷ (0x5D, memory_op tstore)
    ∷ (0x5E, copy_op mcopy)
    ∷ (0xF0, missing 0xF0)
    ∷ (0xF1, call_op call)
    ∷ (0xF2, call_op callcode)
    ∷ (0xF3, return_op)
    ∷ (0xF4, call_op delegatecall)
    ∷ (0xF5, missing 0xF5)
    ∷ (0xFA, call_op staticcall)
    ∷ (0xFD, revert)
    ∷ (0xFE, invalid)
    ∷ (0xFF, missing 0xFF)
    ∷ []

find_op : ℕ → List (ℕ × Op) → Op
find_op b [] = unknown
find_op b ((k, o) ∷ ops) = if b == k then o else find_op b ops

-- The `switch` of `tickEVMRaw`.
unfoldable pub decode : ℕ → Op
unfolding find_op single_ops
decode b =
    if leb 0x5F b && leb b 0x7F
    then push_op (b - 0x5F)
    else if leb 0x80 b && leb b 0x8F
    then dup (b - 0x7F)
    else if leb 0x90 b && leb b 0x9F
    then swap (b - 0x8F)
    else if leb 0xA0 b && leb b 0xA4
    then log (b - 0xA0)
    else find_op b single_ops
