-- ===== src/Python/Objects.antt =====
-- What src/python.cpp passes between Python and the program: the objects that its functions take, and
-- what a call of one of them ends with.
use komozoievm.Envelope.{GasInfo}
use komozoievm.Common.{ℕ, List, Bool, ℤ}

-- `block_info_t`.
pub record Block : Type 0 where
  pub randao : ℕ
  pub coinbase : ℕ
  pub number : ℕ
  pub timestamp : ℕ
  pub gas_limit : ℕ
  pub base_fee : ℕ
  pub chain_id : ℕ

-- The fields of an `EthereumTransaction` that the bindings and a run read.
pub record EthereumTransaction : Type 0 where
  pub sender : ℕ
  pub recipient : ℕ
  pub gas : GasInfo
  pub input : List ℕ
  pub nonce : ℕ
  pub value : ℕ

-- `EthereumTransactionBuilder`, whose access list the bindings leave empty.
pub record TransactionBuilder : Type 0 where
  pub dst : ℕ
  pub value : ℕ
  pub nonce : ℕ
  pub gas_info : GasInfo
  pub calldata : List ℕ

-- A Python float: the finite ones are `m / 2 ^ k`, or its negative.
pub data Double : Type 0 where
  nan : Double
  infinity : (negative : Bool) → Double
  finite : (negative : Bool) (m k : ℕ) → Double

-- The objects that the bindings tell apart. A `buffer` has the buffer protocol, as `bytes` does.
pub data PyObject : Type 0 where
  none_object : PyObject
  int_object : ℤ → PyObject
  float_object : Double → PyObject
  text : List ℕ → PyObject
  buffer : List ℕ → PyObject
  address : ℕ → PyObject
  block_object : Block → PyObject
  transaction : EthereumTransaction → PyObject
  builder : TransactionBuilder → PyObject
  other : PyObject

-- The exceptions: `py::value_error`, `py::type_error` and `py::cast_error`.
pub data PyError : Type 0 where
  value_error type_error cast_error : PyError

-- What a call from Python ends with. `faulted` and `unfinished` are `fault` and `timeout` of a run.
pub data Answer (A : Type 0) : Type 0 where
  answer : A → Answer A
  raised : PyError → Answer A
  faulted : Answer A
  unfinished : Answer A

infixl 5 ◌>>=◌
abbrev pub ◌>>=◌ : {A B : Type 0} → Answer A → (A → Answer B) → Answer B
◌>>=◌ (answer a) f = f a
◌>>=◌ (raised x) f = raised x
◌>>=◌ faulted f = faulted
◌>>=◌ unfinished f = unfinished

-- What the number library does for the bindings.
pub record Library : Type 0 where
  -- `parseHexDigit`, which gives 255 for a character that is no digit.
  pub parse_hex_digit : ℕ → ℕ
  -- `EthereumAddress` and `uint256_t` of a string.
  pub parse_address : List ℕ → ℕ
  pub parse_word : List ℕ → ℕ
  -- `EthereumAddress()`.
  pub default_address : ℕ
  -- The conversion of a `uint256_t` to `uint64_t`.
  pub to_uint64 : ℕ → ℕ
