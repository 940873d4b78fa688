-- ===== src/Envelope.antt =====
-- How a transaction is written as bytes: src/ethereum/EthereumTransaction.cpp, with an encoder of its
-- own, and src/ethereum/EthereumTransactionBuilder.cpp, with the encoder of src/ethereum/RLPEncoder.cpp.
pub mod Numbers
pub mod Lengths
pub mod Builder
pub mod Ready
pub mod Handles
use komozoievm.Rlp.{is_itself}
use komozoievm.Common.{
  ℕ, zero, suc, ◌+◌, ◌*◌, ◌/◌, ◌%◌, ◌^◌, List, [], ◌∷◌, ◌++◌, Bool, true, false, Option, none, some,
  ltb, ◌==◌, if◌then◌else◌, ◌&&◌, ◌||◌, length,
}
use mathlib.Core.List.{reverse}

-- `lenBytes`, the lowest index first: the loop shifts `i` and then shifts what it takes again.
unfoldable pub length_bytes : ℕ → ℕ → ℕ → List ℕ
length_bytes zero i k = []
length_bytes (suc room) i k =
    let rest = length_bytes room (i / 256) (k + 1) in
    if i == 0 then [] else i / 256 ^ k % 256 ∷ rest

-- The head of a string or of a list: `short` is the byte that a short length is added to.
unfoldable pub rlp_head : ℕ → ℕ → List ℕ → List ℕ
unfolding length_bytes
rlp_head short len out =
    let bytes = length_bytes 8 len 0 in
    if ltb len 56
    then out ++ (short + len) % 256 ∷ []
    else out ++ (short + 0x37 + length bytes) % 256 ∷ reverse bytes

-- `rlpEncodeBytes`.
unfoldable pub rlp_encode_bytes : List ℕ → List ℕ → List ℕ
unfolding is_itself rlp_head
rlp_encode_bytes s out = if is_itself s then out ++ s else rlp_head 0x80 (length s) out ++ s

-- The bytes of a number that `rlpEncodeUint64` keeps, from `i` bytes down.
unfoldable pub uint_bytes : ℕ → ℕ → List ℕ
uint_bytes zero value = []
uint_bytes (suc i) value =
    let rest = uint_bytes i value in
    if value / 256 ^ i == 0 then rest else value / 256 ^ i % 256 ∷ rest

-- The one byte that stands for no bytes.
unfoldable pub or_zero : List ℕ → List ℕ
or_zero [] = 0 ∷ []
or_zero (b ∷ bs) = b ∷ bs

-- `rlpEncodeUint64`.
unfoldable pub rlp_encode_uint64 : ℕ → List ℕ → List ℕ
unfolding uint_bytes or_zero rlp_encode_bytes
rlp_encode_uint64 value out = rlp_encode_bytes (or_zero (uint_bytes 8 value)) out

-- `rlpEncodeListHeader`.
unfoldable pub rlp_encode_list_header : ℕ → List ℕ → List ℕ
unfolding rlp_head
rlp_encode_list_header payload_length out = rlp_head 0xC0 payload_length out

-- `rlpEncodeAddress` of the 20 bytes of an address.
unfoldable pub rlp_encode_address : List ℕ → List ℕ → List ℕ
rlp_encode_address addr out = out ++ 0x94 ∷ addr

-- `tx_gas_info_t`.
pub record GasInfo : Type 0 where
  pub gas_limit : ℕ
  pub gas_price : ℕ
  pub max_fee_per_gas : ℕ
  pub max_priority_fee_per_gas : ℕ

-- The fields of `ethereum_tx_internal_data_ptr_s` that the encoding and `isValid` read.
pub record TxData : Type 0 where
  pub dst : List ℕ
  pub r : ℕ
  pub s : ℕ
  pub gas : GasInfo
  pub encoded_access_list : List ℕ
  pub nonce : ℕ
  pub value : ℕ
  pub kind : ℕ
  pub input : List ℕ

-- `isValid`.
unfoldable pub tx_is_valid : Option TxData → Bool
tx_is_valid none = false
tx_is_valid (some d) = if d.s == 0 || d.r == 0 then false else true

-- The fees of `encodeWithoutSignature`: types 0 and 1 have a price, type 2 two fees.
unfoldable pub encode_fees : TxData → List ℕ → List ℕ
unfolding rlp_encode_uint64
encode_fees d out =
    if d.kind == 0 || d.kind == 1
    then rlp_encode_uint64 d.gas.gas_price out
    else if d.kind == 2
    then rlp_encode_uint64 d.gas.max_fee_per_gas
        (rlp_encode_uint64 d.gas.max_priority_fee_per_gas out)
    else out

-- `encodeWithoutSignature`.
unfoldable pub encode_without_signature : TxData → List ℕ → List ℕ
unfolding encode_fees rlp_encode_uint64 rlp_encode_bytes rlp_encode_address
encode_without_signature d out =
    let start = if d.kind == 0 then out else out ++ d.kind ∷ 1 ∷ [] in
    let fees = encode_fees d (rlp_encode_uint64 d.nonce start) in
    let limit = rlp_encode_uint64 d.gas.gas_limit fees in
    let sum = rlp_encode_uint64 d.value (rlp_encode_address d.dst limit) in
    let all = rlp_encode_bytes d.input sum in
    if d.kind == 1 || d.kind == 2 then all ++ d.encoded_access_list else all
