-- ===== src/Envelope/Builder.antt =====
-- src/ethereum/EthereumTransactionBuilder.cpp: a transaction of type 2, signed and written as bytes.
use komozoievm.External.{Env}
use komozoievm.Rlp.{encode_number, encode_bytes, encode_reversed, encode_list_start_at_offset}
use komozoievm.Rlp.Items.{AccessListEntry, initial_gas_cost, encode_wide, encode_access_list}
use komozoievm.Curve.Keys.{Signature, sign}
use komozoievm.Envelope.{GasInfo}
use komozoievm.Machine.Run.{get_initial_gas_cost}
use komozoievm.Common.{
  ℕ, ◌+◌, ◌-◌, ◌%◌, ◌^◌, List, [], ◌∷◌, Bool, true, false, Option, none, some, ltb, if◌then◌else◌,
  set, drop, replicate,
}

-- `EthereumTransactionBuilder`.
pub record Builder : Type 0 where
  pub dst : List ℕ
  pub value : ℕ
  pub nonce : ℕ
  pub gas_info : GasInfo
  pub calldata : List ℕ
  pub access_list : List AccessListEntry

-- The fields behind the room for the type and the head of the list.
unfoldable pub fields : (ℕ → ℕ) → Builder → List ℕ
unfolding encode_number encode_reversed encode_wide encode_bytes encode_access_list
fields count_bits b =
    let fees = encode_number b.gas_info.max_fee_per_gas (
      encode_number b.gas_info.max_priority_fee_per_gas
        (encode_number b.nonce (encode_number 1 (replicate 6 0)))) in
    let target = encode_reversed b.dst (encode_number b.gas_info.gas_limit fees) in
    encode_access_list count_bits b.access_list
      (encode_bytes b.calldata (encode_wide count_bits b.value target))

-- The head of the list and the type in front of it; the place of the type.
unfoldable pub with_type : (ℕ → ℕ) → List ℕ → List ℕ × ℕ
unfolding encode_list_start_at_offset
with_type count_bits out =
    let started = encode_list_start_at_offset count_bits 6 out in
    let at = started.1 - 1 in (set (started.0) at 0x02, at)

-- The signature behind the fields.
unfoldable pub with_signature : (ℕ → ℕ) → Signature → List ℕ → List ℕ
unfolding encode_number encode_wide
with_signature count_bits g out =
    encode_wide count_bits g.s (encode_wide count_bits g.r (encode_number g.v out))

-- `signAndExport` with a private key.
unfoldable pub sign_and_export : Env → (ℕ → ℕ) → (ℕ → ℕ) → ℕ → Builder → ℕ → ℕ → Option (List ℕ)
unfolding fields with_type with_signature sign
sign_and_export e count_bits random fuel b key k =
    let first = with_type count_bits (fields count_bits b) in
    elim (sign e.numbers random fuel key (e.keccak256 (drop (first.1) (first.0))) k) [
      | none ↦ none
      | some g ↦
          let out = with_type count_bits (with_signature count_bits g (first.0)) in
          some (set (out.0) 0 (out.1 % 256))
    ]

-- The gas of the entries, as a `uint32_t`.
unfoldable pub add_entries : ℕ → List AccessListEntry → ℕ
unfolding initial_gas_cost
add_entries total [] = total
add_entries total (entry ∷ entries) =
    add_entries ((total + initial_gas_cost entry) % 2 ^ 32) entries

-- `operator bool`.
unfoldable pub is_ready : Builder → Bool
unfolding add_entries get_initial_gas_cost
is_ready b =
    if ltb b.gas_info.gas_limit (add_entries (get_initial_gas_cost b.calldata) b.access_list)
    then false
    else if ltb b.gas_info.max_fee_per_gas b.gas_info.max_priority_fee_per_gas
    then false
    else true
