-- ===== src/Envelope/Ready.antt =====
-- `operator bool` of src/ethereum/EthereumTransactionBuilder.cpp.
use komozoievm.Rlp.Items.{AccessListEntry, initial_gas_cost}
use komozoievm.Envelope.Builder.{Builder, add_entries, is_ready}
use komozoievm.Machine.Run.{get_initial_gas_cost}
use komozoievm.Machine.Run.Transactions.{non_zero, get_initial_gas_cost_lem}
use komozoievm.Common.{
  ℕ, ◌+◌, ◌*◌, ◌%◌, ◌^◌, ◌≤◌, ◌<◌, ◌≡◌, refl, ap, ◌∙◌, List, [], ◌∷◌, true, false, ltb, length,
  arith, Bool-cases, inl, inr, ◌⊎◌,
}

-- The gas of the entries, as a number.
abbrev pub entries_gas : List AccessListEntry → ℕ
entries_gas [] = 0
entries_gas (entry ∷ entries) = 2400 + 1900 * length entry.storage_keys + entries_gas entries

add_entries_lem :
    (total : ℕ) (entries : List AccessListEntry)
    → total + entries_gas entries < 2 ^ 32
    → add_entries total entries ≡ total + entries_gas entries
unfolding add_entries initial_gas_cost
add_entries_lem total [] h = omega arith
add_entries_lem total (entry ∷ entries) h =
    add_entries_lem ((total + (2400 + 1900 * length entry.storage_keys) % 2 ^ 32) % 2 ^ 32) entries
      (omega (arith, h))
    ∙ omega (arith, h)

-- What a transaction with these call data and entries has to pay before it runs.
abbrev pub initial_gas : Builder → ℕ
initial_gas b = 21000 + 4 * length b.calldata + 12 * non_zero b.calldata + entries_gas b.access_list

-- A builder with fewer than 2^27 bytes of call data whose initial gas fits the counter is ready
-- where the gas limit covers that gas and the priority fee is at most the fee, and else is not.
pub is_ready_lem :
    (b : Builder)
    → initial_gas b < 2 ^ 32
    → length b.calldata < 2 ^ 27
    → ((is_ready b ≡ true)
        × (initial_gas b ≤ b.gas_info.gas_limit)
        × (b.gas_info.max_priority_fee_per_gas ≤ b.gas_info.max_fee_per_gas))
      ⊎ ((is_ready b ≡ false)
          × ((b.gas_info.gas_limit < initial_gas b)
              ⊎ (b.gas_info.max_fee_per_gas < b.gas_info.max_priority_fee_per_gas)))
unfolding is_ready
is_ready_lem b h few =
    let start = get_initial_gas_cost_lem b.calldata few in
    let gas : add_entries (get_initial_gas_cost b.calldata) b.access_list ≡ initial_gas b =
      ap (λ t. add_entries t b.access_list) start ∙ add_entries_lem _ b.access_list h in
    elim (Bool-cases (ltb b.gas_info.gas_limit (initial_gas b))) [
      | inl short ↦ inr (rw (gas, short) refl, inl (ground arith))
      | inr covered ↦
          elim (Bool-cases (ltb b.gas_info.max_fee_per_gas b.gas_info.max_priority_fee_per_gas)) [
            | inl low ↦ inr (rw (gas, covered, low) refl, inr (ground arith))
            | inr fine ↦ inl (rw (gas, covered, fine) refl, ground arith, ground arith)
          ]
    ]
