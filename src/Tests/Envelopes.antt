-- ===== src/Tests/Envelopes.antt =====
-- Theorems on the bytes of transactions at concrete inputs.
use komozoievm.Rlp.{encode_number}
use komozoievm.Rlp.Items.{AccessListEntry, encode_access_list}
use komozoievm.Rlp.AccessLists.{IsBare, encode_access_list_lost}
use komozoievm.Envelope.{rlp_encode_uint64}
use komozoievm.Envelope.Numbers.{rlp_encode_uint64-encode_number}
use komozoievm.Envelope.Builder.{Builder, is_ready}
use komozoievm.Envelope.Ready.{initial_gas, is_ready_lem}
use komozoievm.Common.{
  ℕ, ◌+◌, ◌*◌, ◌≤◌, ◌<◌, ◌≡◌, refl, List, [], ◌∷◌, ◌++◌, true, false, arith, ◌⊎◌, length, replicate,
}

abbrev tested : ℕ
tested = 1025

rlp_encode_uint64-encode_number_example :
    ((0 < tested) × (rlp_encode_uint64 tested (7 ∷ []) ≡ encode_number tested (7 ∷ [])))
    ⊎ ((tested ≡ 0)
        × (rlp_encode_uint64 tested (7 ∷ []) ≡ (7 ∷ []) ++ 0 ∷ [])
        × (encode_number tested (7 ∷ []) ≡ (7 ∷ []) ++ 0x80 ∷ []))
rlp_encode_uint64-encode_number_example =
    rlp_encode_uint64-encode_number tested (7 ∷ []) (omega arith)

abbrev entry : AccessListEntry
entry = record { address = replicate 20 9; storage_keys = [] }

entry-IsBare : IsBare entry
entry-IsBare = record { whole = refl; keyless = refl }

encode_access_list_lost_example :
    (body : List ℕ) × (encode_access_list (λ n. 8) (entry ∷ entry ∷ []) (1 ∷ [])
      ≡ (1 ∷ []) ++ (2 + 0xC0) ∷ body)
    × (length body ≡ 23 * 2)
encode_access_list_lost_example =
    encode_access_list_lost (λ n. 8) (entry ∷ entry ∷ []) (1 ∷ [])
      (entry-IsBare, (entry-IsBare, tt)) (omega arith)

abbrev builder : Builder
builder = record {
  dst = replicate 20 9;
  value = 5;
  nonce = 1;
  gas_info = record {
    gas_limit = 30000;
    gas_price = 0;
    max_fee_per_gas = 20;
    max_priority_fee_per_gas = 2;
  };
  calldata = 0 ∷ 1 ∷ [];
  access_list = entry ∷ [];
}

builder_gas : initial_gas builder ≡ 23420
builder_gas = refl

is_ready_lem_example :
    ((is_ready builder ≡ true) × (initial_gas builder ≤ 30000) × (2 ≤ 20))
    ⊎ ((is_ready builder ≡ false) × ((30000 < initial_gas builder) ⊎ (20 < 2)))
is_ready_lem_example = is_ready_lem builder (omega (arith, builder_gas)) (omega arith)
