-- ===== src/Rlp/Items.antt =====
-- The templates of src/ethereum/RLPEncoder.h for numbers of the library, keys and lists, the access
-- list of src/ethereum/ethereum.h, and the lengths that are foretold.
use komozoievm.Rlp.{encode_reversed, encode_length, length_of_length}
use komozoievm.Common.{ℕ, zero, suc, ◌+◌, ◌*◌, ◌/◌, ◌%◌, ◌^◌, List, [], ◌∷◌, length}

-- `EthereumAccessListEntry`: the bytes of an address and of the keys, the lowest first.
pub record AccessListEntry : Type 0 where
  pub address : List ℕ
  pub storage_keys : List (List ℕ)

-- `initialGasCost`.
unfoldable pub initial_gas_cost : AccessListEntry → ℕ
initial_gas_cost entry = (2400 + 1900 * length entry.storage_keys) % 2 ^ 32

-- The lowest `n` bytes of a number, the lowest first.
unfoldable pub low_bytes : ℕ → ℕ → List ℕ
low_bytes zero x = []
low_bytes (suc n) x = x % 256 ∷ low_bytes n (x / 256)

-- `encode` of a number of the library.
unfoldable pub encode_wide : (ℕ → ℕ) → ℕ → List ℕ → List ℕ
unfolding low_bytes encode_reversed
encode_wide count_bits x dst = encode_reversed (low_bytes ((count_bits x + 7) / 8) x) dst

-- The loops over the items of a list.
unfoldable pub total_length : {A : Type 0} → (A → ℕ) → ℕ → List A → ℕ
total_length length_of total [] = total
total_length length_of total (x ∷ xs) = total_length length_of (total + length_of x) xs

unfoldable pub encode_items : {A : Type 0} → (A → List ℕ → List ℕ) → List A → List ℕ → List ℕ
encode_items encode [] dst = dst
encode_items encode (x ∷ xs) dst = encode_items encode xs (encode x dst)

-- `encode` of a list.
unfoldable pub encode_list :
    {A : Type 0} → (A → ℕ) → (A → List ℕ → List ℕ) → List A → List ℕ → List ℕ
unfolding total_length encode_items encode_length
encode_list length_of encode xs dst =
    encode_items encode xs (encode_length (total_length length_of 0 xs) 0xC0 dst)

-- `lengthOf` of `n` bytes, and of a key.
unfoldable pub length_of_bytes : (ℕ → ℕ) → ℕ → ℕ
unfolding length_of_length
length_of_bytes count_bits n = n + length_of_length count_bits n

unfoldable pub length_of_key : (ℕ → ℕ) → List ℕ → ℕ
unfolding length_of_bytes
length_of_key count_bits key = length_of_bytes count_bits (length key)

-- `lengthOf` of a list of keys.
unfoldable pub length_of_keys : (ℕ → ℕ) → List (List ℕ) → ℕ
unfolding length_of_key total_length length_of_length
length_of_keys count_bits keys =
    let total = total_length (length_of_key count_bits) 0 keys in
    length_of_length count_bits total + total

-- The bytes behind the head of an entry.
unfoldable pub bytes_to_encode : (ℕ → ℕ) → AccessListEntry → ℕ
unfolding length_of_keys length_of_key
bytes_to_encode count_bits entry =
    length_of_keys count_bits entry.storage_keys + length_of_key count_bits entry.address

-- `lengthOf` of an entry.
unfoldable pub length_of_entry : (ℕ → ℕ) → AccessListEntry → ℕ
unfolding bytes_to_encode length_of_length
length_of_entry count_bits entry = length_of_length count_bits (bytes_to_encode count_bits entry)

-- `encode` of an entry.
unfoldable pub encode_entry : (ℕ → ℕ) → AccessListEntry → List ℕ → List ℕ
unfolding bytes_to_encode encode_length encode_reversed encode_list length_of_key
encode_entry count_bits entry dst =
    encode_list (length_of_key count_bits) encode_reversed entry.storage_keys
      (encode_reversed entry.address (encode_length (bytes_to_encode count_bits entry) 0xC0 dst))

-- `encode` of an access list.
unfoldable pub encode_access_list : (ℕ → ℕ) → List AccessListEntry → List ℕ → List ℕ
unfolding encode_list length_of_entry encode_entry
encode_access_list count_bits = encode_list (length_of_entry count_bits) (encode_entry count_bits)
