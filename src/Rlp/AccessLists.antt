-- ===== src/Rlp/AccessLists.antt =====
-- The head that `RLPEncoder::encode` of src/ethereum/RLPEncoder.h writes in front of an access list.
use komozoievm.Rlp.{encode_length, encode_reversed, length_of_length, is_itself}
use komozoievm.Rlp.Items.{
  AccessListEntry, total_length, encode_items, encode_list, length_of_bytes, length_of_key,
  length_of_keys, bytes_to_encode, length_of_entry, encode_entry, encode_access_list,
}
use komozoievm.Common.{
  ℕ, ◌+◌, ◌*◌, ◌%◌, ◌<◌, ◌≡◌, refl, sym, ap, ◌∙◌, List, [], ◌∷◌, ◌++◌, false, All, length, arith,
  lt→ltb, length-append,
}
use mathlib.Core.List.{reverse, reverse-cons, append_assoc, append-nil}

-- An entry for a whole address, with no storage keys.
pub record IsBare (entry : AccessListEntry) : Type 0 where
  pub whole : length entry.address ≡ 20
  pub keyless : entry.storage_keys ≡ []

bare_bytes :
    (count_bits : ℕ → ℕ) (entry : AccessListEntry)
    → IsBare entry
    → bytes_to_encode count_bits entry ≡ 22
unfolding bytes_to_encode length_of_keys length_of_key length_of_bytes length_of_length total_length
bare_bytes count_bits entry h = rw (h.keyless, h.whole) refl

bare_length :
    (count_bits : ℕ → ℕ) (entry : AccessListEntry)
    → IsBare entry
    → length_of_entry count_bits entry ≡ 1
unfolding length_of_entry length_of_length
bare_length count_bits entry h = ap (length_of_length count_bits) (bare_bytes count_bits entry h)

total_bare :
    (count_bits : ℕ → ℕ) (entries : List AccessListEntry) (total : ℕ)
    → All IsBare entries
    → total_length (length_of_entry count_bits) total entries ≡ total + length entries
unfolding total_length
total_bare count_bits [] total h = omega arith
total_bare count_bits (entry ∷ entries) total (h, k) =
    total_bare count_bits entries (total + length_of_entry count_bits entry) k
    ∙ omega (arith, bare_length count_bits entry h)

not_itself : (s : List ℕ) → length s ≡ 20 → is_itself s ≡ false
unfolding is_itself
not_itself [] h = refl
not_itself (b ∷ []) h = absurd (omega (arith, h))
not_itself (b ∷ c ∷ s) h = refl

-- What a bare entry adds.
bare_form : AccessListEntry → List ℕ
bare_form entry = 0xD6 ∷ 0x94 ∷ reverse entry.address ++ 0xC0 ∷ []

regroup :
    (a b c : ℕ) (dst r : List ℕ)
    → (((dst ++ a ∷ []) ++ b ∷ []) ++ r) ++ c ∷ [] ≡ dst ++ a ∷ b ∷ (r ++ c ∷ [])
regroup a b c dst r =
    append_assoc ((dst ++ a ∷ []) ++ b ∷ []) r (c ∷ [])
    ∙ append_assoc (dst ++ a ∷ []) (b ∷ []) (r ++ c ∷ [])
    ∙ append_assoc dst (a ∷ []) (b ∷ r ++ c ∷ [])

encode_entry-bare_form :
    (count_bits : ℕ → ℕ) (entry : AccessListEntry) (dst : List ℕ)
    → IsBare entry
    → encode_entry count_bits entry dst ≡ dst ++ bare_form entry
unfolding encode_entry encode_list encode_items total_length encode_reversed encode_length bare_form
encode_entry-bare_form count_bits entry dst h =
    rw (h.keyless, not_itself entry.address h.whole, h.whole)
      (regroup 0xD6 0x94 0xC0 dst (reverse entry.address))

length-reverse : (s : List ℕ) → length (reverse s) ≡ length s
length-reverse [] = refl
length-reverse (x ∷ xs) =
    ap length (reverse-cons x xs)
    ∙ omega (arith, length-append (reverse xs) (x ∷ []), length-reverse xs)

length-bare_form : (entry : AccessListEntry) → IsBare entry → length (bare_form entry) ≡ 23
unfolding bare_form
length-bare_form entry h = omega (
  arith,
  length-append (reverse entry.address) (0xC0 ∷ []),
  length-reverse entry.address,
  h.whole,
)

items_bare :
    (count_bits : ℕ → ℕ) (entries : List AccessListEntry) (dst : List ℕ)
    → All IsBare entries
    → (body : List ℕ) × (encode_items (encode_entry count_bits) entries dst ≡ dst ++ body)
      × (length body ≡ 23 * length entries)
unfolding encode_items
items_bare count_bits [] dst h = ([], sym (append-nil dst), refl)
items_bare count_bits (entry ∷ entries) dst (h, k) =
    let (body, is, n) = items_bare count_bits entries (dst ++ bare_form entry) k in
    (
      bare_form entry ++ body,
      ap (λ d. encode_items (encode_entry count_bits) entries d)
            (encode_entry-bare_form count_bits entry dst h)
          ∙ is
          ∙ append_assoc dst (bare_form entry) body,
      omega (arith, length-append (bare_form entry) body, length-bare_form entry h, n),
    )

short_head :
    (n : ℕ) (dst : List ℕ) → n < 56 → encode_length (0 + n) 0xC0 dst ≡ dst ++ (n + 0xC0) ∷ []
unfolding encode_length
short_head n dst h =
    let small : (0 + n + 0xC0) % 256 ≡ n + 0xC0 = omega arith in
    let same : 0 + n ≡ n = omega arith in rw (lt→ltb (0 + n) 56 (omega arith), small) refl

-- In front of an access list of fewer than 56 entries with whole addresses and no storage keys
-- stands a head that tells one byte for each entry, and behind it stand 23.
pub encode_access_list_lost :
    (count_bits : ℕ → ℕ) (entries : List AccessListEntry) (dst : List ℕ)
    → All IsBare entries
    → length entries < 56
    → (body : List ℕ) × (encode_access_list count_bits entries dst
        ≡ dst ++ (length entries + 0xC0) ∷ body)
      × (length body ≡ 23 * length entries)
unfolding encode_access_list encode_list
encode_access_list_lost count_bits entries dst h few =
    let (body, is, n) = items_bare count_bits entries (dst ++ (length entries + 0xC0) ∷ []) h in
    (
      body,
      ap (encode_items (encode_entry count_bits) entries) (
            ap (λ t. encode_length t 0xC0 dst) (total_bare count_bits entries 0 h)
            ∙ short_head (length entries) dst few)
          ∙ is
          ∙ append_assoc dst ((length entries + 0xC0) ∷ []) body,
      n,
    )
