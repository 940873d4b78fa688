-- ===== src/Tests/Buffers.antt =====
-- The theorems on the class of src/include/util/Bytes.h at a small store.
use komozoievm.Envelope.Handles.{points_at}
use komozoievm.Envelope.Handles.Counts.{one_if, holders, IsCounted}
use komozoievm.Buffers.{
  BytesStore, new_bytes, copy_bytes, move_bytes, assign_copy_bytes, assign_move_bytes,
  destroy_bytes, greater, equal, less,
}
use komozoievm.Buffers.Values.{values, value_at, Reads, bytes-Reads}
use komozoievm.Buffers.Ordering.{behind_of, same_of, read, ExactlyOne, comparisons_lem}
use komozoievm.Buffers.Arrays.{
  ConstArray, get, read_from, copy_array, assign_copy_array, add_zeros, assign_move_array, Holds,
  arrays-Holds,
}
use komozoievm.Common.{
  List, ◌<◌, length, replicate, ℕ, ◌^◌, ◌≡◌, refl, [], ◌∷◌, ◌++◌, true, false, none, some, ◌==◌,
  ltb, get_elem?, if◌then◌else◌, set, arith,
}

-- Two storages, the first with two handles.
abbrev two : BytesStore
two = record {
  store = record {
    width = 2 ^ 32;
    refs = λ k. if k == 0 then 2 else if k == 1 then 1 else 0;
    freed = λ k. false;
    handles = some 0 ∷ some 0 ∷ some 1 ∷ [];
  };
  contents = λ k. if k == 0 then 5 ∷ 6 ∷ [] else 5 ∷ [];
}

two-IsCounted : IsCounted two.store
unfolding holders points_at one_if
two-IsCounted = record { counted = λ k. ground arith; alive = λ k f. absurd (ground arith) }

none_at_2 : holders 2 two.store.handles ≡ 0
unfolding holders points_at one_if
none_at_2 = refl

bytes-Reads_example :
    Reads (new_bytes 2 (9 ∷ []) two) (values two ++ some (9 ∷ []) ∷ [])
    × Reads (copy_bytes 2 two) (values two ++ value_at (values two) 2 ∷ [])
    × Reads (move_bytes 2 two) (set (values two) 2 none ++ value_at (values two) 2 ∷ [])
    × Reads (assign_copy_bytes 0 2 two) (set (values two) 0 (value_at (values two) 2))
    × Reads (assign_move_bytes 0 2 two) (set (set (values two) 0 (value_at (values two) 2)) 2 none)
    × Reads (destroy_bytes 0 two) (set (values two) 0 none)
bytes-Reads_example =
    bytes-Reads 2 (9 ∷ []) 0 2 two two-IsCounted none_at_2 (omega arith) (omega arith) (omega arith)

comparisons_lem_example :
    (greater two.contents (some 0) (some 1)
      ≡ behind_of (read two.contents (some 0)) (read two.contents (some 1)))
    × (equal two.contents (some 0) (some 1)
        ≡ same_of (read two.contents (some 0)) (read two.contents (some 1)))
    × (greater two.contents (some 0) (some 1) ≡ true
        → greater two.contents (some 1) none ≡ true
        → greater two.contents (some 0) none ≡ true)
    × ((a b : ℕ)
        → ExactlyOne
            (greater two.contents (some a) (some b))
            (equal two.contents (some a) (some b))
            (less two.contents (some a) (some b)))
comparisons_lem_example = comparisons_lem two.contents (some 0) (some 1) none

abbrev pair : ConstArray ℕ
pair = record { size = 2; elements = some (7 ∷ 8 ∷ []) }

abbrev one_element : ConstArray ℕ
one_element = record { size = 1; elements = some (9 ∷ []) }

abbrev seven_eight : List ℕ
seven_eight = 7 ∷ 8 ∷ []

arrays-Holds_example :
    (read_from pair 2 0 ≡ some seven_eight)
    × ((i : ℕ) → get pair i ≡ (if ltb i 2 then get_elem? seven_eight i else none))
    × ((c : ConstArray ℕ) × (copy_array pair ≡ some c) × Holds c seven_eight)
    × ((c : ConstArray ℕ) × (assign_copy_array one_element pair ≡ some c) × Holds c seven_eight)
    × ((c : ConstArray ℕ) × (add_zeros 0 3 pair ≡ some c) × Holds c (seven_eight ++ replicate 3 0))
    × ((c gone : ConstArray ℕ) × (assign_move_array one_element pair ≡ some (c, gone))
        × Holds c seven_eight
        × (gone.size ≡ length seven_eight)
        × ((i : ℕ) → get gone i ≡ none)
        × (0 < length seven_eight → copy_array gone ≡ none))
arrays-Holds_example =
    arrays-Holds 0 one_element pair (9 ∷ []) seven_eight 3 (refl, refl) (refl, refl)
