-- ===== src/Buffers.antt =====
-- The class `Bytes` of src/include/util/Bytes.h and src/util/Bytes.cpp: handles on shared storage with
-- a count of references, which are kept as those of a transaction are, and comparisons of contents.
pub mod Values
pub mod Ordering
pub mod Arrays
use komozoievm.Envelope.Handles.{
  Store, pointer, release, new_handle, copy_handle, move_handle, assign_copy, destroy,
}
use komozoievm.Common.{
  ℕ, zero, suc, List, [], ◌∷◌, Bool, true, false, Option, none, some, ltb, ◌==◌, if◌then◌else◌,
  length, set, not,
}

-- The handles, with counts of 32 bits, and the bytes of each storage, which a handle to it reads.
pub record BytesStore : Type 0 where
  pub store : Store
  pub contents : ℕ → List ℕ

-- The constructors from bytes, which get the storage `k`. Of `Bytes(size_t)` the bytes are what the
-- memory held.
unfoldable pub new_bytes : ℕ → List ℕ → BytesStore → BytesStore
unfolding new_handle
new_bytes k bytes s = record {
  store = new_handle k s.store;
  contents = λ l. if l == k then bytes else s.contents l;
}

-- The constructor that copies the handle `j`.
unfoldable pub copy_bytes : ℕ → BytesStore → BytesStore
unfolding copy_handle
copy_bytes j s = record s { store = copy_handle j s.store }

-- The constructor that moves the handle `j`.
unfoldable pub move_bytes : ℕ → BytesStore → BytesStore
unfolding move_handle
move_bytes j s = record s { store = move_handle j s.store }

-- The assignment that copies.
unfoldable pub assign_copy_bytes : ℕ → ℕ → BytesStore → BytesStore
unfolding assign_copy
assign_copy_bytes i j s = record s { store = assign_copy i j s.store }

-- The assignment that moves, which tests nothing.
unfoldable pub assign_move_bytes : ℕ → ℕ → BytesStore → BytesStore
unfolding release pointer
assign_move_bytes i j s =
    let released = release (pointer s.store.handles i) s.store in
    let moved = set s.store.handles i (pointer s.store.handles j) in
    record s { store = record released { handles = set moved j none } }

-- The destructor; the handle points nowhere from then on.
unfoldable pub destroy_bytes : ℕ → BytesStore → BytesStore
unfolding destroy
destroy_bytes i s = record s { store = destroy i s.store }

pub data Comparison : Type 0 where
  below same above : Comparison

-- `memcmp` of as many bytes as both lists have.
unfoldable pub memcmp : ℕ → List ℕ → List ℕ → Comparison
memcmp zero xs ys = same
memcmp (suc n) (x ∷ xs) (y ∷ ys) =
    if ltb x y then below else if ltb y x then above else memcmp n xs ys
memcmp (suc n) _ _ = same

-- `operator>`, of two pointers to storage.
unfoldable pub greater : (ℕ → List ℕ) → Option ℕ → Option ℕ → Bool
unfolding memcmp
greater contents none q = false
greater contents (some a) none = false
greater contents (some a) (some b) =
    let xs = contents a in
    let ys = contents b in
    let n = if ltb (length xs) (length ys) then length xs else length ys in
    if b == a
    then false
    else elim (memcmp n xs ys) [ same ↦ ltb (length ys) (length xs) | above ↦ true | below ↦ false ]

-- `operator==`.
unfoldable pub equal : (ℕ → List ℕ) → Option ℕ → Option ℕ → Bool
unfolding memcmp
equal contents none none = true
equal contents none (some b) = false
equal contents (some a) none = false
equal contents (some a) (some b) =
    let xs = contents a in
    let ys = contents b in
    if a == b
    then true
    else if length xs == length ys
    then elim (memcmp (length xs) xs ys) [ same ↦ true | above ↦ false | below ↦ false ]
    else false

-- `operator<`, `operator>=` and `operator<=`.
unfoldable pub less : (ℕ → List ℕ) → Option ℕ → Option ℕ → Bool
unfolding greater
less contents p q = greater contents q p

unfoldable pub greater_or_equal : (ℕ → List ℕ) → Option ℕ → Option ℕ → Bool
unfolding greater
greater_or_equal contents p q = not (greater contents q p)

unfoldable pub less_or_equal : (ℕ → List ℕ) → Option ℕ → Option ℕ → Bool
unfolding greater
less_or_equal contents p q = not (greater contents p q)
