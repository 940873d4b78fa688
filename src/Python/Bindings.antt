-- ===== src/Python/Bindings.antt =====
-- The functions of the module in src/python.cpp that convert their arguments and call a chain.
use komozoievm.Python.Objects.{
  Block, PyObject, none_object, int_object, Answer, answer, ◌>>=◌, Library,
}
use komozoievm.Python.Values.{address_from_py, u256_from_py, bytes_from_py}
use komozoievm.Python.Chain.{
  MockChain, set_balance, set_code, set_storage_slot, get_storage_slots, update_storage_slots,
}
use komozoievm.Python.Chain.Views.{view, get_storage_slots_lem}
use komozoievm.Context.Overlay.Slots.{slot-put}
use komozoievm.Common.{
  ℕ, ◌≡◌, refl, ap, ◌∙◌, List, [], ◌∷◌, map, put, Map, pos, ◌==◌, ◌&&◌, if◌then◌else◌, arith,
}
use mathlib.Core.Path.{fun_ext}

-- `u256ToPy`: the bytes of a number, read back as an int by Python's own function.
unfoldable pub u256_to_py : ℕ → PyObject
u256_to_py n = int_object (pos n)

-- `MockChain.set_balance`.
unfoldable pub balance_set : Library → (addr balance : PyObject) → MockChain → Answer MockChain
unfolding address_from_py u256_from_py set_balance
balance_set lib addr balance ch = do
  a ← address_from_py lib addr
  n ← u256_from_py lib balance
  answer (set_balance a n ch)

-- `MockChain.set_code`.
unfoldable pub code_set : Library → (addr code : PyObject) → MockChain → Answer MockChain
unfolding address_from_py bytes_from_py set_code
code_set lib addr code ch = do
  a ← address_from_py lib addr
  bytes ← bytes_from_py code
  answer (set_code a bytes ch)

-- `MockChain.set_storage`.
unfoldable pub storage_set : Library → (addr slot value : PyObject) → MockChain → Answer MockChain
unfolding address_from_py u256_from_py set_storage_slot
storage_set lib addr slot value ch = do
  key ← u256_from_py lib slot
  a ← address_from_py lib addr
  v ← u256_from_py lib value
  answer (set_storage_slot a key v ch)

-- The numbers of a Python list.
unfoldable pub words_from_py : Library → List PyObject → Answer (List ℕ)
unfolding u256_from_py
words_from_py lib [] = answer []
words_from_py lib (o ∷ os) = do n ← u256_from_py lib o; ns ← words_from_py lib os; answer (n ∷ ns)

-- `StateProvider.get_storage_slots` of a `MockChain`.
unfoldable pub slots_got : Library → ℕ → MockChain → ℕ → List PyObject → Answer (List PyObject)
unfolding words_from_py get_storage_slots u256_to_py
slots_got lib default ch a keys = do
  ks ← words_from_py lib keys
  answer (map u256_to_py (get_storage_slots default ch a ks))

-- The map of a Python dict.
unfoldable pub entries_from_py : Library → List (PyObject × PyObject) → Map ℕ → Answer (Map ℕ)
unfolding u256_from_py
entries_from_py lib [] entries = answer entries
entries_from_py lib ((key, value) ∷ items) entries = do
  k ← u256_from_py lib key
  v ← u256_from_py lib value
  entries_from_py lib items (put entries k v)

-- `StateProvider.update_storage_slots` of a `MockChain`.
unfoldable pub slots_updated :
    Library → ℕ → List (PyObject × PyObject) → MockChain → Answer MockChain
unfolding entries_from_py update_storage_slots
slots_updated lib a items ch = do
  entries ← entries_from_py lib items []
  answer (update_storage_slots a entries ch)

-- The constructor of `BlockInfo`, with the default value of a number.
unfoldable pub new_block :
    Library
    → (default number timestamp base_fee gas_limit chain_id : ℕ) → (coinbase randao : PyObject)
    → Answer Block
unfolding address_from_py u256_from_py
new_block lib default number timestamp base_fee gas_limit chain_id coinbase randao = do
  c ← coinbase_of coinbase
  r ← randao_of randao
  answer (record {
    randao = r;
    coinbase = c;
    number = number;
    timestamp = timestamp;
    gas_limit = gas_limit;
    base_fee = base_fee;
    chain_id = chain_id;
  })
  where
    coinbase_of : PyObject → Answer ℕ
    coinbase_of none_object = answer (lib.parse_address (48 ∷ 120 ∷ 48 ∷ []))
    coinbase_of o = address_from_py lib o

    randao_of : PyObject → Answer ℕ
    randao_of none_object = answer default
    randao_of o = u256_from_py lib o

-- Where the objects are taken as an address, a slot and a value, `set_storage` makes a chain of
-- which `get_storage_slots` gives back that value at that slot of that address, as an int, and at
-- any other slot and address what it gave before, for every list of keys that is taken.
pub slots_got-storage_set :
    (lib : Library) (d : ℕ) (ch : MockChain) (addr slot value : PyObject) (a key v : ℕ)
    → address_from_py lib addr ≡ answer a
    → u256_from_py lib slot ≡ answer key
    → u256_from_py lib value ≡ answer v
    → (after : MockChain) × (storage_set lib addr slot value ch ≡ answer after)
      × ((b : ℕ) (keys : List PyObject) (ks : List ℕ)
          → words_from_py lib keys ≡ answer ks
          → slots_got lib d after b keys
            ≡ answer (
                map u256_to_py
                  (map (λ k. if (b == a) && (k == key) then v else (view d ch).slot_of b k) ks)))
unfolding storage_set slots_got set_storage_slot
slots_got-storage_set lib d ch addr slot value a key v is_a is_key is_v = (
  after,
  rw (is_key, is_a, is_v) refl,
  λ b keys ks taken. rw taken (
      ap (λ vs. answer (map u256_to_py vs))
        (get_storage_slots_lem d after b ks ∙ ap (λ f. map f ks) (fun_ext (held b)))),
)
  where
    after : MockChain
    after = set_storage_slot a key v ch

    held :
        (b k : ℕ)
        → (view d after).slot_of b k
          ≡ (if (b == a) && (k == key) then v else (view d ch).slot_of b k)
    held b k = ground (arith, slot-put ch.storage a b key k v)
