-- ===== src/Context/Memory/Access.antt =====
-- What is read from the memory after a write, and from the call data, in
-- src/ethereum/EVMSimulationContext.h.
use komozoievm.Context.Memory.{store_bytes, calldata_load}
use komozoievm.Common.Bytes.{of_be, to_be, of_be-append}
use komozoievm.Common.{
  ℕ, zero, suc, ◌+◌, ◌-◌, ◌/◌, ◌%◌, ◌^◌, ◌≤◌, ◌<◌, ◌≡◌, refl, sym, ap, List, [], ◌∷◌, ◌++◌, some,
  length, get_elem?, ◌&&◌, take, drop, replicate, if◌then◌else◌, leb, ltb, arith, Bool-cases, inl,
  inr, length-append, length-take, length-drop, le→leb,
}

pub of_be-to_be : (n x : ℕ) → x < 256 ^ n → of_be 0 (to_be n x) ≡ x
unfolding of_be to_be
of_be-to_be zero x h = omega arith
of_be-to_be (suc n) x h =
    omega
      (arith, of_be-append 0 (to_be n (x / 256)) (x % 256), of_be-to_be n (x / 256) (omega arith))

pub store_bytes_lem :
    (m : List ℕ) (o : ℕ) (bytes : List ℕ)
    → o + length bytes ≤ length m
    → store_bytes m o bytes ≡ some (take o m ++ (bytes ++ drop (o + length bytes) m))
unfolding store_bytes
store_bytes_lem m o bytes h = rw (le→leb _ _ h) refl

get_elem?-append :
    (xs ys : List ℕ) (i : ℕ)
    → get_elem? (xs ++ ys) i
      ≡ (if ltb i (length xs) then get_elem? xs i else get_elem? ys (i - length xs))
get_elem?-append [] ys i = ground arith
get_elem?-append (x ∷ xs) ys zero = ground arith
get_elem?-append (x ∷ xs) ys (suc i) = ground (arith, get_elem?-append xs ys i)

get_elem?-take : (n : ℕ) (xs : List ℕ) (i : ℕ) → i < n → get_elem? (take n xs) i ≡ get_elem? xs i
get_elem?-take zero xs i h = absurd (omega arith)
get_elem?-take (suc n) [] i h = refl
get_elem?-take (suc n) (x ∷ xs) zero h = refl
get_elem?-take (suc n) (x ∷ xs) (suc i) h = get_elem?-take n xs i (omega arith)

get_elem?-drop : (n : ℕ) (xs : List ℕ) (i : ℕ) → get_elem? (drop n xs) i ≡ get_elem? xs (n + i)
get_elem?-drop zero xs i = ground arith
get_elem?-drop (suc n) [] i = refl
get_elem?-drop (suc n) (x ∷ xs) i = ground (arith, get_elem?-drop n xs i)

-- A write of bytes inside the memory: the region holds them afterwards, and every other byte is as
-- before.
store_bytes_elems :
    (m : List ℕ) (o : ℕ) (bytes : List ℕ)
    → o + length bytes ≤ length m
    → (m' : List ℕ) × (store_bytes m o bytes ≡ some m')
      × (length m' ≡ length m)
      × ((i : ℕ)
          → get_elem? m' i ≡ (
              if leb o i && ltb i (o + length bytes)
              then get_elem? bytes (i - o)
              else get_elem? m i))
store_bytes_elems m o bytes h = (
  take o m ++ (bytes ++ drop (o + length bytes) m),
  store_bytes_lem m o bytes h,
  omega (
    arith,
    length-append (take o m) (bytes ++ drop (o + length bytes) m),
    length-append bytes (drop (o + length bytes) m),
    length-take o m,
    length-drop (o + length bytes) m,
  ),
  λ i. ground (
    arith,
    get_elem?-append (take o m) (bytes ++ drop (o + length bytes) m) i,
    get_elem?-append bytes (drop (o + length bytes) m) (i - o),
    get_elem?-take o m i,
    get_elem?-drop (o + length bytes) m (i - o - length bytes),
    length-take o m,
  ),
)

take-short : (n k : ℕ) (xs ys : List ℕ) → n ≤ length xs → take n (xs ++ ys) ≡ take n xs
take-short zero k xs ys h = refl
take-short (suc n) k [] ys h = absurd (omega arith)
take-short (suc n) k (x ∷ xs) ys h = ap (λ zs. x ∷ zs) (take-short n k xs ys (omega arith))

take-replicate : (n k : ℕ) → n ≤ k → take {A = ℕ} n (replicate k 0) ≡ replicate n 0
take-replicate zero k h = refl
take-replicate (suc n) zero h = absurd (omega arith)
take-replicate (suc n) (suc k) h = ap (λ zs. 0 ∷ zs) (take-replicate n k (omega arith))

take-padded :
    (n k : ℕ) (xs : List ℕ)
    → length xs ≤ n
    → n ≤ k
    → take n (xs ++ replicate k 0) ≡ xs ++ replicate (n - length xs) 0
take-padded n k [] h large = ground (arith, take-replicate n k large)
take-padded zero k (x ∷ xs) h large = absurd (omega arith)
take-padded (suc n) k (x ∷ xs) h large = ground (arith, take-padded n k xs)

drop-all : (n : ℕ) (xs : List ℕ) → length xs ≤ n → drop n xs ≡ []
drop-all zero [] h = refl
drop-all zero (x ∷ xs) h = absurd (omega arith)
drop-all (suc n) [] h = refl
drop-all (suc n) (x ∷ xs) h = drop-all n xs (omega arith)

zero_word : of_be 0 (take 32 (replicate 32 0)) ≡ 0
unfolding of_be
zero_word = refl

-- CALLDATALOAD reads, at every offset, the 32 bytes of the call data with zeros behind its end.
pub calldata_load_lem :
    (bytes : List ℕ) (offset : ℕ)
    → calldata_load bytes offset ≡ of_be 0 (take 32 (drop offset bytes ++ replicate 32 0))
unfolding calldata_load
calldata_load_lem bytes offset = elim (Bool-cases (leb (length bytes) (offset + 31))) [
  | inr inside ↦
      let long : 32 ≤ length (drop offset bytes) = ground (arith, length-drop offset bytes) in
      rw (inside, take-short 32 0 (drop offset bytes) (replicate 32 0) long) refl
  | inl across ↦ elim (Bool-cases (leb (length bytes) offset)) [
    | inl beyond ↦
        let none_left : length bytes ≤ offset = ground arith in
        rw (across, beyond, drop-all offset bytes none_left) (sym zero_word)
    | inr some_left ↦
        let short : length (drop offset bytes) ≤ 32 = ground (arith, length-drop offset bytes) in
        let pad : 32 + offset - length bytes ≡ 32 - length (drop offset bytes) =
          ground (arith, length-drop offset bytes) in
        rw (across, some_left, take-padded 32 32 (drop offset bytes) short (omega arith), pad) refl
  ]
]
