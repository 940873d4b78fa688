-- ===== src/Text/Checksum.antt =====
-- `toChecksumAddress` of src/ethereum/ethereum.cpp.
use komozoievm.Common.{
  ℕ, zero, suc, ◌+◌, ◌/◌, ltb, ◌%◌, ◌≡◌, refl, sym, ap, ◌∙◌, List, [], ◌∷◌, Bool, true, false, leb,
  ◌==◌, ◌&&◌, ◌||◌, if◌then◌else◌, length, map, ◌⊎◌, ◌≢◌, ==→eq, subst, Bool-cases, inl, inr, arith,
}
use mathlib.Core.Path.{ap₂}

-- The functions of the C library on characters, and byte `i` of `rawBytes` of a text's hash.
pub record Characters : Type 0 where
  pub is_alpha : ℕ → Bool
  pub to_upper : ℕ → ℕ
  pub to_lower : ℕ → ℕ
  pub raw_hash : List ℕ → ℕ → ℕ

-- The address behind an optional `0x` or `0X`.
unfoldable pub without_prefix : List ℕ → List ℕ
without_prefix [] = []
without_prefix (c ∷ []) = c ∷ []
without_prefix (c ∷ d ∷ cs) = if (c == 48) && ((d == 120) || (d == 88)) then cs else c ∷ d ∷ cs

-- The nibble of the hash for character `i`.
unfoldable pub nibble : (ℕ → ℕ) → ℕ → ℕ
nibble hash i = if i % 2 == 0 then hash (i / 2) / 16 else hash (i / 2) % 16

-- The loop that writes the characters from `i` on.
unfoldable pub cased : Characters → (ℕ → ℕ) → ℕ → List ℕ → List ℕ
unfolding nibble
cased t hash i [] = []
cased t hash i (c ∷ cs) =
    let rest = cased t hash (suc i) cs in
    let case = if leb 8 (nibble hash i) then t.to_upper c else t.to_lower c in
    (if t.is_alpha c then case else c) ∷ rest

-- `toChecksumAddress`, as the text that it writes.
unfoldable pub to_checksum_address : Characters → List ℕ → List ℕ
unfolding without_prefix cased
to_checksum_address t input =
    let addr = without_prefix input in
    if length addr == 40 then 48 ∷ 120 ∷ cased t (t.raw_hash (map t.to_lower addr)) 0 addr else []

-- Letters have two cases, and another character has none.
pub record HasCases (t : Characters) : Type 0 where
  pub upper_lower : (c : ℕ) → t.to_lower (t.to_upper c) ≡ t.to_lower c
  pub lower_lower : (c : ℕ) → t.to_lower (t.to_lower c) ≡ t.to_lower c
  pub lower_upper : (c : ℕ) → t.to_upper (t.to_lower c) ≡ t.to_upper c
  pub alpha_lower : (c : ℕ) → t.is_alpha (t.to_lower c) ≡ t.is_alpha c
  pub not_alpha : (c : ℕ) → t.is_alpha c ≡ false → t.to_lower c ≡ c

module _ (t : Characters) (h : HasCases t) where
  abbrev case_of : Bool → ℕ → ℕ
  case_of high c = if t.is_alpha c then (if high then t.to_upper c else t.to_lower c) else c

  case_of-lower : (high : Bool) (c : ℕ) → t.to_lower (case_of high c) ≡ t.to_lower c
  case_of-lower high c = at high (t.is_alpha c) refl
    where
      at :
          (high b : Bool)
          → t.is_alpha c ≡ b
          → t.to_lower (if b then (if high then t.to_upper c else t.to_lower c) else c)
            ≡ t.to_lower c
      at true true e = h.upper_lower c
      at false true e = h.lower_lower c
      at high false e = refl

  case_of-same :
      (high : Bool) (c d : ℕ) → t.to_lower c ≡ t.to_lower d → case_of high c ≡ case_of high d
  case_of-same high c d same =
      ap (λ b. if b then (if high then t.to_upper c else t.to_lower c) else c) alike
      ∙ at high (t.is_alpha d) alike refl
    where
      alike : t.is_alpha c ≡ t.is_alpha d
      alike = sym (h.alpha_lower c) ∙ ap t.is_alpha same ∙ h.alpha_lower d

      upper : t.to_upper c ≡ t.to_upper d
      upper = sym (h.lower_upper c) ∙ ap t.to_upper same ∙ h.lower_upper d

      at :
          (high b : Bool)
          → t.is_alpha c ≡ t.is_alpha d
          → t.is_alpha d ≡ b
          → (if b then (if high then t.to_upper c else t.to_lower c) else c)
            ≡ (if b then (if high then t.to_upper d else t.to_lower d) else d)
      at true true a e = upper
      at false true a e = same
      at high false a e = sym (h.not_alpha c (a ∙ e)) ∙ same ∙ h.not_alpha d e

  length-cased : (hash : ℕ → ℕ) (i : ℕ) (cs : List ℕ) → length (cased t hash i cs) ≡ length cs
  unfolding cased
  length-cased hash i [] = refl
  length-cased hash i (c ∷ cs) = ap suc (length-cased hash (suc i) cs)

  lower-cased :
      (hash : ℕ → ℕ) (i : ℕ) (cs : List ℕ) → map t.to_lower (cased t hash i cs) ≡ map t.to_lower cs
  unfolding cased
  lower-cased hash i [] = refl
  lower-cased hash i (c ∷ cs) =
      ap₂ (λ x xs. x ∷ xs) (case_of-lower (leb 8 (nibble hash i)) c) (lower-cased hash (suc i) cs)

  cased-same :
      (hash : ℕ → ℕ) (i : ℕ) (cs ds : List ℕ)
      → map t.to_lower cs ≡ map t.to_lower ds
      → cased t hash i cs ≡ cased t hash i ds
  unfolding cased
  cased-same hash i [] [] same = refl
  cased-same hash i [] (d ∷ ds) same = absurd (cc)
  cased-same hash i (c ∷ cs) [] same = absurd (cc)
  cased-same hash i (c ∷ cs) (d ∷ ds) same =
      ap₂ (λ x xs. x ∷ xs) (case_of-same (leb 8 (nibble hash i)) c d (ap first same))
        (cased-same hash (suc i) cs ds (ap rest same))
    where
      first : List ℕ → ℕ
      first [] = 0
      first (x ∷ xs) = x

      rest : List ℕ → List ℕ
      rest [] = []
      rest (x ∷ xs) = xs

-- The hexadecimal digits of `n` bytes of a hash from byte `k` on, two for each byte, the high one
-- first.
abbrev pub digits : (ℕ → ℕ) → (n k : ℕ) → List ℕ
digits hash zero k = []
digits hash (suc n) k = let rest = digits hash n (suc k) in hash k / 16 ∷ hash k % 16 ∷ rest

-- Characters beside the digits of a hash: a letter at a digit from 8 on is upper case, another letter
-- lower case, and what is no letter stays.
abbrev pub beside : Characters → List ℕ → List ℕ → List ℕ
beside t [] ds = []
beside t (c ∷ cs) [] = []
beside t (c ∷ cs) (d ∷ ds) =
    let rest = beside t cs ds in
    (if t.is_alpha c then if ltb d 8 then t.to_lower c else t.to_upper c else c) ∷ rest

-- What a text of the characters `addr` with a prefix has to be to be their checksum: their letters in
-- the case that the digits of the hash of the lower-case text say, so the same but for the case of
-- letters, its own checksum, and that of what differs from `addr` in case alone.
pub record IsChecksum (t : Characters) (addr out : List ℕ) : Type 0 where
  pub size : length out ≡ 42
  pub by_hash : out ≡ 48 ∷ 120 ∷ beside t addr (digits (t.raw_hash (map t.to_lower addr)) 20 0)
  pub same_letters : map t.to_lower out ≡ t.to_lower 48 ∷ t.to_lower 120 ∷ map t.to_lower addr
  pub its_own : to_checksum_address t out ≡ out
  pub any_case :
      (other : List ℕ)
      → map t.to_lower (without_prefix other) ≡ map t.to_lower addr
      → to_checksum_address t other ≡ out

nibbles_lem :
    (hash : ℕ → ℕ) (k : ℕ)
    → (nibble hash (k + k) ≡ hash k / 16) × (nibble hash (suc (k + k)) ≡ hash k % 16)
unfolding nibble
nibbles_lem hash k = (
  at ((k + k) % 2) ((k + k) / 2) (omega arith) (omega arith),
  odd (suc (k + k) % 2) (suc (k + k) / 2) (omega arith) (omega arith),
)
  where
    at : (m h : ℕ) → m ≡ 0 → h ≡ k → (if m == 0 then hash h / 16 else hash h % 16) ≡ hash k / 16
    at m h z e = rw (z, e) refl

    odd : (m h : ℕ) → m ≡ 1 → h ≡ k → (if m == 0 then hash h / 16 else hash h % 16) ≡ hash k % 16
    odd m h z e = rw (z, e) refl

one_case :
    (t : Characters) (c d n : ℕ)
    → n ≡ d
    → (if t.is_alpha c then if leb 8 n then t.to_upper c else t.to_lower c else c)
      ≡ (if t.is_alpha c then if ltb d 8 then t.to_lower c else t.to_upper c else c)
one_case t c d n e = ground arith

-- The loop writes the characters beside the digits of the hash.
cased-beside :
    (t : Characters) (hash : ℕ → ℕ) (n k : ℕ) (cs : List ℕ)
    → length cs ≡ n + n
    → cased t hash (k + k) cs ≡ beside t cs (digits hash n k)
unfolding cased
cased-beside t hash n k [] l = refl
cased-beside t hash zero k (c ∷ cs) l = absurd (omega arith)
cased-beside t hash (suc n) k (c ∷ []) l = absurd (omega arith)
cased-beside t hash (suc n) k (c ∷ d ∷ cs) l =
    ap₂ (λ x xs. x ∷ xs) (one_case t c (hash k / 16) _ ((nibbles_lem hash k).0))
      (ap₂ (λ x xs. x ∷ xs) (one_case t d (hash k % 16) _ ((nibbles_lem hash k).1))
        (ap (λ i. cased t hash i cs) (omega arith)
          ∙ cased-beside t hash n (suc k) cs (omega arith)))

abbrev written : Characters → List ℕ → List ℕ
written t addr = 48 ∷ 120 ∷ cased t (t.raw_hash (map t.to_lower addr)) 0 addr

to_checksum_address_lem :
    (t : Characters) (input : List ℕ)
    → length (without_prefix input) ≡ 40
    → to_checksum_address t input ≡ written t (without_prefix input)
unfolding to_checksum_address
to_checksum_address_lem t input l = rw l refl

length-lowered : (t : Characters) (cs : List ℕ) → length (map t.to_lower cs) ≡ length cs
length-lowered t [] = refl
length-lowered t (c ∷ cs) = ap suc (length-lowered t cs)

module _ (t : Characters) (h : HasCases t) (addr : List ℕ) (l : length addr ≡ 40) where
  others :
      (other : List ℕ)
      → map t.to_lower (without_prefix other) ≡ map t.to_lower addr
      → to_checksum_address t other ≡ written t addr
  others other same =
      to_checksum_address_lem t other
        (sym (length-lowered t (without_prefix other)) ∙ ap length same ∙ length-lowered t addr ∙ l)
      ∙ ap (λ m. 48 ∷ 120 ∷ cased t (t.raw_hash m) 0 (without_prefix other)) same
      ∙ ap (λ cs. 48 ∷ 120 ∷ cs)
          (cased-same t h (t.raw_hash (map t.to_lower addr)) 0 (without_prefix other) addr same)

  written-IsChecksum : IsChecksum t addr (written t addr)
  unfolding without_prefix
  written-IsChecksum = record {
    size = ap (λ n. suc (suc n)) (length-cased t h (t.raw_hash (map t.to_lower addr)) 0 addr ∙ l);
    by_hash =
        ap (λ cs. 48 ∷ 120 ∷ cs) (cased-beside t (t.raw_hash (map t.to_lower addr)) 20 0 addr l);
    same_letters = ap (λ cs. t.to_lower 48 ∷ t.to_lower 120 ∷ cs) lowered;
    its_own = others (written t addr) lowered;
    any_case = others;
  }
    where
      lowered :
          map t.to_lower (cased t (t.raw_hash (map t.to_lower addr)) 0 addr) ≡ map t.to_lower addr
      lowered = lower-cased t h (t.raw_hash (map t.to_lower addr)) 0 addr

-- Where letters have two cases and no other character has any, the checksum of a text of forty
-- characters behind an optional `0x` or `0X` is `0x` and forty characters that are the same but for
-- their case. A letter is upper case where the hexadecimal digit at its place in the hash of the
-- lower-case text is 8 or more, and else lower case. The checksum is its own checksum, and that of
-- every text that differs from it in case alone. Any other text gives the empty one.
pub to_checksum_address-IsChecksum :
    (t : Characters) (input : List ℕ)
    → HasCases t
    → ((length (without_prefix input) ≡ 40)
        × IsChecksum t (without_prefix input) (to_checksum_address t input))
      ⊎ ((length (without_prefix input) ≢ 40) × (to_checksum_address t input ≡ []))
unfolding to_checksum_address
to_checksum_address-IsChecksum t input h = elim (Bool-cases (length (without_prefix input) == 40)) [
  | inl e ↦
      let l = ==→eq (length (without_prefix input)) 40 e in
      inl (
        l,
        subst (IsChecksum t (without_prefix input)) (sym (to_checksum_address_lem t input l))
            (written-IsChecksum t h (without_prefix input) l),
      )
  | inr e ↦ inr (λ l. ground arith, rw e refl)
]
