-- ===== src/Python/Values/Accepted.antt =====
-- Which Python objects src/python.cpp takes as addresses, as gas limits and as numbers.
use komozoievm.Python.Objects.{
  PyObject, none_object, int_object, float_object, text, buffer, address, block_object, transaction,
  builder, other, nan, infinity, finite, value_error, Answer, answer, raised, Library,
}
use komozoievm.Python.Values.{
  char_at, checked_digits, has_prefix, address_from_py, not_at_least_zero, gas_from_float,
  gas_from_int, gas_from_py,
}
use komozoievm.Common.{
  ℕ, zero, suc, ◌+◌, ◌*◌, ◌/◌, ◌^◌, ◌≤◌, ◌<◌, ◌≡◌, refl, List, [], ◌∷◌, some, Bool, true, false,
  ltb, ◌==◌, ◌&&◌, if◌then◌else◌, length, drop, arith, not, pos, negsuc, ◌⊎◌, inl, inr, Bool-cases,
  ==→eq, ltb→lt, subst,
}
use native.Mathlib.Nat.{div-add-mod', mod-lt, pow-suc, one-le-pow}

-- The digits of an address as text, with or without `0x` in front.
abbrev pub digits_of : List ℕ → List ℕ
digits_of [] = []
digits_of (c ∷ []) = c ∷ []
digits_of (c ∷ d ∷ cs) = if (c == 48) && (d == 120) then cs else c ∷ d ∷ cs

abbrev pub all_digits : Library → List ℕ → Bool
all_digits lib [] = true
all_digits lib (c ∷ cs) = not (lib.parse_hex_digit c == 255) && all_digits lib cs

char_at-drop : (s : List ℕ) (i c : ℕ) (cs : List ℕ) → drop i s ≡ c ∷ cs → char_at s i ≡ some c
unfolding char_at
char_at-drop [] zero c cs h = cc
char_at-drop [] (suc i) c cs h = cc
char_at-drop (x ∷ s) zero c cs h = cc
char_at-drop (x ∷ s) (suc i) c cs h = char_at-drop s i c cs h

drop_next : (s : List ℕ) (i c : ℕ) (cs : List ℕ) → drop i s ≡ c ∷ cs → drop (suc i) s ≡ cs
drop_next [] zero c cs h = cc
drop_next [] (suc i) c cs h = cc
drop_next (x ∷ s) zero c cs h = cc
drop_next (x ∷ s) (suc i) c cs h = drop_next s i c cs h

-- Rounds that walk the rest of the text.
checked_from :
    (lib : Library) (s cs : List ℕ) (n i : ℕ)
    → drop i s ≡ cs
    → length cs ≡ n
    → checked_digits lib s n i
      ≡ (if all_digits lib cs then answer (lib.parse_address s) else raised value_error)
unfolding checked_digits
checked_from lib s [] zero i h l = refl
checked_from lib s [] (suc n) i h l = ground (arith, l)
checked_from lib s (c ∷ cs) zero i h l = ground (arith, l)
checked_from lib s (c ∷ cs) (suc n) i h l = ground (
  arith,
  char_at-drop s i c cs h,
  checked_from lib s cs n (suc i) (drop_next s i c cs h) (omega (arith, l)),
)

all_checked :
    (lib : Library) (s : List ℕ)
    → length s ≡ 40
    → checked_digits lib s 40 0
      ≡ (if all_digits lib s then answer (lib.parse_address s) else raised value_error)
all_checked lib s l = checked_from lib s s 40 0 refl l

-- What a text with these digits is taken as.
abbrev pub taken : Library → List ℕ → Answer ℕ
taken lib ds =
    if (length ds == 40) && all_digits lib ds
    then answer (lib.parse_address ds)
    else raised value_error

sized :
    (lib : Library) (ds : List ℕ)
    → (if length ds == 40 then checked_digits lib ds 40 0 else raised value_error) ≡ taken lib ds
sized lib ds = elim (Bool-cases (length ds == 40)) [
  | inl l ↦ rw l (all_checked lib ds (==→eq (length ds) 40 l))
  | inr l ↦ rw l refl
]

two_more : (n : ℕ) → (suc (suc n) == 42) ≡ (n == 40)
two_more n = ground arith

has_prefix_lem : (c d : ℕ) (cs : List ℕ) → has_prefix (c ∷ d ∷ cs) ≡ ((c == 48) && (d == 120))
unfolding has_prefix char_at
has_prefix_lem c d cs = ground arith

prefixed :
    (lib : Library) (c d : ℕ) (cs : List ℕ) (b : Bool)
    → (if b
        then if suc (suc (length cs)) == 42 then checked_digits lib cs 40 0 else raised value_error
        else if length (c ∷ d ∷ cs) == 40
        then checked_digits lib (c ∷ d ∷ cs) 40 0
        else raised value_error)
      ≡ taken lib (if b then cs else c ∷ d ∷ cs)
prefixed lib c d cs true = rw (two_more (length cs)) (sized lib cs)
prefixed lib c d cs false = sized lib (c ∷ d ∷ cs)

-- An address as text is taken, and parsed, where it has forty characters behind an optional `0x` and
-- each is a hexadecimal digit; any other text is a value error. No character outside the text is
-- read.
pub address_from_py_text :
    (lib : Library) (s : List ℕ) → address_from_py lib (text s) ≡ taken lib (digits_of s)
unfolding address_from_py has_prefix char_at
address_from_py_text lib [] = refl
address_from_py_text lib (c ∷ []) = refl
address_from_py_text lib (c ∷ d ∷ cs) =
    rw (has_prefix_lem c d cs) (prefixed lib c d cs ((c == 48) && (d == 120)))

-- That the native number is the gas limit that an object stands for: an int itself, a float that is
-- not below zero rounded to the nearest, a half upwards.
abbrev pub Rounded : Bool → ℕ → ℕ → ℕ → Type 0
Rounded negative m k g =
    ((negative ≡ false) ⊎ (m ≡ 0))
    × (2 * g * 2 ^ k ≤ 2 * m + 2 ^ k)
    × (2 * m + 2 ^ k < 2 * (g + 1) * 2 ^ k)

abbrev pub IsGas : PyObject → ℕ → Type 0
IsGas (int_object z) g = z ≡ pos g
IsGas (float_object (finite negative m k)) g = Rounded negative m k g
IsGas _ g = ⊥

rounded_lem :
    (negative : Bool) (m k : ℕ)
    → (negative ≡ false) ⊎ (m ≡ 0)
    → Rounded negative m k ((2 * m + 2 ^ k) / 2 ^ suc k)
rounded_lem negative m k sign =
    (sign, omega (arith, low, twice q), omega (arith, high, twice (q + 1)))
  where
    n : ℕ
    n = 2 * m + 2 ^ k

    q : ℕ
    q = n / 2 ^ suc k

    twice : (x : ℕ) → x * 2 ^ suc k ≡ 2 * x * 2 ^ k
    twice x = rw (pow-suc 2 k) (omega arith)

    low : q * 2 ^ suc k ≤ n
    low = omega (arith, div-add-mod' n (2 ^ suc k))

    high : n < (q + 1) * 2 ^ suc k
    high = omega (arith, div-add-mod' n (2 ^ suc k), mod-lt n (one-le-pow (suc k) 2 (omega arith)))

within_32 :
    (negative : Bool) (m k g q : ℕ)
    → Rounded negative m k q
    → (if ltb q (2 ^ 32) then answer q else raised value_error) ≡ answer g
    → Rounded negative m k g × (g < 2 ^ 32)
within_32 negative m k g q r h = go (ltb q (2 ^ 32)) refl h
  where
    go :
        (b : Bool)
        → ltb q (2 ^ 32) ≡ b
        → (if b then answer q else raised value_error) ≡ answer g
        → Rounded negative m k g × (g < 2 ^ 32)
    go true small same =
        subst (λ x. Rounded negative m k x × (x < 2 ^ 32)) (ground arith)
          (r, ltb→lt q (2 ^ 32) small)
    go false large same = ground arith

-- A gas limit that is taken fits 32 bits, and is the int, or the float rounded to the nearest with a
-- half rounded up; a negative number, a float that is none and any other object are refused.
pub gas_from_py-IsGas : (o : PyObject) (g : ℕ) → gas_from_py o ≡ answer g → IsGas o g × (g < 2 ^ 32)
unfolding gas_from_py gas_from_float gas_from_int not_at_least_zero
gas_from_py-IsGas (int_object (pos n)) g h = ground arith
gas_from_py-IsGas (int_object (negsuc n)) g h = ground arith
gas_from_py-IsGas (float_object nan) g h = ground arith
gas_from_py-IsGas (float_object (infinity true)) g h = ground arith
gas_from_py-IsGas (float_object (infinity false)) g h = ground arith
gas_from_py-IsGas (float_object (finite false m k)) g h =
    within_32 false m k g _ (rounded_lem false m k (inl refl)) h
gas_from_py-IsGas (float_object (finite true zero k)) g h =
    within_32 true 0 k g _ (rounded_lem true 0 k (inr refl)) h
gas_from_py-IsGas (float_object (finite true (suc m) k)) g h = ground arith
gas_from_py-IsGas none_object g h = ground arith
gas_from_py-IsGas (text s) g h = ground arith
gas_from_py-IsGas (buffer s) g h = ground arith
gas_from_py-IsGas (address s) g h = ground arith
gas_from_py-IsGas (block_object s) g h = ground arith
gas_from_py-IsGas (transaction s) g h = ground arith
gas_from_py-IsGas (builder s) g h = ground arith
gas_from_py-IsGas other g h = ground arith
