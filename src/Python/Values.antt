-- ===== src/Python/Values.antt =====
-- The conversions of Python objects in src/python.cpp.
pub mod Accepted
use komozoievm.Python.Objects.{
  PyObject, none_object, int_object, float_object, text, buffer, address, block_object, transaction,
  builder, other, Double, nan, infinity, finite, PyError, value_error, type_error, cast_error,
  Answer, answer, raised, faulted, unfinished, ◌>>=◌, Library,
}
use komozoievm.Common.{
  ℕ, zero, suc, ◌+◌, ◌*◌, ◌/◌, ◌^◌, List, [], ◌∷◌, Option, none, some, Bool, true, false, ltb, leb,
  ◌==◌, ◌&&◌, if◌then◌else◌, length, drop, replicate, ℤ, pos, negsuc,
}
use komozoievm.Common.Bytes.{of_be}

-- A character of a C string, whose end is a zero.
char_at : List ℕ → ℕ → Option ℕ
char_at [] zero = some 0
char_at [] (suc i) = none
char_at (c ∷ cs) zero = some c
char_at (c ∷ cs) (suc i) = char_at cs i

-- The loop of `addressFromPy` over the digits, and the address of them.
unfoldable pub checked_digits : Library → List ℕ → (rounds i : ℕ) → Answer ℕ
unfolding char_at
checked_digits lib s zero i = answer (lib.parse_address s)
checked_digits lib s (suc n) i =
    let rest = checked_digits lib s n (suc i) in
    elim (char_at s i) [
      | none ↦ faulted
      | some c ↦ if lib.parse_hex_digit c == 255 then raised value_error else rest
    ]

-- Whether the first two characters are `0x`.
unfoldable pub has_prefix : List ℕ → Bool
unfolding char_at
has_prefix s = leb 2 (length s) && is 0 48 && is 1 120
  where
    is : ℕ → ℕ → Bool
    is i c = elim (char_at s i) [ none ↦ false | some d ↦ d == c ]

-- An object with the buffer protocol, as its bytes.
unfoldable pub cast_buffer : PyObject → Answer (List ℕ)
cast_buffer (buffer bytes) = answer bytes
cast_buffer _ = raised cast_error

-- `0x` and forty zeros.
abbrev zero_text : List ℕ
zero_text = 48 ∷ 120 ∷ replicate 40 48

-- `addressFromPy`.
unfoldable pub address_from_py : Library → PyObject → Answer ℕ
unfolding has_prefix checked_digits
address_from_py lib none_object = answer (lib.parse_address zero_text)
address_from_py lib (address a) = answer a
address_from_py lib (text s) =
    if has_prefix s
    then if length s == 42 then checked_digits lib (drop 2 s) 40 0 else raised value_error
    else if length s == 40
    then checked_digits lib s 40 0
    else raised value_error
address_from_py lib (buffer bytes) =
    if length bytes == 20 then answer (of_be 0 bytes) else raised value_error
address_from_py lib _ = raised cast_error

-- `!(d >= 0.0)`.
unfoldable pub not_at_least_zero : Double → Bool
not_at_least_zero nan = true
not_at_least_zero (infinity negative) = negative
not_at_least_zero (finite negative m k) = negative && ltb 0 m

-- `u256FromPy` of an int: the bytes that Python's own function writes of one that fits.
unfoldable pub u256_from_int : ℤ → Answer ℕ
u256_from_int (pos n) = if ltb n (2 ^ 256) then answer n else raised value_error
u256_from_int (negsuc n) = raised value_error

-- `PyNumber_Long` of a float; an infinite one has none, and the null object is refused by its type.
u256_from_float : Double → Answer ℕ
unfolding u256_from_int
u256_from_float (finite negative m k) = u256_from_int (pos (m / 2 ^ k))
u256_from_float _ = raised type_error

-- `u256FromPy`.
unfoldable pub u256_from_py : Library → PyObject → Answer ℕ
unfolding u256_from_int u256_from_float not_at_least_zero
u256_from_py lib (float_object d) =
    if not_at_least_zero d then raised value_error else u256_from_float d
u256_from_py lib (int_object z) = u256_from_int z
u256_from_py lib (text s) = answer (lib.parse_word s)
u256_from_py lib _ = raised type_error

-- `bytesFromPy`.
unfoldable pub bytes_from_py : PyObject → Answer (List ℕ)
unfolding cast_buffer
bytes_from_py none_object = answer []
bytes_from_py o = cast_buffer o

-- `std::round` of a float that is not below zero, and the test of its size.
gas_from_float : Double → Answer ℕ
gas_from_float (finite negative m k) =
    let rounded = (2 * m + 2 ^ k) / 2 ^ suc k in
    if ltb rounded (2 ^ 32) then answer rounded else raised value_error
gas_from_float _ = raised value_error

-- The tests of an int, which is cast to `int64_t` before.
gas_from_int : ℤ → Answer ℕ
gas_from_int (pos n) =
    if ltb n (2 ^ 63)
    then if ltb n (2 ^ 32) then answer n else raised value_error
    else raised cast_error
gas_from_int (negsuc n) = if ltb n (2 ^ 63) then raised value_error else raised cast_error

-- `gasFromPy`.
unfoldable pub gas_from_py : PyObject → Answer ℕ
unfolding gas_from_float gas_from_int not_at_least_zero
gas_from_py (float_object d) = if not_at_least_zero d then raised value_error else gas_from_float d
gas_from_py (int_object z) = gas_from_int z
gas_from_py _ = raised type_error
