-- ===== src/Text/Hexdump/Room.antt =====
-- The buffer of `formatBinaryDataForHexdump` in src/util/strutil.cpp has room for its text.
use komozoievm.Text.Hexdump.Lines.{seven_if, length-line_text, read_line_lem}
use komozoievm.Text.Hexdump.{
  read_line, line_columns, line_text, lines_text, layout, output_length, dumped, Dump,
  format_binary_data_for_hexdump,
}
use komozoievm.Common.{
  ℕ, zero, suc, ◌+◌, ◌-◌, ◌*◌, ◌/◌, ◌%◌, ◌^◌, ◌≤◌, ◌<◌, ◌≡◌, ◌≢◌, refl, sym, ap, subst, ◌∙◌, List,
  [], ◌∷◌, ◌++◌, Bool, true, false, Option, none, some, ltb, leb, ◌==◌, if◌then◌else◌, length, take,
  drop, arith, length-append, length-drop, Bool-cases, inl, inr, ◌⊎◌,
}
use mathlib.Core.Path.{ap₂}
use native.Mathlib.Nat.{add-div_right, div-add-mod, mod-lt, mul-suc, suc-mul, mul-le-mul_right}

-- Lines that stand for what is left of the data.
Room : Bool → (columns left line size : ℕ) → List ℕ → Type 0
Room several columns left line size rest =
    (text : List ℕ) × (lines_text several columns left line size rest ≡ some text)
    × (length text ≤ 4 * length rest + (length rest - left) / 8 + left * (3 + seven_if several))

module _ (several : Bool) (size : ℕ) (few : size ≤ 2 ^ 16) where
  both : ℕ → Option (List ℕ) → Option (List ℕ) → Option (List ℕ)
  both offset r more = elim r [
    | none ↦ none
    | some bytes ↦ elim more [
      | none ↦ none
      | some text ↦ some (line_text several offset bytes ++ text)
    ]
  ]

  last_line :
      (columns line : ℕ) (rest : List ℕ)
      → columns * line + length rest ≡ size
      → 0 < length rest
      → Room several columns 1 line size rest
  unfolding lines_text both Room line_columns
  last_line columns line rest at some_left = (
    line_text several (size - length rest) bytes ++ [],
    ap (λ r. both (size - length rest) r (some [])) read.0,
    omega (
      arith,
      at,
      length-append (line_text several (size - length rest) bytes) [],
      length-line_text several (size - length rest) bytes (omega (arith, at, some_left, few)),
      read.1,
    ),
  )
    where
      n : ℕ
      n = size - columns * line

      bytes : List ℕ
      bytes = take n rest

      read : (read_line n rest ≡ some bytes) × (length bytes ≡ n)
      read = read_line_lem n rest (omega (arith, at))

  one_more : (columns k : ℕ) → columns * suc k ≡ columns * k + columns
  one_more columns k = mul-suc columns k

  next_line :
      (columns left line : ℕ) (rest : List ℕ)
      → 0 < columns
      → columns * line + length rest ≡ size
      → columns * suc left < length rest
      → Room several columns (suc left) (suc line) size (drop columns rest)
      → Room several columns (suc (suc left)) line size rest
  unfolding lines_text both Room line_columns
  next_line columns left line rest c at more (text, is, short) = (
    line_text several (size - length rest) bytes ++ text,
    ap₂ (both (size - length rest)) read.0 is,
    omega (
      arith,
      length-append (line_text several (size - length rest) bytes) text,
      length-line_text several (size - length rest) bytes (omega (arith, at, more, few)),
      read.1,
      short,
      length-drop columns rest,
      c,
      fits,
      apart,
      suc-mul (suc left) (3 + seven_if several),
    ),
  )
    where
      bytes : List ℕ
      bytes = take columns rest

      fits : columns ≤ length rest
      fits = omega (arith, one_more columns left, more)

      read : (read_line columns rest ≡ some bytes) × (length bytes ≡ columns)
      read = read_line_lem columns rest fits

      apart : suc left ≤ length rest - columns
      apart = omega (arith, one_more columns left, more, mul-le-mul_right left c)

  all_lines :
      (columns left line : ℕ) (rest : List ℕ)
      → 0 < columns
      → columns * line + length rest ≡ size
      → columns * left < length rest
      → length rest ≤ columns * suc left
      → Room several columns (suc left) line size rest
  all_lines columns zero line rest c at more less =
      last_line columns line rest at (omega (arith, more))
  all_lines columns (suc left) line rest c at more less =
      let shorter = length-drop columns rest in
      let next = one_more columns left in
      next_line columns left line rest c at more (
        all_lines columns left (suc line) (drop columns rest) c
          (omega (arith, at, one_more columns line, shorter, next, more))
          (omega (arith, more, next, shorter))
          (omega (arith, less, one_more columns (suc left), shorter)))

layout_lem :
    (size columns : ℕ)
    → 0 < size
    → columns ≢ 0
    → (layout size (some columns) ≡ some (size, 1))
      ⊎ ((left : ℕ) × (layout size (some columns) ≡ some (columns, suc left))
          × (columns * left < size)
          × (size ≤ columns * suc left))
unfolding layout
layout_lem size columns pos c = elim (Bool-cases (leb size columns)) [
  | inl whole ↦ inl (ground arith)
  | inr several ↦ inr (
    q,
    rw (several, there) (ap (λ n. some (columns, n)) (ap (λ n. n / columns) shifted ∙ once_more)),
    omega (arith, split, pos),
    omega (arith, split, mul-suc columns q, mod-lt (size - 1) positive),
  )
]
  where
    q : ℕ
    q = (size - 1) / columns

    positive : 0 < columns
    positive = omega (arith, c)

    there : (columns == 0) ≡ false
    there = ground arith

    shifted : size + columns - 1 ≡ size - 1 + columns
    shifted = omega (arith, pos)

    once_more : (size - 1 + columns) / columns ≡ suc q
    once_more = add-div_right (size - 1) positive ∙ omega arith

    split : columns * q + (size - 1) % columns ≡ size - 1
    split = div-add-mod (size - 1) columns

-- The bytes of the data, of which a null pointer has none.
abbrev pub size_of : Option (List ℕ) → ℕ
size_of none = 0
size_of (some bytes) = length bytes

-- The text and the zero behind it fit the buffer.
abbrev pub Fits : Dump → Type 0
Fits d = length d.text < d.capacity

FitsOf : List ℕ → Option (ℕ × ℕ) → Type 0
FitsOf bytes laid = (d : Dump) × (dumped bytes laid ≡ some d) × Fits d

dumped-Fits :
    (bytes : List ℕ) (columns left : ℕ)
    → Room (ltb 1 (suc left)) columns (suc left) 0 (length bytes) bytes
    → 0 < length bytes
    → FitsOf bytes (some (columns, suc left))
unfolding dumped Room FitsOf output_length
dumped-Fits bytes columns left (text, is, short) pos = (
  record { capacity = output_length (length bytes) (suc left); text = text },
  ap made is,
  enough (ltb 1 (suc left)) short,
)
  where
    enough :
        (several : Bool)
        → length text
          ≤ 4 * length bytes + (length bytes - suc left) / 8 + suc left * (3 + seven_if several)
        → length text
          < length bytes * 4
            + (length bytes - 1) / 8
            + 3 * suc left
            + 1
            + (if several then suc left * 7 else 0)
    enough true h = omega (arith, h)
    enough false h = omega (arith, h)

    made : Option (List ℕ) → Option Dump
    made o = elim o [
      | none ↦ none
      | some text ↦
          some (record { capacity = output_length (length bytes) (suc left); text = text })
    ]

one_line-Fits :
    (bytes : List ℕ)
    → 0 < length bytes
    → length bytes ≤ 2 ^ 16
    → FitsOf bytes (some (length bytes, 1))
one_line-Fits bytes pos few =
    dumped-Fits bytes (length bytes) 0
      (last_line false (length bytes) few (length bytes) 0 bytes (omega arith) pos) pos

lines-Fits :
    (bytes : List ℕ) (columns : ℕ)
    → 0 < length bytes
    → length bytes ≤ 2 ^ 16
    → columns ≢ 0
    → FitsOf bytes (layout (length bytes) (some columns))
lines-Fits bytes columns pos few c = elim (layout_lem (length bytes) columns pos c) [
  | inl whole ↦ subst (FitsOf bytes) (sym whole) (one_line-Fits bytes pos few)
  | inr (left, several, more, less) ↦ subst (FitsOf bytes) (sym several) (
      dumped-Fits bytes columns left
        (all_lines (ltb 1 (suc left)) (length bytes) few columns left 0 bytes (omega (arith, c))
          (omega arith) more less)
        pos)
]

-- Of a null pointer, or of at most 65536 bytes in lines of any number of columns but 0, a text is
-- made that fits the buffer that is allocated for it with the zero behind it, and no byte outside
-- the data is read.
pub format_binary_data_for_hexdump-Fits :
    (input : Option (List ℕ)) (columns : Option ℕ)
    → size_of input ≤ 2 ^ 16
    → columns ≢ some 0
    → (d : Dump) × (format_binary_data_for_hexdump input columns ≡ some d) × Fits d
unfolding format_binary_data_for_hexdump FitsOf layout
format_binary_data_for_hexdump-Fits none columns few c = (_, refl, omega arith)
format_binary_data_for_hexdump-Fits (some []) columns few c = (_, refl, omega arith)
format_binary_data_for_hexdump-Fits (some (b ∷ bs)) none few c =
    one_line-Fits (b ∷ bs) (omega arith) few
format_binary_data_for_hexdump-Fits (some (b ∷ bs)) (some n) few c =
    lines-Fits (b ∷ bs) n (omega arith) few (λ z. c (ap some z))
