-- ===== src/Text/Hexdump.antt =====
-- `formatBinaryDataForHexdump` of src/util/strutil.cpp, as the text that it writes and the size of the
-- buffer that it writes to, and `parseHexToBytes` of src/include/util/byteutils.h. Its `columns` are
-- `none` for -1; no other negative number is modelled. Its lengths fit an `int`.
pub mod Lines
pub mod Room
use komozoievm.Common.{
  ℕ, zero, suc, ◌+◌, ◌-◌, ◌*◌, ◌/◌, ◌%◌, ◌^◌, List, [], ◌∷◌, ◌++◌, Bool, Option, none, some, ltb,
  leb, ◌==◌, ◌&&◌, ◌||◌, if◌then◌else◌, length, take, drop, map, not,
}

-- `base[n]`, of a nibble.
unfoldable pub hex_digit : ℕ → ℕ
hex_digit n = if ltb n 10 then 48 + n else 87 + n

-- The lowest `k` hexadecimal digits of a number.
unfoldable pub hex_digits : ℕ → ℕ → List ℕ
unfolding hex_digit
hex_digits zero n = []
hex_digits (suc k) n = hex_digit (n / 16 ^ k % 16) ∷ hex_digits k n

-- How many digits `%04x` writes of an offset, which is below 2 ^ 31.
unfoldable pub offset_width : ℕ → ℕ
offset_width n =
    if ltb n (16 ^ 4)
    then 4
    else if ltb n (16 ^ 5)
    then 5
    else if ltb n (16 ^ 6)
    then 6
    else if ltb n (16 ^ 7)
    then 7
    else 8

-- `sprintf(p, "%04x  ", dp - data)`.
unfoldable pub offset_text : ℕ → List ℕ
unfolding hex_digits offset_width
offset_text n = hex_digits (offset_width n) n ++ 32 ∷ 32 ∷ []

-- The first loop over a line's bytes, from byte `i` on.
unfoldable pub hex_bytes : ℕ → List ℕ → List ℕ
unfolding hex_digit
hex_bytes i [] = []
hex_bytes i (b ∷ bs) =
    let rest = hex_digit (b / 16) ∷ hex_digit (b % 16) ∷ 32 ∷ hex_bytes (suc i) bs in
    if not (i == 0) && i % 8 == 0 then 32 ∷ rest else rest

-- The character that the second loop writes for a byte.
unfoldable pub printable : ℕ → ℕ
printable b = if ltb b 32 || ltb 126 b then 46 else b

-- The first `n` bytes, where there are so many.
unfoldable pub read_line : ℕ → List ℕ → Option (List ℕ)
read_line n rest = if leb n (length rest) then some (take n rest) else none

-- A line: the offset where there are several, the bytes, their characters, and its end.
unfoldable pub line_text : Bool → ℕ → List ℕ → List ℕ
unfolding offset_text hex_bytes printable
line_text several offset bytes =
    let end = map printable bytes ++ (124 ∷ (if several then 10 ∷ [] else [])) in
    (if several then offset_text offset else []) ++ (hex_bytes 0 bytes ++ (32 ∷ (124 ∷ end)))

-- The columns of a line with `left` lines behind it: the last one has what the others leave.
unfoldable pub line_columns : (columns left line size : ℕ) → ℕ
line_columns columns zero line size = size - columns * line
line_columns columns (suc left) line size = columns

-- The loop over the lines, with the number that is left; `none` where a byte behind the data is read.
unfoldable pub lines_text : (several : Bool) (columns left line size : ℕ) → List ℕ → Option (List ℕ)
unfolding read_line line_text line_columns
lines_text several columns zero line size rest = some []
lines_text several columns (suc left) line size rest =
    let n = line_columns columns left line size in
    let more = lines_text several columns left (suc line) size (drop n rest) in
    elim (read_line n rest) [
      | none ↦ none
      | some bytes ↦ elim more [
        | none ↦ none
        | some text ↦ some (line_text several (size - length rest) bytes ++ text)
      ]
    ]

-- The columns and the number of lines; `none` where the source divides by zero.
unfoldable pub layout : ℕ → Option ℕ → Option (ℕ × ℕ)
layout size none = some (size, 1)
layout size (some columns) =
    if leb size columns
    then some (size, 1)
    else if columns == 0
    then none
    else some (columns, (size + columns - 1) / columns)

-- `outputLength`.
unfoldable pub output_length : ℕ → ℕ → ℕ
output_length size lines =
    size * 4 + (size - 1) / 8 + 3 * lines + 1 + (if ltb 1 lines then lines * 7 else 0)

-- What the buffer is given for, and the text in it.
pub record Dump : Type 0 where
  pub capacity : ℕ
  pub text : List ℕ

-- The text of data that are laid out, in its buffer.
unfoldable pub dumped : List ℕ → Option (ℕ × ℕ) → Option Dump
unfolding lines_text output_length
dumped bytes none = none
dumped bytes (some (columns, lines)) =
    elim (lines_text (ltb 1 lines) columns lines 0 (length bytes) bytes) [
      | none ↦ none
      | some text ↦ some (record { capacity = output_length (length bytes) lines; text = text })
    ]

-- `formatBinaryDataForHexdump`, of data or a null pointer.
unfoldable pub format_binary_data_for_hexdump : Option (List ℕ) → Option ℕ → Option Dump
unfolding layout dumped
format_binary_data_for_hexdump none columns =
    some (record { capacity = 7; text = 40 ∷ 110 ∷ 117 ∷ 108 ∷ 108 ∷ 41 ∷ [] })
format_binary_data_for_hexdump (some []) columns =
    some (record { capacity = 8; text = 40 ∷ 101 ∷ 109 ∷ 112 ∷ 116 ∷ 121 ∷ 41 ∷ [] })
format_binary_data_for_hexdump (some (b ∷ bs)) columns =
    dumped (b ∷ bs) (layout (length (b ∷ bs)) columns)
