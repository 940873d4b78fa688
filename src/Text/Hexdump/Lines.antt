-- ===== src/Text/Hexdump/Lines.antt =====
-- The lengths of the lines of `formatBinaryDataForHexdump` in src/util/strutil.cpp.
use komozoievm.Text.Hexdump.{
  hex_digits, offset_width, offset_text, hex_bytes, printable, read_line, line_text,
}
use komozoievm.Common.{
  ℕ, zero, suc, ◌+◌, ◌-◌, ◌*◌, ◌/◌, ◌^◌, ◌≤◌, ◌<◌, ◌≡◌, refl, ap, ◌∙◌, List, [], ◌∷◌, ◌++◌, Bool,
  true, false, some, if◌then◌else◌, length, take, map, arith, length-append, length-take,
}

length-hex_digits : (k n : ℕ) → length (hex_digits k n) ≡ k
unfolding hex_digits
length-hex_digits zero n = refl
length-hex_digits (suc k) n = ap suc (length-hex_digits k n)

offset_width_small : (n : ℕ) → n < 2 ^ 16 → offset_width n ≡ 4
unfolding offset_width
offset_width_small n small = ground arith

length-offset_text : (n : ℕ) → n < 2 ^ 16 → length (offset_text n) ≡ 6
unfolding offset_text
length-offset_text n small =
    length-append (hex_digits (offset_width n) n) (32 ∷ 32 ∷ [])
    ∙ omega (arith, length-hex_digits (offset_width n) n, offset_width_small n small)

-- Every eighth byte has a space in front of it, but the first.
length-hex_bytes :
    (j : ℕ) (bs : List ℕ)
    → length (hex_bytes (suc j) bs) + j / 8 ≡ 3 * length bs + (j + length bs) / 8
unfolding hex_bytes
length-hex_bytes j [] = omega arith
length-hex_bytes j (b ∷ bs) = ground (arith, length-hex_bytes (suc j) bs)

length-line : (bs : List ℕ) → length (hex_bytes 0 bs) ≡ 3 * length bs + (length bs - 1) / 8
unfolding hex_bytes
length-line [] = refl
length-line (b ∷ bs) = omega (arith, length-hex_bytes 0 bs)

length-map : (f : ℕ → ℕ) (bs : List ℕ) → length (map f bs) ≡ length bs
length-map f [] = refl
length-map f (b ∷ bs) = ap suc (length-map f bs)

length-body :
    (bs end : List ℕ)
    → length (hex_bytes 0 bs ++ (32 ∷ (124 ∷ (map printable bs ++ end))))
      ≡ 4 * length bs + (length bs - 1) / 8 + 2 + length end
length-body bs end =
    length-append (hex_bytes 0 bs) (32 ∷ (124 ∷ (map printable bs ++ end)))
    ∙ omega (arith, length-line bs, length-append (map printable bs) end, length-map printable bs)

abbrev pub seven_if : Bool → ℕ
seven_if several = if several then 7 else 0

pub length-line_text :
    (several : Bool) (offset : ℕ) (bs : List ℕ)
    → offset < 2 ^ 16
    → length (line_text several offset bs)
      ≡ 4 * length bs + (length bs - 1) / 8 + 3 + seven_if several
unfolding line_text
length-line_text true offset bs small =
    length-append (offset_text offset)
      (hex_bytes 0 bs ++ (32 ∷ (124 ∷ (map printable bs ++ (124 ∷ (10 ∷ []))))))
    ∙ omega (arith, length-offset_text offset small, length-body bs (124 ∷ 10 ∷ []))
length-line_text false offset bs small = length-body bs (124 ∷ []) ∙ omega arith

pub read_line_lem :
    (n : ℕ) (rest : List ℕ)
    → n ≤ length rest
    → (read_line n rest ≡ some (take n rest)) × (length (take n rest) ≡ n)
unfolding read_line
read_line_lem n rest h = (ground arith, length-take n rest ∙ omega arith)
