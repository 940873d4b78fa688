-- ===== src/Text/Parsing.antt =====
-- `parseHexToBytes` of src/include/util/byteutils.h, and hexadecimal text that is read back.
use Prim.Native.Nat.{bit_or}
use komozoievm.Text.Checksum.{without_prefix}
use komozoievm.Text.Hexdump.{hex_digit}
use komozoievm.Common.{
  ℕ, zero, suc, ◌+◌, ◌*◌, ◌/◌, ◌%◌, ◌<◌, ◌≡◌, refl, sym, subst, ap, ◌∙◌, List, [], ◌∷◌, Bool, true,
  false, ◌==◌, ◌&&◌, All, arith, ==→eq, Bool-cases, inl, inr,
}
use mathlib.Core.Path.{ap₂}

-- The loop over the pairs of characters; one that is left over is not read. The first digit is
-- shifted, both as a `uint8_t`.
unfoldable pub parse_pairs : (ℕ → ℕ) → List ℕ → List ℕ
parse_pairs parse_hex_digit [] = []
parse_pairs parse_hex_digit (c ∷ []) = []
parse_pairs parse_hex_digit (c ∷ d ∷ cs) =
    let rest = parse_pairs parse_hex_digit cs in
    bit_or (parse_hex_digit c * 16 % 256) (parse_hex_digit d) ∷ rest

-- `parseHexToBytes`.
unfoldable pub parse_hex_to_bytes : (ℕ → ℕ) → List ℕ → List ℕ
unfolding parse_pairs without_prefix
parse_hex_to_bytes parse_hex_digit s = parse_pairs parse_hex_digit (without_prefix s)

-- The digits of every byte, as the lines of a dump have them.
abbrev pub hex_text : List ℕ → List ℕ
hex_text [] = []
hex_text (b ∷ bs) = hex_digit (b / 16) ∷ hex_digit (b % 16) ∷ hex_text bs

-- A digit is parsed as the number that it stands for.
abbrev pub ReadsDigits : (ℕ → ℕ) → Type 0
ReadsDigits parse = (n : ℕ) → n < 16 → parse (hex_digit n) ≡ n

abbrev all_below : ℕ → (ℕ → Bool) → Bool
all_below zero f = true
all_below (suc n) f = f n && all_below n f

both : (a b : Bool) → a && b ≡ true → (a ≡ true) × (b ≡ true)
both true b h = (refl, h)
both false b h = absurd (ground arith)

all_below-lt : (n : ℕ) (f : ℕ → Bool) (k : ℕ) → all_below n f ≡ true → k < n → f k ≡ true
all_below-lt zero f k h l = absurd (omega arith)
all_below-lt (suc n) f k h l = elim (Bool-cases (k == n)) [
  | inl same ↦ subst (λ i. f i ≡ true) (sym (==→eq k n same)) (both (f n) (all_below n f) h).0
  | inr other ↦ all_below-lt n f k (both (f n) (all_below n f) h).1 (ground arith)
]

or_of_nibbles : (a b : ℕ) → a < 16 → b < 16 → bit_or (a * 16 % 256) b ≡ a * 16 + b
or_of_nibbles a b ha hb = ==→eq _ _ (
    all_below-lt 16 (λ y. bit_or (a * 16 % 256) y == a * 16 + y) b
      (all_below-lt 16 (λ x. all_below 16 (λ y. bit_or (x * 16 % 256) y == x * 16 + y)) a refl ha)
      hb)

no_prefix : (b : ℕ) (bs : List ℕ) → b < 256 → without_prefix (hex_text (b ∷ bs)) ≡ hex_text (b ∷ bs)
unfolding without_prefix hex_digit
no_prefix b bs small = ground arith

byte_read :
    (parse : ℕ → ℕ) (b : ℕ)
    → ReadsDigits parse
    → b < 256
    → bit_or (parse (hex_digit (b / 16)) * 16 % 256) (parse (hex_digit (b % 16))) ≡ b
byte_read parse b h s =
    ap₂ (λ x y. bit_or (x * 16 % 256) y) (h (b / 16) (omega (arith, s))) (h (b % 16) (omega arith))
    ∙ or_of_nibbles (b / 16) (b % 16) (omega (arith, s)) (omega arith)
    ∙ omega arith

pairs-hex_text :
    (parse : ℕ → ℕ) (bytes : List ℕ)
    → ReadsDigits parse
    → All (λ b. b < 256) bytes
    → parse_pairs parse (hex_text bytes) ≡ bytes
unfolding parse_pairs
pairs-hex_text parse [] h small = refl
pairs-hex_text parse (b ∷ bs) h (s, small) =
    ap₂ (λ x xs. x ∷ xs) (byte_read parse b h s) (pairs-hex_text parse bs h small)

-- The hexadecimal digits of bytes, as a dump writes them, are parsed as these bytes.
pub parse_hex_to_bytes-hex_text :
    (parse : ℕ → ℕ) (bytes : List ℕ)
    → ReadsDigits parse
    → All (λ b. b < 256) bytes
    → parse_hex_to_bytes parse (hex_text bytes) ≡ bytes
unfolding parse_hex_to_bytes without_prefix
parse_hex_to_bytes-hex_text parse [] h small = refl
parse_hex_to_bytes-hex_text parse (b ∷ bs) h (s, small) =
    ap (parse_pairs parse) (no_prefix b bs s) ∙ pairs-hex_text parse (b ∷ bs) h (s, small)
