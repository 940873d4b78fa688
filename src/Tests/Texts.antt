-- ===== src/Tests/Texts.antt =====
-- The theorems on bytes and addresses as text at concrete texts.
use komozoievm.Text.Checksum.{
  Characters, HasCases, IsChecksum, without_prefix, to_checksum_address,
  to_checksum_address-IsChecksum,
}
use komozoievm.Text.Hexdump.{Dump, format_binary_data_for_hexdump}
use komozoievm.Text.Hexdump.Room.{Fits, format_binary_data_for_hexdump-Fits}
use komozoievm.Text.Hexdump.{hex_digit}
use komozoievm.Text.Parsing.{ReadsDigits, hex_text, parse_hex_to_bytes, parse_hex_to_bytes-hex_text}
use komozoievm.Common.{
  ℕ, ◌+◌, ◌-◌, ◌≡◌, ◌≢◌, ◌⊎◌, [], ◌∷◌, Bool, ltb, leb, ◌&&◌, ◌||◌, if◌then◌else◌, length, replicate,
  arith, some,
}

abbrev upper_case : ℕ → Bool
upper_case c = leb 65 c && leb c 90

abbrev lower_case : ℕ → Bool
lower_case c = leb 97 c && leb c 122

-- ASCII, and a hash of one byte over and over.
abbrev ascii : Characters
ascii = record {
  is_alpha = λ c. upper_case c || lower_case c;
  to_upper = λ c. if lower_case c then c - 32 else c;
  to_lower = λ c. if upper_case c then c + 32 else c;
  raw_hash = λ s i. 0x8F;
}

ascii-HasCases : HasCases ascii
ascii-HasCases = record {
  upper_lower = λ c. ground arith;
  lower_lower = λ c. ground arith;
  lower_upper = λ c. ground arith;
  alpha_lower = λ c. ground arith;
  not_alpha = λ c f. ground arith;
}

to_checksum_address-IsChecksum_example :
    ((length (without_prefix (replicate 40 97)) ≡ 40)
      × IsChecksum ascii
          (without_prefix (replicate 40 97))
          (to_checksum_address ascii (replicate 40 97)))
    ⊎ ((length (without_prefix (replicate 40 97)) ≢ 40)
        × (to_checksum_address ascii (replicate 40 97) ≡ []))
to_checksum_address-IsChecksum_example =
    to_checksum_address-IsChecksum ascii (replicate 40 97) ascii-HasCases

format_binary_data_for_hexdump-Fits_example :
    (d : Dump) × (format_binary_data_for_hexdump (some (1 ∷ 65 ∷ 255 ∷ [])) (some 2) ≡ some d)
    × Fits d
format_binary_data_for_hexdump-Fits_example =
    format_binary_data_for_hexdump-Fits (some (1 ∷ 65 ∷ 255 ∷ [])) (some 2) (omega arith)
      (λ e. ground arith)

-- Digits by their codes in ASCII.
abbrev digit : ℕ → ℕ
digit c = if ltb c 58 then c - 48 else c - 87

digit-ReadsDigits : ReadsDigits digit
unfolding hex_digit
digit-ReadsDigits n small = ground arith

parse_hex_to_bytes-hex_text_example :
    parse_hex_to_bytes digit (hex_text (1 ∷ 65 ∷ 255 ∷ [])) ≡ 1 ∷ 65 ∷ 255 ∷ []
parse_hex_to_bytes-hex_text_example =
    parse_hex_to_bytes-hex_text digit (1 ∷ 65 ∷ 255 ∷ []) digit-ReadsDigits
      (omega arith, (omega arith, (omega arith, tt)))
