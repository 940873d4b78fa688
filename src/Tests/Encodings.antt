-- ===== src/Tests/Encodings.antt =====
-- The theorems on src/ethereum/RLPEncoder.cpp at small inputs.
use komozoievm.Rlp.{encode_number}
use komozoievm.Rlp.RoundTrip
use komozoievm.Rlp.RoundTrip.{decode_short}
use komozoievm.Common.{ℕ, ◌≡◌, List, [], ◌∷◌, ◌++◌, some, arith}
use komozoievm.Common.Bytes.{of_be}

encode_number-decode_short_example :
    (s form : List ℕ) × (encode_number 1024 [] ≡ [] ++ form)
    × (decode_short (form ++ 9 ∷ []) ≡ some (s, 9 ∷ []))
    × (of_be 0 s ≡ 1024)
encode_number-decode_short_example =
    RoundTrip.encode_number-decode_short 1024 [] (9 ∷ []) (omega arith)
