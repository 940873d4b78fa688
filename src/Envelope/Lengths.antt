-- ===== src/Envelope/Lengths.antt =====
-- The lengths that `rlpEncodeBytes` and `rlpEncodeListHeader` of src/ethereum/EthereumTransaction.cpp
-- write in front of a string or a list.
use komozoievm.Envelope.{length_bytes, rlp_head}
use komozoievm.Common.{
  ℕ, zero, suc, ◌+◌, ◌/◌, ◌%◌, ◌^◌, ◌≤◌, ◌<◌, ◌≡◌, refl, ap, ◌∙◌, List, [], ◌∷◌, ◌++◌, false, ltb,
  ◌==◌, arith, Bool-cases, inl, inr, ◌⊎◌, ge→ltb,
}

stop_lem : (room k i : ℕ) → i ≡ 0 → length_bytes room i k ≡ []
unfolding length_bytes
stop_lem zero k i e = refl
stop_lem (suc room) k i e = rw e refl

go_lem :
    (room k i : ℕ)
    → 0 < i
    → length_bytes (suc room) i k ≡ i / 256 ^ k % 256 ∷ length_bytes room (i / 256) (k + 1)
unfolding length_bytes
go_lem room k i h = let on : (i == 0) ≡ false = ground arith in rw on refl

one_byte : (room n : ℕ) → 0 < n → n < 256 → length_bytes (suc room) n 0 ≡ n ∷ []
one_byte room n h k =
    go_lem room 0 n h
    ∙ ap (λ t. n / 256 ^ 0 % 256 ∷ t) (stop_lem room 1 (n / 256) (omega arith))
    ∙ ap (λ b. b ∷ []) (omega arith)

two_bytes :
    (room n : ℕ) → 256 ≤ n → n < 65536 → length_bytes (suc (suc room)) n 0 ≡ n % 256 ∷ 0 ∷ []
two_bytes room n h k =
    go_lem (suc room) 0 n (omega arith)
    ∙ ap (λ t. n / 256 ^ 0 % 256 ∷ t) (go_lem room 1 (n / 256) (omega arith))
    ∙ ap (λ t. n / 256 ^ 0 % 256 ∷ n / 256 / 256 ^ 1 % 256 ∷ t)
        (stop_lem room 2 (n / 256 / 256) (omega arith))
    ∙ ap (λ b. b ∷ n / 256 / 256 ^ 1 % 256 ∷ []) (omega arith)
    ∙ ap (λ b. n % 256 ∷ b ∷ []) (omega arith)

-- A length from 56 to 255 is written behind the byte for one length byte; of a length from 256 to
-- 65535 the two bytes that are written are 0 and the lowest byte, so that lengths that differ by a
-- multiple of 256 are written alike.
rlp_head_length :
    (short n : ℕ) (out : List ℕ)
    → 56 ≤ n
    → n < 65536
    → ((n < 256) × (rlp_head short n out ≡ out ++ (short + 0x37 + 1) % 256 ∷ n ∷ []))
      ⊎ ((256 ≤ n) × (rlp_head short n out ≡ out ++ (short + 0x37 + 2) % 256 ∷ 0 ∷ n % 256 ∷ []))
unfolding rlp_head
rlp_head_length short n out h k = elim (Bool-cases (ltb n 256)) [
  | inl small ↦
      let less : n < 256 = ground arith in
      inl (less, rw (ge→ltb n 56 h, one_byte 7 n (omega arith) less) refl)
  | inr large ↦
      let more : 256 ≤ n = ground arith in inr (more, rw (ge→ltb n 56 h, two_bytes 6 n more k) refl)
]
