-- ===== src/Common/Bytes.antt =====
-- Byte strings and the numbers that they hold, most significant byte first.
use komozoievm.Common.Lists.{length, length-append}
use Prim.Native.Nat.{ℕ, zero, suc, ◌+◌, ◌*◌, ◌/◌, ◌%◌, ◌^◌}
use mathlib.Core.Path.{◌≡◌, refl}
use mathlib.Core.List.{List, [], ◌∷◌, ◌++◌}
use native.Mathlib.Omega.{arith}

-- The number whose big-endian digits are the list, behind the digits already read.
unfoldable pub of_be : ℕ → List ℕ → ℕ
of_be acc [] = acc
of_be acc (b ∷ bs) = of_be (acc * 256 + b) bs

-- The lowest `n` bytes of a number, the most significant first.
unfoldable pub to_be : ℕ → ℕ → List ℕ
to_be zero x = []
to_be (suc n) x = to_be n (x / 256) ++ (x % 256) ∷ []

-- Byte `i` of a number, counted from the least significant: `data.rawBytes[i]`.
abbrev pub raw_byte : ℕ → ℕ → ℕ
raw_byte x i = x / 256 ^ i % 256

pub of_be-append :
    (acc : ℕ) (xs : List ℕ) (b : ℕ) → of_be acc (xs ++ b ∷ []) ≡ of_be acc xs * 256 + b
unfolding of_be
of_be-append acc [] b = refl
of_be-append acc (x ∷ xs) b = of_be-append (acc * 256 + x) xs b

pub length-to_be : (n x : ℕ) → length (to_be n x) ≡ n
unfolding to_be
length-to_be zero x = refl
length-to_be (suc n) x =
    omega (arith, length-append (to_be n (x / 256)) ((x % 256) ∷ []), length-to_be n (x / 256))
