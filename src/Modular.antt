-- ===== src/Modular.antt =====
-- Numbers modulo P: src/crypto/modbigint.h, and the same code for the field of src/crypto/Secp256k1.h.
-- `data.chunks` is the list of the 64-bit chunks, the lowest first. The number library's own
-- operations stand by the value; `/` and `%` are parameters.
pub mod Chunks
pub mod Sums
pub mod Lost
pub mod Inverse
use mathlib.Core.Option
use komozoievm.External.{Numbers}
use komozoievm.Common.{
  ℕ, zero, suc, ◌+◌, ◌-◌, ◌*◌, ◌/◌, ◌%◌, ◌^◌, List, [], ◌∷◌, Option, none, some, Bool, true, false,
  ltb, leb, ◌==◌, if◌then◌else◌, ◌&&◌, ◌||◌, length,
}

abbrev pub word : ℕ
word = 2 ^ 64

-- A number as a condition.
abbrev pub not_zero : ℕ → Bool
not_zero n = if n == 0 then false else true

-- `-=` of 256-bit numbers.
abbrev pub wrapped_sub : ℕ → ℕ → ℕ
wrapped_sub a b = (a + 2 ^ 256 - b % 2 ^ 256) % 2 ^ 256

-- The number that chunks hold.
unfoldable pub value : List ℕ → ℕ
value [] = 0
value (x ∷ xs) = x + word * value xs

-- The chunks of a number.
unfoldable pub chunks : ℕ → ℕ → List ℕ
chunks zero x = []
chunks (suc n) x = (x % word) ∷ chunks n (x / word)

-- `addRaw`: the chunks, and the carry behind the last.
unfoldable pub add_raw : List ℕ → List ℕ → ℕ → List ℕ × ℕ
add_raw [] ys carry = ([], carry)
add_raw (a ∷ xs) [] carry = ([], carry)
add_raw (a ∷ xs) (b ∷ ys) carry =
    let sum = (a + b + carry) % word in
    let more = add_raw xs ys (if ltb sum a || (not_zero carry && sum == a) then 1 else 0) in
    (sum ∷ more.0, more.1)

-- `subRaw`: the difference of two `uint64_t` wraps.
unfoldable pub sub_raw : List ℕ → List ℕ → ℕ → List ℕ × ℕ
sub_raw [] ys borrow = ([], borrow)
sub_raw (a ∷ xs) [] borrow = ([], borrow)
sub_raw (a ∷ xs) (b ∷ ys) borrow =
    let more = sub_raw xs ys (if ltb a b || (not_zero borrow && a == b) then 1 else 0) in
    (((a + word + word - b - borrow) % word) ∷ more.0, more.1)

-- The loop of `operator-`, which tests `a < b + borrow`.
unfoldable pub sub_loop : List ℕ → List ℕ → ℕ → List ℕ × ℕ
sub_loop [] ys borrow = ([], borrow)
sub_loop (a ∷ xs) [] borrow = ([], borrow)
sub_loop (a ∷ xs) (b ∷ ys) borrow =
    let more = sub_loop xs ys (if ltb a ((b + borrow) % word) then 1 else 0) in
    (((a + word + word - b - borrow) % word) ∷ more.0, more.1)

-- `operator+`.
unfoldable pub mod_add : List ℕ → List ℕ → List ℕ → List ℕ
unfolding add_raw sub_raw value
mod_add p a b =
    let out = add_raw a b 0 in
    if not_zero (out.1) || leb (value p) (value (out.0)) then (sub_raw (out.0) p 0).0 else out.0

-- `operator-`.
unfoldable pub mod_sub : List ℕ → List ℕ → List ℕ → List ℕ
unfolding sub_loop add_raw
mod_sub p a b =
    let out = sub_loop a b 0 in if not_zero (out.1) then (add_raw (out.0) p 0).0 else out.0

-- The conversion of a number, which reduces it.
unfoldable pub mod_of : Numbers → ℕ → ℕ → ℕ
mod_of n p v = n.mod_word v p

-- `operator*` of modbigint.h, in numbers of twice the width, reduced again when it is converted.
unfoldable pub mod_mul : Numbers → ℕ → ℕ → ℕ → ℕ
unfolding mod_of
mod_mul n p a b = mod_of n p (n.mod_wide (a * b % 2 ^ 512) p)

-- `exp`: `bits` rounds over the bits of the exponent, from the lowest.
unfoldable pub mod_exp : Numbers → ℕ → ℕ → ℕ → ℕ → ℕ → ℕ
mod_exp n p zero e base result = result
mod_exp n p (suc bits) e base result =
    mod_exp n p bits (e / 2) (n.mod_wide (base * base % 2 ^ 512) p)
      (if e % 2 == 0 then result else n.mod_wide (result * base % 2 ^ 512) p)

-- The loop of `modinv` in 256-bit arithmetic; the fuel counts its rounds.
unfoldable pub inv_loop : Numbers → ℕ → ℕ → ℕ → ℕ → ℕ → Option (ℕ × ℕ)
inv_loop n zero r_old r t_old t = none
inv_loop n (suc fuel) r_old r t_old t =
    let q = n.div r_old r in
    let rest = inv_loop n fuel r (wrapped_sub r_old (q * r)) t (wrapped_sub t_old (q * t)) in
    if r == 0 then some (r_old, t_old) else rest

-- `modinv(m)` before the result is converted; 0 where the number has no inverse.
unfoldable pub mod_inv : Numbers → ℕ → ℕ → Option ℕ
unfolding inv_loop
mod_inv n m x = elim (inv_loop n 513 m x 0 1) [
  | none ↦ none
  | some (r, t) ↦ some (if r == 1 then if leb (2 ^ 255) t then (t + m) % 2 ^ 256 else t else 0)
]

-- `inverse` of modbigint.h.
unfoldable pub inverse : Numbers → ℕ → ℕ → Option ℕ
unfolding mod_inv mod_of
inverse n p x = Option.map (mod_of n p) (mod_inv n p x)

-- `operator/` of modbigint.h.
unfoldable pub mod_div : Numbers → ℕ → ℕ → ℕ → Option ℕ
unfolding inverse mod_mul mod_of
mod_div n p a b = Option.map (mod_mul n p a) (inverse n p (mod_of n p b))

-- `modsqrt` of modbigint.h.
unfoldable pub mod_sqrt : Numbers → ℕ → ℕ → ℕ
unfolding mod_exp mod_mul mod_of
mod_sqrt n p x =
    let root = mod_of n p (mod_exp n p 256 ((p + 1) % 2 ^ 256 / 4) x 1) in
    if x == 0 then 0 else if mod_mul n p root root == x then root else 0
