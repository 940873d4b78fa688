-- ===== src/Curve/Keys.antt =====
-- Public keys, signatures and private keys of src/crypto/Secp256k1.h and src/crypto/Secp256k1.cpp.
use komozoievm.External.{Numbers, Env}
use komozoievm.Modular.{wrapped_sub, value, chunks, mod_of, mod_add, mod_mul, mod_div, inverse}
use komozoievm.Curve.Field.{field_p, mod_reduce, field_mul, field_add}
use komozoievm.Curve.Points.{
  ◌>>=◌, field_sqrt, Point, infinite, group_mul, generator, group_neg, group_sub,
}
use komozoievm.Common.{
  ℕ, zero, suc, ◌+◌, ◌%◌, ◌^◌, ◌++◌, Option, none, some, Bool, false, ltb, leb, ◌==◌, if◌then◌else◌,
  ◌&&◌, ◌||◌,
}
use komozoievm.Common.Bytes.{to_be}

-- `SECP256K1_CURVE_N`.
abbrev pub curve_n : ℕ
curve_n = 115792089237316195423570985008687907852837564279074904382605163141518161494337

-- `operator+` of `Secp256k1Scalar`.
unfoldable pub scalar_add : ℕ → ℕ → ℕ
unfolding mod_add value chunks
scalar_add a b = value (mod_add (chunks 4 curve_n) (chunks 4 a) (chunks 4 b))

-- `Secp256k1PublicKey::toAddress`.
unfoldable pub to_address : Env → Point → ℕ
unfolding to_be
to_address e p = e.keccak256 (to_be 32 p.x ++ to_be 32 p.y) % 2 ^ 160

-- `Secp256k1Signature`.
pub record Signature : Type 0 where
  pub r : ℕ
  pub s : ℕ
  pub v : ℕ

-- `isValid`.
unfoldable pub is_valid : Signature → Bool
is_valid g = ltb 0 g.r && ltb g.r curve_n && ltb 0 g.s && ltb g.s curve_n

-- The part of `recover` behind the inverse of `r`.
unfoldable pub recover_point : Numbers → ℕ → ℕ → Signature → ℕ → ℕ → Option Point
unfolding group_mul group_sub group_neg
recover_point n rx ry g inv msg_hash = do
  let z = n.mod_word msg_hash curve_n
  sr ← group_mul n (record { x = rx; y = ry; infinity = false }) g.s
  zg ← group_mul n generator (wrapped_sub curve_n z)
  diff ← group_sub n sr zg
  found ← group_mul n diff inv
  some (if found.infinity then infinite else group_neg found)

-- `recover`; the infinite point for no key.
unfoldable pub recover : Numbers → Signature → ℕ → Option Point
unfolding recover_point field_sqrt field_mul field_add mod_reduce inverse mod_of
recover n g msg_hash = do
  let rx = mod_reduce g.r
  square ← field_mul rx rx
  cube ← field_mul square rx
  root ← field_sqrt (field_add cube 7)
  inv ← inverse n curve_n (mod_of n curve_n g.r)
  if leb field_p rx || root == 0 || inv == 0
      then some infinite
      else recover_point n rx
          (if root % 2 == g.v then mod_reduce (wrapped_sub field_p root) else root) g inv msg_hash

-- The loop of `sign` for an `r` that is not 0: the scalar then used, and `r`.
unfoldable pub nonce_loop : Numbers → ℕ → ℕ → Option (ℕ × ℕ)
unfolding group_mul mod_of scalar_add
nonce_loop n zero k = none
nonce_loop n (suc fuel) k = do
  point ← group_mul n generator k
  let r = mod_of n curve_n point.x
  if r == 0 then nonce_loop n fuel (scalar_add k 1) else some (k, r)

-- The test of a recovered key against the signer's.
unfoldable pub is_own : Point → Point → Bool
is_own found own = if found.infinity then false else found.x == own.x

-- The last loop of `sign`, over the recovery ids.
unfoldable pub with_id : Numbers → ℕ → ℕ → ℕ → ℕ → Option Signature
unfolding recover group_mul is_own
with_id n scalar z r s =
    let even : Signature = record { r = r; s = s; v = 0 } in
    let odd : Signature = record { r = r; s = s; v = 1 } in
    let nothing : Signature = record { r = 0; s = 0; v = 0 } in
    do
      own ← group_mul n generator scalar
      first ← recover n even z
      if is_own first own
          then some even
          else do second ← recover n odd z; some (if is_own second own then odd else nothing)

-- `sign` of a hash, with the number for `k` and, where that is 0, the random number for each try.
-- The fuel counts the tries and the rounds of each try's loop.
unfoldable pub sign : Numbers → (ℕ → ℕ) → ℕ → ℕ → ℕ → ℕ → Option Signature
unfolding nonce_loop with_id mod_of mod_mul mod_div mod_add value chunks
sign n random zero scalar hash k = none
sign n random (suc fuel) scalar hash k = do
  found ← nonce_loop n (suc fuel) (if k == 0 then random fuel else mod_of n curve_n k)
  let nonce = found.0
  let r = found.1
  let sum =
      value (mod_add (chunks 4 curve_n) (chunks 4 (mod_mul n curve_n r scalar)) (chunks 4 hash))
  s ← mod_div n curve_n sum nonce
  let low = if leb (2 ^ 255) s then mod_of n curve_n (wrapped_sub curve_n s) else s
  if s == 0
      then sign n random fuel scalar hash ((nonce + 1) % 2 ^ 256)
      else with_id n scalar hash r low
