-- ===== src/Curve/Returns.antt =====
-- Termination of the operations of `Secp256k1Field` of src/crypto/Secp256k1.h, and their range.
use komozoievm.Modular.{
  word, not_zero, wrapped_sub, value, chunks, sub_loop, add_raw, sub_raw, mod_add, mod_sub,
}
use komozoievm.Modular.Chunks.{AreChunks, add_raw_value, sub_raw_value}
use komozoievm.Curve.Field.{field_p, mod_reduce, field_mul, field_scale, field_sub, field_add}
use komozoievm.Curve.Folding.{value-bound}
use komozoievm.Curve.Products.{field_mul_lem, field_scale_lem, chunks-low}
use komozoievm.Curve.Points.{◌>>=◌, field_exp}
use komozoievm.Common.{
  ℕ, zero, suc, ◌+◌, ◌*◌, ◌/◌, ◌%◌, ◌^◌, ◌<◌, ◌≡◌, refl, ap, ◌∙◌, List, [], ◌∷◌, Option, some, Bool,
  true, false, ltb, leb, ◌==◌, if◌then◌else◌, ◌||◌, length, arith,
}

-- A computation that returns a result with the property.
pub record Returns {A : Type 0} (P : A → Type 0) (o : Option A) : Type 0 where
  pub result : A
  pub is : o ≡ some result
  pub holds : P result

pub bind-Returns :
    {A B : Type 0} {P : A → Type 0} {Q : B → Type 0} {o : Option A} (f : A → Option B)
    → Returns P o
    → ((a : A) → P a → Returns Q (f a))
    → Returns Q (o >>= f)
bind-Returns f h next =
    let k = next h.result h.holds in
    record { result = k.result; is = ap (λ o. o >>= f) h.is ∙ k.is; holds = k.holds }

pub choose-Returns :
    {B : Type 0} {Q : B → Type 0} {o o' : Option B} (b : Bool)
    → Returns Q o
    → Returns Q o'
    → Returns Q (if b then o else o')
choose-Returns true h k = h
choose-Returns false h k = k

pub some-Returns : {A : Type 0} (P : A → Type 0) (a : A) → P a → Returns P (some a)
some-Returns P a p = record { result = a; is = refl; holds = p }

abbrev pub Word : ℕ → Type 0
Word a = a < 2 ^ 256

pub mul-Returns : (a b : ℕ) → Word a → Word b → Returns Word (field_mul a b)
mul-Returns a b h k = record {
  result = a * b % field_p;
  is = field_mul_lem a b h k;
  holds = omega arith;
}

pub scale-Returns : (a k : ℕ) → Word a → k < 2 ^ 64 → Returns Word (field_scale a k)
scale-Returns a k h l = record {
  result = a * k % field_p;
  is = field_scale_lem a k h l;
  holds = omega arith;
}

pub reduce_word : (a : ℕ) → Word a → Word (mod_reduce a)
unfolding mod_reduce
reduce_word a h = ground arith

pub sub_loop-AreChunks :
    (xs ys : List ℕ) (c : ℕ)
    → length xs ≡ length ys
    → AreChunks ((sub_loop xs ys c).0) × (length ((sub_loop xs ys c).0) ≡ length xs)
unfolding sub_loop
sub_loop-AreChunks [] ys c e = (tt, refl)
sub_loop-AreChunks (a ∷ xs) [] c e = absurd (omega (arith, e))
sub_loop-AreChunks (a ∷ xs) (b ∷ ys) c e =
    let (h, n) =
      sub_loop-AreChunks xs ys (if ltb a ((b + c) % word) then 1 else 0) (omega (arith, e)) in
    ((omega arith, h), ap suc n)

pub if_word :
    (xs ys : List ℕ) (b : Bool)
    → Word (value xs)
    → Word (value ys)
    → Word (value (if b then xs else ys))
if_word xs ys true h k = h
if_word xs ys false h k = k

pub sub_word : (a b : ℕ) → Word (field_sub a b)
unfolding field_sub mod_sub
sub_word a b =
    let (n, _) = chunks-low field_p in
    let (h, m) = sub_loop-AreChunks (chunks 4 a) (chunks 4 b) 0 refl in
    let out = sub_loop (chunks 4 a) (chunks 4 b) 0 in
    let (v, f, d, l) = add_raw_value (out.0) (chunks 4 field_p) 0 h n.are_chunks m (omega arith) in
    if_word ((add_raw (out.0) (chunks 4 field_p) 0).0) (out.0) (not_zero (out.1))
      (value-bound ((add_raw (out.0) (chunks 4 field_p) 0).0)
        (record { are_chunks = d; four = l ∙ m }))
      (value-bound (out.0) (record { are_chunks = h; four = m }))

pub exp-Returns : (bits e b a : ℕ) → Word b → Word a → Returns Word (field_exp bits e b a)
unfolding field_exp
exp-Returns zero e b a h k = some-Returns Word a k
exp-Returns (suc bits) e b a h k =
    bind-Returns _ (choose-Returns (e % 2 == 0) (some-Returns Word a k) (mul-Returns a b k h))
      λ next l.
        bind-Returns _ (mul-Returns b b h h) λ square m. exp-Returns bits (e / 2) square next m l

pub kept : (b : Bool) (r : ℕ) → Word r → Word (if b then r else 0)
kept true r h = h
kept false r h = omega arith

pub root_word :
    (square power a : ℕ)
    → Word power
    → Returns Word (some (if square == a then mod_reduce power else 0))
root_word square power a h =
    some-Returns Word _ (kept (square == a) (mod_reduce power) (reduce_word power h))

pub add_word : (a b : ℕ) → Word (field_add a b)
unfolding field_add mod_add
add_word a b =
    let (n, _) = chunks-low field_p in
    let (m, _) = chunks-low a in
    let (l, _) = chunks-low b in
    let out = add_raw (chunks 4 a) (chunks 4 b) 0 in
    let (v, f, d, e) =
      add_raw_value (chunks 4 a) (chunks 4 b) 0 m.are_chunks l.are_chunks refl (omega arith) in
    let (w, g, h, k) = sub_raw_value (out.0) (chunks 4 field_p) 0 d n.are_chunks e (omega arith) in
    if_word ((sub_raw (out.0) (chunks 4 field_p) 0).0) (out.0)
      (not_zero (out.1) || leb (value (chunks 4 field_p)) (value (out.0)))
      (value-bound ((sub_raw (out.0) (chunks 4 field_p) 0).0)
        (record { are_chunks = h; four = k ∙ e }))
      (value-bound (out.0) (record { are_chunks = d; four = e }))

pub flipped :
    (b : Bool) (root : ℕ)
    → Word root
    → Word (if b then mod_reduce (wrapped_sub field_p root) else root)
flipped true root h = reduce_word _ (omega arith)
flipped false root h = h
