-- ===== src/Common/Powers.antt =====
-- Residues of products and powers.
use komozoievm.Common.{ℕ, zero, suc, ◌+◌, ◌*◌, ◌/◌, ◌%◌, ◌^◌, ◌≡◌, sym, ap, ◌∙◌, arith}
use native.Mathlib.Nat.{pow-suc, mul_comm, mul_assoc, add-mul-mod_self_right, div-add-mod'}
use native.Mathlib.Nat.{pow-zero, mul-one}
use mathlib.Core.Path.{◌≡⟨◌⟩◌, ◌∎}

-- Residues may be taken before a product and before a power.
pub mod-mul : (a b m : ℕ) → a % m * b % m ≡ a * b % m
mod-mul a b m = sym (ap (λ (t : ℕ). t % m) split ∙ add-mul-mod_self_right (a % m * b) (a / m * b) m)
  where
    split : a * b ≡ a % m * b + a / m * b * m
    split = omega (arith, ap (λ (t : ℕ). t * b) (div-add-mod' a m))

pub mul-mod : (a b m : ℕ) → a * (b % m) % m ≡ a * b % m
mul-mod a b m = rw (mul_comm a (b % m), mod-mul b a m, mul_comm b a)

pub mod-pow : (b n m : ℕ) → (b % m) ^ n % m ≡ b ^ n % m
mod-pow b zero m = rw (pow-zero (b % m), pow-zero b)
mod-pow b (suc n) m =
    (b % m) ^ suc n % m
    ≡⟨ (rw pow-suc) ⟩ (b % m) ^ n * (b % m) % m
    ≡⟨ mul-mod ((b % m) ^ n) b m ⟩ (b % m) ^ n * b % m
    ≡⟨ sym (mod-mul ((b % m) ^ n) b m) ⟩ (b % m) ^ n % m * b % m
    ≡⟨ ap (λ (t : ℕ). t * b % m) (mod-pow b n m) ⟩ b ^ n % m * b % m
    ≡⟨ mod-mul (b ^ n) b m ⟩ b ^ n * b % m
    ≡⟨ (rw (pow-suc b n)) ⟩ b ^ suc n % m ∎

pub pow-double : (b k : ℕ) → (b * b) ^ k ≡ b ^ (k + k)
pow-double b zero = pow-zero (b * b) ∙ sym (pow-zero b)
pow-double b (suc k) =
    (b * b) ^ suc k
    ≡⟨ (rw (pow-suc, pow-double b k)) ⟩ b ^ (k + k) * (b * b)
    ≡⟨ sym (mul_assoc (b ^ (k + k)) b b) ⟩ b ^ (k + k) * b * b
    ≡⟨ (rw (pow-suc b (suc (k + k)), pow-suc b (k + k))) ⟩ b ^ suc (suc (k + k))
    ≡⟨ ap (λ (t : ℕ). b ^ t) (omega arith) ⟩ b ^ (suc k + suc k) ∎

pub pow-add : (b m n : ℕ) → b ^ m * b ^ n ≡ b ^ (m + n)
pow-add b m zero =
    ap (λ (t : ℕ). b ^ m * t) (pow-zero b) ∙ mul-one (b ^ m) ∙ ap (λ (t : ℕ). b ^ t) (omega arith)
pow-add b m (suc n) =
    b ^ m * b ^ suc n
    ≡⟨ (rw (pow-suc b n)) ⟩ b ^ m * (b ^ n * b)
    ≡⟨ sym (mul_assoc (b ^ m) (b ^ n) b) ⟩ b ^ m * b ^ n * b
    ≡⟨ ap (λ (t : ℕ). t * b) (pow-add b m n) ⟩ b ^ (m + n) * b
    ≡⟨ sym (pow-suc b (m + n)) ⟩ b ^ suc (m + n)
    ≡⟨ ap (λ (t : ℕ). b ^ t) (omega arith) ⟩ b ^ (m + suc n) ∎
