-- ===== src/Machine/Control/Jumps.antt =====
-- Where JUMP and JUMPI of src/ethereum/EVM.cpp lead, and what DUP and SWAP do to the stack.
use komozoievm.Context.State.{
  World, bind_lem, Res, done, Outcome, succeeded, failed, invalid_jump, pop, pop_from, charge,
  ◌>>=◌,
}
use komozoievm.Machine.Op.{jump}
use komozoievm.Machine.Control.{jump_to, exec_control, exec_swap}
use komozoievm.Common.{
  ℕ, zero, suc, ◌+◌, ◌%◌, ◌^◌, ◌<◌, ◌≡◌, refl, ap, subst, sym, ◌∙◌, List, [], ◌∷◌, some, leb, ◌==◌,
  length, get_elem?, set, arith, Bool-cases, inl, inr, ==→eq,
}

get_elem?-inside : (xs : List ℕ) (i : ℕ) → i < length xs → (x : ℕ) × (get_elem? xs i ≡ some x)
get_elem?-inside [] i h = absurd (omega arith)
get_elem?-inside (x ∷ xs) zero h = (x, refl)
get_elem?-inside (x ∷ xs) (suc i) h = get_elem?-inside xs i (omega arith)

-- A jump is refused, or leaves the counter at a byte 0x5B of the same code.
pub data Lands (target : ℕ) (w : World) : Res Outcome → Type 0 where
  refused :
      (w' : World)
      → w'.frame.runcode ≡ w.frame.runcode
      → Lands target w (done (failed invalid_jump) w')
  landed :
      (w' : World)
      → w'.frame.runcode ≡ w.frame.runcode
      → w'.frame.pc ≡ target
      → get_elem? w.frame.runcode target ≡ some 0x5B
      → Lands target w (done succeeded w')

jump_to-Lands : (a : ℕ) (w : World) → Lands a w (jump_to a w)
unfolding jump_to
jump_to-Lands a w = elim (Bool-cases (leb (length w.frame.runcode) a)) [
  | inl over ↦ rw over (refused w refl)
  | inr inside ↦
      let (b, at) = get_elem?-inside w.frame.runcode a (ground arith) in
      elim (Bool-cases (b == 0x5B)) [
        | inl dest ↦ rw (inside, at, dest) (landed _ refl refl (ground (arith, ==→eq b 0x5B dest)))
        | inr other ↦ rw (inside, at, other) (refused _ refl)
      ]
]

Lands-from :
    {target : ℕ} (w w₁ : World) {r : Res Outcome}
    → w₁.frame.runcode ≡ w.frame.runcode
    → Lands target w₁ r
    → Lands target w r
Lands-from w w₁ same (refused w' c) = refused w' (c ∙ same)
Lands-from {target} w w₁ same (landed w' c at dest) =
    landed w' (c ∙ same) at (subst (λ (code : List ℕ). get_elem? code target ≡ some 0x5B) same dest)

-- JUMP takes its target from the stack, whatever that is, without reading outside the code: it is
-- refused, or leaves the counter at the target, which holds a byte 0x5B of the same code.
pub exec_control-Lands :
    (target : ℕ) (s : List ℕ) (w : World)
    → w.frame.stack ≡ target ∷ s
    → Lands target w (exec_control jump w)
unfolding exec_control pop pop_from charge
exec_control-Lands target s w h = rw h (Lands-from _ taken refl (jump_to-Lands target taken))
  where
    taken : World
    taken = record w {
      frame = record (w.frame) { stack = s; gas_used = (w.frame.gas_used + 8) % 2 ^ 32 };
    }

set-swapped :
    (x : ℕ) (s : List ℕ) (n y : ℕ)
    → get_elem? s n ≡ some y
    → (get_elem? (set s n x) n ≡ some x) × (set (set s n x) n y ≡ s)
set-swapped x [] n y h = absurd (ground arith)
set-swapped x (z ∷ s) zero y h = (refl, ground arith)
set-swapped x (z ∷ s) (suc n) y h =
    let (at, back) = set-swapped x s n y h in (at, ap (λ t. z ∷ t) back)

swapped-lem :
    (n x y : ℕ) (s : List ℕ) (w : World)
    → w.frame.stack ≡ x ∷ s
    → get_elem? s n ≡ some y
    → exec_swap (suc n) w
      ≡ done succeeded (record w {
        frame = record (w.frame) {
          stack = y ∷ set s n x;
          gas_used = (w.frame.gas_used + 3) % 2 ^ 32;
        };
      })
unfolding exec_swap charge
swapped-lem n x y s w h at = rw (h, at) refl

-- A SWAP twice over gives the stack back, for six gas, whenever the stack is deep enough.
exec_swap_twice :
    (n x y : ℕ) (s : List ℕ) (w : World)
    → w.frame.stack ≡ x ∷ s
    → get_elem? s n ≡ some y
    → (w' : World) × ((exec_swap (suc n) >>= (λ _. exec_swap (suc n))) w ≡ done succeeded w')
      × (w'.frame.stack ≡ w.frame.stack)
      × (w'.frame.gas_used ≡ (w.frame.gas_used + 6) % 2 ^ 32)
      × (w'.frame.memory ≡ w.frame.memory)
exec_swap_twice n x y s w h at = (
  _,
  bind_lem (exec_swap (suc n)) (λ _. exec_swap (suc n)) w (swapped-lem n x y s w h at)
      ∙ swapped-lem n y x (set s n x) once refl ((set-swapped x s n y at).0),
  ap (λ t. x ∷ t) ((set-swapped x s n y at).1) ∙ sym h,
  omega arith,
  refl,
)
  where
    once : World
    once = record w {
      frame = record (w.frame) {
        stack = y ∷ set s n x;
        gas_used = (w.frame.gas_used + 3) % 2 ^ 32;
      };
    }
