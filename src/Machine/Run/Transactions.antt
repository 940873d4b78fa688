-- ===== src/Machine/Run/Transactions.antt =====
-- A whole simulation of src/ethereum/EVM.cpp ends, and what a transaction pays before it runs.
use komozoievm.External.{Env}
use komozoievm.Context.State.{
  World, Res, done, fault, timeout, M, Outcome, succeeded, frame, pure, ◌>>=◌, ◌>>◌,
}
use komozoievm.Context.Overlay.{pay_account, deduct_account}
use komozoievm.Machine.Run.{
  Transaction, extra_gas, add_byte_costs, get_initial_gas_cost, transaction_context, world_of,
  begins_with_ef, transfer, resolve_code, start, loop, run_evm, simulate,
}
use komozoievm.Machine.Run.Termination.{
  Halts, with_outcome, by_fault, IsFit, steps_left, loop-Halts_within,
}
use komozoievm.Machine.Progress.Steps.{
  Advance, Post, ended, faulted, Free, nothing, free-then, pure-Free, if-Steps, frame-Free,
}
use komozoievm.Machine.Progress.Plain.{most}
use komozoievm.Machine.Progress.Tick.{call_free}
use komozoievm.Common.{
  ℕ, ◌+◌, ◌-◌, ◌*◌, ◌%◌, ◌^◌, ◌≤◌, ◌<◌, ◌≡◌, refl, sym, ap, subst, List, [], ◌∷◌, Option, none,
  some, Bool, true, false, length, if◌then◌else◌, ◌==◌, arith,
}

-- The number of bytes of call data that are not zero.
abbrev pub non_zero : List ℕ → ℕ
non_zero [] = 0
non_zero (b ∷ bs) = let n = non_zero bs in if b == 0 then n else n + 1

add_byte_costs_lem :
    (total : ℕ) (bs : List ℕ)
    → total + 16 * length bs < 2 ^ 32
    → add_byte_costs total bs ≡ total + 4 * length bs + 12 * non_zero bs
unfolding add_byte_costs
add_byte_costs_lem total [] h = omega arith
add_byte_costs_lem total (b ∷ bs) h =
    ground (arith, add_byte_costs_lem (total + 4) bs, add_byte_costs_lem (total + 16) bs)

non_zero-le : (bs : List ℕ) → non_zero bs ≤ length bs
non_zero-le [] = omega arith
non_zero-le (b ∷ bs) = ground (arith, non_zero-le bs)

-- With call data for which the sum fits the counter, a transaction pays 21000, 4 for each byte and
-- 12 more for each that is not zero.
pub get_initial_gas_cost_lem :
    (calldata : List ℕ)
    → length calldata < 2 ^ 27
    → get_initial_gas_cost calldata ≡ 21000 + 4 * length calldata + 12 * non_zero calldata
unfolding get_initial_gas_cost
get_initial_gas_cost_lem calldata h = add_byte_costs_lem 21000 calldata (omega arith)

if-Post :
    {A : Type 0} {p : Bool} {low : A → ℕ} {hi : ℕ} {w : World} (b : Bool) {r s : Res A}
    → Post p low hi w r
    → Post p low hi w s
    → Post p low hi w (if b then r else s)
if-Post true x y = x
if-Post false x y = y

-- A change of the accounts alone.
unmoved :
    {p : Bool} (w w' : World)
    → w'.frame.gas_limit ≡ w.frame.gas_limit
    → w'.frame.runcode ≡ w.frame.runcode
    → w'.frame.pc ≡ w.frame.pc
    → w'.frame.gas_used ≡ w.frame.gas_used
    → w'.frame.memory ≡ w.frame.memory
    → Advance p 0 0 w w'
unmoved w w' l c k g m = record {
  same_limit = l;
  same_code = c;
  same_pc = λ _. k;
  bounded = λ h. omega (arith, ap (λ (m : List ℕ). length m) m);
  at_least = omega arith;
  at_most = omega arith;
}

pay_account-Free : {p : Bool} (e : Env) (a n : ℕ) → Free p (pay_account e a n)
unfolding pay_account
pay_account-Free e a n = record {
  run = λ w small room.
      if-Post w.frame.is_static (ended false w (unmoved w w refl refl refl refl refl))
        (ended true _ (unmoved w _ refl refl refl refl refl));
}

deduct_account-Free : {p : Bool} (e : Env) (a n : ℕ) → Free p (deduct_account e a n)
unfolding deduct_account
deduct_account-Free e a n = record {
  run = λ w small room.
      if-Post w.frame.is_static (ended false w (unmoved w w refl refl refl refl refl))
        (ended _ _ (unmoved w _ refl refl refl refl refl));
}

transfer-Free : {p : Bool} (e : Env) → Free p (transfer e)
unfolding transfer
transfer-Free e = free-then frame-Free λ c. if-Steps (c.value == 0) (pure-Free none) (
    free-then (pay_account-Free e c.address c.value) λ paid.
      if-Steps paid
        (free-then (deduct_account-Free e c.caller c.value)
          λ deducted. if-Steps deducted (pure-Free none) (pure-Free _))
        (pure-Free _))

resolve_code_lem :
    (e : Env) (w : World) → begins_with_ef w.frame.runcode ≡ false → resolve_code e w ≡ done tt w
unfolding resolve_code
resolve_code_lem e w plain = ground arith

-- What `start` does once the value has been transferred.
transferred : Env → M Outcome → Option Outcome → M Outcome
transferred e more stopped = elim stopped [
  | some o ↦ pure o
  | none ↦ (do resolve_code e; c ← frame; if length c.runcode == 0 then pure succeeded else more)
]

Halts-bind :
    {A B : Type 0} (m : M A) (f : A → M B) (w : World) {a : A} {w' : World}
    → m w ≡ done a w'
    → Halts (f a w')
    → Halts ((m >>= f) w)
Halts-bind m f w h k =
    subst (λ r. Halts (elim r [ done a w' ↦ f a w' | fault ↦ fault | timeout ↦ timeout ])) (sym h) k

transferred-Halts :
    (e : Env) (more : M Outcome) (w : World) (stopped : Option Outcome)
    → begins_with_ef w.frame.runcode ≡ false
    → Halts (more w)
    → Halts (transferred e more stopped w)
unfolding transferred
transferred-Halts e more w (some o) plain h = with_outcome o w
transferred-Halts e more w none plain h =
    Halts-bind (resolve_code e) _ w (resolve_code_lem e w plain) (at (length w.frame.runcode == 0))
  where
    at : (b : Bool) → Halts ((if b then pure succeeded else more) w)
    at true = with_outcome succeeded w
    at false = h

IsFit-moved : (w w' : World) → Advance true 0 0 w w' → IsFit w → IsFit w'
IsFit-moved w w' v f = record {
  short = rw v.same_code f.short;
  small = v.bounded f.small;
  within = rw v.same_limit f.within;
  room = omega (arith, v.at_most, f.room);
}

start-Halts :
    (e : Env)
    → ((m : List ℕ) → e.allocated m ≡ true)
    → (fuel : ℕ) (w : World) → begins_with_ef w.frame.runcode ≡ false
    → call_free w.frame.runcode ≡ true
    → IsFit w
    → steps_left w < fuel
    → Halts (run_evm e fuel true w)
unfolding run_evm start transferred
start-Halts e alloc fuel w plain free f enough =
    at ((transfer-Free {p = true} e).run w f.small (omega (arith, f.room)))
  where
    same : (w' : World) → Advance true 0 0 w w' → steps_left w' ≡ steps_left w
    same w' v =
        rw (v.same_code, v.same_limit, v.same_pc refl)
          (ap
            (λ (g : ℕ).
              (w.frame.gas_limit - g) * (length w.frame.runcode + 1)
              + (length w.frame.runcode - w.frame.pc))
            (omega (arith, v.at_least, v.at_most)))

    at :
        {r : Res (Option Outcome)}
        → Post true nothing 0 w r
        → Halts (elim r [
          | done stopped w' ↦ transferred e (loop e fuel) stopped w'
          | fault ↦ fault
          | timeout ↦ timeout
        ])
    at faulted = by_fault
    at (ended stopped w' v) = transferred-Halts e (loop e fuel) w' stopped (rw v.same_code plain) (
        loop-Halts_within e alloc fuel w' (rw v.same_code free) (IsFit-moved w w' v f)
          (omega (arith, same w' v)))

-- With fuel for every step that the gas and the code allow, the simulation of a transaction ends
-- with an outcome or a fault. The memory's pointer is taken never to be null. The recipient's code is
-- shorter than 2 ^ 32 bytes and is not a delegation, and no byte of it, data of a PUSH included, is
-- the opcode of CALL, CALLCODE, DELEGATECALL or STATICCALL (0xF1, 0xF2, 0xF4, 0xFA). The call data
-- have fewer than 2 ^ 27 bytes, and the gas limit leaves the 32-bit counter room for one more
-- instruction.
pub simulate-Halts :
    (e : Env)
    → ((m : List ℕ) → e.allocated m ≡ true)
    → (fuel : ℕ) (tx : Transaction) → begins_with_ef (e.base_code tx.recipient) ≡ false
    → call_free (e.base_code tx.recipient) ≡ true
    → length (e.base_code tx.recipient) < 2 ^ 32
    → length tx.calldata < 2 ^ 27
    → (tx.gas_limit + extra_gas) % 2 ^ 32 + most < 2 ^ 32
    → steps_left (world_of (transaction_context e tx)) < fuel
    → Halts (simulate e fuel tx)
unfolding simulate transaction_context
simulate-Halts e alloc fuel tx plain free short few limit enough =
    start-Halts e alloc fuel (world_of (transaction_context e tx)) plain free
      (record {
        short = short;
        small = omega arith;
        within = limit;
        room = omega (arith, get_initial_gas_cost_lem tx.calldata few, non_zero-le tx.calldata);
      })
      enough
