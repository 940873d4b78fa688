-- ===== src/Machine/Run/Termination.antt =====
-- The loop of `runEVMRaw` ends, for a code whose instructions call no other contract.
use komozoievm.External.{Env}
use komozoievm.Context.State.{World, Res, done, fault, timeout, M, Outcome, failed, out_of_gas}
use komozoievm.Machine.Run.{start, after_tick, loop}
use komozoievm.Machine.Progress.Steps.{cap}
use komozoievm.Machine.Progress.Plain.{most}
use komozoievm.Common.{
  ℕ, zero, suc, ◌+◌, ◌-◌, ◌*◌, ◌%◌, ◌^◌, ◌≤◌, ◌<◌, ◌≡◌, List, true, length, leb, arith, Bool-cases,
  Option-cases, inl, inr, ◌⊎◌,
}
use komozoievm.Machine.Progress.Tick.{call_free, Ends, Ticked, stopped, ticked, broke, tick-Ticked}

-- A result that is not for want of fuel.
pub data Halts {A : Type 0} : Res A → Type 0 where
  with_outcome : (a : A) (w : World) → Halts (done a w)
  by_fault : Halts fault

after_tick-Halts :
    (more : M Outcome) (o : Outcome) (w : World)
    → (w.frame.gas_used < w.frame.gas_limit → Halts (more w))
    → Halts (after_tick more o w)
unfolding after_tick
after_tick-Halts more o w next = elim (Option-cases o.return_data) [
  | inr (bytes, h) ↦ rw h (with_outcome _ w)
  | inl h ↦ elim (Bool-cases o.success) [
    | inr lost ↦ rw (h, lost) (with_outcome _ w)
    | inl won ↦ elim (Bool-cases (leb w.frame.gas_limit w.frame.gas_used)) [
      | inl out ↦ rw (h, won, out) (with_outcome (failed out_of_gas) w)
      | inr left ↦ rw (h, won, left) (next (ground arith))
    ]
  ]
]

ended-Halts : (more : M Outcome) (o : Outcome) (w : World) → Ends o → Halts (after_tick more o w)
unfolding after_tick
ended-Halts more o w (inr (bytes, h)) = rw h (with_outcome _ w)
ended-Halts more o w (inl lost) = elim (Option-cases o.return_data) [
  | inr (bytes, h) ↦ rw h (with_outcome _ w)
  | inl h ↦ rw (h, lost) (with_outcome _ w)
]

-- How many instructions there are at most until the counter has passed the limit, or the program
-- counter the code.
abbrev pub steps_left : World → ℕ
steps_left w =
    (w.frame.gas_limit - w.frame.gas_used) * (length w.frame.runcode + 1)
    + (length w.frame.runcode - w.frame.pc)

product_lt : (a b n : ℕ) → a < b → a * (n + 1) + n < b * (n + 1)
product_lt a b n h = grind arith

product_le : (a b n : ℕ) → a ≤ b → a * (n + 1) ≤ b * (n + 1)
product_le a b n h = grind arith

steps_left-lt :
    (w w' : World)
    → length w.frame.runcode < 2 ^ 32
    → w'.frame.gas_limit ≡ w.frame.gas_limit
    → w'.frame.runcode ≡ w.frame.runcode
    → w'.frame.gas_used < w'.frame.gas_limit
    → (w.frame.gas_used + 1 ≤ w'.frame.gas_used)
      ⊎ ((w.frame.gas_used ≤ w'.frame.gas_used)
          × (w.frame.pc < length w.frame.runcode)
          × (w'.frame.pc ≡ (w.frame.pc + 1) % 2 ^ 32))
    → steps_left w' < steps_left w
steps_left-lt w w' short l c below (inl up) =
    rw (l, c)
      (omega (
        arith,
        product_lt (w.frame.gas_limit - w'.frame.gas_used) (w.frame.gas_limit - w.frame.gas_used)
            (length w.frame.runcode) (omega (arith, l)),
      ))
steps_left-lt w w' short l c below (inr (same, inside, at)) =
    rw (l, c)
      (omega (
        arith,
        product_le (w.frame.gas_limit - w'.frame.gas_used) (w.frame.gas_limit - w.frame.gas_used)
            (length w.frame.runcode) (omega arith),
      ))

pub record IsFit (w : World) : Type 0 where
  pub short : length w.frame.runcode < 2 ^ 32
  pub small : length w.frame.memory ≤ cap
  pub within : w.frame.gas_limit + most < 2 ^ 32
  pub room : w.frame.gas_used + most < 2 ^ 32

after_tick-Halts_within :
    (more : M Outcome) (w : World) (fuel : ℕ)
    → call_free w.frame.runcode ≡ true
    → IsFit w
    → steps_left w < suc fuel
    → ((w' : World)
        → call_free w'.frame.runcode ≡ true
        → IsFit w'
        → steps_left w' < fuel
        → Halts (more w'))
    → {r : Res Outcome} → Ticked w r
    → Halts (elim r [ done o w' ↦ after_tick more o w' | fault ↦ fault | timeout ↦ timeout ])
after_tick-Halts_within more w fuel free f enough next broke = by_fault
after_tick-Halts_within more w fuel free f enough next (stopped o w' s) = ended-Halts more o w' s
after_tick-Halts_within more w fuel free f enough next (ticked o w' l c m g up) =
    after_tick-Halts more o w' λ below.
      next w' (rw c free)
        (record {
          short = rw c f.short;
          small = m;
          within = rw l f.within;
          room = omega (arith, f.within, l);
        })
        (omega (arith, steps_left-lt w w' f.short l c below up))

pub loop-Halts_within :
    (e : Env)
    → ((m : List ℕ) → e.allocated m ≡ true)
    → (fuel : ℕ) (w : World) → call_free w.frame.runcode ≡ true
    → IsFit w
    → steps_left w < fuel
    → Halts (loop e fuel w)
unfolding loop
loop-Halts_within e alloc zero w free f enough = absurd (omega arith)
loop-Halts_within e alloc (suc fuel) w free f enough =
    after_tick-Halts_within (loop e fuel) w fuel free f enough (loop-Halts_within e alloc fuel)
      (tick-Ticked e alloc (start e (loop e fuel)) w free f.small f.room)
