-- ===== src/Machine/Progress/Tick.antt =====
-- One instruction that calls no other contract: it ends the run, uses gas, or moves the program
-- counter on.
use komozoievm.External.{Env}
use komozoievm.Context.State.{World, Res, done, fault, M, Outcome}
use komozoievm.Machine.Op.{
  Op, stop, return_op, revert, invalid, arith_op, compare_op, bit_op, env_op, copy_op, memory_op,
  control_op, pop_op, push_op, dup, swap, log, call_op, missing, unknown, decode,
}
use komozoievm.Machine.Control.{no_bytes, exec_stop, exec_invalid}
use komozoievm.Machine.Run.{exec, exec_pop, tick}
use komozoievm.Machine.Progress.Steps.{
  cap, Post, ended, faulted, Steps, nothing, goes_on, free-then, pop-Free,
}
use komozoievm.Machine.Progress.Plain.{
  most, to_most, paid, exec_arith-Steps, exec_compare-Steps, exec_bits-Steps,
}
use komozoievm.Machine.Progress.Instructions.{
  exec_env-Steps, exec_memory-Steps, exec_control-Steps, exec_push-Steps, exec_dup-Steps,
  exec_swap-Steps,
}
use komozoievm.Machine.Progress.Copying.{exec_copy-Steps}
use komozoievm.Machine.Progress.Ending.{exec_log-Steps, exec_return-Steps, exec_revert-Steps}
use komozoievm.Common.{
  leb→gt, ℕ, zero, suc, ◌+◌, ◌%◌, ◌^◌, ◌≤◌, ◌<◌, ◌≡◌, refl, subst, List, [], ◌∷◌, none, some, Bool,
  true, false, length, get_elem?, leb, ◌&&◌, arith, Bool-cases, Option-cases, inl, inr, ◌⊎◌,
}

-- An instruction that calls no other contract. A LOG has four topics at most.
unfoldable pub plain : Op → Bool
plain (call_op o) = false
plain (log n) = leb n 4
plain _ = true

-- A code of which every byte, data of a PUSH included, is such an instruction.
unfoldable pub call_free : List ℕ → Bool
unfolding plain decode
call_free [] = true
call_free (b ∷ code) = plain (decode b) && call_free code

call_free-get_elem? :
    (code : List ℕ) (i : ℕ) {b : ℕ}
    → call_free code ≡ true
    → get_elem? code i ≡ some b
    → plain (decode b) ≡ true
unfolding call_free
call_free-get_elem? [] i free at = ground arith
call_free-get_elem? (c ∷ code) zero free at = ground arith
call_free-get_elem? (c ∷ code) (suc i) free at = call_free-get_elem? code i (ground arith) at

-- The loop of `runEVMRaw` returns such an outcome.
abbrev pub Ends : Outcome → Type 0
Ends o = (o.success ≡ false) ⊎ ((bytes : List ℕ) × (o.return_data ≡ some bytes))

-- Where an instruction leaves the running context: at its end, or with more gas used or behind in
-- the code.
data Moved (w : World) : Res Outcome → Type 0 where
  stopped : (o : Outcome) (w' : World) → Ends o → Moved w (done o w')
  moved :
      (o : Outcome) (w' : World)
      → w'.frame.gas_limit ≡ w.frame.gas_limit
      → w'.frame.runcode ≡ w.frame.runcode
      → length w'.frame.memory ≤ cap
      → w'.frame.gas_used ≤ w.frame.gas_used + most
      → ((w.frame.gas_used + 1 ≤ w'.frame.gas_used)
          ⊎ ((w.frame.gas_used ≤ w'.frame.gas_used) × (w'.frame.pc ≡ w.frame.pc)))
      → Moved w (done o w')
  broke : Moved w fault

module _ (w : World) (small : length w.frame.memory ≤ cap)
    (room : w.frame.gas_used + most < 2 ^ 32) where
  goes_on-Moved : {p : Bool} {m : M Outcome} → Steps p goes_on most m → Moved w (m w)
  goes_on-Moved {p} {m} s = at (s.run w small room)
    where
      at : {r : Res Outcome} → Post p goes_on most w r → Moved w r
      at faulted = broke
      at (ended o w' v) = elim (Option-cases o.return_data) [
        | inr (bytes, h) ↦ stopped o w' (inr (bytes, h))
        | inl h ↦ elim (Bool-cases o.success) [
          | inr lost ↦ stopped o w' (inl lost)
          | inl won ↦ moved o w' v.same_limit v.same_code (v.bounded small) v.at_most (
              inl (
                subst (λ (k : ℕ). w.frame.gas_used + k ≤ w'.frame.gas_used) (one o h won)
                  v.at_least))
        ]
      ]
        where
          one : (o : Outcome) → o.return_data ≡ none → o.success ≡ true → goes_on o ≡ 1
          one o h won = rw (h, won) refl

  nothing-Moved : {m : M Outcome} → Steps true nothing most m → Moved w (m w)
  nothing-Moved {m} s = at (s.run w small room)
    where
      at : {r : Res Outcome} → Post true nothing most w r → Moved w r
      at faulted = broke
      at (ended o w' v) =
          moved o w' v.same_limit v.same_code (v.bounded small) v.at_most
            (inr (omega (arith, v.at_least), v.same_pc refl))

exec_pop-Steps : Steps false goes_on most exec_pop
unfolding exec_pop
exec_pop-Steps = to_most (free-then pop-Free λ a. paid 2 (omega arith)) (omega arith)

exec_stop_lem :
    (e : Env)
    → ((m : List ℕ) → e.allocated m ≡ true)
    → (w : World)
    → exec_stop e w ≡ done (record { success = true; return_data = some []; message = none }) w
unfolding exec_stop no_bytes
exec_stop_lem e alloc w = rw (alloc w.frame.memory) refl

exec_invalid-Moved : (e : Env) (w : World) → Moved w (exec_invalid e w)
unfolding exec_invalid no_bytes
exec_invalid-Moved e w = stopped _ _ (inl refl)

exec-Moved :
    (e : Env)
    → ((m : List ℕ) → e.allocated m ≡ true)
    → (run : Bool → M Outcome) (o : Op) → plain o ≡ true
    → (w : World) → length w.frame.memory ≤ cap
    → w.frame.gas_used + most < 2 ^ 32
    → Moved w (exec e run o w)
unfolding exec plain
exec-Moved e alloc run stop free w small room =
    rw (exec_stop_lem e alloc w) (stopped _ w (inr ([], refl)))
exec-Moved e alloc run return_op free w small room =
    nothing-Moved w small room (exec_return-Steps e)
exec-Moved e alloc run revert free w small room =
    goes_on-Moved w small room (exec_revert-Steps {p = false} e)
exec-Moved e alloc run invalid free w small room = exec_invalid-Moved e w
exec-Moved e alloc run (arith_op o) free w small room =
    goes_on-Moved w small room (exec_arith-Steps {p = false} e o)
exec-Moved e alloc run (compare_op o) free w small room =
    goes_on-Moved w small room (exec_compare-Steps {p = false} e o)
exec-Moved e alloc run (bit_op o) free w small room =
    goes_on-Moved w small room (exec_bits-Steps {p = false} e o)
exec-Moved e alloc run (env_op o) free w small room =
    goes_on-Moved w small room (exec_env-Steps {p = false} e o)
exec-Moved e alloc run (copy_op o) free w small room =
    goes_on-Moved w small room (exec_copy-Steps {p = false} e o)
exec-Moved e alloc run (memory_op o) free w small room =
    goes_on-Moved w small room (exec_memory-Steps {p = false} e o)
exec-Moved e alloc run (control_op o) free w small room =
    goes_on-Moved w small room (exec_control-Steps o)
exec-Moved e alloc run pop_op free w small room = goes_on-Moved w small room exec_pop-Steps
exec-Moved e alloc run (push_op n) free w small room =
    goes_on-Moved w small room (exec_push-Steps n)
exec-Moved e alloc run (dup n) free w small room =
    goes_on-Moved w small room (exec_dup-Steps {p = false} n)
exec-Moved e alloc run (swap n) free w small room =
    goes_on-Moved w small room (exec_swap-Steps {p = false} n)
exec-Moved e alloc run (log n) free w small room =
    goes_on-Moved w small room (exec_log-Steps {p = false} e n (ground arith))
exec-Moved e alloc run (call_op o) free w small room = absurd (ground arith)
exec-Moved e alloc run (missing n) free w small room = stopped _ w (inl refl)
exec-Moved e alloc run unknown free w small room = stopped _ w (inl refl)

fetched : World → World
fetched w = record w { frame = record (w.frame) { pc = (w.frame.pc + 1) % 2 ^ 32 } }

-- As for one instruction, with the counter that the fetch has moved.
pub data Ticked (w : World) : Res Outcome → Type 0 where
  stopped : (o : Outcome) (w' : World) → Ends o → Ticked w (done o w')
  ticked :
      (o : Outcome) (w' : World)
      → w'.frame.gas_limit ≡ w.frame.gas_limit
      → w'.frame.runcode ≡ w.frame.runcode
      → length w'.frame.memory ≤ cap
      → w'.frame.gas_used ≤ w.frame.gas_used + most
      → ((w.frame.gas_used + 1 ≤ w'.frame.gas_used)
          ⊎ ((w.frame.gas_used ≤ w'.frame.gas_used)
              × (w.frame.pc < length w.frame.runcode)
              × (w'.frame.pc ≡ (w.frame.pc + 1) % 2 ^ 32)))
      → Ticked w (done o w')
  broke : Ticked w fault

fetched-Ticked :
    (w : World) {r : Res Outcome}
    → w.frame.pc < length w.frame.runcode
    → Moved (fetched w) r
    → Ticked w r
unfolding fetched
fetched-Ticked w inside broke = broke
fetched-Ticked w inside (stopped o w' s) = stopped o w' s
fetched-Ticked w inside (moved o w' l c m g (inl up)) = ticked o w' l c m g (inl up)
fetched-Ticked w inside (moved o w' l c m g (inr (same, at))) =
    ticked o w' l c m g (inr (same, inside, at))

pub tick-Ticked :
    (e : Env)
    → ((m : List ℕ) → e.allocated m ≡ true)
    → (run : Bool → M Outcome) (w : World) → call_free w.frame.runcode ≡ true
    → length w.frame.memory ≤ cap
    → w.frame.gas_used + most < 2 ^ 32
    → Ticked w (tick e run w)
unfolding tick fetched
tick-Ticked e alloc run w free small room =
    elim (Bool-cases (leb (length w.frame.runcode) w.frame.pc)) [
      | inl over ↦ rw over (rw (exec_stop_lem e alloc w) (stopped _ w (inr ([], refl))))
      | inr inside ↦ elim (Option-cases (get_elem? w.frame.runcode w.frame.pc)) [
        | inl nowhere ↦ rw (inside, nowhere) broke
        | inr (b, at) ↦
            rw (inside, at)
              (fetched-Ticked w (leb→gt _ _ inside) (
                exec-Moved e alloc run (decode b) (call_free-get_elem? _ _ free at) (fetched w)
                  small room))
      ]
    ]
