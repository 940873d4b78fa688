-- ===== src/Machine/Progress/Ending.antt =====
-- LOG, and the instructions that may end a call.
use komozoievm.External.{Env}
use komozoievm.Context.State.{
  World, M, Outcome, succeeded, frame, pure, charge, done, fault, Trace, on_event_log, reverted,
  timeout, ◌>>=◌, ◌>>◌,
}
use komozoievm.Context.Memory.{read_memory, load_bytes}
use komozoievm.Machine.Progress.Steps.{
  cap, Post, ended, faulted, Steps, Free, nothing, goes_on, Steps-weaken, free-then, cost-then,
  pure-Free, pure-Steps, fail-Steps, if-Steps, at_most-Steps, frame-Free, pop-Free,
}
use komozoievm.Machine.Progress.Memory.{
  read_memory-Free, most_expansion, get_memory-Steps, at_memory-goes_on,
}
use komozoievm.Machine.Progress.Plain.{most, to_most, paid}
use komozoievm.Common.{
  ℕ, ℤ, pos, negsuc, zero, suc, ◌+◌, ◌*◌, ◌%◌, ◌^◌, ◌≤◌, ◌<◌, ◌≡◌, refl, List, [], ◌∷◌, ◌++◌,
  Option, none, some, Bool, true, false, length, ltb, ◌||◌, arith, subst, sym, ap, Bool-cases, inl,
  inr, ltb→lt, ltb→ge,
}
use komozoievm.Machine.Control.{
  trace, returned, log_region, pop_topics, exec_log, region, exec_return, exec_revert,
}
use komozoievm.Common.Bytes.{to_be}

load_too_large : (m : List ℕ) (o n : ℕ) → length m < n → load_bytes m o n ≡ none
unfolding load_bytes
load_too_large m o n h = ground arith

pop_topics-Free : {p : Bool} (n : ℕ) → Free p (pop_topics n)
unfolding pop_topics
pop_topics-Free zero = pure-Free []
pop_topics-Free (suc n) =
    free-then pop-Free λ t. free-then (pop_topics-Free n) λ rest. pure-Free (t ∷ rest)

trace-Free : {p : Bool} (t : Trace) → Free p (trace t)
trace-Free t = record {
  run = λ w small room. ended tt _ (record {
    same_limit = refl;
    same_code = refl;
    same_pc = λ _. refl;
    bounded = λ h. h;
    at_least = omega arith;
    at_most = omega arith;
  });
}

large_read : (o n : ℕ) (w : World) → length w.frame.memory < n → read_memory o n w ≡ fault
unfolding read_memory
large_read o n w h = rw (load_too_large w.frame.memory o n h) refl

faulted_bind :
    {A B : Type 0} (m : M A) (f : A → M B) (w : World) → m w ≡ fault → (m >>= f) w ≡ fault
faulted_bind m f w h = ap (λ r. elim r [ done a w' ↦ f a w' | fault ↦ fault | timeout ↦ timeout ]) h

-- A region that is larger than any memory is not read.
large_read-Steps :
    {A : Type 0} {p : Bool} {low : A → ℕ} {hi : ℕ} (o n : ℕ) (f : List ℕ → M A)
    → cap < n
    → Steps p low hi (read_memory o n >>= f)
large_read-Steps {A} {p} {low} {hi} o n f large = record {
  run = λ w small room.
      subst (Post p low hi w)
        (sym (faulted_bind (read_memory o n) f w (large_read o n w (omega arith)))) faulted;
}

-- What a LOG costs at most, without the expansion.
abbrev log_cost : ℕ
log_cost = 2 ^ 25

logged : ℕ → ℕ → ℕ → M Outcome
logged count o size = do
  topics ← pop_topics count
  bytes ← read_memory o size
  c ← frame
  trace (on_event_log c.address topics bytes)
  charge (375 + 375 * count + 8 * size)
  pure succeeded

logged-Steps :
    {p : Bool} (count o size : ℕ) → count ≤ 4 → Steps p goes_on log_cost (logged count o size)
unfolding logged
logged-Steps count o size few = elim (Bool-cases (ltb cap size)) [
  | inl large ↦
      free-then (pop_topics-Free count) λ topics. large_read-Steps o size _ (ltb→lt _ _ large)
  | inr small ↦
      Steps-weaken
        (free-then (pop_topics-Free count) λ topics. free-then (read_memory-Free o size) λ bytes.
          free-then frame-Free λ c.
            free-then (trace-Free (on_event_log c.address topics bytes))
              λ _. paid (375 + 375 * count + 8 * size) (omega arith))
        (λ o. omega arith) (omega (arith, ltb→ge _ _ small))
]

log_region-Steps :
    {p : Bool} (count o : ℕ) (size : ℤ)
    → count ≤ 4
    → Steps p goes_on log_cost (log_region count o size)
unfolding log_region logged
log_region-Steps count o (negsuc size) few = fail-Steps
log_region-Steps count o (pos size) few = logged-Steps count o size few

pub exec_log-Steps :
    {p : Bool} (e : Env) (count : ℕ) → count ≤ 4 → Steps p goes_on most (exec_log e count)
unfolding exec_log
exec_log-Steps e count few =
    to_most
      (free-then pop-Free λ a.
        free-then pop-Free
          λ b. at_memory-goes_on e a b (λ o. log_region-Steps count o (e.to_int b) few))
      (omega arith)

region-Steps : {p : Bool} (e : Env) (a b : ℕ) → Steps p nothing most_expansion (region e a b)
unfolding region
region-Steps {p} e a b = at_most-Steps (cost-then (get_memory-Steps e a b) λ q. at q) (omega arith)
  where
    at :
        (q : Option ℕ)
        → Free {A = Option (List ℕ)} p (elim q [
          | none ↦ pure none
          | some o ↦ (do bytes ← read_memory o (b % 2 ^ 16); pure (some bytes))
        ])
    at none = pure-Free none
    at (some o) = free-then (read_memory-Free o (b % 2 ^ 16)) λ bytes. pure-Free (some bytes)

-- RETURN takes no gas of its own, and leaves the program counter.
pub exec_return-Steps : {p : Bool} (e : Env) → Steps p nothing most (exec_return e)
unfolding exec_return
exec_return-Steps e =
    at_most-Steps
      (free-then pop-Free λ a.
        free-then pop-Free
          λ b. cost-then (region-Steps e a b) λ bytes. pure-Free (returned true none bytes))
      (omega arith)

pub exec_revert-Steps : {p : Bool} (e : Env) → Steps p goes_on most (exec_revert e)
unfolding exec_revert
exec_revert-Steps e =
    to_most
      (free-then pop-Free λ a. free-then pop-Free λ b.
        if-Steps (ltb 14000 a || ltb 14000 b)
          (Steps-weaken {low = goes_on} {low' = goes_on}
            (pure-Steps (returned false (some reverted) (some (to_be 32 a ++ to_be 32 b))) refl)
            (λ o. omega arith) (omega arith))
          (cost-then (region-Steps e a b) λ bytes. reverted_with bytes))
      (omega arith)
  where
    reverted_with :
        {p : Bool} (bytes : Option (List ℕ))
        → Steps p goes_on 0 (pure (returned false (some reverted) bytes))
    reverted_with none = pure-Steps (returned false (some reverted) none) refl
    reverted_with (some bytes) = pure-Steps (returned false (some reverted) (some bytes)) refl
