-- ===== src/Machine/Progress/Memory.antt =====
-- The memory operations at their cost.
use komozoievm.External.{Env}
use komozoievm.Context.State.{
  World, M, Outcome, failed, frame, modify, pure, ◌>>=◌, ◌>>◌, out_of_gas,
}
use komozoievm.Context.Memory.{
  word_count, word_cost, expand_to, expand_ints, expand_memory, get_memory_starting_at, load_bytes,
  store_bytes, checked, read_memory, write_memory,
}
use komozoievm.Context.Memory.Gas.{memory_cost, square_mono}
use komozoievm.Machine.Data.{at_memory, read_int}
use komozoievm.Machine.Progress.Steps.{
  cap, Post, ended, faulted, Steps, Free, nothing, goes_on, Steps-weaken, free-then, cost-then,
  pure-Free, pure-Steps, fail-Steps, if-Steps, if_known-Steps, at_most-Steps, frame-Free,
  modify-Free, charge-Steps,
}
use komozoievm.Common.{
  leb→gt, ℕ, ◌+◌, ◌-◌, ◌*◌, ◌%◌, ◌^◌, ◌≤◌, ◌<◌, ◌≡◌, refl, List, Option, none, some, Bool, true,
  false, ℤ, pos, negsuc, length, if◌then◌else◌, leb, ltb, arith, Bool-cases, inl, inr, ltb→lt,
  ltb→ge, ◌++◌, replicate, max, length-append, length-replicate, length-take, length-drop, take,
  drop, Option-cases, ◌⊎◌,
}

-- No expansion whose cost can be computed in an `int` costs more.
abbrev pub most_expansion : ℕ
most_expansion = 2 ^ 24

root_bound : (n : ℕ) → n * n < 2 ^ 31 → n < 46341
root_bound n h = elim (Bool-cases (ltb n 46341)) [
  | inl small ↦ ltb→lt _ _ small
  | inr large ↦ absurd (omega (arith, square_mono 46341 n (ltb→ge _ _ large)))
]

word_cost_bound : (n : ℕ) → n * n < 2 ^ 31 → word_cost n ≤ most_expansion
unfolding word_cost
word_cost_bound n h = omega (arith, root_bound n h)

grown_length :
    (m : List ℕ) (needed : ℕ)
    → needed ≤ cap
    → length (m ++ replicate (needed - length m) 0) ≤ max (length m) cap
grown_length m needed fits = omega (
  arith,
  length-append m (replicate (needed - length m) 0),
  length-replicate {A = ℕ} (needed - length m) 0,
)

grow-Steps :
    {p : Bool} (needed : ℕ)
    → needed ≤ cap
    → Steps p nothing 0 (do
      c' ← frame
      if ltb c'.gas_limit c'.gas_used then pure false else (do
        modify (λ k. record k { memory = k.memory ++ replicate (needed - length k.memory) 0 })
        pure true))
grow-Steps needed fits = free-then frame-Free λ c.
    if-Steps (ltb c.gas_limit c.gas_used) (pure-Free false) (
      free-then
        (modify-Free _ (λ k. (refl, refl, refl, (λ _. refl), grown_length k.memory needed fits)))
        λ _. pure-Free true)

expand_to-Steps : {p : Bool} (o s : ℕ) → Steps p nothing most_expansion (expand_to o s)
unfolding expand_to
expand_to-Steps o s = free-then frame-Free λ c. if-Steps (leb (2 ^ 31) (o + s)) fail-Steps (
    if-Steps (ltb (length c.memory) (o + s))
      (if_known-Steps (leb (2 ^ 31) (word_count (o + s) * word_count (o + s))) (λ _. fail-Steps)
        (λ small.
          at_most-Steps
            (cost-then (charge-Steps (memory_cost (o + s) - memory_cost (length c.memory))) (λ _.
              grow-Steps (o + s)
                (omega (arith, root_bound (word_count (o + s)) (leb→gt _ _ small)))))
            (omega (arith, word_cost_bound (word_count (o + s)) (leb→gt _ _ small)))))
      (at_most-Steps (pure-Free true) (omega arith)))

expand_ints-Steps : {p : Bool} (o s : ℤ) → Steps p nothing most_expansion (expand_ints o s)
unfolding expand_ints
expand_ints-Steps (negsuc o) s = at_most-Steps (pure-Free false) (omega arith)
expand_ints-Steps (pos o) (negsuc s) = at_most-Steps (pure-Free false) (omega arith)
expand_ints-Steps (pos o) (pos s) = expand_to-Steps o s

pub expand_memory-Steps :
    {p : Bool} (e : Env) (o s : ℕ) → Steps p nothing most_expansion (expand_memory e o s)
unfolding expand_memory
expand_memory-Steps e o s =
    if-Steps (ltb 1482849 ((o + s) % 2 ^ 256)) (at_most-Steps (pure-Free false) (omega arith))
      (expand_ints-Steps (e.to_int o) (e.to_int s))

pub get_memory-Steps :
    {p : Bool} (e : Env) (o s : ℕ) → Steps p nothing most_expansion (get_memory_starting_at e o s)
unfolding get_memory_starting_at
get_memory-Steps e o s =
    at_most-Steps
      (cost-then (expand_memory-Steps e o s)
        λ ok. free-then frame-Free λ c. if-Steps ok (pure-Free _) (pure-Free none))
      (omega arith)

pub checked-Free : {p : Bool} {A : Type 0} (o : Option A) → Free p (checked o)
checked-Free none = fail-Steps
checked-Free (some a) = pure-Free a

pub read_memory-Free : {p : Bool} (o n : ℕ) → Free p (read_memory o n)
unfolding read_memory
read_memory-Free o n = free-then frame-Free λ c. checked-Free (load_bytes c.memory o n)

store_bytes-length :
    (m : List ℕ) (o : ℕ) (bytes : List ℕ) {m' : List ℕ}
    → store_bytes m o bytes ≡ some m'
    → length m' ≡ length m
unfolding store_bytes
store_bytes-length m o bytes h = ground (
  arith,
  length-append (take o m) (bytes ++ drop (o + length bytes) m),
  length-append bytes (drop (o + length bytes) m),
  length-take o m,
  length-drop (o + length bytes) m,
)

pub write_memory-Free : {p : Bool} (o : ℕ) (bytes : List ℕ) → Free p (write_memory o bytes)
unfolding write_memory
write_memory-Free {p} o bytes = record {
  run = λ w small room. at w (Option-cases (store_bytes w.frame.memory o bytes));
}
  where
    at :
        (w : World)
        → (store_bytes w.frame.memory o bytes ≡ none)
          ⊎ ((m : List ℕ) × (store_bytes w.frame.memory o bytes ≡ some m))
        → Post p nothing 0 w (write_memory o bytes w)
    at w (inl h) = rw h faulted
    at w (inr (m, h)) = rw h (
        ended tt _ (record {
          same_limit = refl;
          same_code = refl;
          same_pc = λ _. refl;
          bounded = λ small. omega (arith, store_bytes-length w.frame.memory o bytes h);
          at_least = omega arith;
          at_most = omega arith;
        }))

pub read_int-Free : {p : Bool} (o : ℕ) (n : ℤ) → Free p (read_int o n)
read_int-Free o (pos n) = read_memory-Free o n
read_int-Free o (negsuc n) = fail-Steps

-- The same where the outcome tells what has been paid.
pub at_memory-goes_on :
    {p : Bool} {h : ℕ} (e : Env) (offset size : ℕ) {f : ℕ → M Outcome}
    → ((o : ℕ) → Steps p goes_on h (f o))
    → Steps p goes_on (most_expansion + h) (at_memory e offset size f)
at_memory-goes_on {p} {h} e offset size {f} s = cost-then (get_memory-Steps e offset size) λ q. at q
  where
    at :
        (q : Option ℕ)
        → Steps p goes_on h (elim q [ none ↦ pure (failed out_of_gas) | some o ↦ f o ])
    at none =
        Steps-weaken (pure-Steps {low = goes_on} (failed out_of_gas) refl) (λ o. omega arith)
          (omega arith)
    at (some o) = s o

-- An instruction at a region of the memory costs the expansion and what it does there.
pub at_memory-Steps :
    {p : Bool} {h : ℕ} (e : Env) (offset size : ℕ) {f : ℕ → M Outcome}
    → ((o : ℕ) → Steps p nothing h (f o))
    → Steps p nothing (most_expansion + h) (at_memory e offset size f)
at_memory-Steps {p} {h} e offset size {f} s = cost-then (get_memory-Steps e offset size) λ q. at q
  where
    at :
        (q : Option ℕ)
        → Steps p nothing h (elim q [ none ↦ pure (failed out_of_gas) | some o ↦ f o ])
    at none = at_most-Steps (pure-Free _) (omega arith)
    at (some o) = s o
