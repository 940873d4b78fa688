-- ===== src/Context/Memory/Gas.antt =====
-- What an expansion of the memory costs and what it leaves.
use mathlib.Core.List.{append-nil}
use komozoievm.External.{Env, KeepsInts}
use komozoievm.Context.State.{World, Res, done}
use komozoievm.Context.Memory.{word_count, word_cost, expand_to, expand_memory}
use komozoievm.Common.{
  ℕ, ◌+◌, ◌-◌, ◌*◌, ◌/◌, ◌%◌, ◌^◌, ◌≤◌, ◌<◌, ◌≡◌, refl, sym, ap, ◌∙◌, ◌++◌, Bool, true, false, ltb,
  Bool-cases, inl, inr, length, length-append, replicate, length-replicate, arith, lt→ltb, ge→ltb,
  gt→leb, ltb→lt, ltb→ge,
}

-- The cost of a memory of so many bytes.
abbrev pub memory_cost : ℕ → ℕ
memory_cost bytes = word_cost (word_count bytes)

pub square_mono : (a b : ℕ) → a ≤ b → a * a ≤ b * b
square_mono a b h = grind arith

pub word_cost_mono : (a b : ℕ) → a ≤ b → word_cost a ≤ word_cost b
unfolding word_cost
word_cost_mono a b h = omega (arith, square_mono a b h)

pub memory_cost_mono : (a b : ℕ) → a ≤ b → memory_cost a ≤ memory_cost b
memory_cost_mono a b h = word_cost_mono ((a + 31) / 32) ((b + 31) / 32) (omega arith)

memory_cost_bound : (a : ℕ) → a ≤ 1482849 → memory_cost a < 2 ^ 23
unfolding word_cost
memory_cost_bound a h =
    let m : memory_cost a ≤ memory_cost 1482849 = memory_cost_mono a 1482849 h in omega arith

-- What a successful expansion to `needed` bytes has done.
pub record Expanded (needed : ℕ) (before after : World) : Type 0 where
  -- The memory grew by zeros, to exactly the size that was asked for, or did not have to.
  pub grown :
      after.frame.memory ≡ before.frame.memory ++ replicate (needed - length before.frame.memory) 0
  -- The charge is the difference of the costs of the two sizes.
  pub charged :
      after.frame.gas_used + memory_cost (length before.frame.memory)
      ≡ before.frame.gas_used + memory_cost (length after.frame.memory)
  -- The counter stays within the limit if it grew.
  pub within : length before.frame.memory < needed → after.frame.gas_used ≤ after.frame.gas_limit
  pub same_stack : after.frame.stack ≡ before.frame.stack
  pub same_parents : after.parents ≡ before.parents

-- The world behind a charge for a growth, and behind the growth itself.
charged_world : ℕ → World → World
charged_world needed w =
    let c = w.frame in
    let cost = memory_cost needed - memory_cost (length c.memory) in
    record w { frame = record c { gas_used = (c.gas_used + cost) % 2 ^ 32 } }

grown_world : ℕ → World → World
unfolding charged_world
grown_world needed w =
    let w' = charged_world needed w in
    let c = w'.frame in
    record w' { frame = record c { memory = c.memory ++ replicate (needed - length c.memory) 0 } }

below_int : {n : ℕ} → n ≤ 1482849 → n < 2 ^ 31
below_int h = omega arith

square_fits : (n : ℕ) → n ≤ 1482849 → word_count n * word_count n < 2 ^ 31
square_fits n h =
    let s : (n + 31) / 32 * ((n + 31) / 32) ≤ 46340 * 46340 =
      square_mono ((n + 31) / 32) 46340 (omega arith) in
    omega arith

expand_to_kept :
    (o s : ℕ) (w : World)
    → o + s < 2 ^ 31
    → o + s ≤ length w.frame.memory
    → expand_to o s w ≡ done true w
unfolding expand_to
expand_to_kept o s w small h = ground arith

expand_to_refused :
    (o s : ℕ) (w : World)
    → o + s ≤ 1482849
    → length w.frame.memory < o + s
    → w.frame.gas_limit < (charged_world (o + s) w).frame.gas_used
    → expand_to o s w ≡ done false (charged_world (o + s) w)
unfolding expand_to charged_world
expand_to_refused o s w small h over =
    rw (
      gt→leb _ _ (below_int small),
      lt→ltb _ _ h,
      gt→leb _ _ (square_fits _ small),
      lt→ltb _ _ over,
    )

expand_to_grown :
    (o s : ℕ) (w : World)
    → o + s ≤ 1482849
    → length w.frame.memory < o + s
    → (charged_world (o + s) w).frame.gas_used ≤ w.frame.gas_limit
    → expand_to o s w ≡ done true (grown_world (o + s) w)
unfolding expand_to grown_world charged_world
expand_to_grown o s w small h fits =
    rw (
      gt→leb _ _ (below_int small),
      lt→ltb _ _ h,
      gt→leb _ _ (square_fits _ small),
      ge→ltb _ _ fits,
    )

-- The counter and the memory are in the range that the program keeps them in.
pub record IsMetered (w : World) : Type 0 where
  pub low_gas : w.frame.gas_used < 2 ^ 31
  pub bounded : length w.frame.memory ≤ 1482849

charged_gas :
    (needed : ℕ) (w : World)
    → IsMetered w
    → length w.frame.memory < needed
    → needed ≤ 1482849
    → (charged_world needed w).frame.gas_used + memory_cost (length w.frame.memory)
      ≡ w.frame.gas_used + memory_cost needed
unfolding charged_world
charged_gas needed w m h small = omega (
  arith,
  memory_cost_mono (length w.frame.memory) needed (omega arith),
  memory_cost_bound needed small,
)

grown_world-Expanded :
    (needed : ℕ) (w : World)
    → IsMetered w
    → length w.frame.memory < needed
    → needed ≤ 1482849
    → (charged_world needed w).frame.gas_used ≤ w.frame.gas_limit
    → Expanded needed w (grown_world needed w)
unfolding grown_world
grown_world-Expanded needed w m h small fits = record {
  grown = refl;
  charged = charged_gas needed w m h small ∙ ap (λ n. w.frame.gas_used + memory_cost n) size;
  within = λ _. fits;
  same_stack = refl;
  same_parents = refl;
}
  where
    size : needed ≡ length (w.frame.memory ++ replicate (needed - length w.frame.memory) 0)
    size = omega (
      arith,
      length-append w.frame.memory (replicate (needed - length w.frame.memory) 0),
      length-replicate {A = ℕ} (needed - length w.frame.memory) 0,
    )

-- What `expand_memory` may answer to a region that ends at `needed`.
pub data Expansion (needed : ℕ) (before : World) : Res Bool → Type 0 where
  too_large : 1482849 < needed → Expansion needed before (done false before)
  too_dear :
      (after : World)
      → after.frame.memory ≡ before.frame.memory
      → after.frame.gas_limit < after.frame.gas_used
      → Expansion needed before (done false after)
  expanded :
      (after : World) → Expanded needed before after → Expansion needed before (done true after)

kept-Expanded : (needed : ℕ) (w : World) → needed ≤ length w.frame.memory → Expanded needed w w
kept-Expanded needed w h = record {
  grown = rw (sub_zero needed (length w.frame.memory) h) (sym (append-nil w.frame.memory));
  charged = refl;
  within = λ p. absurd (omega arith);
  same_stack = refl;
  same_parents = refl;
}
  where
    sub_zero : (a b : ℕ) → a ≤ b → a - b ≡ 0
    sub_zero a b p = omega arith

expand_to-Expansion :
    (o s : ℕ) (w : World) → IsMetered w → o + s ≤ 1482849 → Expansion (o + s) w (expand_to o s w)
expand_to-Expansion o s w m small = elim (Bool-cases (ltb (length w.frame.memory) (o + s))) [
  | inr kept ↦
      let k : o + s ≤ length w.frame.memory = ltb→ge _ _ kept in
      rw (expand_to_kept o s w (omega arith) k) (expanded w (kept-Expanded (o + s) w k))
  | inl more ↦
      let h : length w.frame.memory < o + s = ltb→lt _ _ more in
      elim (Bool-cases (ltb w.frame.gas_limit (charged_world (o + s) w).frame.gas_used)) [
        | inl over ↦ rw (expand_to_refused o s w small h (ltb→lt _ _ over)) (
            too_dear (charged_world (o + s) w) (unfold charged_world in refl)
              (unfold charged_world in ltb→lt _ _ over))
        | inr fits ↦ rw (expand_to_grown o s w small h (ltb→ge _ _ fits)) (
            expanded (grown_world (o + s) w)
              (grown_world-Expanded (o + s) w m h small (ltb→ge _ _ fits)))
      ]
]

-- For a region that does not wrap around, with a counter below 2 ^ 31 and a memory within the
-- program's bound, the expansion is refused at once above the bound and changes nothing; or it is
-- refused behind the charge, with the counter above the limit and the memory as it was; or the
-- memory has grown by zeros to hold the region, and the charge is the difference of the costs of
-- the new and the old size, whatever expansions came before.
pub expand_memory-Expansion :
    (e : Env)
    → KeepsInts e.numbers
    → (offset size : ℕ) (w : World) → offset + size < 2 ^ 256
    → IsMetered w
    → Expansion (offset + size) w (expand_memory e offset size w)
unfolding expand_memory
expand_memory-Expansion e ints offset size w fits m =
    elim (Bool-cases (ltb 1482849 (offset + size))) [
      | inl large ↦ rw (wrap, large) (too_large (ltb→lt _ _ large))
      | inr small ↦
          let k : offset + size ≤ 1482849 = ltb→ge _ _ small in
          rw (wrap, small, ints offset (omega arith), ints size (omega arith))
            (expand_to-Expansion offset size w m k)
    ]
  where
    wrap : (offset + size) % 2 ^ 256 ≡ offset + size
    wrap = omega arith
