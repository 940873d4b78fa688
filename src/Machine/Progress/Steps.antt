-- ===== src/Machine/Progress/Steps.antt =====
-- Bounds on the gas that a computation takes, and the rules to put them together.
use komozoievm.Context.State.{
  Ctx, World, Res, done, fault, timeout, M, Outcome, frame, modify, pure, fail, pop_from, pop, push,
  charge, ◌>>=◌, ◌>>◌,
}
use komozoievm.Common.{
  ℕ, ◌+◌, ◌^◌, ◌≤◌, ◌<◌, ◌≡◌, refl, ◌∙◌, List, [], ◌∷◌, none, some, Bool, true, false,
  if◌then◌else◌, length, max, arith,
}

-- A round bound on the memory, above the 1482849 bytes that the program allows itself.
abbrev pub cap : ℕ
cap = 2 ^ 21

-- From one world to another the gas counter of the running context rose by `lo` at least and `hi`
-- at most, and its gas limit and code are the same; where `p` holds, so is the program counter. A
-- memory that was within the cap still is.
pub record Advance (p : Bool) (lo hi : ℕ) (w w' : World) : Type 0 where
  pub same_limit : w'.frame.gas_limit ≡ w.frame.gas_limit
  pub same_code : w'.frame.runcode ≡ w.frame.runcode
  pub same_pc : p ≡ true → w'.frame.pc ≡ w.frame.pc
  pub at_least : w.frame.gas_used + lo ≤ w'.frame.gas_used
  pub bounded : length w.frame.memory ≤ cap → length w'.frame.memory ≤ cap
  pub at_most : w'.frame.gas_used ≤ w.frame.gas_used + hi

pub data Post {A : Type 0} (p : Bool) (low : A → ℕ) (hi : ℕ) (w : World) : Res A → Type 0 where
  ended : (a : A) (w' : World) → Advance p (low a) hi w w' → Post p low hi w (done a w')
  faulted : Post p low hi w fault

-- A computation that ends or faults, at a cost in the bounds, wherever the counter cannot wrap.
pub record Steps {A : Type 0} (p : Bool) (low : A → ℕ) (hi : ℕ) (m : M A) : Type 0 where
  pub run :
      (w : World)
      → length w.frame.memory ≤ cap
      → w.frame.gas_used + hi < 2 ^ 32
      → Post p low hi w (m w)

abbrev pub nothing : {A : Type 0} → A → ℕ
nothing a = 0

-- The run goes on behind an outcome of success without return data.
abbrev pub goes_on : Outcome → ℕ
goes_on o = elim (o.return_data) [ none ↦ if o.success then 1 else 0 | some _ ↦ 0 ]

abbrev pub Free : {A : Type 0} → Bool → M A → Type 0
Free p m = Steps p nothing 0 m

pub Steps-weaken :
    {A : Type 0} {p : Bool} {low low' : A → ℕ} {hi hi' : ℕ} {m : M A}
    → Steps p low hi m
    → ((a : A) → low' a ≤ low a)
    → hi ≤ hi'
    → Steps p low' hi' m
Steps-weaken {A} {p} {low} {low'} {hi} {hi'} {m} s le bound = record {
  run = λ w small room. go w (m w) (s.run w small (omega arith));
}
  where
    go : (w : World) (r : Res A) → Post p low hi w r → Post p low' hi' w r
    go w _ (ended a w' v) = ended a w' (record {
      same_limit = v.same_limit;
      same_code = v.same_code;
      same_pc = v.same_pc;
      bounded = v.bounded;
      at_least = omega (arith, le a);
      at_most = omega arith;
    })
    go w _ faulted = faulted

module _ {A B : Type 0} {p : Bool} {low : B → ℕ} {h₁ h₂ : ℕ} {m : M A} {f : A → M B} (lo : ℕ) where
  -- The costs of two computations add up.
  pub Steps-bind_from :
      Steps p (λ _. lo) h₁ m
      → ((a : A) → Steps p low h₂ (f a))
      → Steps p (λ b. lo + low b) (h₁ + h₂) (m >>= f)
  Steps-bind_from s t = record {
    run = λ w small room. go w small room (m w) (s.run w small (omega arith));
  }
    where
      join :
          (w w₁ w₂ : World) (b : B)
          → Advance p lo h₁ w w₁
          → Advance p (low b) h₂ w₁ w₂
          → Advance p (lo + low b) (h₁ + h₂) w w₂
      join w w₁ w₂ b u v = record {
        same_limit = v.same_limit ∙ u.same_limit;
        same_code = v.same_code ∙ u.same_code;
        same_pc = λ e. v.same_pc e ∙ u.same_pc e;
        bounded = λ h. v.bounded (u.bounded h);
        at_least = omega arith;
        at_most = omega arith;
      }

      after :
          (w w₁ : World)
          → Advance p lo h₁ w w₁
          → (r : Res B) → Post p low h₂ w₁ r
          → Post p (λ b. lo + low b) (h₁ + h₂) w r
      after w w₁ u _ (ended b w₂ v) = ended b w₂ (join w w₁ w₂ b u v)
      after w w₁ u _ faulted = faulted

      go :
          (w : World)
          → length w.frame.memory ≤ cap
          → w.frame.gas_used + (h₁ + h₂) < 2 ^ 32
          → (r : Res A) → Post p (λ _. lo) h₁ w r
          → Post p
              (λ b. lo + low b)
              (h₁ + h₂)
              w
              (elim r [ done a w' ↦ f a w' | fault ↦ fault | timeout ↦ timeout ])
      go w small room _ (ended a w₁ u) =
          after w w₁ u (f a w₁) ((t a).run w₁ (u.bounded small) (omega arith))
      go w small room _ faulted = faulted

module _ {A B : Type 0} {p : Bool} {low : B → ℕ} {hi : ℕ} {m : M A} {f : A → M B} where
  -- Behind a computation that is free.
  pub free-then : Free p m → ((a : A) → Steps p low hi (f a)) → Steps p low hi (m >>= f)
  free-then s t = Steps-weaken (Steps-bind_from 0 s t) (λ b. omega arith) (omega arith)

  pub cost-then :
      {h : ℕ}
      → Steps p nothing h m
      → ((a : A) → Steps p low hi (f a))
      → Steps p low (h + hi) (m >>= f)
  cost-then s t = Steps-weaken (Steps-bind_from 0 s t) (λ b. omega arith) (omega arith)

pub pure-Steps : {A : Type 0} {p : Bool} {low : A → ℕ} (a : A) → low a ≡ 0 → Steps p low 0 (pure a)
pure-Steps a z = record {
  run = λ w small room. ended a w (record {
    same_limit = refl;
    same_code = refl;
    same_pc = λ _. refl;
    bounded = λ h. h;
    at_least = omega arith;
    at_most = omega arith;
  });
}

pub pure-Free : {A : Type 0} {p : Bool} (a : A) → Free p (pure a)
pure-Free a = pure-Steps a refl

pub fail-Steps : {A : Type 0} {p : Bool} {low : A → ℕ} {hi : ℕ} → Steps p low hi (fail {A = A})
fail-Steps = record { run = λ w small room. faulted }

goes_on-le : (o : Outcome) → goes_on o ≤ 1
goes_on-le o = ground arith

charge_lem : {p : Bool} (g : ℕ) → Steps p (λ _. g) g (charge g)
unfolding charge
charge_lem g = record {
  run = λ w small room. ended tt _ (record {
    same_limit = refl;
    same_code = refl;
    same_pc = λ _. refl;
    bounded = λ h. h;
    at_least = omega arith;
    at_most = omega arith;
  });
}

-- `gasUsed += g;` in front of a computation: with a positive charge the outcome may be any.
pub pay-then :
    {p : Bool} (g : ℕ) {h : ℕ} {k : M Outcome}
    → 1 ≤ g
    → Steps p nothing h k
    → Steps p goes_on (g + h) (charge g >> k)
pay-then g positive s =
    Steps-weaken (Steps-bind_from g (charge_lem g) (λ _. s)) (λ o. omega (arith, goes_on-le o))
      (omega arith)

pub charge-Steps : {p : Bool} (g : ℕ) → Steps p nothing g (charge g)
charge-Steps g = Steps-weaken (charge_lem g) (λ _. omega arith) (omega arith)

pub if-Steps :
    {A : Type 0} {p : Bool} {low : A → ℕ} {hi : ℕ} (b : Bool) {m n : M A}
    → Steps p low hi m
    → Steps p low hi n
    → Steps p low hi (if b then m else n)
if-Steps true s t = s
if-Steps false s t = t

pub frame-Free : {p : Bool} → Free p frame
frame-Free = record { run = λ w small room. (pure-Free w.frame).run w small room }

-- A change of the running context that leaves the counter, the limit and the code.
pub modify-Free :
    {p : Bool} (f : Ctx → Ctx)
    → ((c : Ctx)
        → ((f c).gas_used ≡ c.gas_used)
          × ((f c).gas_limit ≡ c.gas_limit)
          × ((f c).runcode ≡ c.runcode)
          × (p ≡ true → (f c).pc ≡ c.pc)
          × (length (f c).memory ≤ max (length c.memory) cap))
    → Free p (modify f)
modify-Free f same = record {
  run = λ w small room. ended tt _ (record {
    same_limit = (same w.frame).1;
    same_code = (same w.frame).2;
    same_pc = (same w.frame).3;
    bounded = λ h. omega (arith, (same w.frame).4);
    at_least = omega (arith, (same w.frame).0);
    at_most = omega (arith, (same w.frame).0);
  });
}

pop_from-Post : {p : Bool} (s : List ℕ) (w : World) → Post p nothing 0 w (pop_from s w)
unfolding pop_from
pop_from-Post [] w = faulted
pop_from-Post (x ∷ s) w = ended x _ (record {
  same_limit = refl;
  same_code = refl;
  same_pc = λ _. refl;
  bounded = λ h. h;
  at_least = omega arith;
  at_most = omega arith;
})

pub pop-Free : {p : Bool} → Free p pop
unfolding pop
pop-Free = record { run = λ w small room. pop_from-Post w.frame.stack w }

pub push-Free : {p : Bool} (x : ℕ) → Free p (push x)
unfolding push
push-Free x = record {
  run = λ w small room. ended tt _ (record {
    same_limit = refl;
    same_code = refl;
    same_pc = λ _. refl;
    bounded = λ h. h;
    at_least = omega arith;
    at_most = omega arith;
  });
}

-- Each branch may use what its test has found.
pub if_known-Steps :
    {A : Type 0} {p : Bool} {low : A → ℕ} {hi : ℕ} (b : Bool) {m n : M A}
    → (b ≡ true → Steps p low hi m)
    → (b ≡ false → Steps p low hi n)
    → Steps p low hi (if b then m else n)
if_known-Steps true s t = s refl
if_known-Steps false s t = t refl

pub at_most-Steps :
    {A : Type 0} {p : Bool} {hi hi' : ℕ} {m : M A}
    → Steps p nothing hi m
    → hi ≤ hi'
    → Steps p nothing hi' m
at_most-Steps s h = Steps-weaken s (λ a. omega arith) h

pub le_max : (n : ℕ) → n ≤ max n cap
le_max n = omega arith
