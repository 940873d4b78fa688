-- ===== src/Machine/Progress/Reads.antt =====
-- The reads and writes of the state: accounts are free, code and slots cost a fixed amount or nothing.
use komozoievm.External.{Env}
use komozoievm.Context.State.{World, M, modify, done, Ctx}
use komozoievm.Context.Provider.{
  warm_account, slots_of, get_storage_slot, get_account_info, get_contract_code,
}
use komozoievm.Context.Overlay.{read_account, read_code, sload, sstore, tload, tstore}
use komozoievm.Machine.Progress.Steps.{Post, ended, Steps, Free, nothing}
use komozoievm.Common.{
  ℕ, ◌+◌, ◌^◌, ◌<◌, ◌≡◌, refl, List, Bool, true, false, length, arith, lookup, put, Bool-cases, inl,
  inr, Option-cases, subst, sym, ap,
}

pub read_account-Free : {p : Bool} (e : Env) (a : ℕ) → Free p (read_account e a)
unfolding get_account_info
read_account-Free e a = record {
  run = λ w small room. ended _ _ (record {
    same_limit = ground arith;
    same_code = ground arith;
    same_pc = λ _. ground arith;
    bounded = λ h. ground arith;
    at_least = ground arith;
    at_most = ground arith;
  });
}

pub read_code-Steps : {p : Bool} (e : Env) (a : ℕ) → Steps p nothing 2500 (read_code e a)
unfolding get_contract_code
read_code-Steps e a = record {
  run = λ w small room. ended _ _ (record {
    same_limit = ground arith;
    same_code = ground arith;
    same_pc = λ _. ground arith;
    bounded = λ h. ground arith;
    at_least = ground arith;
    at_most = ground arith;
  });
}

pub warm_account-Steps :
    {p : Bool} (e : Env) (a : ℕ) → Steps p nothing 2500 (modify (warm_account e a))
unfolding warm_account
warm_account-Steps e a = record {
  run = λ w small room. ended _ _ (record {
    same_limit = refl;
    same_code = refl;
    same_pc = λ _. refl;
    bounded = λ h. h;
    at_least = ground arith;
    at_most = ground arith;
  });
}

pub tload-Free : {p : Bool} (key : ℕ) → Free p (tload key)
unfolding tload
tload-Free key = record {
  run = λ w small room. ended _ _ (record {
    same_limit = ground arith;
    same_code = ground arith;
    same_pc = λ _. ground arith;
    bounded = λ h. ground arith;
    at_least = ground arith;
    at_most = ground arith;
  });
}

pub sload-Steps : {p : Bool} (e : Env) (key : ℕ) → Steps p nothing 2000 (sload e key)
unfolding sload
sload-Steps {p} e key = record { run = λ w small room. at w room }
  where
    at : (w : World) → w.frame.gas_used + 2000 < 2 ^ 32 → Post p nothing 2000 w (sload e key w)
    at w room = elim (Option-cases (lookup key (slots_of w.frame.address w.frame.storage))) [
      | inr (v, held) ↦
          rw (held, sload)
            (ended _ _ (record {
              same_limit = refl;
              same_code = refl;
              same_pc = λ _. refl;
              bounded = λ h. h;
              at_least = omega arith;
              at_most = omega arith;
            }))
      | inl empty ↦
          rw (empty, sload)
            (ended _ _ (record {
              same_limit = refl;
              same_code = refl;
              same_pc = λ _. refl;
              bounded = λ h. h;
              at_least = omega arith;
              at_most = omega arith;
            }))
    ]

-- A store leaves the counter, the limit, the code and the program counter, whatever it does.
pub stored-Free :
    {p : Bool} {m : M Bool}
    → ((w : World)
        → (b : Bool) × (w' : World) × (m w ≡ done b w')
          × (w'.frame.gas_limit ≡ w.frame.gas_limit)
          × (w'.frame.runcode ≡ w.frame.runcode)
          × (w'.frame.pc ≡ w.frame.pc)
          × (w'.frame.gas_used ≡ w.frame.gas_used)
          × (w'.frame.memory ≡ w.frame.memory))
    → Free p m
stored-Free {p} h = record {
  run = λ w small room.
      let (b, w', e, l, c, k, g, mem) = h w in
      subst (Post p nothing 0 w) (sym e) (
        ended b w' (record {
          same_limit = l;
          same_code = c;
          same_pc = λ _. k;
          bounded = λ h. omega (arith, ap (λ (m : List ℕ). length m) mem);
          at_least = omega arith;
          at_most = omega arith;
        }));
}

held_after : Ctx → ℕ → ℕ → Ctx
held_after c key v = record c {
  storage = put c.storage c.address (put (slots_of c.address c.storage) key v);
}

pub sstore-Free : {p : Bool} (e : Env) (key v : ℕ) → Free p (sstore e key v)
unfolding sstore held_after
sstore-Free e key v = stored-Free λ w. elim (Bool-cases w.frame.is_static) [
  | inl static ↦ (false, w, ground arith, refl, refl, refl, refl, refl)
  | inr free ↦ elim (Option-cases (lookup key (slots_of w.frame.address w.frame.storage))) [
    | inr (old, held) ↦ (
      true,
      record w { frame = held_after w.frame key v },
      ground arith,
      refl,
      refl,
      refl,
      refl,
      refl,
    )
    | inl empty ↦ (
      true,
      record w {
        frame = held_after w.frame key v;
        parents = (get_storage_slot e w.parents w.frame.address key e.block.state_block).1;
      },
      ground arith,
      refl,
      refl,
      refl,
      refl,
      refl,
    )
  ]
]

pub tstore-Free : {p : Bool} (key v : ℕ) → Free p (tstore key v)
unfolding tstore
tstore-Free key v = stored-Free λ w. elim (Bool-cases w.frame.is_static) [
  | inl static ↦ (false, w, ground arith, refl, refl, refl, refl, refl)
  | inr free ↦ (
    true,
    record w {
      frame = record (w.frame) {
        transient =
            put w.frame.transient w.frame.address
              (put (slots_of w.frame.address w.frame.transient) key v);
      };
    },
    ground arith,
    refl,
    refl,
    refl,
    refl,
    refl,
  )
]
