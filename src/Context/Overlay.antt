-- ===== src/Context/Overlay.antt =====
-- Storage, transient storage and balances of the running context: `sload`, `sstore`, `tload`,
-- `tstore`, `payAccount`, `deductAccount` and `update…` of src/ethereum/EVMSimulationContext.
pub mod Below
pub mod Caches
pub mod Slots
pub mod Transfers
use komozoievm.External.{Env, Account}
use komozoievm.Context.State.{Ctx, M, Res, done, World, frame, modify, pure, charge, ◌>>=◌, ◌>>◌}
use komozoievm.Context.Provider.{get_account_info, get_contract_code, get_storage_slot, slots_of}
use komozoievm.Common.{
  ℕ, ◌+◌, ◌-◌, ◌%◌, ◌^◌, List, [], ◌∷◌, Option, none, some, Bool, true, false, Map, lookup, put,
  put_from, ltb, ◌==◌, if◌then◌else◌,
}

-- The head of a list of contexts that a read has rebuilt, as the world's running context.
abbrev pub with_frames : World → List Ctx → World
with_frames w [] = w
with_frames w (c ∷ cs) = record w { frame = c; parents = cs }

abbrev pub read_account : Env → ℕ → M Account
read_account e a w =
    let r = get_account_info e (w.frame ∷ w.parents) a 0 in done r.0 (with_frames w r.1)

abbrev pub read_code : Env → ℕ → M (List ℕ)
read_code e a w =
    let r = get_contract_code e (w.frame ∷ w.parents) a in done r.0 (with_frames w r.1)

-- `sload`: a slot that the context does not hold costs 2000 and is kept.
unfoldable pub sload : Env → ℕ → M ℕ
sload e key w =
    let c = w.frame in
    let slots = slots_of c.address c.storage in
    elim (lookup key slots) [
      | some v ↦ done v (record w { frame = record c { storage = put c.storage c.address slots } })
      | none ↦
          let below = get_storage_slot e w.parents c.address key e.block.state_block in
          let v : ℕ = elim (below.0) [ none ↦ 0 | some v ↦ v ] in
          done v (record w {
            frame = record c {
              storage = put c.storage c.address (put slots key v);
              gas_used = (c.gas_used + 2000) % 2 ^ 32;
            };
            parents = below.1;
          })
    ]

-- `sstore`: refused in a static context. A slot that is not held yet is read below first.
unfoldable pub sstore : Env → ℕ → ℕ → M Bool
sstore e key v w =
    let c = w.frame in
    let slots = slots_of c.address c.storage in
    let held = record c { storage = put c.storage c.address (put slots key v) } in
    if c.is_static then done false w else elim (lookup key slots) [
      | some _ ↦ done true (record w { frame = held })
      | none ↦
          let below = get_storage_slot e w.parents c.address key e.block.state_block in
          done true (record w { frame = held; parents = below.1 })
    ]

-- `tload`: a slot that is not held is asked of the calling context, under that one's address.
unfoldable pub tload_frames : List Ctx → ℕ → ℕ × List Ctx
tload_frames [] key = (0, [])
tload_frames (c ∷ cs) key =
    let slots = slots_of c.address c.transient in
    elim (lookup key slots) [
      | some v ↦ (v, record c { transient = put c.transient c.address slots } ∷ cs)
      | none ↦
          let below = tload_frames cs key in
          let kept : Map ℕ = elim cs [ [] ↦ slots | _ ∷ _ ↦ put slots key below.0 ] in
          (below.0, record c { transient = put c.transient c.address kept } ∷ below.1)
    ]

unfoldable pub tload : ℕ → M ℕ
unfolding tload_frames
tload key w = let r = tload_frames (w.frame ∷ w.parents) key in done r.0 (with_frames w r.1)

unfoldable pub tstore : ℕ → ℕ → M Bool
tstore key v w =
    let c = w.frame in
    if c.is_static
    then done false w
    else done true (record w {
      frame = record c {
        transient = put c.transient c.address (put (slots_of c.address c.transient) key v);
      };
    })

-- `setStorageOverride`, where a null map of slots stands for none.
unfoldable pub set_storage_override : Ctx → ℕ → ℕ → ℕ → Ctx
set_storage_override c contract key v = record c {
  storage = put c.storage contract (put (slots_of contract c.storage) key v);
}

abbrev with_balance : Account → ℕ → Account
with_balance info b = record info { balance = b }

-- The account that the context holds, or the one of the contexts below.
abbrev held_account : Env → ℕ → World → Account × List Ctx
held_account e a w = elim (lookup a w.frame.accounts) [
  | some info ↦ (info, w.parents)
  | none ↦ get_account_info e w.parents a e.block.state_block
]

-- `payAccount`: a 256-bit balance wraps.
unfoldable pub pay_account : Env → ℕ → ℕ → M Bool
pay_account e a amount w =
    let c = w.frame in
    let held = held_account e a w in
    let paid = with_balance held.0 ((held.0.balance + amount) % 2 ^ 256) in
    if c.is_static
    then done false w
    else done true
        (record w { frame = record c { accounts = put c.accounts a paid }; parents = held.1 })

-- `deductAccount`: the account is cached even where the balance is too small.
unfoldable pub deduct_account : Env → ℕ → ℕ → M Bool
deduct_account e a amount w =
    let c = w.frame in
    let held = held_account e a w in
    let short = ltb held.0.balance amount in
    let left = if short then held.0 else with_balance held.0 (held.0.balance - amount) in
    if c.is_static
    then done false w
    else done (if short then false else true)
        (record w { frame = record c { accounts = put c.accounts a left }; parents = held.1 })

-- `updateAccount`, `saveContractCode`, `updateStorageSlots` and `updateTransientSlots` of a
-- context. The answer is whether the update was made.
unfoldable pub update_account : ℕ → Account → Ctx → Bool × Ctx
update_account a info c =
    if c.is_static then (false, c) else (true, record c { accounts = put c.accounts a info })

unfoldable pub save_contract_code : ℕ → List ℕ → Ctx → Bool × Ctx
save_contract_code a code c =
    if c.is_static then (false, c) else (true, record c { runcodes = put c.runcodes a code })

unfoldable pub update_storage_slots : ℕ → Map ℕ → Ctx → Bool × Ctx
update_storage_slots a entries c =
    let merged : Map ℕ = elim (lookup a c.storage) [
      | none ↦ entries
      | some slots ↦ put_from slots entries
    ] in
    if c.is_static then (false, c) else (true, record c { storage = put c.storage a merged })

unfoldable pub update_transient_slots : ℕ → Map ℕ → Ctx → Bool × Ctx
update_transient_slots a entries c =
    let merged : Map ℕ = elim (lookup a c.transient) [
      | none ↦ entries
      | some slots ↦ put_from slots entries
    ] in
    if c.is_static then (false, c) else (true, record c { transient = put c.transient a merged })
