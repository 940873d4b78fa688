-- ===== src/Tests/Overlays.antt =====
-- The theorems on the overlays of src/ethereum/EVMSimulationContext.cpp at small contexts.
use komozoievm.External.{KeepsInts}
use komozoievm.Context.State.{Ctx, World, done}
use komozoievm.Context.Memory.{expand_memory}
use komozoievm.Context.Memory.{calldata_load}
use komozoievm.Context.Memory.Access
use komozoievm.Context.State.{failed, static_state, insufficient_eth}
use komozoievm.Machine.Run.{transfer, world_of}
use komozoievm.Machine.Run.Transfer
use komozoievm.Machine.Run.Transfer.{after_transfer}
use komozoievm.Common.{take, drop, replicate, ◌++◌, ◌≤◌, ◌<◌, ℕ}
use komozoievm.Common.Bytes.{of_be}
use komozoievm.Context.Memory.Gas
use komozoievm.Context.Memory.Gas.{Expansion, IsMetered}
use komozoievm.Context.Overlay.{sload, sstore}
use komozoievm.Context.Overlay.Slots
use komozoievm.Context.Overlay.Caches
use komozoievm.Context.Provider.{get_account_info, get_contract_code, get_storage_slot}
use komozoievm.Context.Overlay.Below.{held_slot, slot_below}
use komozoievm.Context.Overlay.Slots.{held_transient}
use komozoievm.Context.Overlay.Transfers.{seen_balance}
use komozoievm.Context.Commit.{write_changes_to, add_from}
use komozoievm.Context.Commit.Lookup
use komozoievm.Context.Commit.Lookup.{Merged, DistinctSlots}
use komozoievm.Machine.Words.{exp_word, exp_squares}
use komozoievm.Machine.Words.Power
use komozoievm.Common.{
  ℕ, ◌+◌, ◌%◌, ◌^◌, ◌≡◌, refl, List, [], ◌∷◌, none, some, true, false, ◌⊎◌, ◌==◌, ◌&&◌, lookup,
  if◌then◌else◌, arith,
}
use komozoievm.Tests.Setting.{tested_numbers, empty_chain, context_with, world_with}

abbrev blank : World
blank = world_with [] []

abbrev caller_holds : Ctx
caller_holds = record (context_with [] []) { transient = (0xA0, (1, 5) ∷ []) ∷ [] }

abbrev callee_holds : Ctx
callee_holds = record (context_with [] []) {
  address = 0xB1;
  accounts = (0xB1, record { balance = 3; address = 0xB1; next_nonce = 0 }) ∷ [];
  storage = (0xB1, (1, 5) ∷ (2, 6) ∷ []) ∷ (0xA0, (1, 7) ∷ []) ∷ [];
  transient = (0xB1, (9, 9) ∷ []) ∷ [];
}

tested-KeepsInts : KeepsInts tested_numbers
tested-KeepsInts x h = ground arith

blank-IsMetered : IsMetered blank
blank-IsMetered = record { low_gas = omega arith; bounded = omega arith }

sstore_slots_example :
    ((false ≡ true) × (sstore empty_chain 1 5 blank ≡ done false blank))
    ⊎ ((w' : World) × (false ≡ false)
        × (sstore empty_chain 1 5 blank ≡ done true w')
        × ((a k : ℕ)
            → held_slot w'.frame a k
              ≡ (if (a == 0xA0) && (k == 1) then some 5 else held_slot blank.frame a k))
        × (w'.frame.gas_used ≡ 0))
sstore_slots_example = Slots.sstore_slots empty_chain 1 5 blank

-- A context that does not hold a slot, above one that does.
abbrev above : World
above = record blank {
  parents = record (context_with [] []) { storage = (0xA0, (1, 5) ∷ []) ∷ [] } ∷ [];
}

sload_slots_example :
    (v : ℕ) × (w' : World) × (sload empty_chain 1 above ≡ done v w')
    × ((a k : ℕ)
        → held_slot w'.frame a k
          ≡ (if (a == 0xA0) && (k == 1) then some v else held_slot above.frame a k))
    × (((held_slot above.frame 0xA0 1 ≡ some v)
          × (w'.frame.gas_used ≡ 0)
          × (w'.parents ≡ above.parents))
        ⊎ ((held_slot above.frame 0xA0 1 ≡ none)
            × (v ≡ slot_below empty_chain above.parents 0xA0 1)
            × (w'.frame.gas_used ≡ (0 + 2000) % 2 ^ 32)))
sload_slots_example = Slots.sload_slots empty_chain 1 above

write_changes_to-Merged_example :
    ((false ≡ false)
      × Merged callee_holds caller_holds (write_changes_to callee_holds caller_holds))
    ⊎ ((false ≡ true)
        × (write_changes_to callee_holds caller_holds
            ≡ record caller_holds { warm_accounts = add_from [] [] }))
unfolding lookup
write_changes_to-Merged_example =
    Lookup.write_changes_to-Merged callee_holds caller_holds (refl, tt)
      (refl, (refl, (refl, tt)), (refl, (refl, tt), tt)) (refl, (refl, tt), tt)

expand_memory-Expansion_example : Expansion 96 blank (expand_memory empty_chain 64 32 blank)
expand_memory-Expansion_example =
    Gas.expand_memory-Expansion empty_chain tested-KeepsInts 64 32 blank (omega arith)
      blank-IsMetered

exp_word-pow_example :
    (exp_word 3 5 ≡ 3 ^ 5 % 2 ^ 256)
    × (((exp_squares 256 3 5).1 % 2 ≡ 1) ⊎ ((exp_squares 256 3 5).1 ≡ 0))
exp_word-pow_example = Power.exp_word-pow 3 5 (omega arith)

abbrev paying : World
paying = world_of (record (context_with [] []) { value = 30 })

transfer_balances_example :
    ((false ≡ true) × (transfer empty_chain paying ≡ done (some (failed static_state)) paying))
    ⊎ ((w' : World) × (false ≡ false)
        × (((seen_balance empty_chain paying 0xB0 < 30)
              × (transfer empty_chain paying ≡ done (some (failed insufficient_eth)) w'))
            ⊎ ((30 ≤ seen_balance empty_chain paying 0xB0)
                × (transfer empty_chain paying ≡ done none w')
                × ((b : ℕ)
                    → seen_balance empty_chain w' b
                      ≡ after_transfer empty_chain paying 0xB0 0xA0 30 b))))
transfer_balances_example =
    Transfer.transfer_balances empty_chain paying (ground arith) (ground arith)

calldata_load_lem_example :
    calldata_load (7 ∷ 8 ∷ []) 1 ≡ of_be 0 (take 32 (drop 1 (7 ∷ 8 ∷ []) ++ replicate 32 0))
calldata_load_lem_example = Access.calldata_load_lem (7 ∷ 8 ∷ []) 1

-- A context below which another holds a slot and an account.
abbrev stacked : List Ctx
stacked = context_with [] [] ∷ callee_holds ∷ []

-- The contexts behind a read of that slot, of a code and of that account.
abbrev slot_read : List Ctx
slot_read = (get_storage_slot empty_chain stacked 0xB1 2 99).1

abbrev code_read : List Ctx
code_read = (get_contract_code empty_chain slot_read 0xA0).1

abbrev all_read : List Ctx
all_read = (get_account_info empty_chain code_read 0xB1 99).1
