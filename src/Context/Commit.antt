-- ===== src/Context/Commit.antt =====
-- `writeChangesTo` of src/ethereum/EVMSimulationContext.cpp: the overlays of a finished call go to
-- the calling context, or as a list of updates to the state provider. The maps are walked entry by
-- entry. Contract code is not written (that loop is commented out in the source).
pub mod Lookup
use komozoievm.External.{Account}
use komozoievm.Context.State.{Ctx}
use komozoievm.Context.Overlay.{update_account, update_storage_slots, update_transient_slots}
use komozoievm.Common.{ℕ, List, [], ◌∷◌, ◌++◌, Map, Bool, ◌==◌, if◌then◌else◌, contains}

unfoldable pub write_accounts : Map Account → Ctx → Ctx
write_accounts [] dst = dst
write_accounts ((a, info) ∷ rest) dst = write_accounts rest (update_account a info dst).1

unfoldable pub write_storage : Map (Map ℕ) → Ctx → Ctx
write_storage [] dst = dst
write_storage ((a, slots) ∷ rest) dst = write_storage rest (update_storage_slots a slots dst).1

unfoldable pub write_transient : Map (Map ℕ) → Ctx → Ctx
write_transient [] dst = dst
write_transient ((a, slots) ∷ rest) dst =
    write_transient rest (update_transient_slots a slots dst).1

-- `addFrom` of a hash set.
unfoldable pub add_from : List ℕ → List ℕ → List ℕ
unfolding contains
add_from s [] = s
add_from s (a ∷ rest) = add_from (if contains a s then s else a ∷ s) rest

-- `writeChangesTo(EVMSimulationContext&)`.
unfoldable pub write_changes_to : Ctx → Ctx → Ctx
unfolding write_accounts write_storage write_transient add_from
write_changes_to c dst =
    let dst₁ = write_storage c.storage (write_accounts c.accounts dst) in
    let dst₂ = record dst₁ { warm_accounts = add_from dst₁.warm_accounts c.warm_accounts } in
    write_transient c.transient dst₂

-- What `writeChangesTo(StateProvider&)` calls on a provider, in order.
pub data Update : Type 0 where
  account : ℕ → Account → Update
  slots : ℕ → Map ℕ → Update

unfoldable pub account_updates : Map Account → List Update
account_updates [] = []
account_updates ((a, info) ∷ rest) = account a info ∷ account_updates rest

unfoldable pub slot_updates : Map (Map ℕ) → List Update
slot_updates [] = []
slot_updates ((a, entries) ∷ rest) = slots a entries ∷ slot_updates rest

unfoldable pub updates_of : Ctx → List Update
unfolding account_updates slot_updates
updates_of c = account_updates c.accounts ++ slot_updates c.storage
