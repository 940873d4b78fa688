-- ===== src/Context.antt =====
-- src/ethereum/EVMSimulationContext.{h,cpp}: the state of one call and its overlays.
pub mod State
pub mod Memory
pub mod Provider
pub mod Overlay
pub mod Commit
