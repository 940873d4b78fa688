-- ===== src/Machine.antt =====
-- src/ethereum/EVM.cpp: the instructions, calls between contracts, and whole transactions.
pub mod Op
pub mod Words
pub mod Data
pub mod Control
pub mod Precompiled
pub mod Call
pub mod Progress
pub mod Run
