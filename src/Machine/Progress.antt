-- ===== src/Machine/Progress.antt =====
-- How far an instruction of src/ethereum/EVM.cpp moves the gas counter: bounds from below and from
-- above, put together along the monad.
pub mod Steps
pub mod Memory
pub mod Plain
pub mod Reads
pub mod Instructions
pub mod Copying
pub mod Ending
pub mod Tick
