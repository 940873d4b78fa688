-- ===== src/Tests.antt =====
-- Concrete runs of the model, and the theorems at concrete inputs.
mod Setting
mod Programs
mod Overlays
mod Runs
mod Machines
mod Encodings
mod Heaps
mod Curves
mod Envelopes
mod Handles
mod Pythons
mod Texts
mod Buffers
