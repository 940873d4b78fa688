-- ===== src/Python.antt =====
-- The Python module of src/python.cpp: the objects that it converts, its chain in memory, and the
-- calls that run transactions on a chain.
pub mod Objects
pub mod Values
pub mod Chain
pub mod Calls
pub mod Bindings
