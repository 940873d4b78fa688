-- ===== src/Curve.antt =====
-- The curve of src/crypto/Secp256k1.h and src/crypto/Secp256k1.cpp.
pub mod Euler
pub mod Field
pub mod Folding
pub mod Products
pub mod Sums
pub mod Points
pub mod Keys
pub mod Returns
pub mod Totals
pub mod Roots
pub mod Signing
pub mod Quotients
