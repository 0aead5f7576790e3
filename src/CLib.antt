-- ===== src/CLib.antt =====
-- The functions of the C library that the daemon calls on strings.
pub mod Heap
pub mod Text
pub mod Token
pub mod Decimal
