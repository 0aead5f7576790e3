-- ===== src/Trigger.antt =====
-- src/trigger.c, part by part.
pub mod Codes
pub mod Floats
pub mod Parse
pub mod Load
pub mod Eval
pub mod Args
pub mod Exec
pub mod Listing
