-- ===== src/Util.antt =====
-- src/util.c, part by part.
pub mod Lines
pub mod Files
pub mod Units
pub mod Dates
