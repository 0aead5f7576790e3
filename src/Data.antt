-- ===== src/Data.antt =====
-- src/datastructures.c: the lists of entries and of pairs of keys and values, and their JSON
-- values.
pub mod KeyValues
pub mod Entries
pub mod Json
pub mod Release
