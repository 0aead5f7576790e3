-- ===== src/Listener.antt =====
-- src/listener.c, part by part.
pub mod Codes
pub mod Message
pub mod Queries
pub mod Fetch
pub mod ConfigCommand
pub mod Current
pub mod Statistics
pub mod Table
pub mod Worker
pub mod Release
pub mod Start
pub mod Replies
