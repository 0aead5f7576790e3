-- ===== src/Http.antt =====
-- src/http.c, part by part.
pub mod Error
pub mod Codes
pub mod Request
pub mod Params
pub mod Parser
pub mod Response
pub mod Release
