-- ===== src/Database.antt =====
-- src/dbhandler.c and include/dbhandler.h: the queries and one message of db_thread_event_loop.
-- What SQLite answers is a parameter.
pub mod Sqlite
pub mod Fetch
pub mod Thread
pub mod Start
