-- ===== src/Session.antt =====
-- src/session.c: the table of visitors' sessions, with the POST requests that wait for a solution.
pub mod Store
pub mod Lifecycle
pub mod Lookup
pub mod Create
pub mod Replay
pub mod Books
pub mod Finding
pub mod Handing
mod Examples
