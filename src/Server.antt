-- ===== src/Server.antt =====
-- actix-server-alt.
pub mod Limit
mod Runs
