-- ===== src/Util.antt =====
-- actix-http-alt/src/util.
pub mod Buf
pub mod BufList
pub mod KeepAlive
mod Runs
