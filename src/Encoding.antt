-- ===== src/Encoding.antt =====
-- http-encoding: content encodings of HTTP bodies.
pub mod Coding
pub mod Coder
pub mod Compress
pub mod Negotiate
mod Runs
