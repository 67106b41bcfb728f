-- ===== src/H1.antt =====
-- actix-http-alt: HTTP/1.
pub mod Chunked
pub mod Kind
pub mod Decode
pub mod Dispatcher
pub mod Buf
pub mod Body
pub mod Header
pub mod Context
pub mod Head
pub mod Socket
pub mod Encode
mod Runs
mod IoRuns
mod HeadRuns
mod RespondRuns
