-- ===== src/Ws.antt =====
-- http-ws: the WebSocket protocol.
pub mod Proto
pub mod Mask
pub mod Frame
pub mod Codec
pub mod Stream
pub mod Handshake
mod FrameRuns
mod Runs
