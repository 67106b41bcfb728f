-- ===== src/H1/Kind.antt =====
-- `Kind` of actix-http-alt/src/h1/proto/codec.rs: the coders for the bodies of requests and responses.
use actix_server_alt.Prelude.{ℕ, Bool}
use actix_server_alt.H1.Chunked.{ChunkedState}

pub data Kind : Type 0 where
  length : ℕ → Kind
  decode_chunked : ChunkedState → ℕ → Kind
  encode_chunked : Bool → Kind
  eof plain_chunked : Kind
