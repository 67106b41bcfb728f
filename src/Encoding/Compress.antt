-- ===== src/Encoding/Compress.antt =====
-- http-encoding/src/writer.rs and the macro `async_code_impl` of http-encoding/src/coder.rs: a codec of
-- another crate that writes into a buffer, of which each item takes what is there.
pub mod RoundTrip
use actix_server_alt.Prelude.{
  ℕ, Option, none, some, List, [], ◌∷◌, ◌++◌, length, ltb, if◌then◌else◌, Result, ok, err, ◌>>=◌,
}
use actix_server_alt.Encoding.Coder.{AsyncCode}

pub record Writer : Type 0 where
  pub buf : List ℕ

-- `Writer::new`
unfoldable pub new : Writer
new = record { buf = [] }

-- `Writer::take`
unfoldable pub take : Writer → Writer × List ℕ
take w = (record { buf = [] }, w.buf)

-- `write`, which takes all the bytes
unfoldable pub write : Writer → List ℕ → Writer × ℕ
write w buf = (record { buf = w.buf ++ buf }, length buf)

-- What a codec of the crates flate2 and brotli2 makes of the bytes that it is given, when it is flushed,
-- and when it is finished
pub record Codec (S IoError : Type 0) : Type 0 where
  pub feed : S → List ℕ → Result IoError (S × List ℕ)
  pub flush : S → Result IoError (S × List ℕ)
  pub finish : S → Result IoError (List ℕ)

-- The codec with its writer, as `GzEncoder<Writer>`
pub record Coding (S : Type 0) : Type 0 where
  pub state : S
  pub writer : Writer

abbrev pub some_bytes : List ℕ → Option (List ℕ)
some_bytes [] = none
some_bytes (b ∷ bytes) = some (b ∷ bytes)

module _ {S IoError : Type 0} (codec : Codec S IoError) where
  -- What the codec makes, it writes into the writer.
  unfoldable pub written : Writer → S × List ℕ → Coding S
  unfolding write
  written w (s, out) = record { state = s; writer = (write w out).0 }

  -- The function `code` in the macro
  unfoldable pub code_in_place : Coding S → List ℕ → Result IoError (Coding S × Option (List ℕ))
  unfolding written take
  code_in_place this buf = do
    fed ← codec.feed this.state buf
    let this' = written this.writer fed
    flushed ← codec.flush this'.state
    let this'' = written this'.writer flushed
    let (writer, b) = take this''.writer
    ok (record this'' { writer = writer }, some_bytes b)

  -- `AsyncCode::code`, with the size below which the item is coded in place, and `spawn_blocking`, which
  -- codes it on another thread
  unfoldable pub code :
      ℕ
      → (Result IoError (Coding S × Option (List ℕ)) → Result IoError (Coding S × Option (List ℕ)))
      → Coding S
      → List ℕ
      → Result IoError (Coding S × Option (List ℕ))
  unfolding code_in_place
  code in_place_size spawn_blocking this item =
      if ltb (length item) in_place_size
      then code_in_place this item
      else spawn_blocking (code_in_place this item)

  -- `AsyncCode::code_eof`
  unfoldable pub code_eof : Coding S → Result IoError (Option (List ℕ))
  unfolding take write
  code_eof this = do
    out ← codec.finish this.state
    ok (some_bytes (take (write this.writer out).0).1)

  unfoldable pub coder :
      ℕ
      → (Result IoError (Coding S × Option (List ℕ)) → Result IoError (Coding S × Option (List ℕ)))
      → AsyncCode (Coding S) (List ℕ) (List ℕ) IoError
  unfolding code code_eof
  coder in_place_size spawn_blocking = record {
    code = code in_place_size spawn_blocking;
    code_eof = code_eof;
  }
