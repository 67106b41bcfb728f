-- ===== src/H1/Chunked.antt =====
-- actix-http-alt/src/h1/proto/codec.rs. A `BytesMut` is the list of its bytes, and a `u64` is a number
-- below 2 ^ 64 whose arithmetic wraps, as it does in a release build.
pub mod Steps
use actix_server_alt.Prelude.{
  ℕ, zero, suc, ◌+◌, ◌-◌, ◌*◌, ◌%◌, ◌^◌, Bool, true, false, ◌&&◌, ◌||◌, Option, none, some, List,
  [], ◌∷◌, length, take, drop, ltb, leb, ◌==◌, if◌then◌else◌, Result, ok, err, Poll, ready, pending,
}

pub data ChunkedState : Type 0 where
  size size_lws extension size_lf body body_cr body_lf end_cr end_lf end : ChunkedState

-- The `io::Error`s of the decoder, by their messages.
pub data IoError : Type 0 where
  invalid_size invalid_size_lws invalid_size_lf invalid_body_cr invalid_body_lf : IoError
  invalid_end_cr invalid_end_lf : IoError

abbrev pub u64_mod : ℕ
u64_mod = 2 ^ 64

-- What a step leaves: the buffer, the size, the chunk that it cut off, and the next state.
pub record Stepped : Type 0 where
  pub rdr : List ℕ
  pub size : ℕ
  pub buf : Option (List ℕ)
  pub poll : Poll (Result IoError ChunkedState)

abbrev pub go : List ℕ → ℕ → ChunkedState → Stepped
go rdr n state = record { rdr = rdr; size = n; buf = none; poll = ready (ok state) }

abbrev pub fail : List ℕ → ℕ → IoError → Stepped
fail rdr n e = record { rdr = rdr; size = n; buf = none; poll = ready (err e) }

-- `return Poll::Pending` of the macro `byte!`, on an empty buffer.
abbrev pub wait : ℕ → Stepped
wait n = record { rdr = []; size = n; buf = none; poll = pending }

abbrev pub between : ℕ → ℕ → ℕ → Bool
between lo hi b = leb lo b && leb b hi

-- `*size *= radix; *size += digit`
unfoldable pub push_digit : ℕ → ℕ → ℕ
push_digit n digit = (n * 16 % u64_mod + digit) % u64_mod

unfoldable pub read_size : List ℕ → ℕ → Stepped
read_size [] n = wait n
read_size (b ∷ rdr) n =
    if between b'0' b'9' b
    then go rdr (push_digit n (b - b'0')) ChunkedState.size
    else if between b'a' b'f' b
    then go rdr (push_digit n (b + 10 - b'a')) ChunkedState.size
    else if between b'A' b'F' b
    then go rdr (push_digit n (b + 10 - b'A')) ChunkedState.size
    else if b == 9 || b == 32
    then go rdr n size_lws
    else if b == b';'
    then go rdr n extension
    else if b == 13
    then go rdr n size_lf
    else fail rdr n invalid_size

unfoldable pub read_size_lws : List ℕ → ℕ → Stepped
read_size_lws [] n = wait n
read_size_lws (b ∷ rdr) n =
    if b == 9 || b == 32
    then go rdr n size_lws
    else if b == b';'
    then go rdr n extension
    else if b == 13
    then go rdr n size_lf
    else fail rdr n invalid_size_lws

unfoldable pub read_extension : List ℕ → ℕ → Stepped
read_extension [] n = wait n
read_extension (b ∷ rdr) n = if b == 13 then go rdr n size_lf else go rdr n extension

unfoldable pub read_size_lf : List ℕ → ℕ → Stepped
read_size_lf [] n = wait n
read_size_lf (b ∷ rdr) n =
    if b == 10 && ltb 0 n
    then go rdr n body
    else if b == 10 && n == 0
    then go rdr n end_cr
    else fail rdr n invalid_size_lf

-- `read_body` with a buffer that is not empty
abbrev cut_body : List ℕ → ℕ → Stepped
cut_body rdr rem =
    if ltb (length rdr) rem
    then (record {
      rdr = [];
      size = rem - length rdr;
      buf = some rdr;
      poll = ready (ok (if ltb 0 (rem - length rdr) then body else body_cr));
    })
    else (record {
      rdr = drop rem rdr;
      size = 0;
      buf = some (take rem rdr);
      poll = ready (ok body_cr);
    })

unfoldable pub read_body : List ℕ → ℕ → Stepped
read_body rdr rem = if length rdr == 0 then go rdr rem body else cut_body rdr rem

-- A state that accepts one byte and goes to the next.
abbrev pub expect : ℕ → ChunkedState → IoError → List ℕ → ℕ → Stepped
expect byte next e [] n = wait n
expect byte next e (b ∷ rdr) n = if b == byte then go rdr n next else fail rdr n e

unfoldable pub read_body_cr : List ℕ → ℕ → Stepped
read_body_cr rdr n = expect 13 body_lf invalid_body_cr rdr n

unfoldable pub read_body_lf : List ℕ → ℕ → Stepped
read_body_lf rdr n = expect 10 ChunkedState.size invalid_body_lf rdr n

unfoldable pub read_end_cr : List ℕ → ℕ → Stepped
read_end_cr rdr n = expect 13 end_lf invalid_end_cr rdr n

unfoldable pub read_end_lf : List ℕ → ℕ → Stepped
read_end_lf rdr n = expect 10 end invalid_end_lf rdr n

-- `ChunkedState::step`
unfoldable pub step : ChunkedState → List ℕ → ℕ → Stepped
unfolding read_size read_size_lws read_extension read_size_lf read_body read_body_cr read_body_lf
    read_end_cr read_end_lf
step ChunkedState.size rdr n = read_size rdr n
step size_lws rdr n = read_size_lws rdr n
step extension rdr n = read_extension rdr n
step size_lf rdr n = read_size_lf rdr n
step body rdr n = read_body rdr n
step body_cr rdr n = read_body_cr rdr n
step body_lf rdr n = read_body_lf rdr n
step end_cr rdr n = read_end_cr rdr n
step end_lf rdr n = read_end_lf rdr n
step end rdr n = go rdr n end
