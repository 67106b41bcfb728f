-- ===== src/H1/Socket.antt =====
-- `try_read` and `try_write` of actix-http-alt/src/h1/proto/dispatcher.rs. What the socket answers is
-- listed beforehand, and a list that is used up answers `WouldBlock`. A socket accepts no more bytes
-- than it is offered. `none` is a panic of the list of buffers.
pub mod Transfer
use mathlib.Core.List.{flatten}
use actix_server_alt.Prelude.{
  ℕ, zero, suc, Bool, true, false, Option, none, some, List, [], ◌∷◌, ◌++◌, length, take, drop, min,
  ◌==◌, if◌then◌else◌, Result, ok, err, and_then,
}
use actix_server_alt.Util.BufList.{BufList, chunks_vectored, advance}
use actix_server_alt.H1.Buf.{ReadBuf, read_backpressure, set_advanced, EncodedBuf, bytes_ops}

-- `Error::Closed`, and any error of the socket.
pub data SocketError : Type 0 where
  closed broken : SocketError

pub data Incoming : Type 0 where
  received : List ℕ → Incoming
  blocked failed : Incoming

-- The loop of `try_read`
unfoldable pub read_more : ℕ → ReadBuf → List Incoming → ReadBuf × Result SocketError (Unit {0})
unfolding read_backpressure
read_more limit b [] = (b, ok tt)
read_more limit b (blocked ∷ answers) = (b, ok tt)
read_more limit b (failed ∷ answers) = (b, err broken)
read_more limit b (received [] ∷ answers) = (b, err closed)
read_more limit b (received (x ∷ xs) ∷ answers) =
    let more : ReadBuf = record { advanced = true; buf = b.buf ++ x ∷ xs } in
    let rest = read_more limit more answers in
    if read_backpressure limit more then (more, ok tt) else rest

-- `Io::try_read`
unfoldable pub try_read : ℕ → ReadBuf → List Incoming → ReadBuf × Result SocketError (Unit {0})
unfolding read_more read_backpressure set_advanced
try_read limit b answers =
    let still = set_advanced b false in
    if read_backpressure limit still then (still, ok tt) else read_more limit still answers

pub data Outgoing : Type 0 where
  accepted : ℕ → Outgoing
  blocked failed : Outgoing

-- What `try_write` leaves of a list: the bytes that the socket took, the list, and the result, which
-- is whether the socket is blocked.
pub record ListSent : Type 0 where
  pub sent : List ℕ
  pub list : BufList (EncodedBuf (List ℕ))
  pub result : Result SocketError Bool

abbrev stop_list : BufList (EncodedBuf (List ℕ)) → Result SocketError Bool → Option ListSent
stop_list l result = some (record { sent = []; list = l; result = result })

-- One `try_write_vectored` of 64 slices that takes bytes, and `advance` over them.
unfoldable pub take_bytes :
    ℕ
    → BufList (EncodedBuf (List ℕ))
    → (BufList (EncodedBuf (List ℕ)) → Option ListSent)
    → Option ListSent
unfolding chunks_vectored advance
take_bytes n l again =
    let offered = flatten (chunks_vectored bytes_ops l 64) in
    let k = min n (length offered) in
    and_then (advance bytes_ops l k)
      (λ rest. and_then (again rest) (λ r. some (record r { sent = take k offered ++ r.sent })))

-- The loop of `try_write` over a list
unfoldable pub write_list : List Outgoing → BufList (EncodedBuf (List ℕ)) → Option ListSent
unfolding take_bytes
write_list [] l = if l.remaining == 0 then stop_list l (ok false) else stop_list l (ok true)
write_list (blocked ∷ answers) l =
    if l.remaining == 0 then stop_list l (ok false) else stop_list l (ok true)
write_list (failed ∷ answers) l =
    if l.remaining == 0 then stop_list l (ok false) else stop_list l (err broken)
write_list (accepted zero ∷ answers) l =
    if l.remaining == 0 then stop_list l (ok false) else stop_list l (err closed)
write_list (accepted (suc n) ∷ answers) l =
    let on = take_bytes (suc n) l (write_list answers) in
    if l.remaining == 0 then stop_list l (ok false) else on

-- What `try_write` leaves of a flat buffer.
pub record FlatSent : Type 0 where
  pub sent : List ℕ
  pub buf : List ℕ
  pub result : Result SocketError Bool

-- The loop of `try_write` over a flat buffer: `written` is what was taken, `left` what was not. An
-- error leaves the buffer as it was.
unfoldable pub write_flat : List Outgoing → List ℕ → List ℕ → FlatSent
write_flat answers written [] = record { sent = written; buf = []; result = ok false }
write_flat [] written (b ∷ left) = record { sent = written; buf = b ∷ left; result = ok true }
write_flat (blocked ∷ answers) written (b ∷ left) = record {
  sent = written;
  buf = b ∷ left;
  result = ok true;
}
write_flat (failed ∷ answers) written (b ∷ left) = record {
  sent = written;
  buf = written ++ b ∷ left;
  result = err broken;
}
write_flat (accepted zero ∷ answers) written (b ∷ left) = record {
  sent = written;
  buf = written ++ b ∷ left;
  result = err closed;
}
write_flat (accepted (suc n) ∷ answers) written (b ∷ left) =
    write_flat answers (written ++ take (suc n) (b ∷ left)) (drop (suc n) (b ∷ left))
