-- ===== src/H1/Dispatcher/Respond.antt =====
-- How a response is written in actix-http-alt/src/h1/proto/dispatcher.rs: `ResponseHandler::poll`, and the
-- loop `'res` of `run` that calls it and drains the write buffer. Each round of the loop is given what the
-- body, the socket and the handler of the request answer in it.
pub mod Valid
pub mod Kept
pub mod Delivers
pub mod Finishes
use actix_server_alt.Prelude.{
  ℕ, Bool, true, false, ◌||◌, Option, none, some, List, [], ◌∷◌, ◌++◌, if◌then◌else◌, Result, ok,
  err, and_then, Poll,
}
use actix_server_alt.H1.Kind.{Kind}
use actix_server_alt.H1.Decode.{RequestBodyItem}
use actix_server_alt.H1.Buf.{WriteBuf, flat, queue, write_backpressure}
use actix_server_alt.H1.Socket.{SocketError, broken, Outgoing, write_list, write_flat}
use actix_server_alt.H1.Encode.{Encoded, unexpected_eof, panicked, encode, encode_eof}
use actix_server_alt.H1.Dispatcher.{Status, Read, BodyPolled, poll_read_decode_body}

-- What `try_write` leaves: what the socket took, the buffer, and whether the socket is blocked.
pub record Written : Type 0 where
  pub sent : List ℕ
  pub buf : WriteBuf
  pub result : Result SocketError Bool

-- `Io::try_write`
unfoldable pub try_write : List Outgoing → WriteBuf → Option Written
unfolding write_list write_flat
try_write answers (flat bytes) =
    let r = write_flat answers [] bytes in
    some (record { sent = r.sent; buf = flat r.buf; result = r.result })
try_write answers (queue w) = and_then (write_list answers w.list) (λ r.
    some (record { sent = r.sent; buf = queue (record w { list = r.list }); result = r.result }))

-- What ends a wait for the socket: it is writable, and takes what it takes, or it fails.
pub data Wake : Type 0 where
  writable : List Outgoing → Wake
  fails : Wake

-- The loop of `drain_write`, between two waits for the socket
unfoldable pub after_try : (Written → Option Written) → Written → Option Written
after_try again r = elim r.result [ err e ↦ some r | ok false ↦ some r | ok true ↦ again r ]

unfoldable pub wake_up :
    (List Outgoing → WriteBuf → Option Written) → Wake → Written → Option Written
wake_up again fails r = some (record r { result = err broken })
wake_up again (writable answers) r =
    and_then (again answers r.buf) (λ r'. some (record r' { sent = r.sent ++ r'.sent }))

-- `Io::drain_write` but for the flush; where it still waits, the result is that the socket is blocked.
unfoldable pub drain_write : List Outgoing → List Wake → WriteBuf → Option Written
unfolding try_write after_try wake_up
drain_write answers [] buf = try_write answers buf
drain_write answers (wake ∷ wakes) buf =
    and_then (try_write answers buf)
      (after_try (wake_up (λ next buf'. drain_write next wakes buf') wake))

-- What the dispatcher holds while it writes a response: the messages that the body still has, the
-- encoder, the buffers, the handle of the request's body with the items that it was fed, the mark to
-- close the connection, and what the socket took.
pub record Responding : Type 0 where
  pub body : List (List ℕ)
  pub kind : Kind
  pub buf : WriteBuf
  pub handle : Option Kind
  pub read_buf : List ℕ
  pub fed : List RequestBodyItem
  pub force_close : Bool
  pub sent : List ℕ

-- What is answered while the body is pending: whether the socket is writable and what it takes,
-- whether the handler of the request wants more of its body, and what is read of it.
pub record Waiting : Type 0 where
  pub write_ready : Result SocketError Bool
  pub writes : List Outgoing
  pub sender : Poll (Result (Unit {0}) (Unit {0}))
  pub reads : List Read

-- What a poll of the body answers: its next message or its end, an error, or that it is pending.
pub data Asked : Type 0 where
  goes_on failed : Asked
  waits : Waiting → Asked

-- The answers of a round: of the body, and of the socket if the write buffer is drained.
pub record Round : Type 0 where
  pub asked : Asked
  pub writes : List Outgoing
  pub wakes : List Wake
  pub flushed : Bool

-- Why a response is broken off: `encode_eof` says that the body ended too early, the body fails, or
-- the socket fails when it is written to or read from.
pub data Broken : Type 0 where
  encoding streaming : Broken
  writing : SocketError → Broken
  reading : Status → Broken

-- How it stands with a response: all of it is written or in the buffer, the poll is pending, the write
-- buffer is still being drained, or it is broken off.
pub data Progress : Type 0 where
  finished blocked draining : Progress
  broken_off : Broken → Progress

abbrev pub Responded : Type 0
Responded = Responding × Progress

-- `this.encoder.encode(bytes, ..)?` and `encode_eof`, which ends the loop; a panic is `none`.
unfoldable pub on_encoded :
    {A : Type 0} → (Responding → Option Responded) → Responding → Encoded A → Option Responded
on_encoded next s e =
    let s' = record s { kind = e.kind; buf = e.buf } in
    elim e.result [
      | err unexpected_eof ↦ some (s', broken_off encoding)
      | err panicked ↦ none
      | ok a ↦ next s'
    ]

unfoldable pub on_message :
    (Responding → Option Responded) → List (List ℕ) → Responding → Option Responded
unfolding on_encoded encode encode_eof
on_message again [] s = on_encoded (λ s'. some (s', finished)) s (encode_eof s.kind s.buf)
on_message again (msg ∷ body) s =
    on_encoded again (record s { body = body }) (encode s.kind msg s.buf)

-- `if !this.io.poll_read_decode_body(..)?`
unfoldable pub after_read :
    (Responding → Option Responded) → Responding → BodyPolled → Option Responded
after_read again s p =
    let s' = record s {
      handle = p.body_handle;
      read_buf = p.buf;
      fed = s.fed ++ p.items;
      force_close = s.force_close || p.force_close;
    } in
    elim p.result [
      | err status ↦ some (s', broken_off (reading status))
      | ok new ↦ if new then again s' else some (s', blocked)
    ]

unfoldable pub read_body : (Responding → Option Responded) → Waiting → Responding → Option Responded
unfolding after_read poll_read_decode_body
read_body again w s =
    and_then (poll_read_decode_body s.handle w.sender w.reads s.read_buf) (after_read again s)

-- `let _ = this.io.try_write()?`, and what follows it
unfoldable pub after_write :
    (Responding → Option Responded) → Responding → Written → Option Responded
after_write next s r =
    let s' = record s { buf = r.buf; sent = s.sent ++ r.sent } in
    elim r.result [ err e ↦ some (s', broken_off (writing e)) | ok more ↦ next s' ]

unfoldable pub on_waiting :
    (Responding → Option Responded) → Waiting → Responding → Option Responded
unfolding read_body after_write try_write
on_waiting again w s = elim w.write_ready [
  | err e ↦ some (s, broken_off (writing e))
  | ok false ↦ read_body again w s
  | ok true ↦ and_then (try_write w.writes s.buf) (after_write (read_body again w) s)
]

unfoldable pub on_asked : (Responding → Option Responded) → Asked → Responding → Option Responded
unfolding on_message on_waiting
on_asked again goes_on s = on_message again s.body s
on_asked again failed s = some (s, broken_off streaming)
on_asked again (waits w) s = on_waiting again w s

-- `self.io.drain_write().await?`, with the flush behind it
unfoldable pub after_drain :
    (Responding → Option Responded) → Bool → Responding → Written → Option Responded
after_drain again flushed s r =
    let s' = record s { buf = r.buf; sent = s.sent ++ r.sent } in
    elim r.result [
      | err e ↦ some (s', broken_off (writing e))
      | ok true ↦ some (s', draining)
      | ok false ↦ if flushed then again s' else some (s', broken_off (writing broken))
    ]

-- The loop `'res` up to where it waits, with the constant `WRITE_BUF_LIMIT` as an argument.
unfoldable pub respond : ℕ → List Round → Responding → Option Responded
unfolding on_asked after_drain drain_write write_backpressure
respond limit [] s = some (s, blocked)
respond limit (r ∷ rounds) s =
    let asked = on_asked (respond limit rounds) r.asked s in
    let drained =
      and_then (drain_write r.writes r.wakes s.buf)
        (after_drain (respond limit rounds) r.flushed s) in
    if write_backpressure limit s.buf then drained else asked

-- A task that waits for the body or the socket is polled again, and `ResponseHandler` starts its loop
-- anew.
unfoldable pub again_if_blocked : (Responding → Option Responded) → Responded → Option Responded
again_if_blocked again (s, blocked) = again s
again_if_blocked again (s, p) = some (s, p)

unfoldable pub respond_polls : ℕ → List (List Round) → Responding → Option Responded
unfolding respond again_if_blocked
respond_polls limit [] s = some (s, blocked)
respond_polls limit (rounds ∷ polls) s =
    and_then (respond limit rounds s) (again_if_blocked (respond_polls limit polls))
