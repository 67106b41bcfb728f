-- ===== src/Ws/Stream.antt =====
-- http-ws/src/stream.rs. What the input stream and the channel of messages answer during one poll is
-- listed beforehand: the chunks or messages that are ready, and whether the end comes behind them.
-- A list that is used up answers `Pending`.
pub mod Delivery
use actix_server_alt.Prelude.{
  ℕ, Bool, true, false, Option, none, some, List, [], ◌∷◌, ◌++◌, Result, ok, err, Poll, ready,
  pending, if◌then◌else◌,
}
use actix_server_alt.Ws.Proto.{ProtocolError}
use actix_server_alt.Ws.Mask.{Mask, Layout}
use actix_server_alt.Ws.Codec.{Message, Codec, Encoded, encode, decode}

-- The error `E` of the input stream is a value of some other type; a number stands for it.
pub data DecodeError : Type 0 where
  protocol : ProtocolError → DecodeError
  stream : ℕ → DecodeError

pub record Source : Type 0 where
  pub chunks : List (Result ℕ (List ℕ))
  pub ended : Bool

pub record DecodeStream : Type 0 where
  pub stream : Option Source
  pub buf : List ℕ
  pub codec : Codec

-- `DecodeStream::with_codec`
unfoldable pub with_codec : Source → Codec → DecodeStream
with_codec source codec = record { stream = some source; buf = []; codec = codec }

-- The `while let` loop of `poll_next`: chunks go to the buffer until the stream has no more for now,
-- ends, or fails.
unfoldable pub read : List (Result ℕ (List ℕ)) → Bool → List ℕ → Option Source × List ℕ × Option ℕ
read [] true buf = (none, buf, none)
read [] false buf = (some (record { chunks = []; ended = false }), buf, none)
read (ok item ∷ chunks) ended buf = read chunks ended (buf ++ item)
read (err e ∷ chunks) ended buf = (some (record { chunks = chunks; ended = ended }), buf, some e)

unfoldable pub read_stream : Option Source → List ℕ → Option Source × List ℕ × Option ℕ
read_stream none buf = (none, buf, none)
read_stream (some source) buf = read source.chunks source.ended buf

abbrev pub Item : Type 0
Item = Poll (Option (Result DecodeError Message))

-- The answer once `decode` has been called.
unfoldable pub answer : Option Source → Result ProtocolError (Option Message) → Item
answer source (ok (some message)) = ready (some (ok message))
answer none (ok none) = ready none
answer (some source) (ok none) = pending
answer source (err e) = ready (some (err (protocol e)))

unfoldable pub finish_poll :
    Layout → Codec → Option Source × List ℕ × Option ℕ → DecodeStream × Item
finish_poll l codec (source, buf, some e) =
    (record { stream = source; buf = buf; codec = codec }, ready (some (err (stream e))))
finish_poll l codec (source, buf, none) =
    let decoded = decode l codec buf in
    (record { stream = source; buf = decoded.1; codec = decoded.0 }, answer source decoded.2)

-- `DecodeStream::poll_next`
unfoldable pub poll_decode : Layout → DecodeStream → DecodeStream × Item
poll_decode l s = finish_poll l s.codec (read_stream s.stream s.buf)

-- A message in the channel, with the mask and the memory layout that its frame will get.
pub record Queued : Type 0 where
  pub layout : Layout
  pub key : Mask
  pub message : Message

pub record Receiver : Type 0 where
  pub queue : List Queued
  pub closed : Bool

pub record EncodeStream : Type 0 where
  pub codec : Codec
  pub buf : List ℕ
  pub rx : Option Receiver

-- What the `while let` loop leaves: the stream, and the error that broke it off.
abbrev pub Pumped : Type 0
Pumped = EncodeStream × Option ProtocolError

unfoldable pub after_encode : Encoded → Receiver → Pumped → Pumped
after_encode r rx rest = elim r.result [
  | ok _ ↦ rest
  | err e ↦ (record { codec = r.codec; buf = r.dst; rx = some rx }, some e)
]

unfoldable pub pump : Codec → List ℕ → List Queued → Bool → Pumped
pump codec buf [] true = (record { codec = codec; buf = buf; rx = none }, none)
pump codec buf [] false =
    (record { codec = codec; buf = buf; rx = some (record { queue = []; closed = false }) }, none)
pump codec buf (q ∷ queue) closed =
    let r = encode q.layout q.key codec q.message buf in
    let rest = pump r.codec r.dst queue closed in
    after_encode r (record { queue = queue; closed = closed }) rest

unfoldable pub pump_stream : EncodeStream → Option Receiver → Pumped
pump_stream s none = (s, none)
pump_stream s (some rx) = pump s.codec s.buf rx.queue rx.closed

unfoldable pub emit : EncodeStream → List ℕ → Poll (Option (Result ProtocolError (List ℕ)))
emit s (b ∷ bs) = ready (some (ok (b ∷ bs)))
emit s [] = elim s.rx [ none ↦ ready none | some rx ↦ pending ]

unfoldable pub finish_encode : Pumped → EncodeStream × Poll (Option (Result ProtocolError (List ℕ)))
finish_encode (s, some e) = (s, ready (some (err e)))
finish_encode (s, none) = (record s { buf = [] }, emit s s.buf)

-- `EncodeStream::poll_next`
unfoldable pub poll_encode :
    EncodeStream → EncodeStream × Poll (Option (Result ProtocolError (List ℕ)))
poll_encode s = finish_encode (pump_stream s s.rx)
