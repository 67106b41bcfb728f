-- ===== src/Ws/Codec/InStep.antt =====
-- Two codecs that agree, and a frame between them (http-ws/src/codec.rs).
use actix_server_alt.Prelude.{
  ℕ, ◌+◌, ◌≤◌, ◌<◌, ◌≡◌, refl, ap, ◌∙◌, Bool, true, not, none, some, List, [], ◌∷◌, ◌++◌, length,
  ok,
}
use actix_server_alt.Ws.Proto.{OpCode}
use actix_server_alt.Ws.Mask.{Mask, Layout}
use actix_server_alt.Ws.Mask.Words.{IsMask}
use actix_server_alt.Ws.Frame.{write_message}
use actix_server_alt.Ws.Frame.Parse.{FitsUsize}
use actix_server_alt.Ws.Frame.RoundTrip.{IsSendable, non_empty, frame_of, parse-write_message}
use actix_server_alt.Ws.Frame.Close.{IsReason, text_of, normal_reason}
use actix_server_alt.Ws.Codec.{
  Item, Message, text, binary, ping, pong, continuation, close, nop, server_flag, contains,
  or_empty, Codec, Decoded, decode_finished, decode_frame, decode_parsed, decode,
}
use actix_server_alt.Ws.Codec.Flags.{marks}

-- The writing half of `c` and the reading half of `d` agree: one of them is the server, and both
-- are in the middle of a message or neither is.
pub record InStep (c d : Codec) : Type 0 where
  pub writer_fits : c.flags < 8
  pub reader_fits : d.flags < 8
  pub opposite : not (marks c.flags).server ≡ (marks d.flags).server
  pub same : (marks c.flags).w_continuation ≡ (marks d.flags).continuation

abbrev pub payload_of : Item → List ℕ
payload_of (Item.first_text payload) = payload
payload_of (Item.first_binary payload) = payload
payload_of (Item.continue payload) = payload
payload_of (Item.last payload) = payload

abbrev pub op_code_of : Item → OpCode
op_code_of (Item.first_text payload) = OpCode.text
op_code_of (Item.first_binary payload) = OpCode.binary
op_code_of (Item.continue payload) = OpCode.continue
op_code_of (Item.last payload) = OpCode.continue

-- A message that a peer with the limit `max_size` can read. `Nop` writes nothing.
abbrev pub CanSend : Message → ℕ → Type 0
CanSend (text payload) max_size = IsSendable OpCode.text payload max_size
CanSend (binary payload) max_size = IsSendable OpCode.binary payload max_size
CanSend (ping payload) max_size = IsSendable OpCode.ping payload max_size
CanSend (pong payload) max_size = IsSendable OpCode.pong payload max_size
CanSend (continuation item) max_size = IsSendable (op_code_of item) (payload_of item) max_size
CanSend (close none) max_size = Unit {0}
CanSend (close (some reason)) max_size =
    IsReason reason
    × (length (text_of reason.description) ≤ 123)
    × (length (text_of reason.description) + 2 ≤ max_size)
CanSend nop max_size = ⊥

-- The message as the peer gets it.
abbrev pub received : Message → Message
received (close (some reason)) = close (some (normal_reason reason))
received message = message

-- What the reader makes of one frame of the writer.
pub sent :
    (l k : Layout) (key : Mask) (c d : Codec) (op : OpCode) (fin : Bool) (payload rest : List ℕ)
    → not (contains c.flags server_flag) ≡ contains d.flags server_flag
    → FitsUsize d.max_size
    → IsMask key
    → IsSendable op payload d.max_size
    → let frame = frame_of op fin payload in
      decode k d
        (write_message l key [] payload op fin (not (contains c.flags server_flag)) ++ rest)
      ≡ (record d { flags = (decode_frame d.flags frame).0 }, rest, (decode_frame d.flags frame).1)
unfolding decode decode_parsed
sent l k key c d op fin payload rest e f m s = rw e (
    ap (decode_parsed d) (
      parse-write_message l k key op fin (contains d.flags server_flag) payload rest d.max_size f m
        s))

pub or_empty-non_empty : (payload : List ℕ) → or_empty (non_empty payload) ≡ payload
or_empty-non_empty [] = refl
or_empty-non_empty (b ∷ bs) = refl

-- The reader's answer to the frame that the writer sent, and what follows for the two codecs.
abbrev pub Answer : Layout → Codec → List ℕ → List ℕ → Message → Codec → Type 0
Answer k d src rest message c' =
    (d' : Codec) × (decode k d src ≡ (d', rest, ok (some message)))
    × InStep c' d'
    × (d'.max_size ≡ d.max_size)

-- A whole message changes neither codec.
pub whole_message :
    (l k : Layout) (key : Mask) (c d : Codec) (op : OpCode) (payload rest : List ℕ)
    (message : Message)
    → InStep c d
    → FitsUsize d.max_size
    → IsMask key
    → IsSendable op payload d.max_size
    → decode_finished d.flags op (non_empty payload) ≡ (d.flags, ok (some message))
    → Answer k d
        (write_message l key [] payload op true (not (contains c.flags server_flag)) ++ rest)
        rest
        message
        c
unfolding decode_frame marks
whole_message l k key c d op payload rest message s f m can e =
    let read = sent l k key c d op true payload rest s.opposite f m can in
    (d, read ∙ ap (λ (r : Decoded). (record d { flags = r.0 }, rest, r.1)) e, s, refl)

-- A frame that is part of a longer message moves the marks of both codecs.
pub part_message :
    (l k : Layout) (key : Mask) (c d : Codec) (op : OpCode) (fin : Bool) (payload rest : List ℕ)
    (item : Item) (flags : ℕ)
    → FitsUsize d.max_size
    → IsMask key
    → IsSendable op payload d.max_size
    → not (marks c.flags).server ≡ (marks d.flags).server
    → decode_frame d.flags (frame_of op fin payload) ≡ (flags, ok (some (continuation item)))
    → InStep c (record d { flags = flags })
    → Answer k d
        (write_message l key [] payload op fin (not (contains c.flags server_flag)) ++ rest)
        rest
        (continuation item)
        c
unfolding marks
part_message l k key c d op fin payload rest item flags f m can side e s =
    let read = sent l k key c d op fin payload rest side f m can in
    (
      record d { flags = flags },
      read ∙ ap (λ (r : Decoded). (record d { flags = r.0 }, rest, r.1)) e,
      s,
      refl,
    )
