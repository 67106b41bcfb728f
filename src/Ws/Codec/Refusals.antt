-- ===== src/Ws/Codec/Refusals.antt =====
-- What `encode` and `decode` of http-ws/src/codec.rs do with messages out of order, and how `encode`
-- adds to its buffer.
use actix_server_alt.Prelude.{
  ℕ, ◌≡◌, ap, sym, ◌∙◌, Bool, true, false, not, Option, none, some, List, [], ◌++◌, arith, ok, err,
  append-nil,
}
use actix_server_alt.Ws.Proto.{
  OpCode, ProtocolError, continuation_not_started, continuation_started,
}
use actix_server_alt.Ws.Mask.{Mask, Layout}
use actix_server_alt.Ws.Frame.{write_message, write_close, close_payload}
use actix_server_alt.Ws.Frame.Write.{write_message_lem}
use actix_server_alt.Ws.Codec.{
  Item, Message, text, binary, ping, pong, continuation, close, nop, server_flag, contains,
  w_continuation_flag, insert, remove, Codec, Encoded, send, encode_item, encode,
}

write_message-append :
    (l : Layout) (key : Mask) (dst payload : List ℕ) (op : OpCode) (fin mask : Bool)
    → write_message l key dst payload op fin mask
      ≡ dst ++ write_message l key [] payload op fin mask
write_message-append l key dst payload op fin mask =
    write_message_lem l key dst payload op fin mask
    ∙ ap (λ (t : List ℕ). dst ++ t) (sym (write_message_lem l key [] payload op fin mask))

-- The error that the order of the parts calls for: a first part within a message, or a later part
-- outside one.
abbrev pub out_of_order : Bool → Message → Option ProtocolError
out_of_order true (continuation (Item.first_text payload)) = some continuation_started
out_of_order true (continuation (Item.first_binary payload)) = some continuation_started
out_of_order false (continuation (Item.continue payload)) = some continuation_not_started
out_of_order false (continuation (Item.last payload)) = some continuation_not_started
out_of_order within message = none

abbrev pub Refused : Codec → List ℕ → Encoded → Option ProtocolError → Type 0
Refused c dst r none = r.result ≡ ok tt
Refused c dst r (some e) = (r.result ≡ err e) × (r.codec ≡ c) × (r.dst ≡ dst)

-- `encode` refuses exactly the parts that are out of order, with the error that says so, and then
-- leaves the codec and the buffer alone. All else it accepts.
pub encode-Refused :
    (l : Layout) (key : Mask) (c : Codec) (message : Message) (dst : List ℕ)
    → Refused c dst
        (encode l key c message dst)
        (out_of_order (contains c.flags w_continuation_flag) message)
unfolding encode encode_item
encode-Refused l key c (text p) dst = ground arith
encode-Refused l key c (binary p) dst = ground arith
encode-Refused l key c (ping p) dst = ground arith
encode-Refused l key c (pong p) dst = ground arith
encode-Refused l key c (close reason) dst = ground arith
encode-Refused l key c nop dst = ground arith
encode-Refused l key c (continuation (Item.first_text p)) dst = ground arith
encode-Refused l key c (continuation (Item.first_binary p)) dst = ground arith
encode-Refused l key c (continuation (Item.continue p)) dst = ground arith
encode-Refused l key c (continuation (Item.last p)) dst = ground arith

send-append :
    (l : Layout) (key : Mask) (c : Codec) (dst : List ℕ) (op : OpCode) (fin : Bool)
    (payload : List ℕ)
    → send l key c dst op fin payload ≡ record (send l key c [] op fin payload) {
      dst = dst ++ (send l key c [] op fin payload).dst;
    }
send-append l key c dst op fin payload =
    ap (λ (t : List ℕ). record { codec = c; dst = t; result = ok tt })
      (write_message-append l key dst payload op fin (not (contains c.flags server_flag)))

-- `encode` appends: what it makes of a message does not depend on what the buffer holds.
pub encode-append :
    (l : Layout) (key : Mask) (c : Codec) (message : Message) (dst : List ℕ)
    → encode l key c message dst
      ≡ record (encode l key c message []) { dst = dst ++ (encode l key c message []).dst }
unfolding encode encode_item write_close
encode-append l key c (text p) dst = send-append l key c dst OpCode.text true p
encode-append l key c (binary p) dst = send-append l key c dst OpCode.binary true p
encode-append l key c (ping p) dst = send-append l key c dst OpCode.ping true p
encode-append l key c (pong p) dst = send-append l key c dst OpCode.pong true p
encode-append l key c (close reason) dst =
    send-append l key c dst OpCode.close true (close_payload reason)
encode-append l key c nop dst =
    ap (λ (t : List ℕ). record { codec = c; dst = t; result = ok tt }) (sym (append-nil dst))
encode-append l key c (continuation (Item.first_text p)) dst =
    let started = record c { flags = insert c.flags w_continuation_flag } in
    ground (arith, send-append l key started dst OpCode.text false p, append-nil dst)
encode-append l key c (continuation (Item.first_binary p)) dst =
    let started = record c { flags = insert c.flags w_continuation_flag } in
    ground (arith, send-append l key started dst OpCode.binary false p, append-nil dst)
encode-append l key c (continuation (Item.continue p)) dst =
    ground (arith, send-append l key c dst OpCode.continue false p, append-nil dst)
encode-append l key c (continuation (Item.last p)) dst =
    let ended = record c { flags = remove c.flags w_continuation_flag } in
    ground (arith, send-append l key ended dst OpCode.continue true p, append-nil dst)
