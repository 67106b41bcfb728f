-- ===== src/Ws/Codec.antt =====
-- http-ws/src/codec.rs. The `Cell` that holds the flags is a field of the state that each call
-- returns anew; `Bytes` and `BytesMut` are lists of bytes.
pub mod Flags
pub mod InStep
pub mod Parts
pub mod RoundTrip
pub mod Refusals
pub mod Progress
use actix_server_alt.Prelude.{
  ℕ, ◌-◌, bit_and, bit_or, Bool, true, false, not, Option, none, some, List, [], ◌==◌,
  if◌then◌else◌, Result, ok, err,
}
use actix_server_alt.Ws.Proto.{
  OpCode, CloseReason, ProtocolError, bad_op_code, continuation_not_started, continuation_started,
  continuation_fragment,
}
use actix_server_alt.Ws.Mask.{Mask, Layout}
use actix_server_alt.Ws.Frame.{Frame, parse, parse_close_payload, write_message, write_close}

pub data Item : Type 0 where
  first_text first_binary continue last : List ℕ → Item

pub data Message : Type 0 where
  text binary ping pong : List ℕ → Message
  continuation : Item → Message
  close : Option CloseReason → Message
  nop : Message

-- `Flags`: a set of bits in one byte.
abbrev pub server_flag : ℕ
server_flag = 1

abbrev pub continuation_flag : ℕ
continuation_flag = 2

abbrev pub w_continuation_flag : ℕ
w_continuation_flag = 4

unfoldable pub remove : ℕ → ℕ → ℕ
remove flags other = bit_and flags (255 - other)

unfoldable pub insert : ℕ → ℕ → ℕ
insert flags other = bit_or flags other

unfoldable pub contains : ℕ → ℕ → Bool
contains flags other = bit_and flags other == other

pub record Codec : Type 0 where
  pub flags : ℕ
  pub capacity : ℕ
  pub max_size : ℕ

-- `Codec::new`
unfoldable pub new : Codec
new = record { max_size = 65536; capacity = 128; flags = server_flag }

-- `Codec::max_size`, `set_capacity` and `client_mode`
unfoldable pub set_max_size : Codec → ℕ → Codec
set_max_size c size = record c { max_size = size }

unfoldable pub set_capacity : Codec → ℕ → Codec
set_capacity c size = record c { capacity = size }

unfoldable pub client_mode : Codec → Codec
client_mode c = record c { flags = remove c.flags server_flag }

-- What a call of `encode` leaves: the codec, the buffer and the result.
pub record Encoded : Type 0 where
  pub codec : Codec
  pub dst : List ℕ
  pub result : Result ProtocolError (Unit {0})

abbrev pub send : Layout → Mask → Codec → List ℕ → OpCode → Bool → List ℕ → Encoded
send l key c dst op fin payload =
    let mask = not (contains c.flags server_flag) in
    record { codec = c; dst = write_message l key dst payload op fin mask; result = ok tt }

abbrev refuse : Codec → List ℕ → ProtocolError → Encoded
refuse c dst e = record { codec = c; dst = dst; result = err e }

unfoldable pub encode_item : Layout → Mask → Codec → Item → List ℕ → Encoded
encode_item l key c (first_text payload) dst =
    if contains c.flags w_continuation_flag
    then refuse c dst continuation_started
    else send l key (record c { flags = insert c.flags w_continuation_flag }) dst OpCode.text false
        payload
encode_item l key c (first_binary payload) dst =
    if contains c.flags w_continuation_flag
    then refuse c dst continuation_started
    else send l key (record c { flags = insert c.flags w_continuation_flag }) dst OpCode.binary
        false payload
encode_item l key c (continue payload) dst =
    if contains c.flags w_continuation_flag
    then send l key c dst OpCode.continue false payload
    else refuse c dst continuation_not_started
encode_item l key c (last payload) dst =
    if contains c.flags w_continuation_flag
    then send l key (record c { flags = remove c.flags w_continuation_flag }) dst OpCode.continue
        true payload
    else refuse c dst continuation_not_started

-- `Codec::encode`; `key` is the mask that a client draws for the frame.
unfoldable pub encode : Layout → Mask → Codec → Message → List ℕ → Encoded
encode l key c (text payload) dst = send l key c dst OpCode.text true payload
encode l key c (binary payload) dst = send l key c dst OpCode.binary true payload
encode l key c (ping payload) dst = send l key c dst OpCode.ping true payload
encode l key c (pong payload) dst = send l key c dst OpCode.pong true payload
encode l key c (close reason) dst =
    let mask = not (contains c.flags server_flag) in
    record { codec = c; dst = write_close l key dst reason mask; result = ok tt }
encode l key c (continuation item) dst = encode_item l key c item dst
encode l key c nop dst = record { codec = c; dst = dst; result = ok tt }

-- What a call of `decode` leaves: the flags and the result.
abbrev pub Decoded : Type 0
Decoded = ℕ × Result ProtocolError (Option Message)

abbrev pub or_empty : Option (List ℕ) → List ℕ
or_empty none = []
or_empty (some payload) = payload

-- The frames that do not end a message.
unfoldable pub decode_unfinished : ℕ → OpCode → Option (List ℕ) → Decoded
decode_unfinished flags OpCode.continue payload =
    if contains flags continuation_flag
    then (flags, ok (some (continuation (continue (or_empty payload)))))
    else (flags, err continuation_not_started)
decode_unfinished flags OpCode.binary payload =
    if not (contains flags continuation_flag)
    then (
      insert flags continuation_flag,
      ok (some (continuation (first_binary (or_empty payload)))),
    )
    else (flags, err continuation_started)
decode_unfinished flags OpCode.text payload =
    if not (contains flags continuation_flag)
    then (insert flags continuation_flag, ok (some (continuation (first_text (or_empty payload)))))
    else (flags, err continuation_started)
decode_unfinished flags opcode payload = (flags, err (continuation_fragment opcode))

abbrev pub close_reason : Option (List ℕ) → Option CloseReason
close_reason none = none
close_reason (some payload) = parse_close_payload payload

unfoldable pub decode_finished : ℕ → OpCode → Option (List ℕ) → Decoded
decode_finished flags OpCode.continue payload =
    if contains flags continuation_flag
    then (remove flags continuation_flag, ok (some (continuation (last (or_empty payload)))))
    else (flags, err continuation_not_started)
decode_finished flags OpCode.bad payload = (flags, err bad_op_code)
decode_finished flags OpCode.close payload = (flags, ok (some (close (close_reason payload))))
decode_finished flags OpCode.ping payload = (flags, ok (some (ping (or_empty payload))))
decode_finished flags OpCode.pong payload = (flags, ok (some (pong (or_empty payload))))
decode_finished flags OpCode.binary payload = (flags, ok (some (binary (or_empty payload))))
decode_finished flags OpCode.text payload = (flags, ok (some (text (or_empty payload))))

unfoldable pub decode_frame : ℕ → Frame → Decoded
decode_frame flags f =
    if not f.finished
    then decode_unfinished flags f.opcode f.payload
    else decode_finished flags f.opcode f.payload

-- `match Parser::parse(..)`: the codec, the buffer that is left, and the result.
unfoldable pub decode_parsed :
    Codec
    → List ℕ × Result ProtocolError (Option Frame)
    → Codec × List ℕ × Result ProtocolError (Option Message)
decode_parsed c (src, ok none) = (c, src, ok none)
decode_parsed c (src, ok (some frame)) =
    let decoded = decode_frame c.flags frame in (record c { flags = decoded.0 }, src, decoded.1)
decode_parsed c (src, err e) = (c, src, err e)

-- `Codec::decode`
unfoldable pub decode :
    Layout → Codec → List ℕ → Codec × List ℕ × Result ProtocolError (Option Message)
decode l c src = decode_parsed c (parse l src (contains c.flags server_flag) c.max_size)
