-- ===== src/Ws/Runs.antt =====
-- Runs of the codec, the streams and the handshake on concrete messages.
use mathlib.Core.List.{flatten}
use actix_server_alt.Prelude.{
  ◌↔◌, ℕ, ◌+◌, ◌<◌, ◌^◌, ◌≡◌, ◌≢◌, refl, Bool, true, Option, none, some, List, [], ◌∷◌, ◌++◌, map,
  ap, arith, length, Result, ok, err, ready,
}
use actix_server_alt.Ws.Handshake.{
  HeaderMap, upgrade, connection, sec_websocket_version, sec_websocket_key, bad_websocket_key,
  verify_handshake,
}
use actix_server_alt.Ws.Handshake.Accepts.{Accepts, verify_handshake-Accepts}
use actix_server_alt.Ws.Proto.{
  OpCode, CloseCode, CloseReason, ProtocolError, unmasked_frame, masked_frame, invalid_length,
  invalid_opcode, overflow, continuation_not_started, to_u16, of_u16,
}
use actix_server_alt.Ws.Mask.{Mask, Layout, apply_mask, apply_mask_fallback}
use actix_server_alt.Ws.Frame.{
  MetaData, Frame, parse_metadata, parse, parse_close_payload, close_payload, write_message,
}
use actix_server_alt.Ws.Frame.RoundTrip.{IsSendable}
use actix_server_alt.Ws.Codec.{
  Item, Message, text, continuation, close, server_flag, contains, w_continuation_flag, Codec, new,
  client_mode, encode, decode,
}
use actix_server_alt.Ws.Codec.Flags.{marks}
use actix_server_alt.Ws.Codec.InStep.{InStep, Answer}
use actix_server_alt.Ws.Codec.RoundTrip.{decode-encode}
use actix_server_alt.Ws.Codec.Refusals.{Refused, out_of_order, encode-Refused}
use actix_server_alt.Ws.Codec.Progress.{decode-append}
use actix_server_alt.Ws.Stream.{with_codec, Queued, poll_encode}
use actix_server_alt.Ws.Stream.Delivery.{Deliverable, polls, deliveries, delivery}
use actix_server_alt.Ws.FrameRuns.{
  key, key_IsMask, little, big, hello, hello_frame, hello-IsSendable,
}

new-InStep : InStep new (client_mode new)
unfolding new client_mode marks actix_server_alt.Ws.Codec.remove contains
new-InStep = record {
  writer_fits = ground arith;
  reader_fits = ground arith;
  opposite = refl;
  same = refl;
}

new_fits : (client_mode new).max_size + 14 < 2 ^ 64
unfolding new client_mode
new_fits = ground arith

new-IsSendable : IsSendable OpCode.text hello (client_mode new).max_size
unfolding new client_mode
new-IsSendable = hello-IsSendable OpCode.text (λ e. cc) 65536 (omega arith)

first_hello : (encode little key new (continuation (Item.first_text hello)) []).result ≡ ok tt
unfolding encode actix_server_alt.Ws.Codec.encode_item contains new
first_hello = refl

decode-encode_example :
    Answer big
      (client_mode new)
      ((encode little key new (continuation (Item.first_text hello)) []).dst ++ hello_frame)
      hello_frame
      (continuation (Item.first_text hello))
      (encode little key new (continuation (Item.first_text hello)) []).codec
decode-encode_example =
    decode-encode little big key new (client_mode new) (continuation (Item.first_text hello))
      hello_frame new-InStep new_fits key_IsMask new-IsSendable first_hello

encode-Refused_example :
    Refused new hello_frame
      (encode little key new (continuation (Item.last hello)) hello_frame)
      (out_of_order (contains new.flags w_continuation_flag) (continuation (Item.last hello)))
encode-Refused_example = encode-Refused little key new (continuation (Item.last hello)) hello_frame

-- A later part outside a message is refused.
last_first :
    (encode little key new (continuation (Item.last hello)) []).result
    ≡ err continuation_not_started
unfolding encode actix_server_alt.Ws.Codec.encode_item contains new
last_first = refl

server_fits : new.max_size + 14 < 2 ^ 64
unfolding new
server_fits = ground arith

hello_decoded : decode big new hello_frame ≡ (new, [], ok (some (text hello)))
unfolding decode actix_server_alt.Ws.Codec.decode_parsed parse parse_metadata contains new
    actix_server_alt.Ws.Proto.of_u8 actix_server_alt.Ws.Frame.parse_fields
    actix_server_alt.Ws.Frame.parse_length actix_server_alt.Ws.Frame.parse_mask
    actix_server_alt.Ws.Frame.parse_payload actix_server_alt.Ws.Frame.deliver
    actix_server_alt.Ws.Codec.decode_frame actix_server_alt.Ws.Codec.decode_finished apply_mask
    actix_server_alt.Ws.Mask.apply_mask_fast32 apply_mask_fallback
    actix_server_alt.Ws.Mask.fallback_from actix_server_alt.Ws.Mask.from_ne_bytes
    actix_server_alt.Ws.Mask.rotate_left actix_server_alt.Ws.Mask.rotated_mask
    actix_server_alt.Ws.Mask.to_ne_bytes actix_server_alt.Ws.Mask.xor_words
hello_decoded = refl

hello-some : (decode big new hello_frame).2 ≡ ok (some (text hello))
hello-some = ap (λ (r : Codec × List ℕ × Result ProtocolError (Option Message)). r.2) hello_decoded

hello_decides : (decode big new hello_frame).2 ≢ ok none
hello_decides e = let read = hello-some in cc

decode-append_example : decode big new (hello_frame ++ hello) ≡ (
  (decode big new hello_frame).0,
  (decode big new hello_frame).1 ++ hello,
  (decode big new hello_frame).2,
)
decode-append_example = decode-append big new hello_frame hello server_fits hello_decides

abbrev queued_text : Queued
queued_text = record { layout = little; key = key; message = text hello }

abbrev queued_part : Queued
queued_part = record { layout = little; key = key; message = continuation (Item.first_text hello) }

queue_Deliverable : Deliverable new (client_mode new).max_size (queued_text ∷ queued_part ∷ [])
unfolding encode actix_server_alt.Ws.Codec.encode_item contains new
queue_Deliverable = (key_IsMask, new-IsSendable, refl, (key_IsMask, new-IsSendable, refl, tt))

delivery_example :
    (bytes : List ℕ) × ((poll_encode (record {
      codec = new;
      buf = [];
      rx = some (record { queue = queued_text ∷ queued_part ∷ []; closed = true });
    })).1
      ≡ ready (some (ok bytes)))
    × ((chunks : List (List ℕ)) (ended : Bool) (ks : List Layout)
        → flatten chunks ≡ bytes
        → length ks ≡ length (queued_text ∷ queued_part ∷ [])
        → polls ks (with_codec (record { chunks = map ok chunks; ended = ended }) (client_mode new))
          ≡ deliveries (queued_text ∷ queued_part ∷ []))
delivery_example =
    delivery new (client_mode new) queued_text (queued_part ∷ []) true new-InStep new_fits
      queue_Deliverable

-- "WebSocket", "Upgrade", the version 13 and a key
abbrev some_headers : HeaderMap
some_headers upgrade = some (b'W' ∷ b'e' ∷ b'b' ∷ b'S' ∷ b'o' ∷ b'c' ∷ b'k' ∷ b'e' ∷ b't' ∷ [])
some_headers connection = some (b'U' ∷ b'p' ∷ b'g' ∷ b'r' ∷ b'a' ∷ b'd' ∷ b'e' ∷ [])
some_headers sec_websocket_version = some (b'1' ∷ b'3' ∷ [])
some_headers sec_websocket_key = some hello
some_headers _ = none

verified : verify_handshake true some_headers ≡ ok hello
unfolding verify_handshake
verified = refl

-- The request of the example in the documentation of the crate, which has no key.
abbrev example_headers : HeaderMap
example_headers sec_websocket_key = none
example_headers name = some_headers name

example_refused : verify_handshake true example_headers ≡ err bad_websocket_key
unfolding verify_handshake
example_refused = refl

verify_handshake-Accepts_example :
    (verify_handshake true some_headers ≡ ok hello) ↔ Accepts true some_headers hello
verify_handshake-Accepts_example = verify_handshake-Accepts true some_headers hello
