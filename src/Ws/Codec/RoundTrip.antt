-- ===== src/Ws/Codec/RoundTrip.antt =====
-- `encode` of one side and `decode` of the other (http-ws/src/codec.rs).
use actix_server_alt.Prelude.{
  ℕ, ◌<◌, ◌≡◌, refl, ap, ◌∙◌, Option, none, some, List, [], ◌∷◌, ◌++◌, arith, length, ok,
}
use actix_server_alt.Ws.Proto.{OpCode, CloseReason}
use actix_server_alt.Ws.Mask.{Mask, Layout}
use actix_server_alt.Ws.Mask.Words.{IsMask}
use actix_server_alt.Ws.Frame.{write_close, close_payload}
use actix_server_alt.Ws.Frame.Parse.{FitsUsize}
use actix_server_alt.Ws.Frame.RoundTrip.{IsSendable, non_empty}
use actix_server_alt.Ws.Frame.Close.{
  parse_close_payload-close_payload, close_payload-IsByte, length-close_payload,
}
use actix_server_alt.Ws.Codec.{
  Message, text, binary, ping, pong, continuation, close, nop, close_reason, Codec, encode,
  decode_finished,
}
use actix_server_alt.Ws.Codec.InStep.{
  InStep, CanSend, received, or_empty-non_empty, Answer, whole_message,
}
use actix_server_alt.Ws.Codec.Parts.{item_message}

close-IsSendable :
    (reason : Option CloseReason) (max_size : ℕ)
    → CanSend (close reason) max_size
    → IsSendable OpCode.close (close_payload reason) max_size
unfolding close_payload
close-IsSendable none max_size can = record {
  known = λ e. cc;
  bytes = tt;
  short = λ e. omega arith;
  limited = omega arith;
}
close-IsSendable (some reason) max_size can = record {
  known = λ e. cc;
  bytes = close_payload-IsByte reason can.0;
  short = λ e. omega (arith, length-close_payload reason);
  limited = omega (arith, length-close_payload reason);
}

non_empty-some : (payload : List ℕ) → 0 < length payload → non_empty payload ≡ some payload
non_empty-some [] h = absurd (omega arith)
non_empty-some (b ∷ bs) h = refl

close_read :
    (d : ℕ) (reason : Option CloseReason) (max_size : ℕ)
    → CanSend (close reason) max_size
    → decode_finished d OpCode.close (non_empty (close_payload reason))
      ≡ (d, ok (some (received (close reason))))
unfolding decode_finished
close_read d none max_size can = unfold close_payload in refl
close_read d (some reason) max_size can =
    ap (λ (t : Option (List ℕ)). (d, ok (some (close (close_reason t)))))
      (non_empty-some (close_payload (some reason)) (omega (arith, length-close_payload reason)))
    ∙ ap (λ (t : Option CloseReason). (d, ok (some (close t))))
        (parse_close_payload-close_payload reason can.0)

-- What one side encodes the other side decodes, and the two stay in step: for every message that
-- the other side can read, whole or in parts, from server to client and from client to server, with
-- any bytes behind it left in the buffer. Only the reason of a close message may change: it comes
-- back in its normal form. Such a message is no `Nop`; a ping or pong has 125 bytes at most and all
-- else no more than the `max_size` of the reader; a part comes in order; and a reason to close fits
-- its frame and is text. `max_size` + 14 is below 2 ^ 64, and the mask is of bytes.
pub decode-encode :
    (l k : Layout) (key : Mask) (c d : Codec) (message : Message) (rest : List ℕ)
    → InStep c d
    → FitsUsize d.max_size
    → IsMask key
    → CanSend message d.max_size
    → (encode l key c message []).result ≡ ok tt
    → Answer k d
        ((encode l key c message []).dst ++ rest)
        rest
        (received message)
        (encode l key c message []).codec
unfolding encode decode_finished write_close
decode-encode l k key c d (text p) rest s f m can e =
    whole_message l k key c d OpCode.text p rest (text p) s f m can
      (ground (arith, or_empty-non_empty p))
decode-encode l k key c d (binary p) rest s f m can e =
    whole_message l k key c d OpCode.binary p rest (binary p) s f m can
      (ground (arith, or_empty-non_empty p))
decode-encode l k key c d (ping p) rest s f m can e =
    whole_message l k key c d OpCode.ping p rest (ping p) s f m can
      (ground (arith, or_empty-non_empty p))
decode-encode l k key c d (pong p) rest s f m can e =
    whole_message l k key c d OpCode.pong p rest (pong p) s f m can
      (ground (arith, or_empty-non_empty p))
decode-encode l k key c d (continuation item) rest s f m can e =
    item_message l k key c d item rest s f m can e
decode-encode l k key c d (close reason) rest s f m can e =
    whole_message l k key c d OpCode.close (close_payload reason) rest (received (close reason)) s f
      m (close-IsSendable reason d.max_size can) (close_read d.flags reason d.max_size can)
decode-encode l k key c d nop rest s f m can e = absurd can
