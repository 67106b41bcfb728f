-- ===== src/Ws/Frame/Close.antt =====
-- The payload of a close frame (http-ws/src/frame.rs), there and back.
use actix_server_alt.Prelude.{
  ℕ, ◌+◌, ◌<◌, ◌≡◌, true, Option, none, some, List, [], ◌∷◌, ◌++◌, arith, length, length-append,
  take_all, drop_all, ap, ◌∙◌, All, All-append,
}
use actix_server_alt.Prelude.Bytes.{
  IsByte, to_be_bytes, length-to_be_bytes, from_be_bytes-to_be_bytes, to_be_bytes-IsByte,
}
use actix_server_alt.Prelude.Utf8.{is_utf8, from_utf8_lossy_lem}
use actix_server_alt.Ws.Proto.{CloseReason, to_u16, of_u16}
use actix_server_alt.Ws.Frame.{parse_close_payload, close_payload}
use actix_server_alt.Ws.Frame.RoundTrip.{non_empty}

-- A `CloseCode` is within `u16`, and a description is a `String` of bytes that are UTF-8.
abbrev pub text_of : Option (List ℕ) → List ℕ
text_of none = []
text_of (some description) = description

pub record IsReason (r : CloseReason) : Type 0 where
  pub code_fits : to_u16 r.code < 65536
  pub utf8 : is_utf8 (text_of r.description) ≡ true
  pub bytes : All IsByte (text_of r.description)

-- The reason that the peer sees: a code by its name where it has one, and no empty description.
abbrev pub normal_reason : CloseReason → CloseReason
normal_reason r = record {
  code = of_u16 (to_u16 r.code);
  description = non_empty (text_of r.description);
}

close_payload_lem :
    (r : CloseReason)
    → close_payload (some r) ≡ to_be_bytes 2 (to_u16 r.code) ++ text_of r.description
unfolding close_payload
close_payload_lem r = ground arith

pub length-close_payload :
    (r : CloseReason) → length (close_payload (some r)) ≡ length (text_of r.description) + 2
length-close_payload r = omega (
  arith,
  ap length (close_payload_lem r),
  length-append (to_be_bytes 2 (to_u16 r.code)) (text_of r.description),
  length-to_be_bytes 2 (to_u16 r.code),
)

pub close_payload-IsByte : (r : CloseReason) → IsReason r → All IsByte (close_payload (some r))
close_payload-IsByte r h = rw (close_payload_lem r) (
    All-append IsByte (to_be_bytes 2 (to_u16 r.code)) (text_of r.description)
      (to_be_bytes-IsByte 2 (to_u16 r.code)) h.bytes)

read_back :
    (code : ℕ) (description : List ℕ)
    → code < 65536
    → is_utf8 description ≡ true
    → parse_close_payload (to_be_bytes 2 code ++ description)
      ≡ some (record { code = of_u16 code; description = non_empty description })
unfolding parse_close_payload
read_back code [] h u = ground (
  arith,
  length-append (to_be_bytes 2 code) [],
  length-to_be_bytes 2 code,
  take_all 2 (to_be_bytes 2 code) [],
  from_be_bytes-to_be_bytes 2 code,
)
read_back code (b ∷ bs) h u = ground (
  arith,
  length-append (to_be_bytes 2 code) (b ∷ bs),
  length-to_be_bytes 2 code,
  take_all 2 (to_be_bytes 2 code) (b ∷ bs),
  drop_all 2 (to_be_bytes 2 code) (b ∷ bs),
  from_be_bytes-to_be_bytes 2 code,
  from_utf8_lossy_lem (b ∷ bs) u,
)

-- A close frame's payload gives back the code and the description that were put in. An empty
-- description comes back as none, and a code that has a name comes back by its name.
pub parse_close_payload-close_payload :
    (r : CloseReason)
    → IsReason r
    → parse_close_payload (close_payload (some r)) ≡ some (normal_reason r)
parse_close_payload-close_payload r h =
    ap parse_close_payload (close_payload_lem r)
    ∙ read_back (to_u16 r.code) (text_of r.description) h.code_fits h.utf8
