-- ===== src/H1/Encode.antt =====
-- The body encoder of actix-http-alt/src/h1/proto/encode.rs.
pub mod Hex
pub mod RoundTrip
pub mod Sized
pub mod Onto
use actix_server_alt.Prelude.{
  ℕ, zero, suc, ◌+◌, ◌-◌, ◌/◌, ◌%◌, Bool, true, false, not, List, [], ◌∷◌, ◌++◌, length, take, min,
  ltb, ◌==◌, if◌then◌else◌, Result, ok, err,
}
use actix_server_alt.H1.Kind.{Kind, decode_chunked, encode_chunked, plain_chunked}
use actix_server_alt.H1.Context.{ConnectionType, upgrade}
use actix_server_alt.H1.Buf.{EncodedBuf, buf, static, WriteBuf, flat, queue, WriteListBuf, buffer}

-- `TransferEncoding`
pub record TransferEncoding : Type 0 where
  pub kind : Kind

unfoldable pub eof : TransferEncoding
eof = record { kind = Kind.eof }

unfoldable pub chunked : TransferEncoding
chunked = record { kind = encode_chunked false }

unfoldable pub plain : TransferEncoding
plain = record { kind = plain_chunked }

unfoldable pub sized : ℕ → TransferEncoding
sized len = record { kind = Kind.length len }

-- `ResponseBody`, as far as `encoder` reads it
pub data ResponseBody : Type 0 where
  none stream : ResponseBody
  bytes : List ℕ → ResponseBody

-- `ResponseBody::encoder`
unfoldable pub encoder : ResponseBody → ConnectionType → TransferEncoding
encoder none ctype = eof
encoder (bytes b) ctype = sized (length b)
encoder stream upgrade = plain
encoder stream ctype = chunked

abbrev pub is_empty : List ℕ → Bool
is_empty [] = true
is_empty (b ∷ bs) = false

-- One digit of the format `{:X}`.
unfoldable pub upper_digit : ℕ → ℕ
upper_digit d = if ltb d 10 then d + b'0' else d - 10 + b'A'

unfoldable pub hex_digits : ℕ → ℕ → List ℕ
unfolding upper_digit
hex_digits zero n = []
hex_digits (suc fuel) n =
    let front = hex_digits fuel (n / 16) in
    if ltb n 16 then upper_digit n ∷ [] else front ++ upper_digit (n % 16) ∷ []

-- The format `{:X}` of a `usize`, which has 16 digits at most.
unfoldable pub upper_hex : ℕ → List ℕ
unfolding hex_digits
upper_hex n = hex_digits 16 n

abbrev pub crlf : List ℕ
crlf = 13 ∷ 10 ∷ []

-- `b"0\r\n\r\n"`
abbrev pub last_chunk : List ℕ
last_chunk = 48 ∷ 13 ∷ 10 ∷ 13 ∷ 10 ∷ []

-- `put_slice` of the flat buffer or `buffer` of the list
unfoldable pub put_bytes : WriteBuf → List ℕ → WriteBuf
unfolding buffer
put_bytes (flat b) msg = flat (b ++ msg)
put_bytes (queue w) msg = queue (buffer w (buf msg))

unfoldable pub put_static : WriteBuf → List ℕ → WriteBuf
unfolding buffer
put_static (flat b) text = flat (b ++ text)
put_static (queue w) text = queue (buffer w (static text))

-- A chunk: its size and the end of the line, the bytes, and the end of the line.
unfoldable pub put_chunk : WriteBuf → List ℕ → WriteBuf
unfolding buffer
put_chunk (flat b) msg = flat (((b ++ (upper_hex (length msg) ++ crlf)) ++ msg) ++ crlf)
put_chunk (queue w) msg =
    queue
      (buffer (buffer (buffer w (buf (upper_hex (length msg) ++ crlf))) (buf msg)) (static crlf))

-- The error of the encoder, and the panic of `unreachable!()`.
pub data EncodeFailure : Type 0 where
  unexpected_eof panicked : EncodeFailure

-- What a call leaves: the kind with its counters, the buffer and the result.
pub record Encoded {ℓ} (A : Type ℓ) : Type ℓ where
  pub kind : Kind
  pub buf : WriteBuf
  pub result : Result EncodeFailure A

-- `TransferEncoding::encode`; the result is whether the encoder is at its end.
unfoldable pub encode : Kind → List ℕ → WriteBuf → Encoded Bool
unfolding put_bytes put_static put_chunk
encode Kind.eof msg w = record {
  kind = Kind.eof;
  buf = put_bytes w msg;
  result = ok (is_empty msg);
}
encode plain_chunked msg w = record {
  kind = plain_chunked;
  buf = put_bytes w msg;
  result = ok (is_empty msg);
}
encode (encode_chunked true) msg w = record {
  kind = encode_chunked true;
  buf = w;
  result = ok true;
}
encode (encode_chunked false) msg w =
    if is_empty msg
    then (record { kind = encode_chunked true; buf = put_static w last_chunk; result = ok true })
    else (record { kind = encode_chunked false; buf = put_chunk w msg; result = ok false })
encode (Kind.length remaining) msg w =
    if ltb 0 remaining
    then (if is_empty msg
        then (record { kind = Kind.length remaining; buf = w; result = ok (remaining == 0) })
        else let len = min remaining (length msg) in
          record {
            kind = Kind.length (remaining - len);
            buf = put_bytes w (take len msg);
            result = ok (remaining - len == 0);
          })
    else (record { kind = Kind.length remaining; buf = w; result = ok true })
encode (decode_chunked state size) msg w = record {
  kind = decode_chunked state size;
  buf = w;
  result = err panicked;
}

-- `TransferEncoding::encode_eof`
unfoldable pub encode_eof : Kind → WriteBuf → Encoded (Unit {0})
unfolding put_static
encode_eof Kind.eof w = record { kind = Kind.eof; buf = w; result = ok tt }
encode_eof plain_chunked w = record { kind = plain_chunked; buf = w; result = ok tt }
encode_eof (Kind.length rem) w = record {
  kind = Kind.length rem;
  buf = w;
  result = if not (rem == 0) then err unexpected_eof else ok tt;
}
encode_eof (encode_chunked eof) w = record {
  kind = encode_chunked true;
  buf = if not eof then put_static w last_chunk else w;
  result = ok tt;
}
encode_eof (decode_chunked state size) w = record {
  kind = decode_chunked state size;
  buf = w;
  result = err panicked;
}

-- `ResponseHandler::poll` of actix-http-alt/src/h1/proto/dispatcher.rs over a body that yields the
-- messages one after the other: each is encoded, whatever `encode` answers, and then the end.
unfoldable pub encode_all : Kind → List (List ℕ) → WriteBuf → Encoded (Unit {0})
unfolding encode encode_eof
encode_all kind [] w = encode_eof kind w
encode_all kind (msg ∷ msgs) w = let e = encode kind msg w in encode_all e.kind msgs e.buf
