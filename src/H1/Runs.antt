-- ===== src/H1/Runs.antt =====
-- Runs of the HTTP/1 modules on concrete bodies.
use mathlib.Core.List.{flatten}
use actix_server_alt.Prelude.{
  take, ltb, if◌then◌else◌, length, map, err, ℕ, ◌≡◌, refl, true, false, some, List, [], ◌∷◌, ◌++◌,
  arith, All, ok,
}
use actix_server_alt.H1.Chunked.{ChunkedState, size_lf, body, end, IoError, invalid_size}
use actix_server_alt.H1.Kind.{Kind, decode_chunked, encode_chunked}
use actix_server_alt.H1.Decode.{chunk, eof, decode_loop, decode, header, chunked, sized, reset}
use actix_server_alt.H1.Decode.Reference.{feed, IsReading, Explained}
use actix_server_alt.H1.Decode.Reference.Loop.{loop_Explained}
use actix_server_alt.H1.Dispatcher.{Status, Read, running, done, got, drain, read_loop}
use actix_server_alt.H1.Dispatcher.Incremental.{Reads, read_loop-feed, read_loop-feed_behind}
use actix_server_alt.H1.Buf.{flat}
use actix_server_alt.H1.Encode.{unexpected_eof, upper_hex, encode_all}
use actix_server_alt.H1.Encode.Sized.{encode_all-take}
use actix_server_alt.H1.Dispatcher.Sized.{Takes, read_loop-Takes}
use actix_server_alt.H1.Encode.RoundTrip.{bytes_in, until_empty, FitsUsize, read_loop-encode_all}

-- "1a" in hexadecimal digits of both cases, with an extension, and the front of the chunk.
abbrev some_chunk : List ℕ
some_chunk = 49 ∷ 97 ∷ 59 ∷ 120 ∷ 13 ∷ 10 ∷ 72 ∷ 105 ∷ []

-- "2", two bytes, and the end of the body; a byte of the next request follows.
abbrev whole_body : List ℕ
whole_body = 50 ∷ 13 ∷ 10 ∷ 72 ∷ 105 ∷ 13 ∷ 10 ∷ 48 ∷ 13 ∷ 10 ∷ 13 ∷ 10 ∷ 71 ∷ []

decoded_part :
    decode (decode_chunked ChunkedState.size 0) some_chunk
    ≡ some (record {
      kind = decode_chunked body 24;
      src = [];
      result = ok (some (chunk (72 ∷ 105 ∷ [])));
    })
unfolding decode actix_server_alt.H1.Chunked.step actix_server_alt.H1.Chunked.push_digit
decoded_part = refl

drained :
    drain 14 (decode_chunked ChunkedState.size 0) whole_body
    ≡ some (record {
      kind = decode_chunked end 0;
      src = 71 ∷ [];
      items = chunk (72 ∷ 105 ∷ []) ∷ eof ∷ [];
      status = done;
    })
unfolding drain decode actix_server_alt.H1.Chunked.step actix_server_alt.H1.Chunked.push_digit
drained = refl

-- A size of more than sixteen digits wraps: 1 and sixteen zeros are read as 0, the end of the body.
wrapped_size :
    decode (decode_chunked ChunkedState.size 0) (
      49 ∷ 48 ∷ 48 ∷ 48 ∷ 48 ∷ 48 ∷ 48 ∷ 48 ∷ 48 ∷ 48 ∷ 48 ∷ 48 ∷ 48 ∷ 48 ∷ 48 ∷ 48 ∷ 48 ∷ 13 ∷ 10
      ∷ 13 ∷ 10 ∷ [])
    ≡ some (record { kind = decode_chunked end 0; src = []; result = ok (some eof) })
unfolding decode actix_server_alt.H1.Chunked.step actix_server_alt.H1.Chunked.push_digit
wrapped_size = refl

-- A length over another length is accepted, a length over a chunked body is not.
reset_twice : (reset (sized 1) (sized 2) ≡ ok (sized 2)) × (reset chunked (sized 2) ≡ err header)
unfolding reset chunked sized
reset_twice = (refl, refl)

start_IsReading : IsReading ChunkedState.size 0
start_IsReading = (tt, λ e. cc)

loop_Explained_example :
    Explained ChunkedState.size 0 whole_body (decode_loop 14 ChunkedState.size 0 whole_body)
loop_Explained_example =
    loop_Explained 14 ChunkedState.size 0 whole_body (omega arith) start_IsReading

read_loop-feed_example :
    Reads
      (read_loop
        (map got (some_chunk ∷ [] ∷ whole_body ∷ []))
        (decode_chunked ChunkedState.size 0)
        [])
      (feed ChunkedState.size 0 (flatten (some_chunk ∷ [] ∷ whole_body ∷ [])))
read_loop-feed_example =
    read_loop-feed (some_chunk ∷ [] ∷ whole_body ∷ []) ChunkedState.size 0 start_IsReading

abbrev messages : List (List ℕ)
messages = (72 ∷ 105 ∷ []) ∷ (33 ∷ []) ∷ []

messages_fit : All FitsUsize messages
messages_fit = ground arith

read_loop-encode_all_example :
    (bytes : List ℕ) × (bytes_in (encode_all (encode_chunked false) messages (flat (71 ∷ []))).buf
      ≡ bytes_in (flat (71 ∷ [])) ++ bytes)
    × ((encode_all (encode_chunked false) messages (flat (71 ∷ []))).result ≡ ok tt)
    × ((pieces : List (List ℕ)) (rest : List ℕ)
        → flatten pieces ≡ bytes ++ rest
        → Reads (read_loop (map got pieces) (decode_chunked ChunkedState.size 0) []) (record {
          state = end;
          size = 0;
          bytes = flatten (until_empty messages);
          rest = rest;
          status = done;
        }))
read_loop-encode_all_example = read_loop-encode_all messages (flat (71 ∷ [])) messages_fit

-- What goes over the socket for two messages.
encoded : encode_all (encode_chunked false) messages (flat []) ≡ record {
  kind = encode_chunked true;
  buf = flat (
      50 ∷ 13 ∷ 10 ∷ 72 ∷ 105 ∷ 13 ∷ 10 ∷ 49 ∷ 13 ∷ 10 ∷ 33 ∷ 13 ∷ 10 ∷ 48 ∷ 13 ∷ 10 ∷ 13 ∷ 10
      ∷ []);
  result = ok tt;
}
unfolding encode_all upper_hex
encoded = refl

encode_all-take_example :
    let e = encode_all (Kind.length 4) messages (flat []) in
    (bytes_in e.buf ≡ bytes_in (flat []) ++ take 4 (flatten messages))
    × (e.result ≡ (if ltb (length (flatten messages)) 4 then err unexpected_eof else ok tt))
encode_all-take_example = encode_all-take messages 4 (flat [])

read_loop-Takes_example :
    Takes
      (read_loop (map got (whole_body ∷ some_chunk ∷ [])) (Kind.length 15) [])
      15
      (flatten (whole_body ∷ some_chunk ∷ []))
read_loop-Takes_example = read_loop-Takes (whole_body ∷ some_chunk ∷ []) 15 (omega arith)

-- The bytes that came before an error of the socket are in the buffer.
read_then_fail :
    read_loop (Read.broken some_chunk ∷ []) (decode_chunked ChunkedState.size 0) []
    ≡ some (record {
      kind = decode_chunked ChunkedState.size 0;
      src = some_chunk;
      items = [];
      status = Status.closed;
    })
unfolding read_loop
read_then_fail = refl

read_loop-feed_behind_example :
    Reads
      (read_loop
        (got (72 ∷ 105 ∷ []) ∷ map got (whole_body ∷ []))
        (decode_chunked ChunkedState.size 0)
        (50 ∷ 13 ∷ 10 ∷ []))
      (feed ChunkedState.size 0
        ((50 ∷ 13 ∷ 10 ∷ []) ++ flatten ((72 ∷ 105 ∷ []) ∷ whole_body ∷ [])))
    × (read_loop
          (map got (map (λ (x : List ℕ). []) (whole_body ∷ [])))
          (decode_chunked ChunkedState.size 0)
          (50 ∷ 13 ∷ 10 ∷ [])
        ≡ some (record {
          kind = decode_chunked ChunkedState.size 0;
          src = 50 ∷ 13 ∷ 10 ∷ [];
          items = [];
          status = running;
        }))
read_loop-feed_behind_example =
    read_loop-feed_behind (50 ∷ 13 ∷ 10 ∷ []) 72 (105 ∷ []) (whole_body ∷ []) ChunkedState.size 0
      start_IsReading
