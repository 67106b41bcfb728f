-- ===== src/H1/Encode/RoundTrip.antt =====
-- What actix-http-alt/src/h1/proto/encode.rs writes as a chunked body, and what the decoder makes of it.
use mathlib.Core.List.{flatten}
use actix_server_alt.Prelude.{
  ℕ, ◌^◌, ◌<◌, ◌≡◌, refl, ap, subst, ok, ◌∙◌, List, [], ◌∷◌, ◌++◌, map, append-nil, append_assoc,
  arith, length, ltb, Bool, true, false, All,
}
use actix_server_alt.Util.BufList.{push}
use actix_server_alt.Util.BufList.Bytes.{bytes_of, bytes_of-append}
use actix_server_alt.H1.Chunked.{
  ChunkedState, body, body_cr, end, step, read_size, read_size_lf, read_body_cr, read_body_lf,
  read_end_cr, read_end_lf, push_digit,
}
use actix_server_alt.H1.Kind.{encode_chunked, decode_chunked}
use actix_server_alt.H1.Dispatcher.{done, got, read_loop}
use actix_server_alt.H1.Dispatcher.Incremental.{Reads, read_loop-feed}
use actix_server_alt.H1.Decode.Reference.{prepend, feed, settle, turn, read_turn, feed_last}
use actix_server_alt.H1.Buf.{
  EncodedBuf, buf, static, WriteBuf, flat, queue, WriteListBuf, buffer, bytes_ops, view,
  encoded_Buf,
}
use actix_server_alt.H1.Encode.{
  upper_hex, crlf, last_chunk, put_bytes, put_static, put_chunk, encode, encode_eof, encode_all,
}
use actix_server_alt.H1.Encode.Hex.{upper_hex-feed}

-- The bytes that a write buffer holds for the socket.
unfoldable pub bytes_in : WriteBuf → List ℕ
bytes_in (flat b) = b
bytes_in (queue w) = bytes_of bytes_ops w.list.bufs

buffer_bytes :
    (w : WriteListBuf) (b : EncodedBuf (List ℕ))
    → bytes_in (queue (buffer w b)) ≡ bytes_in (queue w) ++ bytes_ops.view b
unfolding bytes_in buffer push bytes_of
buffer_bytes w b =
    bytes_of-append bytes_ops w.list.bufs (b ∷ [])
    ∙ ap (λ (t : List ℕ). bytes_of bytes_ops w.list.bufs ++ t) (append-nil (bytes_ops.view b))

pub put_bytes_lem : (w : WriteBuf) (msg : List ℕ) → bytes_in (put_bytes w msg) ≡ bytes_in w ++ msg
unfolding bytes_in put_bytes encoded_Buf view
put_bytes_lem (flat b) msg = refl
put_bytes_lem (queue w) msg = buffer_bytes w (buf msg)

pub put_static_lem :
    (w : WriteBuf) (text : List ℕ) → bytes_in (put_static w text) ≡ bytes_in w ++ text
unfolding bytes_in put_static encoded_Buf view
put_static_lem (flat b) text = refl
put_static_lem (queue w) text = buffer_bytes w (static text)

abbrev pub chunk_of : List ℕ → List ℕ
chunk_of msg = (upper_hex (length msg) ++ crlf) ++ (msg ++ crlf)

three : (b h m c : List ℕ) → ((b ++ h) ++ m) ++ c ≡ b ++ (h ++ (m ++ c))
three b h m c = append_assoc (b ++ h) m c ∙ append_assoc b h (m ++ c)

pub put_chunk_lem :
    (w : WriteBuf) (msg : List ℕ) → bytes_in (put_chunk w msg) ≡ bytes_in w ++ chunk_of msg
unfolding bytes_in put_chunk encoded_Buf view
put_chunk_lem (flat b) msg = three b (upper_hex (length msg) ++ crlf) msg crlf
put_chunk_lem (queue w) msg =
    let size = upper_hex (length msg) ++ crlf in
    buffer_bytes (buffer (buffer w (buf size)) (buf msg)) (static crlf)
    ∙ ap (λ (t : List ℕ). t ++ crlf)
        (buffer_bytes (buffer w (buf size)) (buf msg)
          ∙ ap (λ (t : List ℕ). t ++ msg) (buffer_bytes w (buf size)))
    ∙ three (bytes_in (queue w)) size msg crlf

-- The end of the line behind a size that is not 0.
line_read :
    (n : ℕ) (rest : List ℕ) → 0 < n → feed ChunkedState.size n (crlf ++ rest) ≡ feed body n rest
unfolding feed turn step read_size read_size_lf read_turn settle
line_read n rest h = let some_left : ltb 0 n ≡ true = ground arith in rw some_left

end_read : (rest : List ℕ) → feed body_cr 0 (crlf ++ rest) ≡ feed ChunkedState.size 0 rest
unfolding feed turn step read_body_cr read_body_lf read_turn settle
end_read rest = refl

-- A chunk is read as its bytes, and the decoder stands before the next size.
chunk_read :
    (msg rest : List ℕ)
    → 0 < length msg
    → length msg < 2 ^ 64
    → feed ChunkedState.size 0 (chunk_of msg ++ rest) ≡ prepend msg (feed ChunkedState.size 0 rest)
chunk_read msg rest h f =
    let digits = upper_hex (length msg) in
    ap (feed ChunkedState.size 0) (
      append_assoc (digits ++ crlf) (msg ++ crlf) rest
      ∙ append_assoc digits crlf ((msg ++ crlf) ++ rest)
      ∙ ap (λ (t : List ℕ). digits ++ (crlf ++ t)) (append_assoc msg crlf rest))
    ∙ upper_hex-feed (length msg) (crlf ++ (msg ++ (crlf ++ rest))) f
    ∙ line_read (length msg) (msg ++ (crlf ++ rest)) h
    ∙ feed_last (length msg) msg (crlf ++ rest) refl h
    ∙ ap (prepend msg) (end_read rest)

last_read :
    (rest : List ℕ)
    → feed ChunkedState.size 0 (last_chunk ++ rest)
      ≡ record { state = end; size = 0; bytes = []; rest = rest; status = done }
unfolding feed turn step read_size read_size_lf read_end_cr read_end_lf read_turn settle push_digit
last_read rest = refl

-- The messages before the first empty one.
abbrev pub until_empty : List (List ℕ) → List (List ℕ)
until_empty [] = []
until_empty ([] ∷ msgs) = []
until_empty ((b ∷ bytes) ∷ msgs) = (b ∷ bytes) ∷ until_empty msgs

abbrev pub FitsUsize : List ℕ → Type 0
FitsUsize msg = length msg < 2 ^ 64

-- The bytes of a chunked body.
pub body_bytes : List (List ℕ) → List ℕ
body_bytes [] = last_chunk
body_bytes (msg ∷ msgs) = chunk_of msg ++ body_bytes msgs

ended_bytes :
    (msgs : List (List ℕ)) (w : WriteBuf)
    → bytes_in (encode_all (encode_chunked true) msgs w).buf ≡ bytes_in w
unfolding encode_all encode encode_eof
ended_bytes [] w = refl
ended_bytes (msg ∷ msgs) w = ended_bytes msgs w

pub encode_all-bytes :
    (msgs : List (List ℕ)) (w : WriteBuf)
    → bytes_in (encode_all (encode_chunked false) msgs w).buf
      ≡ bytes_in w ++ body_bytes (until_empty msgs)
unfolding encode_all encode encode_eof body_bytes
encode_all-bytes [] w = put_static_lem w last_chunk
encode_all-bytes ([] ∷ msgs) w =
    ended_bytes msgs (put_static w last_chunk) ∙ put_static_lem w last_chunk
encode_all-bytes ((b ∷ bytes) ∷ msgs) w =
    encode_all-bytes msgs (put_chunk w (b ∷ bytes))
    ∙ ap (λ (t : List ℕ). t ++ body_bytes (until_empty msgs)) (put_chunk_lem w (b ∷ bytes))
    ∙ append_assoc (bytes_in w) (chunk_of (b ∷ bytes)) (body_bytes (until_empty msgs))

body_read :
    (msgs : List (List ℕ)) (rest : List ℕ)
    → All FitsUsize msgs
    → feed ChunkedState.size 0 (body_bytes (until_empty msgs) ++ rest) ≡ record {
      state = end;
      size = 0;
      bytes = flatten (until_empty msgs);
      rest = rest;
      status = done;
    }
unfolding body_bytes flatten
body_read [] rest h = last_read rest
body_read ([] ∷ msgs) rest h = last_read rest
body_read ((b ∷ bytes) ∷ msgs) rest h =
    ap (feed ChunkedState.size 0)
      (append_assoc (chunk_of (b ∷ bytes)) (body_bytes (until_empty msgs)) rest)
    ∙ chunk_read (b ∷ bytes) (body_bytes (until_empty msgs) ++ rest) (omega arith) h.0
    ∙ ap (prepend (b ∷ bytes)) (body_read msgs rest h.1)

accepted :
    (msgs : List (List ℕ)) (eof : Bool) (w : WriteBuf)
    → (encode_all (encode_chunked eof) msgs w).result ≡ ok tt
unfolding encode_all encode encode_eof
accepted [] eof w = refl
accepted (msg ∷ msgs) true w = accepted msgs true w
accepted ([] ∷ msgs) false w = accepted msgs true (put_static w last_chunk)
accepted ((b ∷ bytes) ∷ msgs) false w = accepted msgs false (put_chunk w (b ∷ bytes))

-- A chunked body arrives. The encoder puts the messages of a body, and its end, behind what the write
-- buffer holds, flat or as a list; and however these bytes and any that follow are cut into reads,
-- the loop over the decoder ends behind the body, with the bytes of the messages, in order, for the
-- handler. Messages behind an empty one are not sent.
pub read_loop-encode_all :
    (msgs : List (List ℕ)) (w : WriteBuf)
    → All FitsUsize msgs
    → (bytes : List ℕ) × (bytes_in (encode_all (encode_chunked false) msgs w).buf
        ≡ bytes_in w ++ bytes)
      × ((encode_all (encode_chunked false) msgs w).result ≡ ok tt)
      × ((pieces : List (List ℕ)) (rest : List ℕ)
          → flatten pieces ≡ bytes ++ rest
          → Reads (read_loop (map got pieces) (decode_chunked ChunkedState.size 0) []) (record {
            state = end;
            size = 0;
            bytes = flatten (until_empty msgs);
            rest = rest;
            status = done;
          }))
read_loop-encode_all msgs w h = (
  body_bytes (until_empty msgs),
  encode_all-bytes msgs w,
  accepted msgs false w,
  λ pieces rest cut.
      subst (Reads (read_loop (map got pieces) (decode_chunked ChunkedState.size 0) []))
        (ap (feed ChunkedState.size 0) cut ∙ body_read msgs rest h)
        (read_loop-feed pieces ChunkedState.size 0 (tt, λ e. cc)),
)
