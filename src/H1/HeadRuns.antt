-- ===== src/H1/HeadRuns.antt =====
-- Heads of requests and responses, and an answer, on concrete bytes.
use actix_server_alt.Prelude.{
  zero, suc, ◌+◌, ◌/◌, ◌%◌, ltb, ◌==◌, ℕ, Option, true, false, ◌≡◌, refl, none, some, List, [], ◌∷◌,
  ◌++◌, if◌then◌else◌, ok, err, arith, length, leb, map,
}
use actix_server_alt.Prelude.Text.{codes, eq_ignore_ascii_case}
use actix_server_alt.H1.Header.{
  connect, other, http_11, transfer_encoding, content_length, connection, named, HeaderName,
  HeaderMap,
}
use actix_server_alt.H1.Context.{close, is_force_close, new_context}
use actix_server_alt.H1.Decode.{chunked}
use actix_server_alt.H1.Head.{
  parse, header_too_large, refused, panicked, Header, ParsedHead, HttpParse, complete, partial,
  Crates, max_headers,
}
use actix_server_alt.H1.Head.Read.{decode_head, version_of}
use actix_server_alt.H1.Head.Framing.Whole.{WholeHead, decode_head-WholeHead, request}
use actix_server_alt.H1.Buf.{flat, ReadBuf}
use actix_server_alt.H1.Encode.{bytes, encoder}
use actix_server_alt.H1.Encode.RoundTrip.{bytes_in}
use actix_server_alt.H1.Head.Write.{Texts, Parts, none_size, sized, body_size, encode_head}
use actix_server_alt.H1.Head.Answer.{parts_of}
use actix_server_alt.H1.Head.Rendered.{IsRendered, encode_head-IsRendered}
use actix_server_alt.H1.Head.Entries.{types_after, named_entry}
use actix_server_alt.H1.Head.Announce.{announced, encode_head-announced}
use actix_server_alt.H1.Socket.{accepted}
use actix_server_alt.H1.Dispatcher.Respond.{Round, goes_on, Progress, finished}
use actix_server_alt.H1.Dispatcher.Serve.{Serving}
use actix_server_alt.H1.Dispatcher.Exchange.{Exchanged, written, answer}
use actix_server_alt.H1.Dispatcher.Exchange.Sends.{IsTold, answer-IsTold}

abbrev post : List ℕ
post = codes "POST / HTTP/1.1\r\nTransfer-Encoding: Chunked\r\n\r\n"

abbrev post_head : ParsedHead
post_head = record {
  len = 47;
  method = codes "POST";
  path = codes "/";
  version = 1;
  headers = record { name_start = 17; name_len = 17; value_start = 36; value_len = 7 } ∷ [];
}

-- Crates that know the request above and the names of the headers in the tests.
abbrev crates : Crates
crates = record {
  parse_head = λ buf. if leb 47 (length buf) then complete post_head else partial;
  method_of =
      λ text. if eq_ignore_ascii_case text (codes "CONNECT") then ok connect else ok (other text);
  uri_of = λ text. ok text;
  name_of = λ text.
      if eq_ignore_ascii_case text (codes "transfer-encoding")
      then some transfer_encoding
      else if eq_ignore_ascii_case text (codes "content-length")
      then some content_length
      else some (named text);
  value_of = λ text. some text;
}

post_read :
    (decode_head crates 64 new_context (post ++ codes "5\r\n")).result
    ≡ ok (
        some (
          request
              (other (codes "POST"))
              http_11
              (codes "/")
              ((transfer_encoding, codes "Chunked") ∷ []),
          chunked,
        ))
unfolding decode_head new_context
post_read = refl

-- A head that is not there yet, and one that will not fit.
post_partial :
    ((decode_head crates 64 new_context (codes "POST")).result ≡ ok none)
    × ((decode_head crates 4 new_context (codes "POST")).result
        ≡ err (refused (parse header_too_large)))
unfolding decode_head
post_partial = (refl, refl)

decode_head-WholeHead_example :
    WholeHead
      (other (codes "POST"))
      (version_of 1)
      (codes "/")
      ((transfer_encoding, codes "Chunked") ∷ [])
      (codes "5\r\n")
      (decode_head crates 64 new_context (post ++ codes "5\r\n"))
unfolding eq_ignore_ascii_case actix_server_alt.H1.Head.entry new_context
decode_head-WholeHead_example =
    decode_head-WholeHead crates 64 new_context (post ++ codes "5\r\n") post_head
      (other (codes "POST")) (codes "/") ((transfer_encoding, codes "Chunked") ∷ []) refl refl refl
      (omega arith) (record { name = omega arith; value = omega arith }, tt) refl refl

digits : ℕ → ℕ → List ℕ
digits zero n = []
digits (suc fuel) n =
    let front = digits fuel (n / 10) in
    if ltb n 10 then (48 + n) ∷ [] else front ++ (48 + n % 10) ∷ []

abbrev text_of : HeaderName → List ℕ
text_of (named text) = text
text_of connection = codes "connection"
text_of _ = codes "other"

abbrev texts : Texts
texts = record {
  debug_assertions = true;
  name_text = text_of;
  status_text = digits 3;
  reason = λ status.
      if status == 404
      then some (codes "Not Found")
      else if status == 200
      then some (codes "OK")
      else none;
  decimal = digits 20;
}

-- A date of the epoch
abbrev epoch : List ℕ
epoch = codes "Thu, 01 Jan 1970 00:00:00 GMT"

abbrev answer_headers : HeaderMap
answer_headers = (named (codes "server"), codes "x") ∷ (connection, codes "x, Close") ∷ []

abbrev answer_parts : Parts
answer_parts = parts_of http_11 404 answer_headers

not_found :
    let r = encode_head texts epoch new_context answer_parts (sized 2) (flat (codes "..")) in
    (r.result ≡ ok tt)
    × (r.ctx ≡ record { state = 0; ctype = close; header_cache = some [] })
    × (r.buf
        ≡ flat (
            codes
              "..HTTP/1.1 404 Not Found\r\nserver: x\r\nconnection: x, Close\r\ncontent-length: 2\r\ndate: "
            ++ epoch
            ++ codes "\r\n\r\n"))
unfolding encode_head new_context digits actix_server_alt.Prelude.Text.is_visible
    actix_server_alt.H1.Head.Write.tokens_ctype actix_server_alt.H1.Head.Write.split_commas
not_found = (refl, refl, refl)

-- A further value of a header comes without its name, and the call panics.
two_values :
    (encode_head texts epoch new_context
      (record { version = http_11; status = 200; headers = (none, codes "x") ∷ [] })
      none_size
      (flat [])).result
    ≡ err panicked
unfolding encode_head new_context
two_values = refl

-- A second header for the length fails an assertion.
two_lengths :
    (encode_head texts epoch new_context
      (parts_of http_11 200
        ((content_length, codes "1") ∷ (transfer_encoding, codes "chunked") ∷ []))
      none_size
      (flat [])).result
    ≡ err panicked
unfolding encode_head new_context
two_lengths = refl

encode_head-IsRendered_example :
    IsRendered texts epoch new_context http_11 404
      (map named_entry answer_headers)
      (sized 2)
      (flat (codes ".."))
      (encode_head texts epoch new_context answer_parts (sized 2) (flat (codes "..")))
unfolding digits
encode_head-IsRendered_example =
    encode_head-IsRendered texts epoch new_context http_11 404 (map named_entry answer_headers)
      (sized 2) (flat (codes "..")) refl (refl, refl)

told_close : types_after (is_force_close new_context) answer_headers new_context.ctype ≡ close
unfolding is_force_close new_context actix_server_alt.H1.Head.Write.split_commas
    eq_ignore_ascii_case actix_server_alt.Prelude.Text.trim
told_close = refl

encode_head-announced_example :
    let r =
      encode_head texts epoch new_context answer_parts
        (body_size (bytes (codes "hi")))
        (flat (codes "..")) in
    (r.result ≡ ok tt)
    × (bytes_in r.buf
        ≡ bytes_in (flat (codes ".."))
          ++ announced texts epoch
              (is_force_close new_context)
              http_11
              404
              answer_headers
              (encoder (bytes (codes "hi")) r.ctx.ctype).kind)
unfolding actix_server_alt.H1.Head.Write.skip_len new_context is_force_close
    actix_server_alt.Prelude.Text.is_visible
encode_head-announced_example =
    encode_head-announced texts epoch new_context http_11 404 answer_headers (bytes (codes "hi"))
      (flat (codes "..")) refl refl refl (refl, (refl, tt)) (λ e. let told = told_close in cc)

-- A request without a body, which was served.
abbrev served : Serving
served = record { handle = none; read_buf = []; fed = []; force_close = false; taken = [] }

abbrev on : Round
on = record { asked = goes_on; writes = accepted 300 ∷ []; wakes = []; flushed = true }

answer-IsTold_example :
    IsTold texts epoch 64
      ((on ∷ on ∷ on ∷ on ∷ []) ∷ [])
      new_context
      http_11
      404
      (map named_entry answer_headers)
      (bytes (codes "hi"))
      []
      []
      served
      (answer texts epoch 64
        ((on ∷ on ∷ on ∷ on ∷ []) ∷ [])
        new_context
        answer_parts
        (bytes (codes "hi"))
        []
        (flat [])
        served)
answer-IsTold_example =
    answer-IsTold texts epoch 64 ((on ∷ on ∷ on ∷ on ∷ []) ∷ []) new_context http_11 404
      (map named_entry answer_headers) (bytes (codes "hi")) [] [] served (omega arith) (omega arith)
      tt

-- The head fills the buffer and is sent, and then the body follows it.
abbrev progress_of : Option Exchanged → Option (List ℕ × Progress)
progress_of (some (written ctx t p)) = some (bytes_in t.buf, p)
progress_of _ = none

whole_answer :
    progress_of (
      answer texts epoch 64
        ((on ∷ on ∷ on ∷ on ∷ []) ∷ [])
        new_context
        answer_parts
        (bytes (codes "hi"))
        []
        (flat [])
        served)
    ≡ some (codes "hi", finished)
unfolding answer bytes_in actix_server_alt.H1.Dispatcher.Respond.respond_polls encode_head
    new_context digits actix_server_alt.Prelude.Text.is_visible
    actix_server_alt.H1.Head.Write.tokens_ctype actix_server_alt.H1.Head.Write.split_commas
    actix_server_alt.H1.Encode.sized
whole_answer = refl

abbrev posted : ReadBuf
posted = record { advanced = true; buf = post ++ codes "5\r\n" }
