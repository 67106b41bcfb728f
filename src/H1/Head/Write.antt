-- ===== src/H1/Head/Write.antt =====
-- `encode_continue` and `encode_head` of actix-http-alt/src/h1/proto/encode.rs: the head of a response. How
-- the crates http and itoa write names, status codes and numbers is a parameter, and so is the date.
use actix_server_alt.Prelude.{
  ℕ, Bool, true, false, not, ◌&&◌, Option, none, some, List, [], ◌∷◌, ◌++◌, length, ltb, leb, ◌==◌,
  if◌then◌else◌, Result, ok, err,
}
use actix_server_alt.Prelude.Text.{codes, is_visible, eq_ignore_ascii_case, trim}
use actix_server_alt.Util.BufList.{push}
use actix_server_alt.H1.Header.{
  Version, http_10, http_11, HeaderName, transfer_encoding, content_length, connection, date,
}
use actix_server_alt.H1.Context.{
  ConnectionType, Context, set_ctype, is_force_close, is_connect_method,
}
use actix_server_alt.H1.Buf.{
  EncodedBuf, static, WriteBuf, flat, queue, WriteListBuf, buffer, bytes_ops,
}
use actix_server_alt.H1.Encode.{ResponseBody}
use actix_server_alt.H1.Head.{
  ProtoError, parse, status_code, header_value, Failure, refused, panicked,
}

-- `HeaderName::as_str`, `StatusCode::as_str`, `StatusCode::canonical_reason` and `itoa::Buffer::format`,
-- and whether the build has `debug_assert!`.
pub record Texts : Type 0 where
  pub debug_assertions : Bool
  pub name_text : HeaderName → List ℕ
  pub status_text : ℕ → List ℕ
  pub reason : ℕ → Option (List ℕ)
  pub decimal : ℕ → List ℕ

-- `http::response::Parts`, with the headers as `drain` yields them: a further value of a header comes
-- without its name.
pub record Parts : Type 0 where
  pub version : Version
  pub status : ℕ
  pub headers : List (Option HeaderName × List ℕ)

-- `ResponseBodySize`
pub data ResponseBodySize : Type 0 where
  none_size stream_size : ResponseBodySize
  sized : ℕ → ResponseBodySize

-- `ResponseBody::size` of actix-http-alt/src/body.rs
unfoldable pub body_size : ResponseBody → ResponseBodySize
body_size ResponseBody.none = none_size
body_size (ResponseBody.bytes b) = sized (length b)
body_size ResponseBody.stream = stream_size

-- `Context::encode_continue`
unfoldable pub encode_continue : WriteBuf → WriteBuf
unfolding buffer
encode_continue (flat bytes) = flat (bytes ++ codes "HTTP/1.1 100 Continue\r\n\r\n")
encode_continue (queue w) = queue (buffer w (static (codes "HTTP/1.1 100 Continue\r\n\r\n")))

abbrev pub reason_or_none : Option (List ℕ) → List ℕ
reason_or_none none = codes "<none>"
reason_or_none (some text) = text

-- What `encode_version_status_reason` puts behind the version
abbrev pub status_reason : Texts → ℕ → List ℕ
status_reason texts status =
    texts.status_text status ++ codes " " ++ reason_or_none (texts.reason status) ++ codes "\r\n"

-- `encode_version_status_reason`
unfoldable pub status_line : Texts → Version → ℕ → List ℕ
status_line texts http_10 status = codes "HTTP/1.0 " ++ status_reason texts status
status_line texts http_11 status =
    if status == 200
    then codes "HTTP/1.1 200 OK\r\n"
    else codes "HTTP/1.1 " ++ status_reason texts status
status_line texts _ status = codes "HTTP/1.1 " ++ status_reason texts status

-- `let mut skip_len = match (status, version)`
unfoldable pub skip_len : Context → ℕ → Result ProtoError Bool
unfolding is_connect_method
skip_len ctx status =
    if status == 101
    then ok false
    else if is_connect_method ctx && (leb 200 status && ltb status 300)
    then ok true
    else if leb 100 status && ltb status 200
    then err (parse status_code)
    else ok false

-- `str::split(',')`
abbrev pub add_front : ℕ → List (List ℕ) → List (List ℕ)
add_front b [] = (b ∷ []) ∷ []
add_front b (piece ∷ pieces) = (b ∷ piece) ∷ pieces

unfoldable pub split_commas : List ℕ → List (List ℕ)
split_commas [] = [] ∷ []
split_commas (b ∷ text) =
    let pieces = split_commas text in if b == b',' then [] ∷ pieces else add_front b pieces

-- One piece of the value of the header `CONNECTION`
unfoldable pub token_ctype : List ℕ → Context → Context
unfolding eq_ignore_ascii_case trim set_ctype
token_ctype val ctx =
    if eq_ignore_ascii_case (trim val) (codes "close")
    then set_ctype ConnectionType.close ctx
    else if eq_ignore_ascii_case (trim val) (codes "keep-alive")
    then set_ctype ConnectionType.keep_alive ctx
    else if eq_ignore_ascii_case (trim val) (codes "upgrade")
    then set_ctype ConnectionType.upgrade ctx
    else ctx

unfoldable pub tokens_ctype : List (List ℕ) → Context → Context
unfolding token_ctype
tokens_ctype [] ctx = ctx
tokens_ctype (val ∷ vals) ctx = tokens_ctype vals (token_ctype val ctx)

-- What the loop over the headers changes.
pub record HeadWrite : Type 0 where
  pub ctx : Context
  pub skip_len : Bool
  pub skip_date : Bool
  pub buf : List ℕ

unfoldable pub header_line : Texts → HeaderName → List ℕ → List ℕ
header_line texts name value = texts.name_text name ++ codes ": " ++ value ++ codes "\r\n"

unfoldable pub put_header : Texts → HeaderName → List ℕ → HeadWrite → HeadWrite
unfolding header_line
put_header texts name value s = record s { buf = s.buf ++ header_line texts name value }

-- `match name`, and the line of the header; an error leaves the state as it was. A header for the
-- length of the body is asserted to be the first, and to be none where the length is skipped.
unfoldable pub write_header : Texts → HeaderName → List ℕ → HeadWrite → Result Failure HeadWrite
unfolding put_header
write_header texts content_length value s =
    if texts.debug_assertions && s.skip_len
    then err panicked
    else ok (put_header texts content_length value (record s { skip_len = true }))
write_header texts transfer_encoding value s =
    if texts.debug_assertions && s.skip_len
    then err panicked
    else ok (put_header texts transfer_encoding value (record s { skip_len = true }))
write_header texts connection value s =
    if is_force_close s.ctx
    then ok s
    else if is_visible value
    then ok (
        put_header texts connection value
          (record s { ctx = tokens_ctype (split_commas value) s.ctx }))
    else err (refused (parse header_value))
write_header texts date value s = ok (put_header texts date value (record s { skip_date = true }))
write_header texts name value s = ok (put_header texts name value s)

unfoldable pub after_write :
    (HeadWrite → HeadWrite × Result Failure (Unit {0}))
    → HeadWrite
    → Result Failure HeadWrite
    → HeadWrite × Result Failure (Unit {0})
after_write again s (err e) = (s, err e)
after_write again s (ok s') = again s'

-- `for (name, value) in parts.headers.drain()`
unfoldable pub write_headers :
    Texts → List (Option HeaderName × List ℕ) → HeadWrite → HeadWrite × Result Failure (Unit {0})
unfolding write_header after_write
write_headers texts [] s = (s, ok tt)
write_headers texts ((none, value) ∷ headers) s = (s, err panicked)
write_headers texts ((some name, value) ∷ headers) s =
    after_write (write_headers texts headers) s (write_header texts name value s)

-- `if !skip_len`
unfoldable pub length_line : Texts → ResponseBodySize → List ℕ
length_line texts none_size = []
length_line texts stream_size = codes "transfer-encoding: chunked\r\n"
length_line texts (sized size) = codes "content-length: " ++ texts.decimal size ++ codes "\r\n"

-- What follows the headers: `now` is the text of the date.
unfoldable pub head_end : Texts → List ℕ → ResponseBodySize → HeadWrite → List ℕ
unfolding length_line is_force_close
head_end texts now size s =
    (if is_force_close s.ctx then codes "connection: close\r\n" else [])
    ++ (if not s.skip_len then length_line texts size else [])
    ++ (if not s.skip_date then codes "date: " ++ now ++ codes "\r\n\r\n" else codes "\r\n")

-- What a call leaves.
pub record HeadWritten {ℓ} (B : Type ℓ) : Type ℓ where
  pub ctx : Context
  pub buf : B
  pub result : Result Failure (Unit {0})

unfoldable pub finish_write :
    Texts → List ℕ → ResponseBodySize → HeadWrite × Result Failure (Unit {0}) → HeadWritten (List ℕ)
unfolding head_end
finish_write texts now size (s, err e) = record { ctx = s.ctx; buf = s.buf; result = err e }
finish_write texts now size (s, ok t) = record {
  ctx = record (s.ctx) { header_cache = some [] };
  buf = s.buf ++ head_end texts now size s;
  result = ok tt;
}

-- `Context::encode_head_inner`; the map that was drained is cached.
unfoldable pub encode_head_inner :
    Texts → List ℕ → Context → Parts → ResponseBodySize → List ℕ → HeadWritten (List ℕ)
unfolding skip_len status_line write_headers finish_write
encode_head_inner texts now ctx parts size buf = elim (skip_len ctx parts.status) [
  | err e ↦ record { ctx = ctx; buf = buf; result = err (refused e) }
  | ok skip ↦ finish_write texts now size (
      write_headers texts parts.headers (record {
        ctx = ctx;
        skip_len = skip;
        skip_date = false;
        buf = buf ++ status_line texts parts.version parts.status;
      }))
]

-- `Context::encode_head`: a list gets the head as one buffer of its own.
unfoldable pub list_head : WriteListBuf → HeadWritten (List ℕ) → HeadWritten WriteBuf
list_head w r = elim r.result [
  | err e ↦ record { ctx = r.ctx; buf = queue (record w { buf = r.buf }); result = err e }
  | ok t ↦ record {
    ctx = r.ctx;
    buf = queue (record { buf = []; list = push bytes_ops w.list (EncodedBuf.buf r.buf) });
    result = ok tt;
  }
]

unfoldable pub encode_head :
    Texts → List ℕ → Context → Parts → ResponseBodySize → WriteBuf → HeadWritten WriteBuf
unfolding encode_head_inner list_head
encode_head texts now ctx parts size (flat bytes) =
    let r = encode_head_inner texts now ctx parts size bytes in
    record { ctx = r.ctx; buf = flat r.buf; result = r.result }
encode_head texts now ctx parts size (queue w) =
    list_head w (encode_head_inner texts now ctx parts size w.buf)
