-- ===== src/H1/Head/Read.antt =====
-- `decode_head` of actix-http-alt/src/h1/proto/decode.rs: the head of a request and the decoder of its body.
use mathlib.Core.Option.{get_or}
use actix_server_alt.Prelude.{
  ℕ, not, Option, none, some, List, [], ◌∷◌, ◌++◌, map, length, take, drop, leb, ◌==◌,
  if◌then◌else◌, Result, ok, err, replicate,
}
use actix_server_alt.Prelude.Text.{
  codes, is_visible, same_bytes, eq_ignore_ascii_case, trim, parse_u64,
}
use actix_server_alt.H1.Header.{
  Method, connect, Version, http_10, http_11, HeaderName, transfer_encoding, content_length,
  connection, expect, upgrade, HeaderMap,
}
use actix_server_alt.H1.Context.{
  ConnectionType, Context, reset_context, set_connect_method, set_expect_header, set_ctype,
}
use actix_server_alt.H1.Decode.{TransferDecoding, sized, chunked, plain, until_eof, reset}
use actix_server_alt.H1.Head.{
  ProtoError, parse, http_parse, http, header, header_too_large, Failure, refused, panicked,
  ParsedHead, complete, partial, invalid, Crates, max_headers, new_index, record_headers, header_at,
}

-- What the loop over the headers changes.
pub record HeadState : Type 0 where
  pub ctx : Context
  pub decoder : TransferDecoding
  pub headers : HeaderMap

-- `decoder.reset(..)?`
unfoldable pub reset_decoder : HeadState → TransferDecoding → Result ProtoError HeadState
unfolding reset
reset_decoder s new = elim (reset s.decoder new) [
  | ok decoder ↦ ok (record s { decoder = decoder })
  | err e ↦ err (parse header)
]

abbrev pub chunked_text : List ℕ
chunked_text = codes "chunked"

abbrev pub keep_alive_text : List ℕ
keep_alive_text = codes "keep-alive"

abbrev pub close_text : List ℕ
close_text = codes "close"

abbrev pub upgrade_text : List ℕ
upgrade_text = codes "upgrade"

-- `b"100-continue"`
abbrev pub continue_text : List ℕ
continue_text = codes "100-continue"

-- `TRANSFER_ENCODING`, in a request of HTTP/1.1 and in one of HTTP/1.0
unfoldable pub on_transfer_encoding : Version → List ℕ → HeadState → Result ProtoError HeadState
unfolding is_visible eq_ignore_ascii_case trim chunked reset_decoder
on_transfer_encoding http_11 value s =
    if not (is_visible value)
    then err (parse header)
    else if eq_ignore_ascii_case (trim value) chunked_text
    then reset_decoder s chunked
    else ok s
on_transfer_encoding _ value s = err (parse header)

-- `CONTENT_LENGTH`
unfoldable pub on_content_length : List ℕ → HeadState → Result ProtoError HeadState
unfolding is_visible parse_u64 sized reset_decoder
on_content_length value s =
    if not (is_visible value) then err (parse header) else elim (parse_u64 value) [
      | none ↦ err (parse header)
      | some len ↦ if len == 0 then ok s else reset_decoder s (sized len)
    ]

-- `CONNECTION`; a value that is not a text changes nothing.
unfoldable pub on_connection : List ℕ → HeadState → HeadState
unfolding is_visible eq_ignore_ascii_case trim plain set_ctype
on_connection value s =
    if not (is_visible value)
    then s
    else if eq_ignore_ascii_case (trim value) keep_alive_text
    then record s { ctx = set_ctype ConnectionType.keep_alive s.ctx }
    else if eq_ignore_ascii_case (trim value) close_text
    then record s { ctx = set_ctype ConnectionType.close s.ctx }
    else if eq_ignore_ascii_case (trim value) upgrade_text
    then record s { ctx = set_ctype ConnectionType.upgrade s.ctx; decoder = plain }
    else s

-- `EXPECT if value.as_bytes() == b"100-continue"`
unfoldable pub on_expect : List ℕ → HeadState → HeadState
unfolding same_bytes set_expect_header
on_expect value s =
    if same_bytes value continue_text then record s { ctx = set_expect_header s.ctx } else s

-- `UPGRADE if version == Version::HTTP_11`
unfoldable pub on_upgrade : Version → HeadState → HeadState
unfolding set_ctype
on_upgrade http_11 s = record s { ctx = set_ctype ConnectionType.upgrade s.ctx }
on_upgrade _ s = s

-- `match name`; an error leaves the state as it was.
unfoldable pub on_header : Version → HeaderName → List ℕ → HeadState → Result ProtoError HeadState
unfolding on_transfer_encoding on_content_length on_connection on_expect on_upgrade
on_header version transfer_encoding value s = on_transfer_encoding version value s
on_header version content_length value s = on_content_length value s
on_header version connection value s = ok (on_connection value s)
on_header version expect value s = ok (on_expect value s)
on_header version upgrade value s = ok (on_upgrade version s)
on_header version _ value s = ok s

unfoldable pub after_header :
    (HeadState → HeadState × Result Failure (Unit {0}))
    → HeaderName
    → List ℕ
    → HeadState
    → Result ProtoError HeadState
    → HeadState × Result Failure (Unit {0})
after_header again name value s (err e) = (s, err (refused e))
after_header again name value s (ok s') =
    again (record s' { headers = s'.headers ++ (name, value) ∷ [] })

-- `for idx in &header_idx[..headers_len]`
unfoldable pub read_headers :
    Version
    → List (Option (HeaderName × List ℕ))
    → HeadState
    → HeadState × Result Failure (Unit {0})
unfolding on_header after_header
read_headers version [] s = (s, ok tt)
read_headers version (none ∷ rest) s = (s, err panicked)
read_headers version (some (name, value) ∷ rest) s =
    after_header (read_headers version rest) name value s (on_header version name value s)

-- `Request<()>`
pub record Request : Type 0 where
  pub method : Method
  pub version : Version
  pub uri : List ℕ
  pub headers : HeaderMap

-- What a call leaves.
pub record HeadRead : Type 0 where
  pub ctx : Context
  pub buf : List ℕ
  pub result : Result Failure (Option (Request × TransferDecoding))

-- `if method == Method::CONNECT`, behind the headers
unfoldable pub finish_head : Method → Version → List ℕ → List ℕ → HeadState → HeadRead
unfolding set_ctype plain
finish_head connect version uri buf s = record {
  ctx = set_ctype ConnectionType.upgrade s.ctx;
  buf = buf;
  result = ok (
      some (record { method = connect; version = version; uri = uri; headers = s.headers }, plain));
}
finish_head method version uri buf s = record {
  ctx = s.ctx;
  buf = buf;
  result = ok (
      some
        (record { method = method; version = version; uri = uri; headers = s.headers }, s.decoder));
}

unfoldable pub set_method : Method → Context → Context
unfolding set_connect_method
set_method connect c = set_connect_method c
set_method _ c = c

-- `match req.version`: HTTP/1.1 keeps the connection alive by default.
unfoldable pub version_of : ℕ → Version
version_of v = if v == 1 then http_11 else http_10

unfoldable pub set_version : Version → Context → Context
unfolding set_ctype
set_version http_11 c = c
set_version _ c = set_ctype ConnectionType.close c

unfoldable pub after_headers :
    Method → Version → List ℕ → List ℕ → HeadState × Result Failure (Unit {0}) → HeadRead
unfolding finish_head
after_headers method version uri buf (s, ok t) = finish_head method version uri buf s
after_headers method version uri buf (s, err e) = record { ctx = s.ctx; buf = buf; result = err e }

-- The head is split from the buffer, and a header map that was cached is used again.
unfoldable pub complete_head : Crates → Context → List ℕ → ParsedHead → HeadRead
unfolding reset_context set_method version_of set_version header_at record_headers new_index
    until_eof read_headers after_headers
complete_head crates ctx buf head =
    let c = reset_context ctx in
    elim (crates.method_of head.method) [
      | err e ↦ record { ctx = c; buf = buf; result = err (refused (http e)) }
      | ok method ↦
          let c' = set_method method c in
          elim (crates.uri_of head.path) [
            | err e ↦ record { ctx = c'; buf = buf; result = err (refused (http e)) }
            | ok uri ↦
                let version = version_of head.version in
                let indices = record_headers head.headers (replicate max_headers new_index) in
                let found =
                  map (header_at crates (take head.len buf)) (take (length head.headers) indices) in
                after_headers method version uri (drop head.len buf) (
                  read_headers version found (record {
                    ctx = record (set_version version c') { header_cache = none };
                    decoder = until_eof;
                    headers = get_or c.header_cache [];
                  }))
          ]
    ]

-- `Context::decode_head`, with the constant `READ_BUF_LIMIT` as an argument. The parser finds at most
-- `max_headers` headers, and they and the head lie in the buffer, so no index is out of range.
unfoldable pub decode_head : Crates → ℕ → Context → List ℕ → HeadRead
unfolding complete_head
decode_head crates limit ctx buf = elim (crates.parse_head buf) [
  | complete head ↦ complete_head crates ctx buf head
  | partial ↦ record {
    ctx = ctx;
    buf = buf;
    result = if leb limit (length buf) then err (refused (parse header_too_large)) else ok none;
  }
  | invalid e ↦ record { ctx = ctx; buf = buf; result = err (refused (http_parse e)) }
]
