-- ===== src/H1/Head/Framing/Whole.antt =====
-- `decode_head` of actix-http-alt/src/h1/proto/decode.rs on a head that the parser found.
use mathlib.Core.Option.{get_or}
use actix_server_alt.Prelude.{
  ℕ, ◌≤◌, ◌≡◌, refl, ◌∙◌, none, some, List, [], map, All, length, drop, Result, ok, err,
}
use actix_server_alt.H1.Header.{Method, connect, other, Version, HeaderMap}
use actix_server_alt.H1.Context.{Context, reset_context}
use actix_server_alt.H1.Decode.{TransferDecoding, plain, until_eof}
use actix_server_alt.H1.Head.{
  parse, header, Failure, refused, ParsedHead, complete, Crates, max_headers,
}
use actix_server_alt.H1.Head.Read.{
  HeadState, HeadRead, Request, version_of, after_headers, finish_head, complete_head, decode_head,
}
use actix_server_alt.H1.Head.Index.{header_text, IsWithin, headers_at}
use actix_server_alt.H1.Head.Framing.{framings, AllGood, Agree, last, decoder_of}
use actix_server_alt.H1.Head.Framing.Rounds.{Outcome, reads, refuses, read_headers-Outcome}

-- CONNECT turns the connection into a tunnel, whatever the headers say.
abbrev pub body_of : Method → HeaderMap → TransferDecoding
body_of connect headers = plain
body_of (other text) headers = decoder_of (last none (framings headers))

abbrev pub request : Method → Version → List ℕ → HeaderMap → Request
request method version uri headers = record {
  method = method;
  version = version;
  uri = uri;
  headers = headers;
}

-- What is left of a head with these headers: the request and the decoder of its body, exactly if each
-- header is good and no two neighbours of those that speak of the body contradict each other.
pub data WholeHead (method : Method) (version : Version) (uri : List ℕ) (headers : HeaderMap)
    (rest : List ℕ) (r : HeadRead) : Type 0 where
  decoded :
      AllGood version headers
      → Agree none (framings headers)
      → r.result ≡ ok (some (request method version uri headers, body_of method headers))
      → r.buf ≡ rest
      → WholeHead method version uri headers rest r
  refused_head :
      ¬ (AllGood version headers × Agree none (framings headers))
      → r.result ≡ err (refused (parse header))
      → r.buf ≡ rest
      → WholeHead method version uri headers rest r

finish_head-result :
    (method : Method) (version : Version) (uri buf : List ℕ) (s : HeadState) (headers : HeaderMap)
    → s.headers ≡ headers
    → s.decoder ≡ decoder_of (last none (framings headers))
    → ((finish_head method version uri buf s).result
        ≡ ok (some (request method version uri headers, body_of method headers)))
      × ((finish_head method version uri buf s).buf ≡ buf)
unfolding finish_head
finish_head-result connect version uri buf s headers h d = (rw h, refl)
finish_head-result (other text) version uri buf s headers h d = (rw (h, d), refl)

after_headers-WholeHead :
    (method : Method) (version : Version) (uri buf : List ℕ) (s : HeadState) (headers : HeaderMap)
    (r : HeadState × Result Failure (Unit {0}))
    → s.headers ≡ []
    → Outcome version headers none s r
    → WholeHead method version uri headers buf (after_headers method version uri buf r)
unfolding after_headers
after_headers-WholeHead method version uri buf s headers (t, x) e (reads good agree q d h) =
    let (result, left) = finish_head-result method version uri buf t headers (h ∙ rw e) d in
    rw (q, after_headers) (decoded good agree result left)
after_headers-WholeHead method version uri buf s headers (t, x) e (refuses no' q) =
    rw (q, after_headers) (refused_head no' refl refl)

module _ (crates : Crates) (limit : ℕ) (ctx : Context) (buf : List ℕ) (head : ParsedHead)
    (method : Method) (uri : List ℕ) (headers : HeaderMap) where
  complete_head-WholeHead :
      crates.method_of head.method ≡ ok method
      → crates.uri_of head.path ≡ ok uri
      → length head.headers ≤ max_headers
      → All (IsWithin head.len) head.headers
      → map (header_text crates buf) head.headers ≡ map some headers
      → get_or ctx.header_cache [] ≡ []
      → WholeHead method
          (version_of head.version)
          uri
          headers
          (drop head.len buf)
          (complete_head crates ctx buf head)
  unfolding until_eof reset_context complete_head version_of
  complete_head-WholeHead m u few within texts cache =
      rw (m, complete_head)
        (rw u (
          rw (headers_at crates buf head.len max_headers head.headers few within ∙ texts) (
            after_headers-WholeHead method (version_of head.version) uri (drop head.len buf) _
              headers _ cache
              (read_headers-Outcome (version_of head.version) headers none _ refl))))

  -- `decode_head`, on a head that the parser found in the buffer, with a valid method and target, no more
  -- headers than there is room for, each inside the head, and no cached header left over, takes the head
  -- off the buffer. It yields the request with its headers in order, with the decoder of the last header
  -- that speaks of the body (a tunnel for CONNECT), exactly if each header is good by itself and no two
  -- neighbours of those that speak of the body are a length and chunks; else it is an error.
  pub decode_head-WholeHead :
      crates.parse_head buf ≡ complete head
      → crates.method_of head.method ≡ ok method
      → crates.uri_of head.path ≡ ok uri
      → length head.headers ≤ max_headers
      → All (IsWithin head.len) head.headers
      → map (header_text crates buf) head.headers ≡ map some headers
      → get_or ctx.header_cache [] ≡ []
      → WholeHead method
          (version_of head.version)
          uri
          headers
          (drop head.len buf)
          (decode_head crates limit ctx buf)
  unfolding decode_head version_of
  decode_head-WholeHead p m u few within texts cache =
      rw (p, decode_head) (complete_head-WholeHead m u few within texts cache)
