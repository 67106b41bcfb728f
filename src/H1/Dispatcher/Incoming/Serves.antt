-- ===== src/H1/Dispatcher/Incoming/Serves.antt =====
-- A request that actix-http-alt/src/h1/proto/dispatcher.rs takes off the read buffer can be served.
use actix_server_alt.Prelude.{ℕ, ◌≡◌, Option, none, some, List, length, ok, err}
use actix_server_alt.H1.Header.{Method, connect, other, Version, HeaderMap}
use actix_server_alt.H1.Context.{Context}
use actix_server_alt.H1.Chunked.{ChunkedState}
use actix_server_alt.H1.Kind.{Kind, decode_chunked, plain_chunked}
use actix_server_alt.H1.Head.{refused, parse, header}
use actix_server_alt.H1.Head.Framing.{
  Framing, framings, AllGood, Agree, last, by_chunks, by_upgrade, by_length,
}
use actix_server_alt.H1.Head.Framing.Whole.{request}
use actix_server_alt.H1.Dispatcher.Serve.{Service, serve_polls}
use actix_server_alt.H1.Dispatcher.Serve.Feeds.{start, Goes}
use actix_server_alt.H1.Dispatcher.Incoming.{Incoming}

-- The decoder for the body of a request, by the last of its headers that speaks of the body; without
-- one there is no body, and a CONNECT opens a tunnel.
abbrev pub framing_handle : Option Framing → Option Kind
framing_handle none = none
framing_handle (some by_chunks) = some (decode_chunked ChunkedState.size 0)
framing_handle (some by_upgrade) = some plain_chunked
framing_handle (some (by_length n)) = some (Kind.length n)

abbrev pub body_handle : Method → HeaderMap → Option Kind
body_handle connect headers = some plain_chunked
body_handle (other text) headers = framing_handle (last none (framings headers))

-- A request without a body needs no feeding, and one with a body is fed it in every way of polling.
abbrev pub Feeds : {Res E : Type 0} → (E → Res) → List ℕ → Option Kind → Type 0
Feeds response_error buf none = Unit
Feeds {Res} {E} response_error buf (some kind) =
    (polls : List (List (Service Res E)))
    → Goes response_error kind buf (serve_polls response_error polls (start kind buf))

-- What is taken off the buffer: a head that is not good is refused, and else there is the request with
-- the handle of its body, which can be fed.
pub data Accepts {Res E : Type 0} (response_error : E → Res) (method : Method) (version : Version)
    (uri : List ℕ) (headers : HeaderMap) (rest : List ℕ) (r : Incoming) : Type 0 where
  accepted :
      AllGood version headers
      → Agree none (framings headers)
      → r.request ≡ some (ok (request method version uri headers, body_handle method headers))
      → r.read_buf.buf ≡ rest
      → Feeds response_error rest (body_handle method headers)
      → Accepts response_error method version uri headers rest r
  refused_request :
      ¬ (AllGood version headers × Agree none (framings headers))
      → r.request ≡ some (err (refused (parse header)))
      → r.read_buf.buf ≡ rest
      → Accepts response_error method version uri headers rest r
