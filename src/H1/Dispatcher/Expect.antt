-- ===== src/H1/Dispatcher/Expect.antt =====
-- `request_handler` of actix-http-alt/src/h1/proto/dispatcher.rs: a request with the header Expect is first
-- given to the expect service, and the client told to go on, before its handler is waited for.
pub mod Continues
use actix_server_alt.Prelude.{
  ℕ, Bool, true, false, Option, none, some, List, [], ◌∷◌, if◌then◌else◌, Result, ok, err, and_then,
}
use actix_server_alt.H1.Context.{Context, is_expect_header}
use actix_server_alt.H1.Buf.{WriteBuf}
use actix_server_alt.H1.Socket.{SocketError, broken, Outgoing}
use actix_server_alt.H1.Head.Write.{encode_continue}
use actix_server_alt.H1.Dispatcher.Respond.{Written, Wake, drain_write}
use actix_server_alt.H1.Dispatcher.Serve.{Service, Serving, Served, responded, serve_polls}

-- How far a request comes: to its handler, or the client cannot be told to go on, or the write buffer is
-- still being drained.
pub data Reached (Res : Type 0) : Type 0 where
  reached : Served Res → Reached Res
  untold : SocketError → Reached Res
  undrained : Reached Res

-- What the socket took, the write buffer, and how it stands with the request
pub record Handled (Res : Type 0) : Type 0 where
  pub sent : List ℕ
  pub buf : WriteBuf
  pub serving : Serving
  pub outcome : Reached Res

module _ {Res E Refusal : Type 0} (response_error : E → Res) (expect_error : Refusal → Res) where
  -- The handler is waited for.
  abbrev pub go_to_handler :
      List (List (Service Res E)) → List ℕ → WriteBuf → Serving → Option (Handled Res)
  go_to_handler polls sent buf s =
      and_then (serve_polls response_error polls s)
        (λ r. some (record { sent = sent; buf = buf; serving = r.0; outcome = reached r.1 }))

  -- `self.io.drain_write().await?`, with the flush behind it
  unfoldable pub after_continue :
      List (List (Service Res E)) → Bool → Serving → Written → Option (Handled Res)
  unfolding serve_polls
  after_continue polls flushed s r =
      let stop : Reached Res → Option (Handled Res) =
        λ o. some (record { sent = r.sent; buf = r.buf; serving = s; outcome = o }) in
      elim r.result [
        | err e ↦ stop (untold e)
        | ok true ↦ stop undrained
        | ok false ↦ if flushed then go_to_handler polls r.sent r.buf s else stop (untold broken)
      ]

  -- `Dispatcher::request_handler`, with the answer of the expect service
  unfoldable pub request_handler :
      Context
      → Result Refusal (Unit {0})
      → List Outgoing
      → List Wake
      → Bool
      → List (List (Service Res E))
      → WriteBuf
      → Serving
      → Option (Handled Res)
  unfolding is_expect_header encode_continue drain_write after_continue
  request_handler ctx expected answers wakes flushed polls w s =
      let expect : Option (Handled Res) = elim expected [
        | err e ↦ some (record {
          sent = [];
          buf = w;
          serving = s;
          outcome = reached (responded (expect_error e));
        })
        | ok t ↦
            and_then (drain_write answers wakes (encode_continue w))
              (after_continue polls flushed s)
      ] in
      if is_expect_header ctx then expect else go_to_handler polls [] w s
