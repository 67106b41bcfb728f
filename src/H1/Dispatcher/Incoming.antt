-- ===== src/H1/Dispatcher/Incoming.antt =====
-- How a request is taken off the read buffer in actix-http-alt/src/h1/proto/dispatcher.rs: the method
-- `decode_head` of the dispatcher, and the handle of the request's body.
pub mod Serves
use actix_server_alt.Prelude.{
  ℕ, true, false, Option, none, some, List, if◌then◌else◌, Result, ok, err,
}
use actix_server_alt.H1.Kind.{Kind}
use actix_server_alt.H1.Context.{Context}
use actix_server_alt.H1.Buf.{ReadBuf}
use actix_server_alt.H1.Decode.{TransferDecoding, is_eof}
use actix_server_alt.H1.Head.{Failure, Crates}
use actix_server_alt.H1.Head.Read.{HeadRead, Request, decode_head}

-- `RequestBodyHandle::new_pair`: the decoder of the handle, if the request has a body.
unfoldable pub new_pair : TransferDecoding → Option Kind
unfolding is_eof
new_pair decoder = if is_eof decoder then none else some decoder.kind

-- What a call leaves: the context and the read buffer, and nothing, an error, or a request with the
-- handle of its body.
pub record Incoming : Type 0 where
  pub ctx : Context
  pub read_buf : ReadBuf
  pub request : Option (Result Failure (Request × Option Kind))

unfoldable pub with_handle :
    Result Failure (Option (Request × TransferDecoding))
    → Option (Result Failure (Request × Option Kind))
unfolding new_pair
with_handle (err e) = some (err e)
with_handle (ok none) = none
with_handle (ok (some (req, decoder))) = some (ok (req, new_pair decoder))

-- `Dispatcher::decode_head`: nothing is tried when nothing new was read.
unfoldable pub next_request : Crates → ℕ → Context → ReadBuf → Incoming
unfolding decode_head with_handle
next_request crates limit ctx b =
    let r = decode_head crates limit ctx b.buf in
    if b.advanced
    then (record {
      ctx = r.ctx;
      read_buf = record b { buf = r.buf };
      request = with_handle r.result;
    })
    else (record { ctx = ctx; read_buf = b; request = none })
