-- ===== src/H1/Dispatcher/Exchange.antt =====
-- How `run` of actix-http-alt/src/h1/proto/dispatcher.rs answers a request: it encodes the head of the
-- response, chooses the encoder of its body, and writes the body.
pub mod Sends
use actix_server_alt.Prelude.{ℕ, Option, none, some, List, [], ◌∷◌, Result, ok, err, and_then}
use actix_server_alt.H1.Context.{Context}
use actix_server_alt.H1.Buf.{WriteBuf}
use actix_server_alt.H1.Encode.{ResponseBody, stream, bytes, encoder}
use actix_server_alt.H1.Head.{ProtoError, Failure, refused, panicked}
use actix_server_alt.H1.Head.Write.{Texts, Parts, HeadWritten, body_size, encode_head}
use actix_server_alt.H1.Dispatcher.Respond.{Responding, Round, Progress, Responded, respond_polls}
use actix_server_alt.H1.Dispatcher.Serve.{Serving}

-- `ResponseBody::poll_next`: what the body yields up to its end, with the items that a stream yields.
unfoldable pub messages : ResponseBody → List (List ℕ) → List (List ℕ)
messages ResponseBody.none items = []
messages (bytes b) items = b ∷ []
messages stream items = items

-- How an answer ends: its head is refused, or it stands so with the response.
pub data Exchanged : Type 0 where
  headless : ProtoError → Exchanged
  written : Context → Responding → Progress → Exchanged

-- What the loop `'res` starts with
unfoldable pub responding :
    HeadWritten WriteBuf → ResponseBody → List (List ℕ) → Serving → Responding
unfolding encoder messages
responding r body items s = record {
  body = messages body items;
  kind = (encoder body r.ctx.ctype).kind;
  buf = r.buf;
  handle = s.handle;
  read_buf = s.read_buf;
  fed = s.fed;
  force_close = s.force_close;
  sent = [];
}

abbrev pub as_exchanged : Context → Responded → Option Exchanged
as_exchanged ctx (s, p) = some (written ctx s p)

-- From `encode_head` to the end of the loop `'res`; a panic is `none`.
unfoldable pub answer :
    Texts
    → List ℕ
    → ℕ
    → List (List Round)
    → Context
    → Parts
    → ResponseBody
    → List (List ℕ)
    → WriteBuf
    → Serving
    → Option Exchanged
unfolding encode_head body_size responding respond_polls
answer texts now limit polls ctx parts body items w s =
    let r = encode_head texts now ctx parts (body_size body) w in
    let goes_on = respond_polls limit polls (responding r body items s) in
    elim r.result [
      | err (refused e) ↦ some (headless e)
      | err panicked ↦ none
      | ok t ↦ and_then goes_on (as_exchanged r.ctx)
    ]
