-- ===== src/H1/Dispatcher/Serve.antt =====
-- How the handler of a request is waited for in actix-http-alt/src/h1/proto/dispatcher.rs:
-- `RequestHandler::poll`, polled again and again, which feeds the handler the body of the request.
pub mod Feeds
use actix_server_alt.Prelude.{
  ℕ, Bool, true, false, ◌||◌, Option, none, some, List, [], ◌∷◌, ◌++◌, if◌then◌else◌, Result, ok,
  err, and_then, Poll, ready, pending,
}
use actix_server_alt.H1.Kind.{Kind}
use actix_server_alt.H1.Decode.{RequestBodyItem}
use actix_server_alt.H1.Dispatcher.{Status, Read, BodyPolled, poll_read_decode_body}

-- What is answered in a round: the handler of the request has its response or an error, or it is
-- pending, and then whether it wants more of the body, and what is read of it.
pub data Service (Res E : Type 0) : Type 0 where
  answered : Result E Res → Service Res E
  waits : Poll (Result (Unit {0}) (Unit {0})) → List Read → Service Res E

-- The handle of the request's body, the read buffer, the items that the handler was fed, the mark to
-- close the connection, and the reads that were done.
pub record Serving : Type 0 where
  pub handle : Option Kind
  pub read_buf : List ℕ
  pub fed : List RequestBodyItem
  pub force_close : Bool
  pub taken : List Read

-- How it stands with a request: there is a response, the poll is pending, or reading the body failed.
pub data Served (Res : Type 0) : Type 0 where
  responded : Res → Served Res
  waiting : Served Res
  lost : Status → Served Res

-- The reads are done if there is a handle and the handler wants more.
abbrev pub done_reads : Option Kind → Poll (Result (Unit {0}) (Unit {0})) → List Read → List Read
done_reads (some kind) (ready (ok t)) reads = reads
done_reads _ _ reads = []

-- What a call of `poll_read_decode_body` leaves
abbrev pub read_on : List Read → BodyPolled → Serving → Serving
read_on reads p s = record {
  handle = p.body_handle;
  read_buf = p.buf;
  fed = s.fed ++ p.items;
  force_close = s.force_close || p.force_close;
  taken = s.taken ++ reads;
}

module _ {Res E : Type 0} (response_error : E → Res) where
  -- `if !this.io.poll_read_decode_body(..)?`
  unfoldable pub after_feed :
      (Serving → Option (Serving × Served Res))
      → Serving
      → Result Status Bool
      → Option (Serving × Served Res)
  after_feed again s (err status) = some (s, lost status)
  after_feed again s (ok new) = if new then again s else some (s, waiting)

  -- `res.unwrap_or_else(|ref mut e| ResponseError::response_error(e))`
  unfoldable pub or_error : Result E Res → Res
  or_error (ok res) = res
  or_error (err e) = response_error e

  unfoldable pub on_service :
      (Serving → Option (Serving × Served Res))
      → Service Res E
      → Serving
      → Option (Serving × Served Res)
  unfolding or_error after_feed poll_read_decode_body
  on_service again (answered res) s = some (s, responded (or_error res))
  on_service again (waits sender reads) s =
      and_then (poll_read_decode_body s.handle sender reads s.read_buf)
        (λ p. after_feed again (read_on (done_reads s.handle sender reads) p s) p.result)

  -- `RequestHandler::poll`
  unfoldable pub serve : List (Service Res E) → Serving → Option (Serving × Served Res)
  unfolding on_service
  serve [] s = some (s, waiting)
  serve (r ∷ rounds) s = on_service (serve rounds) r s

  unfoldable pub if_waiting :
      (Serving → Option (Serving × Served Res))
      → Serving × Served Res
      → Option (Serving × Served Res)
  if_waiting again (s, waiting) = again s
  if_waiting again (s, p) = some (s, p)

  -- The task is polled until there is a response, or reading failed.
  unfoldable pub serve_polls : List (List (Service Res E)) → Serving → Option (Serving × Served Res)
  unfolding serve if_waiting
  serve_polls [] s = some (s, waiting)
  serve_polls (rounds ∷ polls) s = and_then (serve rounds s) (if_waiting (serve_polls polls))
