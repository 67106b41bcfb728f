-- ===== src/H1/Dispatcher.antt =====
-- `poll_read_decode_body` of actix-http-alt/src/h1/proto/dispatcher.rs: the bytes of a request's body go
-- from the socket through the decoder to the handler. What the socket has is listed beforehand.
pub mod Incremental
pub mod Sized
pub mod Total
pub mod Respond
pub mod Serve
pub mod Exchange
pub mod Expect
pub mod Incoming
use actix_server_alt.Prelude.{
  ℕ, zero, suc, Bool, true, false, Option, none, some, List, [], ◌∷◌, ◌++◌, length, ltb,
  if◌then◌else◌, Result, ok, err, and_then, Poll, ready, pending,
}
use actix_server_alt.H1.Chunked.{IoError}
use actix_server_alt.H1.Kind.{Kind}
use actix_server_alt.H1.Decode.{Outcome, RequestBodyItem, chunk, eof, decode}

-- How a loop over the decoder ended: "not yet", behind the end of the body, with an error of the
-- decoder, or with an error of the socket.
pub data Status : Type 0 where
  running done closed : Status
  failed : IoError → Status

-- What is left, and the items that the handler was fed.
pub record Drained : Type 0 where
  pub kind : Kind
  pub src : List ℕ
  pub items : List RequestBodyItem
  pub status : Status

unfoldable pub add_items : List RequestBodyItem → Drained → Option Drained
add_items items d = some (record d { items = items ++ d.items })

unfoldable pub after_decode :
    (Kind → List ℕ → Option Drained)
    → Kind
    → List ℕ
    → Result IoError (Option RequestBodyItem)
    → Option Drained
unfolding add_items
after_decode again kind src (err e) =
    some (record { kind = kind; src = src; items = []; status = failed e })
after_decode again kind src (ok none) =
    some (record { kind = kind; src = src; items = []; status = running })
after_decode again kind src (ok (some (chunk bytes))) =
    and_then (again kind src) (add_items (chunk bytes ∷ []))
after_decode again kind src (ok (some eof)) =
    some (record { kind = kind; src = src; items = eof ∷ []; status = done })

-- `while let Some(item) = handle.decoder.decode(..)?`, on fuel
unfoldable pub drain : ℕ → Kind → List ℕ → Option Drained
unfolding after_decode
drain zero kind src = none
drain (suc fuel) kind src =
    and_then (decode kind src) (λ o. after_decode (drain fuel) o.kind o.src o.result)

-- What one `try_read` does: the bytes that it adds to the buffer, none where the limit of the
-- buffer is reached, or the bytes that it adds before the socket gives an error.
pub data Read : Type 0 where
  got broken : List ℕ → Read

abbrev pub is_running : Status → Bool
is_running running = true
is_running _ = false

unfoldable pub go_on : (Kind → List ℕ → Option Drained) → Drained → Option Drained
unfolding add_items
go_on again d =
    let rest = again d.kind d.src in
    if is_running d.status then and_then rest (add_items d.items) else some d

-- The loop `'read`. A call of `decode` takes a byte of the buffer or ends the inner loop, so its fuel
-- is one more than the bytes there are.
unfoldable pub read_loop : List Read → Kind → List ℕ → Option Drained
unfolding go_on
read_loop [] kind buf = some (record { kind = kind; src = buf; items = []; status = running })
read_loop (broken bytes ∷ reads) kind buf =
    some (record { kind = kind; src = buf ++ bytes; items = []; status = closed })
read_loop (got [] ∷ reads) kind buf = read_loop reads kind buf
read_loop (got (b ∷ bytes) ∷ reads) kind buf =
    let src = buf ++ b ∷ bytes in
    and_then (drain (suc (length src)) kind src) (go_on (read_loop reads))

-- What a call leaves: the decoder of the handle, if there is still one, the buffer, the items fed to
-- the handler, the mark to close the connection, and the result.
pub record BodyPolled : Type 0 where
  pub body_handle : Option Kind
  pub buf : List ℕ
  pub items : List RequestBodyItem
  pub force_close : Bool
  pub result : Result Status Bool

abbrev pub is_new : List RequestBodyItem → Bool
is_new [] = false
is_new (item ∷ items) = true

unfoldable pub finish_read : Drained → BodyPolled
finish_read d = elim d.status [
  | running ↦ record {
    body_handle = some d.kind;
    buf = d.src;
    items = d.items;
    force_close = false;
    result = ok (is_new d.items);
  }
  | done ↦ record {
    body_handle = none;
    buf = d.src;
    items = d.items;
    force_close = false;
    result = ok (is_new d.items);
  }
  | status ↦ record {
    body_handle = some d.kind;
    buf = d.src;
    items = d.items;
    force_close = false;
    result = err status;
  }
]

unfoldable pub idle : Option Kind → List ℕ → Bool → BodyPolled
idle handle buf force_close = record {
  body_handle = handle;
  buf = buf;
  items = [];
  force_close = force_close;
  result = ok false;
}

-- `Io::poll_read_decode_body`; the second argument is what `poll_ready` of the handle answers.
unfoldable pub poll_read_decode_body :
    Option Kind → Poll (Result (Unit {0}) (Unit {0})) → List Read → List ℕ → Option BodyPolled
unfolding idle finish_read read_loop
poll_read_decode_body none sender reads buf = some (idle none buf false)
poll_read_decode_body (some kind) (ready (ok t)) reads buf =
    and_then (read_loop reads kind buf) (λ d. some (finish_read d))
poll_read_decode_body (some kind) pending reads buf = some (idle (some kind) buf false)
poll_read_decode_body (some kind) (ready (err t)) reads buf = some (idle none buf true)
