-- ===== src/Encoding/Coder.antt =====
-- `Coder` of http-encoding/src/coder.rs: a stream that codes the items of another one after the other.
-- Whether a future or the stream is ready is listed for each round of the loop.
pub mod Yields
pub mod Complete
use actix_server_alt.Prelude.{
  Bool, true, false, Option, none, some, List, [], ◌∷◌, if◌then◌else◌, Result, ok, err, Poll, ready,
  pending,
}

-- `AsyncCode`, with what its future gives when it is ready
pub record AsyncCode (De Item Out IoError : Type 0) : Type 0 where
  pub code : De → Item → Result IoError (De × Option Out)
  pub code_eof : De → Result IoError (Option Out)

-- `CoderError`, as far as `poll_next` gives it
pub data CoderError (IoError E : Type 0) : Type 0 where
  io : IoError → CoderError IoError E
  stream : E → CoderError IoError E

-- `in_flight`: nothing, a future by what it gives, or a future that has given an error, which must not
-- be polled again.
pub data InFlight (De Out IoError : Type 0) : Type 0 where
  idle spent : InFlight De Out IoError
  running : Result IoError (De × Option Out) → InFlight De Out IoError

-- `Coder`, with the items that the stream still has
pub record Coder (De Item Out IoError E : Type 0) : Type 0 where
  pub coder : Option De
  pub body : List (Result E Item)
  pub in_flight : InFlight De Out IoError

-- `Coder::new`
unfoldable pub new :
    {De Item Out IoError E : Type 0} → List (Result E Item) → De → Coder De Item Out IoError E
new body coder = record { coder = some coder; body = body; in_flight = idle }

-- Whether the future and the stream are ready in a round of the loop
pub record Round : Type 0 where
  pub coded : Bool
  pub next : Bool

-- What a call leaves and answers; `none` is a panic.
abbrev pub Polled : (De Item Out IoError E : Type 0) → Type 0
Polled De Item Out IoError E =
    Option (Coder De Item Out IoError E × Poll (Option (Result (CoderError IoError E) Out)))

module _ {De Item Out IoError E : Type 0} (ops : AsyncCode De Item Out IoError) where
  -- `match coder.code_eof()?`; the coder is dropped.
  unfoldable pub on_end :
      Coder De Item Out IoError E → Result IoError (Option Out) → Polled De Item Out IoError E
  on_end c (err e) = some (c, ready (some (err (io e))))
  on_end c (ok (some res)) = some (c, ready (some (ok res)))
  on_end c (ok none) = some (c, ready none)

  -- `match this.body.poll_next(cx)`, with the coder taken out
  unfoldable pub poll_body :
      (Coder De Item Out IoError E → Polled De Item Out IoError E)
      → Bool
      → De
      → List (Result E Item)
      → Coder De Item Out IoError E
      → Polled De Item Out IoError E
  unfolding on_end
  poll_body again false de body c = some (record c { coder = some de }, pending)
  poll_body again true de [] c = on_end c (ops.code_eof de)
  poll_body again true de (err e ∷ body) c =
      some (record c { body = body }, ready (some (err (stream e))))
  poll_body again true de (ok next ∷ body) c =
      again (record c { body = body; in_flight = running (ops.code de next) })

  -- `match this.coder.take()`
  unfoldable pub take_coder :
      (Coder De Item Out IoError E → Polled De Item Out IoError E)
      → Bool
      → Option De
      → Coder De Item Out IoError E
      → Polled De Item Out IoError E
  unfolding poll_body
  take_coder again next none c = some (c, ready none)
  take_coder again next (some de) c = poll_body again next de c.body (record c { coder = none })

  -- `if let Some(item) = item`, behind a future that is ready
  unfoldable pub on_coded :
      (Coder De Item Out IoError E → Polled De Item Out IoError E)
      → Bool
      → Option Out
      → Coder De Item Out IoError E
      → Polled De Item Out IoError E
  unfolding take_coder
  on_coded again next (some item) c = some (c, ready (some (ok item)))
  on_coded again next none c = take_coder again next c.coder c

  -- `if let Some(fut) = this.in_flight`
  unfoldable pub poll_in_flight :
      (Coder De Item Out IoError E → Polled De Item Out IoError E)
      → Round
      → InFlight De Out IoError
      → Coder De Item Out IoError E
      → Polled De Item Out IoError E
  unfolding on_coded take_coder
  poll_in_flight again r idle c = take_coder again r.next c.coder c
  poll_in_flight again r spent c = none
  poll_in_flight again r (running (err e)) c =
      if r.coded
      then some (record c { in_flight = spent }, ready (some (err (io e))))
      else some (c, pending)
  poll_in_flight again r (running (ok (de, item))) c =
      let on = on_coded again r.next item (record c { coder = some de; in_flight = idle }) in
      if r.coded then on else some (c, pending)

  -- `poll_next`; where no round is left nothing is ready.
  unfoldable pub poll_next : List Round → Coder De Item Out IoError E → Polled De Item Out IoError E
  unfolding poll_in_flight
  poll_next [] c = some (c, pending)
  poll_next (r ∷ rounds) c = poll_in_flight (poll_next rounds) r c.in_flight c

-- `IdentityCoder`
unfoldable pub identity_coder : {Item IoError : Type 0} → AsyncCode (Unit {0}) Item Item IoError
identity_coder = record { code = λ t item. ok (t, some item); code_eof = λ t. ok none }
