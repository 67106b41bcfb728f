-- ===== src/Encoding/Coder/Yields.antt =====
-- What the stream of http-encoding/src/coder.rs yields.
use actix_server_alt.Prelude.{
  ◌≡◌, refl, Bool, true, false, Bool-cases, Option, none, some, List, [], ◌∷◌, Result, ok, err,
  Poll, ready, pending, inl, inr,
}
use actix_server_alt.Encoding.Coder.{
  AsyncCode, CoderError, io, stream, InFlight, idle, spent, running, Coder, Round, Polled, on_end,
  poll_body, take_coder, on_coded, poll_in_flight, poll_next,
}

-- What an optional item puts in front.
abbrev pub put_item {ℓ} : {E Out : Type ℓ} → Option Out → List (Result E Out) → List (Result E Out)
put_item none outs = outs
put_item (some out) outs = ok out ∷ outs

-- No future is left that must not be polled.
abbrev pub IsFresh : {De Out IoError : Type 0} → InFlight De Out IoError → Type 0
IsFresh spent = ⊥
IsFresh _ = Unit

module _ {De Item Out IoError E : Type 0} (ops : AsyncCode De Item Out IoError) where
  abbrev pub at_end : Result IoError (Option Out) → List (Result (CoderError IoError E) Out)
  at_end (err e) = err (io e) ∷ []
  at_end (ok item) = put_item item []

  abbrev pub then_coded :
      (De → List (Result (CoderError IoError E) Out))
      → Result IoError (De × Option Out)
      → List (Result (CoderError IoError E) Out)
  then_coded again (err e) = err (io e) ∷ []
  then_coded again (ok (de, item)) = put_item item (again de)

  -- What a coder makes of the items of a stream, one after the other, up to the first error.
  unfoldable pub coded : List (Result E Item) → De → List (Result (CoderError IoError E) Out)
  coded [] de = at_end (ops.code_eof de)
  coded (err e ∷ body) de = err (stream e) ∷ []
  coded (ok item ∷ body) de = then_coded (coded body) (ops.code de item)

  abbrev pub from_coder :
      List (Result E Item) → Option De → List (Result (CoderError IoError E) Out)
  from_coder body none = []
  from_coder body (some de) = coded body de

  abbrev pub from_flight :
      InFlight De Out IoError
      → Coder De Item Out IoError E
      → List (Result (CoderError IoError E) Out)
  from_flight idle c = from_coder c.body c.coder
  from_flight spent c = []
  from_flight (running r) c = then_coded (coded c.body) r

  -- What a coder has still to yield
  abbrev pub left : Coder De Item Out IoError E → List (Result (CoderError IoError E) Out)
  left c = from_flight c.in_flight c

  abbrev pub Answers :
      List (Result (CoderError IoError E) Out)
      → Coder De Item Out IoError E
      → Poll (Option (Result (CoderError IoError E) Out))
      → Type 0
  Answers outs c pending = (left c ≡ outs) × IsFresh c.in_flight
  Answers outs c (ready none) = (left c ≡ []) × (outs ≡ []) × IsFresh c.in_flight
  Answers outs c (ready (some (ok out))) = (outs ≡ ok out ∷ left c) × IsFresh c.in_flight
  Answers outs c (ready (some (err e))) = (outs ≡ err e ∷ []) × (left c ≡ [])

  abbrev pub Yields :
      List (Result (CoderError IoError E) Out) → Polled De Item Out IoError E → Type 0
  Yields outs r =
      (c : Coder De Item Out IoError E) × (p : Poll (Option (Result (CoderError IoError E) Out)))
      × (r ≡ some (c, p))
      × Answers outs c p

  abbrev mk :
      Option De → List (Result E Item) → InFlight De Out IoError → Coder De Item Out IoError E
  mk coder body flight = record { coder = coder; body = body; in_flight = flight }

  abbrev GoesOn : (Coder De Item Out IoError E → Polled De Item Out IoError E) → Type 0
  GoesOn again =
      (coder : Option De) (body : List (Result E Item)) (flight : InFlight De Out IoError)
      → IsFresh flight
      → Yields (left (mk coder body flight)) (again (mk coder body flight))

  module _ (again : Coder De Item Out IoError E → Polled De Item Out IoError E)
      (go : GoesOn again) where
    on_end-Yields :
        (r : Result IoError (Option Out)) → Yields (at_end r) (on_end ops (mk none [] idle) r)
    unfolding on_end
    on_end-Yields (err e) = (_, _, refl, (refl, refl))
    on_end-Yields (ok (some out)) = (_, _, refl, (refl, tt))
    on_end-Yields (ok none) = (_, _, refl, (refl, refl, tt))

    poll_body-Yields :
        (next : Bool) (de : De) (body : List (Result E Item))
        → Yields (coded body de) (poll_body ops again next de body (mk none body idle))
    unfolding poll_body coded
    poll_body-Yields false de body = (_, _, refl, (refl, tt))
    poll_body-Yields true de [] = on_end-Yields (ops.code_eof de)
    poll_body-Yields true de (err e ∷ body) = (_, _, refl, (refl, refl))
    poll_body-Yields true de (ok item ∷ body) = go none body (running (ops.code de item)) tt

    take_coder-Yields :
        (next : Bool) (coder : Option De) (body : List (Result E Item))
        → Yields (from_coder body coder) (take_coder ops again next coder (mk coder body idle))
    unfolding take_coder
    take_coder-Yields next none body = (_, _, refl, (refl, refl, tt))
    take_coder-Yields next (some de) body = poll_body-Yields next de body

    on_coded-Yields :
        (next : Bool) (item : Option Out) (de : De) (body : List (Result E Item))
        → Yields
            (put_item item (coded body de))
            (on_coded ops again next item (mk (some de) body idle))
    unfolding on_coded
    on_coded-Yields next (some out) de body = (_, _, refl, (refl, tt))
    on_coded-Yields next none de body = take_coder-Yields next (some de) body

    poll_in_flight-Yields :
        (r : Round) (coder : Option De) (body : List (Result E Item))
        (flight : InFlight De Out IoError)
        → IsFresh flight
        → Yields
            (left (mk coder body flight))
            (poll_in_flight ops again r flight (mk coder body flight))
    unfolding poll_in_flight
    poll_in_flight-Yields r coder body idle fresh = take_coder-Yields r.next coder body
    poll_in_flight-Yields r coder body spent fresh = absurd fresh
    poll_in_flight-Yields r coder body (running (err e)) fresh = elim (Bool-cases r.coded) [
      | inl now ↦ rw now (_, _, refl, (refl, refl))
      | inr later ↦ rw later (_, _, refl, (refl, tt))
    ]
    poll_in_flight-Yields r coder body (running (ok (de, item))) fresh = elim (Bool-cases r.coded) [
      | inl now ↦ rw now (on_coded-Yields r.next item de body)
      | inr later ↦ rw later (_, _, refl, (refl, tt))
    ]

  polled : (rounds : List Round) → GoesOn (poll_next ops rounds)
  unfolding poll_next
  polled [] coder body flight fresh = (_, _, refl, (refl, fresh))
  polled (r ∷ rounds) coder body flight fresh =
      poll_in_flight-Yields (poll_next ops rounds) (polled rounds) r coder body flight fresh

  -- A poll of a coder, however often its future and the stream are ready in it, does not panic unless
  -- an earlier future gave an error. It answers with the next of what the items of the stream are coded
  -- to, up to the first error; where it is pending nothing is lost; and at the end all is yielded.
  pub poll_next-Yields :
      (rounds : List Round) (c : Coder De Item Out IoError E)
      → IsFresh c.in_flight
      → Yields (left c) (poll_next ops rounds c)
  poll_next-Yields rounds c fresh = polled rounds c.coder c.body c.in_flight fresh
