-- ===== src/Encoding/Coder/Complete.antt =====
-- All that the stream of http-encoding/src/coder.rs yields.
use actix_server_alt.Prelude.{
  ℕ, zero, suc, ◌≤◌, ◌<◌, ◌≡◌, refl, sym, ap, arith, true, Option, none, some, List, [], ◌∷◌,
  length, replicate, Result, ok, err, Poll, ready, pending, and_then,
}
use actix_server_alt.Encoding.Coder.{
  AsyncCode, CoderError, InFlight, idle, spent, running, Coder, new, Round, Polled, on_end,
  poll_body, take_coder, on_coded, poll_in_flight, poll_next,
}
use actix_server_alt.Encoding.Coder.Yields.{
  coded, left, IsFresh, Answers, poll_next-Yields, put_item, then_coded, at_end,
}

-- A round in which all is ready
abbrev pub now : Round
now = record { coded = true; next = true }

length-at_end :
    {De Item Out IoError : Type 0} (E : Type 0) (ops : AsyncCode De Item Out IoError)
    (r : Result IoError (Option Out))
    → length (at_end {E = E} ops r) ≤ 1
length-at_end E ops (err e) = omega arith
length-at_end E ops (ok none) = omega arith
length-at_end E ops (ok (some out)) = omega arith

module _ {De Item Out IoError E : Type 0} (ops : AsyncCode De Item Out IoError) where
  -- A poll in which all is ready
  abbrev pub poll_now : Coder De Item Out IoError E → Polled De Item Out IoError E
  poll_now c = poll_next ops (replicate (suc (length c.body)) now) c

  abbrev pub and_on :
      (Coder De Item Out IoError E → Option (List (Result (CoderError IoError E) Out)))
      → Coder De Item Out IoError E × Poll (Option (Result (CoderError IoError E) Out))
      → Option (List (Result (CoderError IoError E) Out))
  and_on again (c, pending) = none
  and_on again (c, ready none) = some []
  and_on again (c, ready (some (err e))) = some (err e ∷ [])
  and_on again (c, ready (some (ok out))) =
      and_then (again c) (λ (outs : List (Result (CoderError IoError E) Out)). some (ok out ∷ outs))

  -- A consumer that polls until the end or an error, so many times at most
  unfoldable pub collect :
      ℕ → Coder De Item Out IoError E → Option (List (Result (CoderError IoError E) Out))
  collect zero c = none
  collect (suc polls) c = and_then (poll_now c) (and_on (collect polls))

  abbrev IsReady : Polled De Item Out IoError E → Type 0
  IsReady r =
      (c : Coder De Item Out IoError E) × (x : Option (Result (CoderError IoError E) Out)) × (r
        ≡ some (c, ready x))

  on_end-IsReady :
      (c : Coder De Item Out IoError E) (r : Result IoError (Option Out)) → IsReady (on_end ops c r)
  unfolding on_end
  on_end-IsReady c (err e) = (_, _, refl)
  on_end-IsReady c (ok none) = (_, _, refl)
  on_end-IsReady c (ok (some out)) = (_, _, refl)

  poll_now-IsReady :
      (body : List (Result E Item)) (coder : Option De) (flight : InFlight De Out IoError)
      → IsFresh flight
      → IsReady (poll_now (record { coder = coder; body = body; in_flight = flight }))
  unfolding poll_next poll_in_flight on_coded take_coder poll_body
  poll_now-IsReady body none idle fresh = (_, _, refl)
  poll_now-IsReady [] (some de) idle fresh = on_end-IsReady _ (ops.code_eof de)
  poll_now-IsReady (err e ∷ body) (some de) idle fresh = (_, _, refl)
  poll_now-IsReady (ok item ∷ body) (some de) idle fresh =
      poll_now-IsReady body none (running (ops.code de item)) tt
  poll_now-IsReady body coder spent fresh = absurd fresh
  poll_now-IsReady body coder (running (err e)) fresh = (_, _, refl)
  poll_now-IsReady body coder (running (ok (de, some out))) fresh = (_, _, refl)
  poll_now-IsReady [] coder (running (ok (de, none))) fresh = on_end-IsReady _ (ops.code_eof de)
  poll_now-IsReady (err e ∷ body) coder (running (ok (de, none))) fresh = (_, _, refl)
  poll_now-IsReady (ok item ∷ body) coder (running (ok (de, none))) fresh =
      poll_now-IsReady body none (running (ops.code de item)) tt

  and_on-left :
      (polls : ℕ) (outs : List (Result (CoderError IoError E) Out))
      (c : Coder De Item Out IoError E) (p : Poll (Option (Result (CoderError IoError E) Out)))
      → Answers ops outs c p
      → ¬ (p ≡ pending)
      → length outs < suc polls
      → (IsFresh c.in_flight → length (left ops c) < polls → collect polls c ≡ some (left ops c))
      → and_on (collect polls) (c, p) ≡ some outs
  and_on-left polls outs c pending a h short ih = absurd (h refl)
  and_on-left polls outs c (ready none) a h short ih = ap some (sym a.1)
  and_on-left polls outs c (ready (some (err e))) a h short ih = ap some (sym a.0)
  and_on-left polls outs c (ready (some (ok out))) a h short ih =
      let e : length outs ≡ suc (length (left ops c)) =
        ap (λ (t : List (Result (CoderError IoError E) Out)). length t) a.0 in
      rw (ih a.1 (omega arith)) (ap some (sym a.0))

  not_pending :
      (r : Polled De Item Out IoError E) (c : Coder De Item Out IoError E)
      (p : Poll (Option (Result (CoderError IoError E) Out)))
      → IsReady r
      → r ≡ some (c, p)
      → ¬ (p ≡ pending)
  not_pending r c p (c', x, q) q' e = cc

  collect-left :
      (polls : ℕ) (c : Coder De Item Out IoError E)
      → IsFresh c.in_flight
      → length (left ops c) < polls
      → collect polls c ≡ some (left ops c)
  unfolding collect
  collect-left zero c fresh h = absurd (omega arith)
  collect-left (suc polls) c fresh h =
      let (c', p, q, a) = poll_next-Yields ops (replicate (suc (length c.body)) now) c fresh in
      let now_ready = poll_now-IsReady c.body c.coder c.in_flight fresh in
      rw q (
        and_on-left polls (left ops c) c' p a (not_pending (poll_now c) c' p now_ready q) h
          (λ fresh' short. collect-left polls c' fresh' short))

  length-put_item :
      (item : Option Out) (outs : List (Result (CoderError IoError E) Out))
      → length (put_item item outs) ≤ suc (length outs)
  length-put_item none outs = omega arith
  length-put_item (some out) outs = omega arith

  length-then_coded :
      (n : ℕ) (again : De → List (Result (CoderError IoError E) Out))
      (r : Result IoError (De × Option Out))
      → ((de : De) → length (again de) ≤ suc n)
      → length (then_coded ops again r) ≤ suc (suc n)
  length-then_coded n again (err e) h = omega arith
  length-then_coded n again (ok (de, item)) h = omega (arith, h de, length-put_item item (again de))

  length-coded :
      (body : List (Result E Item)) (de : De) → length (coded ops body de) ≤ suc (length body)
  unfolding coded
  length-coded [] de = length-at_end E ops (ops.code_eof de)
  length-coded (err e ∷ body) de = omega arith
  length-coded (ok item ∷ body) de =
      length-then_coded (length body) (coded ops body) (ops.code de item) (length-coded body)

  -- A coder over a stream, polled until it is at its end where all is ready in each poll, yields what
  -- the items of the stream are coded to, one after the other, up to the first error, within as many
  -- polls as there are items and two.
  pub collect-coded :
      (body : List (Result E Item)) (de : De) (polls : ℕ)
      → suc (length body) < polls
      → collect polls (new body de) ≡ some (coded ops body de)
  unfolding new
  collect-coded body de polls h =
      collect-left polls (new body de) tt (omega (arith, length-coded body de))
