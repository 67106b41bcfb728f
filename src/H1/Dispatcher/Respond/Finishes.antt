-- ===== src/H1/Dispatcher/Respond/Finishes.antt =====
-- A response of actix-http-alt/src/h1/proto/dispatcher.rs comes to its end.
use actix_server_alt.Prelude.{
  ℕ, zero, suc, ◌+◌, ◌*◌, ◌≤◌, ◌<◌, ◌≡◌, refl, sym, ap, subst, Bool, true, false, Bool-cases,
  Option, some, List, [], ◌∷◌, ◌++◌, length, length-append, length-drop, drop, arith, leb, ok,
  replicate, inl, inr,
}
use actix_server_alt.H1.Kind.{encode_chunked}
use actix_server_alt.H1.Buf.{flat, write_backpressure}
use actix_server_alt.H1.Socket.{accepted, write_flat}
use actix_server_alt.H1.Encode.{encode, encode_eof, encode_all, put_chunk}
use actix_server_alt.H1.Encode.Onto.{body_out, encode_all-body_out}
use actix_server_alt.H1.Encode.RoundTrip.{bytes_in}
use actix_server_alt.H1.Dispatcher.Respond.{
  Written, drain_write, Responding, goes_on, Round, finished, Responded, on_encoded, on_message,
  on_asked, after_drain, respond,
}

-- A round in which the body goes on, and the socket takes as many bytes as this when it is asked.
abbrev pub steady : ℕ → Round
steady n = record { asked = goes_on; writes = accepted n ∷ []; wakes = []; flushed = true }

-- A chunked response over a flat buffer
abbrev pub chunked_to : Responding → List (List ℕ) → Bool → List ℕ → Responding
chunked_to s msgs over b = record s { body = msgs; kind = encode_chunked over; buf = flat b }

abbrev pub Ends : Option Responded → Type 0
Ends r = (t : Responding) × (r ≡ some (t, finished))

-- What the buffer holds and what the encoder is to write
abbrev pub to_write : List (List ℕ) → Bool → List ℕ → List ℕ
to_write msgs over b = bytes_in (encode_all (encode_chunked over) msgs (flat b)).buf

nothing_left : (bytes : List ℕ) → length bytes ≡ 0 → bytes ≡ []
nothing_left [] h = refl
nothing_left (b ∷ bytes) h = absurd (omega arith)

drained :
    (n : ℕ) (b : List ℕ)
    → length b ≤ n
    → ((write_flat (accepted n ∷ []) [] b).buf ≡ [])
      × ((write_flat (accepted n ∷ []) [] b).result ≡ ok false)
unfolding write_flat
drained n [] h = (refl, refl)
drained zero (b ∷ bytes) h = absurd (omega arith)
drained (suc n) (b ∷ bytes) h =
    let e : drop n bytes ≡ [] = nothing_left (drop n bytes) (omega (arith, length-drop n bytes)) in
    rw (e, write_flat) (refl, refl)

module _ (limit n : ℕ) where
  on_message-Ends :
      (again : Responding → Option Responded) (msgs : List (List ℕ)) (over : Bool) (b : List ℕ)
      (s : Responding)
      → length (to_write msgs over b) ≤ n
      → ((msg : List ℕ) (rest : List (List ℕ)) (over' : Bool) (b' : List ℕ)
          → msgs ≡ msg ∷ rest
          → length (to_write rest over' b') ≤ n
          → Ends (again (chunked_to s rest over' b')))
      → Ends (on_message again msgs (chunked_to s msgs over b))
  unfolding on_message on_encoded encode encode_eof encode_all put_chunk
  on_message-Ends again [] over b s h go = (_, refl)
  on_message-Ends again (msg ∷ msgs) true b s h go = go msg msgs true b refl h
  on_message-Ends again ([] ∷ msgs) false b s h go = go [] msgs true _ refl h
  on_message-Ends again ((x ∷ msg) ∷ msgs) false b s h go = go (x ∷ msg) msgs false _ refl h

  less :
      (msgs : List (List ℕ)) (over : Bool) (b : List ℕ)
      → (length b ≤ length (to_write msgs over b))
        × (length (to_write msgs over []) ≤ length (to_write msgs over b))
  unfolding bytes_in
  less msgs over b =
      let out = body_out (encode_chunked over) msgs in
      let e =
        ap (λ (t : List ℕ). length t) (encode_all-body_out msgs (encode_chunked over) (flat b)) in
      let l = length-append b out in (omega (arith, e, l), omega (arith, e, l))

  room_for_some : 0 < limit → leb limit 0 ≡ false
  room_for_some some' = ground arith

  after_drain-Ends :
      (next : Responding → Option Responded) (s : Responding) (r : Written)
      → r.result ≡ ok false
      → Ends (next (record s { buf = r.buf; sent = s.sent ++ r.sent }))
      → Ends (after_drain next true s r)
  unfolding after_drain
  after_drain-Ends next s r q e = rw (q, after_drain) e

  in_room-Ends :
      (msgs : List (List ℕ)) (k : ℕ) (over : Bool) (b : List ℕ) (s : Responding)
      → leb limit (length b) ≡ false
      → length (to_write msgs over b) ≤ n
      → ((rest : List (List ℕ)) (over' : Bool) (b' : List ℕ)
          → suc (length rest) ≡ length msgs
          → length (to_write rest over' b') ≤ n
          → Ends (respond limit (replicate k (steady n)) (chunked_to s rest over' b')))
      → Ends (respond limit (replicate (suc k) (steady n)) (chunked_to s msgs over b))
  unfolding respond on_asked write_backpressure
  in_room-Ends msgs k over b s room h go = rw room (
      on_message-Ends (respond limit (replicate k (steady n))) msgs over b s h
        (λ msg rest over' b' e h'.
          go rest over' b' (sym (ap (λ (t : List (List ℕ)). length t) e)) h'))

  -- A chunked response over a flat buffer is finished in two rounds of the loop for each message and
  -- two for the end, where the body goes on in each and the socket, when it is asked, takes as many
  -- bytes as the buffer may hold in all.
  pub respond-Ends :
      (msgs : List (List ℕ)) (k : ℕ) (over : Bool) (b : List ℕ) (s : Responding)
      → 0 < limit
      → length (to_write msgs over b) ≤ n
      → 2 * length msgs + 2 ≤ k
      → Ends (respond limit (replicate k (steady n)) (chunked_to s msgs over b))
  unfolding respond on_asked after_drain drain_write write_backpressure
  respond-Ends msgs zero over b s some' h rounds = absurd (omega arith)
  respond-Ends msgs (suc zero) over b s some' h rounds = absurd (omega arith)
  respond-Ends msgs (suc (suc k)) over b s some' h rounds =
      elim (Bool-cases (leb limit (length b))) [
        | inr room ↦
            in_room-Ends msgs (suc k) over b s room h
              (λ rest over' b' e h'. respond-Ends rest (suc k) over' b' s some' h' (omega arith))
        | inl full ↦
            let (short, rest_short) = less msgs over b in
            let (empty, over_now) = drained n b (omega arith) in
            let r = write_flat (accepted n ∷ []) [] b in
            let w : Written = record { sent = r.sent; buf = flat r.buf; result = r.result } in
            let s' = record s { sent = s.sent ++ r.sent } in
            let again = respond limit (replicate (suc k) (steady n)) in
            rw full (
              after_drain-Ends again (chunked_to s msgs over b) w over_now (
                subst
                  (λ (t : List ℕ).
                    Ends
                      (again (record s' { body = msgs; kind = encode_chunked over; buf = flat t })))
                  (sym empty)
                  (in_room-Ends msgs k over [] s' (room_for_some some') (omega arith)
                    (λ rest over' b' e h'.
                      respond-Ends rest k over' b' s' some' h' (omega arith)))))
      ]
