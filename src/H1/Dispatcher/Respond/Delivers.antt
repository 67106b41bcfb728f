-- ===== src/H1/Dispatcher/Respond/Delivers.antt =====
-- What a response puts on the socket, in actix-http-alt/src/h1/proto/dispatcher.rs.
use actix_server_alt.Prelude.{
  ℕ, ◌^◌, ◌≤◌, ◌≡◌, ◌≢◌, refl, sym, subst, ◌∙◌, Bool, false, Bool-cases, Option, some, List, [],
  ◌∷◌, ◌++◌, ◌||◌, All, arith, ok, err, Result-cases, and_then, inl, inr,
}
use actix_server_alt.H1.Kind.{Kind}
use actix_server_alt.H1.Buf.{WriteBuf, flat, queue, write_backpressure}
use actix_server_alt.H1.Encode.{Encoded, unexpected_eof, panicked, encode, encode_eof, encode_all}
use actix_server_alt.H1.Dispatcher.{BodyPolled}
use actix_server_alt.H1.Dispatcher.Total.{IsHandle, poll_read_decode_body-Returns}
use actix_server_alt.H1.Dispatcher.Respond.{
  Written, Responding, Waiting, Asked, goes_on, failed, waits, Round, Progress, finished, blocked,
  draining, broken_off, Responded, on_encoded, on_message, after_read, read_body, after_write,
  on_waiting, on_asked, after_drain, respond, again_if_blocked, respond_polls,
}
use actix_server_alt.H1.Dispatcher.Respond.Valid.{
  HasRoom, Fits, encode-IsSound, encode_eof-IsSound, encode-Fits, encode-IsEncoded,
  encode_eof-IsEncoded,
}
use actix_server_alt.H1.Dispatcher.Respond.Kept.{
  IsKept, try_write-Keeps, drain_write-Keeps, all_bytes, IsLive, Stands, Goes, GoesOn, moved,
}

All-Fits :
    (kind : Kind) (msg : List ℕ) (w : WriteBuf) (msgs : List (List ℕ))
    → All (Fits kind) msgs
    → All (Fits (encode kind msg w).kind) msgs
All-Fits kind msg w [] h = tt
All-Fits kind msg w (m ∷ msgs) h = (encode-Fits kind msg m w h.0, All-Fits kind msg w msgs h.1)

module _ (all : List ℕ) (again : Responding → Option Responded) (go : GoesOn all again) where
  on_encoded-Goes :
      {A : Type 0} (next : Responding → Option Responded) (s : Responding) (e : Encoded A)
      → e.result ≢ err panicked
      → Goes all (next (record s { kind = e.kind; buf = e.buf }))
      → Goes all (on_encoded next s e)
  unfolding on_encoded
  on_encoded-Goes next s e no' h = elim (Result-cases e.result) [
    | inr (unexpected_eof, q) ↦ rw (q, on_encoded) (_, _, refl, tt)
    | inr (panicked, q) ↦ absurd (no' q)
    | inl (a, q) ↦ rw (q, on_encoded) h
  ]

  on_message-Goes :
      (body : List (List ℕ)) (s : Responding)
      → IsLive (record s { body = body })
      → HasRoom s.buf
      → all_bytes (record s { body = body }) ≡ all
      → Goes all (on_message again body s)
  unfolding on_message encode_all
  on_message-Goes [] s live room e =
      on_encoded-Goes (λ s'. some (s', finished)) s (encode_eof s.kind s.buf)
        (encode_eof-IsEncoded s.kind s.buf live.writes).returns
        (_, finished, refl, (e, encode_eof-IsSound s.kind s.buf live.sound room))
  on_message-Goes (msg ∷ body) s live room e =
      on_encoded-Goes again (record s { body = body }) (encode s.kind msg s.buf)
        (encode-IsEncoded s.kind msg s.buf live.writes).returns
        (go _
          (record {
            writes = (encode-IsEncoded s.kind msg s.buf live.writes).writes;
            sound = encode-IsSound s.kind msg s.buf live.fits.0 live.sound room;
            fits = All-Fits s.kind msg s.buf body live.fits.1;
            handle = live.handle;
          })
          e)

  after_read-Goes :
      (s : Responding) (p : BodyPolled)
      → IsLive s
      → all_bytes s ≡ all
      → ((new : Bool) → p.result ≡ ok new → IsHandle p.body_handle)
      → Goes all (after_read again s p)
  unfolding after_read
  after_read-Goes s p live e h = elim (Result-cases p.result) [
    | inr (x, q) ↦ rw (q, after_read) (_, _, refl, tt)
    | inl (new, q) ↦
        let s' = record s {
          handle = p.body_handle;
          read_buf = p.buf;
          fed = s.fed ++ p.items;
          force_close = s.force_close || p.force_close;
        } in
        let live' : IsLive s' = record {
          sound = live.sound;
          writes = live.writes;
          fits = live.fits;
          handle = h new q;
        } in
        rw (q, after_read)
          elim (Bool-cases new) [
            | inl more ↦ rw more (go s' live' e)
            | inr none' ↦ rw none' (s', blocked, refl, (e, live'))
          ]
  ]

  read_body-Goes :
      (w : Waiting) (s : Responding) → IsLive s → all_bytes s ≡ all → Goes all (read_body again w s)
  unfolding read_body
  read_body-Goes w s live e =
      let (p, q, h) =
        poll_read_decode_body-Returns s.handle w.sender w.reads s.read_buf live.handle in
      subst (λ (t : Option BodyPolled). Goes all (and_then t (after_read again s))) (sym q)
        (after_read-Goes s p live e h)

  after_write-Goes :
      (next : Responding → Option Responded) (s : Responding) (r : Written)
      → IsLive s
      → all_bytes s ≡ all
      → IsKept s.buf r
      → GoesOn all next
      → Goes all (after_write next s r)
  unfolding after_write
  after_write-Goes next s r live e k on = elim (Result-cases r.result) [
    | inr (x, q) ↦ rw (q, after_write) (_, _, refl, tt)
    | inl (b, q) ↦
        let (kept, sound) = k.kept b q in
        rw (q, after_write)
          (on _
            (record { sound = sound; writes = live.writes; fits = live.fits; handle = live.handle })
            (moved s r.sent r.buf kept ∙ e))
  ]

  on_waiting-Goes :
      (w : Waiting) (s : Responding)
      → IsLive s
      → all_bytes s ≡ all
      → Goes all (on_waiting again w s)
  unfolding on_waiting
  on_waiting-Goes w s live e = elim (Result-cases w.write_ready) [
    | inr (x, q) ↦ rw (q, on_waiting) (_, _, refl, tt)
    | inl (b, q) ↦
        rw (q, on_waiting)
          elim (Bool-cases b) [
            | inr no' ↦ rw no' (read_body-Goes w s live e)
            | inl ready' ↦
                let (r, q', k) = try_write-Keeps w.writes s.buf live.sound in
                rw ready' (
                  subst
                    (λ (t : Option Written).
                      Goes all (and_then t (after_write (read_body again w) s)))
                    (sym q')
                    (after_write-Goes (read_body again w) s r live e k
                      (λ s' live' e'. read_body-Goes w s' live' e')))
          ]
  ]

  on_asked-Goes :
      (asked : Asked) (s : Responding)
      → IsLive s
      → HasRoom s.buf
      → all_bytes s ≡ all
      → Goes all (on_asked again asked s)
  unfolding on_asked
  on_asked-Goes goes_on s live room e = on_message-Goes s.body s live room e
  on_asked-Goes failed s live room e = (_, _, refl, tt)
  on_asked-Goes (waits w) s live room e = on_waiting-Goes w s live e

  after_drain-Goes :
      (flushed : Bool) (s : Responding) (r : Written)
      → IsLive s
      → all_bytes s ≡ all
      → IsKept s.buf r
      → Goes all (after_drain again flushed s r)
  unfolding after_drain
  after_drain-Goes flushed s r live e k = elim (Result-cases r.result) [
    | inr (x, q) ↦ rw (q, after_drain) (_, _, refl, tt)
    | inl (b, q) ↦
        let (kept, sound) = k.kept b q in
        let s' = record s { buf = r.buf; sent = s.sent ++ r.sent } in
        let e' : all_bytes s' ≡ all = moved s r.sent r.buf kept ∙ e in
        rw (q, after_drain)
          elim (Bool-cases b) [
            | inl still ↦ rw still (s', draining, refl, e')
            | inr over ↦ rw over elim (Bool-cases flushed) [
              | inl out ↦ rw out (
                  go s'
                    (record {
                      sound = sound;
                      writes = live.writes;
                      fits = live.fits;
                      handle = live.handle;
                    })
                    e')
              | inr stuck ↦ rw stuck (_, _, refl, tt)
            ]
          ]
  ]

has_room :
    (limit : ℕ) (w : WriteBuf) → limit ≤ 2 ^ 62 → write_backpressure limit w ≡ false → HasRoom w
unfolding write_backpressure
has_room limit (flat bytes) h e = tt
has_room limit (queue w) h e = ground (arith, h)

respond-Goes :
    (limit : ℕ) (all : List ℕ) (rounds : List Round)
    → limit ≤ 2 ^ 62
    → GoesOn all (respond limit rounds)
unfolding respond
respond-Goes limit all [] h s live e = (s, blocked, refl, (e, live))
respond-Goes limit all (r ∷ rounds) h s live e =
    let go = respond-Goes limit all rounds h in
    elim (Bool-cases (write_backpressure limit s.buf)) [
      | inr room ↦ rw room (
          on_asked-Goes all (respond limit rounds) go r.asked s live (has_room limit s.buf h room)
            e)
      | inl full ↦
          let (d, q, k) = drain_write-Keeps r.wakes r.writes s.buf live.sound in
          rw full (
            subst
              (λ (t : Option Written).
                Goes all (and_then t (after_drain (respond limit rounds) r.flushed s)))
              (sym q) (after_drain-Goes all (respond limit rounds) go r.flushed s d live e k))
    ]

again_if_blocked-Goes :
    (all : List ℕ) (again : Responding → Option Responded) (s : Responding) (p : Progress)
    → GoesOn all again
    → Stands all p s
    → Goes all (again_if_blocked again (s, p))
unfolding again_if_blocked
again_if_blocked-Goes all again s blocked go h = go s h.1 h.0
again_if_blocked-Goes all again s finished go h = (s, finished, refl, h)
again_if_blocked-Goes all again s draining go h = (s, draining, refl, h)
again_if_blocked-Goes all again s (broken_off why) go h = (s, broken_off why, refl, h)

-- A response that is not broken off loses no byte and repeats none. However often the task is polled
-- and whatever the body, the socket and the handler answer, it does not panic; what the socket took,
-- what is in the buffer, and what the encoder makes of the messages that are still to come, are at
-- all times the same bytes; and when it is finished they are all sent or in the buffer. The limit of
-- the buffer is at most 2 ^ 62, its list is valid, and each message fits.
pub respond_polls-Goes :
    (limit : ℕ) (polls : List (List Round)) (s : Responding)
    → limit ≤ 2 ^ 62
    → IsLive s
    → Goes (all_bytes s) (respond_polls limit polls s)
unfolding respond_polls
respond_polls-Goes limit polls s h live = polled polls s live refl
  where
    polled : (polls : List (List Round)) → GoesOn (all_bytes s) (respond_polls limit polls)
    polled [] s' live' e = (s', blocked, refl, (e, live'))
    polled (rounds ∷ polls) s' live' e =
        let (t, p, q, stands) = respond-Goes limit (all_bytes s) rounds h s' live' e in
        subst
          (λ (r : Option Responded).
            Goes (all_bytes s) (and_then r (again_if_blocked (respond_polls limit polls))))
          (sym q)
          (again_if_blocked-Goes (all_bytes s) (respond_polls limit polls) t p (polled polls)
            stands)
