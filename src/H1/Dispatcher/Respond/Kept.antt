-- ===== src/H1/Dispatcher/Respond/Kept.antt =====
-- What `try_write` and `drain_write` of actix-http-alt/src/h1/proto/dispatcher.rs do to a write buffer.
use actix_server_alt.Prelude.{
  ℕ, ◌≡◌, refl, sym, ap, subst, ◌∙◌, Bool, true, false, Option, some, List, [], ◌∷◌, ◌++◌,
  append_assoc, All, Result, ok, err, Result-cases, and_then, inl, inr,
}
use actix_server_alt.H1.Buf.{WriteBuf, flat, queue}
use actix_server_alt.H1.Socket.{SocketError, broken, Outgoing}
use actix_server_alt.H1.Socket.Transfer.{write_list-Sends, write_flat-kept}
use actix_server_alt.H1.Encode.{encode_all}
use actix_server_alt.H1.Encode.RoundTrip.{bytes_in}
use actix_server_alt.H1.Encode.Onto.{body_out, encode_all-body_out}
use actix_server_alt.H1.Dispatcher.Total.{IsHandle}
use actix_server_alt.H1.Dispatcher.Respond.{
  Written, try_write, Wake, writable, fails, after_try, wake_up, drain_write, Responding, Progress,
  finished, blocked, draining, broken_off, Responded,
}
use actix_server_alt.H1.Dispatcher.Respond.Valid.{IsSound, IsEncoder, Fits}

-- What a call of `try_write` or `drain_write` leaves: unless it failed, the bytes that were in the
-- buffer, of which the socket took a front part; and none are left where it says that it is finished.
pub record IsKept (w : WriteBuf) (r : Written) : Type 0 where
  pub kept : (b : Bool) → r.result ≡ ok b → (r.sent ++ bytes_in r.buf ≡ bytes_in w) × IsSound r.buf
  pub empty : r.result ≡ ok false → bytes_in r.buf ≡ []

abbrev pub Keeps : WriteBuf → Option Written → Type 0
Keeps w r = (s : Written) × (r ≡ some s) × IsKept w s

pub try_write-Keeps :
    (answers : List Outgoing) (w : WriteBuf) → IsSound w → Keeps w (try_write answers w)
unfolding try_write bytes_in
try_write-Keeps answers (flat bytes) v =
    let (kept, failed', over) = write_flat-kept answers [] bytes in
    (_, refl, record { kept = λ b e. (kept b e, tt); empty = over })
try_write-Keeps answers (queue w) v =
    let (s, q, sent) = write_list-Sends answers w.list v in
    (
      record { sent = s.sent; buf = queue (record w { list = s.list }); result = s.result },
      rw q,
      record { kept = λ b e. (sent.kept, sent.valid); empty = sent.finished },
    )

after_try-Keeps :
    (w : WriteBuf) (r : Written) (again : Written → Option Written)
    → IsKept w r
    → (r.result ≡ ok true → Keeps w (again r))
    → Keeps w (after_try again r)
unfolding after_try
after_try-Keeps w r again k go = elim (Result-cases r.result) [
  | inr (e, q) ↦ (r, stops (err e) q refl, k)
  | inl (b, q) ↦ at b q
]
  where
    stops :
        (x : Result SocketError Bool)
        → r.result ≡ x
        → after_try again (record r { result = x }) ≡ some (record r { result = x })
        → after_try again r ≡ some r
    stops x q e =
        subst
          (λ (x : Result SocketError Bool).
            after_try again (record r { result = x }) ≡ some (record r { result = x }))
          (sym q) e

    at : (b : Bool) → r.result ≡ ok b → Keeps w (after_try again r)
    at true q = rw (q, after_try) (go q)
    at false q = (r, stops (ok false) q refl, k)

wake_up-Keeps :
    (w : WriteBuf) (r : Written) (again : List Outgoing → WriteBuf → Option Written) (wake : Wake)
    → IsKept w r
    → r.result ≡ ok true
    → ((answers : List Outgoing) → IsSound r.buf → Keeps r.buf (again answers r.buf))
    → Keeps w (wake_up again wake r)
unfolding wake_up
wake_up-Keeps w r again fails k e ih = (
  record r { result = err broken },
  refl,
  record { kept = λ b q. absurd (let z = q in cc); empty = λ q. absurd (let z = q in cc) },
)
wake_up-Keeps w r again (writable answers) k e ih =
    let (before, sound) = k.kept true e in
    let (r', q', k') = ih answers sound in
    (
      record r' { sent = r.sent ++ r'.sent },
      rw q',
      record {
        kept = λ b q.
            let (after, sound') = k'.kept b q in
            (
              append_assoc r.sent r'.sent (bytes_in r'.buf)
                  ∙ ap (λ (t : List ℕ). r.sent ++ t) after
                  ∙ before,
              sound',
            );
        empty = k'.empty;
      },
    )

pub drain_write-Keeps :
    (wakes : List Wake) (answers : List Outgoing) (w : WriteBuf)
    → IsSound w
    → Keeps w (drain_write answers wakes w)
unfolding drain_write
drain_write-Keeps [] answers w v = try_write-Keeps answers w v
drain_write-Keeps (wake ∷ wakes) answers w v =
    let (r, q, k) = try_write-Keeps answers w v in
    let again = λ (next : List Outgoing) (buf : WriteBuf). drain_write next wakes buf in
    subst (λ (t : Option Written). Keeps w (and_then t (after_try (wake_up again wake)))) (sym q)
      (after_try-Keeps w r (wake_up again wake) k (λ e.
        wake_up-Keeps w r again wake k e (λ next sound. drain_write-Keeps wakes next r.buf sound)))

-- All the bytes of the response: those that the socket took, those in the buffer, and what the encoder
-- makes of the messages that the body still has.
abbrev pub all_bytes : Responding → List ℕ
all_bytes s = s.sent ++ bytes_in (encode_all s.kind s.body s.buf).buf

-- The state of a response that goes on.
pub record IsLive (s : Responding) : Type 0 where
  pub sound : IsSound s.buf
  pub writes : IsEncoder s.kind
  pub fits : All (Fits s.kind) s.body
  pub handle : IsHandle s.handle

-- How a response stands: its bytes are the same at all times, and they are sent or in the buffer
-- when it is finished.
abbrev pub Stands : List ℕ → Progress → Responding → Type 0
Stands all finished s = (s.sent ++ bytes_in s.buf ≡ all) × IsSound s.buf
Stands all blocked s = (all_bytes s ≡ all) × IsLive s
Stands all draining s = all_bytes s ≡ all
Stands all (broken_off why) s = Unit

abbrev pub Goes : List ℕ → Option Responded → Type 0
Goes all r = (s : Responding) × (p : Progress) × (r ≡ some (s, p)) × Stands all p s

-- The rest of a loop, from every state that goes on
abbrev pub GoesOn : List ℕ → (Responding → Option Responded) → Type 0
GoesOn all again = (s : Responding) → IsLive s → all_bytes s ≡ all → Goes all (again s)

pub moved :
    (s : Responding) (sent : List ℕ) (buf : WriteBuf)
    → sent ++ bytes_in buf ≡ bytes_in s.buf
    → all_bytes (record s { buf = buf; sent = s.sent ++ sent }) ≡ all_bytes s
moved s sent buf h =
    ap (λ (t : List ℕ). (s.sent ++ sent) ++ t) (encode_all-body_out s.body s.kind buf)
    ∙ append_assoc s.sent sent (bytes_in buf ++ body_out s.kind s.body)
    ∙ ap (λ (t : List ℕ). s.sent ++ t)
        (sym (append_assoc sent (bytes_in buf) (body_out s.kind s.body))
          ∙ ap (λ (t : List ℕ). t ++ body_out s.kind s.body) h
          ∙ sym (encode_all-body_out s.body s.kind s.buf))
