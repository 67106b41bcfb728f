-- ===== src/H1/Dispatcher/Incremental.antt =====
-- The body that `poll_read_decode_body` of actix-http-alt/src/h1/proto/dispatcher.rs hands on, however
-- the bytes arrive.
use mathlib.Core.List.{flatten}
use actix_server_alt.Prelude.{
  ℕ, zero, suc, ◌<◌, ◌≡◌, refl, subst, ap, ap₂, ◌⊎◌, inl, inr, sym, ◌∙◌, false, Option, none, some,
  List, [], ◌∷◌, ◌++◌, map, append_assoc, arith, length, Result, ok, err,
}
use actix_server_alt.H1.Chunked.{ChunkedState, IoError}
use actix_server_alt.H1.Kind.{Kind, decode_chunked, encode_chunked, plain_chunked}
use actix_server_alt.H1.Decode.{RequestBodyItem, chunk, eof, decode}
use actix_server_alt.H1.Decode.Reference.{
  Fed, prepend, feed, IsReading, resume_result, resume, After,
}
use actix_server_alt.H1.Decode.Reference.Loop.{loop_Explained}
use actix_server_alt.H1.Decode.Reference.Append.{more_fed, feed-append, IsLive, feed-IsLive}
use actix_server_alt.H1.Dispatcher.{
  running, done, closed, failed, Drained, after_decode, add_items, drain, Read, got, is_running,
  go_on, read_loop,
}

-- The bytes of the chunks among the items.
abbrev pub body_of : List RequestBodyItem → List ℕ
body_of [] = []
body_of (chunk bytes ∷ items) = bytes ++ body_of items
body_of (eof ∷ items) = body_of items

body_of-append : (xs ys : List RequestBodyItem) → body_of (xs ++ ys) ≡ body_of xs ++ body_of ys
body_of-append [] ys = refl
body_of-append (chunk bytes ∷ xs) ys =
    ap (λ (t : List ℕ). bytes ++ t) (body_of-append xs ys)
    ∙ sym (append_assoc bytes (body_of xs) (body_of ys))
body_of-append (eof ∷ xs) ys = body_of-append xs ys

-- The loop ended as the reference does, with the same bytes.
pub record Matches (d : Drained) (f : Fed) : Type 0 where
  pub kind : d.kind ≡ decode_chunked f.state f.size
  pub src : d.src ≡ f.rest
  pub body : body_of d.items ≡ f.bytes
  pub status : d.status ≡ f.status

abbrev pub Drains : Option Drained → Fed → Type 0
Drains r f = (d : Drained) × (r ≡ some d) × Matches d f

drain_outcome :
    (fuel : ℕ) (kind : Kind) (rest src : List ℕ) (r : Result IoError (Option RequestBodyItem))
    → After kind rest r src
    → ((state : ChunkedState) (n : ℕ)
        → length rest < length src
        → IsReading state n
        → Drains (drain fuel (decode_chunked state n) rest) (feed state n rest))
    → Drains (after_decode (drain fuel) kind rest r) (resume_result kind rest r)
unfolding after_decode add_items resume_result
drain_outcome fuel (decode_chunked state n) rest src (ok (some (chunk piece))) h ih =
    let (d, q, m) = ih state n h.1 h.0 in
    (
      record d { items = chunk piece ∷ d.items },
      rw q,
      record {
        kind = m.kind;
        src = m.src;
        body = ap (λ (t : List ℕ). piece ++ t) m.body;
        status = m.status;
      },
    )
drain_outcome fuel (decode_chunked state n) rest src (ok (some eof)) h ih =
    (_, refl, record { kind = refl; src = refl; body = refl; status = refl })
drain_outcome fuel (decode_chunked state n) rest src (ok none) h ih =
    (_, refl, record { kind = refl; src = refl; body = refl; status = refl })
drain_outcome fuel (decode_chunked state n) rest src (err e) h ih =
    (_, refl, record { kind = refl; src = refl; body = refl; status = refl })
drain_outcome fuel (Kind.length n) rest src r h ih = absurd h
drain_outcome fuel (encode_chunked sent) rest src r h ih = absurd h
drain_outcome fuel Kind.eof rest src r h ih = absurd h
drain_outcome fuel plain_chunked rest src r h ih = absurd h

-- One run of the inner loop ends, and does what the reference does byte by byte.
pub drain-feed :
    (fuel : ℕ) (state : ChunkedState) (n : ℕ) (src : List ℕ)
    → length src < fuel
    → IsReading state n
    → Drains (drain fuel (decode_chunked state n) src) (feed state n src)
unfolding drain decode resume
drain-feed zero state n src h good = absurd (omega arith)
drain-feed (suc fuel) state n src h good =
    let (o, q, explained, after) =
      loop_Explained (suc (length src)) state n src (omega arith) good in
    let (d, q', m) =
      drain_outcome fuel o.kind o.src src o.result after
        (λ state' n' shorter good'. drain-feed fuel state' n' o.src (omega arith) good') in
    (d, rw q q', subst (Matches d) (sym explained) m)

-- The reads end as the reference does over all the bytes, with the same bytes for the body. What
-- was never read stands behind what is left of the buffer.
abbrev pub Reads : Option Drained → Fed → Type 0
Reads r f =
    (d : Drained) × (unread : List ℕ) × (r ≡ some d)
    × Matches (record d { src = d.src ++ unread }) f

status_cases :
    (f : Fed) (unread : List ℕ)
    → ((f.status ≡ running) × (more_fed f unread ≡ prepend f.bytes (feed f.state f.size unread)))
      ⊎ ((is_running f.status ≡ false) × (more_fed f unread ≡ record f { rest = f.rest ++ unread }))
status_cases f unread =
    elim f.status
      as (λ s.
        ((s ≡ running)
          × (more_fed (record f { status = s }) unread
              ≡ prepend f.bytes (feed f.state f.size unread)))
        ⊎ ((is_running s ≡ false)
            × (more_fed (record f { status = s }) unread
                ≡ record f { rest = f.rest ++ unread; status = s }))) [
                  | running ↦ inl (refl, refl)
                  | done ↦ inr (refl, refl)
                  | closed ↦ inr (refl, refl)
                  | failed e ↦ inr (refl, refl)
                ]

go_on-Reads :
    (reads : List Read) (d : Drained) (f : Fed) (unread : List ℕ)
    → Matches d f
    → IsLive f
    → ((state : ChunkedState) (n : ℕ)
        → IsReading state n
        → Reads (read_loop reads (decode_chunked state n) []) (feed state n unread))
    → Reads (go_on (read_loop reads) d) (more_fed f unread)
unfolding go_on add_items
go_on-Reads reads d f unread m live ih = elim (status_cases f unread) [
  | inl (run, fed) ↦
      let (empty, good) = live run in
      let (d', unread', q, m') = ih f.state f.size good in
      let still : d.status ≡ running = m.status ∙ run in
      let no_bytes : d.src ≡ [] = m.src ∙ empty in
      (
        record d' { items = d.items ++ d'.items },
        unread',
        rw (still, m.kind, no_bytes, q),
        subst (Matches _) (sym fed) (record {
          kind = m'.kind;
          src = m'.src;
          body = body_of-append d.items d'.items ∙ ap₂ ◌++◌ m.body m'.body;
          status = m'.status;
        }),
      )
  | inr (ended, fed) ↦
      let stopped : is_running d.status ≡ false = ap is_running m.status ∙ ended in
      (
        d,
        unread,
        rw stopped,
        subst (Matches _) (sym fed) (record {
          kind = m.kind;
          src = ap (λ (t : List ℕ). t ++ unread) m.src;
          body = m.body;
          status = m.status;
        }),
      )
]

-- However the bytes of a chunked body are cut into reads, from an empty buffer on, the handler gets the body that the decoder
-- finds byte by byte, and the loop ends at the same byte for the same reason.
pub read_loop-feed :
    (pieces : List (List ℕ)) (state : ChunkedState) (n : ℕ)
    → IsReading state n
    → Reads (read_loop (map got pieces) (decode_chunked state n) []) (feed state n (flatten pieces))
unfolding read_loop feed flatten
read_loop-feed [] state n good = (
  record { kind = decode_chunked state n; src = []; items = []; status = running },
  [],
  refl,
  record { kind = refl; src = refl; body = refl; status = refl },
)
read_loop-feed ([] ∷ pieces) state n good = read_loop-feed pieces state n good
read_loop-feed ((b ∷ bytes) ∷ pieces) state n good =
    let (d, q, m) = drain-feed (suc (length (b ∷ bytes))) state n (b ∷ bytes) (omega arith) good in
    rw q (
      subst (Reads (go_on (read_loop (map got pieces)) d))
        (sym (feed-append state n (b ∷ bytes) (flatten pieces)))
        (go_on-Reads (map got pieces) d (feed state n (b ∷ bytes)) (flatten pieces) m
          (feed-IsLive state n (b ∷ bytes) good)
          (λ state' n' good'. read_loop-feed pieces state' n' good')))

-- The same holds with bytes of the body already in the buffer, such as those that came with the head
-- of the request, once the first read brings a byte. Until then they are not decoded.
pub read_loop-feed_behind :
    (buf : List ℕ) (b : ℕ) (bytes : List ℕ) (pieces : List (List ℕ)) (state : ChunkedState) (n : ℕ)
    → IsReading state n
    → Reads
        (read_loop (got (b ∷ bytes) ∷ map got pieces) (decode_chunked state n) buf)
        (feed state n (buf ++ flatten ((b ∷ bytes) ∷ pieces)))
      × (read_loop (map got (map (λ (x : List ℕ). []) pieces)) (decode_chunked state n) buf
          ≡ some
              (record { kind = decode_chunked state n; src = buf; items = []; status = running }))
unfolding read_loop flatten
read_loop-feed_behind buf b bytes pieces state n good = (behind buf, idle_lem pieces)
  where
    behind :
        (buf : List ℕ)
        → Reads
            (read_loop (got (b ∷ bytes) ∷ map got pieces) (decode_chunked state n) buf)
            (feed state n (buf ++ flatten ((b ∷ bytes) ∷ pieces)))
    behind [] = read_loop-feed ((b ∷ bytes) ∷ pieces) state n good
    behind (y ∷ ys) =
        subst
          (λ (t : List ℕ).
            Reads (read_loop (got (b ∷ bytes) ∷ map got pieces) (decode_chunked state n) (y ∷ ys))
              (feed state n t))
          (append_assoc (y ∷ ys) (b ∷ bytes) (flatten pieces))
          (read_loop-feed (((y ∷ ys) ++ b ∷ bytes) ∷ pieces) state n good)

    idle_lem :
        (pieces : List (List ℕ))
        → read_loop (map got (map (λ (x : List ℕ). []) pieces)) (decode_chunked state n) buf
          ≡ some (record { kind = decode_chunked state n; src = buf; items = []; status = running })
    idle_lem [] = refl
    idle_lem (piece ∷ pieces) = idle_lem pieces
