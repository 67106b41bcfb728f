-- ===== src/H1/Dispatcher/Serve/Feeds.antt =====
-- The handler of a request in actix-http-alt/src/h1/proto/dispatcher.rs is fed, over all polls, what one
-- read loop would feed it.
use actix_server_alt.Prelude.{
  ℕ, suc, ◌≡◌, refl, sym, ap, ap₂, subst, ◌∙◌, ◌⊎◌, inl, inr, Bool, true, false, Bool-cases, ◌||◌,
  Option, none, some, List, [], ◌∷◌, ◌++◌, append-nil, append_assoc, length, Result, ok, err,
  and_then, Poll, ready, pending,
}
use actix_server_alt.H1.Kind.{Kind}
use actix_server_alt.H1.Decode.{RequestBodyItem}
use actix_server_alt.H1.Dispatcher.{
  running, done, closed, failed, Drained, Read, got, broken, is_running, add_items, go_on, drain,
  read_loop, finish_read, idle, poll_read_decode_body,
}
use actix_server_alt.H1.Dispatcher.Total.{IsReadable, read_loop-Ends}
use actix_server_alt.H1.Dispatcher.Serve.{
  Service, answered, waits, Serving, Served, responded, waiting, lost, read_on, after_feed,
  on_service, serve, if_waiting, serve_polls,
}

add_items_nil : (r : Option Drained) → and_then r (add_items []) ≡ r
unfolding add_items
add_items_nil none = refl
add_items_nil (some d) = refl

add_items_twice :
    (r : Option Drained) (a b : List RequestBodyItem)
    → and_then (and_then r (add_items b)) (add_items a) ≡ and_then r (add_items (a ++ b))
unfolding add_items
add_items_twice none a b = refl
add_items_twice (some d) a b = rw (append_assoc a b d.items) refl

-- Two read loops, one behind the other
abbrev first_then :
    (Kind → List ℕ → Option Drained)
    → (Kind → List ℕ → Option Drained)
    → Kind
    → List ℕ
    → Option Drained
first_then first second kind buf = and_then (first kind buf) (go_on second)

go_on-items :
    (again : Kind → List ℕ → Option Drained) (a : List RequestBodyItem) (r : Option Drained)
    → and_then (and_then r (go_on again)) (add_items a)
      ≡ and_then (and_then r (add_items a)) (go_on again)
unfolding go_on add_items
go_on-items again a none = refl
go_on-items again a (some d) = elim (Bool-cases (is_running d.status)) [
  | inl on ↦ rw on (add_items_twice (again d.kind d.src) a d.items)
  | inr over ↦ rw over refl
]

go_on_twice :
    (first second : Kind → List ℕ → Option Drained) (r : Option Drained)
    → and_then r (go_on (first_then first second))
      ≡ and_then (and_then r (go_on first)) (go_on second)
unfolding go_on
go_on_twice first second none = refl
go_on_twice first second (some d) = elim (Bool-cases (is_running d.status)) [
  | inl on ↦ rw on (go_on-items second d.items (first d.kind d.src))
  | inr over ↦ rw over (rw (over, go_on) refl)
]

read_loop-append :
    (reads more : List Read) (kind : Kind) (buf : List ℕ)
    → read_loop (reads ++ more) kind buf
      ≡ and_then (read_loop reads kind buf) (go_on (read_loop more))
unfolding read_loop go_on
read_loop-append [] more kind buf = sym (add_items_nil (read_loop more kind buf))
read_loop-append (broken bytes ∷ reads) more kind buf = refl
read_loop-append (got [] ∷ reads) more kind buf = read_loop-append reads more kind buf
read_loop-append (got (b ∷ bytes) ∷ reads) more kind buf =
    let src = buf ++ b ∷ bytes in
    let all = drain (suc (length src)) kind src in
    ap (λ (again : Kind → List ℕ → Option Drained). and_then all (go_on again))
      (λ i k rest. read_loop-append reads more k rest i)
    ∙ go_on_twice (read_loop reads) (read_loop more) all

-- The items are those of one read loop over the reads that were done. A handle is as the loop leaves
-- it, and is gone only at the end of the body or where the connection is to be closed.
abbrev pub Held : Bool → Drained → Option Kind → Type 0
Held force_close d none = (d.status ≡ done) ⊎ (force_close ≡ true)
Held force_close d (some kind) = (d.status ≡ running) × (d.kind ≡ kind) × IsReadable kind

pub record IsFed (kind : Kind) (buf : List ℕ) (s : Serving) (d : Drained) : Type 0 where
  pub read : read_loop s.taken kind buf ≡ some d
  pub fed : s.fed ≡ d.items
  pub rest : s.read_buf ≡ d.src

abbrev pub Stands : {Res : Type 0} → Kind → List ℕ → Serving → Served Res → Type 0
Stands kind buf s (lost status) = (d : Drained) × IsFed kind buf s d × (d.status ≡ status)
Stands kind buf s _ = (d : Drained) × IsFed kind buf s d × Held s.force_close d s.handle

abbrev Live : Kind → List ℕ → Serving → Type 0
Live kind buf s = (d : Drained) × IsFed kind buf s d × Held s.force_close d s.handle

-- One more read loop behind those that were done
more_read :
    (kind : Kind) (buf : List ℕ) (s : Serving) (d d' : Drained) (reads : List Read)
    → IsFed kind buf s d
    → d.status ≡ running
    → read_loop reads d.kind d.src ≡ some d'
    → read_loop (s.taken ++ reads) kind buf ≡ some (record d' { items = s.fed ++ d'.items })
unfolding go_on add_items
more_read kind buf s d d' reads f on q =
    read_loop-append s.taken reads kind buf
    ∙ ap (λ (t : Option Drained). and_then t (go_on (read_loop reads))) f.read
    ∙ (rw (on, go_on)
        (rw q (
          ap (λ (t : List RequestBodyItem). some (record d' { items = t ++ d'.items }))
            (sym f.fed))))

-- A request whose body is not read yet, with what is left in the read buffer
abbrev pub start : Kind → List ℕ → Serving
start kind buf = record {
  handle = some kind;
  read_buf = buf;
  fed = [];
  force_close = false;
  taken = [];
}

idle-IsFed :
    (kind : Kind) (buf : List ℕ) (s : Serving) (d : Drained) (handle : Option Kind)
    (force_close : Bool)
    → IsFed kind buf s d
    → IsFed kind buf (read_on [] (idle handle s.read_buf force_close) s) d
unfolding idle
idle-IsFed kind buf s d handle force_close f = record {
  read = rw (append-nil s.taken) f.read;
  fed = rw (append-nil s.fed) f.fed;
  rest = f.rest;
}

or_true : (b : Bool) → (b || true) ≡ true
or_true true = refl
or_true false = refl

or_false : (b : Bool) → (b || false) ≡ b
or_false true = refl
or_false false = refl

module _ {Res E : Type 0} (response_error : E → Res) (kind : Kind) (buf : List ℕ) where
  abbrev pub Goes : Option (Serving × Served Res) → Type 0
  Goes r = (s : Serving) × (p : Served Res) × (r ≡ some (s, p)) × Stands kind buf s p

  GoesOn : (Serving → Option (Serving × Served Res)) → Type 0
  GoesOn again = (s : Serving) → Live kind buf s → Goes (again s)

  module _ (again : Serving → Option (Serving × Served Res)) (go : GoesOn again) where
    after_feed-Goes :
        (s : Serving) (new : Bool)
        → Live kind buf s
        → Goes (after_feed response_error again s (ok new))
    unfolding after_feed GoesOn
    after_feed-Goes s true live = go s live
    after_feed-Goes s false live = (s, waiting, refl, live)

    finish_read-Goes :
        (s : Serving) (d : Drained) (reads : List Read)
        → read_loop (s.taken ++ reads) kind buf ≡ some (record d { items = s.fed ++ d.items })
        → (d.status ≡ running → IsReadable d.kind)
        → let p = finish_read d in
          Goes (after_feed response_error again (read_on reads p s) p.result)
    unfolding finish_read after_feed
    finish_read-Goes s d reads full ends =
        elim d.status
            as (λ st.
              d.status ≡ st
              → let p = finish_read (record d { status = st }) in
                Goes (after_feed response_error again (read_on reads p s) p.result)) [
                  | running ↦ λ e.
                      after_feed-Goes _ _
                        (_, record { read = full; fed = refl; rest = refl }, (e, refl, ends e))
                  | done ↦ λ e.
                      after_feed-Goes _ _
                        (_, record { read = full; fed = refl; rest = refl }, inl e)
                  | closed ↦
                      λ e. (_, _, refl, (_, record { read = full; fed = refl; rest = refl }, e))
                  | failed x ↦
                      λ e. (_, _, refl, (_, record { read = full; fed = refl; rest = refl }, e))
                ]
          refl

    waits-Goes :
        (handle : Option Kind) (sender : Poll (Result (Unit {0}) (Unit {0}))) (reads : List Read)
        (s : Serving)
        → Live kind buf (record s { handle = handle })
        → Goes (on_service response_error again (waits sender reads) (record s { handle = handle }))
    unfolding on_service poll_read_decode_body idle
    waits-Goes none sender reads s (d, f, held) =
        after_feed-Goes _ false
          (d, idle-IsFed kind buf _ d none false f, rw (or_false s.force_close) held)
    waits-Goes (some k) pending reads s (d, f, held) =
        after_feed-Goes _ false (d, idle-IsFed kind buf _ d (some k) false f, held)
    waits-Goes (some k) (ready (err t)) reads s (d, f, held) =
        after_feed-Goes _ false
          (d, idle-IsFed kind buf _ d none true f, inr (or_true s.force_close))
    waits-Goes (some k) (ready (ok t)) reads s (d, f, (on, same, readable)) =
        let s' = record s { handle = some k } in
        let (d', q, ends) = read_loop-Ends reads k s.read_buf readable in
        let again_read : read_loop reads d.kind d.src ≡ some d' =
          ap₂ (λ a b. read_loop reads a b) same (sym f.rest) ∙ q in
        subst
          (λ (r : Option Drained). Goes (
            and_then (and_then r (λ d. some (finish_read d)))
              (λ p. after_feed response_error again (read_on reads p s') p.result)))
          (sym q)
          (finish_read-Goes s' d' reads (more_read kind buf s' d d' reads f on again_read) ends)

    on_service-Goes :
        (r : Service Res E) (s : Serving)
        → Live kind buf s
        → Goes (on_service response_error again r s)
    unfolding on_service
    on_service-Goes (answered res) s live = (s, _, refl, live)
    on_service-Goes (waits sender reads) s live = waits-Goes s.handle sender reads s live

  serve-Goes : (rounds : List (Service Res E)) → GoesOn (serve response_error rounds)
  unfolding serve GoesOn
  serve-Goes [] s live = (s, waiting, refl, live)
  serve-Goes (r ∷ rounds) s live =
      on_service-Goes (serve response_error rounds) (serve-Goes rounds) r s live

  if_waiting-Goes :
      (again : Serving → Option (Serving × Served Res)) (s : Serving) (p : Served Res)
      → GoesOn again
      → Stands kind buf s p
      → Goes (if_waiting response_error again (s, p))
  unfolding if_waiting GoesOn
  if_waiting-Goes again s waiting go h = go s h
  if_waiting-Goes again s (responded res) go h = (s, responded res, refl, h)
  if_waiting-Goes again s (lost status) go h = (s, lost status, refl, h)

  polled : (polls : List (List (Service Res E))) → GoesOn (serve_polls response_error polls)
  unfolding serve_polls GoesOn
  polled [] s live = (s, waiting, refl, live)
  polled (rounds ∷ polls) s live =
      let (s', p, q, stands) = serve-Goes rounds s live in
      subst
        (λ (r : Option (Serving × Served Res)).
          Goes (and_then r (if_waiting response_error (serve_polls response_error polls))))
        (sym q) (if_waiting-Goes (serve_polls response_error polls) s' p (polled polls) stands)

  -- However often the handler of a request is polled, and whenever it wants more of the body, waiting
  -- for it does not panic; what it was fed, and what is left in the read buffer, are what one read loop
  -- gives over all the reads that were done, in order; reading goes on with the decoder that this loop
  -- leaves, and it is over only at the end of the body, where the handler dropped the body and the
  -- connection is marked to be closed, or with the error of this loop. The decoder can be read with.
  pub serve_polls-Goes :
      (polls : List (List (Service Res E)))
      → IsReadable kind
      → Goes (serve_polls response_error polls (start kind buf))
  unfolding read_loop GoesOn
  serve_polls-Goes polls readable =
      polled polls (start kind buf)
        (_, record { read = refl; fed = refl; rest = refl }, (refl, refl, readable))
