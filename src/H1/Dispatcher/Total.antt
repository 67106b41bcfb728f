-- ===== src/H1/Dispatcher/Total.antt =====
-- `poll_read_decode_body` of actix-http-alt/src/h1/proto/dispatcher.rs returns, for every decoder that a
-- request has.
use actix_server_alt.Prelude.{
  ℕ, zero, suc, ◌<◌, ◌≡◌, refl, sym, subst, ◌∙◌, true, Bool-cases, Bool, Option, none, some, List,
  [], ◌∷◌, ◌++◌, length, ltb, ok, err, Result, Poll, ready, pending, and_then, arith, inl, inr,
}
use actix_server_alt.H1.Kind.{Kind, decode_chunked, encode_chunked, plain_chunked}
use actix_server_alt.H1.Decode.{decode, decode_plain}
use actix_server_alt.H1.Decode.Reference.{IsReading}
use actix_server_alt.H1.Decode.Reference.Append.{feed-IsLive}
use actix_server_alt.H1.Dispatcher.{
  Status, running, done, is_running, Drained, after_decode, add_items, drain, Read, got, broken,
  go_on, read_loop, BodyPolled, finish_read, idle, poll_read_decode_body,
}
use actix_server_alt.H1.Dispatcher.Incremental.{drain-feed}
use actix_server_alt.H1.Dispatcher.Sized.{
  drain_outcome, drain_part, drain_last, length_over, length_wait,
}

-- The decoders that are read on with: a chunked one is not at its end, and expects bytes where it
-- stands in a chunk.
abbrev pub IsReadable : Kind → Type 0
IsReadable (decode_chunked state n) = IsReading state n
IsReadable (encode_chunked sent) = ⊥
IsReadable _ = Unit

abbrev pub Ends : Option Drained → Type 0
Ends r = (d : Drained) × (r ≡ some d) × (d.status ≡ running → IsReadable d.kind)

drain_length-Ends :
    (fuel n : ℕ) (src : List ℕ) → length src < fuel → Ends (drain fuel (Kind.length n) src)
unfolding after_decode
drain_length-Ends zero n src h = absurd (omega arith)
drain_length-Ends (suc fuel) zero src h =
    (_, drain_outcome fuel 0 src _ (length_over src), λ e. absurd (let q = e in cc))
drain_length-Ends (suc fuel) (suc n) [] h =
    (_, drain_outcome fuel (suc n) [] _ (length_wait (suc n) (omega arith)), λ e. tt)
drain_length-Ends (suc zero) (suc n) (b ∷ src) h = absurd (omega arith)
drain_length-Ends (suc (suc fuel)) (suc n) (b ∷ src) h =
    elim (Bool-cases (ltb (length (b ∷ src)) (suc n))) [
      | inl part ↦ (_, drain_part fuel (suc n) b src part, λ e. tt)
      | inr last ↦
          (_, drain_last fuel (suc n) b src (omega arith) last, λ e. absurd (let q = e in cc))
    ]

drain-Ends :
    (fuel : ℕ) (kind : Kind) (src : List ℕ)
    → length src < fuel
    → IsReadable kind
    → Ends (drain fuel kind src)
unfolding drain decode after_decode add_items decode_plain
drain-Ends zero kind src h r = absurd (omega arith)
drain-Ends (suc fuel) (Kind.length n) src h r = drain_length-Ends (suc fuel) n src h
drain-Ends (suc fuel) (decode_chunked state n) src h r =
    let (d, q, m) = drain-feed (suc fuel) state n src h r in
    let live = feed-IsLive state n src r in
    (d, q, λ e. subst IsReadable (sym m.kind) (live (sym m.status ∙ e)).1)
drain-Ends (suc fuel) (encode_chunked b) src h r = absurd r
drain-Ends (suc fuel) Kind.eof [] h r = (_, refl, λ e. tt)
drain-Ends (suc zero) Kind.eof (b ∷ src) h r = absurd (omega arith)
drain-Ends (suc (suc fuel)) Kind.eof (b ∷ src) h r = (_, refl, λ e. tt)
drain-Ends (suc fuel) plain_chunked [] h r = (_, refl, λ e. tt)
drain-Ends (suc zero) plain_chunked (b ∷ src) h r = absurd (omega arith)
drain-Ends (suc (suc fuel)) plain_chunked (b ∷ src) h r = (_, refl, λ e. tt)

is_running-true : (s : Status) → is_running s ≡ true → s ≡ running
is_running-true running e = refl
is_running-true done e = cc
is_running-true Status.closed e = cc
is_running-true (Status.failed x) e = cc

go_on-Ends :
    (again : Kind → List ℕ → Option Drained) (r : Option Drained)
    → ((kind : Kind) (src : List ℕ) → IsReadable kind → Ends (again kind src))
    → Ends r
    → Ends (and_then r (go_on again))
unfolding go_on add_items
go_on-Ends again r ih (d, q, live) = elim (Bool-cases (is_running d.status)) [
  | inl on ↦
      let (d', q', live') = ih d.kind d.src (live (is_running-true d.status on)) in
      (record d' { items = d.items ++ d'.items }, rw q (rw on (rw q')), live')
  | inr over ↦ (d, rw q (rw over), live)
]

pub read_loop-Ends :
    (reads : List Read) (kind : Kind) (buf : List ℕ)
    → IsReadable kind
    → Ends (read_loop reads kind buf)
unfolding read_loop
read_loop-Ends [] kind buf r = (_, refl, λ e. r)
read_loop-Ends (broken bytes ∷ reads) kind buf r = (_, refl, λ e. absurd (let q = e in cc))
read_loop-Ends (got [] ∷ reads) kind buf r = read_loop-Ends reads kind buf r
read_loop-Ends (got (b ∷ bytes) ∷ reads) kind buf r =
    let src = buf ++ b ∷ bytes in
    go_on-Ends (read_loop reads) (drain (suc (length src)) kind src) (read_loop-Ends reads)
      (drain-Ends (suc (length src)) kind src (omega arith) r)

abbrev pub IsHandle : Option Kind → Type 0
IsHandle none = Unit
IsHandle (some kind) = IsReadable kind

-- A call returns, and leaves a handle that can be read on with.
abbrev pub Returns : Option BodyPolled → Type 0
Returns r =
    (p : BodyPolled) × (r ≡ some p) × ((new : Bool) → p.result ≡ ok new → IsHandle p.body_handle)

finish_read-Returns :
    (d : Drained) → (d.status ≡ running → IsReadable d.kind) → Returns (some (finish_read d))
unfolding finish_read
finish_read-Returns d live =
    elim d.status as (λ s. d.status ≡ s → Returns (some (finish_read (record d { status = s })))) [
      | running ↦ λ e. (_, refl, λ new q. live e)
      | done ↦ λ e. (_, refl, λ new q. tt)
      | Status.closed ↦ λ e. (_, refl, λ new q. absurd (let z = q in cc))
      | Status.failed x ↦ λ e. (_, refl, λ new q. absurd (let z = q in cc))
    ]
      refl

pub poll_read_decode_body-Returns :
    (handle : Option Kind) (sender : Poll (Result (Unit {0}) (Unit {0}))) (reads : List Read)
    (buf : List ℕ)
    → IsHandle handle
    → Returns (poll_read_decode_body handle sender reads buf)
unfolding poll_read_decode_body idle
poll_read_decode_body-Returns none sender reads buf h = (_, refl, λ new q. tt)
poll_read_decode_body-Returns (some kind) (ready (ok t)) reads buf h =
    let (d, q, live) = read_loop-Ends reads kind buf h in
    subst (λ (r : Option Drained). Returns (and_then r (λ d. some (finish_read d)))) (sym q)
      (finish_read-Returns d live)
poll_read_decode_body-Returns (some kind) pending reads buf h = (_, refl, λ new q. h)
poll_read_decode_body-Returns (some kind) (ready (err t)) reads buf h = (_, refl, λ new q. tt)
