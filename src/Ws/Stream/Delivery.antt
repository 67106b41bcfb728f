-- ===== src/Ws/Stream/Delivery.antt =====
-- From an `EncodeStream` to a `DecodeStream` (http-ws/src/stream.rs).
use mathlib.Core.List.{flatten}
use actix_server_alt.Prelude.{
  ℕ, ◌<◌, ◌≡◌, refl, subst, ap, sym, ◌∙◌, Bool, true, false, Option, none, some, List, [], ◌∷◌,
  ◌++◌, map, append-nil, append_assoc, arith, length, Result, ok, ready,
}
use actix_server_alt.Ws.Proto.{ProtocolError}
use actix_server_alt.Ws.Mask.{Layout}
use actix_server_alt.Ws.Mask.Words.{IsMask}
use actix_server_alt.Ws.Frame.Parse.{FitsUsize}
use actix_server_alt.Ws.Codec.{Message, Codec, Encoded, encode, decode}
use actix_server_alt.Ws.Codec.InStep.{InStep, CanSend, received}
use actix_server_alt.Ws.Codec.RoundTrip.{decode-encode}
use actix_server_alt.Ws.Codec.Refusals.{encode-append}
use actix_server_alt.Ws.Codec.Progress.{decode_progress}
use actix_server_alt.Ws.Stream.{
  Source, DecodeStream, with_codec, read, read_stream, Item, answer, finish_poll, poll_decode,
  Queued, Receiver, EncodeStream, after_encode, pump, pump_stream, emit, finish_encode, poll_encode,
}

abbrev encoded : Codec → Queued → Encoded
encoded c q = encode q.layout q.key c q.message []

-- Each message can be read by a peer with the limit `max_size`, and none is out of order.
abbrev pub Deliverable : Codec → ℕ → List Queued → Type 0
Deliverable c max_size [] = Unit {0}
Deliverable c max_size (q ∷ queue) =
    IsMask q.key
    × CanSend q.message max_size
    × ((encoded c q).result ≡ ok tt)
    × Deliverable (encoded c q).codec max_size queue

-- The frames of the messages, one behind the other, and the codec behind the last.
wire : Codec → List Queued → List ℕ
wire c [] = []
wire c (q ∷ queue) = (encoded c q).dst ++ wire (encoded c q).codec queue

last_codec : Codec → List Queued → Codec
last_codec c [] = c
last_codec c (q ∷ queue) = last_codec (encoded c q).codec queue

abbrev left_over : Bool → Option Receiver
left_over true = none
left_over false = some (record { queue = []; closed = false })

pump-wire :
    (c : Codec) (max_size : ℕ) (buf : List ℕ) (queue : List Queued) (closed : Bool)
    → Deliverable c max_size queue
    → pump c buf queue closed ≡ (
      record { codec = last_codec c queue; buf = buf ++ wire c queue; rx = left_over closed },
      none,
    )
unfolding pump wire last_codec after_encode
pump-wire c max_size buf [] true h = rw (append-nil buf)
pump-wire c max_size buf [] false h = rw (append-nil buf)
pump-wire c max_size buf (q ∷ queue) closed h = rw (encode-append q.layout q.key c q.message buf) (
    rw (h.2, after_encode)
      (pump-wire (encoded c q).codec max_size (buf ++ (encoded c q).dst) queue closed h.3
        ∙ rw append_assoc))

-- The input stream once its chunks are read.
abbrev settled : Bool → Option Source
settled true = none
settled false = some (record { chunks = []; ended = false })

read-flatten :
    (chunks : List (List ℕ)) (ended : Bool) (buf : List ℕ)
    → read (map ok chunks) ended buf ≡ (settled ended, buf ++ flatten chunks, none)
unfolding read flatten
read-flatten [] true buf = rw (append-nil buf)
read-flatten [] false buf = rw (append-nil buf)
read-flatten (item ∷ chunks) ended buf = read-flatten chunks ended (buf ++ item) ∙ rw append_assoc

read_stream-settled :
    (ended : Bool) (buf : List ℕ) → read_stream (settled ended) buf ≡ (settled ended, buf, none)
unfolding read read_stream
read_stream-settled true buf = refl
read_stream-settled false buf = refl

abbrev holding : Bool → List ℕ → Codec → DecodeStream
holding ended buf codec = record { stream = settled ended; buf = buf; codec = codec }

abbrev delivers : Message → Item
delivers message = ready (some (ok message))

one_poll :
    (k : Layout) (ended : Bool) (d d' : Codec) (buf rest : List ℕ) (message : Message)
    → decode k d buf ≡ (d', rest, ok (some message))
    → poll_decode k (holding ended buf d) ≡ (holding ended rest d', delivers message)
unfolding poll_decode finish_poll answer
one_poll k true d d' buf rest message e = rw (read_stream-settled true buf, e)
one_poll k false d d' buf rest message e = rw (read_stream-settled false buf, e)

-- The answers of one poll after the other.
unfoldable pub polls : List Layout → DecodeStream → List Item
polls [] s = []
polls (k ∷ ks) s = (poll_decode k s).1 ∷ polls ks (poll_decode k s).0

abbrev pub deliveries : List Queued → List Item
deliveries = map (λ q. delivers (received q.message))

polls-wire :
    (ks : List Layout) (c d : Codec) (queue : List Queued) (ended : Bool)
    → length ks ≡ length queue
    → InStep c d
    → FitsUsize d.max_size
    → Deliverable c d.max_size queue
    → polls ks (holding ended (wire c queue) d) ≡ deliveries queue
unfolding polls wire
polls-wire [] c d [] ended e s f h = refl
polls-wire [] c d (q ∷ queue) ended e s f h = absurd (omega arith)
polls-wire (k ∷ ks) c d [] ended e s f h = absurd (omega arith)
polls-wire (k ∷ ks) c d (q ∷ queue) ended e s f h =
    let (d', read, s', m) =
      decode-encode q.layout k q.key c d q.message (wire (encoded c q).codec queue) s f h.0 h.1
        h.2 in
    rw (one_poll k ended d d' _ _ (received q.message) read) (
      ap (◌∷◌ (delivers (received q.message))) (
        polls-wire ks (encoded c q).codec d' queue ended (omega arith) s' (omega (arith, m))
          (subst (λ t. Deliverable (encoded c q).codec t queue) (sym m) h.3)))

first_poll :
    (k : Layout) (d : Codec) (chunks : List (List ℕ)) (ended : Bool) (buf : List ℕ)
    → flatten chunks ≡ buf
    → poll_decode k (with_codec (record { chunks = map ok chunks; ended = ended }) d)
      ≡ poll_decode k (holding ended buf d)
unfolding poll_decode with_codec read_stream
first_poll k d chunks ended buf e = ap (finish_poll k d) (
    read-flatten chunks ended []
    ∙ ap (λ (t : List ℕ). (settled ended, t, none)) e
    ∙ sym (unfold read_stream in (read_stream-settled ended buf)))

emit-some :
    (s : EncodeStream) (bytes : List ℕ) → 0 < length bytes → emit s bytes ≡ ready (some (ok bytes))
unfolding emit
emit-some s [] h = absurd (omega arith)
emit-some s (b ∷ bs) h = refl

wire_pos :
    (c d : Codec) (q : Queued) (queue : List Queued)
    → InStep c d
    → FitsUsize d.max_size
    → Deliverable c d.max_size (q ∷ queue)
    → 0 < length (wire c (q ∷ queue))
unfolding wire
wire_pos c d q queue s f h =
    let (d', read, s', m) =
      decode-encode q.layout q.layout q.key c d q.message (wire (encoded c q).codec queue) s f h.0
        h.1 h.2 in
    omega (
      arith,
      decode_progress q.layout d ((encoded c q).dst ++ wire (encoded c q).codec queue)
          (received q.message) f
          (ap (λ (r : Codec × List ℕ × Result ProtocolError (Option Message)). r.2) read),
    )

polls_first :
    (ks : List Layout) (c d : Codec) (queue : List Queued) (ended : Bool) (chunks : List (List ℕ))
    → length ks ≡ length queue
    → 0 < length queue
    → InStep c d
    → FitsUsize d.max_size
    → Deliverable c d.max_size queue
    → flatten chunks ≡ wire c queue
    → polls ks (with_codec (record { chunks = map ok chunks; ended = ended }) d) ≡ deliveries queue
unfolding polls
polls_first [] c d queue ended chunks e pos s f h cut = absurd (omega arith)
polls_first (k ∷ ks) c d queue ended chunks e pos s f h cut =
    ap (λ (r : DecodeStream × Item). r.1 ∷ polls ks r.0)
      (first_poll k d chunks ended (wire c queue) cut)
    ∙ unfold polls in (polls-wire (k ∷ ks) c d queue ended e s f h)

-- Messages put into the channel of an `EncodeStream` come out as one piece of bytes at its next
-- poll. However these bytes are cut into chunks, a `DecodeStream` over the chunks answers, poll by
-- poll, with the messages: all of them, once each, in order, only that the reason of a close message
-- comes in its normal form. The messages have to be ones that the peer can read, with the parts of a
-- longer message in order; the two codecs have to be in step; the bytes of the masks have to be
-- bytes, and the peer's `max_size` + 14 below 2 ^ 64.
pub delivery :
    (c d : Codec) (q : Queued) (queue : List Queued) (closed : Bool)
    → InStep c d
    → FitsUsize d.max_size
    → Deliverable c d.max_size (q ∷ queue)
    → (bytes : List ℕ) × ((poll_encode (record {
      codec = c;
      buf = [];
      rx = some (record { queue = q ∷ queue; closed = closed });
    })).1
        ≡ ready (some (ok bytes)))
      × ((chunks : List (List ℕ)) (ended : Bool) (ks : List Layout)
          → flatten chunks ≡ bytes
          → length ks ≡ length (q ∷ queue)
          → polls ks (with_codec (record { chunks = map ok chunks; ended = ended }) d)
            ≡ deliveries (q ∷ queue))
unfolding poll_encode pump_stream finish_encode
delivery c d q queue closed s f h = (
  wire c (q ∷ queue),
  rw (pump-wire c d.max_size [] (q ∷ queue) closed h)
      (emit-some _ (wire c (q ∷ queue)) (wire_pos c d q queue s f h)),
  λ chunks ended ks cut e. polls_first ks c d (q ∷ queue) ended chunks e (omega arith) s f h cut,
)
