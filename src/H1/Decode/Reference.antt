-- ===== src/H1/Decode/Reference.antt =====
-- The chunked decoder of actix-http-alt/src/h1/proto/decode.rs, one byte at a time.
pub mod Loop
pub mod Append
use actix_server_alt.Prelude.{
  ℕ, zero, suc, ◌+◌, ◌-◌, ◌≤◌, ◌<◌, ◌≡◌, ◌≢◌, refl, subst, ap, sym, ◌∙◌, Bool, true, false, Option,
  none, some, List, [], ◌∷◌, ◌++◌, append-nil, append_assoc, arith, length, take, drop,
  take-append-drop, length-take, length-drop, ltb, ◌==◌, if◌then◌else◌, Result, ok, err, ◌⊎◌, inl,
  inr, Bool-cases, Poll, ready, pending,
}
use actix_server_alt.H1.Chunked.{
  invalid_size, ChunkedState, size_lws, extension, size_lf, body, body_cr, body_lf, end_cr, end_lf,
  end, IoError, Stepped, go, fail, step, read_body,
}
use actix_server_alt.H1.Chunked.Steps.{IsNext, Single, goes, fails, step-Single}
use actix_server_alt.H1.Kind.{Kind, decode_chunked, encode_chunked, plain_chunked}
use actix_server_alt.H1.Dispatcher.{Status, running, done, failed}
use actix_server_alt.H1.Decode.{
  Outcome, RequestBodyItem, chunk, eof, turn_round, after_step, decode_loop, decode,
}

-- What a run over a buffer leaves: the state, the bytes of the body, and the bytes not taken.
pub record Fed : Type 0 where
  pub state : ChunkedState
  pub size : ℕ
  pub bytes : List ℕ
  pub rest : List ℕ
  pub status : Status

-- What one byte does: the next state, and the byte itself where it belongs to the body.
pub data Turn : Type 0 where
  next : ChunkedState → ℕ → List ℕ → Turn
  stop : IoError → Turn

-- A step that has a byte is not pending.
unfoldable pub read_turn : ℕ → Poll (Result IoError ChunkedState) → Turn
read_turn n (ready (ok state)) = next state n []
read_turn n (ready (err e)) = stop e
read_turn n pending = stop invalid_size

unfoldable pub turn : ChunkedState → ℕ → ℕ → Turn
unfolding read_turn
turn body n b = next (if n == 1 then body_cr else body) (n - 1) (b ∷ [])
turn state n b = let s = step state (b ∷ []) n in read_turn s.size s.poll

abbrev pub prepend : List ℕ → Fed → Fed
prepend out f = record f { bytes = out ++ f.bytes }

unfoldable pub settle : ChunkedState → ℕ → List ℕ → (ChunkedState → ℕ → Fed) → Turn → Fed
settle state n rest again (stop e) = record {
  state = state;
  size = n;
  bytes = [];
  rest = rest;
  status = failed e;
}
settle state n rest again (next end n' out) = record {
  state = end;
  size = n';
  bytes = out;
  rest = rest;
  status = done;
}
settle state n rest again (next state' n' out) = prepend out (again state' n')

-- The decoder fed byte by byte, up to the end of the body or an error.
unfoldable pub feed : ChunkedState → ℕ → List ℕ → Fed
feed state n [] = record { state = state; size = n; bytes = []; rest = []; status = running }
feed state n (b ∷ src) = settle state n src (λ state' n'. feed state' n' src) (turn state n b)

-- Inside a chunk there is something left of it, and behind the last byte nothing is read.
abbrev pub IsReading : ChunkedState → ℕ → Type 0
IsReading state n = IsNext state n × (state ≢ end)

pub feed_chunk :
    (n : ℕ) (xs ys : List ℕ)
    → length xs < n
    → feed body n (xs ++ ys) ≡ prepend xs (feed body (n - length xs) ys)
unfolding feed settle turn
feed_chunk n [] ys h = ap (λ (t : ℕ). feed body t ys) (let e : n ≡ n - 0 = omega arith in e)
feed_chunk n (x ∷ xs) ys h =
    let more : (n == 1) ≡ false = ground arith in
    let rest : n - 1 - length xs ≡ n - suc (length xs) = omega arith in
    rw more (
      ap (prepend (x ∷ [])) (feed_chunk (n - 1) xs ys (omega arith))
      ∙ ap (λ (t : ℕ). prepend (x ∷ xs) (feed body t ys)) rest)

pub feed_last :
    (n : ℕ) (xs ys : List ℕ)
    → length xs ≡ n
    → 0 < n
    → feed body n (xs ++ ys) ≡ prepend xs (feed body_cr 0 ys)
unfolding feed settle turn
feed_last n [] ys e h = absurd (omega arith)
feed_last n (x ∷ []) ys e h =
    let one : (n == 1) ≡ true = ground arith in
    let left : n - 1 ≡ 0 = omega arith in
    rw one (ap (λ (t : ℕ). prepend (x ∷ []) (feed body_cr t ys)) left)
feed_last n (x ∷ y ∷ xs) ys e h =
    let more : (n == 1) ≡ false = ground arith in
    rw more (ap (prepend (x ∷ [])) (feed_last (n - 1) (y ∷ xs) ys (omega arith) (omega arith)))

unfoldable pub resume_result : Kind → List ℕ → Result IoError (Option RequestBodyItem) → Fed
resume_result (decode_chunked state n) src (ok none) = record {
  state = state;
  size = n;
  bytes = [];
  rest = src;
  status = running;
}
resume_result (decode_chunked state n) src (ok (some eof)) = record {
  state = state;
  size = n;
  bytes = [];
  rest = src;
  status = done;
}
resume_result (decode_chunked state n) src (ok (some (chunk piece))) =
    prepend piece (feed state n src)
resume_result (decode_chunked state n) src (err e) = record {
  state = state;
  size = n;
  bytes = [];
  rest = src;
  status = failed e;
}
resume_result _ src r = record {
  state = end;
  size = 0;
  bytes = [];
  rest = src;
  status = failed invalid_size;
}

-- What a call of `decode` says, in the terms of the reference.
unfoldable pub resume : Outcome → Fed
unfolding resume_result
resume o = resume_result o.kind o.src o.result

-- Behind a chunk the decoder is reading and the buffer is shorter; "not yet" empties the buffer.
abbrev pub After : Kind → List ℕ → Result IoError (Option RequestBodyItem) → List ℕ → Type 0
After (decode_chunked state n) rest (ok (some (chunk piece))) src =
    IsReading state n × (length rest < length src)
After (decode_chunked state n) rest (ok none) src = (rest ≡ []) × IsReading state n
After (decode_chunked state n) rest r src = Unit {0}
After _ rest r src = ⊥

-- The call's outcome accounts for the whole buffer.
abbrev pub Explained : ChunkedState → ℕ → List ℕ → Option Outcome → Type 0
Explained state n src r =
    (o : Outcome) × (r ≡ some o) × (feed state n src ≡ resume o) × After o.kind o.src o.result src
