-- ===== src/H1/Decode/Reference/Loop.antt =====
-- The loop of the chunked decoder of actix-http-alt/src/h1/proto/decode.rs against the reference.
use actix_server_alt.Prelude.{
  ℕ, zero, suc, ◌-◌, ◌<◌, ◌≡◌, ◌≢◌, refl, subst, ap, sym, ◌∙◌, true, false, Option, none, some,
  List, [], ◌∷◌, append-nil, arith, length, take, drop, take-append-drop, length-take, length-drop,
  ltb, Result, ok, err, ◌⊎◌, inl, inr, Bool-cases, ready,
}
use actix_server_alt.H1.Chunked.{
  ChunkedState, size_lws, extension, size_lf, body, body_cr, body_lf, end_cr, end_lf, end, IoError,
  Stepped, go, step, read_body,
}
use actix_server_alt.H1.Chunked.Steps.{IsNext, Single, goes, fails, step-Single}
use actix_server_alt.H1.Kind.{Kind, decode_chunked, encode_chunked, plain_chunked}
use actix_server_alt.H1.Decode.{
  Outcome, RequestBodyItem, chunk, eof, turn_round, after_step, decode_loop,
}
use actix_server_alt.H1.Decode.Reference.{
  Fed, next, read_turn, turn, prepend, settle, feed, IsReading, feed_chunk, feed_last,
  resume_result, resume, After, Explained,
}

pub settle_next :
    (state next' : ChunkedState) (n m : ℕ) (rest out : List ℕ) (again : ChunkedState → ℕ → Fed)
    → next' ≢ end
    → settle state n rest again (next next' m out) ≡ prepend out (again next' m)
unfolding settle
settle_next state end n m rest out again h = absurd (h refl)
settle_next state _ n m rest out again h = refl

after_step_next :
    (state next' : ChunkedState) (again : ChunkedState → ℕ → List ℕ → Option Outcome) (s : Stepped)
    → next' ≢ end
    → after_step state again s (ready (ok next')) ≡ turn_round next' s.size again s.buf s.rdr
unfolding after_step
after_step_next state end again s h = absurd (h refl)
after_step_next state _ again s h = refl

pub turn_other :
    (state : ChunkedState) (n b : ℕ)
    → state ≢ body
    → turn state n b ≡ read_turn (step state (b ∷ []) n).size (step state (b ∷ []) n).poll
unfolding turn
turn_other body n b h = absurd (h refl)
turn_other _ n b h = refl

loop_empty :
    (fuel : ℕ) (state : ChunkedState) (n : ℕ)
    → IsReading state n
    → Explained state n [] (decode_loop (suc fuel) state n [])
unfolding feed resume
loop_empty fuel state n h = (
  record { kind = decode_chunked state n; src = []; result = ok none },
  waits state h.1,
  refl,
  (refl, h),
)
  where
    waits :
        (state : ChunkedState)
        → state ≢ end
        → decode_loop (suc fuel) state n []
          ≡ some (record { kind = decode_chunked state n; src = []; result = ok none })
    waits end q = absurd (q refl)
    waits _ q = unfold decode_loop step in refl

cut_part :
    (fuel n b : ℕ) (src : List ℕ)
    → ltb (length (b ∷ src)) n ≡ true
    → decode_loop (suc fuel) body n (b ∷ src)
      ≡ some (record {
        kind = decode_chunked body (n - length (b ∷ src));
        src = [];
        result = ok (some (chunk (b ∷ src)));
      })
unfolding decode_loop step read_body after_step turn_round
cut_part fuel n b src h = ground arith

cut_last :
    (fuel n b : ℕ) (src : List ℕ)
    → ltb (length (b ∷ src)) n ≡ false
    → decode_loop (suc fuel) body n (b ∷ src)
      ≡ some (record {
        kind = decode_chunked body_cr 0;
        src = drop n (b ∷ src);
        result = ok (some (chunk (take n (b ∷ src))));
      })
unfolding decode_loop step read_body after_step turn_round
cut_last fuel n b src h = ground arith

loop_body :
    (fuel n b : ℕ) (src : List ℕ)
    → 0 < n
    → Explained body n (b ∷ src) (decode_loop (suc fuel) body n (b ∷ src))
unfolding resume resume_result
loop_body fuel n b src h = elim (Bool-cases (ltb (length (b ∷ src)) n)) [
  | inl part ↦ (
    record {
      kind = decode_chunked body (n - length (b ∷ src));
      src = [];
      result = ok (some (chunk (b ∷ src)));
    },
    cut_part fuel n b src part,
    ap (feed body n) (sym (append-nil (b ∷ src))) ∙ feed_chunk n (b ∷ src) [] (ground arith),
    ((ground arith, λ e. cc), omega arith),
  )
  | inr last ↦ (
    record {
      kind = decode_chunked body_cr 0;
      src = drop n (b ∷ src);
      result = ok (some (chunk (take n (b ∷ src))));
    },
    cut_last fuel n b src last,
    ap (feed body n) (sym (take-append-drop n (b ∷ src)))
        ∙ feed_last n (take n (b ∷ src)) (drop n (b ∷ src))
            (ground (arith, length-take n (b ∷ src))) h,
    ((tt, λ e. cc), ground (arith, length-drop n (b ∷ src))),
  )
]

After-longer :
    (kind : Kind) (rest : List ℕ) (r : Result IoError (Option RequestBodyItem)) (b : ℕ)
    (src : List ℕ)
    → After kind rest r src
    → After kind rest r (b ∷ src)
After-longer (decode_chunked state n) rest (ok (some (chunk piece))) b src h =
    (h.0, omega (arith, h.1))
After-longer (decode_chunked state n) rest (ok (some eof)) b src h = tt
After-longer (decode_chunked state n) rest (ok none) b src h = h
After-longer (decode_chunked state n) rest (err e) b src h = tt
After-longer (Kind.length n) rest r b src h = absurd h
After-longer (encode_chunked sent) rest r b src h = absurd h
After-longer Kind.eof rest r b src h = absurd h
After-longer plain_chunked rest r b src h = absurd h

pub end_cases : (state : ChunkedState) → (state ≡ end) ⊎ (state ≢ end)
end_cases end = inl refl
end_cases ChunkedState.size = inr (λ e. cc)
end_cases size_lws = inr (λ e. cc)
end_cases extension = inr (λ e. cc)
end_cases size_lf = inr (λ e. cc)
end_cases body = inr (λ e. cc)
end_cases body_cr = inr (λ e. cc)
end_cases body_lf = inr (λ e. cc)
end_cases end_cr = inr (λ e. cc)
end_cases end_lf = inr (λ e. cc)

-- A byte outside a chunk's body, where the step over it goes on to a state that is not the last.
round_on :
    (fuel : ℕ) (state next' : ChunkedState) (n m b : ℕ) (src : List ℕ)
    → ((next'' : ChunkedState) (m' : ℕ)
        → IsReading next'' m'
        → Explained next'' m' src (decode_loop fuel next'' m' src))
    → IsReading next' m
    → decode_loop (suc fuel) state n (b ∷ src) ≡ turn_round next' m (decode_loop fuel) none src
    → feed state n (b ∷ src) ≡ feed next' m src
    → Explained state n (b ∷ src) (decode_loop (suc fuel) state n (b ∷ src))
unfolding turn_round
round_on fuel state next' n m b [] ih good loop fed = (
  record { kind = decode_chunked next' m; src = []; result = ok none },
  loop,
  fed ∙ unfold feed resume resume_result in refl,
  (refl, good),
)
round_on fuel state next' n m b (c ∷ src) ih good loop fed =
    let (o, result, explained, after) = ih next' m good in
    (o, loop ∙ result, fed ∙ explained, After-longer o.kind o.src o.result b (c ∷ src) after)

loop-Single :
    (fuel : ℕ) (state : ChunkedState) (n b : ℕ) (src : List ℕ)
    → state ≢ body
    → ((next' : ChunkedState) (m : ℕ)
        → IsReading next' m
        → Explained next' m src (decode_loop fuel next' m src))
    → Single n src (step state (b ∷ src) n) (step state (b ∷ []) n)
    → Explained state n (b ∷ src) (decode_loop (suc fuel) state n (b ∷ src))
unfolding decode_loop feed read_turn settle resume
loop-Single fuel state n b src p ih (fails e q q') = (
  record { kind = decode_chunked state n; src = src; result = err e },
  ap (λ (s : Stepped). after_step state (decode_loop fuel) s s.poll) q ∙ unfold after_step in refl,
  ap (settle state n src (λ state' n'. feed state' n' src))
        (turn_other state n b p ∙ ap (λ (s : Stepped). read_turn s.size s.poll) q')
      ∙ unfold settle resume resume_result in refl,
  tt,
)
loop-Single fuel state n b src p ih (goes next' m good q q') =
    let looped : decode_loop (suc fuel) state n (b ∷ src)
        ≡ after_step state (decode_loop fuel) (go src m next') (ready (ok next')) =
      ap (λ (s : Stepped). after_step state (decode_loop fuel) s s.poll) q in
    let fed : feed state n (b ∷ src)
        ≡ settle state n src (λ state' n'. feed state' n' src) (next next' m []) =
      ap (settle state n src (λ state' n'. feed state' n' src))
        (turn_other state n b p ∙ ap (λ (s : Stepped). read_turn s.size s.poll) q') in
    elim (end_cases next') [
      | inl last ↦ (
        record { kind = decode_chunked end m; src = src; result = ok (some eof) },
        looped ∙ rw (last, after_step),
        fed ∙ rw (last, settle, resume, resume_result),
        tt,
      )
      | inr more ↦
          round_on fuel state next' n m b src ih (good, more)
            (looped ∙ after_step_next state next' (decode_loop fuel) (go src m next') more)
            (fed ∙ settle_next state next' n m src [] (λ state' n'. feed state' n' src) more)
    ]

pub body_cases : (state : ChunkedState) → (state ≡ body) ⊎ (state ≢ body)
body_cases body = inl refl
body_cases ChunkedState.size = inr (λ e. cc)
body_cases size_lws = inr (λ e. cc)
body_cases extension = inr (λ e. cc)
body_cases size_lf = inr (λ e. cc)
body_cases body_cr = inr (λ e. cc)
body_cases body_lf = inr (λ e. cc)
body_cases end_cr = inr (λ e. cc)
body_cases end_lf = inr (λ e. cc)
body_cases end = inr (λ e. cc)

-- With more fuel than there are bytes the loop has a result, and it is the reference's.
pub loop_Explained :
    (fuel : ℕ) (state : ChunkedState) (n : ℕ) (src : List ℕ)
    → length src < fuel
    → IsReading state n
    → Explained state n src (decode_loop fuel state n src)
loop_Explained zero state n src h good = absurd (omega arith)
loop_Explained (suc fuel) state n [] h good = loop_empty fuel state n good
loop_Explained (suc fuel) state n (b ∷ src) h good = elim (body_cases state) [
  | inl q ↦ rw q (loop_body fuel n b src (subst (λ t. IsNext t n) q good.0))
  | inr other ↦
      loop-Single fuel state n b src other
        (λ next' m good'. loop_Explained fuel next' m src (omega arith) good')
        (step-Single n b src state other good.1)
]
