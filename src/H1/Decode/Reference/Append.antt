-- ===== src/H1/Decode/Reference/Append.antt =====
-- The reference decoder on a buffer that is cut in two.
use actix_server_alt.Prelude.{
  ℕ, ◌≡◌, refl, subst, ap, sym, ◌∙◌, List, [], ◌∷◌, ◌++◌, append_assoc, arith, ◌==◌, inl, inr,
  Bool-cases,
}
use actix_server_alt.H1.Chunked.{ChunkedState, Stepped, step}
use actix_server_alt.H1.Chunked.Steps.{IsNext, Single, goes, fails, step-Single}
use actix_server_alt.H1.Dispatcher.{running, done, closed, failed}
use actix_server_alt.H1.Decode.Reference.{
  Fed, Turn, next, stop, read_turn, turn, prepend, settle, feed, IsReading,
}
use actix_server_alt.H1.Decode.Reference.Loop.{settle_next, turn_other, end_cases, body_cases}

-- What `f` becomes when the bytes `more` come behind those that it was fed.
abbrev pub more_fed : Fed → List ℕ → Fed
more_fed f more = elim f.status [
  | running ↦ prepend f.bytes (feed f.state f.size more)
  | _ ↦ record f { rest = f.rest ++ more }
]

more_fed-prepend :
    (f : Fed) (out more : List ℕ) → more_fed (prepend out f) more ≡ prepend out (more_fed f more)
more_fed-prepend f out more =
    elim f.status
      as (λ s.
        more_fed (record f { bytes = out ++ f.bytes; status = s }) more
        ≡ prepend out (more_fed (record f { status = s }) more)) [
          | running ↦
              ap (λ (t : List ℕ). record (feed f.state f.size more) { bytes = t })
                (append_assoc out f.bytes (feed f.state f.size more).bytes)
          | done ↦ refl
          | closed ↦ refl
          | failed e ↦ refl
        ]

settle-append :
    (state : ChunkedState) (n : ℕ) (xs ys : List ℕ) (t : Turn)
    → ((state' : ChunkedState) (n' : ℕ)
        → feed state' n' (xs ++ ys) ≡ more_fed (feed state' n' xs) ys)
    → settle state n (xs ++ ys) (λ state' n'. feed state' n' (xs ++ ys)) t
      ≡ more_fed (settle state n xs (λ state' n'. feed state' n' xs) t) ys
unfolding settle
settle-append state n xs ys (stop e) ih = refl
settle-append state n xs ys (next state' n' out) ih = elim (end_cases state') [
  | inl last ↦ rw (last, settle)
  | inr other ↦
      settle_next state state' n n' (xs ++ ys) out (λ s m. feed s m (xs ++ ys)) other
      ∙ ap (prepend out) (ih state' n')
      ∙ sym (more_fed-prepend (feed state' n' xs) out ys)
      ∙ ap (λ (f : Fed). more_fed f ys)
          (sym (settle_next state state' n n' xs out (λ s m. feed s m xs) other))
]

pub feed-append :
    (state : ChunkedState) (n : ℕ) (xs ys : List ℕ)
    → feed state n (xs ++ ys) ≡ more_fed (feed state n xs) ys
unfolding feed
feed-append state n [] ys = refl
feed-append state n (b ∷ xs) ys =
    settle-append state n xs ys (turn state n b) (λ state' n'. feed-append state' n' xs ys)

-- While the decoder is not at an end, it has taken all bytes and can go on.
abbrev pub IsLive : Fed → Type 0
IsLive f = f.status ≡ running → (f.rest ≡ []) × IsReading f.state f.size

abbrev IsGood : Turn → Type 0
IsGood (next state n out) = IsNext state n
IsGood (stop e) = Unit {0}

Single-IsGood : (n : ℕ) (s t : Stepped) → Single n [] s t → IsGood (read_turn t.size t.poll)
unfolding read_turn
Single-IsGood n s t (goes state m good q q') = rw q' good
Single-IsGood n s t (fails e q q') = rw q' tt

turn-IsGood : (state : ChunkedState) (n b : ℕ) → IsReading state n → IsGood (turn state n b)
unfolding turn
turn-IsGood state n b h = elim (body_cases state) [
  | inl q ↦ rw q (elim (Bool-cases (n == 1)) [
    | inl one ↦ rw one tt
    | inr more ↦ rw more (let pos = subst (λ t. IsNext t n) q h.0 in ground arith)
  ])
  | inr other ↦ rw (turn_other state n b other) (
      Single-IsGood n (step state (b ∷ []) n) (step state (b ∷ []) n)
        (step-Single n b [] state other h.1))
]

settle-IsLive :
    (state : ChunkedState) (n : ℕ) (xs : List ℕ) (t : Turn)
    → IsGood t
    → ((s' : ChunkedState) (m : ℕ) → IsReading s' m → IsLive (feed s' m xs))
    → IsLive (settle state n xs (λ s' m. feed s' m xs) t)
unfolding settle
settle-IsLive state n xs (stop e) good ih = λ (q : failed e ≡ running). absurd (let r = q in cc)
settle-IsLive state n xs (next s' m out) good ih = elim (end_cases s') [
  | inl last ↦ rw last (λ (q : done ≡ running). absurd (let r = q in cc))
  | inr other ↦
      subst IsLive (sym (settle_next state s' n m xs out (λ s' m. feed s' m xs) other))
        (ih s' m (good, other))
]

pub feed-IsLive :
    (state : ChunkedState) (n : ℕ) (xs : List ℕ) → IsReading state n → IsLive (feed state n xs)
unfolding feed
feed-IsLive state n [] h = λ e. (refl, h)
feed-IsLive state n (b ∷ xs) h =
    settle-IsLive state n xs (turn state n b) (turn-IsGood state n b h)
      (λ s' m h'. feed-IsLive s' m xs h')
