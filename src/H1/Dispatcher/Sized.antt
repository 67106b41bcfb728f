-- ===== src/H1/Dispatcher/Sized.antt =====
-- A body of a known length in `poll_read_decode_body` of actix-http-alt/src/h1/proto/dispatcher.rs.
use mathlib.Core.List.{flatten}
use actix_server_alt.Prelude.{
  ℕ, suc, ◌-◌, ◌≤◌, ◌<◌, ◌≡◌, refl, ap, sym, ◌∙◌, true, false, Bool-cases, Option, none, some, List,
  [], ◌∷◌, ◌++◌, map, append-nil, length, length-append, take, drop, take-append, drop-append,
  drop_past, take_past, take_nil, ltb, ◌==◌, ok, and_then, arith, inl, inr,
}
use actix_server_alt.H1.Kind.{Kind}
use actix_server_alt.H1.Decode.{Outcome, chunk, eof, decode_length, decode}
use actix_server_alt.H1.Dispatcher.{
  running, done, Drained, after_decode, add_items, drain, Read, got, go_on, read_loop,
}
use actix_server_alt.H1.Dispatcher.Incremental.{body_of}

pub length_over :
    (src : List ℕ)
    → decode_length 0 src ≡ record { kind = Kind.length 0; src = src; result = ok (some eof) }
unfolding decode_length
length_over src = refl

pub length_wait :
    (n : ℕ)
    → 0 < n
    → decode_length n [] ≡ record { kind = Kind.length n; src = []; result = ok none }
unfolding decode_length
length_wait n h = let not_over : (n == 0) ≡ false = ground arith in rw not_over

length_part :
    (n b : ℕ) (bytes : List ℕ)
    → ltb (length (b ∷ bytes)) n ≡ true
    → decode_length n (b ∷ bytes) ≡ record {
      kind = Kind.length (n - length (b ∷ bytes));
      src = [];
      result = ok (some (chunk (b ∷ bytes)));
    }
unfolding decode_length
length_part n b bytes h =
    let not_over : (n == 0) ≡ false = ground arith in
    let not_empty : (length (b ∷ bytes) == 0) ≡ false = ground arith in
    rw not_over (rw not_empty (rw h))

length_last :
    (n b : ℕ) (bytes : List ℕ)
    → 0 < n
    → ltb (length (b ∷ bytes)) n ≡ false
    → decode_length n (b ∷ bytes) ≡ record {
      kind = Kind.length 0;
      src = drop n (b ∷ bytes);
      result = ok (some (chunk (take n (b ∷ bytes))));
    }
unfolding decode_length
length_last n b bytes pos h =
    let not_over : (n == 0) ≡ false = ground arith in
    let not_empty : (length (b ∷ bytes) == 0) ≡ false = ground arith in
    rw not_over (rw not_empty (rw h))

-- A call of the decoder, and what the loop makes of its outcome.
pub drain_outcome :
    (fuel n : ℕ) (src : List ℕ) (o : Outcome)
    → decode_length n src ≡ o
    → drain (suc fuel) (Kind.length n) src ≡ after_decode (drain fuel) o.kind o.src o.result
unfolding drain decode
drain_outcome fuel n src o e =
    ap (λ (o : Outcome). after_decode (drain fuel) o.kind o.src o.result) e

-- All the bytes belong to the body, and more are to come.
pub drain_part :
    (fuel n b : ℕ) (bytes : List ℕ)
    → ltb (length (b ∷ bytes)) n ≡ true
    → drain (suc (suc fuel)) (Kind.length n) (b ∷ bytes)
      ≡ some (record {
        kind = Kind.length (n - length (b ∷ bytes));
        src = [];
        items = chunk (b ∷ bytes) ∷ [];
        status = running;
      })
unfolding after_decode add_items
drain_part fuel n b bytes h =
    drain_outcome (suc fuel) n (b ∷ bytes) _ (length_part n b bytes h)
    ∙ unfold after_decode in
      (ap (λ r. and_then r (add_items (chunk (b ∷ bytes) ∷ [])))
        (drain_outcome fuel (n - length (b ∷ bytes)) [] _
          (length_wait (n - length (b ∷ bytes)) (ground arith))))

-- The body ends within the bytes.
pub drain_last :
    (fuel n b : ℕ) (bytes : List ℕ)
    → 0 < n
    → ltb (length (b ∷ bytes)) n ≡ false
    → drain (suc (suc fuel)) (Kind.length n) (b ∷ bytes)
      ≡ some (record {
        kind = Kind.length 0;
        src = drop n (b ∷ bytes);
        items = chunk (take n (b ∷ bytes)) ∷ eof ∷ [];
        status = done;
      })
unfolding after_decode add_items
drain_last fuel n b bytes pos h =
    drain_outcome (suc fuel) n (b ∷ bytes) _ (length_last n b bytes pos h)
    ∙ unfold after_decode in
      (ap (λ r. and_then r (add_items (chunk (take n (b ∷ bytes)) ∷ [])))
        (drain_outcome fuel 0 (drop n (b ∷ bytes)) _ (length_over (drop n (b ∷ bytes)))))

-- What the reads leave: the first `n` bytes went to the handler, and the loop is at the end of the
-- body exactly if there were so many; the bytes behind them are in the buffer or were not read.
pub record IsTaken (n : ℕ) (all : List ℕ) (d : Drained) (unread : List ℕ) : Type 0 where
  pub body : body_of d.items ≡ take n all
  pub over : n ≤ length all → (d.status ≡ done) × (d.src ++ unread ≡ drop n all)
  pub waiting :
      length all < n → (d.status ≡ running) × (d.kind ≡ Kind.length (n - length all)) × (d.src ≡ [])

abbrev pub Takes : Option Drained → ℕ → List ℕ → Type 0
Takes r n all = (d : Drained) × (unread : List ℕ) × (r ≡ some d) × IsTaken n all d unread

part_read :
    (reads : List Read) (n b : ℕ) (bytes rest : List ℕ)
    → ltb (length (b ∷ bytes)) n ≡ true
    → Takes
        (read_loop reads (Kind.length (n - length (b ∷ bytes))) [])
        (n - length (b ∷ bytes))
        rest
    → Takes (read_loop (got (b ∷ bytes) ∷ reads) (Kind.length n) []) n ((b ∷ bytes) ++ rest)
unfolding read_loop go_on add_items
part_read reads n b bytes rest h (d, unread, q, t) =
    let size = length-append (b ∷ bytes) rest in
    let within : length (b ∷ bytes) ≤ n = ground arith in
    (
      record d { items = chunk (b ∷ bytes) ∷ d.items },
      unread,
      rw (drain_part (length bytes) n b bytes h) (rw q),
      record {
        body =
            ap (λ (t : List ℕ). (b ∷ bytes) ++ t) t.body
            ∙ sym (take_past n (b ∷ bytes) rest within);
        over = λ enough.
            let (status, src) = t.over (omega (arith, size)) in
            (status, src ∙ sym (drop_past n (b ∷ bytes) rest within));
        waiting = λ few.
            let (status, kind, src) = t.waiting (omega (arith, size)) in
            (status, kind ∙ ap Kind.length (omega (arith, size)), src);
      },
    )

last_read :
    (reads : List Read) (n b : ℕ) (bytes rest : List ℕ)
    → 0 < n
    → ltb (length (b ∷ bytes)) n ≡ false
    → Takes (read_loop (got (b ∷ bytes) ∷ reads) (Kind.length n) []) n ((b ∷ bytes) ++ rest)
unfolding read_loop go_on
last_read reads n b bytes rest pos h =
    let size = length-append (b ∷ bytes) rest in
    let within : n ≤ length (b ∷ bytes) = ground arith in
    (
      record {
        kind = Kind.length 0;
        src = drop n (b ∷ bytes);
        items = chunk (take n (b ∷ bytes)) ∷ eof ∷ [];
        status = done;
      },
      rest,
      rw (drain_last (length bytes) n b bytes pos h),
      record {
        body = append-nil (take n (b ∷ bytes)) ∙ sym (take-append n (b ∷ bytes) rest within);
        over = λ enough. (refl, sym (drop-append n (b ∷ bytes) rest within));
        waiting = λ few. absurd (omega (arith, size));
      },
    )

-- However the bytes of a body of `n` bytes are cut into reads, the handler gets exactly the first `n`
-- bytes, and the loop ends there, with the bytes behind them left for the next request; while there
-- are fewer, it has handed on all of them and waits for the others.
pub read_loop-Takes :
    (pieces : List (List ℕ)) (n : ℕ)
    → 0 < n
    → Takes (read_loop (map got pieces) (Kind.length n) []) n (flatten pieces)
unfolding read_loop flatten
read_loop-Takes [] n pos = (
  record { kind = Kind.length n; src = []; items = []; status = running },
  [],
  refl,
  record {
    body = sym (take_nil n);
    over = λ enough. absurd (omega arith);
    waiting = λ few. (refl, ap Kind.length (omega arith), refl);
  },
)
read_loop-Takes ([] ∷ pieces) n pos = read_loop-Takes pieces n pos
read_loop-Takes ((b ∷ bytes) ∷ pieces) n pos = elim (Bool-cases (ltb (length (b ∷ bytes)) n)) [
  | inl part ↦
      part_read (map got pieces) n b bytes (flatten pieces) part
        (read_loop-Takes pieces (n - length (b ∷ bytes)) (ground arith))
  | inr last ↦ last_read (map got pieces) n b bytes (flatten pieces) pos last
]
