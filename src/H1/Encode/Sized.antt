-- ===== src/H1/Encode/Sized.antt =====
-- What actix-http-alt/src/h1/proto/encode.rs writes for a body of a known length.
use mathlib.Core.List.{flatten}
use actix_server_alt.Prelude.{
  ℕ, zero, suc, ◌+◌, ◌-◌, ◌≡◌, refl, ap, sym, ◌∙◌, Bool, true, List, [], ◌∷◌, ◌++◌, append-nil,
  append_assoc, length, length-append, take, min, ltb, if◌then◌else◌, ok, err, arith,
}
use actix_server_alt.H1.Kind.{Kind}
use actix_server_alt.H1.Buf.{WriteBuf}
use actix_server_alt.H1.Encode.{Encoded, unexpected_eof, encode, encode_eof, encode_all}
use actix_server_alt.H1.Encode.RoundTrip.{bytes_in, put_bytes_lem}

take_past : (n : ℕ) (xs ys : List ℕ) → take n (xs ++ ys) ≡ take n xs ++ take (n - length xs) ys
take_past zero xs ys = ap (λ t. take t ys) (let e : 0 ≡ 0 - length xs = omega arith in e)
take_past (suc n) [] ys = ap (λ t. take t ys) (let e : suc n ≡ suc n - 0 = omega arith in e)
take_past (suc n) (x ∷ xs) ys = ap (◌∷◌ x) (
    take_past n xs ys
    ∙ ap (λ t. take n xs ++ take t ys)
        (let e : n - length xs ≡ suc n - suc (length xs) = omega arith in e))

take-min : (n : ℕ) (xs : List ℕ) → take (min n (length xs)) xs ≡ take n xs
take-min n xs = take_to n (min n (length xs)) xs (omega arith)
  where
    take_to : (n k : ℕ) (xs : List ℕ) → k ≡ min n (length xs) → take k xs ≡ take n xs
    take_to zero zero xs e = refl
    take_to zero (suc k) xs e = absurd (omega arith)
    take_to (suc n) zero [] e = refl
    take_to (suc n) zero (x ∷ xs) e = absurd (omega arith)
    take_to (suc n) (suc k) [] e = absurd (omega arith)
    take_to (suc n) (suc k) (x ∷ xs) e = ap (◌∷◌ x) (take_to n k xs (omega arith))

-- One message: what is left to write, and what was written.
encode-take :
    (n : ℕ) (msg : List ℕ) (w : WriteBuf)
    → ((encode (Kind.length n) msg w).kind ≡ Kind.length (n - length msg))
      × (bytes_in (encode (Kind.length n) msg w).buf ≡ bytes_in w ++ take n msg)
unfolding encode
encode-take zero msg w = (ap Kind.length (omega arith), sym (append-nil (bytes_in w)))
encode-take (suc n) [] w =
    let some_left : ltb 0 (suc n) ≡ true = ground arith in
    rw some_left (ap Kind.length (omega arith), sym (append-nil (bytes_in w)))
encode-take (suc n) (b ∷ bytes) w =
    let some_left : ltb 0 (suc n) ≡ true = ground arith in
    rw some_left (
      ap Kind.length (omega arith),
      put_bytes_lem w (take (min (suc n) (length (b ∷ bytes))) (b ∷ bytes))
          ∙ ap (λ (t : List ℕ). bytes_in w ++ t) (take-min (suc n) (b ∷ bytes)),
    )

ltb-sub : (f l t n : ℕ) → t ≡ l + f → ltb f (n - l) ≡ ltb t n
ltb-sub f l t n e = ground arith

-- The encoder of a body of `n` bytes writes the first `n` bytes of the messages, wherever the
-- messages end, and says that the body ended too early exactly if there were not so many.
pub encode_all-take :
    (msgs : List (List ℕ)) (n : ℕ) (w : WriteBuf)
    → let e = encode_all (Kind.length n) msgs w in
      (bytes_in e.buf ≡ bytes_in w ++ take n (flatten msgs))
      × (e.result ≡ (if ltb (length (flatten msgs)) n then err unexpected_eof else ok tt))
unfolding encode_all encode_eof flatten
encode_all-take [] zero w = (sym (append-nil (bytes_in w)), refl)
encode_all-take [] (suc n) w = (sym (append-nil (bytes_in w)), ground arith)
encode_all-take (msg ∷ msgs) n w =
    let (kind, bytes) = encode-take n msg w in
    let (all, result) = encode_all-take msgs (n - length msg) (encode (Kind.length n) msg w).buf in
    let size = length-append msg (flatten msgs) in
    let opened : encode_all (Kind.length n) (msg ∷ msgs) w
        ≡ encode_all (Kind.length (n - length msg)) msgs (encode (Kind.length n) msg w).buf =
      ap (λ (k : Kind). encode_all k msgs (encode (Kind.length n) msg w).buf) kind in
    (
      ap (λ (e : Encoded (Unit {0})). bytes_in e.buf) opened
          ∙ all
          ∙ ap (λ (t : List ℕ). t ++ take (n - length msg) (flatten msgs)) bytes
          ∙ append_assoc (bytes_in w) (take n msg) (take (n - length msg) (flatten msgs))
          ∙ ap (λ (t : List ℕ). bytes_in w ++ t) (sym (take_past n msg (flatten msgs))),
      ap (λ (e : Encoded (Unit {0})). e.result) opened
          ∙ result
          ∙ ap (λ (t : Bool). (if t then err unexpected_eof else ok tt))
              (ltb-sub (length (flatten msgs)) (length msg) (length (msg ++ flatten msgs)) n
                (omega (arith, size))),
    )
