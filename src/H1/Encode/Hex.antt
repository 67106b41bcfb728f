-- ===== src/H1/Encode/Hex.antt =====
-- The size of a chunk as actix-http-alt/src/h1/proto/encode.rs writes it and
-- actix-http-alt/src/h1/proto/codec.rs reads it.
use actix_server_alt.Prelude.{
  ℕ, zero, suc, ◌+◌, ◌-◌, ◌*◌, ◌/◌, ◌%◌, ◌^◌, ◌<◌, ◌≡◌, ap, ◌∙◌, List, [], ◌∷◌, ◌++◌, append_assoc,
  arith, ltb, Bool-cases, inl, inr,
}
use actix_server_alt.H1.Chunked.{ChunkedState, Stepped, go, step, read_size, push_digit}
use actix_server_alt.H1.Decode.Reference.{feed, settle, turn, read_turn}
use actix_server_alt.H1.Encode.{upper_digit, hex_digits, upper_hex}

push_digit_lem : (n d : ℕ) → d < 16 → n * 16 + d < 2 ^ 64 → push_digit n d ≡ n * 16 + d
unfolding push_digit
push_digit_lem n d h f = omega arith

digit_step :
    (n d : ℕ)
    → d < 16
    → n * 16 + d < 2 ^ 64
    → read_size (upper_digit d ∷ []) n ≡ go [] (n * 16 + d) ChunkedState.size
unfolding read_size upper_digit
digit_step n d h f = elim (Bool-cases (ltb d 10)) [
  | inl low ↦
      let e : d + 48 - 48 ≡ d = omega arith in rw low (ground (arith, e, push_digit_lem n d h f))
  | inr high ↦
      let e : d - 10 + 65 + 10 - 65 ≡ d = ground arith in
      rw high (ground (arith, e, push_digit_lem n d h f))
]

digit_read :
    (n d : ℕ) (rest : List ℕ)
    → d < 16
    → n * 16 + d < 2 ^ 64
    → feed ChunkedState.size n (upper_digit d ∷ rest) ≡ feed ChunkedState.size (n * 16 + d) rest
unfolding feed turn step read_turn settle
digit_read n d rest h f =
    ap
      (λ (s : Stepped).
        settle ChunkedState.size n rest (λ state' n'. feed state' n' rest)
          (read_turn s.size s.poll))
      (digit_step n d h f)

-- A number that `fuel` digits are enough for.
abbrev pub IsShort : ℕ → ℕ → Type 0
IsShort zero n = n < 1
IsShort (suc fuel) n = IsShort fuel (n / 16)

hex_digits-feed :
    (fuel n : ℕ) (rest : List ℕ)
    → IsShort fuel n
    → n < 2 ^ 64
    → feed ChunkedState.size 0 (hex_digits fuel n ++ rest) ≡ feed ChunkedState.size n rest
unfolding hex_digits
hex_digits-feed zero n rest s f =
    ap (λ t. feed ChunkedState.size t rest) (let e : 0 ≡ n = omega arith in e)
hex_digits-feed (suc fuel) n rest s f = elim (Bool-cases (ltb n 16)) [
  | inl one ↦ rw one (
      digit_read 0 n rest (ground arith) (omega arith)
      ∙ ap (λ t. feed ChunkedState.size t rest) (let e : 0 * 16 + n ≡ n = omega arith in e))
  | inr more ↦ rw more (
      ap (feed ChunkedState.size 0)
        (append_assoc (hex_digits fuel (n / 16)) (upper_digit (n % 16) ∷ []) rest)
      ∙ hex_digits-feed fuel (n / 16) (upper_digit (n % 16) ∷ rest) s (omega arith)
      ∙ digit_read (n / 16) (n % 16) rest (omega arith) (omega arith)
      ∙ ap (λ t. feed ChunkedState.size t rest)
          (let e : n / 16 * 16 + n % 16 ≡ n = omega arith in e))
]

-- Sixteen digits are enough for a `usize`, and the decoder reads them as the number.
pub upper_hex-feed :
    (n : ℕ) (rest : List ℕ)
    → n < 2 ^ 64
    → feed ChunkedState.size 0 (upper_hex n ++ rest) ≡ feed ChunkedState.size n rest
unfolding upper_hex
upper_hex-feed n rest h = hex_digits-feed 16 n rest (omega arith) h
