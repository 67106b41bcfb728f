-- ===== src/Encoding/Compress/RoundTrip.antt =====
-- What a stream through the encoder and then the decoder of http-encoding/src/coder.rs yields.
use mathlib.Core.List.{flatten}
use actix_server_alt.Prelude.{
  ℕ, ◌≡◌, refl, ap, ◌∙◌, Option, List, [], ◌∷◌, ◌++◌, append-nil, map, length, ltb, Bool-cases, inl,
  inr, Result, ok, ◌>>=◌, bind_ok,
}
use actix_server_alt.Encoding.Coder.Yields.{coded, put_item}
use actix_server_alt.Encoding.Compress.{
  take, write, Codec, Coding, some_bytes, written, code_in_place, code, code_eof, coder,
}

-- The bytes that a codec makes of items, each flushed, and of the end, in one piece
unfoldable pub made :
    {S IoError : Type 0} → Codec S IoError → List (List ℕ) → S → Result IoError (List ℕ)
made codec [] s = codec.finish s
made codec (item ∷ items) s = do
  (s', out) ← codec.feed s item
  (s'', more) ← codec.flush s'
  rest ← made codec items s''
  ok (out ++ more ++ rest)

-- The items are coded to pieces, which are the bytes in order.
abbrev pub Pieces : {E : Type 0} → List (Result E (List ℕ)) → List ℕ → Type 0
Pieces outs bytes = (pieces : List (List ℕ)) × (outs ≡ map ok pieces) × (flatten pieces ≡ bytes)

put_some :
    {E : Type 0} (b : List ℕ) (outs : List (Result E (List ℕ))) (bytes : List ℕ)
    → Pieces outs bytes
    → Pieces (put_item (some_bytes b) outs) (b ++ bytes)
unfolding flatten
put_some [] outs bytes p = p
put_some (x ∷ b) outs bytes (pieces, q, e) = (
  (x ∷ b) ∷ pieces,
  ap (λ (t : List (Result _ (List ℕ))). ok (x ∷ b) ∷ t) q,
  ap (λ (t : List ℕ). (x ∷ b) ++ t) e,
)

put_some_as :
    {E : Type 0} (b : List ℕ) (outs : List (Result E (List ℕ))) (bytes all : List ℕ)
    → Pieces outs bytes
    → b ++ bytes ≡ all
    → Pieces (put_item (some_bytes b) outs) all
put_some_as b outs bytes all p e =
    let (pieces, q, e') = put_some b outs bytes p in (pieces, q, e' ∙ e)

abbrev pub Coded : (S IoError : Type 0) → Type 0
Coded S IoError = Result IoError (Coding S × Option (List ℕ))

abbrev pub fresh : {S : Type 0} → S → Coding S
fresh s = record { state = s; writer = record { buf = [] } }

module _ {S IoError : Type 0} (codec : Codec S IoError) (size : ℕ)
    (spawn_blocking : Coded S IoError → Coded S IoError)
    (runs : (r : Coded S IoError) → spawn_blocking r ≡ r) where
  code_lem :
      (this : Coding S) (item : List ℕ)
      → code codec size spawn_blocking this item ≡ code_in_place codec this item
  unfolding code
  code_lem this item = elim (Bool-cases (ltb (length item) size)) [
    | inl short ↦ rw short refl
    | inr long ↦ rw long (runs (code_in_place codec this item))
  ]

  pub coded-made :
      {E : Type 0} (items : List (List ℕ)) (s : S) (bytes : List ℕ)
      → made codec items s ≡ ok bytes
      → Pieces (coded {E = E} (coder codec size spawn_blocking) (map ok items) (fresh s)) bytes
  unfolding made coded coder code_eof code_in_place take write written flatten
  coded-made [] s bytes h = rw h (put_some_as bytes [] [] bytes ([], refl, refl) (append-nil bytes))
  coded-made (item ∷ items) s bytes h =
      let (fed, q₁, h₁) = bind_ok (codec.feed s item) _ bytes h in
      let (flushed, q₂, h₂) = bind_ok (codec.flush fed.0) _ bytes h₁ in
      let (rest, q₃, h₃) = bind_ok (made codec items flushed.0) _ bytes h₂ in
      let joined : fed.1 ++ flushed.1 ++ rest ≡ bytes = let z = h₃ in cc in
      rw (code_lem (fresh s) item, q₁, q₂)
        (put_some_as (fed.1 ++ flushed.1) _ rest bytes (coded-made items flushed.0 rest q₃) joined)

-- What is documented of a codec and its inverse: however the bytes that the one makes are cut, the other
-- makes of them the bytes that the first was given.
abbrev pub IsInverse : {S T IoError : Type 0} → Codec S IoError → Codec T IoError → S → T → Type 0
IsInverse enc dec s t =
    (items pieces : List (List ℕ)) (bytes : List ℕ)
    → made enc items s ≡ ok bytes
    → flatten pieces ≡ bytes
    → made dec pieces t ≡ ok (flatten items)
