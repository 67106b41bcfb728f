-- ===== src/Encoding/Negotiate/Pairs.antt =====
-- Two coders of http-encoding/src/encoder.rs and decoder.rs that wrap codecs which are a pair.
use mathlib.Core.List.{flatten}
use actix_server_alt.Prelude.{
  ℕ, ◌≡◌, refl, ap, ◌∙◌, Option, none, some, List, [], ◌∷◌, map, Result, ok, err,
}
use actix_server_alt.Encoding.Coder.{AsyncCode, CoderError}
use actix_server_alt.Encoding.Coder.Yields.{coded, then_coded}
use actix_server_alt.Encoding.Compress.{Codec, Coding, coder}
use actix_server_alt.Encoding.Compress.RoundTrip.{made, IsInverse, Coded, fresh, coded-made}
use actix_server_alt.Encoding.Negotiate.{Codecs, map_coder}

-- A coder that only wraps the state of another one codes alike.
module _ {S T Item Out IoError E : Type 0} (ops : AsyncCode S Item Out IoError)
    (ops' : AsyncCode T Item Out IoError) (into : S → T)
    (same : (s : S) (item : Item) → ops'.code (into s) item ≡ map_coder into (ops.code s item))
    (same_eof : (s : S) → ops'.code_eof (into s) ≡ ops.code_eof s) where
  then_coded-into :
      (body : List (Result E Item))
      → ((s : S) → coded ops' body (into s) ≡ coded ops body s)
      → (r : Result IoError (S × Option Out))
      → then_coded ops' (coded ops' body) (map_coder into r) ≡ then_coded ops (coded ops body) r
  then_coded-into body ih (err e) = refl
  then_coded-into body ih (ok (s, none)) = ih s
  then_coded-into body ih (ok (s, some out)) =
      ap (λ (t : List (Result (CoderError IoError E) Out)). ok out ∷ t) (ih s)

  pub coded-into :
      (body : List (Result E Item)) (s : S) → coded ops' body (into s) ≡ coded ops body s
  unfolding coded
  coded-into [] s = rw (same_eof s) refl
  coded-into (err e ∷ body) s = refl
  coded-into (ok item ∷ body) s =
      rw (same s item) (then_coded-into body (coded-into body) (ops.code s item))

-- What is documented of a codec of another crate: the encoder, which writes into memory, gives no error,
-- the decoder is its inverse, and a thread runs what it is given.
pub record IsPair {S T IoError : Type 0} (enc : Codec S IoError) (dec : Codec T IoError) (s : S)
    (t : T) (spawn : Coded S IoError → Coded S IoError) (spawn' : Coded T IoError → Coded T IoError)
    : Type 0 where
  pub encodes : (items : List (List ℕ)) → (bytes : List ℕ) × (made enc items s ≡ ok bytes)
  pub inverse : IsInverse enc dec s t
  pub runs : (r : Coded S IoError) → spawn r ≡ r
  pub runs' : (r : Coded T IoError) → spawn' r ≡ r

-- Items go through two coders and come back.
abbrev pub Carries :
    {V W IoError : Type 0} (E F : Type 0)
    → AsyncCode V (List ℕ) (List ℕ) IoError
    → AsyncCode W (List ℕ) (List ℕ) IoError
    → V
    → W
    → List (List ℕ)
    → Type 0
Carries E F ops ops' x y items =
    (pieces out : List (List ℕ)) × (coded {E = E} ops (map ok items) x ≡ map ok pieces)
    × (coded {E = F} ops' (map ok pieces) y ≡ map ok out)
    × (flatten out ≡ flatten items)

-- Two coders carry the items if they wrap codecs that are a pair.
module _ {S T V W IoError : Type 0} (enc : Codec S IoError) (dec : Codec T IoError) (s : S) (t : T)
    (spawn : Coded S IoError → Coded S IoError) (spawn' : Coded T IoError → Coded T IoError)
    (pair : IsPair enc dec s t spawn spawn') (ops : AsyncCode V (List ℕ) (List ℕ) IoError)
    (ops' : AsyncCode W (List ℕ) (List ℕ) IoError) (into : Coding S → V) (into' : Coding T → W)
    (n m : ℕ) where
  pub pair-Carries :
      {E F : Type 0}
      → ((c : Coding S) (item : List ℕ)
          → ops.code (into c) item ≡ map_coder into ((coder enc n spawn).code c item))
      → ((c : Coding S) → ops.code_eof (into c) ≡ (coder enc n spawn).code_eof c)
      → ((c : Coding T) (item : List ℕ)
          → ops'.code (into' c) item ≡ map_coder into' ((coder dec m spawn').code c item))
      → ((c : Coding T) → ops'.code_eof (into' c) ≡ (coder dec m spawn').code_eof c)
      → (items : List (List ℕ)) → Carries E F ops ops' (into (fresh s)) (into' (fresh t)) items
  pair-Carries {E = E} {F = F} same same_eof same' same_eof' items =
      let (bytes, h) = pair.encodes items in
      let (pieces, q, e) = coded-made enc n spawn pair.runs {E = E} items s bytes h in
      let back = pair.inverse items pieces bytes h e in
      let (out, q', e') =
        coded-made dec m spawn' pair.runs' {E = F} pieces t (flatten items) back in
      (
        pieces,
        out,
        coded-into (coder enc n spawn) ops into same same_eof (map ok items) (fresh s) ∙ q,
        coded-into (coder dec m spawn') ops' into' same' same_eof' (map ok pieces) (fresh t) ∙ q',
        e',
      )

-- The codecs that encode, and those that decode what they encode
pub record ArePairs {Br Gz De Br' Gz' De' IoError : Type 0} (enc : Codecs Br Gz De IoError)
    (dec : Codecs Br' Gz' De' IoError) : Type 0 where
  pub br : IsPair enc.br dec.br enc.br_state dec.br_state enc.spawn_br dec.spawn_br
  pub gz : IsPair enc.gz dec.gz enc.gz_state dec.gz_state enc.spawn_gz dec.spawn_gz
  pub de : IsPair enc.de dec.de enc.de_state dec.de_state enc.spawn_de dec.spawn_de
