-- ===== src/Encoding/Negotiate/RoundTrip.antt =====
-- A response that http-encoding/src/encoder.rs encodes is decoded by what its headers say.
use mathlib.Core.List.{flatten}
use actix_server_alt.Prelude.{
  ℕ, suc, ◌+◌, ◌<◌, arith, ◌≡◌, refl, ap, ◌∙◌, true, Bool-cases, some, List, [], ◌∷◌, map, length,
  inl, inr, Result, ok, ◌>>=◌, length-map,
}
use actix_server_alt.Encoding.Coding.{ContentEncoding, encoding_of}
use actix_server_alt.Encoding.Coder.{Coder, CoderError, new, identity_coder}
use actix_server_alt.Encoding.Coder.Yields.{coded}
use actix_server_alt.Encoding.Coder.Complete.{collect, collect-coded}
use actix_server_alt.Encoding.Compress.{Codec, Coding, coder}
use actix_server_alt.Encoding.Compress
use actix_server_alt.Encoding.Negotiate
use actix_server_alt.Encoding.Negotiate.{
  HeaderMap, get, insert, remove, update_header, content_encoding, Parts, Feature, Features,
  ContentCoder, identity, br, gz, de, Codecs, map_coder, br_coder, gz_coder, de_coder,
  content_coder, new_br, new_gz, new_de, encoder_for, can_encode, try_encoder_from_response,
  decoder_for, decoder_of_value, from_headers, try_decoder_from_parts,
}
use actix_server_alt.Encoding.Negotiate.Pairs.{Carries, pair-Carries, ArePairs}

-- The feature that an encoding needs is on.
abbrev pub Enabled : Features → ContentEncoding → Type 0
Enabled on ContentEncoding.br = on.br ≡ true
Enabled on ContentEncoding.gzip = on.gz ≡ true
Enabled on ContentEncoding.deflate = on.de ≡ true
Enabled on _ = Unit

module _ {Br Gz De IoError : Type 0} (E : Type 0) (codecs : Codecs Br Gz De IoError)
    (size : ℕ) where
  identity-coded :
      (items : List (List ℕ))
      → coded {E = E} (content_coder codecs size) (map ok items) identity ≡ map ok items
  unfolding coded content_coder Negotiate.code Negotiate.code_eof identity_coder
  identity-coded [] = refl
  identity-coded (item ∷ items) =
      ap (λ (t : List (Result (CoderError IoError E) (List ℕ))). ok item ∷ t) (identity-coded items)

enough :
    (G : Type 0) (items : List (List ℕ))
    → suc (length (map (λ (t : List ℕ). let r : Result G (List ℕ) = ok t in r) items))
      < 2 + length items
enough G items =
    omega (arith, length-map (λ (t : List ℕ). let r : Result G (List ℕ) = ok t in r) items)

module _ {Br Gz De Br' Gz' De' IoError : Type 0} (E F : Type 0) (enc : Codecs Br Gz De IoError)
    (dec : Codecs Br' Gz' De' IoError) where
  -- The response comes back through the two sides.
  abbrev pub ComesBack :
      Features
      → List (List ℕ)
      → Result Feature (Parts × Coder (ContentCoder Br Gz De) (List ℕ) (List ℕ) IoError E)
      → Type 0
  ComesBack on items result =
      (parts : Parts) × (encoder : Coder (ContentCoder Br Gz De) (List ℕ) (List ℕ) IoError E)
      × (pieces : List (List ℕ)) × (decoder : Coder (ContentCoder Br' Gz' De') (List ℕ) (List ℕ)
          IoError F)
      × (out : List (List ℕ)) × (result ≡ ok (parts, encoder))
      × (collect (content_coder enc 1024) (2 + length items) encoder ≡ some (map ok pieces))
      × (try_decoder_from_parts dec on parts.headers (map ok pieces) ≡ ok decoder)
      × (collect (content_coder dec 2049) (2 + length pieces) decoder ≡ some (map ok out))
      × (flatten out ≡ flatten items)

module _ {Br Gz De Br' Gz' De' IoError : Type 0} (E F : Type 0) (enc : Codecs Br Gz De IoError)
    (dec : Codecs Br' Gz' De' IoError) (pairs : ArePairs enc dec) where
  Both : ContentCoder Br Gz De → ContentCoder Br' Gz' De' → List (List ℕ) → Type 0
  Both = Carries E F (content_coder enc 1024) (content_coder dec 2049)

  br-Carries : (items : List (List ℕ)) → Both (new_br enc) (new_br dec) items
  unfolding Both new_br content_coder Compress.new Negotiate.code Negotiate.code_eof
  br-Carries =
      pair-Carries enc.br dec.br enc.br_state dec.br_state enc.spawn_br dec.spawn_br pairs.br
        (content_coder enc 1024) (content_coder dec 2049) br br 1024 2049 (λ c item. refl)
        (λ c. refl) (λ c item. refl) (λ c. refl)

  gz-Carries : (items : List (List ℕ)) → Both (new_gz enc) (new_gz dec) items
  unfolding Both new_gz content_coder Compress.new Negotiate.code Negotiate.code_eof
  gz-Carries =
      pair-Carries enc.gz dec.gz enc.gz_state dec.gz_state enc.spawn_gz dec.spawn_gz pairs.gz
        (content_coder enc 1024) (content_coder dec 2049) gz gz 1024 2049 (λ c item. refl)
        (λ c. refl) (λ c item. refl) (λ c. refl)

  de-Carries : (items : List (List ℕ)) → Both (new_de enc) (new_de dec) items
  unfolding Both new_de content_coder Compress.new Negotiate.code Negotiate.code_eof
  de-Carries =
      pair-Carries enc.de dec.de enc.de_state dec.de_state enc.spawn_de dec.spawn_de pairs.de
        (content_coder enc 1024) (content_coder dec 2049) de de 1024 2049 (λ c item. refl)
        (λ c. refl) (λ c item. refl) (λ c. refl)

  identity-Carries : (items : List (List ℕ)) → Both identity identity items
  unfolding Both
  identity-Carries items =
      (items, items, identity-coded E enc 1024 items, identity-coded F dec 2049 items, refl)

  -- Where no header says how the response is encoded, the decoder that is chosen by the headers that
  -- the encoder leaves carries what the encoder makes.
  abbrev Chosen : Features → Result Feature (Parts × ContentCoder Br Gz De) → Type 0
  Chosen on r =
      (parts : Parts) × (x : ContentCoder Br Gz De) × (y : ContentCoder Br' Gz' De') × (r
        ≡ ok (parts, x))
      × (from_headers dec on parts.headers ≡ ok y)
      × ((items : List (List ℕ)) → Both x y items)

  encoder_for-Chosen :
      (on : Features) (encoding : ContentEncoding) (parts : Parts)
      → Enabled on encoding
      → Chosen on (encoder_for enc on encoding parts)
  unfolding encoder_for from_headers decoder_of_value decoder_for update_header insert remove get
      encoding_of
  encoder_for-Chosen on ContentEncoding.br parts h = rw h (_, _, new_br dec, refl, refl, br-Carries)
  encoder_for-Chosen on ContentEncoding.gzip parts h =
      rw h (_, _, new_gz dec, refl, refl, gz-Carries)
  encoder_for-Chosen on ContentEncoding.deflate parts h =
      rw h (_, _, new_de dec, refl, refl, de-Carries)
  encoder_for-Chosen on ContentEncoding.identity parts h =
      (_, _, identity, refl, refl, identity-Carries)
  encoder_for-Chosen on ContentEncoding.auto parts h =
      (_, _, identity, refl, refl, identity-Carries)

  kept-Chosen :
      (on : Features) (parts : Parts)
      → parts.headers content_encoding ≡ []
      → Chosen on (ok (parts, identity))
  unfolding from_headers decoder_of_value get
  kept-Chosen on parts h = (
    parts,
    identity,
    identity,
    refl,
    rw (h, from_headers, decoder_of_value, get) refl,
    identity-Carries,
  )

  with_coders :
      (on : Features) (items : List (List ℕ)) (r : Result Feature (Parts × ContentCoder Br Gz De))
      → Chosen on r
      → ComesBack E F enc dec on items (r >>= (λ p. ok (p.0, new (map ok items) p.1)))
  unfolding try_decoder_from_parts Both
  with_coders on items r (parts, x, y, q, q', carry) =
      let (pieces, out, h, h', e) = carry items in
      rw q (
        parts,
        new (map ok items) x,
        pieces,
        new (map ok pieces) y,
        out,
        refl,
        collect-coded (content_coder enc 1024) (map ok items) x (2 + length items) (enough E items)
            ∙ ap some h,
        rw (q', try_decoder_from_parts) refl,
        collect-coded (content_coder dec 2049) (map ok pieces) y (2 + length pieces)
              (enough F pieces)
            ∙ ap some h',
        e,
      )

  -- A response that does not say how it is encoded, and that an encoder with the features for it takes,
  -- comes back: a decoder with the same features is chosen by the headers of the response that the
  -- encoder gives, and of what the encoder yields it yields the bytes of the body in order. The codecs of
  -- the decoder are the inverses of those of the encoder, which give no error, and each coder is polled
  -- until it is at its end.
  pub try_decoder-try_encoder :
      (on : Features) (parts : Parts) (items : List (List ℕ)) (encoding : ContentEncoding)
      → parts.headers content_encoding ≡ []
      → Enabled on encoding
      → ComesBack E F enc dec on items
          (try_encoder_from_response enc on parts (map ok items) encoding)
  unfolding try_encoder_from_response
  try_decoder-try_encoder on parts items encoding none_said enabled =
      elim (Bool-cases (can_encode enc parts encoding)) [
        | inl can ↦ rw can (with_coders on items _ (encoder_for-Chosen on encoding parts enabled))
        | inr not_so ↦ rw not_so (with_coders on items _ (kept-Chosen on parts none_said))
      ]
