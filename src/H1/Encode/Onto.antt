-- ===== src/H1/Encode/Onto.antt =====
-- What actix-http-alt/src/h1/proto/encode.rs writes does not depend on what the buffer holds.
use actix_server_alt.Prelude.{
  ℕ, ◌≡◌, refl, sym, ap, ap₂, ◌∙◌, true, false, Bool-cases, List, [], ◌∷◌, ◌++◌, append-nil,
  append_assoc, ltb, inl, inr, length, min, take,
}
use actix_server_alt.H1.Kind.{Kind, encode_chunked, decode_chunked, plain_chunked}
use actix_server_alt.H1.Buf.{WriteBuf, flat}
use actix_server_alt.H1.Encode.{
  Encoded, last_chunk, put_bytes, put_static, put_chunk, encode, encode_eof, encode_all,
}
use actix_server_alt.H1.Encode.RoundTrip.{bytes_in, put_bytes_lem, put_static_lem, put_chunk_lem}

-- What an encoder writes of a message does not depend on what the buffer holds.
module _ (msg : List ℕ) where
  abbrev Onto : WriteBuf → WriteBuf → WriteBuf → Type 0
  Onto w r r₀ = bytes_in r ≡ bytes_in w ++ bytes_in r₀

  put_bytes-Onto : (w : WriteBuf) → Onto w (put_bytes w msg) (put_bytes (flat []) msg)
  unfolding bytes_in
  put_bytes-Onto w =
      put_bytes_lem w msg ∙ ap (λ (t : List ℕ). bytes_in w ++ t) (sym (put_bytes_lem (flat []) msg))

  put_chunk-Onto : (w : WriteBuf) → Onto w (put_chunk w msg) (put_chunk (flat []) msg)
  unfolding bytes_in
  put_chunk-Onto w =
      put_chunk_lem w msg ∙ ap (λ (t : List ℕ). bytes_in w ++ t) (sym (put_chunk_lem (flat []) msg))

  put_static-Onto : (w : WriteBuf) → Onto w (put_static w msg) (put_static (flat []) msg)
  unfolding bytes_in
  put_static-Onto w =
      put_static_lem w msg
      ∙ ap (λ (t : List ℕ). bytes_in w ++ t) (sym (put_static_lem (flat []) msg))

  nothing-Onto : (w : WriteBuf) → Onto w w (flat [])
  unfolding bytes_in
  nothing-Onto w = sym (append-nil (bytes_in w))

abbrev SameWay : {A : Type 0} → WriteBuf → Encoded A → Encoded A → Type 0
SameWay w e e₀ = (bytes_in e.buf ≡ bytes_in w ++ bytes_in e₀.buf) × (e.kind ≡ e₀.kind)

encode-SameWay :
    (kind : Kind) (msg : List ℕ) (w : WriteBuf)
    → SameWay w (encode kind msg w) (encode kind msg (flat []))
unfolding encode
encode-SameWay Kind.eof msg w = (put_bytes-Onto msg w, refl)
encode-SameWay plain_chunked msg w = (put_bytes-Onto msg w, refl)
encode-SameWay (encode_chunked true) msg w = (nothing-Onto msg w, refl)
encode-SameWay (encode_chunked false) [] w = (put_static-Onto last_chunk w, refl)
encode-SameWay (encode_chunked false) (b ∷ bytes) w = (put_chunk-Onto (b ∷ bytes) w, refl)
encode-SameWay (decode_chunked state n) msg w = (nothing-Onto msg w, refl)
encode-SameWay (Kind.length n) [] w = elim (Bool-cases (ltb 0 n)) [
  | inl more ↦ rw more (nothing-Onto [] w, refl)
  | inr over ↦ rw over (nothing-Onto [] w, refl)
]
encode-SameWay (Kind.length n) (b ∷ bytes) w = elim (Bool-cases (ltb 0 n)) [
  | inl more ↦ rw more (put_bytes-Onto (take (min n (length (b ∷ bytes))) (b ∷ bytes)) w, refl)
  | inr over ↦ rw over (nothing-Onto [] w, refl)
]

encode_eof-SameWay :
    (kind : Kind) (w : WriteBuf) → SameWay w (encode_eof kind w) (encode_eof kind (flat []))
unfolding encode_eof
encode_eof-SameWay Kind.eof w = (nothing-Onto [] w, refl)
encode_eof-SameWay plain_chunked w = (nothing-Onto [] w, refl)
encode_eof-SameWay (Kind.length n) w = (nothing-Onto [] w, refl)
encode_eof-SameWay (encode_chunked true) w = (nothing-Onto [] w, refl)
encode_eof-SameWay (encode_chunked false) w = (put_static-Onto last_chunk w, refl)
encode_eof-SameWay (decode_chunked state n) w = (nothing-Onto [] w, refl)

-- The bytes of a body: what the encoder makes of its messages, and of its end.
abbrev pub body_out : Kind → List (List ℕ) → List ℕ
body_out kind msgs = bytes_in (encode_all kind msgs (flat [])).buf

pub encode_all-body_out :
    (msgs : List (List ℕ)) (kind : Kind) (w : WriteBuf)
    → bytes_in (encode_all kind msgs w).buf ≡ bytes_in w ++ body_out kind msgs
unfolding encode_all
encode_all-body_out [] kind w = (encode_eof-SameWay kind w).0
encode_all-body_out (msg ∷ msgs) kind w =
    let (bytes, same) = encode-SameWay kind msg w in
    let e = encode kind msg w in
    let e₀ = encode kind msg (flat []) in
    encode_all-body_out msgs e.kind e.buf
    ∙ ap₂ ◌++◌ bytes (ap (λ (k : Kind). body_out k msgs) same)
    ∙ append_assoc (bytes_in w) (bytes_in e₀.buf) (body_out e₀.kind msgs)
    ∙ ap (λ (t : List ℕ). bytes_in w ++ t) (sym (encode_all-body_out msgs e₀.kind e₀.buf))
