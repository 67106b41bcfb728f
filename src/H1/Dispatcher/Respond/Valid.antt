-- ===== src/H1/Dispatcher/Respond/Valid.antt =====
-- The write buffer of actix-http-alt/src/h1/proto stays valid while a response is encoded and written.
use actix_server_alt.Prelude.{
  ℕ, zero, suc, ◌+◌, ◌/◌, ◌%◌, ◌^◌, ◌≤◌, ◌<◌, ◌≡◌, ◌≢◌, ◌∙◌, refl, sym, ap, Bool, true, false, not,
  ok, err, Result, if◌then◌else◌, ◌==◌, Bool-cases, List, [], ◌∷◌, ◌++◌, length, length-append,
  length-take, take, min, arith, ltb, inl, inr,
}
use actix_server_alt.Prelude.Text.{codes}
use actix_server_alt.H1.Head.Write.{encode_continue}
use actix_server_alt.Util.Buf.{bytes_Buf}
use actix_server_alt.Util.BufList.{push}
use actix_server_alt.Util.BufList.Bytes.{IsValid, push-IsValid}
use actix_server_alt.H1.Kind.{Kind, encode_chunked, decode_chunked, plain_chunked}
use actix_server_alt.H1.Buf.{
  EncodedBuf, buf, static, WriteBuf, flat, queue, WriteListBuf, buffer, bytes_ops, encoded_Buf,
  remaining,
}
use actix_server_alt.H1.Encode.{
  Encoded, EncodeFailure, unexpected_eof, panicked, upper_hex, hex_digits, upper_digit, crlf,
  last_chunk, put_bytes, put_static, put_chunk, encode, encode_eof,
}

abbrev pub IsSound : WriteBuf → Type 0
IsSound (flat bytes) = Unit
IsSound (queue w) = IsValid bytes_ops w.list

-- Below a limit of 2 ^ 62 bytes, a message shorter than that fits the count of the list.
abbrev pub HasRoom : WriteBuf → Type 0
HasRoom (flat bytes) = Unit
HasRoom (queue w) = w.list.remaining < 2 ^ 62

-- A message is shorter than 2 ^ 62 bytes, and one that is written as it is has a byte at least.
abbrev pub Fits : Kind → List ℕ → Type 0
Fits Kind.eof msg = (0 < length msg) × (length msg < 2 ^ 62)
Fits plain_chunked msg = (0 < length msg) × (length msg < 2 ^ 62)
Fits (Kind.length n) msg = length msg < 2 ^ 62
Fits (encode_chunked eof) msg = length msg < 2 ^ 62
Fits (decode_chunked state n) msg = length msg < 2 ^ 62

-- The kinds that write a body, for which `encode` does not panic
abbrev pub IsEncoder : Kind → Type 0
IsEncoder (decode_chunked state n) = ⊥
IsEncoder _ = Unit

-- A call of the encoder that did not panic, and leaves a kind that writes a body
pub record IsEncoded {A : Type 0} (e : Encoded A) : Type 0 where
  pub writes : IsEncoder e.kind
  pub returns : e.result ≢ err panicked

no_panic : {A : Type 0} (r : Result EncodeFailure A) (a : A) → r ≡ ok a → r ≢ err panicked
no_panic r a h e = let q = sym h ∙ e in cc

pub encode-IsEncoded :
    (kind : Kind) (msg : List ℕ) (w : WriteBuf) → IsEncoder kind → IsEncoded (encode kind msg w)
unfolding encode
encode-IsEncoded Kind.eof msg w h = record { writes = tt; returns = no_panic _ _ refl }
encode-IsEncoded plain_chunked msg w h = record { writes = tt; returns = no_panic _ _ refl }
encode-IsEncoded (encode_chunked true) msg w h = record { writes = tt; returns = no_panic _ _ refl }
encode-IsEncoded (encode_chunked false) [] w h = record { writes = tt; returns = no_panic _ _ refl }
encode-IsEncoded (encode_chunked false) (b ∷ bytes) w h = record {
  writes = tt;
  returns = no_panic _ _ refl;
}
encode-IsEncoded (decode_chunked state n) msg w h = absurd h
encode-IsEncoded (Kind.length n) [] w h = elim (Bool-cases (ltb 0 n)) [
  | inl more ↦ rw more (record { writes = tt; returns = no_panic _ _ refl })
  | inr over ↦ rw over (record { writes = tt; returns = no_panic _ _ refl })
]
encode-IsEncoded (Kind.length n) (b ∷ bytes) w h = elim (Bool-cases (ltb 0 n)) [
  | inl more ↦ rw more (record { writes = tt; returns = no_panic _ _ refl })
  | inr over ↦ rw over (record { writes = tt; returns = no_panic _ _ refl })
]

abbrev early_or_ok : Bool → Result EncodeFailure (Unit {0})
early_or_ok b = if b then err unexpected_eof else ok tt

early_end : (b : Bool) → early_or_ok b ≢ err panicked
early_end true e = let q = e in cc
early_end false e = let q = e in cc

pub encode_eof-IsEncoded :
    (kind : Kind) (w : WriteBuf) → IsEncoder kind → IsEncoded (encode_eof kind w)
unfolding encode_eof
encode_eof-IsEncoded Kind.eof w h = record { writes = tt; returns = no_panic _ _ refl }
encode_eof-IsEncoded plain_chunked w h = record { writes = tt; returns = no_panic _ _ refl }
encode_eof-IsEncoded (encode_chunked b) w h = record { writes = tt; returns = no_panic _ _ refl }
encode_eof-IsEncoded (decode_chunked state n) w h = absurd h
encode_eof-IsEncoded (Kind.length n) w h = record {
  writes = tt;
  returns = early_end (not (n == 0));
}

buffer-IsValid :
    (w : WriteListBuf) (b : EncodedBuf (List ℕ)) (n : ℕ)
    → IsValid bytes_ops w.list
    → bytes_ops.remaining b ≡ n
    → 0 < n
    → w.list.remaining + n < 2 ^ 64
    → IsValid bytes_ops (buffer w b).list × ((buffer w b).list.remaining ≡ w.list.remaining + n)
unfolding buffer push
buffer-IsValid w b n v size some' fits = (
  (push-IsValid bytes_ops w.list b v (rw size some') (rw size fits)).0,
  ap (λ (t : ℕ). (w.list.remaining + t) % 2 ^ 64) size ∙ omega (arith, fits),
)

buf_size : (msg : List ℕ) → bytes_ops.remaining (buf msg) ≡ length msg
unfolding encoded_Buf remaining bytes_Buf
buf_size msg = refl

static_size : (text : List ℕ) → bytes_ops.remaining (static text) ≡ length text
unfolding encoded_Buf remaining
static_size text = refl

length-hex_digits : (fuel n : ℕ) → length (hex_digits fuel n) ≤ fuel
unfolding hex_digits
length-hex_digits zero n = omega arith
length-hex_digits (suc fuel) n = elim (Bool-cases (ltb n 16)) [
  | inl last ↦ rw last (omega arith)
  | inr more ↦ rw more (
      omega (
        arith,
        length-hex_digits fuel (n / 16),
        length-append (hex_digits fuel (n / 16)) (upper_digit (n % 16) ∷ []),
      ))
]

length-upper_hex : (n : ℕ) → length (upper_hex n) ≤ 16
unfolding upper_hex
length-upper_hex n = length-hex_digits 16 n

put_bytes-IsSound :
    (w : WriteBuf) (msg : List ℕ)
    → IsSound w
    → HasRoom w
    → 0 < length msg
    → length msg < 2 ^ 62
    → IsSound (put_bytes w msg)
unfolding put_bytes
put_bytes-IsSound (flat b) msg v r some' fits = tt
put_bytes-IsSound (queue w) msg v r some' fits =
    (buffer-IsValid w (buf msg) (length msg) v (buf_size msg) some' (omega arith)).0

put_static-IsSound : (w : WriteBuf) → IsSound w → HasRoom w → IsSound (put_static w last_chunk)
unfolding put_static
put_static-IsSound (flat b) v r = tt
put_static-IsSound (queue w) v r =
    (buffer-IsValid w (static last_chunk) 5 v (static_size last_chunk) (omega arith)
      (omega arith)).0

put_chunk-IsSound :
    (w : WriteBuf) (msg : List ℕ)
    → IsSound w
    → HasRoom w
    → 0 < length msg
    → length msg < 2 ^ 62
    → IsSound (put_chunk w msg)
unfolding put_chunk
put_chunk-IsSound (flat b) msg v r some' fits = tt
put_chunk-IsSound (queue w) msg v r some' fits =
    let size = upper_hex (length msg) ++ crlf in
    let short = length-upper_hex (length msg) in
    let long = length-append (upper_hex (length msg)) crlf in
    let (v', n') =
      buffer-IsValid w (buf size) (length size) v (buf_size size) (omega arith) (omega arith) in
    let (v'', n'') =
      buffer-IsValid (buffer w (buf size)) (buf msg) (length msg) v' (buf_size msg) some'
        (omega arith) in
    (buffer-IsValid (buffer (buffer w (buf size)) (buf msg)) (static crlf) 2 v'' (static_size crlf)
      (omega arith) (omega arith)).0

-- A message that is encoded keeps the buffer sound, and the messages behind it still fit.
pub encode-IsSound :
    (kind : Kind) (msg : List ℕ) (w : WriteBuf)
    → Fits kind msg
    → IsSound w
    → HasRoom w
    → IsSound (encode kind msg w).buf
unfolding encode
encode-IsSound Kind.eof msg w f v r = put_bytes-IsSound w msg v r f.0 f.1
encode-IsSound plain_chunked msg w f v r = put_bytes-IsSound w msg v r f.0 f.1
encode-IsSound (encode_chunked true) msg w f v r = v
encode-IsSound (encode_chunked false) [] w f v r = put_static-IsSound w v r
encode-IsSound (encode_chunked false) (b ∷ bytes) w f v r =
    put_chunk-IsSound w (b ∷ bytes) v r (omega arith) f
encode-IsSound (decode_chunked state n) msg w f v r = v
encode-IsSound (Kind.length n) [] w f v r = elim (Bool-cases (ltb 0 n)) [
  | inl more ↦ rw more v
  | inr over ↦ rw over v
]
encode-IsSound (Kind.length n) (b ∷ bytes) w f v r = elim (Bool-cases (ltb 0 n)) [
  | inl more ↦
      let size = length-take (min n (length (b ∷ bytes))) (b ∷ bytes) in
      let some' : 0 < n = ground arith in
      rw more (
        put_bytes-IsSound w (take (min n (length (b ∷ bytes))) (b ∷ bytes)) v r (omega arith)
          (omega arith))
  | inr over ↦ rw over v
]

pub encode_eof-IsSound :
    (kind : Kind) (w : WriteBuf) → IsSound w → HasRoom w → IsSound (encode_eof kind w).buf
unfolding encode_eof
encode_eof-IsSound Kind.eof w v r = v
encode_eof-IsSound plain_chunked w v r = v
encode_eof-IsSound (encode_chunked true) w v r = v
encode_eof-IsSound (encode_chunked false) w v r = put_static-IsSound w v r
encode_eof-IsSound (decode_chunked state n) w v r = v
encode_eof-IsSound (Kind.length n) w v r = v

pub encode-Fits :
    (kind : Kind) (msg other : List ℕ) (w : WriteBuf)
    → Fits kind other
    → Fits (encode kind msg w).kind other
unfolding encode
encode-Fits Kind.eof msg other w f = f
encode-Fits plain_chunked msg other w f = f
encode-Fits (encode_chunked true) msg other w f = f
encode-Fits (encode_chunked false) [] other w f = f
encode-Fits (encode_chunked false) (b ∷ bytes) other w f = f
encode-Fits (decode_chunked state n) msg other w f = f
encode-Fits (Kind.length n) [] other w f = elim (Bool-cases (ltb 0 n)) [
  | inl more ↦ rw more f
  | inr over ↦ rw over f
]
encode-Fits (Kind.length n) (b ∷ bytes) other w f = elim (Bool-cases (ltb 0 n)) [
  | inl more ↦ rw more f
  | inr over ↦ rw over f
]

-- What tells a client to go on is pushed as one buffer.
pub encode_continue-IsSound : (w : WriteBuf) → IsSound w → HasRoom w → IsSound (encode_continue w)
unfolding encode_continue
encode_continue-IsSound (flat bytes) v r = tt
encode_continue-IsSound (queue w) v r =
    let text = codes "HTTP/1.1 100 Continue\r\n\r\n" in
    (buffer-IsValid w (static text) 25 v (static_size text) (omega arith) (omega arith)).0
