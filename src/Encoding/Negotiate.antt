-- ===== src/Encoding/Negotiate.antt =====
-- http-encoding/src/encoder.rs and decoder.rs: the coder that is chosen for a response, what its headers
-- say of it, and the decoder that is chosen by these headers. A header map of the crate http gives the
-- values of a name in lower case, in order.
pub mod Pairs
pub mod RoundTrip
use actix_server_alt.Prelude.{
  ℕ, Bool, true, false, not, ◌||◌, ◌==◌, Option, none, some, List, [], ◌∷◌, if◌then◌else◌, Result,
  ok, err, ◌>>=◌,
}
use actix_server_alt.Prelude.Text.{codes, is_visible, same_bytes}
use actix_server_alt.Encoding.Coding.{ContentEncoding, encoding_of}
use actix_server_alt.Encoding.Coder.{AsyncCode, Coder, identity_coder}
use actix_server_alt.Encoding.Coder as Stream
use actix_server_alt.Encoding.Compress.{Codec, Coding, coder}
use actix_server_alt.Encoding.Compress

-- `http::HeaderMap`
abbrev pub HeaderMap : Type 0
HeaderMap = List ℕ → List (List ℕ)

unfoldable pub get : HeaderMap → List ℕ → Option (List ℕ)
get headers name = elim (headers name) [ [] ↦ none | value ∷ values ↦ some value ]

unfoldable pub contains_key : HeaderMap → List ℕ → Bool
contains_key headers name = elim (headers name) [ [] ↦ false | value ∷ values ↦ true ]

unfoldable pub insert : HeaderMap → List ℕ → List ℕ → HeaderMap
unfolding same_bytes
insert headers name value key = if same_bytes key name then value ∷ [] else headers key

unfoldable pub remove : HeaderMap → List ℕ → HeaderMap
unfolding same_bytes
remove headers name key = if same_bytes key name then [] else headers key

abbrev pub content_encoding : List ℕ
content_encoding = codes "content-encoding"

abbrev pub content_length : List ℕ
content_length = codes "content-length"

abbrev pub transfer_encoding : List ℕ
transfer_encoding = codes "transfer-encoding"

-- `http::response::Parts`, as far as it is read
pub record Parts : Type 0 where
  pub status : ℕ
  pub headers : HeaderMap

-- `Feature`
pub data Feature : Type 0 where
  br gzip deflate : Feature

-- The features of the crate that are on
pub record Features : Type 0 where
  pub br : Bool
  pub gz : Bool
  pub de : Bool

-- `update_header`
unfoldable pub update_header : HeaderMap → List ℕ → HeaderMap
unfolding insert remove
update_header headers value =
    insert (remove (insert headers content_encoding value) content_length) transfer_encoding
      (codes "chunked")

-- `_ContentEncoder`, with the codecs of other crates in it
pub data ContentCoder (Br Gz De : Type 0) : Type 0 where
  identity : ContentCoder Br Gz De
  br : Coding Br → ContentCoder Br Gz De
  gz : Coding Gz → ContentCoder Br Gz De
  de : Coding De → ContentCoder Br Gz De

-- `_ContentDecoder`, which is alike
abbrev pub ContentDecoder : (Br Gz De : Type 0) → Type 0
ContentDecoder Br Gz De = ContentCoder Br Gz De

-- What other crates bring: three codecs as they start, and threads to code on.
pub record Codecs (Br Gz De IoError : Type 0) : Type 0 where
  pub br : Codec Br IoError
  pub br_state : Br
  pub gz : Codec Gz IoError
  pub gz_state : Gz
  pub de : Codec De IoError
  pub de_state : De
  pub spawn_br :
      Result IoError (Coding Br × Option (List ℕ)) → Result IoError (Coding Br × Option (List ℕ))
  pub spawn_gz :
      Result IoError (Coding Gz × Option (List ℕ)) → Result IoError (Coding Gz × Option (List ℕ))
  pub spawn_de :
      Result IoError (Coding De × Option (List ℕ)) → Result IoError (Coding De × Option (List ℕ))

-- `.map(|(encoder, item)| (encoder.into(), item))`
abbrev pub map_coder :
    {S T IoError : Type 0} {Out : Type 0}
    → (S → T)
    → Result IoError (S × Option Out)
    → Result IoError (T × Option Out)
map_coder into (ok (s, item)) = ok (into s, item)
map_coder into (err e) = err e

module _ {Br Gz De IoError : Type 0} (codecs : Codecs Br Gz De IoError) where
  -- The coders behind each codec, with the size below which an item is coded in place
  abbrev pub br_coder : ℕ → AsyncCode (Coding Br) (List ℕ) (List ℕ) IoError
  br_coder size = coder codecs.br size codecs.spawn_br

  abbrev pub gz_coder : ℕ → AsyncCode (Coding Gz) (List ℕ) (List ℕ) IoError
  gz_coder size = coder codecs.gz size codecs.spawn_gz

  abbrev pub de_coder : ℕ → AsyncCode (Coding De) (List ℕ) (List ℕ) IoError
  de_coder size = coder codecs.de size codecs.spawn_de

  -- `code` of `ContentEncoder` and of `ContentDecoder`
  unfoldable pub code :
      ℕ → ContentCoder Br Gz De → List ℕ → Result IoError (ContentCoder Br Gz De × Option (List ℕ))
  unfolding identity_coder coder
  code size identity item =
      map_coder (λ t. identity) ((identity_coder {Item = List ℕ} {IoError = IoError}).code tt item)
  code size (br s) item = map_coder br ((br_coder size).code s item)
  code size (gz s) item = map_coder gz ((gz_coder size).code s item)
  code size (de s) item = map_coder de ((de_coder size).code s item)

  -- `code_eof` of `ContentEncoder` and of `ContentDecoder`
  unfoldable pub code_eof : ℕ → ContentCoder Br Gz De → Result IoError (Option (List ℕ))
  unfolding identity_coder coder
  code_eof size identity = (identity_coder {Item = List ℕ} {IoError = IoError}).code_eof tt
  code_eof size (br s) = (br_coder size).code_eof s
  code_eof size (gz s) = (gz_coder size).code_eof s
  code_eof size (de s) = (de_coder size).code_eof s

  unfoldable pub content_coder : ℕ → AsyncCode (ContentCoder Br Gz De) (List ℕ) (List ℕ) IoError
  unfolding code code_eof
  content_coder size = record { code = code size; code_eof = code_eof size }

  -- `BrotliEncoder::new(Writer::new(), 3)` and the others
  unfoldable pub new_br : ContentCoder Br Gz De
  unfolding actix_server_alt.Encoding.Compress.new
  new_br = ContentCoder.br (record { state = codecs.br_state; writer = Compress.new })

  unfoldable pub new_gz : ContentCoder Br Gz De
  unfolding actix_server_alt.Encoding.Compress.new
  new_gz = gz (record { state = codecs.gz_state; writer = Compress.new })

  unfoldable pub new_de : ContentCoder Br Gz De
  unfolding actix_server_alt.Encoding.Compress.new
  new_de = de (record { state = codecs.de_state; writer = Compress.new })

  -- `match encoding`, where the response can be encoded
  unfoldable pub encoder_for :
      Features → ContentEncoding → Parts → Result Feature (Parts × ContentCoder Br Gz De)
  unfolding update_header insert new_br new_gz new_de
  encoder_for on ContentEncoding.deflate parts =
      if on.de
      then ok (record parts { headers = update_header parts.headers (codes "deflate") }, new_de)
      else err Feature.deflate
  encoder_for on ContentEncoding.gzip parts =
      if on.gz
      then ok (record parts { headers = update_header parts.headers (codes "gzip") }, new_gz)
      else err Feature.gzip
  encoder_for on ContentEncoding.br parts =
      if on.br
      then ok (record parts { headers = update_header parts.headers (codes "br") }, new_br)
      else err Feature.br
  encoder_for on encoding parts = ok (
    record parts { headers = insert parts.headers content_encoding (codes "identity") },
    identity,
  )

  abbrev pub is_identity : ContentEncoding → Bool
  is_identity ContentEncoding.identity = true
  is_identity _ = false

  abbrev pub is_auto : ContentEncoding → Bool
  is_auto ContentEncoding.auto = true
  is_auto _ = false

  unfoldable pub can_encode : Parts → ContentEncoding → Bool
  unfolding contains_key
  can_encode parts encoding = not (
      contains_key parts.headers content_encoding
      || parts.status == 101
      || parts.status == 204
      || is_identity encoding
      || is_auto encoding)

  -- `Coder::try_encoder_from_response`
  unfoldable pub try_encoder_from_response :
      {E : Type 0}
      → Features
      → Parts
      → List (Result E (List ℕ))
      → ContentEncoding
      → Result Feature (Parts × Coder (ContentCoder Br Gz De) (List ℕ) (List ℕ) IoError E)
  unfolding can_encode encoder_for actix_server_alt.Encoding.Coder.new
  try_encoder_from_response on parts body encoding = do
    (parts', encoder) ←
        if can_encode parts encoding then encoder_for on encoding parts else ok (parts, identity)
    ok (parts', Stream.new body encoder)

  unfoldable pub decoder_for : Features → ContentEncoding → Result Feature (ContentDecoder Br Gz De)
  unfolding new_br new_gz new_de
  decoder_for on ContentEncoding.br = if on.br then ok new_br else err Feature.br
  decoder_for on ContentEncoding.gzip = if on.gz then ok new_gz else err Feature.gzip
  decoder_for on ContentEncoding.deflate = if on.de then ok new_de else err Feature.deflate
  decoder_for on encoding = ok identity

  -- A value that is no visible text counts as none.
  unfoldable pub decoder_of_value :
      Features → Option (List ℕ) → Result Feature (ContentDecoder Br Gz De)
  unfolding decoder_for is_visible encoding_of
  decoder_of_value on none = ok identity
  decoder_of_value on (some value) =
      if is_visible value then decoder_for on (encoding_of value) else ok identity

  -- `from_headers`
  unfoldable pub from_headers : Features → HeaderMap → Result Feature (ContentDecoder Br Gz De)
  unfolding decoder_of_value get
  from_headers on headers = decoder_of_value on (get headers content_encoding)

  -- `Coder::try_decoder_from_parts`
  unfoldable pub try_decoder_from_parts :
      {E : Type 0}
      → Features
      → HeaderMap
      → List (Result E (List ℕ))
      → Result Feature (Coder (ContentDecoder Br Gz De) (List ℕ) (List ℕ) IoError E)
  unfolding from_headers actix_server_alt.Encoding.Coder.new
  try_decoder_from_parts on headers body = do
    decoder ← from_headers on headers
    ok (Stream.new body decoder)
