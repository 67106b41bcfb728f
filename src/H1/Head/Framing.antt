-- ===== src/H1/Head/Framing.antt =====
-- What the headers of a request, read by actix-http-alt/src/h1/proto/decode.rs, say of the body's end.
pub mod Rounds
pub mod Whole
use actix_server_alt.Prelude.{
  ℕ, ◌≡◌, ◌≢◌, ◌↔◌, refl, sym, ap, ◌∙◌, ◌⊎◌, inl, inr, Bool, true, false, not, ◌&&◌, Bool-cases,
  Option-cases, Option, none, some, List, [], ◌∷◌, ◌++◌, append-nil, append_assoc, map, All, arith,
  ◌==◌, if◌then◌else◌, Result, ok, err,
}
use actix_server_alt.Prelude.Text.{is_visible, eq_ignore_ascii_case, trim, parse_u64}
use actix_server_alt.H1.Header.{
  Version, http_10, http_11, later, HeaderName, transfer_encoding, content_length, connection,
  expect, upgrade, date, named, HeaderMap,
}
use actix_server_alt.H1.Kind.{Kind}
use actix_server_alt.H1.Decode.{TransferDecoding, sized, chunked, plain, until_eof, reset}
use actix_server_alt.H1.Head.{ProtoError, parse, Parse, header, Failure, refused}
use actix_server_alt.H1.Head.Read.{
  HeadState, chunked_text, keep_alive_text, close_text, upgrade_text, reset_decoder,
  on_transfer_encoding, on_content_length, on_connection, on_expect, on_upgrade, on_header,
  read_headers,
}

-- What one header says of the body.
pub data Framing : Type 0 where
  by_chunks by_upgrade : Framing
  by_length : ℕ → Framing

abbrev pub length_framing : Option ℕ → Option Framing
length_framing none = none
length_framing (some n) = if n == 0 then none else some (by_length n)

abbrev pub upgrade_framing : List ℕ → Option Framing
upgrade_framing text =
    if eq_ignore_ascii_case text keep_alive_text
    then none
    else if eq_ignore_ascii_case text close_text
    then none
    else if eq_ignore_ascii_case text upgrade_text
    then some by_upgrade
    else none

abbrev pub framing : HeaderName → List ℕ → Option Framing
framing transfer_encoding value =
    if eq_ignore_ascii_case (trim value) chunked_text then some by_chunks else none
framing content_length value = length_framing (parse_u64 value)
framing connection value = if is_visible value then upgrade_framing (trim value) else none
framing _ value = none

abbrev pub framing_before : Option Framing → List Framing → List Framing
framing_before none fs = fs
framing_before (some f) fs = f ∷ fs

-- What the headers say of the body, in their order.
abbrev pub framings : HeaderMap → List Framing
framings [] = []
framings ((name, value) ∷ headers) = framing_before (framing name value) (framings headers)

-- What a header has to be by itself.
abbrev pub IsGood : Version → HeaderName → List ℕ → Type 0
IsGood version transfer_encoding value = (version ≡ http_11) × (is_visible value ≡ true)
IsGood version content_length value =
    (is_visible value ≡ true) × ((n : ℕ) × (parse_u64 value ≡ some n))
IsGood version _ value = Unit

abbrev pub AllGood : Version → HeaderMap → Type 0
AllGood version [] = Unit
AllGood version ((name, value) ∷ headers) = IsGood version name value × AllGood version headers

-- A length and chunks, one behind the other, contradict each other.
abbrev pub clash : Option Framing → Framing → Bool
clash (some by_chunks) (by_length n) = true
clash (some (by_length n)) by_chunks = true
clash _ _ = false

abbrev pub Agree : Option Framing → List Framing → Type 0
Agree before [] = Unit
Agree before (f ∷ fs) = (clash before f ≡ false) × Agree (some f) fs

abbrev pub last : Option Framing → List Framing → Option Framing
last before [] = before
last before (f ∷ fs) = last (some f) fs

abbrev pub decoder_of : Option Framing → TransferDecoding
decoder_of none = until_eof
decoder_of (some by_chunks) = chunked
decoder_of (some by_upgrade) = plain
decoder_of (some (by_length n)) = sized n
