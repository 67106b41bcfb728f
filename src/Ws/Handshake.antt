-- ===== src/Ws/Handshake.antt =====
-- The handshake of http-ws/src/lib.rs. A header map is the function that looks a name up, a value is the
-- list of its bytes, and `hash_key`, which is SHA-1 and base64 of other crates, is an argument.
pub mod Accepts
use actix_server_alt.Prelude.{
  ℕ, ◌+◌, Bool, true, false, not, ◌&&◌, ◌||◌, Option, none, some, List, [], ◌∷◌, map, ltb, leb,
  ◌==◌, if◌then◌else◌, Result, ok, err,
}
use actix_server_alt.Prelude.Text.{is_visible, to_ascii_lowercase, same_bytes}

pub data HandshakeError : Type 0 where
  get_method_required no_websocket_upgrade no_connection_upgrade : HandshakeError
  no_version_header unsupported_version bad_websocket_key : HandshakeError

-- The names of the headers that the handshake reads or writes
pub data HeaderName : Type 0 where
  upgrade connection sec_websocket_version sec_websocket_key : HeaderName
  sec_websocket_accept allow : HeaderName

abbrev pub HeaderMap : Type 0
HeaderMap = HeaderName → Option (List ℕ)

-- `http::response::Builder`
pub record Builder : Type 0 where
  pub status : ℕ
  pub headers : List (HeaderName × List ℕ)

abbrev pub websocket_text : List ℕ
websocket_text = b'w' ∷ b'e' ∷ b'b' ∷ b's' ∷ b'o' ∷ b'c' ∷ b'k' ∷ b'e' ∷ b't' ∷ []

abbrev pub upgrade_text : List ℕ
upgrade_text = b'u' ∷ b'p' ∷ b'g' ∷ b'r' ∷ b'a' ∷ b'd' ∷ b'e' ∷ []

abbrev pub get_text : List ℕ
get_text = b'G' ∷ b'E' ∷ b'T' ∷ []

-- `impl From<HandshakeError> for Builder`
unfoldable pub builder_of_error : HandshakeError → Builder
builder_of_error get_method_required = record { status = 405; headers = (allow, get_text) ∷ [] }
builder_of_error _ = record { status = 400; headers = [] }

unfoldable pub starts_with : List ℕ → List ℕ → Bool
starts_with [] s = true
starts_with (x ∷ text) [] = false
starts_with (x ∷ text) (y ∷ s) = x == y && starts_with text s

-- `str::contains`
unfoldable pub contains_text : List ℕ → List ℕ → Bool
unfolding starts_with
contains_text text [] = starts_with text []
contains_text text (y ∷ s) = starts_with text (y ∷ s) || contains_text text s

-- The check of the headers "Upgrade" and "Connection"
unfoldable pub mentions : Option (List ℕ) → List ℕ → Bool
unfolding contains_text is_visible to_ascii_lowercase
mentions none text = false
mentions (some value) text = is_visible value && contains_text text (map to_ascii_lowercase value)

unfoldable pub is_supported : List ℕ → Bool
unfolding same_bytes
is_supported value =
    same_bytes value (b'1' ∷ b'3' ∷ [])
    || same_bytes value (b'8' ∷ [])
    || same_bytes value (b'7' ∷ [])

unfoldable pub verify_key : Option (List ℕ) → Result HandshakeError (List ℕ)
verify_key none = err bad_websocket_key
verify_key (some value) = ok value

unfoldable pub verify_version : Option (List ℕ) → Option (List ℕ) → Result HandshakeError (List ℕ)
unfolding is_supported verify_key
verify_version none key = err no_version_header
verify_version (some value) key =
    if not (is_supported value) then err unsupported_version else verify_key key

-- `verify_handshake`; the first argument is whether the method is GET.
unfoldable pub verify_handshake : Bool → HeaderMap → Result HandshakeError (List ℕ)
unfolding mentions verify_version
verify_handshake is_get headers =
    if not is_get
    then err get_method_required
    else if not (mentions (headers upgrade) websocket_text)
    then err no_websocket_upgrade
    else if not (mentions (headers connection) upgrade_text)
    then err no_connection_upgrade
    else verify_version (headers sec_websocket_version) (headers sec_websocket_key)

-- `handshake_response`
unfoldable pub handshake_response : (List ℕ → List ℕ) → List ℕ → Builder
handshake_response hash_key key = record {
  status = 101;
  headers =
      (upgrade, websocket_text)
      ∷ (connection, upgrade_text)
      ∷ (sec_websocket_accept, hash_key key)
      ∷ [];
}

-- `handshake`
unfoldable pub handshake : (List ℕ → List ℕ) → Bool → HeaderMap → Result HandshakeError Builder
unfolding verify_handshake handshake_response
handshake hash_key is_get headers = elim (verify_handshake is_get headers) [
  | ok key ↦ ok (handshake_response hash_key key)
  | err e ↦ err e
]
