-- ===== src/H1/Head.antt =====
-- The errors of actix-http-alt/src/h1/proto/error.rs and the headers of actix-http-alt/src/h1/proto/decode.rs.
-- What the crates httparse and http do is a parameter; their errors are numbers.
pub mod Read
pub mod Index
pub mod Framing
pub mod Write
pub mod Written
pub mod Answer
pub mod Announce
pub mod Layout
pub mod Rendered
pub mod Entries
use actix_server_alt.Prelude.{ℕ, ◌+◌, ◌-◌, Option, none, some, List, [], ◌∷◌, take, drop, Result}
use actix_server_alt.H1.Header.{Method, HeaderName}

-- `Parse` and `ProtoError`
pub data Parse : Type 0 where
  header header_too_large status_code header_value : Parse

pub data ProtoError : Type 0 where
  parse : Parse → ProtoError
  http_parse http : ℕ → ProtoError

-- Why a head is not decoded: an error, or a panic of one of the `unwrap`s.
pub data Failure : Type 0 where
  refused : ProtoError → Failure
  panicked : Failure

-- `httparse::Header`: where its name and its value begin in the buffer, and how long they are.
pub record Header : Type 0 where
  pub name_start : ℕ
  pub name_len : ℕ
  pub value_start : ℕ
  pub value_len : ℕ

-- `httparse::Request`, and the length of the head
pub record ParsedHead : Type 0 where
  pub len : ℕ
  pub method : List ℕ
  pub path : List ℕ
  pub version : ℕ
  pub headers : List Header

pub data HttpParse : Type 0 where
  complete : ParsedHead → HttpParse
  partial : HttpParse
  invalid : ℕ → HttpParse

-- The functions of the crates: `Request::parse`, `Method::from_bytes`, `Uri::from_str`,
-- `HeaderName::from_bytes` and `HeaderValue::from_maybe_shared`.
pub record Crates : Type 0 where
  pub parse_head : List ℕ → HttpParse
  pub method_of : List ℕ → Result ℕ Method
  pub uri_of : List ℕ → Result ℕ (List ℕ)
  pub name_of : List ℕ → Option HeaderName
  pub value_of : List ℕ → Option (List ℕ)

-- `MAX_HEADERS`
abbrev pub max_headers : ℕ
max_headers = 96

-- `HeaderIndex`: where a name and a value begin and end.
pub record HeaderIndex : Type 0 where
  pub name : ℕ × ℕ
  pub value : ℕ × ℕ

unfoldable pub new_index : HeaderIndex
new_index = record { name = (0, 0); value = (0, 0) }

unfoldable pub index_of : Header → HeaderIndex
index_of h = record {
  name = (h.name_start, h.name_start + h.name_len);
  value = (h.value_start, h.value_start + h.value_len);
}

-- `HeaderIndex::record`: the indices are written over those that are there.
unfoldable pub record_headers : List Header → List HeaderIndex → List HeaderIndex
unfolding index_of
record_headers [] indices = indices
record_headers (h ∷ headers) [] = []
record_headers (h ∷ headers) (i ∷ indices) = index_of h ∷ record_headers headers indices

-- `slice[start..end]`
unfoldable pub slice_at : List ℕ → ℕ × ℕ → List ℕ
slice_at slice (start, end) = take (end - start) (drop start slice)

-- A header of these texts; `none` is a panic of an `unwrap`.
unfoldable pub entry : Crates → List ℕ → List ℕ → Option (HeaderName × List ℕ)
entry crates name value = elim (crates.name_of name) [
  | none ↦ none
  | some n ↦ elim (crates.value_of value) [ none ↦ none | some v ↦ some (n, v) ]
]

-- A header is read at its index.
unfoldable pub header_at : Crates → List ℕ → HeaderIndex → Option (HeaderName × List ℕ)
unfolding entry slice_at
header_at crates slice idx = entry crates (slice_at slice idx.name) (slice_at slice idx.value)
