-- ===== src/H1/Header.antt =====
-- The types of the crate http that actix-http-alt/src/h1/proto works on. A header map is the list of its
-- entries in the order in which they were appended, and a value is the list of its bytes.
use actix_server_alt.Prelude.{ℕ, List}

-- `http::Method`
pub data Method : Type 0 where
  connect : Method
  other : List ℕ → Method

-- `http::Version`
pub data Version : Type 0 where
  http_10 http_11 later : Version

-- `http::HeaderName`, with the names that the source knows
pub data HeaderName : Type 0 where
  transfer_encoding content_length connection expect upgrade date : HeaderName
  named : List ℕ → HeaderName

abbrev pub HeaderMap : Type 0
HeaderMap = List (HeaderName × List ℕ)
