-- ===== src/Encoding/Coding.antt =====
-- http-encoding/src/coding.rs: the content encodings and their names.
use actix_server_alt.Prelude.{ℕ, Bool, true, false, List, if◌then◌else◌}
use actix_server_alt.Prelude.Text.{codes, eq_ignore_ascii_case, trim}

pub data ContentEncoding : Type 0 where
  auto br deflate gzip identity : ContentEncoding

-- `is_compression`
unfoldable pub is_compression : ContentEncoding → Bool
is_compression ContentEncoding.identity = true
is_compression ContentEncoding.auto = true
is_compression _ = false

-- `quality`, in tenths
unfoldable pub quality : ContentEncoding → ℕ
quality ContentEncoding.br = 11
quality ContentEncoding.gzip = 10
quality ContentEncoding.deflate = 9
quality _ = 1

-- `Default::default`
unfoldable pub default_encoding : ContentEncoding
default_encoding = ContentEncoding.identity

-- `From<&str>`, for a text that `HeaderValue::to_str` gave
unfoldable pub encoding_of : List ℕ → ContentEncoding
unfolding default_encoding eq_ignore_ascii_case trim
encoding_of val =
    if eq_ignore_ascii_case (trim val) (codes "br")
    then ContentEncoding.br
    else if eq_ignore_ascii_case (trim val) (codes "gzip")
    then ContentEncoding.gzip
    else if eq_ignore_ascii_case (trim val) (codes "deflate")
    then ContentEncoding.deflate
    else default_encoding
