-- ===== src/H1/Head/Index.antt =====
-- The indices of the headers in actix-http-alt/src/h1/proto/decode.rs give back the texts of the buffer.
use actix_server_alt.Prelude.{
  ℕ, zero, suc, ◌+◌, ◌-◌, ◌≤◌, ◌≡◌, refl, ap, ap₂, ◌∙◌, Option, List, [], ◌∷◌, map, All, length,
  take, drop, replicate, arith, take-drop-take,
}
use actix_server_alt.H1.Header.{HeaderName}
use actix_server_alt.H1.Head.{
  Header, Crates, new_index, index_of, record_headers, slice_at, entry, header_at,
}

-- A header as the crates read it from the buffer
abbrev pub header_text : Crates → List ℕ → Header → Option (HeaderName × List ℕ)
header_text crates buf h =
    entry crates (take h.name_len (drop h.name_start buf))
      (take h.value_len (drop h.value_start buf))

-- A header lies in the first bytes of the buffer.
pub record IsWithin (len : ℕ) (h : Header) : Type 0 where
  pub name : h.name_start + h.name_len ≤ len
  pub value : h.value_start + h.value_len ≤ len

slice_at_lem :
    (buf : List ℕ) (len start size : ℕ)
    → start + size ≤ len
    → slice_at (take len buf) (start, start + size) ≡ take size (drop start buf)
unfolding slice_at
slice_at_lem buf len start size h =
    ap (λ (t : ℕ). take t (drop start (take len buf)))
      (let e : start + size - start ≡ size = omega arith in e)
    ∙ take-drop-take start size len buf h

header_at-index_of :
    (crates : Crates) (buf : List ℕ) (len : ℕ) (h : Header)
    → IsWithin len h
    → header_at crates (take len buf) (index_of h) ≡ header_text crates buf h
unfolding header_at index_of
header_at-index_of crates buf len h w =
    ap₂ (entry crates) (slice_at_lem buf len h.name_start h.name_len w.name)
      (slice_at_lem buf len h.value_start h.value_len w.value)

-- The indices that are recorded are read back as the headers that the parser found.
pub headers_at :
    (crates : Crates) (buf : List ℕ) (len n : ℕ) (headers : List Header)
    → length headers ≤ n
    → All (IsWithin len) headers
    → map
        (header_at crates (take len buf))
        (take (length headers) (record_headers headers (replicate n new_index)))
      ≡ map (header_text crates buf) headers
unfolding record_headers
headers_at crates buf len n [] h w = refl
headers_at crates buf len zero (x ∷ headers) h w = absurd (omega arith)
headers_at crates buf len (suc n) (x ∷ headers) h w =
    ap₂ ◌∷◌ (header_at-index_of crates buf len x w.0)
      (headers_at crates buf len n headers (omega arith) w.1)
