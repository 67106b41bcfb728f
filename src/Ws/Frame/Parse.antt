-- ===== src/Ws/Frame/Parse.antt =====
-- `Parser::parse` of http-ws/src/frame.rs on a buffer that is still growing.
use actix_server_alt.Prelude.{
  ℕ, ◌+◌, ◌%◌, ◌≤◌, ◌<◌, ◌≡◌, ◌≢◌, refl, inl, inr, Bool, none, some, List, ◌++◌, arith, length,
  drop, length-append, length-drop, take-append, drop-append, ok, Result-cases,
}
use actix_server_alt.Ws.Mask.{Layout}
use actix_server_alt.Ws.Frame.{MetaData, Frame, usize_mod, parse_metadata, parse_payload, parse}
use actix_server_alt.Ws.Frame.Metadata.{IsBounded, parse_metadata-append, parse_metadata-IsBounded}

-- No sum of a header's size and a length within the limit passes the range of `usize`.
abbrev pub FitsUsize : ℕ → Type 0
FitsUsize max_size = max_size + 14 < usize_mod

no_wrap :
    (src : List ℕ) (max_size : ℕ) (m : MetaData)
    → FitsUsize max_size
    → IsBounded src max_size m
    → (m.idx + m.length) % usize_mod ≡ m.idx + m.length
no_wrap src max_size m f b = omega arith

parse_payload-append :
    (l : Layout) (src more : List ℕ) (max_size : ℕ) (m : MetaData)
    → FitsUsize max_size
    → IsBounded src max_size m
    → (parse_payload l src m).1 ≢ ok none
    → parse_payload l (src ++ more) m
      ≡ ((parse_payload l src m).0 ++ more, (parse_payload l src m).1)
unfolding parse_payload
parse_payload-append l src more max_size m f b h = ground (
  arith,
  length-append src more,
  length-drop m.idx src,
  drop-append m.idx src more,
  drop-append m.length (drop m.idx src) more,
  take-append m.length (drop m.idx src) more,
)

-- Once `parse` has answered with a frame or an error, more input changes neither the answer nor
-- what the call takes from the buffer: the new bytes stay behind what was left. `max_size` + 14 is
-- below 2 ^ 64.
pub parse-append :
    (l : Layout) (src more : List ℕ) (server : Bool) (max_size : ℕ)
    → FitsUsize max_size
    → (parse l src server max_size).1 ≢ ok none
    → parse l (src ++ more) server max_size
      ≡ ((parse l src server max_size).0 ++ more, (parse l src server max_size).1)
unfolding parse
parse-append l src more server max_size f h =
    let grow = parse_metadata-append src more server max_size in
    elim (Result-cases (parse_metadata src server max_size)) [
      | inl (none, q) ↦ ground arith
      | inl (some m, q) ↦ ground (
        arith,
        grow,
        parse_metadata-IsBounded src server max_size m q,
        parse_payload-append l src more max_size m f,
      )
      | inr (e, q) ↦ ground (arith, grow)
    ]

parse_payload_progress :
    (l : Layout) (src : List ℕ) (max_size : ℕ) (m : MetaData)
    → FitsUsize max_size
    → IsBounded src max_size m
    → ((parse_payload l src m).1 ≡ ok none → (parse_payload l src m).0 ≡ src)
      × ((frame : Frame)
          → (parse_payload l src m).1 ≡ ok (some frame)
          → length (parse_payload l src m).0 + 2 ≤ length src)
unfolding parse_payload
parse_payload_progress l src max_size m f b =
    let shorter = length-drop m.idx src in
    let shorter_still = length-drop m.length (drop m.idx src) in
    (λ h. ground arith, λ frame h. ground (arith, shorter, shorter_still))

-- "Not yet" takes nothing from the buffer, and a frame takes at least its two first bytes.
pub parse_progress :
    (l : Layout) (src : List ℕ) (server : Bool) (max_size : ℕ)
    → FitsUsize max_size
    → ((parse l src server max_size).1 ≡ ok none → (parse l src server max_size).0 ≡ src)
      × ((frame : Frame)
          → (parse l src server max_size).1 ≡ ok (some frame)
          → length (parse l src server max_size).0 + 2 ≤ length src)
unfolding parse
parse_progress l src server max_size f = elim (Result-cases (parse_metadata src server max_size)) [
  | inl (none, q) ↦ rw (q, parse) (λ h. refl, λ frame h. cc)
  | inl (some m, q) ↦
      rw (q, parse)
        (parse_payload_progress l src max_size m f
          (parse_metadata-IsBounded src server max_size m q))
  | inr (e, q) ↦ rw (q, parse) (λ h. refl, λ frame h. cc)
]
