-- ===== src/Ws/Frame/Metadata.antt =====
-- `parse_metadata` of http-ws/src/frame.rs: what more input changes, and the bounds of its result.
use actix_server_alt.Prelude.{
  ℕ, ◌+◌, ◌≤◌, ◌≡◌, ◌≢◌, refl, ap, ◌∙◌, inl, inr, Bool, Option, none, some, List, ◌++◌, arith,
  length, take, drop, get_or, bit_and, not, ◌==◌, length-append, length-drop, take-append,
  drop-append, get_or-append, ok, Result-cases,
}
use actix_server_alt.Ws.Proto.{OpCode, of_u8}
use actix_server_alt.Ws.Frame.{MetaData, parse_length, parse_mask, parse_fields, parse_metadata}

-- A field that lies within the buffer does not change when bytes are added behind it.
field-append :
    (n i : ℕ) (src more : List ℕ)
    → i + n ≤ length src
    → take n (drop i (src ++ more)) ≡ take n (drop i src)
field-append n i src more h =
    ap (take n) (drop-append i src more (omega arith))
    ∙ take-append n (drop i src) more (omega (arith, length-drop i src))

-- An answer other than "not yet" stands when more bytes come in.
parse_length-append :
    (src more : List ℕ) (max_size second : ℕ)
    → parse_length src max_size second ≢ ok none
    → parse_length (src ++ more) max_size second ≡ parse_length src max_size second
unfolding parse_length
parse_length-append src more max_size second h =
    ground (arith, length-append src more, field-append 2 2 src more, field-append 8 2 src more)

parse_mask-append :
    (src more : List ℕ) (server : Bool) (max_size : ℕ) (finished : Bool) (opcode : OpCode)
    (r : Option (ℕ × ℕ))
    → parse_mask src server max_size finished opcode r ≢ ok none
    → parse_mask (src ++ more) server max_size finished opcode r
      ≡ parse_mask src server max_size finished opcode r
unfolding parse_mask
parse_mask-append src more server max_size finished opcode none h = refl
parse_mask-append src more server max_size finished opcode (some (len, idx)) h =
    ground (arith, length-append src more, field-append 4 idx src more)

parse_fields-append :
    (src more : List ℕ) (server : Bool) (max_size : ℕ) (finished : Bool) (opcode : OpCode)
    (second : ℕ)
    → parse_fields src server max_size finished opcode second ≢ ok none
    → parse_fields (src ++ more) server max_size finished opcode second
      ≡ parse_fields src server max_size finished opcode second
unfolding parse_fields
parse_fields-append src more server max_size finished opcode second h =
    let more_length = parse_length-append src more max_size second in
    elim (Result-cases (parse_length src max_size second)) [
      | inl (none, e) ↦ unfold parse_mask in (ground (arith, more_length))
      | inl (some r, e) ↦
          ground (
            arith,
            more_length,
            parse_mask-append src more server max_size finished opcode (some r),
          )
      | inr (x, e) ↦ ground (arith, more_length)
    ]

pub parse_metadata-append :
    (src more : List ℕ) (server : Bool) (max_size : ℕ)
    → parse_metadata src server max_size ≢ ok none
    → parse_metadata (src ++ more) server max_size ≡ parse_metadata src server max_size
unfolding parse_metadata
parse_metadata-append src more server max_size h = ground (
  arith,
  length-append src more,
  get_or-append src more 0 0,
  get_or-append src more 1 0,
  parse_fields-append src more server max_size (not (bit_and (get_or src 0 0) 0x80 == 0))
      (of_u8 (bit_and (get_or src 0 0) 0x0f)) (get_or src 1 0),
)

-- The bounds of the metadata: the header has 2 to 14 bytes, all of them there, and the length is
-- within the limit.
pub record IsBounded (src : List ℕ) (max_size : ℕ) (m : MetaData) : Type 0 where
  pub least : 2 ≤ m.idx
  pub most : m.idx ≤ 14
  pub present : m.idx ≤ length src
  pub limited : m.length ≤ max_size

parse_length_bounds :
    (src : List ℕ) (max_size second len idx : ℕ)
    → 2 ≤ length src
    → parse_length src max_size second ≡ ok (some (len, idx))
    → (2 ≤ idx) × (idx ≤ 10) × (idx ≤ length src)
unfolding parse_length
parse_length_bounds src max_size second len idx h e = ground arith

parse_mask-IsBounded :
    (src : List ℕ) (server : Bool) (max_size : ℕ) (finished : Bool) (opcode : OpCode) (len idx : ℕ)
    (m : MetaData)
    → (2 ≤ idx) × (idx ≤ 10) × (idx ≤ length src)
    → parse_mask src server max_size finished opcode (some (len, idx)) ≡ ok (some m)
    → IsBounded src max_size m
unfolding parse_mask
parse_mask-IsBounded src server max_size finished opcode len idx m h e = ground arith

parse_fields-IsBounded :
    (src : List ℕ) (server : Bool) (max_size : ℕ) (finished : Bool) (opcode : OpCode) (second : ℕ)
    (m : MetaData)
    → 2 ≤ length src
    → parse_fields src server max_size finished opcode second ≡ ok (some m)
    → IsBounded src max_size m
unfolding parse_fields
parse_fields-IsBounded src server max_size finished opcode second m h e =
    elim (Result-cases (parse_length src max_size second)) [
      | inl (none, q) ↦ unfold parse_mask in (ground arith)
      | inl (some (len, idx), q) ↦ ground (
        arith,
        parse_length_bounds src max_size second len idx h q,
        parse_mask-IsBounded src server max_size finished opcode len idx m,
      )
      | inr (x, q) ↦ ground arith
    ]

-- A header that is read has 2 to 14 bytes, all of them in the buffer, and a length within the limit.
pub parse_metadata-IsBounded :
    (src : List ℕ) (server : Bool) (max_size : ℕ) (m : MetaData)
    → parse_metadata src server max_size ≡ ok (some m)
    → IsBounded src max_size m
unfolding parse_metadata
parse_metadata-IsBounded src server max_size m e = ground (
  arith,
  parse_fields-IsBounded src server max_size (not (bit_and (get_or src 0 0) 0x80 == 0))
      (of_u8 (bit_and (get_or src 0 0) 0x0f)) (get_or src 1 0) m,
)
