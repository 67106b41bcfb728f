-- ===== src/Ws/Frame/Write.antt =====
-- `Parser::write_message` of http-ws/src/frame.rs: the bytes that it appends, and how
-- `parse_metadata` reads them.
use actix_server_alt.Prelude.{
  ℕ, ◌+◌, ◌-◌, ◌%◌, ◌^◌, ◌≤◌, ◌<◌, ◌≡◌, ◌≢◌, refl, ap, ap₂, sym, ◌∙◌, bit_and, bit_or, Bool, true,
  false, not, Option, some, List, ◌∷◌, ◌++◌, append_assoc, arith, length, take, drop, length-append,
  take_all, drop_all, ltb, leb, ◌==◌, if◌then◌else◌, ok, Bool-cases, inl, inr,
}
use actix_server_alt.Prelude.Bits.{bit_and-0x80, bit_and-0x7f, bit_or-0x80, bit_or_zero}
use actix_server_alt.Prelude.Bytes.{to_be_bytes, length-to_be_bytes, from_be_bytes-to_be_bytes}
use actix_server_alt.Ws.Proto.{OpCode, continue, text, binary, close, ping, pong, bad, to_u8, of_u8}
use actix_server_alt.Ws.Mask.{Mask, Layout, to_list, apply_mask}
use actix_server_alt.Ws.Frame.{
  parse_length, parse_mask, parse_fields, parse_metadata, header, write_message,
}

-- What stands behind the header.
abbrev pub body : Layout → Mask → List ℕ → Bool → List ℕ
body l key payload true = to_list key ++ apply_mask l payload key
body l key payload false = payload

-- The message is appended: header, mask, masked payload.
pub write_message_lem :
    (l : Layout) (key : Mask) (dst payload : List ℕ) (op : OpCode) (fin mask : Bool)
    → write_message l key dst payload op fin mask
      ≡ dst ++ (header (length payload) op fin mask ++ body l key payload mask)
unfolding write_message
write_message_lem l key dst payload op fin false = append_assoc dst _ payload
write_message_lem l key dst payload op fin true =
    let headed = dst ++ header (length payload) op fin true in
    let front = headed ++ to_list key in
    let masked = headed ++ (to_list key ++ payload) in
    let pos = length masked - length payload in
    let regroup : masked ≡ front ++ payload = sym (append_assoc headed (to_list key) payload) in
    let at_front : pos ≡ length front =
      omega (arith, ap length regroup, length-append front payload) in
    ap₂ (λ (x y : List ℕ). x ++ apply_mask l y key)
      (ap (take pos) regroup ∙ take_all pos front payload at_front)
      (ap (drop pos) regroup ∙ drop_all pos front payload at_front)
    ∙ append_assoc headed (to_list key) (apply_mask l payload key)
    ∙ append_assoc dst (header (length payload) op fin true) (body l key payload true)

first_byte :
    (op : OpCode) (fin : Bool)
    → op ≢ bad
    → let one = if fin then bit_or 0x80 (to_u8 op) else to_u8 op in
      (not (bit_and one 0x80 == 0) ≡ fin) × (of_u8 (bit_and one 0x0f) ≡ op)
unfolding to_u8 of_u8
first_byte continue true h = (refl, refl)
first_byte continue false h = (refl, refl)
first_byte text true h = (refl, refl)
first_byte text false h = (refl, refl)
first_byte binary true h = (refl, refl)
first_byte binary false h = (refl, refl)
first_byte close true h = (refl, refl)
first_byte close false h = (refl, refl)
first_byte ping true h = (refl, refl)
first_byte ping false h = (refl, refl)
first_byte pong true h = (refl, refl)
first_byte pong false h = (refl, refl)
first_byte bad fin h = absurd (h refl)

second_byte :
    (n : ℕ) (mask : Bool)
    → n < 128
    → let two = bit_or (if mask then 0x80 else 0) n in
      (not (bit_and two 0x80 == 0) ≡ mask) × (bit_and two 0x7f ≡ n)
second_byte n true h = ground (arith, bit_or-0x80 n, bit_and-0x80 (n + 128), bit_and-0x7f (n + 128))
second_byte n false h = ground (arith, bit_or_zero n, bit_and-0x80 n, bit_and-0x7f n)

abbrev pub header_len : ℕ → ℕ
header_len n = if ltb n 126 then 2 else if leb n 65535 then 4 else 10

pub length-header :
    (n : ℕ) (op : OpCode) (fin mask : Bool) → length (header n op fin mask) ≡ header_len n
unfolding header
length-header n op fin mask =
    ground (arith, length-to_be_bytes 2 (n % 65536), length-to_be_bytes 8 (n % 2 ^ 64))

-- The first two bytes pass the checks, and the fields behind them are read.
metadata_checked :
    (op : OpCode) (fin mask : Bool) (one two max_size : ℕ) (field : List ℕ)
    → op ≢ bad
    → (not (bit_and one 0x80 == 0) ≡ fin) × (of_u8 (bit_and one 0x0f) ≡ op)
    → not (bit_and two 0x80 == 0) ≡ mask
    → parse_metadata (one ∷ two ∷ field) mask max_size
      ≡ parse_fields (one ∷ two ∷ field) mask max_size fin op two
unfolding parse_metadata
metadata_checked op fin mask one two max_size field h k e = ground arith

-- The length field of a header is read back.
length_field :
    (n max_size one two : ℕ) (tail : List ℕ)
    → n < 2 ^ 64
    → n ≤ max_size
    → (n < 126
        → bit_and two 0x7f ≡ n
        → parse_length (one ∷ two ∷ tail) max_size two ≡ ok (some (n, 2)))
      × (bit_and two 0x7f ≡ 126
          → n ≤ 65535
          → parse_length (one ∷ two ∷ (to_be_bytes 2 (n % 65536) ++ tail)) max_size two
            ≡ ok (some (n, 4)))
      × (bit_and two 0x7f ≡ 127
          → parse_length (one ∷ two ∷ (to_be_bytes 8 (n % 2 ^ 64) ++ tail)) max_size two
            ≡ ok (some (n, 10)))
unfolding parse_length
length_field n max_size one two tail h le = (
  λ small e. ground arith,
  λ e small. ground (
    arith,
    length-append (to_be_bytes 2 (n % 65536)) tail,
    length-to_be_bytes 2 (n % 65536),
    take_all 2 (to_be_bytes 2 (n % 65536)) tail,
    from_be_bytes-to_be_bytes 2 (n % 65536),
  ),
  λ e. ground (
    arith,
    length-append (to_be_bytes 8 (n % 2 ^ 64)) tail,
    length-to_be_bytes 8 (n % 2 ^ 64),
    take_all 8 (to_be_bytes 8 (n % 2 ^ 64)) tail,
    from_be_bytes-to_be_bytes 8 (n % 2 ^ 64),
  ),
)

fields_read :
    (op : OpCode) (fin mask : Bool) (two max_size : ℕ) (src : List ℕ) {r : Option (ℕ × ℕ)}
    → parse_length src max_size two ≡ ok r
    → parse_fields src mask max_size fin op two ≡ parse_mask src mask max_size fin op r
unfolding parse_fields
fields_read op fin mask two max_size src e = rw e

-- `parse_metadata` reads a header as it was written, and goes on behind it.
pub parse_metadata-header :
    (n : ℕ) (op : OpCode) (fin mask : Bool) (max_size : ℕ) (tail : List ℕ)
    → op ≢ bad
    → n < 2 ^ 64
    → n ≤ max_size
    → parse_metadata (header n op fin mask ++ tail) mask max_size
      ≡ parse_mask (header n op fin mask ++ tail) mask max_size fin op (some (n, header_len n))
unfolding header
parse_metadata-header n op fin mask max_size tail h big le =
    let one = if fin then bit_or 0x80 (to_u8 op) else to_u8 op in
    let top : ℕ = if mask then 0x80 else 0 in
    let first = first_byte op fin h in
    let read =
      λ (two : ℕ) (field : List ℕ) (r : Option (ℕ × ℕ)) (e : not (bit_and two 0x80 == 0) ≡ mask)
          (q : parse_length (one ∷ two ∷ field) max_size two ≡ ok r).
        metadata_checked op fin mask one two max_size field h first e
        ∙ fields_read op fin mask two max_size (one ∷ two ∷ field) q in
    let written = λ (two : ℕ). length_field n max_size one two tail big le in
    elim (Bool-cases (ltb n 126)) [
      | inl small ↦
          let whole : n % 256 ≡ n = ground arith in
          let second = second_byte n mask (ground arith) in
          let two = bit_or top n in
          rw (small, whole) (read two tail _ second.0 ((written two).0 (ground arith) second.1))
      | inr large ↦ elim (Bool-cases (leb n 65535)) [
        | inl medium ↦
            let second = second_byte 126 mask (omega arith) in
            let two = bit_or top 126 in
            rw (large, medium) (read two _ _ second.0 ((written two).1 second.1 (ground arith)))
        | inr huge ↦
            let second = second_byte 127 mask (omega arith) in
            let two = bit_or top 127 in
            rw (large, huge) (read two _ _ second.0 ((written two).2 second.1))
      ]
    ]
