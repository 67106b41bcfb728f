-- ===== src/Ws/Frame.antt =====
-- http-ws/src/frame.rs. Bytes are numbers below 256, a `BytesMut` is the list of its bytes, and
-- `usize` has 64 bits. A call that changes its buffer returns the new buffer with its result.
pub mod Metadata
pub mod Parse
pub mod Write
pub mod RoundTrip
pub mod Close
use actix_server_alt.Prelude.{
  ℕ, ◌+◌, ◌-◌, ◌%◌, ◌^◌, bit_and, bit_or, Bool, true, false, not, ◌&&◌, Option, none, some, List,
  [], ◌∷◌, ◌++◌, length, take, drop, get_or, ltb, leb, ◌==◌, if◌then◌else◌, Result, ok, err, ◌>>=◌,
}
use actix_server_alt.Prelude.Bytes.{from_be_bytes, to_be_bytes}
use actix_server_alt.Prelude.Utf8.{from_utf8_lossy}
use actix_server_alt.Ws.Proto.{
  OpCode, close, ping, pong, bad, to_u8, of_u8, CloseReason, to_u16, of_u16, ProtocolError,
  unmasked_frame, masked_frame, overflow, invalid_opcode, invalid_length,
}
use actix_server_alt.Ws.Mask.{Mask, Layout, of_list, to_list, apply_mask}

-- `MetaData`
pub record MetaData : Type 0 where
  pub idx : ℕ
  pub finished : Bool
  pub opcode : OpCode
  pub length : ℕ
  pub mask : Option Mask

-- What `parse` hands out: `(bool, OpCode, Option<BytesMut>)`.
pub record Frame : Type 0 where
  pub finished : Bool
  pub opcode : OpCode
  pub payload : Option (List ℕ)

abbrev pub usize_mod : ℕ
usize_mod = 2 ^ 64

abbrev pub is_bad : OpCode → Bool
is_bad bad = true
is_bad _ = false

-- The length field: `(length, idx)`, or `None` where the field is not there yet.
unfoldable pub parse_length : List ℕ → ℕ → ℕ → Result ProtocolError (Option (ℕ × ℕ))
parse_length src max_size second =
    let len = bit_and second 0x7f in
    if len == 126
    then (if ltb (length src) 4
        then ok none
        else ok (some (from_be_bytes (take 2 (drop 2 src)), 4)))
    else if len == 127
    then (if ltb (length src) 10
        then ok none
        else let wide = from_be_bytes (take 8 (drop 2 src)) in
          if ltb max_size wide then err overflow else ok (some (wide, 10)))
    else ok (some (len, 2))

-- The check against `max_size`, and the mask of a frame that a server reads.
unfoldable pub parse_mask :
    List ℕ → Bool → ℕ → Bool → OpCode → Option (ℕ × ℕ) → Result ProtocolError (Option MetaData)
parse_mask src server max_size finished opcode none = ok none
parse_mask src server max_size finished opcode (some (len, idx)) =
    if ltb max_size len
    then err overflow
    else if server
    then (if ltb (length src) (idx + 4)
        then ok none
        else ok (
            some (record {
              idx = idx + 4;
              finished = finished;
              opcode = opcode;
              length = len;
              mask = some (of_list (take 4 (drop idx src)));
            })))
    else ok (
        some
          (record { idx = idx; finished = finished; opcode = opcode; length = len; mask = none }))

-- The fields behind the first two bytes.
unfoldable pub parse_fields :
    List ℕ → Bool → ℕ → Bool → OpCode → ℕ → Result ProtocolError (Option MetaData)
parse_fields src server max_size finished opcode second =
    parse_length src max_size second >>= parse_mask src server max_size finished opcode

-- `Parser::parse_metadata`
unfoldable pub parse_metadata : List ℕ → Bool → ℕ → Result ProtocolError (Option MetaData)
parse_metadata src server max_size =
    let first = get_or src 0 0 in
    let second = get_or src 1 0 in
    let finished = not (bit_and first 0x80 == 0) in
    let masked = not (bit_and second 0x80 == 0) in
    let opcode = of_u8 (bit_and first 0x0f) in
    if ltb (length src) 2
    then ok none
    else if not masked && server
    then err unmasked_frame
    else if masked && not server
    then err masked_frame
    else if is_bad opcode
    then err (invalid_opcode (bit_and first 0x0f))
    else parse_fields src server max_size finished opcode second

abbrev pub unmask : Layout → Option Mask → List ℕ → List ℕ
unmask l none payload = payload
unmask l (some mask) payload = apply_mask l payload mask

-- `match opcode` of `Parser::parse`: what becomes of the payload that was split off.
unfoldable pub deliver : Layout → MetaData → List ℕ → Result ProtocolError Frame
deliver l m payload =
    let whole : Frame = record {
      finished = m.finished;
      opcode = m.opcode;
      payload = some (unmask l m.mask payload);
    } in
    elim m.opcode [
      | ping ↦ if ltb 125 m.length then err (invalid_length m.length) else ok whole
      | pong ↦ if ltb 125 m.length then err (invalid_length m.length) else ok whole
      | close ↦
          if ltb 125 m.length
          then ok (record { finished = true; opcode = close; payload = none })
          else ok whole
      | _ ↦ ok whole
    ]

-- `Parser::parse` behind the metadata. The sum of `idx` and `length` wraps as a `usize` does.
unfoldable pub parse_payload :
    Layout → List ℕ → MetaData → List ℕ × Result ProtocolError (Option Frame)
parse_payload l src m =
    if ltb (length src) ((m.idx + m.length) % usize_mod)
    then (src, ok none)
    else let rest = drop m.idx src in
      if m.length == 0
      then (rest, ok (some (record { finished = m.finished; opcode = m.opcode; payload = none })))
      else (drop m.length rest, (deliver l m (take m.length rest) >>= λ frame. ok (some frame)))

-- `Parser::parse`: the buffer that is left, and the frame.
unfoldable pub parse : Layout → List ℕ → Bool → ℕ → List ℕ × Result ProtocolError (Option Frame)
parse l src server max_size = elim (parse_metadata src server max_size) [
  | err e ↦ (src, err e)
  | ok none ↦ (src, ok none)
  | ok (some m) ↦ parse_payload l src m
]

-- `Parser::parse_close_payload`
unfoldable pub parse_close_payload : List ℕ → Option CloseReason
parse_close_payload payload =
    if leb 2 (length payload)
    then some (record {
      code = of_u16 (from_be_bytes (take 2 payload));
      description =
          if ltb 2 (length payload) then some (from_utf8_lossy (drop 2 payload)) else none;
    })
    else none

-- The header of `Parser::write_message`, up to the length field. The casts to `u8`, `u16` and `u64`
-- stand under the tests that make them harmless.
unfoldable pub header : ℕ → OpCode → Bool → Bool → List ℕ
header payload_len op fin mask =
    let one = if fin then bit_or 0x80 (to_u8 op) else to_u8 op in
    let two = if mask then 0x80 else 0 in
    if ltb payload_len 126
    then one ∷ bit_or two (payload_len % 256) ∷ []
    else if leb payload_len 65535
    then one ∷ bit_or two 126 ∷ to_be_bytes 2 (payload_len % 65536)
    else one ∷ bit_or two 127 ∷ to_be_bytes 8 (payload_len % 2 ^ 64)

-- `Parser::write_message`; `key` is the mask that `rand::random` draws.
unfoldable pub write_message : Layout → Mask → List ℕ → List ℕ → OpCode → Bool → Bool → List ℕ
write_message l key dst payload op fin mask =
    let headed = dst ++ header (length payload) op fin mask in
    let masked = headed ++ (to_list key ++ payload) in
    let pos = length masked - length payload in
    if mask then take pos masked ++ apply_mask l (drop pos masked) key else headed ++ payload

unfoldable pub close_payload : Option CloseReason → List ℕ
close_payload none = []
close_payload (some reason) =
    to_be_bytes 2 (to_u16 reason.code)
    ++ elim reason.description [ none ↦ [] | some description ↦ description ]

-- `Parser::write_close`
unfoldable pub write_close : Layout → Mask → List ℕ → Option CloseReason → Bool → List ℕ
write_close l key dst reason mask = write_message l key dst (close_payload reason) close true mask
