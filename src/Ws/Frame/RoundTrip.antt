-- ===== src/Ws/Frame/RoundTrip.antt =====
-- `Parser::parse` reads what `Parser::write_message` wrote (http-ws/src/frame.rs).
use actix_server_alt.Prelude.{
  ℕ, ◌+◌, ◌^◌, ◌≤◌, ◌<◌, ◌≡◌, ◌≢◌, refl, ap, sym, ◌∙◌, Bool, true, false, Option, none, some, List,
  [], ◌∷◌, ◌++◌, append_assoc, arith, length, length-append, take_all, drop_all, ◌==◌,
  if◌then◌else◌, ok, ◌>>=◌, All,
}
use actix_server_alt.Prelude.Bytes.{IsByte}
use actix_server_alt.Ws.Proto.{OpCode, close, ping, pong, bad}
use actix_server_alt.Ws.Mask.{Mask, Layout, to_list, apply_mask}
use actix_server_alt.Ws.Mask.Words.{IsMask}
use actix_server_alt.Ws.Mask.Equivalence.{length-apply_mask, apply_mask_twice}
use actix_server_alt.Ws.Frame.{
  MetaData, Frame, parse_mask, parse_metadata, unmask, deliver, parse_payload, parse, header,
  write_message,
}
use actix_server_alt.Ws.Frame.Parse.{FitsUsize}
use actix_server_alt.Ws.Frame.Write.{
  body, header_len, length-header, write_message_lem, parse_metadata-header,
}

abbrev pub is_control : OpCode → Bool
is_control close = true
is_control ping = true
is_control pong = true
is_control _ = false

-- What a peer with the limit `max_size` can read: a known op code, at most 125 bytes in a control
-- frame, and no more than the limit.
pub record IsSendable (op : OpCode) (payload : List ℕ) (max_size : ℕ) : Type 0 where
  pub known : op ≢ bad
  pub bytes : All IsByte payload
  pub short : is_control op ≡ true → length payload ≤ 125
  pub limited : length payload ≤ max_size

-- The payload as `parse` hands it out: none where it is empty.
abbrev pub non_empty : List ℕ → Option (List ℕ)
non_empty [] = none
non_empty (b ∷ bs) = some (b ∷ bs)

-- The metadata of a written message, as the peer reads it.
abbrev written : Mask → OpCode → Bool → Bool → ℕ → ℕ → MetaData
written key op fin mask len idx = record {
  idx = idx + (if mask then 4 else 0);
  finished = fin;
  opcode = op;
  length = len;
  mask = if mask then some key else none;
}

mask_read :
    (l : Layout) (key : Mask) (op : OpCode) (fin mask : Bool) (front payload rest : List ℕ)
    (idx max_size : ℕ)
    → length front ≡ idx
    → length payload ≤ max_size
    → parse_mask
        (front ++ (body l key payload mask ++ rest))
        mask
        max_size
        fin
        op
        (some (length payload, idx))
      ≡ ok (some (written key op fin mask (length payload) idx))
unfolding parse_mask
mask_read l key op fin false front payload rest idx max_size e le = ground arith
mask_read l key op fin true front payload rest idx max_size e le =
    let cipher = apply_mask l payload key in
    ground (
      arith,
      length-append front (body l key payload true ++ rest),
      drop_all idx front (body l key payload true ++ rest),
    )

-- The payload is cut out behind the header, and the rest stays.
payload_read :
    (k : Layout) (m : MetaData) (front cipher rest : List ℕ)
    → m.idx ≡ length front
    → m.length ≡ length cipher
    → m.idx + m.length < 2 ^ 64
    → parse_payload k (front ++ (cipher ++ rest)) m ≡ (
        if m.length == 0
        then (rest, ok (some (record { finished = m.finished; opcode = m.opcode; payload = none })))
        else (rest, (deliver k m cipher >>= λ frame. ok (some frame))))
unfolding parse_payload
payload_read k m front cipher rest e q b = ground (
  arith,
  length-append front (cipher ++ rest),
  length-append cipher rest,
  drop_all m.idx front (cipher ++ rest),
  drop_all m.length cipher rest,
  take_all m.length cipher rest,
)

-- A payload that is not too long for its kind of frame is handed out unmasked.
deliver_lem :
    (k : Layout) (m : MetaData) (cipher : List ℕ)
    → (is_control m.opcode ≡ true → m.length ≤ 125)
    → deliver k m cipher
      ≡ ok (record {
        finished = m.finished;
        opcode = m.opcode;
        payload = some (unmask k m.mask cipher);
      })
unfolding deliver
deliver_lem k m cipher short = ground arith

-- The frame as the peer gets it.
abbrev pub frame_of : OpCode → Bool → List ℕ → Frame
frame_of op fin payload = record { finished = fin; opcode = op; payload = non_empty payload }

-- Behind the metadata, a cipher text that unmasks to the payload gives the frame.
frame_read :
    (k : Layout) (m : MetaData) (front cipher payload rest : List ℕ)
    → m.idx ≡ length front
    → m.length ≡ length cipher
    → length cipher ≡ length payload
    → m.idx + m.length < 2 ^ 64
    → (is_control m.opcode ≡ true → m.length ≤ 125)
    → unmask k m.mask cipher ≡ payload
    → parse_payload k (front ++ (cipher ++ rest)) m
      ≡ (rest, ok (some (frame_of m.opcode m.finished payload)))
frame_read k m front cipher [] rest e q len b short plain =
    ground (arith, payload_read k m front cipher rest e q b)
frame_read k m front cipher (x ∷ xs) rest e q len b short plain =
    ground (arith, payload_read k m front cipher rest e q b, deliver_lem k m cipher short)

payload_after :
    (l k : Layout) (key : Mask) (op : OpCode) (fin mask : Bool) (payload rest : List ℕ)
    (max_size : ℕ)
    → FitsUsize max_size
    → IsMask key
    → IsSendable op payload max_size
    → parse_payload k
        (header (length payload) op fin mask ++ (body l key payload mask ++ rest))
        (written key op fin mask (length payload) (header_len (length payload)))
      ≡ (rest, ok (some (frame_of op fin payload)))
payload_after l k key op fin false payload rest max_size f b s =
    let front = header (length payload) op fin false in
    let front_len = length-header (length payload) op fin false in
    frame_read k (written key op fin false (length payload) (header_len (length payload))) front
      payload payload rest (omega (arith, front_len)) refl refl (ground arith) s.short refl
payload_after l k key op fin true payload rest max_size f b s =
    let front = header (length payload) op fin true in
    let front_len = length-header (length payload) op fin true in
    let cipher = apply_mask l payload key in
    let cipher_len = length-apply_mask l payload key s.bytes b in
    let m = written key op fin true (length payload) (header_len (length payload)) in
    ap (λ (t : List ℕ). parse_payload k t m)
      (sym (append_assoc front (to_list key) (cipher ++ rest)))
    ∙ frame_read k m (front ++ to_list key) cipher payload rest
        (omega (arith, front_len, length-append front (to_list key))) (sym cipher_len) cipher_len
        (ground arith) s.short (apply_mask_twice k l payload key s.bytes b)

-- A frame that one side writes is the frame that the other side reads, with any bytes behind it
-- left in the buffer: for every op code but the bad ones, with and without a mask, at every length
-- of the payload up to 125 bytes for a control frame and up to the reader's `max_size` for any. The
-- reader expects a mask exactly if the writer masks; an empty payload is read as none; `max_size` +
-- 14 is below 2 ^ 64, and the mask is of bytes.
pub parse-write_message :
    (l k : Layout) (key : Mask) (op : OpCode) (fin mask : Bool) (payload rest : List ℕ)
    (max_size : ℕ)
    → FitsUsize max_size
    → IsMask key
    → IsSendable op payload max_size
    → parse k (write_message l key [] payload op fin mask ++ rest) mask max_size
      ≡ (rest, ok (some (frame_of op fin payload)))
unfolding parse
parse-write_message l k key op fin mask payload rest max_size f b s =
    let front = header (length payload) op fin mask in
    let src = front ++ (body l key payload mask ++ rest) in
    let m = written key op fin mask (length payload) (header_len (length payload)) in
    let meta : parse_metadata src mask max_size ≡ ok (some m) =
      parse_metadata-header (length payload) op fin mask max_size (body l key payload mask ++ rest)
        s.known (omega arith) s.limited
      ∙ mask_read l key op fin mask front payload rest (header_len (length payload)) max_size
          (length-header (length payload) op fin mask) s.limited in
    ap (λ (t : List ℕ). parse k t mask max_size)
      (ap (λ (t : List ℕ). t ++ rest) (write_message_lem l key [] payload op fin mask)
        ∙ append_assoc front (body l key payload mask) rest)
    ∙ rw (meta, parse) (payload_after l k key op fin mask payload rest max_size f b s)
