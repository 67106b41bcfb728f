-- ===== src/Ws/FrameRuns.antt =====
-- Runs of the masking and of the parser and writer of frames on concrete bytes.
use actix_server_alt.Prelude.{
  ◌↔◌, ℕ, ◌+◌, ◌≤◌, ◌<◌, ◌^◌, ◌≡◌, ◌≢◌, refl, Bool, true, false, not, Option, none, some, List, [],
  ◌∷◌, ◌++◌, map, ap, arith, length, Result, ok, err, All, Poll, ready, pending,
}
use actix_server_alt.Prelude.Bytes.{IsByte}
use actix_server_alt.Prelude.Utf8.{is_utf8}
use actix_server_alt.Ws.Proto.{
  OpCode, CloseCode, CloseReason, ProtocolError, unmasked_frame, masked_frame, invalid_length,
  invalid_opcode, overflow, continuation_not_started, to_u16, of_u16,
}
use actix_server_alt.Ws.Mask.{Mask, Layout, apply_mask, apply_mask_fallback}
use actix_server_alt.Ws.Mask.Words.{IsMask}
use actix_server_alt.Ws.Mask.Equivalence.{apply_mask-fallback, apply_mask_twice}
use actix_server_alt.Ws.Frame.{
  MetaData, Frame, parse_metadata, parse, parse_close_payload, close_payload, write_message,
}
use actix_server_alt.Ws.Frame.Metadata.{IsBounded, parse_metadata-IsBounded}
use actix_server_alt.Ws.Frame.Parse.{parse-append}
use actix_server_alt.Ws.Frame.RoundTrip.{IsSendable, frame_of, parse-write_message}
use actix_server_alt.Ws.Frame.Close.{IsReason, normal_reason, parse_close_payload-close_payload}

abbrev pub key : Mask
key = record { b0 = 0x37; b1 = 0xfa; b2 = 0x21; b3 = 0x3d }

pub key_IsMask : IsMask key
key_IsMask = ground arith

abbrev pub little : Layout
little = record { big_endian = false; prefix_len = 1; word_count = 1 }

abbrev pub big : Layout
big = record { big_endian = true; prefix_len = 2; word_count = 5 }

-- "hello" in a text frame, masked by the key as in RFC 6455.
abbrev pub hello : List ℕ
hello = 72 ∷ 101 ∷ 108 ∷ 108 ∷ 111 ∷ []

abbrev pub hello_frame : List ℕ
hello_frame = 0x81 ∷ 0x85 ∷ 0x37 ∷ 0xfa ∷ 0x21 ∷ 0x3d ∷ 0x7f ∷ 0x9f ∷ 0x4d ∷ 0x51 ∷ 0x58 ∷ []

masked_hello : write_message little key [] hello OpCode.text true true ≡ hello_frame
unfolding write_message actix_server_alt.Ws.Frame.header actix_server_alt.Ws.Proto.to_u8 apply_mask
    actix_server_alt.Ws.Mask.apply_mask_fast32 apply_mask_fallback
    actix_server_alt.Ws.Mask.fallback_from actix_server_alt.Ws.Mask.xor_words
    actix_server_alt.Ws.Mask.to_ne_bytes actix_server_alt.Ws.Mask.from_ne_bytes
    actix_server_alt.Ws.Mask.rotated_mask actix_server_alt.Ws.Mask.rotate_right
masked_hello = refl

parsed_hello :
    parse big (hello_frame ++ 1 ∷ []) true 1024
    ≡ (1 ∷ [], ok (some (frame_of OpCode.text true hello)))
unfolding parse parse_metadata actix_server_alt.Ws.Proto.of_u8
    actix_server_alt.Ws.Frame.parse_fields actix_server_alt.Ws.Frame.parse_length
    actix_server_alt.Ws.Frame.parse_mask actix_server_alt.Ws.Frame.parse_payload
    actix_server_alt.Ws.Frame.deliver apply_mask actix_server_alt.Ws.Mask.apply_mask_fast32
    apply_mask_fallback actix_server_alt.Ws.Mask.fallback_from actix_server_alt.Ws.Mask.xor_words
    actix_server_alt.Ws.Mask.to_ne_bytes actix_server_alt.Ws.Mask.rotated_mask
    actix_server_alt.Ws.Mask.rotate_left actix_server_alt.Ws.Mask.from_ne_bytes
parsed_hello = refl

-- The frames of the tests in http-ws/src/frame.rs.
parsed_short :
    (parse big (1 ∷ 1 ∷ []) false 1024 ≡ (1 ∷ 1 ∷ [], ok none))
    × (parse big (1 ∷ 1 ∷ 49 ∷ []) false 1024
        ≡ ([], ok (some (frame_of OpCode.text false (49 ∷ [])))))
    × (parse big (1 ∷ 0 ∷ []) false 1024 ≡ ([], ok (some (frame_of OpCode.text false []))))
    × (parse big (1 ∷ 126 ∷ 0 ∷ 4 ∷ 49 ∷ 50 ∷ 51 ∷ 52 ∷ []) false 1024
        ≡ ([], ok (some (frame_of OpCode.text false (49 ∷ 50 ∷ 51 ∷ 52 ∷ [])))))
    × ((parse big (1 ∷ 0x81 ∷ 0 ∷ 0 ∷ 0 ∷ 1 ∷ 1 ∷ []) false 1024).1 ≡ err masked_frame)
    × ((parse big (1 ∷ 2 ∷ 49 ∷ 50 ∷ []) false 1).1 ≡ err overflow)
    × ((parse big (1 ∷ 1 ∷ []) true 1024).1 ≡ err unmasked_frame)
unfolding parse parse_metadata actix_server_alt.Ws.Proto.of_u8
    actix_server_alt.Ws.Frame.parse_fields actix_server_alt.Ws.Frame.parse_length
    actix_server_alt.Ws.Frame.parse_mask actix_server_alt.Ws.Frame.parse_payload
    actix_server_alt.Ws.Frame.deliver actix_server_alt.Prelude.Bytes.from_be_bytes
parsed_short = (refl, refl, refl, refl, refl, refl, refl)

pub hello-IsSendable : (op : OpCode) → op ≢ OpCode.bad → (n : ℕ) → 5 ≤ n → IsSendable op hello n
hello-IsSendable op known n h = record {
  known = known;
  bytes = ground arith;
  short = λ e. ground arith;
  limited = omega arith;
}

text_IsSendable : IsSendable OpCode.text hello 1024
text_IsSendable = hello-IsSendable OpCode.text (λ e. cc) 1024 (omega arith)

usize_fits : 1024 + 14 < 2 ^ 64
usize_fits = ground arith

parse-write_message_example :
    parse big (write_message little key [] hello OpCode.text true true ++ 1 ∷ []) true 1024
    ≡ (1 ∷ [], ok (some (frame_of OpCode.text true hello)))
parse-write_message_example =
    parse-write_message little big key OpCode.text true true hello (1 ∷ []) 1024 usize_fits
      key_IsMask text_IsSendable

hello_read : parse big hello_frame true 1024 ≡ ([], ok (some (frame_of OpCode.text true hello)))
unfolding parse parse_metadata actix_server_alt.Ws.Proto.of_u8
    actix_server_alt.Ws.Frame.parse_fields actix_server_alt.Ws.Frame.parse_length
    actix_server_alt.Ws.Frame.parse_mask actix_server_alt.Ws.Frame.parse_payload
    actix_server_alt.Ws.Frame.deliver apply_mask actix_server_alt.Ws.Mask.apply_mask_fast32
    apply_mask_fallback actix_server_alt.Ws.Mask.fallback_from actix_server_alt.Ws.Mask.xor_words
    actix_server_alt.Ws.Mask.to_ne_bytes actix_server_alt.Ws.Mask.rotated_mask
    actix_server_alt.Ws.Mask.rotate_left actix_server_alt.Ws.Mask.from_ne_bytes
hello_read = refl

hello_answered : (parse big hello_frame true 1024).1 ≢ ok none
hello_answered e = let read = hello_read in cc

parse-append_example :
    parse big (hello_frame ++ 1 ∷ []) true 1024
    ≡ ((parse big hello_frame true 1024).0 ++ 1 ∷ [], (parse big hello_frame true 1024).1)
parse-append_example = parse-append big hello_frame (1 ∷ []) true 1024 usize_fits hello_answered

abbrev hello_meta : MetaData
hello_meta = record { idx = 6; finished = true; opcode = OpCode.text; length = 5; mask = some key }

hello_parsed : parse_metadata hello_frame true 1024 ≡ ok (some hello_meta)
unfolding parse_metadata actix_server_alt.Ws.Proto.of_u8 actix_server_alt.Ws.Frame.parse_fields
    actix_server_alt.Ws.Frame.parse_length actix_server_alt.Ws.Frame.parse_mask
hello_parsed = refl

parse_metadata-IsBounded_example : IsBounded hello_frame 1024 hello_meta
parse_metadata-IsBounded_example =
    parse_metadata-IsBounded hello_frame true 1024 hello_meta hello_parsed

hello_bytes : All IsByte hello
hello_bytes = ground arith

apply_mask-fallback_example : apply_mask big hello key ≡ apply_mask_fallback hello key
apply_mask-fallback_example = apply_mask-fallback big hello key hello_bytes key_IsMask

apply_mask_twice_example : apply_mask little (apply_mask big hello key) key ≡ hello
apply_mask_twice_example = apply_mask_twice little big hello key hello_bytes key_IsMask

abbrev too_big : CloseReason
too_big = record { code = CloseCode.other 1009; description = some hello }

too_big-IsReason : IsReason too_big
unfolding to_u16 is_utf8
too_big-IsReason = record { code_fits = ground arith; utf8 = refl; bytes = hello_bytes }

parse_close_payload-close_payload_example :
    parse_close_payload (close_payload (some too_big)) ≡ some (normal_reason too_big)
parse_close_payload-close_payload_example =
    parse_close_payload-close_payload too_big too_big-IsReason
