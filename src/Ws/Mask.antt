-- ===== src/Ws/Mask.antt =====
-- http-ws/src/mask.rs. A `u32` is a number below 2 ^ 32.
pub mod Words
pub mod Equivalence
use actix_server_alt.Prelude.{
  ℕ, suc, ◌+◌, ◌-◌, ◌*◌, ◌/◌, ◌%◌, ◌^◌, bit_xor, Bool, List, [], ◌∷◌, ◌++◌, length, take, drop,
  get_or, min, ltb, if◌then◌else◌,
}

-- `[u8; 4]`
pub record Mask : Type 0 where
  pub b0 : ℕ
  pub b1 : ℕ
  pub b2 : ℕ
  pub b3 : ℕ

abbrev pub to_list : Mask → List ℕ
to_list m = m.b0 ∷ m.b1 ∷ m.b2 ∷ m.b3 ∷ []

-- `TryFrom::try_from` of a slice of four bytes
abbrev pub of_list : List ℕ → Mask
of_list bs = record {
  b0 = get_or bs 0 0;
  b1 = get_or bs 1 0;
  b2 = get_or bs 2 0;
  b3 = get_or bs 3 0;
}

-- What the machine and the allocator decide: the byte order, and where `align_to_mut::<u32>` finds
-- the words of a slice: `prefix_len` bytes go before them, and at most `word_count` words are taken,
-- as many as fit.
pub record Layout : Type 0 where
  pub big_endian : Bool
  pub prefix_len : ℕ
  pub word_count : ℕ

-- `enumerate` counts from `i`; the mask's byte is `mask[i & 3]`, and `i & 3` is `i % 4`.
unfoldable pub fallback_from : ℕ → Mask → List ℕ → List ℕ
fallback_from i mask [] = []
fallback_from i mask (byte ∷ buf) =
    bit_xor byte (get_or (to_list mask) (i % 4) 0) ∷ fallback_from (i + 1) mask buf

unfoldable pub apply_mask_fallback : List ℕ → Mask → List ℕ
apply_mask_fallback buf mask = fallback_from 0 mask buf

-- `u32::from_ne_bytes` and `to_ne_bytes`
unfoldable pub from_ne_bytes : Bool → Mask → ℕ
from_ne_bytes big_endian m =
    if big_endian
    then ((m.b0 * 256 + m.b1) * 256 + m.b2) * 256 + m.b3
    else ((m.b3 * 256 + m.b2) * 256 + m.b1) * 256 + m.b0

unfoldable pub to_ne_bytes : Bool → ℕ → Mask
to_ne_bytes big_endian w =
    if big_endian
    then (record {
      b0 = w / 2 ^ 24 % 256;
      b1 = w / 2 ^ 16 % 256;
      b2 = w / 2 ^ 8 % 256;
      b3 = w % 256;
    })
    else (record {
      b0 = w % 256;
      b1 = w / 2 ^ 8 % 256;
      b2 = w / 2 ^ 16 % 256;
      b3 = w / 2 ^ 24 % 256;
    })

-- `u32::rotate_right` and `rotate_left`, for `k` below 32
unfoldable pub rotate_right : ℕ → ℕ → ℕ
rotate_right w k = w / 2 ^ k + w % 2 ^ k * 2 ^ (32 - k)

unfoldable pub rotate_left : ℕ → ℕ → ℕ
rotate_left w k = w * 2 ^ k % 2 ^ 32 + w / 2 ^ (32 - k)

-- `for word in words.iter_mut() { *word ^= mask_u32 }`, over `n` words in memory
unfoldable pub xor_words : Bool → ℕ → ℕ → List ℕ → List ℕ
xor_words big_endian mask_u32 (suc n) (a ∷ b ∷ c ∷ d ∷ rest) =
    to_list (
      to_ne_bytes big_endian
        (bit_xor (from_ne_bytes big_endian (record { b0 = a; b1 = b; b2 = c; b3 = d })) mask_u32))
    ++ xor_words big_endian mask_u32 n rest
xor_words big_endian mask_u32 n words = words

unfoldable pub rotated_mask : Bool → ℕ → ℕ → ℕ
rotated_mask big_endian head mask_u32 =
    if ltb 0 head
    then (if big_endian then rotate_left mask_u32 (8 * head) else rotate_right mask_u32 (8 * head))
    else mask_u32

unfoldable pub apply_mask_fast32 : Layout → List ℕ → Mask → List ℕ
apply_mask_fast32 l buf mask =
    let prefix = take l.prefix_len buf in
    let aligned = drop l.prefix_len buf in
    let count = min l.word_count (length aligned / 4) in
    let words = take (4 * count) aligned in
    let suffix = drop (4 * count) aligned in
    let head = length prefix % 4 in
    let mask_u32 = rotated_mask l.big_endian head (from_ne_bytes l.big_endian mask) in
    apply_mask_fallback prefix mask
    ++ (xor_words l.big_endian mask_u32 count words
        ++ apply_mask_fallback suffix (to_ne_bytes l.big_endian mask_u32))

unfoldable pub apply_mask : Layout → List ℕ → Mask → List ℕ
apply_mask l buf mask = apply_mask_fast32 l buf mask
