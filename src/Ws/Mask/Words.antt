-- ===== src/Ws/Mask/Words.antt =====
-- `u32` arithmetic of http-ws/src/mask.rs, byte by byte.
use actix_server_alt.Prelude.{
  ℕ, zero, suc, ◌+◌, ◌*◌, ◌^◌, ◌<◌, ◌≡◌, refl, ap₂, ◌∙◌, bit_xor, Bool, true, false, arith,
}
use actix_server_alt.Prelude.Xor.{bit_xor-lt, bit_xor_split}
use actix_server_alt.Ws.Mask.{
  Mask, from_ne_bytes, to_ne_bytes, rotate_left, rotate_right, rotated_mask,
}

pub record IsMask (m : Mask) : Type 0 where
  pub byte0 : m.b0 < 256
  pub byte1 : m.b1 < 256
  pub byte2 : m.b2 < 256
  pub byte3 : m.b3 < 256

-- The mask from its second byte on.
abbrev pub turn : Mask → Mask
turn m = record { b0 = m.b1; b1 = m.b2; b2 = m.b3; b3 = m.b0 }

pub turn-IsMask : (m : Mask) → IsMask m → IsMask (turn m)
turn-IsMask m h = omega arith

abbrev pub turns : ℕ → Mask → Mask
turns zero m = m
turns (suc n) m = turns n (turn m)

pub turns-IsMask : (n : ℕ) (m : Mask) → IsMask m → IsMask (turns n m)
turns-IsMask zero m h = h
turns-IsMask (suc n) m h = turns-IsMask n (turn m) (turn-IsMask m h)

pub Mask-eq : {m n : Mask} → m.b0 ≡ n.b0 → m.b1 ≡ n.b1 → m.b2 ≡ n.b2 → m.b3 ≡ n.b3 → m ≡ n
Mask-eq p q r s = λ i. record { b0 = p i; b1 = q i; b2 = r i; b3 = s i }

pub to_ne_bytes-from_ne_bytes :
    (big_endian : Bool) (m : Mask)
    → IsMask m
    → to_ne_bytes big_endian (from_ne_bytes big_endian m) ≡ m
unfolding to_ne_bytes from_ne_bytes
to_ne_bytes-from_ne_bytes true m h = Mask-eq (omega arith) (omega arith) (omega arith) (omega arith)
to_ne_bytes-from_ne_bytes false m h =
    Mask-eq (omega arith) (omega arith) (omega arith) (omega arith)

-- The word rotated by `head` bytes is the word of the mask turned `head` times.
pub rotated_word :
    (big_endian : Bool) (head : ℕ) (m : Mask)
    → head < 4
    → IsMask m
    → rotated_mask big_endian head (from_ne_bytes big_endian m)
      ≡ from_ne_bytes big_endian (turns head m)
unfolding rotated_mask from_ne_bytes rotate_right rotate_left
rotated_word true zero m h k = refl
rotated_word true (suc zero) m h k = omega arith
rotated_word true (suc (suc zero)) m h k = omega arith
rotated_word true (suc (suc (suc zero))) m h k = omega arith
rotated_word false zero m h k = refl
rotated_word false (suc zero) m h k = omega arith
rotated_word false (suc (suc zero)) m h k = omega arith
rotated_word false (suc (suc (suc zero))) m h k = omega arith
rotated_word big_endian (suc (suc (suc (suc n)))) m h k = absurd (omega arith)

xor_byte : (x y : ℕ) → x < 256 → y < 256 → bit_xor x y < 256
xor_byte x y p q = bit_xor-lt 8 x y p q

xor_pair :
    (x y u v : ℕ)
    → x < 256
    → u < 256
    → bit_xor (y * 256 + x) (v * 256 + u) ≡ bit_xor y v * 256 + bit_xor x u
xor_pair x y u v p q =
    let flip : (s t : ℕ) → t * 256 + s ≡ s + 2 ^ 8 * t = λ s t. omega arith in
    ap₂ bit_xor (flip x y) (flip u v) ∙ bit_xor_split 8 x y u v p q ∙ omega arith

-- Two words are combined byte by byte.
xor_quad :
    (m n : Mask)
    → IsMask m
    → IsMask n
    → bit_xor
        (((m.b3 * 256 + m.b2) * 256 + m.b1) * 256 + m.b0)
        (((n.b3 * 256 + n.b2) * 256 + n.b1) * 256 + n.b0)
      ≡ ((bit_xor m.b3 n.b3 * 256 + bit_xor m.b2 n.b2) * 256 + bit_xor m.b1 n.b1) * 256
        + bit_xor m.b0 n.b0
xor_quad m n h k = omega (
  arith,
  xor_pair m.b0 ((m.b3 * 256 + m.b2) * 256 + m.b1) n.b0 ((n.b3 * 256 + n.b2) * 256 + n.b1) h.byte0
      k.byte0,
  xor_pair m.b1 (m.b3 * 256 + m.b2) n.b1 (n.b3 * 256 + n.b2) h.byte1 k.byte1,
  xor_pair m.b2 m.b3 n.b2 n.b3 h.byte2 k.byte2,
)

abbrev backwards : Mask → Mask
backwards m = record { b0 = m.b3; b1 = m.b2; b2 = m.b1; b3 = m.b0 }

-- A word in memory combined with the word of the mask is combined byte by byte, in either order.
pub xor_word :
    (big_endian : Bool) (m n : Mask)
    → IsMask m
    → IsMask n
    → to_ne_bytes big_endian (bit_xor (from_ne_bytes big_endian m) (from_ne_bytes big_endian n))
      ≡ record {
        b0 = bit_xor m.b0 n.b0;
        b1 = bit_xor m.b1 n.b1;
        b2 = bit_xor m.b2 n.b2;
        b3 = bit_xor m.b3 n.b3;
      }
unfolding to_ne_bytes from_ne_bytes
xor_word true m n h k =
    let e = xor_quad (backwards m) (backwards n) (omega arith) (omega arith) in
    let x0 = xor_byte m.b0 n.b0 h.byte0 k.byte0 in
    let x1 = xor_byte m.b1 n.b1 h.byte1 k.byte1 in
    let x2 = xor_byte m.b2 n.b2 h.byte2 k.byte2 in
    let x3 = xor_byte m.b3 n.b3 h.byte3 k.byte3 in
    rw e (Mask-eq (omega arith) (omega arith) (omega arith) (omega arith))
xor_word false m n h k =
    let e = xor_quad m n h k in
    let x0 = xor_byte m.b0 n.b0 h.byte0 k.byte0 in
    let x1 = xor_byte m.b1 n.b1 h.byte1 k.byte1 in
    let x2 = xor_byte m.b2 n.b2 h.byte2 k.byte2 in
    let x3 = xor_byte m.b3 n.b3 h.byte3 k.byte3 in
    rw e (Mask-eq (omega arith) (omega arith) (omega arith) (omega arith))
