-- ===== src/Ws/Mask/Equivalence.antt =====
-- The fast masking of http-ws/src/mask.rs against the plain one, and masking twice.
use actix_server_alt.Prelude.{
  ℕ, zero, suc, ◌+◌, ◌*◌, ◌%◌, ◌≤◌, ◌<◌, ◌≡◌, refl, sym, ap, ap₂, ◌∙◌, bit_xor, Bool, List, [], ◌∷◌,
  ◌++◌, arith, length, take, drop, get_or, All, All-drop, take-append-drop,
}
use native.Mathlib.Nat.{add-zero}
use actix_server_alt.Prelude.Bytes.{IsByte}
use actix_server_alt.Prelude.Xor.{bit_xor-lt, bit_xor_twice}
use actix_server_alt.Ws.Mask.{
  Mask, Layout, to_list, fallback_from, apply_mask_fallback, from_ne_bytes, xor_words,
  apply_mask_fast32, apply_mask,
}
use actix_server_alt.Ws.Mask.Words.{
  IsMask, turn, turns, turns-IsMask, to_ne_bytes-from_ne_bytes, rotated_word, xor_word,
}

-- The mask's byte for position `i`.
mask_at : Mask → ℕ → ℕ
mask_at m i = get_or (to_list m) (i % 4) 0

turn_at :
    (m : Mask) (r : ℕ) → r < 4 → get_or (to_list (turn m)) r 0 ≡ get_or (to_list m) ((r + 1) % 4) 0
turn_at m zero h = refl
turn_at m (suc zero) h = refl
turn_at m (suc (suc zero)) h = refl
turn_at m (suc (suc (suc zero))) h = refl
turn_at m (suc (suc (suc (suc r)))) h = absurd (omega arith)

at-turn :
    (m : Mask) (i : ℕ) → get_or (to_list m) ((i + 1) % 4) 0 ≡ get_or (to_list (turn m)) (i % 4) 0
at-turn m i =
    ap (λ (t : ℕ). get_or (to_list m) t 0)
      (let e : (i + 1) % 4 ≡ (i % 4 + 1) % 4 = omega arith in e)
    ∙ sym (turn_at m (i % 4) (omega arith))

fallback_from-suc :
    (i : ℕ) (m : Mask) (buf : List ℕ) → fallback_from (i + 1) m buf ≡ fallback_from i (turn m) buf
unfolding fallback_from
fallback_from-suc i m [] = refl
fallback_from-suc i m (b ∷ buf) =
    ap₂ ◌∷◌ (ap (bit_xor b) (at-turn m i)) (fallback_from-suc (i + 1) m buf)

fallback_from-turns :
    (n : ℕ) (m : Mask) (buf : List ℕ) → fallback_from n m buf ≡ apply_mask_fallback buf (turns n m)
unfolding apply_mask_fallback
fallback_from-turns zero m buf = refl
fallback_from-turns (suc n) m buf =
    ap (λ (t : ℕ). fallback_from t m buf) (let e : suc n ≡ n + 1 = omega arith in e)
    ∙ fallback_from-suc n m buf
    ∙ fallback_from-turns n (turn m) buf

-- Only the position modulo 4 matters.
fallback_from-mod :
    (i j : ℕ) (m : Mask) (buf : List ℕ)
    → i % 4 ≡ j % 4
    → fallback_from i m buf ≡ fallback_from j m buf
unfolding fallback_from
fallback_from-mod i j m [] e = refl
fallback_from-mod i j m (b ∷ buf) e =
    ap₂ ◌∷◌ (ap (λ (t : ℕ). bit_xor b (get_or (to_list m) t 0)) e)
      (fallback_from-mod (i + 1) (j + 1) m buf (omega arith))

fallback_from-append :
    (i : ℕ) (m : Mask) (xs ys : List ℕ)
    → fallback_from i m (xs ++ ys) ≡ fallback_from i m xs ++ fallback_from (i + length xs) m ys
unfolding fallback_from
fallback_from-append i m [] ys = ap (λ (t : ℕ). fallback_from t m ys) (sym (add-zero i))
fallback_from-append i m (x ∷ xs) ys = ap (◌∷◌ (bit_xor x (get_or (to_list m) (i % 4) 0))) (
    fallback_from-append (i + 1) m xs ys
    ∙ ap (λ (t : ℕ). fallback_from (i + 1) m xs ++ fallback_from t m ys)
        (let e : i + 1 + length xs ≡ i + suc (length xs) = omega arith in e))

-- Whole words combined with the mask's word are the bytes combined with the mask's bytes.
xor_words-fallback :
    (big_endian : Bool) (m : Mask) (n : ℕ) (buf : List ℕ)
    → IsMask m
    → All IsByte buf
    → 4 * n ≤ length buf
    → xor_words big_endian (from_ne_bytes big_endian m) n (take (4 * n) buf)
        ++ apply_mask_fallback (drop (4 * n) buf) m
      ≡ apply_mask_fallback buf m
unfolding xor_words apply_mask_fallback fallback_from
xor_words-fallback big_endian m zero buf h bs le = refl
xor_words-fallback big_endian m (suc n) (a ∷ b ∷ c ∷ d ∷ buf) h bs le =
    let four : 4 * suc n ≡ suc (suc (suc (suc (4 * n)))) = omega arith in
    let word : IsMask (record { b0 = a; b1 = b; b2 = c; b3 = d }) = omega arith in
    rw (four, xor_word big_endian _ m word h)
      (ap (λ (t : List ℕ). bit_xor a m.b0 ∷ bit_xor b m.b1 ∷ bit_xor c m.b2 ∷ bit_xor d m.b3 ∷ t)
        (xor_words-fallback big_endian m n buf h bs.1.1.1.1 (omega arith)
          ∙ fallback_from-mod 0 4 m buf refl))
xor_words-fallback big_endian m (suc n) [] h bs le = absurd (omega arith)
xor_words-fallback big_endian m (suc n) (a ∷ []) h bs le = absurd (omega arith)
xor_words-fallback big_endian m (suc n) (a ∷ b ∷ []) h bs le = absurd (omega arith)
xor_words-fallback big_endian m (suc n) (a ∷ b ∷ c ∷ []) h bs le = absurd (omega arith)

-- Behind a prefix the plain masking goes on with the turned mask.
fallback_split :
    (m : Mask) (xs ys : List ℕ)
    → apply_mask_fallback (xs ++ ys) m
      ≡ apply_mask_fallback xs m ++ apply_mask_fallback ys (turns (length xs % 4) m)
fallback_split m xs ys =
    unfold apply_mask_fallback in
    (fallback_from-append 0 m xs ys)
    ∙ ap (λ (t : List ℕ). apply_mask_fallback xs m ++ t)
        (fallback_from-mod (0 + length xs) (length xs % 4) m ys (omega arith)
          ∙ fallback_from-turns (length xs % 4) m ys)

-- The fast masking gives what the plain one gives, whatever the byte order of the machine and
-- wherever the words of the buffer lie.
pub apply_mask-fallback :
    (l : Layout) (buf : List ℕ) (m : Mask)
    → All IsByte buf
    → IsMask m
    → apply_mask l buf m ≡ apply_mask_fallback buf m
unfolding apply_mask apply_mask_fast32
apply_mask-fallback l buf m bs h =
    let prefix = take l.prefix_len buf in
    let aligned = drop l.prefix_len buf in
    let head = length prefix % 4 in
    let turned = turns head m in
    let fine = turns-IsMask head m h in
    rw
      (
        rotated_word l.big_endian head m (omega arith) h,
        to_ne_bytes-from_ne_bytes l.big_endian turned fine,
      )
      (ap (λ (t : List ℕ). apply_mask_fallback prefix m ++ t)
          (xor_words-fallback l.big_endian turned _ aligned fine
            (All-drop IsByte l.prefix_len buf bs) (omega arith))
        ∙ sym (fallback_split m prefix aligned)
        ∙ ap (λ (t : List ℕ). apply_mask_fallback t m) (take-append-drop l.prefix_len buf))

at-IsByte : (m : Mask) (i : ℕ) → IsMask m → get_or (to_list m) i 0 < 256
at-IsByte m zero h = h.byte0
at-IsByte m (suc zero) h = h.byte1
at-IsByte m (suc (suc zero)) h = h.byte2
at-IsByte m (suc (suc (suc zero))) h = h.byte3
at-IsByte m (suc (suc (suc (suc i)))) h = omega arith

fallback_from-IsByte :
    (i : ℕ) (m : Mask) (buf : List ℕ)
    → All IsByte buf
    → IsMask m
    → All IsByte (fallback_from i m buf)
unfolding fallback_from
fallback_from-IsByte i m [] bs h = tt
fallback_from-IsByte i m (b ∷ buf) bs h =
    (bit_xor-lt 8 b _ bs.0 (at-IsByte m (i % 4) h), fallback_from-IsByte (i + 1) m buf bs.1 h)

fallback_from_twice :
    (i : ℕ) (m : Mask) (buf : List ℕ)
    → All IsByte buf
    → IsMask m
    → fallback_from i m (fallback_from i m buf) ≡ buf
unfolding fallback_from
fallback_from_twice i m [] bs h = refl
fallback_from_twice i m (b ∷ buf) bs h =
    ap₂ ◌∷◌ (bit_xor_twice 8 b _ bs.0 (at-IsByte m (i % 4) h))
      (fallback_from_twice (i + 1) m buf bs.1 h)

length-fallback_from :
    (i : ℕ) (m : Mask) (buf : List ℕ) → length (fallback_from i m buf) ≡ length buf
unfolding fallback_from
length-fallback_from i m [] = refl
length-fallback_from i m (b ∷ buf) = ap suc (length-fallback_from (i + 1) m buf)

pub apply_mask-IsByte :
    (l : Layout) (buf : List ℕ) (m : Mask)
    → All IsByte buf
    → IsMask m
    → All IsByte (apply_mask l buf m)
unfolding apply_mask_fallback
apply_mask-IsByte l buf m bs h =
    rw (apply_mask-fallback l buf m bs h) (fallback_from-IsByte 0 m buf bs h)

pub length-apply_mask :
    (l : Layout) (buf : List ℕ) (m : Mask)
    → All IsByte buf
    → IsMask m
    → length (apply_mask l buf m) ≡ length buf
unfolding apply_mask_fallback
length-apply_mask l buf m bs h =
    ap length (apply_mask-fallback l buf m bs h) ∙ length-fallback_from 0 m buf

-- Masking twice by one mask restores the buffer, also where the two buffers lie apart.
pub apply_mask_twice :
    (l k : Layout) (buf : List ℕ) (m : Mask)
    → All IsByte buf
    → IsMask m
    → apply_mask l (apply_mask k buf m) m ≡ buf
unfolding apply_mask_fallback
apply_mask_twice l k buf m bs h =
    apply_mask-fallback l (apply_mask k buf m) m (apply_mask-IsByte k buf m bs h) h
    ∙ ap (λ (t : List ℕ). apply_mask_fallback t m) (apply_mask-fallback k buf m bs h)
    ∙ fallback_from_twice 0 m buf bs h
