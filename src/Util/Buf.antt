-- ===== src/Util/Buf.antt =====
-- The trait `Buf` of the crate `bytes`, as far as the repository relies on it: a buffer stands for a
-- list of bytes, its view, and the methods say how they act on it, as their documentation does.
use mathlib.Core.List.{flatten}
use actix_server_alt.Prelude.{
  ℕ, zero, suc, ◌≤◌, ◌<◌, ◌≡◌, refl, List, [], ◌∷◌, ◌++◌, append-nil, arith, length, take, drop,
  ltb, if◌then◌else◌,
}

pub record Buf (B : Type 0) : Type 0 where
  pub view : B → List ℕ
  pub remaining : B → ℕ
  pub chunk : B → List ℕ
  pub chunks_vectored : B → ℕ → List (List ℕ)
  pub advance : B → ℕ → B
  pub copy_to_bytes : B → ℕ → List ℕ × B
  pub remaining_view : (b : B) → remaining b ≡ length (view b)
  -- A chunk is a front part of the bytes, and empty only where there are none.
  pub chunk_front : (b : B) → take (length (chunk b)) (view b) ≡ chunk b
  pub chunk_some : (b : B) → 0 < remaining b → 0 < length (chunk b)
  pub chunks_count : (b : B) (n : ℕ) → length (chunks_vectored b n) ≤ n
  -- The slices are a front part of the bytes, and all of them where a slot is left.
  pub chunks_front :
      (b : B) (n : ℕ)
      → (rest : List ℕ) × (flatten (chunks_vectored b n) ++ rest ≡ view b)
        × (length (chunks_vectored b n) < n → rest ≡ [])
  pub advance_view : (b : B) (n : ℕ) → n ≤ remaining b → view (advance b n) ≡ drop n (view b)
  pub copy_view :
      (b : B) (n : ℕ)
      → n ≤ remaining b
      → ((copy_to_bytes b n).0 ≡ take n (view b)) × (view (copy_to_bytes b n).1 ≡ drop n (view b))

unfoldable pub one_slice : List ℕ → ℕ → List (List ℕ)
one_slice bytes n = if ltb 0 n then (if ltb 0 (length bytes) then bytes ∷ [] else []) else []

pub one_slice_front :
    (bytes : List ℕ) (n : ℕ)
    → (rest : List ℕ) × (flatten (one_slice bytes n) ++ rest ≡ bytes)
      × (length (one_slice bytes n) < n → rest ≡ [])
unfolding one_slice flatten
one_slice_front [] n = ([], ground arith, λ h. refl)
one_slice_front (b ∷ bytes) zero = (b ∷ bytes, refl, λ h. absurd (omega arith))
one_slice_front (b ∷ bytes) (suc n) = ([], ground (arith, append-nil (b ∷ bytes)), λ h. refl)

pub one_slice_count : (bytes : List ℕ) (n : ℕ) → length (one_slice bytes n) ≤ n
unfolding one_slice
one_slice_count bytes n = ground arith

pub take_whole : (bytes : List ℕ) → take (length bytes) bytes ≡ bytes
take_whole [] = refl
take_whole (b ∷ bytes) = rw (take_whole bytes)

-- A slice of bytes, and so are `Bytes` and `BytesMut`.
unfoldable pub bytes_Buf : Buf (List ℕ)
unfolding one_slice
bytes_Buf = record {
  view = λ b. b;
  remaining = length;
  chunk = λ b. b;
  chunks_vectored = one_slice;
  advance = λ b n. drop n b;
  copy_to_bytes = λ b n. (take n b, drop n b);
  remaining_view = λ b. refl;
  chunk_front = take_whole;
  chunk_some = λ b h. h;
  chunks_count = one_slice_count;
  chunks_front = one_slice_front;
  advance_view = λ b n h. refl;
  copy_view = λ b n h. (refl, refl);
}
