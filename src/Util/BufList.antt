-- ===== src/Util/BufList.antt =====
-- actix-http-alt/src/util/buf_list.rs. A `VecDeque` is a list; `none` is a panic.
pub mod Bytes
pub mod Read
pub mod Copy
use actix_server_alt.Prelude.{
  ℕ, zero, suc, ◌+◌, ◌-◌, ◌%◌, ◌^◌, Bool, true, false, Option, none, some, List, [], ◌∷◌, ◌++◌,
  length, take, drop, min, ltb, ◌==◌, if◌then◌else◌, and_then,
}
use actix_server_alt.Util.Buf.{Buf}

pub record BufList (B : Type 0) : Type 0 where
  pub bufs : List B
  pub remaining : ℕ

-- `self.remaining -= cnt` on a `usize`
unfoldable pub wrapping_sub : ℕ → ℕ → ℕ
wrapping_sub n cnt = (n + 2 ^ 64 - cnt) % 2 ^ 64

module _ {B : Type 0} (ops : Buf B) where
  -- `BufList::new` and `push`
  unfoldable pub new : BufList B
  new = record { bufs = []; remaining = 0 }

  -- A release build: a debug build panics where `buf` is empty or the sum does not fit `usize`.
  unfoldable pub push : BufList B → B → BufList B
  push l buf = record {
    bufs = l.bufs ++ buf ∷ [];
    remaining = (l.remaining + ops.remaining buf) % 2 ^ 64;
  }

  unfoldable pub chunk : BufList B → List ℕ
  chunk l = elim l.bufs [ [] ↦ [] | front ∷ bufs ↦ ops.chunk front ]

  unfoldable pub vectored : List B → ℕ → List (List ℕ)
  vectored [] n = []
  vectored (buf ∷ bufs) n =
      let slices = ops.chunks_vectored buf n in
      let rest = vectored bufs (n - length slices) in
      if length slices == n then slices else slices ++ rest

  -- `chunks_vectored`; `n` is the length of `dst`.
  unfoldable pub chunks_vectored : BufList B → ℕ → List (List ℕ)
  unfolding vectored
  chunks_vectored l n = if n == 0 then [] else vectored l.bufs n

  -- The loop of `advance`. A buffer that is used up is dropped.
  unfoldable pub advance_bufs : List B → ℕ → Option (List B)
  advance_bufs bufs zero = some bufs
  advance_bufs [] (suc cnt) = none
  advance_bufs (front ∷ bufs) (suc cnt) =
      let rest = advance_bufs bufs (suc cnt - ops.remaining front) in
      if ltb (suc cnt) (ops.remaining front)
      then some (ops.advance front (suc cnt) ∷ bufs)
      else rest

  unfoldable pub advance : BufList B → ℕ → Option (BufList B)
  unfolding advance_bufs wrapping_sub
  advance l cnt =
      and_then (advance_bufs l.bufs cnt)
        (λ bufs. some (record { bufs = bufs; remaining = wrapping_sub l.remaining cnt }))

  -- `bm.put(self.take(len))`: chunk by chunk, up to `len` bytes.
  unfoldable pub put_take : ℕ → BufList B → ℕ → Option (List ℕ × BufList B)
  unfolding advance chunk
  put_take fuel l zero = some ([], l)
  put_take zero l (suc len) = none
  put_take (suc fuel) l (suc len) =
      let part = take (suc len) (chunk l) in
      and_then (advance l (length part)) (λ rest.
        and_then (put_take fuel rest (suc len - length part)) (λ r. some (part ++ r.0, r.1)))

  unfoldable pub copy_front : BufList B → B → List B → ℕ → Option (List ℕ × BufList B)
  unfolding put_take wrapping_sub
  copy_front l front bufs len =
      if ops.remaining front == len
      then some (
        (ops.copy_to_bytes front len).0,
        record { bufs = bufs; remaining = wrapping_sub l.remaining len },
      )
      else if ltb len (ops.remaining front)
      then some (
        (ops.copy_to_bytes front len).0,
        record {
          bufs = (ops.copy_to_bytes front len).1 ∷ bufs;
          remaining = wrapping_sub l.remaining len;
        },
      )
      else if ltb l.remaining len
      then none
      else put_take len l len

  -- `copy_to_bytes`
  unfoldable pub copy_to_bytes : BufList B → ℕ → Option (List ℕ × BufList B)
  unfolding copy_front
  copy_to_bytes l len = elim l.bufs [
    | [] ↦ if ltb l.remaining len then none else put_take len l len
    | front ∷ bufs ↦ copy_front l front bufs len
  ]
