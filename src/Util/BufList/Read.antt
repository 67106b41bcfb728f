-- ===== src/Util/BufList/Read.antt =====
-- The methods of actix-http-alt/src/util/buf_list.rs that read the buffers.
use mathlib.Core.List.{flatten}
use actix_server_alt.Prelude.{
  ℕ, ◌-◌, ◌≤◌, ◌<◌, ◌≡◌, refl, ap, sym, ◌∙◌, List, [], ◌∷◌, ◌++◌, append-nil, append_assoc, arith,
  length, take, take-append, length-append, length-take, ◌==◌, All, Bool-cases, inl, inr,
}
use actix_server_alt.Util.Buf.{Buf}
use actix_server_alt.Util.BufList.{BufList, chunk, vectored}
use actix_server_alt.Util.BufList.Bytes.{bytes_of, HasBytes, IsValid}

flatten-append : (xs ys : List (List ℕ)) → flatten (xs ++ ys) ≡ flatten xs ++ flatten ys
unfolding flatten
flatten-append [] ys = refl
flatten-append (x ∷ xs) ys =
    ap (λ (t : List ℕ). x ++ t) (flatten-append xs ys)
    ∙ sym (append_assoc x (flatten xs) (flatten ys))

module _ {B : Type 0} (ops : Buf B) where
  -- The first chunk is a front part of the bytes, and it is not empty while there are any. So a
  -- loop that takes chunk after chunk gets on.
  pub chunk_lem :
      (l : BufList B)
      → IsValid ops l
      → (take (length (chunk ops l)) (bytes_of ops l.bufs) ≡ chunk ops l)
        × (0 < l.remaining → 0 < length (chunk ops l))
        × (length (chunk ops l) ≤ l.remaining)
  unfolding chunk bytes_of
  chunk_lem l v =
      elim l.bufs
          as (λ bufs.
            (l.remaining ≡ length (bytes_of ops bufs))
            → All (HasBytes ops) bufs
            → let c = chunk ops (record { bufs = bufs; remaining = l.remaining }) in
              (take (length c) (bytes_of ops bufs) ≡ c)
              × (0 < l.remaining → 0 < length c)
              × (length c ≤ l.remaining)) [
                | [] ↦ λ e full. (refl, λ h. omega arith, omega arith)
                | front ∷ bufs ↦ λ e full.
                    let c = ops.chunk front in
                    let inside : length c ≤ length (ops.view front) = omega (
                      arith,
                      length-take (length c) (ops.view front),
                      ap length (ops.chunk_front front),
                    ) in
                    (
                      take-append (length c) (ops.view front) (bytes_of ops bufs) inside
                          ∙ ops.chunk_front front,
                      λ h. ops.chunk_some front full.0,
                      omega (arith, length-append (ops.view front) (bytes_of ops bufs), inside),
                    )
              ]
        v.counted v.full

  -- The slices for a vectored write are a front part of the bytes, no more than there are slots, and
  -- all of the bytes where a slot is left.
  pub vectored_front :
      (bufs : List B) (n : ℕ)
      → (rest : List ℕ) × (flatten (vectored ops bufs n) ++ rest ≡ bytes_of ops bufs)
        × (length (vectored ops bufs n) ≤ n)
        × (length (vectored ops bufs n) < n → rest ≡ [])
  unfolding vectored bytes_of flatten
  vectored_front [] n = ([], refl, omega arith, λ h. refl)
  vectored_front (buf ∷ bufs) n =
      let slices = ops.chunks_vectored buf n in
      let count = ops.chunks_count buf n in
      let (left, bytes, all) = ops.chunks_front buf n in
      elim (Bool-cases (length slices == n)) [
        | inl full ↦ (
          left ++ bytes_of ops bufs,
          rw full (
              sym (append_assoc (flatten slices) left (bytes_of ops bufs))
              ∙ ap (λ (t : List ℕ). t ++ bytes_of ops bufs) bytes),
          rw full count,
          rw full (λ h. absurd (ground arith)),
        )
        | inr more ↦
            let (rest, bytes', count', all') = vectored_front bufs (n - length slices) in
            let none_left : left ≡ [] = all (ground arith) in
            let whole : flatten slices ≡ ops.view buf =
              sym (append-nil (flatten slices))
              ∙ ap (λ (t : List ℕ). flatten slices ++ t) (sym none_left)
              ∙ bytes in
            let joined : flatten (slices ++ vectored ops bufs (n - length slices)) ++ rest
                ≡ ops.view buf ++ bytes_of ops bufs =
              ap (λ (t : List ℕ). t ++ rest) (flatten-append slices _)
              ∙ append_assoc (flatten slices) _ rest
              ∙ ap (λ (t : List ℕ). flatten slices ++ t) bytes'
              ∙ ap (λ (t : List ℕ). t ++ bytes_of ops bufs) whole in
            let total = length-append slices (vectored ops bufs (n - length slices)) in
            (
              rest,
              rw more joined,
              rw more (omega (arith, total)),
              rw more (λ h. all' (omega (arith, total))),
            )
      ]
