-- ===== src/Util/BufList/Bytes.antt =====
-- actix-http-alt/src/util/buf_list.rs against the list of its bytes.
use actix_server_alt.Prelude.{
  ℕ, zero, suc, ◌+◌, ◌-◌, ◌%◌, ◌^◌, ◌≤◌, ◌<◌, ◌≡◌, refl, ap, sym, ◌∙◌, false, Option, none, some,
  List, [], ◌∷◌, ◌++◌, append-nil, append_assoc, arith, length, drop, drop-append, drop_past,
  length-append, length-drop, ltb, All, All-append, Bool-cases, inl, inr,
}
use actix_server_alt.Util.Buf.{Buf}
use actix_server_alt.Util.BufList.{BufList, wrapping_sub, push, advance_bufs, advance}

module _ {B : Type 0} (ops : Buf B) where
  -- The bytes of the buffers, one behind the other.
  unfoldable pub bytes_of : List B → List ℕ
  bytes_of [] = []
  bytes_of (buf ∷ bufs) = ops.view buf ++ bytes_of bufs

  abbrev pub HasBytes : B → Type 0
  HasBytes buf = 0 < ops.remaining buf

  -- The count is right and no buffer is empty.
  pub record IsValid (l : BufList B) : Type 0 where
    pub counted : l.remaining ≡ length (bytes_of l.bufs)
    pub full : All HasBytes l.bufs
    pub fits : l.remaining < 2 ^ 64

  pub bytes_of-append : (xs ys : List B) → bytes_of (xs ++ ys) ≡ bytes_of xs ++ bytes_of ys
  unfolding bytes_of
  bytes_of-append [] ys = refl
  bytes_of-append (x ∷ xs) ys =
      ap (λ (t : List ℕ). ops.view x ++ t) (bytes_of-append xs ys)
      ∙ sym (append_assoc (ops.view x) (bytes_of xs) (bytes_of ys))

  -- `push` adds its bytes behind the others and keeps the list valid, while the count fits `usize`.
  pub push-IsValid :
      (l : BufList B) (buf : B)
      → IsValid l
      → HasBytes buf
      → l.remaining + ops.remaining buf < 2 ^ 64
      → IsValid (push ops l buf)
        × (bytes_of (push ops l buf).bufs ≡ bytes_of l.bufs ++ ops.view buf)
  unfolding push bytes_of
  push-IsValid l buf v some_bytes fits =
      let whole : (l.remaining + ops.remaining buf) % 2 ^ 64 ≡ l.remaining + ops.remaining buf =
        omega (arith, fits) in
      let added : bytes_of (l.bufs ++ buf ∷ []) ≡ bytes_of l.bufs ++ ops.view buf =
        bytes_of-append l.bufs (buf ∷ [])
        ∙ ap (λ (t : List ℕ). bytes_of l.bufs ++ t) (append-nil (ops.view buf)) in
      (
        record {
          counted = omega (
            arith,
            whole,
            v.counted,
            ops.remaining_view buf,
            ap length added,
            length-append (bytes_of l.bufs) (ops.view buf),
          );
          full = All-append HasBytes l.bufs (buf ∷ []) v.full (some_bytes, tt);
          fits = omega (arith, whole, fits);
        },
        added,
      )

  -- The buffers that are left hold the bytes that are left, and none of them is empty.
  abbrev pub Leaves : Option (List B) → List ℕ → Type 0
  Leaves r bytes = (bufs : List B) × (r ≡ some bufs) × (bytes_of bufs ≡ bytes) × All HasBytes bufs

  advance_bufs-Leaves :
      (bufs : List B) (cnt : ℕ)
      → All HasBytes bufs
      → cnt ≤ length (bytes_of bufs)
      → Leaves (advance_bufs ops bufs cnt) (drop cnt (bytes_of bufs))
  unfolding advance_bufs bytes_of
  advance_bufs-Leaves bufs zero full h = (bufs, refl, refl, full)
  advance_bufs-Leaves [] (suc cnt) full h = absurd (omega arith)
  advance_bufs-Leaves (front ∷ bufs) (suc cnt) full h =
      let size = ops.remaining_view front in
      let split = length-append (ops.view front) (bytes_of bufs) in
      elim (Bool-cases (ltb (suc cnt) (ops.remaining front))) [
        | inl part ↦
            let viewed = ops.advance_view front (suc cnt) (ground arith) in
            (
              ops.advance front (suc cnt) ∷ bufs,
              rw part,
              ap (λ (t : List ℕ). t ++ bytes_of bufs) viewed
                  ∙ sym (
                      drop-append (suc cnt) (ops.view front) (bytes_of bufs)
                        (ground (arith, size))),
              (
                ground (
                  arith,
                  size,
                  ops.remaining_view (ops.advance front (suc cnt)),
                  ap length viewed,
                  length-drop (suc cnt) (ops.view front),
                ),
                full.1,
              ),
            )
        | inr whole ↦
            let (rest, q, bytes, full') =
              advance_bufs-Leaves bufs (suc cnt - ops.remaining front) full.1
                (omega (arith, size, split)) in
            (
              rest,
              rw whole q,
              bytes
                  ∙ ap (λ (t : ℕ). drop (suc cnt - t) (bytes_of bufs)) size
                  ∙ sym
                      (drop_past (suc cnt) (ops.view front) (bytes_of bufs) (ground (arith, size))),
              full',
            )
      ]

  advance_bufs_past :
      (bufs : List B) (cnt : ℕ) → length (bytes_of bufs) < cnt → advance_bufs ops bufs cnt ≡ none
  unfolding advance_bufs bytes_of
  advance_bufs_past bufs zero h = absurd (omega arith)
  advance_bufs_past [] (suc cnt) h = refl
  advance_bufs_past (front ∷ bufs) (suc cnt) h =
      let size = ops.remaining_view front in
      let split = length-append (ops.view front) (bytes_of bufs) in
      let whole : ltb (suc cnt) (ops.remaining front) ≡ false = ground (arith, size, split) in
      rw whole (advance_bufs_past bufs (suc cnt - ops.remaining front) (omega (arith, size, split)))

  abbrev pub Holds : Option (BufList B) → List ℕ → Type 0
  Holds r bytes = (l : BufList B) × (r ≡ some l) × (bytes_of l.bufs ≡ bytes) × IsValid l

  -- `advance` takes the first bytes off and keeps the list valid; past the end it panics.
  pub advance-Holds :
      (l : BufList B) (cnt : ℕ)
      → IsValid l
      → (cnt ≤ l.remaining → Holds (advance ops l cnt) (drop cnt (bytes_of l.bufs)))
        × (l.remaining < cnt → advance ops l cnt ≡ none)
  unfolding advance wrapping_sub
  advance-Holds l cnt v = (within, beyond)
    where
      within : cnt ≤ l.remaining → Holds (advance ops l cnt) (drop cnt (bytes_of l.bufs))
      within h =
          let (bufs, q, bytes, full) =
            advance_bufs-Leaves l.bufs cnt v.full (omega (arith, v.counted)) in
          (
            record { bufs = bufs; remaining = wrapping_sub l.remaining cnt },
            rw q,
            bytes,
            record {
              counted =
                  unfold wrapping_sub in
                  (omega
                    (arith, v.counted, v.fits, ap length bytes, length-drop cnt (bytes_of l.bufs)));
              full = full;
              fits = unfold wrapping_sub in (omega arith);
            },
          )

      beyond : l.remaining < cnt → advance ops l cnt ≡ none
      beyond h = rw (advance_bufs_past l.bufs cnt (omega (arith, v.counted)))
