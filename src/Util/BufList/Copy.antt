-- ===== src/Util/BufList/Copy.antt =====
-- `copy_to_bytes` of actix-http-alt/src/util/buf_list.rs.
use actix_server_alt.Prelude.{
  ℕ, zero, suc, ◌-◌, ◌≤◌, ◌<◌, ◌≡◌, refl, ap, ap₂, sym, ◌∙◌, false, Option, some, List, [], ◌∷◌,
  ◌++◌, arith, length, take, drop, take-append, drop-append, drop_all, take_split, drop-drop,
  length-append, length-drop, length-take, ltb, ◌==◌, Bool-cases, inl, inr,
}
use actix_server_alt.Util.Buf.{Buf}
use actix_server_alt.Util.BufList.{
  BufList, wrapping_sub, chunk, advance, put_take, copy_front, copy_to_bytes,
}
use actix_server_alt.Util.BufList.Bytes.{bytes_of, IsValid, advance-Holds}
use actix_server_alt.Util.BufList.Read.{chunk_lem}

prefix_take :
    (n : ℕ) (c all : List ℕ) → take (length c) all ≡ c → take (length (take n c)) all ≡ take n c
prefix_take zero c all h = refl
prefix_take (suc n) [] all h = refl
prefix_take (suc n) (x ∷ c) [] h = absurd (let e = h in cc)
prefix_take (suc n) (x ∷ c) (y ∷ all) h =
    let first : y ≡ x = cc in
    let others : take (length c) all ≡ c = cc in ap₂ ◌∷◌ first (prefix_take n c all others)

module _ {B : Type 0} (ops : Buf B) where
  abbrev pub Copied : Option (List ℕ × BufList B) → BufList B → ℕ → Type 0
  Copied r l len =
      (rest : BufList B) × (r ≡ some (take len (bytes_of ops l.bufs), rest))
      × (bytes_of ops rest.bufs ≡ drop len (bytes_of ops l.bufs))
      × IsValid ops rest

  one_round :
      (fuel : ℕ) (l rest : BufList B) (len : ℕ) (part : List ℕ)
      → part ≡ take (suc len) (chunk ops l)
      → length part ≤ suc len
      → take (length part) (bytes_of ops l.bufs) ≡ part
      → advance ops l (length part) ≡ some rest
      → bytes_of ops rest.bufs ≡ drop (length part) (bytes_of ops l.bufs)
      → Copied (put_take ops fuel rest (suc len - length part)) rest (suc len - length part)
      → Copied (put_take ops (suc fuel) l (suc len)) l (suc len)
  unfolding put_take
  one_round fuel l rest len part p short front q bytes (rest', q', bytes', v) = (
    rest',
    rw (sym p) (
        rw q (
          rw q' (
            ap (λ (t : List ℕ). some (t, rest'))
              (ap (λ (t : List ℕ). part ++ take (suc len - length part) t) bytes
                ∙ ap
                    (λ (t : List ℕ).
                      t ++ take (suc len - length part) (drop (length part) (bytes_of ops l.bufs)))
                    (sym front)
                ∙ take_split (length part) (suc len) (bytes_of ops l.bufs) short)))),
    bytes'
        ∙ ap (λ (t : List ℕ). drop (suc len - length part) t) bytes
        ∙ drop-drop (length part) (suc len) (bytes_of ops l.bufs) short,
    v,
  )

  put_take-Copied :
      (fuel : ℕ) (l : BufList B) (len : ℕ)
      → IsValid ops l
      → len ≤ l.remaining
      → len ≤ fuel
      → Copied (put_take ops fuel l len) l len
  unfolding put_take
  put_take-Copied fuel l zero v h f = (l, refl, refl, v)
  put_take-Copied zero l (suc len) v h f = absurd (omega arith)
  put_take-Copied (suc fuel) l (suc len) v h f =
      let all = bytes_of ops l.bufs in
      let (front, some_bytes, inside) = chunk_lem ops l v in
      let part = take (suc len) (chunk ops l) in
      let size = length-take (suc len) (chunk ops l) in
      let (rest, q, bytes, v') =
        (advance-Holds ops l (length part) v).0 (omega (arith, size, inside)) in
      let left = ap length bytes in
      let left' = length-drop (length part) all in
      one_round fuel l rest len part refl (omega (arith, size))
        (prefix_take (suc len) (chunk ops l) all front) q bytes
        (put_take-Copied fuel rest (suc len - length part) v'
          (omega (arith, v.counted, v'.counted, left, left')) (omega (arith, size, some_bytes)))

  copy_whole :
      (front : B) (bufs : List B) (r len : ℕ)
      → let l : BufList B = record { bufs = front ∷ bufs; remaining = r } in
        IsValid ops l
        → len ≡ ops.remaining front
        → Copied
            (some (
              (ops.copy_to_bytes front len).0,
              record { bufs = bufs; remaining = wrapping_sub r len },
            ))
            l
            len
  unfolding bytes_of wrapping_sub
  copy_whole front bufs r len v e =
      let size = ops.remaining_view front in
      let (taken, left) = ops.copy_view front len (omega arith) in
      let total = length-append (ops.view front) (bytes_of ops bufs) in
      (
        record { bufs = bufs; remaining = wrapping_sub r len },
        ap (λ (t : List ℕ). some (t, record { bufs = bufs; remaining = wrapping_sub r len }))
            (taken
              ∙ sym (take-append len (ops.view front) (bytes_of ops bufs) (omega (arith, size)))),
        sym (drop_all len (ops.view front) (bytes_of ops bufs) (e ∙ size)),
        record {
          counted = omega (arith, v.counted, v.fits, size, total);
          full = v.full.1;
          fits = omega arith;
        },
      )

  copy_part :
      (front : B) (bufs : List B) (r len : ℕ)
      → let l : BufList B = record { bufs = front ∷ bufs; remaining = r } in
        IsValid ops l
        → len < ops.remaining front
        → Copied
            (some (
              (ops.copy_to_bytes front len).0,
              record {
                bufs = (ops.copy_to_bytes front len).1 ∷ bufs;
                remaining = wrapping_sub r len;
              },
            ))
            l
            len
  unfolding bytes_of wrapping_sub
  copy_part front bufs r len v h =
      let size = ops.remaining_view front in
      let (taken, left) = ops.copy_view front len (omega arith) in
      let rest = (ops.copy_to_bytes front len).1 in
      let total = length-append (ops.view front) (bytes_of ops bufs) in
      let total' = length-append (ops.view rest) (bytes_of ops bufs) in
      let left_len = ap length left in
      let drop_len = length-drop len (ops.view front) in
      (
        record { bufs = rest ∷ bufs; remaining = wrapping_sub r len },
        ap (λ (t : List ℕ). some (t, record { bufs = rest ∷ bufs; remaining = wrapping_sub r len }))
            (taken
              ∙ sym (take-append len (ops.view front) (bytes_of ops bufs) (omega (arith, size)))),
        ap (λ (t : List ℕ). t ++ bytes_of ops bufs) left
            ∙ sym (drop-append len (ops.view front) (bytes_of ops bufs) (omega (arith, size))),
        record {
          counted = omega (arith, v.counted, v.fits, size, total, total', left_len, drop_len);
          full = (omega (arith, ops.remaining_view rest, size, left_len, drop_len), v.full.1);
          fits = omega arith;
        },
      )

  copy_any :
      (bufs : List B) (r len : ℕ)
      → let l : BufList B = record { bufs = bufs; remaining = r } in
        IsValid ops l → len ≤ r → Copied (copy_to_bytes ops l len) l len
  unfolding copy_to_bytes copy_front
  copy_any [] r len v h =
      let within : ltb r len ≡ false = ground arith in
      rw within (put_take-Copied len (record { bufs = []; remaining = r }) len v h (omega arith))
  copy_any (front ∷ bufs) r len v h =
      let within : ltb r len ≡ false = ground arith in
      elim (Bool-cases (ops.remaining front == len)) [
        | inl whole ↦ rw whole (copy_whole front bufs r len v (ground arith))
        | inr other ↦ elim (Bool-cases (ltb len (ops.remaining front))) [
          | inl part ↦ rw (other, part) (copy_part front bufs r len v (ground arith))
          | inr beyond ↦
              rw (other, beyond, within)
                (put_take-Copied len (record { bufs = front ∷ bufs; remaining = r }) len v h
                  (omega arith))
        ]
      ]

  -- `copy_to_bytes` hands out the first bytes and leaves the others, which way it ever takes.
  pub copy_to_bytes-Copied :
      (l : BufList B) (len : ℕ)
      → IsValid ops l
      → len ≤ l.remaining
      → Copied (copy_to_bytes ops l len) l len
  copy_to_bytes-Copied l len v h = copy_any l.bufs l.remaining len v h
