-- ===== src/Util/Runs.antt =====
-- The list of the tests of actix-http-alt/src/util/buf_list.rs, "Hello", " " and "World", and a timer
-- of actix-http-alt/src/util/keep_alive.rs.
use actix_server_alt.Prelude.{
  ℕ, ◌+◌, ◌≤◌, ◌<◌, ◌^◌, ◌≡◌, refl, none, some, ◌↔◌, true, leb, ready, pending, List, [], ◌∷◌, ◌++◌,
  arith, drop,
}
use actix_server_alt.Util.KeepAlive.{new, update, reset, is_expired, poll}
use actix_server_alt.Util.KeepAlive.Deadline.{IsAhead, Expires, poll-Expires}
use actix_server_alt.Util.Buf.{bytes_Buf}
use actix_server_alt.Util.BufList.{BufList, advance, copy_to_bytes}
use actix_server_alt.Util.BufList.Bytes.{bytes_of, IsValid, Holds, advance-Holds}

abbrev hello : List ℕ
hello = 72 ∷ 101 ∷ 108 ∷ 108 ∷ 111 ∷ []

abbrev world : List ℕ
world = 87 ∷ 111 ∷ 114 ∷ 108 ∷ 100 ∷ []

abbrev hello_world_buf : BufList (List ℕ)
hello_world_buf = record { bufs = hello ∷ (32 ∷ []) ∷ world ∷ []; remaining = 11 }

hello_world_IsValid : IsValid bytes_Buf hello_world_buf
unfolding bytes_Buf bytes_of
hello_world_IsValid = record { counted = refl; full = ground arith; fits = ground arith }

hello-some : 0 < bytes_Buf.remaining hello
unfolding bytes_Buf
hello-some = ground arith

hello_fits : hello_world_buf.remaining + bytes_Buf.remaining hello < 2 ^ 64
unfolding bytes_Buf
hello_fits = ground arith

-- `to_bytes_longer` and `buf_to_bytes_too_many`
to_bytes_longer :
    (copy_to_bytes bytes_Buf hello_world_buf 7
      ≡ some (hello ++ 32 ∷ 87 ∷ [], record { bufs = drop 1 world ∷ []; remaining = 4 }))
    × (copy_to_bytes bytes_Buf hello_world_buf 42 ≡ none)
unfolding copy_to_bytes bytes_Buf
to_bytes_longer = (refl, refl)

advance-Holds_example :
    (6 ≤ 11
      → Holds bytes_Buf
          (advance bytes_Buf hello_world_buf 6)
          (drop 6 (bytes_of bytes_Buf hello_world_buf.bufs)))
    × (11 < 6 → advance bytes_Buf hello_world_buf 6 ≡ none)
advance-Holds_example = advance-Holds bytes_Buf hello_world_buf 6 hello_world_IsValid

-- A timer that is set to 10 and whose deadline moved on to 20.
moved-IsAhead : IsAhead (update 20 (new 10))
unfolding update new
moved-IsAhead = record { ahead = ground arith }

leb_iff : (now deadline : ℕ) → (leb deadline now ≡ true) ↔ (deadline ≤ now)
leb_iff now deadline = ground arith

moved_polls :
    ((poll (λ now d. leb d now) (12 ∷ 12 ∷ []) (update 20 (new 10))).1 ≡ some pending)
    × ((poll (λ now d. leb d now) (20 ∷ 20 ∷ []) (update 20 (new 10))).1 ≡ some (ready tt))
unfolding poll update new reset is_expired
moved_polls = (refl, refl)

poll-Expires_example :
    Expires 12 13 20 (poll (λ now d. leb d now) (12 ∷ 13 ∷ []) (update 20 (new 10)))
poll-Expires_example =
    poll-Expires (λ now d. leb d now) leb_iff 12 13 [] 20 (new 10) (ground arith) moved-IsAhead
