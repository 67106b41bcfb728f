-- ===== src/Server/Runs.antt =====
-- Runs of the connection limit.
use actix_server_alt.Prelude.{ℕ, ◌≡◌, ◌≢◌, refl, [], ◌∷◌, All, none, some, ready, pending, arith}
use actix_server_alt.Server.Limit.{Limit, new, poll, drop_guard}
use actix_server_alt.Server.Limit.Guards.{
  Reach, start, acquire, IsValid, Reach-IsValid, polled, dropped, woken, poll-drop_guard,
}

one_taken : Reach 1 (poll 7 (new 1)).0 1
unfolding poll new
one_taken = acquire (new 1) 0 7 start refl

Reach-IsValid_example : IsValid 1 (poll 7 (new 1)).0 1
Reach-IsValid_example = Reach-IsValid 1 (poll 7 (new 1)).0 1 one_taken

abbrev full : Limit
full = record { limit = 2; current = 2; waker = none }

poll-drop_guard_example :
    ((poll 7 full).1 ≡ pending)
    × ((drop_guard (poll 7 full).0).1 ≡ some 7)
    × ((poll 7 (drop_guard (poll 7 full).0).0).1 ≡ ready tt)
    × ((drop_guard (poll 8 (poll 7 full).0).0).1 ≡ some 8)
    × All (λ (w : ℕ). w ≢ 7) (woken (dropped ∷ polled 9 ∷ dropped ∷ []) (poll 8 (poll 7 full).0).0)
poll-drop_guard_example =
    poll-drop_guard full 7 8 (dropped ∷ polled 9 ∷ dropped ∷ []) refl (omega arith)
      (λ e. omega (arith, e))
      (λ e. let q = e in cc, (λ e. let q = e in cc, (λ e. let q = e in cc, tt)))
