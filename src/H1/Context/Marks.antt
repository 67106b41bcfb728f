-- ===== src/H1/Context/Marks.antt =====
-- The marks of actix-http-alt/src/h1/proto/context.rs.
use actix_server_alt.Prelude.{ℕ, zero, suc, ◌<◌, ◌≡◌, refl, Bool, true, false, arith}
use actix_server_alt.H1.Context.{
  Context, contains_mark, insert_mark, new_context, reset_context, is_expect_header,
  is_connect_method, is_force_close, set_expect_header, set_connect_method, set_force_close,
}

-- What the three marks of a context are.
pub record Marked : Type 0 where
  pub expect : Bool
  pub connect : Bool
  pub force_close : Bool

unfoldable pub marked : Context → Marked
unfolding is_expect_header is_connect_method is_force_close
marked c = record {
  expect = is_expect_header c;
  connect = is_connect_method c;
  force_close = is_force_close c;
}

-- Each setter sets its own mark, and no other, for the rest of the request; a context that is new or
-- reset has none.
pub set-marked :
    (c : Context)
    → c.state < 8
    → (marked (set_expect_header c) ≡ record (marked c) { expect = true })
      × (marked (set_connect_method c) ≡ record (marked c) { connect = true })
      × (marked (set_force_close c) ≡ record (marked c) { force_close = true })
      × (marked (reset_context c) ≡ record { expect = false; connect = false; force_close = false })
      × (marked new_context ≡ marked (reset_context c))
unfolding marked is_expect_header is_connect_method is_force_close set_expect_header
    set_connect_method set_force_close reset_context new_context contains_mark insert_mark
set-marked c h = at c.state h
  where
    at :
        (state : ℕ)
        → state < 8
        → let d : Context = record c { state = state } in
          (marked (set_expect_header d) ≡ record (marked d) { expect = true })
          × (marked (set_connect_method d) ≡ record (marked d) { connect = true })
          × (marked (set_force_close d) ≡ record (marked d) { force_close = true })
          × (marked (reset_context d)
              ≡ record { expect = false; connect = false; force_close = false })
          × (marked new_context ≡ marked (reset_context d))
    at zero h = (refl, refl, refl, refl, refl)
    at (suc zero) h = (refl, refl, refl, refl, refl)
    at (suc (suc zero)) h = (refl, refl, refl, refl, refl)
    at (suc (suc (suc zero))) h = (refl, refl, refl, refl, refl)
    at (suc (suc (suc (suc zero)))) h = (refl, refl, refl, refl, refl)
    at (suc (suc (suc (suc (suc zero))))) h = (refl, refl, refl, refl, refl)
    at (suc (suc (suc (suc (suc (suc zero)))))) h = (refl, refl, refl, refl, refl)
    at (suc (suc (suc (suc (suc (suc (suc zero))))))) h = (refl, refl, refl, refl, refl)
    at (suc (suc (suc (suc (suc (suc (suc (suc n)))))))) h = absurd (omega arith)
