-- ===== src/H1/Context.antt =====
-- actix-http-alt/src/h1/proto/context.rs. The date is not part of the state.
pub mod Marks
use actix_server_alt.Prelude.{ℕ, bit_and, bit_or, Bool, Option, none, ◌==◌}
use actix_server_alt.H1.Header.{HeaderMap}

-- `ConnectionType`
pub data ConnectionType : Type 0 where
  init close keep_alive upgrade : ConnectionType

-- The bits of `ContextState`
abbrev pub expect_mark : ℕ
expect_mark = 1

abbrev pub connect_mark : ℕ
connect_mark = 2

abbrev pub force_close_mark : ℕ
force_close_mark = 4

unfoldable pub insert_mark : ℕ → ℕ → ℕ
insert_mark state other = bit_or state other

unfoldable pub contains_mark : ℕ → ℕ → Bool
contains_mark state other = bit_and state other == other

pub record Context : Type 0 where
  pub state : ℕ
  pub ctype : ConnectionType
  pub header_cache : Option HeaderMap

-- `Context::new` and `reset`
unfoldable pub new_context : Context
new_context = record { state = 0; ctype = init; header_cache = none }

unfoldable pub reset_context : Context → Context
reset_context c = record c { state = 0; ctype = keep_alive }

unfoldable pub is_expect_header : Context → Bool
unfolding contains_mark
is_expect_header c = contains_mark c.state expect_mark

unfoldable pub is_connect_method : Context → Bool
unfolding contains_mark
is_connect_method c = contains_mark c.state connect_mark

unfoldable pub is_force_close : Context → Bool
unfolding contains_mark
is_force_close c = contains_mark c.state force_close_mark

unfoldable pub set_expect_header : Context → Context
unfolding insert_mark
set_expect_header c = record c { state = insert_mark c.state expect_mark }

unfoldable pub set_connect_method : Context → Context
unfolding insert_mark
set_connect_method c = record c { state = insert_mark c.state connect_mark }

unfoldable pub set_force_close : Context → Context
unfolding insert_mark
set_force_close c = record c { state = insert_mark c.state force_close_mark }

unfoldable pub set_ctype : ConnectionType → Context → Context
set_ctype ctype c = record c { ctype = ctype }
