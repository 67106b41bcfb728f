-- ===== src/Util/KeepAlive.antt =====
-- actix-http-alt/src/util/keep_alive.rs: the timer of a connection, whose deadline moves on without a
-- call of the runtime. The `Sleep` of the runtime is the instant that it is set to, and `elapsed now d`
-- is what the poll of one set to `d` answers at the instant `now`.
pub mod Deadline
use actix_server_alt.Prelude.{
  ℕ, Bool, Option, none, some, List, [], ◌∷◌, if◌then◌else◌, leb, Poll, ready, pending,
}

pub record KeepAlive : Type 0 where
  pub timer : ℕ
  pub deadline : ℕ

-- `KeepAlive::new`
unfoldable pub new : ℕ → KeepAlive
new deadline = record { timer = deadline; deadline = deadline }

-- `KeepAlive::update`
unfoldable pub update : ℕ → KeepAlive → KeepAlive
update deadline k = record k { deadline = deadline }

-- `KeepAlive::is_expired`
unfoldable pub is_expired : KeepAlive → Bool
is_expired k = leb k.deadline k.timer

-- `KeepAlive::reset`
unfoldable pub reset : KeepAlive → KeepAlive
reset k = record k { timer = k.deadline }

-- `KeepAlive::poll`. Each poll of the timer happens at the next of the instants that are listed; no
-- answer stands for instants that ran out.
unfoldable pub poll : (ℕ → ℕ → Bool) → List ℕ → KeepAlive → KeepAlive × Option (Poll (Unit {0}))
poll elapsed [] k = (k, none)
poll elapsed (now ∷ later) k =
    let again = poll elapsed later (reset k) in
    if elapsed now k.timer
    then (if is_expired k then (k, some (ready tt)) else again)
    else (k, some pending)
