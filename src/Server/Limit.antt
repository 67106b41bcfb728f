-- ===== src/Server/Limit.antt =====
-- actix-server-alt/src/worker/limit.rs: how many connections a worker serves at a time. The cells that
-- all clones of a `Limit` share are one state, and a number stands for a waker.
pub mod Guards
use actix_server_alt.Prelude.{
  ℕ, suc, ◌+◌, ◌-◌, Option, none, some, ◌==◌, if◌then◌else◌, Poll, ready, pending,
}

pub record Limit : Type 0 where
  pub limit : ℕ
  pub current : ℕ
  pub waker : Option ℕ

-- `Limit::new`
unfoldable pub new : ℕ → Limit
new limit = record { limit = limit; current = 0; waker = none }

-- `Limit::get`
unfoldable pub get : Limit → ℕ
get l = l.current

-- `LimitReady::poll`; `ready` stands for a new guard.
unfoldable pub poll : ℕ → Limit → Limit × Poll (Unit {0})
poll waker l =
    if l.current == l.limit
    then (record l { waker = some waker }, pending)
    else (record l { current = l.current + 1 }, ready tt)

-- `LimitGuard::drop`: the state and the waker that is woken. The subtraction cannot wrap, since the
-- guard that is dropped is counted.
unfoldable pub drop_guard : Limit → Limit × Option ℕ
drop_guard l =
    if l.current == l.limit
    then (record l { current = l.current - 1; waker = none }, l.waker)
    else (record l { current = l.current - 1 }, none)
