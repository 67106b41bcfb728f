-- ===== src/H1/Body.antt =====
-- actix-http-alt/src/h1/body.rs: the queue between the dispatcher and the handler of a request. A call
-- that may wake tasks returns their wakers with the state; a number stands for a waker or an error.
pub mod Queue
use actix_server_alt.Prelude.{
  ℕ, ◌+◌, ◌-◌, Bool, true, false, not, ◌&&◌, Option, none, some, List, [], ◌∷◌, ◌++◌, length, ltb,
  ◌==◌, if◌then◌else◌, Result, ok, err, Poll, ready, pending,
}

-- `MAX_BUFFER_SIZE`
abbrev pub max_buffer_size : ℕ
max_buffer_size = 32768

-- `Inner`
pub record Inner : Type 0 where
  pub len : ℕ
  pub eof : Bool
  pub err : Option ℕ
  pub need_read : Bool
  pub items : List (List ℕ)
  pub task : Option ℕ
  pub io_task : Option ℕ

-- `Inner::new`
unfoldable pub new : Bool → Inner
new eof = record {
  len = 0;
  eof = eof;
  err = none;
  need_read = true;
  items = [];
  task = none;
  io_task = none;
}

-- `Inner::register` and `register_io`. A waker that would wake the same task is kept, which is the
-- same waker.
unfoldable pub register : ℕ → Inner → Inner
register waker b = record b { task = some waker }

unfoldable pub register_io : ℕ → Inner → Inner
register_io waker b = record b { io_task = some waker }

-- `Inner::set_error`, `feed_eof` and `feed_data`
unfoldable pub set_error : ℕ → Inner → Inner
set_error e b = record b { err = some e }

unfoldable pub feed_eof : Inner → Inner
feed_eof b = record b { eof = true }

-- The second component is the waker that `wake` takes.
unfoldable pub feed_data : List ℕ → Inner → Inner × Option ℕ
feed_data bytes b =
    let len = b.len + length bytes in
    (
      record b {
        len = len;
        items = b.items ++ bytes ∷ [];
        need_read = ltb len max_buffer_size;
        task = none;
      },
      b.task,
    )

-- What a call of `readany` leaves: the state, the waker that `wake_io` takes, and the answer.
pub record Taken : Type 0 where
  pub body : Inner
  pub woken : Option ℕ
  pub answer : Poll (Option (Result ℕ (List ℕ)))

unfoldable pub pop : ℕ → List ℕ → List (List ℕ) → Inner → Taken
pop waker bytes items b =
    let len = b.len - length bytes in
    let need_read = ltb len max_buffer_size in
    record {
      body = record b {
        len = len;
        items = items;
        need_read = need_read;
        task = if need_read && not b.eof then some waker else b.task;
        io_task = none;
      };
      woken = b.io_task;
      answer = ready (some (ok bytes));
    }

-- `readany` on an empty queue
unfoldable pub read_empty : ℕ → Inner → Option ℕ → Taken
unfolding register
read_empty waker b (some e) = record {
  body = record b { err = none };
  woken = none;
  answer = ready (some (err e));
}
read_empty waker b none =
    if b.eof then (record { body = b; woken = none; answer = ready none }) else (record {
      body = record (register waker b) { need_read = true; io_task = none };
      woken = b.io_task;
      answer = pending;
    })

unfoldable pub read_items : ℕ → Inner → List (List ℕ) → Taken
unfolding pop read_empty
read_items waker b (bytes ∷ items) = pop waker bytes items b
read_items waker b [] = read_empty waker b b.err

-- `Inner::readany`
unfoldable pub readany : ℕ → Inner → Taken
unfolding read_items
readany waker b = read_items waker b b.items

-- `RequestBodySender::poll_ready`; `none` stands for a body that the handler has dropped.
unfoldable pub poll_ready : ℕ → Option Inner → Option Inner × Poll (Result (Unit {0}) (Unit {0}))
unfolding register_io
poll_ready waker none = (none, ready (err tt))
poll_ready waker (some b) =
    if b.need_read then (some b, ready (ok tt)) else (some (register_io waker b), pending)

-- `RequestBodySender::set_error`, `feed_eof` and `feed_data` do nothing once the body is dropped.
unfoldable pub send_error : ℕ → Option Inner → Option Inner
unfolding set_error
send_error e none = none
send_error e (some b) = some (set_error e b)

unfoldable pub send_eof : Option Inner → Option Inner
unfolding feed_eof
send_eof none = none
send_eof (some b) = some (feed_eof b)

unfoldable pub send_data : List ℕ → Option Inner → Option Inner × Option ℕ
unfolding feed_data
send_data bytes none = (none, none)
send_data bytes (some b) = (some (feed_data bytes b).0, (feed_data bytes b).1)
