-- ===== src/H1/IoRuns.antt =====
-- Runs of the socket, the request's body and the connection's context.
use actix_server_alt.Prelude.{
  ℕ, suc, ◌≤◌, ◌<◌, ◌≡◌, refl, true, false, none, some, List, [], ◌∷◌, ◌++◌, map, length, arith, ok,
  ready, pending,
}
use actix_server_alt.Util.BufList.{BufList}
use actix_server_alt.Util.BufList.Bytes.{IsValid}
use actix_server_alt.H1.Body.{
  max_buffer_size, new, register_io, set_error, feed_eof, feed_data, readany, poll_ready,
}
use actix_server_alt.H1.Body.Queue.{
  IsValid as IsValidBody, total, readany-IsValid, feed_all, answers, item, answers-feed_all,
  poll_ready-readany,
}
use actix_server_alt.H1.Buf.{ReadBuf, EncodedBuf, buf, static, bytes_ops}
use actix_server_alt.H1.Socket.{received, try_read, Outgoing, accepted, write_list}
use actix_server_alt.H1.Socket.Transfer.{Sends, write_list-Sends, Appends, try_read-Appends}

abbrev hi : List ℕ
hi = 72 ∷ 105 ∷ []

abbrev answer_list : BufList (EncodedBuf (List ℕ))
answer_list = record { bufs = static hi ∷ buf hi ∷ []; remaining = 4 }

answer_list-IsValid : IsValid bytes_ops answer_list
unfolding actix_server_alt.Util.BufList.Bytes.bytes_of actix_server_alt.H1.Buf.encoded_Buf
answer_list-IsValid = record { counted = refl; full = ground arith; fits = ground arith }

-- The socket takes three bytes, and is then blocked.
write_list-Sends_example :
    Sends answer_list (write_list (accepted 3 ∷ Outgoing.blocked ∷ []) answer_list)
write_list-Sends_example =
    write_list-Sends (accepted 3 ∷ Outgoing.blocked ∷ []) answer_list answer_list-IsValid

three_written :
    write_list (accepted 3 ∷ Outgoing.blocked ∷ []) answer_list
    ≡ some (record {
      sent = 72 ∷ 105 ∷ 72 ∷ [];
      list = record { bufs = buf (105 ∷ []) ∷ []; remaining = 1 };
      result = ok true;
    })
unfolding write_list mathlib.Core.List.flatten actix_server_alt.H1.Buf.encoded_Buf
three_written = refl

abbrev read_some : ReadBuf
read_some = record { advanced = true; buf = hi }

try_read-Appends_example :
    Appends 3 read_some
      (received hi ∷ received hi ∷ [])
      false
      (try_read 3 read_some (received hi ∷ received hi ∷ []))
try_read-Appends_example = try_read-Appends 3 read_some (received hi ∷ received hi ∷ [])

new_body-IsValid : IsValidBody (new false)
unfolding new
new_body-IsValid = record { counted = refl; wanted = refl }

readany-IsValid_example :
    IsValidBody (new (new false).eof)
    × IsValidBody (register_io 1 (new false))
    × IsValidBody (set_error 1 (new false))
    × IsValidBody (feed_eof (new false))
    × IsValidBody (feed_data hi (new false)).0
    × IsValidBody (readany 1 (new false)).body
readany-IsValid_example = readany-IsValid (new false) 1 hi new_body-IsValid

no_error : (new false).err ≡ none
unfolding new
no_error = refl

answers-feed_all_example :
    answers
      (suc (length ((new false).items ++ hi ∷ hi ∷ [])))
      1
      (feed_eof (feed_all (hi ∷ hi ∷ []) (new false)))
    ≡ map item ((new false).items ++ hi ∷ hi ∷ []) ++ ready none ∷ []
answers-feed_all_example = answers-feed_all (hi ∷ hi ∷ []) (new false) 1 no_error

poll_ready-readany_example :
    (total (new false).items < max_buffer_size
      → poll_ready 1 (some (new false)) ≡ (some (new false), ready (ok tt)))
    × (max_buffer_size ≤ total (new false).items
        → (poll_ready 1 (some (new false)) ≡ (some (register_io 1 (new false)), pending))
          × ((readany 2 (register_io 1 (new false))).woken ≡ some 1))
poll_ready-readany_example = poll_ready-readany (new false) 1 2 new_body-IsValid
