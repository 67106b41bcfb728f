-- ===== src/H1/Dispatcher/Expect/Continues.antt =====
-- What a client with the header Expect gets from actix-http-alt/src/h1/proto/dispatcher.rs before its
-- request is handled.
use actix_server_alt.Prelude.{
  ℕ, ◌≡◌, refl, sym, ap, subst, ◌∙◌, Bool, true, false, Bool-cases, Option, some, List, [], ◌++◌,
  append-nil, ok, Result-cases, and_then, inl, inr,
}
use actix_server_alt.Prelude.Text.{codes}
use actix_server_alt.H1.Kind.{Kind}
use actix_server_alt.H1.Context.{Context, is_expect_header}
use actix_server_alt.H1.Buf.{WriteBuf, flat, queue}
use actix_server_alt.H1.Socket.{Outgoing}
use actix_server_alt.H1.Encode.{put_static}
use actix_server_alt.H1.Encode.RoundTrip.{bytes_in, put_static_lem}
use actix_server_alt.H1.Head.Write.{encode_continue}
use actix_server_alt.H1.Dispatcher.Respond.{Written, Wake}
use actix_server_alt.H1.Dispatcher.Respond.Valid.{IsSound, HasRoom, encode_continue-IsSound}
use actix_server_alt.H1.Dispatcher.Respond.Kept.{IsKept, drain_write-Keeps}
use actix_server_alt.H1.Dispatcher.Total.{IsReadable}
use actix_server_alt.H1.Dispatcher.Serve.{Service}
use actix_server_alt.H1.Dispatcher.Serve.Feeds.{start, Stands, serve_polls-Goes}
use actix_server_alt.H1.Dispatcher.Expect.{
  Reached, reached, Handled, go_to_handler, after_continue, request_handler,
}

abbrev pub continue_text : List ℕ
continue_text = codes "HTTP/1.1 100 Continue\r\n\r\n"

encode_continue_lem : (w : WriteBuf) → bytes_in (encode_continue w) ≡ bytes_in w ++ continue_text
unfolding encode_continue put_static
encode_continue_lem (flat bytes) = put_static_lem (flat bytes) continue_text
encode_continue_lem (queue w) = put_static_lem (queue w) continue_text

-- The request comes to its handler only when the client got all that was in the buffer, and was told to
-- go on; it is served as ever then, and else nothing of its body is read.
abbrev pub Continued :
    {Res : Type 0} → Kind → List ℕ → WriteBuf → Handled Res → Reached Res → Type 0
Continued kind buf w r (reached p) =
    (r.sent ≡ bytes_in w ++ continue_text) × (bytes_in r.buf ≡ []) × Stands kind buf r.serving p
Continued kind buf w r _ = r.serving ≡ start kind buf

abbrev pub Continues : {Res : Type 0} → Kind → List ℕ → WriteBuf → Option (Handled Res) → Type 0
Continues {Res} kind buf w r = (h : Handled Res) × (r ≡ some h) × Continued kind buf w h h.outcome

module _ {Res E Refusal : Type 0} (response_error : E → Res) (expect_error : Refusal → Res)
    (kind : Kind) (buf : List ℕ) (polls : List (List (Service Res E))) (w : WriteBuf) where
  go_to_handler-Continues :
      (r : Written)
      → IsReadable kind
      → r.sent ≡ bytes_in w ++ continue_text
      → bytes_in r.buf ≡ []
      → Continues kind buf w
          (go_to_handler response_error expect_error polls r.sent r.buf (start kind buf))
  go_to_handler-Continues r readable told empty =
      let (s, p, q, stands) = serve_polls-Goes response_error kind buf polls readable in
      (
        record { sent = r.sent; buf = r.buf; serving = s; outcome = reached p },
        rw q refl,
        (told, empty, stands),
      )

  after_continue-Continues :
      (flushed : Bool) (r : Written)
      → IsReadable kind
      → IsKept (encode_continue w) r
      → Continues kind buf w
          (after_continue response_error expect_error polls flushed (start kind buf) r)
  unfolding after_continue
  after_continue-Continues flushed r readable k = elim (Result-cases r.result) [
    | inr (e, q) ↦ rw (q, after_continue) (_, refl, refl)
    | inl (b, q) ↦
        rw (q, after_continue)
          elim (Bool-cases b) [
            | inl still ↦ rw still (_, refl, refl)
            | inr over ↦
                let done : r.result ≡ ok false = q ∙ ap ok over in
                let empty = k.empty done in
                let told : r.sent ≡ bytes_in w ++ continue_text =
                  sym (append-nil r.sent)
                  ∙ ap (λ (t : List ℕ). r.sent ++ t) (sym empty)
                  ∙ (k.kept false done).0
                  ∙ encode_continue_lem w in
                rw over elim (Bool-cases flushed) [
                  | inl out ↦ rw out (go_to_handler-Continues r readable told empty)
                  | inr stuck ↦ rw stuck (_, refl, refl)
                ]
          ]
  ]

  -- A request that expects to be told to go on, and that the expect service accepts, comes to its handler
  -- only when the client got all that was in the write buffer and then `100 Continue`, with nothing left
  -- in the buffer, and it is served as any other; else nothing of its body is read. However the socket
  -- answers, this does not panic. The write buffer is valid and holds less than 2 ^ 62 bytes, and the
  -- decoder can be read with.
  pub request_handler-Continues :
      (ctx : Context) (answers : List Outgoing) (wakes : List Wake) (flushed : Bool)
      → is_expect_header ctx ≡ true
      → IsSound w
      → HasRoom w
      → IsReadable kind
      → Continues kind buf w (
          request_handler response_error expect_error ctx
            (ok tt)
            answers
            wakes
            flushed
            polls
            w
            (start kind buf))
  unfolding request_handler
  request_handler-Continues ctx answers wakes flushed expects sound room readable =
      let (r, q, k) =
        drain_write-Keeps wakes answers (encode_continue w)
          (encode_continue-IsSound w sound room) in
      rw expects (
        subst
          (λ (t : Option Written). Continues kind buf w (
            and_then t (after_continue response_error expect_error polls flushed (start kind buf))))
          (sym q) (after_continue-Continues flushed r readable k))
