-- ===== src/H1/Dispatcher/Exchange/Sends.antt =====
-- What an answer of actix-http-alt/src/h1/proto/dispatcher.rs puts on the socket, head and body.
use actix_server_alt.Prelude.{
  ℕ, ◌^◌, ◌≤◌, ◌<◌, ◌≡◌, refl, ap, subst, ◌∙◌, Bool, false, Option, some, none, ◌⊎◌, inl, inr, List,
  [], ◌∷◌, ◌++◌, All, length, ok, err,
}
use actix_server_alt.H1.Context.{ConnectionType, Context, is_force_close}
use actix_server_alt.H1.Header.{Version}
use actix_server_alt.H1.Kind.{encode_chunked, plain_chunked}
use actix_server_alt.H1.Buf.{WriteBuf, flat}
use actix_server_alt.H1.Encode.{ResponseBody, stream, bytes, encoder, eof, chunked, plain, sized}
use actix_server_alt.H1.Encode.Onto.{body_out, encode_all-body_out}
use actix_server_alt.H1.Encode.RoundTrip.{bytes_in}
use actix_server_alt.H1.Head.{ProtoError, Failure, refused, panicked}
use actix_server_alt.H1.Head.Write.{Texts, HeadWritten, body_size, skip_len, encode_head}
use actix_server_alt.H1.Head.Entries.{Entries, given, fault}
use actix_server_alt.H1.Head.Answer.{
  drained, whole_head, sent, unsupported, faulty_entry, encode_head-HeadSent,
}
use actix_server_alt.H1.Dispatcher.Respond.{Round, Responding, Progress}
use actix_server_alt.H1.Dispatcher.Respond.Valid.{IsEncoder, Fits}
use actix_server_alt.H1.Dispatcher.Respond.Kept.{all_bytes, IsLive, Stands}
use actix_server_alt.H1.Dispatcher.Respond.Delivers.{respond_polls-Goes}
use actix_server_alt.H1.Dispatcher.Total.{IsHandle}
use actix_server_alt.H1.Dispatcher.Serve.{Serving}
use actix_server_alt.H1.Dispatcher.Exchange.{
  messages, Exchanged, headless, written, responding, answer,
}

-- A body of less than 2 ^ 62 bytes, or a stream of messages that are not empty and as short
abbrev pub IsSendable : ResponseBody → List (List ℕ) → Type 0
IsSendable ResponseBody.none items = Unit
IsSendable (bytes b) items = length b < 2 ^ 62
IsSendable stream items = All (λ msg. (0 < length msg) × (length msg < 2 ^ 62)) items

Fits-chunked :
    (items : List (List ℕ)) → IsSendable stream items → All (Fits (encode_chunked false)) items
Fits-chunked [] h = tt
Fits-chunked (msg ∷ items) h = (h.0.1, Fits-chunked items h.1)

Fits-plain : (items : List (List ℕ)) → IsSendable stream items → All (Fits plain_chunked) items
Fits-plain [] h = tt
Fits-plain (msg ∷ items) h = (h.0, Fits-plain items h.1)

encoder-Fits :
    (body : ResponseBody) (items : List (List ℕ)) (ctype : ConnectionType)
    → IsSendable body items
    → All (Fits (encoder body ctype).kind) (messages body items)
unfolding encoder messages eof chunked plain sized
encoder-Fits ResponseBody.none items ctype h = tt
encoder-Fits (bytes b) items ctype h = (h, tt)
encoder-Fits stream items ConnectionType.upgrade h = Fits-plain items h
encoder-Fits stream items ConnectionType.init h = Fits-chunked items h
encoder-Fits stream items ConnectionType.keep_alive h = Fits-chunked items h
encoder-Fits stream items ConnectionType.close h = Fits-chunked items h

encoder-IsEncoder :
    (body : ResponseBody) (ctype : ConnectionType) → IsEncoder (encoder body ctype).kind
unfolding encoder eof chunked plain sized
encoder-IsEncoder ResponseBody.none ctype = tt
encoder-IsEncoder (bytes b) ctype = tt
encoder-IsEncoder stream ConnectionType.upgrade = tt
encoder-IsEncoder stream ConnectionType.init = tt
encoder-IsEncoder stream ConnectionType.keep_alive = tt
encoder-IsEncoder stream ConnectionType.close = tt

module _ (texts : Texts) (now : List ℕ) (limit : ℕ) (polls : List (List Round)) (ctx : Context)
    (version : Version) (status : ℕ) (entries : Entries) (body : ResponseBody)
    (items : List (List ℕ)) (buffered : List ℕ) (s : Serving) where
  abbrev head_of : HeadWritten WriteBuf
  head_of =
      encode_head texts now ctx (drained version status entries) (body_size body) (flat buffered)

  -- The bytes of the answer: what was in the buffer, the head, and what the encoder makes of the body.
  abbrev pub answer_bytes : Bool → Context → List ℕ
  answer_bytes skip ctx' =
      (buffered
        ++ whole_head texts now (is_force_close ctx) skip version status (given entries)
            (body_size body))
      ++ body_out (encoder body ctx'.ctype).kind (messages body items)

  -- Why the head is refused: its status, or a value of "Connection" that is no text.
  abbrev pub IsRefused : ProtoError → Type 0
  IsRefused e =
      (skip_len ctx status ≡ err e)
      ⊎ ((skip : Bool) × (skip_len ctx status ≡ ok skip)
          × (fault texts.debug_assertions (is_force_close ctx) skip entries ≡ some (refused e)))

  pub data IsTold (r : Option Exchanged) : Type 0 where
    refused_head : (e : ProtoError) → IsRefused e → r ≡ some (headless e) → IsTold r
    panics :
        (skip : Bool)
        → skip_len ctx status ≡ ok skip
        → fault texts.debug_assertions (is_force_close ctx) skip entries ≡ some panicked
        → r ≡ none
        → IsTold r
    told :
        (skip : Bool) (ctx' : Context) (t : Responding) (p : Progress)
        → skip_len ctx status ≡ ok skip
        → fault texts.debug_assertions (is_force_close ctx) skip entries ≡ none
        → r ≡ some (written ctx' t p)
        → Stands (answer_bytes skip ctx') p t
        → IsTold r

  exchanged : Option Exchanged
  exchanged =
      answer texts now limit polls ctx (drained version status entries) body items (flat buffered) s

  headless-IsTold :
      (e : ProtoError) → IsRefused e → head_of.result ≡ err (refused e) → IsTold exchanged
  unfolding exchanged answer
  headless-IsTold e why q = refused_head e why (rw (q, answer) refl)

  faulty-IsTold :
      (skip : Bool) (e : Failure)
      → skip_len ctx status ≡ ok skip
      → fault texts.debug_assertions (is_force_close ctx) skip entries ≡ some e
      → head_of.result ≡ err e
      → IsTold exchanged
  unfolding exchanged answer
  faulty-IsTold skip (refused e) q at p = headless-IsTold e (inr (skip, q, at)) p
  faulty-IsTold skip panicked q at p = panics skip q at (rw (p, answer) refl)

  start_bytes :
      (skip : Bool)
      → bytes_in head_of.buf
        ≡ buffered
          ++ whole_head texts now
              (is_force_close ctx)
              skip
              version
              status
              (given entries)
              (body_size body)
      → all_bytes (responding head_of body items s) ≡ answer_bytes skip head_of.ctx
  unfolding responding
  start_bytes skip e =
      encode_all-body_out (messages body items) (encoder body head_of.ctx.ctype).kind head_of.buf
      ∙ ap
          (λ (t : List ℕ).
            t ++ body_out (encoder body head_of.ctx.ctype).kind (messages body items))
          e

  start-IsLive :
      IsSendable body items → IsHandle s.handle → IsLive (responding head_of body items s)
  unfolding responding encode_head
  start-IsLive fits handle = record {
    sound = tt;
    writes = encoder-IsEncoder body head_of.ctx.ctype;
    fits = encoder-Fits body items head_of.ctx.ctype fits;
    handle = handle;
  }

  body-IsTold :
      (skip : Bool)
      → skip_len ctx status ≡ ok skip
      → fault texts.debug_assertions (is_force_close ctx) skip entries ≡ none
      → head_of.result ≡ ok tt
      → bytes_in head_of.buf
        ≡ bytes_in (flat buffered)
          ++ whole_head texts now
              (is_force_close ctx)
              skip
              version
              status
              (given entries)
              (body_size body)
      → limit ≤ 2 ^ 62
      → IsSendable body items
      → IsHandle s.handle
      → IsTold exchanged
  unfolding exchanged answer bytes_in
  body-IsTold skip q fit done bytes_told small fits handle =
      let (t, p, e, stands) =
        respond_polls-Goes limit polls (responding head_of body items s) small
          (start-IsLive fits handle) in
      told skip head_of.ctx t p q fit (rw (done, answer) (rw e refl))
        (subst (λ (all : List ℕ). Stands all p t) (start_bytes skip bytes_told) stands)

  -- The answer to a request over a flat buffer: its head is refused for its status or for a value of
  -- "Connection" that is no text, or encode_head panics (at a further value of a header, or in a debug
  -- build at a header for the length behind another or in a 2xx answer to CONNECT), or nothing panics
  -- however often the task is polled, and what the client got, what the buffer holds and what is still to be encoded are at all times what was
  -- in the buffer, the head, and what the encoder that is chosen behind the head makes of the body, and
  -- all of this is sent or in the buffer when the response is finished. The limit of the buffer is at
  -- most 2 ^ 62, the body is shorter, a stream yields no empty message, and the handle of the request's
  -- body is one that can be read with.
  pub answer-IsTold :
      limit ≤ 2 ^ 62
      → IsSendable body items
      → IsHandle s.handle
      → IsTold (
          answer texts now limit polls ctx
            (drained version status entries)
            body
            items
            (flat buffered)
            s)
  unfolding exchanged
  answer-IsTold small fits handle =
      elim (encode_head-HeadSent texts now ctx version status entries (body_size body)
        (flat buffered) refl) [
          | sent skip q fit done ctx' bytes_told none' ↦
              body-IsTold skip q fit done bytes_told small fits handle
          | unsupported e q p ↦
              headless-IsTold e (inl q) (ap (λ (r : HeadWritten WriteBuf). r.result) p)
          | faulty_entry skip e q at p ↦ faulty-IsTold skip e q at p
        ]
