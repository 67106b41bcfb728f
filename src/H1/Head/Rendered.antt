-- ===== src/H1/Head/Rendered.antt =====
-- What `encode_head` of actix-http-alt/src/h1/proto/encode.rs leaves, against the head as it is laid out.
use actix_server_alt.Prelude.{
  ℕ, ◌≤◌, ◌<◌, ◌≡◌, ◌≢◌, ◌↔◌, refl, sym, ap, ◌∙◌, inl, inr, Bool, true, false, ◌&&◌, Bool-cases,
  none, some, List, [], ◌++◌, arith, leb, ltb, ◌==◌, Result, ok, err,
}
use actix_server_alt.H1.Header.{Version}
use actix_server_alt.H1.Context.{Context, is_connect_method, is_force_close}
use actix_server_alt.H1.Buf.{WriteBuf}
use actix_server_alt.H1.Encode.RoundTrip.{bytes_in}
use actix_server_alt.H1.Head.{ProtoError, parse, status_code, Failure, refused}
use actix_server_alt.H1.Head.Write.{Texts, ResponseBodySize, skip_len, HeadWritten, encode_head}
use actix_server_alt.H1.Head.Entries.{Entries, given, fault}
use actix_server_alt.H1.Head.Answer.{
  whole_head, staged, answered, drained, sent, unsupported, faulty_entry, encode_head-HeadSent,
}
use actix_server_alt.H1.Head.Layout.{KnowsOk, head_text, whole_head-head_text}

-- The answers to CONNECT that say no length, and those that are not supported
abbrev pub IsSilent : Context → ℕ → Type 0
IsSilent ctx status = (is_connect_method ctx ≡ true) × (200 ≤ status) × (status < 300)

abbrev pub IsInterim : ℕ → Type 0
IsInterim status = (100 ≤ status) × (status < 200) × (status ≢ 101)

-- Whether the length of the body is skipped, and which status is refused
data Skips (ctx : Context) (status : ℕ) (r : Result ProtoError Bool) : Type 0 where
  allowed :
      (silent : Bool)
      → (silent ≡ true ↔ IsSilent ctx status)
      → ¬ IsInterim status
      → r ≡ ok silent
      → Skips ctx status r
  interim : IsInterim status → r ≡ err (parse status_code) → Skips ctx status r

skip_len-Skips : (ctx : Context) (status : ℕ) → Skips ctx status (skip_len ctx status)
unfolding skip_len
skip_len-Skips ctx status = elim (Bool-cases (status == 101)) [
  | inl switching ↦
      let at : status ≡ 101 = ground arith in
      rw switching (
        allowed false (λ e. absurd (let q = e in cc), λ h. absurd (omega (arith, h.1)))
          (λ h. h.2 at) refl)
  | inr other ↦
      let apart : status ≢ 101 = λ e. ground arith in
      elim (Bool-cases (is_connect_method ctx && (leb 200 status && ltb status 300))) [
        | inl tunnel ↦
            rw (other, tunnel)
              (allowed true (λ e. (ground arith, ground arith, ground arith), λ h. refl)
                (λ h. ground arith) refl)
        | inr plain ↦ elim (Bool-cases (leb 100 status && ltb status 200)) [
          | inl low ↦ rw (other, plain, low) (interim (ground arith, ground arith, apart) refl)
          | inr good ↦
              rw (other, plain, good)
                (allowed false (λ e. absurd (let q = e in cc), λ h. absurd (ground arith))
                  (λ h. ground arith) refl)
        ]
      ]
]

abbrev skipped : Bool → Result ProtoError Bool
skipped b = ok b

abbrev unskipped : ProtoError → Result ProtoError Bool
unskipped e = err e

ok_err : {b : Bool} {e : ProtoError} → skipped b ≢ unskipped e
ok_err h = let q = h in cc

ok_inj : {b c : Bool} → skipped b ≡ skipped c → b ≡ c
ok_inj h = let q = h in cc

err_inj : {e f : ProtoError} → unskipped e ≡ unskipped f → e ≡ f
err_inj h = let q = h in cc

module _ (texts : Texts) (now : List ℕ) (ctx : Context) (version : Version) (status : ℕ)
    (entries : Entries) (size : ResponseBodySize) (w : WriteBuf) where
  -- What a call leaves of the context and of the bytes for the socket, on every way out.
  pub data IsRendered (r : HeadWritten WriteBuf) : Type 0 where
    rendered :
        (silent : Bool)
        → (silent ≡ true ↔ IsSilent ctx status)
        → ¬ IsInterim status
        → fault texts.debug_assertions (is_force_close ctx) silent entries ≡ none
        → r.result ≡ ok tt
        → r.ctx ≡ answered (is_force_close ctx) (given entries) ctx
        → bytes_in r.buf
          ≡ bytes_in w
            ++ head_text texts now (is_force_close ctx) silent version status (given entries) size
        → staged r.buf ≡ []
        → IsRendered r
    at_fault :
        (silent : Bool) (e : Failure)
        → (silent ≡ true ↔ IsSilent ctx status)
        → ¬ IsInterim status
        → fault texts.debug_assertions (is_force_close ctx) silent entries ≡ some e
        → r.result ≡ err e
        → IsRendered r
    refused_status :
        IsInterim status
        → r ≡ record { ctx = ctx; buf = w; result = err (refused (parse status_code)) }
        → IsRendered r

  -- `encode_head` puts behind the bytes of the write buffer, flat or a list, the head as RFC 7230 lays it
  -- out: the line with version, status and reason; a line for each header in order, but for none of the
  -- headers Connection on a connection that is to be closed; the fields that close it, that give the
  -- length of the body unless a header does or it is a 2xx answer to CONNECT, and that give the date
  -- unless a header does; and an empty line. The headers Connection that are read set the type of the
  -- connection. A status 1xx other than 101 is refused with nothing written, and the first entry at
  -- fault ends the call: with an error for a value of Connection that is read and no text, and with a
  -- panic for a further value of a header, or, in a debug build, for a header for the length behind
  -- another or in a 2xx answer to CONNECT. The buffer of a list has no head that is still to be pushed,
  -- and a status 200 is written "200" and "OK".
  pub encode_head-IsRendered :
      staged w ≡ []
      → KnowsOk texts
      → IsRendered (encode_head texts now ctx (drained version status entries) size w)
  encode_head-IsRendered none' known = elim (skip_len-Skips ctx status) [
    | allowed silent why other q ↦
        elim (encode_head-HeadSent texts now ctx version status entries size w none') [
          | unsupported e q' p ↦ absurd (ok_err (sym q ∙ q'))
          | faulty_entry skip e q' at p ↦
              at_fault silent e why other
                (ap (λ (t : Bool). fault texts.debug_assertions (is_force_close ctx) t entries)
                    (ok_inj (sym q ∙ q'))
                  ∙ at)
                p
          | sent skip q' fit done c bytes st ↦
              let same : silent ≡ skip = ok_inj (sym q ∙ q') in
              rendered silent why other
                (ap (λ (t : Bool). fault texts.debug_assertions (is_force_close ctx) t entries) same
                  ∙ fit)
                done c
                (bytes
                  ∙ ap (λ (t : List ℕ). bytes_in w ++ t)
                      (ap
                          (λ (t : Bool).
                            whole_head texts now (is_force_close ctx) t version status
                              (given entries) size)
                          (sym same)
                        ∙ whole_head-head_text texts now (is_force_close ctx) silent version status
                            (given entries) size known))
                st
        ]
    | interim low q ↦
        elim (encode_head-HeadSent texts now ctx version status entries size w none') [
          | unsupported e q' p ↦ refused_status low (
              p
              ∙ ap (λ (t : ProtoError). record { ctx = ctx; buf = w; result = err (refused t) })
                  (err_inj (sym q' ∙ q)))
          | faulty_entry skip e q' at p ↦ absurd (ok_err (sym q' ∙ q))
          | sent skip q' fit done c bytes st ↦ absurd (ok_err (sym q' ∙ q))
        ]
  ]
