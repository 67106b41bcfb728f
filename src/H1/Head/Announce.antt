-- ===== src/H1/Head/Announce.antt =====
-- The head of a response announces the body that actix-http-alt/src/h1/proto/encode.rs writes behind it.
use actix_server_alt.Prelude.{
  ℕ, ◌≡◌, ◌≢◌, refl, sym, ap, ◌∙◌, some, none, map, Bool, false, not, List, [], ◌++◌, if◌then◌else◌,
  ok,
}
use actix_server_alt.Prelude.Text.{codes}
use actix_server_alt.H1.Header.{Version, HeaderMap}
use actix_server_alt.H1.Context.{
  ConnectionType, init, close, keep_alive, upgrade, Context, is_force_close,
}
use actix_server_alt.H1.Kind.{Kind, encode_chunked}
use actix_server_alt.H1.Buf.{WriteBuf}
use actix_server_alt.H1.Encode.{ResponseBody, eof, chunked, sized, encoder}
use actix_server_alt.H1.Encode.RoundTrip.{bytes_in}
use actix_server_alt.H1.Head.{Failure}
use actix_server_alt.H1.Head.Write.{
  Texts, body_size, status_line, skip_len, length_line, encode_head,
}
use actix_server_alt.H1.Head.Entries.{
  lines, sets_length, sets_date, any_name, types_after, AllFit, named_entry, given-named_entry,
  fault, fault_unset,
}
use actix_server_alt.H1.Head.Answer.{
  staged, parts_of, sent, unsupported, faulty_entry, encode_head-HeadSent, whole_head,
}

-- The header that tells what an encoder writes
abbrev pub kind_line : Texts → Kind → List ℕ
kind_line texts (Kind.length n) = codes "content-length: " ++ texts.decimal n ++ codes "\r\n"
kind_line texts (encode_chunked finished) = codes "transfer-encoding: chunked\r\n"
kind_line texts _ = []

length_line-encoder :
    (texts : Texts) (body : ResponseBody) (ctype : ConnectionType)
    → ctype ≢ upgrade
    → length_line texts (body_size body) ≡ kind_line texts (encoder body ctype).kind
unfolding length_line body_size encoder eof chunked sized
length_line-encoder texts ResponseBody.none ctype h = refl
length_line-encoder texts (ResponseBody.bytes b) ctype h = refl
length_line-encoder texts ResponseBody.stream init h = refl
length_line-encoder texts ResponseBody.stream close h = refl
length_line-encoder texts ResponseBody.stream keep_alive h = refl
length_line-encoder texts ResponseBody.stream upgrade h = absurd (h refl)

-- A head with the header of the encoder's kind
abbrev pub announced : Texts → List ℕ → Bool → Version → ℕ → HeaderMap → Kind → List ℕ
announced texts now force version status headers kind =
    (status_line texts version status ++ lines texts force headers)
    ++ ((if force then codes "connection: close\r\n" else [])
        ++ kind_line texts kind
        ++ (if not (any_name sets_date headers)
            then codes "date: " ++ now ++ codes "\r\n\r\n"
            else codes "\r\n"))

whole_head-announced :
    (texts : Texts) (now : List ℕ) (force skip : Bool) (version : Version) (status : ℕ)
    (headers : HeaderMap) (body : ResponseBody) (ctype : ConnectionType)
    → skip ≡ false
    → any_name sets_length headers ≡ false
    → ctype ≢ upgrade
    → whole_head texts now force skip version status headers (body_size body)
      ≡ announced texts now force version status headers (encoder body ctype).kind
whole_head-announced texts now force skip version status headers body ctype s unset other =
    rw (s, unset, length_line-encoder texts body ctype other)

some_none : {e : Failure} → some e ≢ none
some_none h = let q = h in cc

module _ (texts : Texts) (now : List ℕ) (ctx : Context) (version : Version) (status : ℕ)
    (headers : HeaderMap) (body : ResponseBody) (w : WriteBuf) where
  -- Where no header gives the length of the body, it is not to be skipped and the connection is not
  -- upgraded, the head that `encode_head` writes behind the bytes of the buffer announces the body in the
  -- way of the encoder that writes it: with its length, as chunks, or not at all. Each header has one
  -- value, those of "Connection" that are read are texts, and the buffer of a list has no head that is
  -- still to be pushed.
  pub encode_head-announced :
      staged w ≡ []
      → skip_len ctx status ≡ ok false
      → any_name sets_length headers ≡ false
      → AllFit (is_force_close ctx) headers
      → types_after (is_force_close ctx) headers ctx.ctype ≢ upgrade
      → let r = encode_head texts now ctx (parts_of version status headers) (body_size body) w in
        (r.result ≡ ok tt)
        × (bytes_in r.buf
            ≡ bytes_in w
              ++ announced texts now
                  (is_force_close ctx)
                  version
                  status
                  headers
                  (encoder body r.ctx.ctype).kind)
  encode_head-announced none' skip unset fit other =
      let same = given-named_entry headers in
      elim (encode_head-HeadSent texts now ctx version status (map named_entry headers)
        (body_size body) w none') [
          | unsupported e q p ↦ cc
          | faulty_entry s e q at p ↦
              let good =
                fault_unset texts.debug_assertions (is_force_close ctx) headers unset fit in
              absurd (
                some_none (
                  sym at
                  ∙ ap
                      (λ (t : Bool).
                        fault texts.debug_assertions (is_force_close ctx) t
                          (map named_entry headers))
                      (cc)
                  ∙ good))
          | sent s q fits done c bytes st ↦
              let told =
                ap Context.ctype c
                ∙ ap (λ (t : HeaderMap). types_after (is_force_close ctx) t ctx.ctype) same in
              (
                done,
                bytes
                    ∙ ap
                        (λ (t : HeaderMap).
                          bytes_in w
                          ++ whole_head texts now (is_force_close ctx) s version status t
                              (body_size body))
                        same
                    ∙ ap (λ (t : List ℕ). bytes_in w ++ t)
                        (whole_head-announced texts now (is_force_close ctx) s version status
                          headers body _ (cc) unset (λ e. other (cc))),
              )
        ]
