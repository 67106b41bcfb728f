-- ===== src/H1/Head/Written.antt =====
-- What `encode_head` of actix-http-alt/src/h1/proto/encode.rs writes, line by line.
use actix_server_alt.Prelude.{
  ℕ, ◌≡◌, refl, sym, ap, ◌∙◌, inl, inr, Bool, true, false, ◌||◌, ◌&&◌, Bool-cases, none, some, List,
  [], ◌∷◌, ◌++◌, append-nil, append_assoc, arith, if◌then◌else◌, Result, ok, err,
}
use actix_server_alt.Prelude.Text.{is_visible, trim}
use actix_server_alt.H1.Header.{
  HeaderName, transfer_encoding, content_length, connection, expect, upgrade, date, named,
  HeaderMap,
}
use actix_server_alt.H1.Context.{Context, is_force_close, set_ctype}
use actix_server_alt.H1.Head.{parse, header_value, Failure, refused, panicked}
use actix_server_alt.H1.Head.Write.{
  Texts, split_commas, token_ctype, tokens_ctype, HeadWrite, header_line, put_header, write_header,
  write_headers,
}
use actix_server_alt.H1.Head.Entries.{
  token_type, or_before, last_type, is_dropped, lines, sets_length, sets_date, any_name, type_after,
  types_after, is_fit, Entries, given, fault,
}

token_ctype_lem :
    (val : List ℕ) (ctx : Context)
    → token_ctype val ctx ≡ record ctx { ctype = or_before ctx.ctype (token_type (trim val)) }
unfolding token_ctype set_ctype
token_ctype_lem val ctx = ground arith

tokens_ctype_lem :
    (vals : List (List ℕ)) (ctx : Context)
    → tokens_ctype vals ctx ≡ record ctx { ctype = last_type ctx.ctype vals }
unfolding tokens_ctype
tokens_ctype_lem [] ctx = refl
tokens_ctype_lem (val ∷ vals) ctx =
    ap (tokens_ctype vals) (token_ctype_lem val ctx)
    ∙ tokens_ctype_lem vals (record ctx { ctype = or_before ctx.ctype (token_type (trim val)) })

-- The state behind a header that is fit
abbrev step_lem_to : Texts → HeaderName → List ℕ → HeadWrite → HeadWrite
step_lem_to texts name value s =
    let force = is_force_close s.ctx in
    record {
      ctx = record (s.ctx) { ctype = type_after force name value s.ctx.ctype };
      skip_len = s.skip_len || sets_length name;
      skip_date = s.skip_date || sets_date name;
      buf = s.buf ++ (if is_dropped force name then [] else header_line texts name value);
    }

-- A header without a fault
write_header_fit :
    (texts : Texts) (name : HeaderName) (value : List ℕ) (s : HeadWrite)
    → ((texts.debug_assertions && s.skip_len) && sets_length name) ≡ false
    → is_fit (is_force_close s.ctx) name value ≡ true
    → write_header texts name value s ≡ ok (step_lem_to texts name value s)
unfolding write_header put_header
write_header_fit texts transfer_encoding value s a h =
    let first : (texts.debug_assertions && s.skip_len) ≡ false = ground arith in
    rw first (ap ok (ground arith))
write_header_fit texts content_length value s a h =
    let first : (texts.debug_assertions && s.skip_len) ≡ false = ground arith in
    rw first (ap ok (ground arith))
write_header_fit texts connection value s a h = elim (Bool-cases (is_force_close s.ctx)) [
  | inl force ↦ rw force (ap ok (ground (arith, append-nil s.buf)))
  | inr open' ↦
      let seen : is_visible value ≡ true = ground arith in
      rw (open', seen, tokens_ctype_lem (split_commas value) s.ctx) (ap ok (ground arith))
]
write_header_fit texts expect value s a h = ap ok (ground arith)
write_header_fit texts upgrade value s a h = ap ok (ground arith)
write_header_fit texts date value s a h = ap ok (ground arith)
write_header_fit texts (named text) value s a h = ap ok (ground arith)

write_header_unfit :
    (texts : Texts) (name : HeaderName) (value : List ℕ) (s : HeadWrite)
    → is_fit (is_force_close s.ctx) name value ≡ false
    → write_header texts name value s ≡ err (refused (parse header_value))
unfolding write_header
write_header_unfit texts connection value s h = ground arith
write_header_unfit texts transfer_encoding value s h = cc
write_header_unfit texts content_length value s h = cc
write_header_unfit texts expect value s h = cc
write_header_unfit texts upgrade value s h = cc
write_header_unfit texts date value s h = cc
write_header_unfit texts (named text) value s h = cc

write_header_asserts :
    (texts : Texts) (name : HeaderName) (value : List ℕ) (s : HeadWrite)
    → ((texts.debug_assertions && s.skip_len) && sets_length name) ≡ true
    → write_header texts name value s ≡ err panicked
unfolding write_header
write_header_asserts texts transfer_encoding value s h = ground arith
write_header_asserts texts content_length value s h = ground arith
write_header_asserts texts connection value s h = ground arith
write_header_asserts texts expect value s h = ground arith
write_header_asserts texts upgrade value s h = ground arith
write_header_asserts texts date value s h = ground arith
write_header_asserts texts (named text) value s h = ground arith

-- The state behind all headers, if they are fit
abbrev pub all_written : Texts → HeaderMap → HeadWrite → HeadWrite
all_written texts headers s =
    let force = is_force_close s.ctx in
    record {
      ctx = record (s.ctx) { ctype = types_after force headers s.ctx.ctype };
      skip_len = s.skip_len || any_name sets_length headers;
      skip_date = s.skip_date || any_name sets_date headers;
      buf = s.buf ++ lines texts force headers;
    }

-- The loop over the headers: it writes the line of each, in order, but of no "Connection" on a
-- connection that is to be closed, exactly if no entry is at fault.
pub data AllWritten (texts : Texts) (entries : Entries) (s : HeadWrite)
    (r : HeadWrite × Result Failure (Unit {0})) : Type 0 where
  wrote :
      fault texts.debug_assertions (is_force_close s.ctx) s.skip_len entries ≡ none
      → r ≡ (all_written texts (given entries) s, ok tt)
      → AllWritten texts entries s r
  faulty :
      (e : Failure)
      → fault texts.debug_assertions (is_force_close s.ctx) s.skip_len entries ≡ some e
      → r.1 ≡ err e
      → AllWritten texts entries s r

or_assoc : (a b c : Bool) → (a || b || c) ≡ (a || (b || c))
or_assoc true b c = refl
or_assoc false b c = refl

all_written_nil : (texts : Texts) (s : HeadWrite) → all_written texts [] s ≡ s
all_written_nil texts s = ground (arith, append-nil s.buf)

all_written_step :
    (texts : Texts) (name : HeaderName) (value : List ℕ) (headers : HeaderMap) (s : HeadWrite)
    → all_written texts headers (step_lem_to texts name value s)
      ≡ all_written texts ((name, value) ∷ headers) s
unfolding is_force_close
all_written_step texts name value headers s = simp (or_assoc, append_assoc)

pub write_headers-AllWritten :
    (texts : Texts) (entries : Entries) (s : HeadWrite)
    → AllWritten texts entries s (write_headers texts entries s)
unfolding write_headers is_force_close
write_headers-AllWritten texts [] s =
    wrote refl (sym (ap (λ (t : HeadWrite). (t, ok tt)) (all_written_nil texts s)))
write_headers-AllWritten texts ((none, value) ∷ entries) s = faulty panicked refl refl
write_headers-AllWritten texts ((some name, value) ∷ entries) s =
    elim (Bool-cases ((texts.debug_assertions && s.skip_len) && sets_length name)) [
      | inl twice ↦
          rw (write_header_asserts texts name value s twice) (faulty panicked (rw twice refl) refl)
      | inr first ↦ elim (Bool-cases (is_fit (is_force_close s.ctx) name value)) [
        | inr no' ↦
            rw (write_header_unfit texts name value s no')
              (faulty (refused (parse header_value)) (rw (first, no') refl) refl)
        | inl fit ↦
            rw (write_header_fit texts name value s first fit)
              elim (write_headers-AllWritten texts entries (step_lem_to texts name value s)) [
                | wrote fits q ↦ wrote (rw (first, fit) fits) (
                    q
                    ∙ ap (λ (t : HeadWrite). (t, ok tt))
                        (all_written_step texts name value (given entries) s))
                | faulty e fits q ↦ faulty e (rw (first, fit) fits) q
              ]
      ]
    ]
