-- ===== src/H1/Head/Answer.antt =====
-- The whole head of a response, as actix-http-alt/src/h1/proto/encode.rs writes it.
use actix_server_alt.Prelude.{
  ℕ, ◌≡◌, refl, sym, subst, ap, ◌∙◌, Bool, false, not, ◌||◌, some, none, List, [], ◌++◌,
  append_assoc, map, if◌then◌else◌, Result, ok, err, Result-cases, inl, inr,
}
use actix_server_alt.Prelude.Text.{codes}
use actix_server_alt.H1.Header.{Version, HeaderMap}
use actix_server_alt.H1.Context.{Context, is_force_close}
use actix_server_alt.H1.Buf.{EncodedBuf, WriteBuf, flat, queue, WriteListBuf, buffer, bytes_ops}
use actix_server_alt.Util.BufList.{push}
use actix_server_alt.H1.Encode.{put_bytes}
use actix_server_alt.H1.Encode.RoundTrip.{bytes_in, put_bytes_lem}
use actix_server_alt.H1.Head.{ProtoError, Failure, refused}
use actix_server_alt.H1.Head.Write.{
  Texts, Parts, ResponseBodySize, HeadWrite, status_line, skip_len, length_line, head_end,
  HeadWritten, finish_write, encode_head_inner, list_head, encode_head,
}
use actix_server_alt.H1.Head.Entries.{
  lines, sets_length, sets_date, any_name, types_after, named_entry, Entries, given, fault,
}
use actix_server_alt.H1.Head.Written.{AllWritten, wrote, faulty, write_headers-AllWritten}

-- The end of a head: a connection that is to be closed says so, a length is told unless it is skipped
-- or a header tells it, and so is the date.
abbrev pub told_end : Texts → List ℕ → Bool → Bool → Bool → ResponseBodySize → List ℕ
told_end texts now force no_length no_date size =
    (if force then codes "connection: close\r\n" else [])
    ++ (if not no_length then length_line texts size else [])
    ++ (if not no_date then codes "date: " ++ now ++ codes "\r\n\r\n" else codes "\r\n")

abbrev pub whole_head :
    Texts → List ℕ → Bool → Bool → Version → ℕ → HeaderMap → ResponseBodySize → List ℕ
whole_head texts now force skip version status headers size =
    (status_line texts version status ++ lines texts force headers)
    ++ told_end texts now force (skip || any_name sets_length headers) (any_name sets_date headers)
        size

-- A head that lies in the write buffer and is not there for the socket yet
abbrev pub staged : WriteBuf → List ℕ
staged (flat bytes) = []
staged (queue w) = w.buf

abbrev pub answered : Bool → HeaderMap → Context → Context
answered force headers ctx = record ctx {
  ctype = types_after force headers ctx.ctype;
  header_cache = some [];
}

regroup : (a b c d : List ℕ) → ((a ++ b) ++ c) ++ d ≡ a ++ ((b ++ c) ++ d)
regroup a b c d = simp append_assoc

-- A response whose map drains to these entries, and one with a single value for each header
abbrev pub drained : Version → ℕ → Entries → Parts
drained version status entries = record { version = version; status = status; headers = entries }

abbrev pub parts_of : Version → ℕ → HeaderMap → Parts
parts_of version status headers = drained version status (map named_entry headers)

module _ (texts : Texts) (now : List ℕ) (ctx : Context) (version : Version) (status : ℕ)
    (entries : Entries) (size : ResponseBodySize) where
  -- What a call leaves, whatever the buffer is.
  pub data Inner (buf : List ℕ) (r : HeadWritten (List ℕ)) : Type 0 where
    inner_sent :
        (skip : Bool)
        → skip_len ctx status ≡ ok skip
        → fault texts.debug_assertions (is_force_close ctx) skip entries ≡ none
        → r ≡ record {
          ctx = answered (is_force_close ctx) (given entries) ctx;
          buf =
              buf
              ++ whole_head texts now (is_force_close ctx) skip version status (given entries) size;
          result = ok tt;
        }
        → Inner buf r
    inner_unsupported :
        (e : ProtoError)
        → skip_len ctx status ≡ err e
        → r ≡ record { ctx = ctx; buf = buf; result = err (refused e) }
        → Inner buf r
    inner_faulty :
        (skip : Bool) (e : Failure)
        → skip_len ctx status ≡ ok skip
        → fault texts.debug_assertions (is_force_close ctx) skip entries ≡ some e
        → r.result ≡ err e
        → Inner buf r

  start : Bool → List ℕ → HeadWrite
  start skip buf = record {
    ctx = ctx;
    skip_len = skip;
    skip_date = false;
    buf = buf ++ status_line texts version status;
  }

  finish_write-Inner :
      (skip : Bool) (buf : List ℕ) (r : HeadWrite × Result Failure (Unit {0}))
      → skip_len ctx status ≡ ok skip
      → AllWritten texts entries (start skip buf) r
      → Inner buf (finish_write texts now size r)
  unfolding finish_write start head_end is_force_close
  finish_write-Inner skip buf r q (wrote fits e) =
      subst
        (λ (t : HeadWrite × Result Failure (Unit {0})). Inner buf (finish_write texts now size t))
        (sym e)
        (inner_sent skip q fits (
          ap
            (λ (t : List ℕ). record {
              ctx = answered (is_force_close ctx) (given entries) ctx;
              buf = t;
              result = ok tt;
            })
            (regroup buf (status_line texts version status)
              (lines texts (is_force_close ctx) (given entries))
              (told_end texts now (is_force_close ctx)
                (skip || any_name sets_length (given entries)) (any_name sets_date (given entries))
                size))))
  finish_write-Inner skip buf (s, x) q (faulty e at h) =
      rw (h, finish_write) (inner_faulty skip e q at refl)

  pub encode_head_inner-Inner :
      (buf : List ℕ)
      → Inner buf (encode_head_inner texts now ctx (drained version status entries) size buf)
  unfolding encode_head_inner start
  encode_head_inner-Inner buf = elim (Result-cases (skip_len ctx status)) [
    | inr (e, q) ↦ rw (q, encode_head_inner) (inner_unsupported e q refl)
    | inl (skip, q) ↦
        rw (q, encode_head_inner)
          (finish_write-Inner skip buf _ q
            (write_headers-AllWritten texts entries (start skip buf)))
  ]

-- What a call leaves of the context and of the bytes for the socket.
pub data HeadSent (texts : Texts) (now : List ℕ) (ctx : Context) (version : Version) (status : ℕ)
    (entries : Entries) (size : ResponseBodySize) (w : WriteBuf) (r : HeadWritten WriteBuf)
    : Type 0 where
  sent :
      (skip : Bool)
      → skip_len ctx status ≡ ok skip
      → fault texts.debug_assertions (is_force_close ctx) skip entries ≡ none
      → r.result ≡ ok tt
      → r.ctx ≡ answered (is_force_close ctx) (given entries) ctx
      → bytes_in r.buf
        ≡ bytes_in w
          ++ whole_head texts now (is_force_close ctx) skip version status (given entries) size
      → staged r.buf ≡ []
      → HeadSent texts now ctx version status entries size w r
  unsupported :
      (e : ProtoError)
      → skip_len ctx status ≡ err e
      → r ≡ record { ctx = ctx; buf = w; result = err (refused e) }
      → HeadSent texts now ctx version status entries size w r
  faulty_entry :
      (skip : Bool) (e : Failure)
      → skip_len ctx status ≡ ok skip
      → fault texts.debug_assertions (is_force_close ctx) skip entries ≡ some e
      → r.result ≡ err e
      → HeadSent texts now ctx version status entries size w r

encode_head_flat :
    (texts : Texts) (now : List ℕ) (ctx : Context) (version : Version) (status : ℕ)
    (entries : Entries) (size : ResponseBodySize) (bytes : List ℕ) (r : HeadWritten (List ℕ))
    → Inner texts now ctx version status entries size bytes r
    → HeadSent texts now ctx version status entries size
        (flat bytes)
        (record { ctx = r.ctx; buf = flat r.buf; result = r.result })
unfolding bytes_in
encode_head_flat texts now ctx version status entries size bytes r (inner_sent skip q fits e) =
    sent skip q fits (rw e) (rw e) (rw e) refl
encode_head_flat texts now ctx version status entries size bytes r (inner_unsupported e q p) =
    unsupported e q (rw p)
encode_head_flat texts now ctx version status entries size bytes r (inner_faulty skip e q at p) =
    faulty_entry skip e q at p

pushed_head :
    (w : WriteListBuf) (text : List ℕ)
    → w.buf ≡ []
    → bytes_in
        (queue (record { buf = []; list = push bytes_ops w.list (EncodedBuf.buf (w.buf ++ text)) }))
      ≡ bytes_in (queue w) ++ text
unfolding bytes_in put_bytes buffer
pushed_head w text none' =
    put_bytes_lem (queue w) (w.buf ++ text)
    ∙ ap (λ (t : List ℕ). bytes_in (queue w) ++ (t ++ text)) none'

list_head-HeadSent :
    (texts : Texts) (now : List ℕ) (ctx : Context) (version : Version) (status : ℕ)
    (entries : Entries) (size : ResponseBodySize) (w : WriteListBuf) (r : HeadWritten (List ℕ))
    → w.buf ≡ []
    → Inner texts now ctx version status entries size w.buf r
    → HeadSent texts now ctx version status entries size (queue w) (list_head w r)
unfolding list_head
list_head-HeadSent texts now ctx version status entries size w r none' (inner_sent skip q fits e) =
    rw e (sent skip q fits refl refl (pushed_head w _ none') refl)
list_head-HeadSent texts now ctx version status entries size w r none' (inner_unsupported e q p) =
    rw p (unsupported e q refl)
list_head-HeadSent texts now ctx version status entries size w r none'
      (inner_faulty skip e q at p) =
    rw (p, list_head) (faulty_entry skip e q at refl)

pub encode_head-HeadSent :
    (texts : Texts) (now : List ℕ) (ctx : Context) (version : Version) (status : ℕ)
    (entries : Entries) (size : ResponseBodySize) (w : WriteBuf)
    → staged w ≡ []
    → HeadSent texts now ctx version status entries size w
        (encode_head texts now ctx (drained version status entries) size w)
unfolding encode_head
encode_head-HeadSent texts now ctx version status entries size (flat bytes) none' =
    encode_head_flat texts now ctx version status entries size bytes _
      (encode_head_inner-Inner texts now ctx version status entries size bytes)
encode_head-HeadSent texts now ctx version status entries size (queue w) none' =
    list_head-HeadSent texts now ctx version status entries size w _ none'
      (encode_head_inner-Inner texts now ctx version status entries size w.buf)
