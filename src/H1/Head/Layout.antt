-- ===== src/H1/Head/Layout.antt =====
-- The head of a response as RFC 7230 lays it out, for what actix-http-alt/src/h1/proto/encode.rs writes.
use actix_server_alt.Prelude.{
  ℕ, ◌≡◌, refl, sym, ap, ◌∙◌, inl, inr, Bool, true, false, not, ◌||◌, Bool-cases, some, List, [],
  ◌∷◌, ◌++◌, append-nil, append_assoc, arith, ◌==◌, if◌then◌else◌,
}
use actix_server_alt.Prelude.Text.{codes}
use actix_server_alt.H1.Header.{Version, http_10, http_11, later, HeaderMap}
use actix_server_alt.H1.Head.Write.{
  Texts, ResponseBodySize, none_size, stream_size, sized, reason_or_none, status_line, header_line,
  length_line,
}
use actix_server_alt.H1.Head.Entries.{is_dropped, lines, sets_length, sets_date, any_name}
use actix_server_alt.H1.Head.Answer.{told_end, whole_head}

-- What the crate http says of a status 200
abbrev pub KnowsOk : Texts → Type 0
KnowsOk texts = (texts.status_text 200 ≡ codes "200") × (texts.reason 200 ≡ some (codes "OK"))

abbrev pub version_text : Version → List ℕ
version_text http_10 = codes "HTTP/1.0"
version_text _ = codes "HTTP/1.1"

-- The version, the status and the reason, and the end of the line
abbrev pub start_text : Texts → Version → ℕ → List ℕ
start_text texts version status =
    version_text version
    ++ codes " "
    ++ texts.status_text status
    ++ codes " "
    ++ reason_or_none (texts.reason status)
    ++ codes "\r\n"

-- A field is a name and a value.
abbrev pub Fields : Type 0
Fields = List (List ℕ × List ℕ)

abbrev pub fields_text : Fields → List ℕ
fields_text [] = []
fields_text ((name, value) ∷ fields) =
    (name ++ codes ": " ++ value ++ codes "\r\n") ++ fields_text fields

abbrev pub kept_fields : Texts → Bool → HeaderMap → Fields
kept_fields texts force [] = []
kept_fields texts force ((name, value) ∷ headers) =
    if is_dropped force name
    then kept_fields texts force headers
    else (texts.name_text name, value) ∷ kept_fields texts force headers

abbrev pub only_if : Bool → Fields → Fields
only_if b fields = if b then fields else []

abbrev pub length_fields : Texts → ResponseBodySize → Fields
length_fields texts none_size = []
length_fields texts stream_size = (codes "transfer-encoding", codes "chunked") ∷ []
length_fields texts (sized n) = (codes "content-length", texts.decimal n) ∷ []

-- The headers that are kept, then the fields for closing, for the length of the body and for the date
abbrev pub end_fields : Texts → List ℕ → Bool → Bool → Bool → ResponseBodySize → Fields
end_fields texts now force no_length no_date size =
    only_if force ((codes "connection", codes "close") ∷ [])
    ++ only_if (not no_length) (length_fields texts size)
    ++ only_if (not no_date) ((codes "date", now) ∷ [])

abbrev pub head_fields : Texts → List ℕ → Bool → Bool → HeaderMap → ResponseBodySize → Fields
head_fields texts now force silent headers size =
    kept_fields texts force headers
    ++ end_fields texts now force (silent || any_name sets_length headers)
        (any_name sets_date headers) size

abbrev pub head_text :
    Texts → List ℕ → Bool → Bool → Version → ℕ → HeaderMap → ResponseBodySize → List ℕ
head_text texts now force silent version status headers size =
    start_text texts version status
    ++ fields_text (head_fields texts now force silent headers size)
    ++ codes "\r\n"

fields_text-append : (xs ys : Fields) → fields_text (xs ++ ys) ≡ fields_text xs ++ fields_text ys
fields_text-append [] ys = refl
fields_text-append ((name, value) ∷ xs) ys =
    let front = name ++ codes ": " ++ value ++ codes "\r\n" in
    ap (λ (t : List ℕ). front ++ t) (fields_text-append xs ys)
    ∙ sym (append_assoc front (fields_text xs) (fields_text ys))

start_lem :
    (front code reason : List ℕ)
    → front ++ codes " " ++ code ++ codes " " ++ reason ++ codes "\r\n"
      ≡ (front ++ codes " ") ++ (code ++ codes " " ++ reason ++ codes "\r\n")
start_lem front code reason = simp append_assoc

status_line-start_text :
    (texts : Texts) (version : Version) (status : ℕ)
    → KnowsOk texts
    → status_line texts version status ≡ start_text texts version status
unfolding status_line
status_line-start_text texts http_10 status h = sym (start_lem (codes "HTTP/1.0") _ _)
status_line-start_text texts http_11 status h = elim (Bool-cases (status == 200)) [
  | inl is_200 ↦ let same : status ≡ 200 = ground arith in rw same (rw (h.0, h.1) refl)
  | inr no' ↦ rw no' (sym (start_lem (codes "HTTP/1.1") _ _))
]
status_line-start_text texts later status h = sym (start_lem (codes "HTTP/1.1") _ _)

lines-fields_text :
    (texts : Texts) (force : Bool) (headers : HeaderMap)
    → lines texts force headers ≡ fields_text (kept_fields texts force headers)
unfolding header_line
lines-fields_text texts force [] = refl
lines-fields_text texts force ((name, value) ∷ headers) =
    elim (Bool-cases (is_dropped force name)) [
      | inl drop' ↦ rw drop' (lines-fields_text texts force headers)
      | inr keep ↦ rw keep (
          ap (λ (t : List ℕ). (texts.name_text name ++ codes ": " ++ value ++ codes "\r\n") ++ t)
            (lines-fields_text texts force headers))
    ]

date_text :
    (now : List ℕ)
    → (codes "date" ++ codes ": " ++ now ++ codes "\r\n") ++ [] ++ codes "\r\n"
      ≡ codes "date: " ++ now ++ codes "\r\n\r\n"
date_text now = simp append_assoc

date_end :
    (now : List ℕ) (no_date : Bool)
    → fields_text (only_if (not no_date) ((codes "date", now) ∷ [])) ++ codes "\r\n"
      ≡ (if not no_date then codes "date: " ++ now ++ codes "\r\n\r\n" else codes "\r\n")
date_end now true = refl
date_end now false = date_text now

length_line-fields_text :
    (texts : Texts) (no_length : Bool) (size : ResponseBodySize)
    → (if not no_length then length_line texts size else [])
      ≡ fields_text (only_if (not no_length) (length_fields texts size))
unfolding length_line
length_line-fields_text texts true size = refl
length_line-fields_text texts false none_size = refl
length_line-fields_text texts false stream_size = refl
length_line-fields_text texts false (sized n) = sym (append-nil _)

close_text :
    (force : Bool)
    → (if force then codes "connection: close\r\n" else [])
      ≡ fields_text (only_if force ((codes "connection", codes "close") ∷ []))
close_text true = refl
close_text false = refl

told_end-fields_text :
    (texts : Texts) (now : List ℕ) (force no_length no_date : Bool) (size : ResponseBodySize)
    → told_end texts now force no_length no_date size
      ≡ fields_text (end_fields texts now force no_length no_date size) ++ codes "\r\n"
told_end-fields_text texts now force no_length no_date size =
    let closing = only_if force ((codes "connection", codes "close") ∷ []) in
    let sizing = only_if (not no_length) (length_fields texts size) in
    let dating = only_if (not no_date) ((codes "date", now) ∷ []) in
    let split =
      fields_text-append (closing ++ sizing) dating
      ∙ ap (λ (t : List ℕ). t ++ fields_text dating) (fields_text-append closing sizing) in
    rw (close_text force, length_line-fields_text texts no_length size, sym (date_end now no_date))
      (sym (
        ap (λ (t : List ℕ). t ++ codes "\r\n") split
        ∙ append_assoc (fields_text closing ++ fields_text sizing) (fields_text dating)
            (codes "\r\n")))

-- What is written is the head as it is laid out.
pub whole_head-head_text :
    (texts : Texts) (now : List ℕ) (force silent : Bool) (version : Version) (status : ℕ)
    (headers : HeaderMap) (size : ResponseBodySize)
    → KnowsOk texts
    → whole_head texts now force silent version status headers size
      ≡ head_text texts now force silent version status headers size
whole_head-head_text texts now force silent version status headers size h =
    let no_length = silent || any_name sets_length headers in
    let no_date = any_name sets_date headers in
    let kept = kept_fields texts force headers in
    let ends = end_fields texts now force no_length no_date size in
    let start = start_text texts version status in
    rw
      (
        status_line-start_text texts version status h,
        lines-fields_text texts force headers,
        told_end-fields_text texts now force no_length no_date size,
        fields_text-append kept ends,
      )
      (regrouped start (fields_text kept) (fields_text ends) (codes "\r\n"))
  where
    regrouped : (a b c d : List ℕ) → (a ++ b) ++ (c ++ d) ≡ (a ++ (b ++ c)) ++ d
    regrouped a b c d = simp append_assoc
