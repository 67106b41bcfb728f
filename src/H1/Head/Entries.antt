-- ===== src/H1/Head/Entries.antt =====
-- What the headers of a response mean to actix-http-alt/src/h1/proto/encode.rs, as it drains them.
use actix_server_alt.Prelude.{
  ℕ, ◌≡◌, refl, ap, Bool, true, false, ◌||◌, ◌&&◌, Option, none, some, List, [], ◌∷◌, ◌++◌, map,
  arith, if◌then◌else◌,
}
use actix_server_alt.Prelude.Text.{codes, is_visible, eq_ignore_ascii_case, trim}
use actix_server_alt.H1.Header.{
  HeaderName, transfer_encoding, content_length, connection, date, HeaderMap,
}
use actix_server_alt.H1.Context.{ConnectionType}
use actix_server_alt.H1.Head.{parse, header_value, Failure, refused, panicked}
use actix_server_alt.H1.Head.Write.{Texts, split_commas, header_line}

-- What one token of the header "Connection" says, and what a list of tokens says: the last one counts.
abbrev pub token_type : List ℕ → Option ConnectionType
token_type text =
    if eq_ignore_ascii_case text (codes "close")
    then some ConnectionType.close
    else if eq_ignore_ascii_case text (codes "keep-alive")
    then some ConnectionType.keep_alive
    else if eq_ignore_ascii_case text (codes "upgrade")
    then some ConnectionType.upgrade
    else none

abbrev pub or_before : ConnectionType → Option ConnectionType → ConnectionType
or_before before none = before
or_before before (some t) = t

abbrev pub last_type : ConnectionType → List (List ℕ) → ConnectionType
last_type before [] = before
last_type before (val ∷ vals) = last_type (or_before before (token_type (trim val))) vals

-- A connection that is to be closed says so itself, and drops what the headers say of it.
abbrev pub is_dropped : Bool → HeaderName → Bool
is_dropped force connection = force
is_dropped force _ = false

abbrev pub lines : Texts → Bool → HeaderMap → List ℕ
lines texts force [] = []
lines texts force ((name, value) ∷ headers) =
    (if is_dropped force name then [] else header_line texts name value)
    ++ lines texts force headers

abbrev pub sets_length : HeaderName → Bool
sets_length content_length = true
sets_length transfer_encoding = true
sets_length _ = false

abbrev pub sets_date : HeaderName → Bool
sets_date date = true
sets_date _ = false

abbrev pub any_name : (HeaderName → Bool) → HeaderMap → Bool
any_name p [] = false
any_name p ((name, value) ∷ headers) = p name || any_name p headers

abbrev pub type_after : Bool → HeaderName → List ℕ → ConnectionType → ConnectionType
type_after force connection value before =
    if force then before else last_type before (split_commas value)
type_after force _ value before = before

abbrev pub types_after : Bool → HeaderMap → ConnectionType → ConnectionType
types_after force [] before = before
types_after force ((name, value) ∷ headers) before =
    types_after force headers (type_after force name value before)

-- A value of "Connection" that is read has to be a text.
abbrev pub is_fit : Bool → HeaderName → List ℕ → Bool
is_fit force connection value = force || is_visible value
is_fit force _ value = true

abbrev pub AllFit : Bool → HeaderMap → Type 0
AllFit force [] = Unit
AllFit force ((name, value) ∷ headers) = (is_fit force name value ≡ true) × AllFit force headers

-- The entries of a header map as they are drained: a further value of a header has no name.
abbrev pub Entries : Type 0
Entries = List (Option HeaderName × List ℕ)

-- The headers of the entries with a name
abbrev pub given : Entries → HeaderMap
given [] = []
given ((none, value) ∷ entries) = given entries
given ((some name, value) ∷ entries) = (name, value) ∷ given entries

-- Why the entries cannot be written, for the first that is at fault: it has no name; it is one more
-- header for the length, or one where the length is skipped, in a debug build; or it is a value of
-- "Connection" that is read and is no text.
abbrev pub fault : Bool → Bool → Bool → Entries → Option Failure
fault debug force skip [] = none
fault debug force skip ((none, value) ∷ entries) = some panicked
fault debug force skip ((some name, value) ∷ entries) =
    if (debug && skip) && sets_length name
    then some panicked
    else if is_fit force name value
    then fault debug force (skip || sets_length name) entries
    else some (refused (parse header_value))

abbrev pub named_entry : HeaderName × List ℕ → Option HeaderName × List ℕ
named_entry (name, value) = (some name, value)

pub given-named_entry : (headers : HeaderMap) → given (map named_entry headers) ≡ headers
given-named_entry [] = refl
given-named_entry (header ∷ headers) =
    ap (λ (t : HeaderMap). header ∷ t) (given-named_entry headers)

-- Headers with one value each, of which none is for the length and those that are read are texts
pub fault_unset :
    (debug force : Bool) (headers : HeaderMap)
    → any_name sets_length headers ≡ false
    → AllFit force headers
    → fault debug force false (map named_entry headers) ≡ none
fault_unset debug force [] unset fits = refl
fault_unset debug force ((name, value) ∷ headers) unset fits =
    let other : sets_length name ≡ false = ground arith in
    let others : any_name sets_length headers ≡ false = ground arith in
    let front : ((debug && false) && sets_length name) ≡ false = ground arith in
    rw (front, fits.0, other) (fault_unset debug force headers others fits.1)
