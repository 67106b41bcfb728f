-- ===== src/H1/Head/Framing/Rounds.antt =====
-- The loop over the headers in actix-http-alt/src/h1/proto/decode.rs, by what the headers say of the body.
use actix_server_alt.Prelude.{
  ℕ, ◌≡◌, ◌↔◌, refl, sym, ap, ◌∙◌, inl, inr, true, false, Bool-cases, Option-cases, Option, none,
  some, List, [], ◌∷◌, ◌++◌, append-nil, append_assoc, map, arith, ◌==◌, Result, ok, err,
}
use actix_server_alt.Prelude.Text.{is_visible, eq_ignore_ascii_case, trim, parse_u64}
use actix_server_alt.H1.Header.{
  Version, http_10, http_11, later, HeaderName, transfer_encoding, content_length, connection,
  expect, upgrade, date, named, HeaderMap,
}
use actix_server_alt.H1.Decode.{sized, chunked, plain, until_eof, reset}
use actix_server_alt.H1.Head.{ProtoError, parse, header, Failure, refused}
use actix_server_alt.H1.Head.Read.{
  HeadState, chunked_text, keep_alive_text, close_text, upgrade_text, reset_decoder,
  on_transfer_encoding, on_content_length, on_connection, on_expect, on_upgrade, on_header,
  read_headers,
}
use actix_server_alt.H1.Head.Framing.{
  Framing, by_chunks, by_upgrade, by_length, framing, framing_before, framings, IsGood, AllGood,
  clash, Agree, last, decoder_of,
}

-- One round of the loop over the headers, by what the header says.
data HeaderRead (version : Version) (name : HeaderName) (value : List ℕ) (before : Option Framing)
    (s : HeadState) (r : Result ProtoError HeadState) : Type 0 where
  kept :
      (s' : HeadState)
      → r ≡ ok s'
      → IsGood version name value
      → framing name value ≡ none
      → s'.decoder ≡ s.decoder
      → s'.headers ≡ s.headers
      → HeaderRead version name value before s r
  framed :
      (f : Framing) (s' : HeadState)
      → r ≡ ok s'
      → IsGood version name value
      → framing name value ≡ some f
      → clash before f ≡ false
      → s'.decoder ≡ decoder_of (some f)
      → s'.headers ≡ s.headers
      → HeaderRead version name value before s r
  clashed :
      (f : Framing)
      → r ≡ err (parse header)
      → framing name value ≡ some f
      → clash before f ≡ true
      → HeaderRead version name value before s r
  bad :
      r ≡ err (parse header)
      → ¬ IsGood version name value
      → HeaderRead version name value before s r

-- `reset` of the decoder refuses exactly a clash.
data ResetTo (f : Framing) (before : Option Framing) (s : HeadState) : Type 0 where
  fits :
      clash before f ≡ false
      → reset_decoder s (decoder_of (some f)) ≡ ok (record s { decoder = decoder_of (some f) })
      → ResetTo f before s
  fails :
      clash before f ≡ true
      → reset_decoder s (decoder_of (some f)) ≡ err (parse header)
      → ResetTo f before s

reset_to :
    (f : Framing) (before : Option Framing) (s : HeadState)
    → s.decoder ≡ decoder_of before
    → ResetTo f before s
unfolding reset_decoder reset chunked plain sized until_eof
reset_to by_chunks none s q = fits refl (rw q)
reset_to by_chunks (some by_chunks) s q = fits refl (rw q)
reset_to by_chunks (some by_upgrade) s q = fits refl (rw q)
reset_to by_chunks (some (by_length m)) s q = fails refl (rw q)
reset_to by_upgrade none s q = fits refl (rw q)
reset_to by_upgrade (some by_chunks) s q = fits refl (rw q)
reset_to by_upgrade (some by_upgrade) s q = fits refl (rw q)
reset_to by_upgrade (some (by_length m)) s q = fits refl (rw q)
reset_to (by_length n) none s q = fits refl (rw q)
reset_to (by_length n) (some by_chunks) s q = fails refl (rw q)
reset_to (by_length n) (some by_upgrade) s q = fits refl (rw q)
reset_to (by_length n) (some (by_length m)) s q = fits refl (rw q)

-- A header that resets the decoder
reset-Read :
    (version : Version) (name : HeaderName) (value : List ℕ) (before : Option Framing)
    (s : HeadState) (f : Framing)
    → s.decoder ≡ decoder_of before
    → IsGood version name value
    → framing name value ≡ some f
    → HeaderRead version name value before s (reset_decoder s (decoder_of (some f)))
reset-Read version name value before s f q good e = elim (reset_to f before s q) [
  | fits c r ↦ framed f (record s { decoder = decoder_of (some f) }) r good e c refl refl
  | fails c r ↦ clashed f r e c
]

on_transfer_encoding-Read :
    (version : Version) (value : List ℕ) (before : Option Framing) (s : HeadState)
    → s.decoder ≡ decoder_of before
    → HeaderRead version transfer_encoding value before s (on_transfer_encoding version value s)
unfolding on_transfer_encoding
on_transfer_encoding-Read http_10 value before s q = bad refl (λ g. let e = g.0 in cc)
on_transfer_encoding-Read later value before s q = bad refl (λ g. let e = g.0 in cc)
on_transfer_encoding-Read http_11 value before s q = elim (Bool-cases (is_visible value)) [
  | inr hidden ↦ rw hidden (bad refl (λ g. let e = g.1 in cc))
  | inl visible ↦ rw visible elim (Bool-cases (eq_ignore_ascii_case (trim value) chunked_text)) [
    | inl yes' ↦
        rw yes' (
          reset-Read http_11 transfer_encoding value before s by_chunks q (refl, visible) (rw yes'))
    | inr no' ↦ rw no' (kept s refl (refl, visible) (rw no') refl refl)
  ]
]

on_content_length-Read :
    (version : Version) (value : List ℕ) (before : Option Framing) (s : HeadState)
    → s.decoder ≡ decoder_of before
    → HeaderRead version content_length value before s (on_content_length value s)
unfolding on_content_length
on_content_length-Read version value before s q = elim (Bool-cases (is_visible value)) [
  | inr hidden ↦ rw hidden (bad refl (λ g. let e = g.0 in cc))
  | inl visible ↦ rw visible elim (Option-cases (parse_u64 value)) [
    | inl unread ↦ rw unread (bad refl (λ g. let (n, e) = g.1 in cc))
    | inr (n, read) ↦ rw read elim (Bool-cases (n == 0)) [
      | inl zero' ↦ rw zero' (kept s refl (visible, (n, read)) (rw (read, zero')) refl refl)
      | inr some' ↦ rw some' (
          reset-Read version content_length value before s (by_length n) q (visible, (n, read))
            (rw (read, some')))
    ]
  ]
]

clash-by_upgrade : (before : Option Framing) → clash before by_upgrade ≡ false
clash-by_upgrade none = refl
clash-by_upgrade (some by_chunks) = refl
clash-by_upgrade (some by_upgrade) = refl
clash-by_upgrade (some (by_length n)) = refl

on_connection-Read :
    (version : Version) (value : List ℕ) (before : Option Framing) (s : HeadState)
    → HeaderRead version connection value before s (ok (on_connection value s))
unfolding on_connection
on_connection-Read version value before s = elim (Bool-cases (is_visible value)) [
  | inr hidden ↦ rw hidden (kept s refl tt (rw hidden) refl refl)
  | inl visible ↦ rw visible elim (Bool-cases (eq_ignore_ascii_case (trim value) keep_alive_text)) [
    | inl alive ↦ rw alive (kept _ refl tt (rw (visible, alive)) refl refl)
    | inr dead ↦ rw dead elim (Bool-cases (eq_ignore_ascii_case (trim value) close_text)) [
      | inl closed ↦ rw closed (kept _ refl tt (rw (visible, dead, closed)) refl refl)
      | inr opened ↦ rw opened elim (Bool-cases (eq_ignore_ascii_case (trim value) upgrade_text)) [
        | inl up ↦ rw up (
            framed by_upgrade _ refl tt (rw (visible, dead, opened, up)) (clash-by_upgrade before)
              refl refl)
        | inr other ↦ rw other (kept s refl tt (rw (visible, dead, opened, other)) refl refl)
      ]
    ]
  ]
]

on_expect-decoder :
    (value : List ℕ) (s : HeadState)
    → ((on_expect value s).decoder ≡ s.decoder) × ((on_expect value s).headers ≡ s.headers)
unfolding on_expect
on_expect-decoder value s = ground arith

on_upgrade-decoder :
    (version : Version) (s : HeadState)
    → ((on_upgrade version s).decoder ≡ s.decoder) × ((on_upgrade version s).headers ≡ s.headers)
unfolding on_upgrade
on_upgrade-decoder http_11 s = (refl, refl)
on_upgrade-decoder http_10 s = (refl, refl)
on_upgrade-decoder later s = (refl, refl)

on_header-Read :
    (version : Version) (name : HeaderName) (value : List ℕ) (before : Option Framing)
    (s : HeadState)
    → s.decoder ≡ decoder_of before
    → HeaderRead version name value before s (on_header version name value s)
unfolding on_header
on_header-Read version transfer_encoding value before s q =
    on_transfer_encoding-Read version value before s q
on_header-Read version content_length value before s q =
    on_content_length-Read version value before s q
on_header-Read version connection value before s q = on_connection-Read version value before s
on_header-Read version expect value before s q =
    let (d, h) = on_expect-decoder value s in kept (on_expect value s) refl tt refl d h
on_header-Read version upgrade value before s q =
    let (d, h) = on_upgrade-decoder version s in kept (on_upgrade version s) refl tt refl d h
on_header-Read version date value before s q = kept s refl tt refl refl refl
on_header-Read version (named text) value before s q = kept s refl tt refl refl refl

-- How a loop over the headers ends: all are read, and the last that says something of the body tells
-- its decoder, exactly if each is good and no two neighbours among these contradict each other.
pub data Outcome (version : Version) (headers : HeaderMap) (before : Option Framing) (s : HeadState)
    (r : HeadState × Result Failure (Unit {0})) : Type 0 where
  reads :
      AllGood version headers
      → Agree before (framings headers)
      → r.1 ≡ ok tt
      → r.0.decoder ≡ decoder_of (last before (framings headers))
      → r.0.headers ≡ s.headers ++ headers
      → Outcome version headers before s r
  refuses :
      ¬ (AllGood version headers × Agree before (framings headers))
      → r.1 ≡ err (refused (parse header))
      → Outcome version headers before s r

-- A header in front of those that the loop still has.
abbrev append_header : HeadState → HeaderName → List ℕ → HeadState
append_header s name value = record s { headers = s.headers ++ (name, value) ∷ [] }

header_first :
    (version : Version) (name : HeaderName) (value : List ℕ) (headers : HeaderMap)
    (before after : Option Framing) (s s' : HeadState) (r : HeadState × Result Failure (Unit {0}))
    → IsGood version name value
    → s'.headers ≡ s.headers
    → (Agree after (framings headers) ↔ Agree before (framings ((name, value) ∷ headers)))
    → last after (framings headers) ≡ last before (framings ((name, value) ∷ headers))
    → Outcome version headers after (append_header s' name value) r
    → Outcome version ((name, value) ∷ headers) before s r
header_first version name value headers before after s s' r good h agree l
      (reads goods agrees q d m) =
    reads (good, goods) (agree.0 agrees) q (d ∙ ap decoder_of l)
      (m
        ∙ append_assoc s'.headers ((name, value) ∷ []) headers
        ∙ ap (λ (t : HeaderMap). t ++ (name, value) ∷ headers) h)
header_first version name value headers before after s s' r good h agree l (refuses no' q) =
    refuses (λ g. no' (g.0.1, agree.1 g.1)) q

clash-Agree :
    (before : Option Framing) (f : Framing) (o : Option Framing) (fs : List Framing)
    → o ≡ some f
    → clash before f ≡ true
    → ¬ Agree before (framing_before o fs)
clash-Agree before f none fs e c a = cc
clash-Agree before f (some g) fs e c a = let fit = a.0 in cc

pub read_headers-Outcome :
    (version : Version) (headers : HeaderMap) (before : Option Framing) (s : HeadState)
    → s.decoder ≡ decoder_of before
    → Outcome version headers before s (read_headers version (map some headers) s)
unfolding read_headers
read_headers-Outcome version [] before s q = reads tt tt refl q (sym (append-nil s.headers))
read_headers-Outcome version ((name, value) ∷ headers) before s q =
    elim (on_header-Read version name value before s q) [
      | bad r ng ↦ rw r (refuses (λ g. ng g.0.0) refl)
      | clashed f r e c ↦
          rw r (
            refuses (λ g. clash-Agree before f (framing name value) (framings headers) e c g.1)
              refl)
      | kept s' r good e d h ↦ rw r (
          header_first version name value headers before before s s' _ good h
            (rw e ((λ a. a), (λ a. a))) (rw e)
            (read_headers-Outcome version headers before (append_header s' name value) (d ∙ q)))
      | framed f s' r good e c d h ↦ rw r (
          header_first version name value headers before (some f) s s' _ good h
            (rw e ((λ a. (c, a)), (λ a. a.1))) (rw e)
            (read_headers-Outcome version headers (some f) (append_header s' name value) d))
    ]
