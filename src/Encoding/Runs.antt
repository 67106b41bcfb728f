-- ===== src/Encoding/Runs.antt =====
-- Runs of the coders on concrete streams.
use mathlib.Core.List.{flatten}
use actix_server_alt.Prelude.{
  Option, if◌then◌else◌, ℕ, ◌≡◌, refl, sym, ap, ◌∙◌, arith, true, false, some, List, [], ◌∷◌, ◌++◌,
  append-nil, append_assoc, map, Result, ok, err,
}
use actix_server_alt.Prelude.Text.{codes, same_bytes}
use actix_server_alt.Encoding.Coding.{ContentEncoding}
use actix_server_alt.Encoding.Negotiate.{
  Codecs, ContentCoder, Feature, Features, Parts, content_encoding, content_length,
  transfer_encoding, try_encoder_from_response,
}
use actix_server_alt.Encoding.Negotiate.Pairs.{IsPair, ArePairs}
use actix_server_alt.Encoding.Negotiate.RoundTrip.{ComesBack, try_decoder-try_encoder}
use actix_server_alt.Encoding.Coder.{Coder, CoderError, new, Round, poll_next}
use actix_server_alt.Encoding.Coder.Yields.{coded, Yields, left, poll_next-Yields}
use actix_server_alt.Encoding.Coder.Complete.{collect, collect-coded}
use actix_server_alt.Encoding.Compress.{Codec, coder}
use actix_server_alt.Encoding.Compress.RoundTrip.{made, fresh, IsInverse}

-- A codec that keeps all bytes until it is finished
abbrev keeping : Codec (List ℕ) (Unit {0})
keeping = record {
  feed = λ s bytes. ok (s ++ bytes, []);
  flush = λ s. ok (s, []);
  finish = λ s. ok s;
}

-- A codec that hands the bytes on
abbrev passing : Codec (Unit {0}) (Unit {0})
passing = record { feed = λ s bytes. ok (s, bytes); flush = λ s. ok (s, []); finish = λ s. ok [] }

made-keeping : (items : List (List ℕ)) (s : List ℕ) → made keeping items s ≡ ok (s ++ flatten items)
unfolding made flatten
made-keeping [] s = rw (append-nil s) refl
made-keeping (item ∷ items) s =
    rw (made-keeping items (s ++ item)) (ap ok (append_assoc s item (flatten items)))

made-passing : (items : List (List ℕ)) → made passing items tt ≡ ok (flatten items)
unfolding made flatten
made-passing [] = refl
made-passing (item ∷ items) =
    rw (made-passing items) (ap (λ (t : List ℕ). ok (t ++ flatten items)) (append-nil item))

keeping-IsInverse : IsInverse keeping passing [] tt
keeping-IsInverse items pieces bytes h e =
    let same : flatten items ≡ bytes = let z = sym (made-keeping items []) ∙ h in cc in
    made-passing pieces ∙ ap ok (e ∙ sym same)

abbrev words : List (List ℕ)
words = (104 ∷ 105 ∷ []) ∷ [] ∷ (33 ∷ []) ∷ []

abbrev same_thread : {A : Type 0} → A → A
same_thread r = r

abbrev encoded : ℕ → Option (List (Result (CoderError (Unit {0}) ℕ) (List ℕ)))
encoded polls = collect {E = ℕ} (coder keeping 2 same_thread) polls (new (map ok words) (fresh []))

one_piece : encoded 5 ≡ some (ok (104 ∷ 105 ∷ 33 ∷ []) ∷ [])
unfolding collect poll_next new coder
one_piece = refl

abbrev with_error : List (Result ℕ (List ℕ))
with_error = ok (104 ∷ []) ∷ err 7 ∷ ok (105 ∷ []) ∷ []

collect-coded_example :
    collect (coder keeping 2 same_thread) 5 (new with_error (fresh []))
    ≡ some (coded (coder keeping 2 same_thread) with_error (fresh []))
collect-coded_example =
    collect-coded (coder keeping 2 same_thread) with_error (fresh []) 5 (omega arith)

-- The stream is not ready when it is polled for the second item.
abbrev rounds : List Round
rounds = record { coded = true; next = true } ∷ record { coded = true; next = false } ∷ []

poll_next-Yields_example :
    Yields
      (coder keeping 2 same_thread)
      (left (coder keeping 2 same_thread) (new with_error (fresh [])))
      (poll_next (coder keeping 2 same_thread) rounds (new with_error (fresh [])))
unfolding new
poll_next-Yields_example =
    poll_next-Yields (coder keeping 2 same_thread) rounds (new with_error (fresh [])) tt

-- The codecs of the tests stand for those of other crates.
abbrev encoders : Codecs (List ℕ) (List ℕ) (List ℕ) (Unit {0})
encoders = record {
  br = keeping;
  br_state = [];
  gz = keeping;
  gz_state = [];
  de = keeping;
  de_state = [];
  spawn_br = same_thread;
  spawn_gz = same_thread;
  spawn_de = same_thread;
}

abbrev decoders : Codecs (Unit {0}) (Unit {0}) (Unit {0}) (Unit {0})
decoders = record {
  br = passing;
  br_state = tt;
  gz = passing;
  gz_state = tt;
  de = passing;
  de_state = tt;
  spawn_br = same_thread;
  spawn_gz = same_thread;
  spawn_de = same_thread;
}

keeping-IsPair : IsPair keeping passing [] tt same_thread same_thread
keeping-IsPair = record {
  encodes = λ items. (_, made-keeping items []);
  inverse = keeping-IsInverse;
  runs = λ r. refl;
  runs' = λ r. refl;
}

decoders-ArePairs : ArePairs encoders decoders
decoders-ArePairs = record { br = keeping-IsPair; gz = keeping-IsPair; de = keeping-IsPair }

abbrev only_gzip : Features
only_gzip = record { br = false; gz = true; de = false }

abbrev plain_parts : Parts
plain_parts = record {
  status = 200;
  headers = λ name. if same_bytes name content_length then codes "3" ∷ [] else [];
}

try_decoder-try_encoder_example :
    ComesBack ℕ ℕ encoders decoders only_gzip words
      (try_encoder_from_response encoders only_gzip plain_parts (map ok words) ContentEncoding.gzip)
unfolding same_bytes
try_decoder-try_encoder_example =
    try_decoder-try_encoder ℕ ℕ encoders decoders decoders-ArePairs only_gzip plain_parts words
      ContentEncoding.gzip refl refl

-- The response says that it is encoded, and no longer how long it is.
abbrev headers_of :
    Result Feature
      (Parts × Coder (ContentCoder (List ℕ) (List ℕ) (List ℕ)) (List ℕ) (List ℕ) (Unit {0}) ℕ)
    → List ℕ
    → List (List ℕ)
headers_of (ok (parts, c)) name = parts.headers name
headers_of (err feature) name = []

marked :
    let headers = headers_of (
      try_encoder_from_response encoders only_gzip plain_parts
        (map ok words)
        ContentEncoding.gzip) in
    (headers content_encoding ≡ codes "gzip" ∷ [])
    × (headers content_length ≡ [])
    × (headers transfer_encoding ≡ codes "chunked" ∷ [])
unfolding try_encoder_from_response
marked = (refl, refl, refl)
