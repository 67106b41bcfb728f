-- ===== src/H1/Decode.antt =====
-- The body decoder of actix-http-alt/src/h1/proto/decode.rs.
pub mod Reference
use actix_server_alt.Prelude.{
  ℕ, zero, suc, ◌-◌, ◌%◌, Bool, true, false, Option, none, some, List, [], ◌∷◌, length, take, drop,
  ltb, ◌==◌, if◌then◌else◌, Result, ok, err, Poll, ready, pending,
}
use actix_server_alt.H1.Chunked.{ChunkedState, end, IoError, Stepped, step}
use actix_server_alt.H1.Kind.{Kind, decode_chunked, encode_chunked, plain_chunked}

-- `TransferDecoding`
pub record TransferDecoding : Type 0 where
  pub kind : Kind

unfoldable pub sized : ℕ → TransferDecoding
sized x = record { kind = Kind.length x }

unfoldable pub chunked : TransferDecoding
chunked = record { kind = decode_chunked ChunkedState.size 0 }

unfoldable pub plain : TransferDecoding
plain = record { kind = plain_chunked }

unfoldable pub until_eof : TransferDecoding
until_eof = record { kind = Kind.eof }

-- `ProtoError::Parse(Parse::Header)` is the only error of `reset`.
pub data ResetError : Type 0 where
  header : ResetError

reset_kind : Kind → Kind → TransferDecoding → TransferDecoding → Result ResetError TransferDecoding
reset_kind (decode_chunked _ _) (Kind.length _) old new = err header
reset_kind (Kind.length _) (decode_chunked _ _) old new = err header
reset_kind _ _ old new = ok new

-- `TransferDecoding::reset`
unfoldable pub reset : TransferDecoding → TransferDecoding → Result ResetError TransferDecoding
unfolding reset_kind
reset old new = reset_kind old.kind new.kind old new

unfoldable pub is_eof : TransferDecoding → Bool
is_eof d = elim d.kind [ Kind.eof ↦ true | _ ↦ false ]

-- `RequestBodyItem`
pub data RequestBodyItem : Type 0 where
  chunk : List ℕ → RequestBodyItem
  eof : RequestBodyItem

-- What a call leaves: the kind with its counters, the buffer, and the result.
pub record Outcome : Type 0 where
  pub kind : Kind
  pub src : List ℕ
  pub result : Result IoError (Option RequestBodyItem)

-- The rest of a round of the loop over the chunked states, behind the change of state.
unfoldable pub turn_round :
    ChunkedState
    → ℕ
    → (ChunkedState → ℕ → List ℕ → Option Outcome)
    → Option (List ℕ)
    → List ℕ
    → Option Outcome
turn_round next n again (some piece) src =
    some (record { kind = decode_chunked next n; src = src; result = ok (some (chunk piece)) })
turn_round next n again none [] =
    some (record { kind = decode_chunked next n; src = []; result = ok none })
turn_round next n again none (b ∷ src) = again next n (b ∷ src)

-- `match state.step(..)` and what follows it. An error and `Pending` leave the state as it was.
unfoldable pub after_step :
    ChunkedState
    → (ChunkedState → ℕ → List ℕ → Option Outcome)
    → Stepped
    → Poll (Result IoError ChunkedState)
    → Option Outcome
unfolding turn_round
after_step state again s pending =
    some (record { kind = decode_chunked state s.size; src = s.rdr; result = ok none })
after_step state again s (ready (err e)) =
    some (record { kind = decode_chunked state s.size; src = s.rdr; result = err e })
after_step state again s (ready (ok end)) =
    some (record { kind = decode_chunked end s.size; src = s.rdr; result = ok (some eof) })
after_step state again s (ready (ok next)) = turn_round next s.size again s.buf s.rdr

-- The loop over the chunked states, on fuel; `none` means that the fuel ran out.
unfoldable pub decode_loop : ℕ → ChunkedState → ℕ → List ℕ → Option Outcome
unfolding after_step
decode_loop zero state n src = none
decode_loop (suc fuel) state n src =
    let s = step state src n in after_step state (decode_loop fuel) s s.poll

-- `Kind::Length`: the subtraction cannot wrap, since it stands under the test.
unfoldable pub decode_length : ℕ → List ℕ → Outcome
decode_length remaining src =
    if remaining == 0
    then (record { kind = Kind.length 0; src = src; result = ok (some eof) })
    else if length src == 0
    then (record { kind = Kind.length remaining; src = src; result = ok none })
    else if ltb (length src) remaining
    then (record {
      kind = Kind.length (remaining - length src);
      src = [];
      result = ok (some (chunk src));
    })
    else (record {
      kind = Kind.length 0;
      src = drop remaining src;
      result = ok (some (chunk (take remaining src)));
    })

unfoldable pub decode_plain : Kind → List ℕ → Outcome
decode_plain kind [] = record { kind = kind; src = []; result = ok none }
decode_plain kind (b ∷ src) = record { kind = kind; src = []; result = ok (some (chunk (b ∷ src))) }

-- `TransferDecoding::decode`. A round of the chunked loop takes a byte or ends the loop, so one
-- round more than there are bytes is enough. An encoder is `unreachable!()`, which panics.
unfoldable pub decode : Kind → List ℕ → Option Outcome
unfolding decode_loop decode_length decode_plain
decode (Kind.length remaining) src = some (decode_length remaining src)
decode (decode_chunked state n) src = decode_loop (suc (length src)) state n src
decode Kind.eof src = some (decode_plain Kind.eof src)
decode plain_chunked src = some (decode_plain plain_chunked src)
decode (encode_chunked sent) src = none
