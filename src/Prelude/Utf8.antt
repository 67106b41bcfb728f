-- ===== src/Prelude/Utf8.antt =====
-- `String::from_utf8_lossy` of the standard library, over bytes: a maximal ill-formed piece becomes
-- the three bytes of U+FFFD.
use Prim.Native.Nat.{ℕ, zero, suc, ◌+◌}
use mathlib.Core.Path.{◌≡◌, refl}
use mathlib.Core.Bool.{Bool, true, false, ◌&&◌}
use mathlib.Core.List.{List, [], ◌∷◌, ◌++◌}
use native.Mathlib.Omega.{arith}
use actix_server_alt.Prelude.Tests.{ltb, leb, ◌==◌, if◌then◌else◌}
use actix_server_alt.Prelude.Lists.{length, take, drop, take-append-drop}

between : ℕ → ℕ → ℕ → Bool
between lo hi b = leb lo b && leb b hi

-- Whether `c` may follow the first byte `b` of a sequence of three or four bytes.
second_fits : ℕ → ℕ → Bool
unfolding between
second_fits b c =
    if b == 0xe0
    then between 0xa0 0xbf c
    else if b == 0xed
    then between 0x80 0x9f c
    else if b == 0xf0
    then between 0x90 0xbf c
    else if b == 0xf4
    then between 0x80 0x8f c
    else between 0x80 0xbf c

-- `need` more continuation bytes after `seen` bytes: the size of the piece, and whether it is whole.
continuations : ℕ → ℕ → List ℕ → ℕ × Bool
unfolding between
continuations zero seen rest = (seen, true)
continuations (suc need) seen [] = (seen, false)
continuations (suc need) seen (c ∷ rest) =
    let more = continuations need (seen + 1) rest in
    if between 0x80 0xbf c then more else (seen, false)

long_piece : ℕ → ℕ → List ℕ → ℕ × Bool
unfolding second_fits continuations
long_piece need b [] = (1, false)
long_piece need b (c ∷ rest) = if second_fits b c then continuations need 2 rest else (1, false)

-- The size of the first piece of a text, and whether it is a well-formed character.
piece : ℕ → List ℕ → ℕ × Bool
unfolding between continuations long_piece
piece b rest =
    if ltb b 0x80
    then (1, true)
    else if between 0xc2 0xdf b
    then continuations 1 1 rest
    else if between 0xe0 0xef b
    then long_piece 1 b rest
    else if between 0xf0 0xf4 b
    then long_piece 2 b rest
    else (1, false)

lossy : ℕ → List ℕ → List ℕ
unfolding piece
lossy zero src = []
lossy (suc fuel) [] = []
lossy (suc fuel) (b ∷ bs) =
    let p = piece b bs in
    let rest = lossy fuel (drop p.0 (b ∷ bs)) in
    if p.1 then take p.0 (b ∷ bs) ++ rest else 0xef ∷ 0xbf ∷ 0xbd ∷ rest

-- Each round takes a byte at least.
unfoldable pub from_utf8_lossy : List ℕ → List ℕ
unfolding lossy
from_utf8_lossy src = lossy (length src) src

well_formed : ℕ → List ℕ → Bool
unfolding piece
well_formed zero [] = true
well_formed zero (b ∷ bs) = false
well_formed (suc fuel) [] = true
well_formed (suc fuel) (b ∷ bs) =
    let p = piece b bs in let rest = well_formed fuel (drop p.0 (b ∷ bs)) in p.1 && rest

-- The bytes of a Rust `String`.
unfoldable pub is_utf8 : List ℕ → Bool
unfolding well_formed
is_utf8 src = well_formed (length src) src

lossy_lem : (fuel : ℕ) (src : List ℕ) → well_formed fuel src ≡ true → lossy fuel src ≡ src
unfolding lossy well_formed
lossy_lem zero [] h = refl
lossy_lem zero (b ∷ bs) h = cc
lossy_lem (suc fuel) [] h = refl
lossy_lem (suc fuel) (b ∷ bs) h =
    let n = (piece b bs).0 in
    ground (arith, take-append-drop n (b ∷ bs), lossy_lem fuel (drop n (b ∷ bs)))

-- A text that is well formed is left as it is.
pub from_utf8_lossy_lem : (src : List ℕ) → is_utf8 src ≡ true → from_utf8_lossy src ≡ src
unfolding from_utf8_lossy is_utf8
from_utf8_lossy_lem src h = lossy_lem (length src) src h
