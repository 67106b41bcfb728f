-- ===== src/Prelude/Text.antt =====
-- Texts as lists of bytes: what header values are tested by.
use Prim.Native.Char.{code}
use Prim.Native.String.{String}
use Prim.Native.Nat.{ℕ, ◌+◌, ◌-◌, ◌*◌, ◌^◌}
use mathlib.Core.Bool.{Bool, true, false, ◌&&◌, ◌||◌}
use mathlib.Core.Option.{Option, none, some}
use mathlib.Core.List.{List, [], ◌∷◌, map, reverse}
use actix_server_alt.Prelude.Tests.{ltb, leb, ◌==◌, if◌then◌else◌}

-- The bytes of an ASCII text
abbrev pub codes : String → List ℕ
codes String.[] = []
codes (String.◌∷◌ c s) = code c ∷ codes s

-- `HeaderValue::to_str`: the value is visible ASCII, blanks and tabs.
unfoldable pub is_visible : List ℕ → Bool
is_visible [] = true
is_visible (b ∷ bytes) = (b == 9 || (leb 32 b && ltb b 127)) && is_visible bytes

unfoldable pub to_ascii_lowercase : ℕ → ℕ
to_ascii_lowercase b = if leb b'A' b && leb b b'Z' then b + 32 else b

unfoldable pub same_bytes : List ℕ → List ℕ → Bool
same_bytes [] [] = true
same_bytes (x ∷ xs) (y ∷ ys) = x == y && same_bytes xs ys
same_bytes _ _ = false

-- `str::eq_ignore_ascii_case`
unfoldable pub eq_ignore_ascii_case : List ℕ → List ℕ → Bool
unfolding same_bytes to_ascii_lowercase
eq_ignore_ascii_case a b = same_bytes (map to_ascii_lowercase a) (map to_ascii_lowercase b)

unfoldable pub trim_start : List ℕ → List ℕ
trim_start [] = []
trim_start (b ∷ s) = let rest = trim_start s in if b == 32 || b == 9 then rest else b ∷ s

-- `str::trim` of a visible text, whose only white space is blanks and tabs.
unfoldable pub trim : List ℕ → List ℕ
unfolding trim_start
trim s = reverse (trim_start (reverse (trim_start s)))

-- The digits of `u64::from_str`, with its checks of the multiplication and the addition.
unfoldable pub parse_digits : ℕ → List ℕ → Option ℕ
parse_digits acc [] = some acc
parse_digits acc (b ∷ s) =
    let next = acc * 10 + (b - 48) in
    let rest = parse_digits next s in
    if leb 48 b && leb b 57 then (if ltb next (2 ^ 64) then rest else none) else none

-- `u64::from_str`: a sign `+` may stand in front, and one digit at least must be there.
unfoldable pub parse_u64 : List ℕ → Option ℕ
unfolding parse_digits
parse_u64 [] = none
parse_u64 (b ∷ []) = if b == b'+' then none else parse_digits 0 (b ∷ [])
parse_u64 (b ∷ c ∷ s) = parse_digits 0 (if b == b'+' then c ∷ s else b ∷ c ∷ s)
