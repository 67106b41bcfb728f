-- ===== src/Prelude/Bytes.antt =====
-- Bytes as numbers below 256, and integers in big-endian order.
use Prim.Native.Nat.{ℕ, zero, suc, ◌+◌, ◌*◌, ◌/◌, ◌%◌, ◌^◌, ◌<◌}
use mathlib.Core.Path.{◌≡◌, ◌∙◌, ap}
use mathlib.Core.List.{List, [], ◌∷◌, foldl}
use native.Mathlib.Omega.{arith}
use native.Mathlib.Nat.{pow-suc}
use actix_server_alt.Prelude.Lists.{length, All}

abbrev pub IsByte : ℕ → Type 0
IsByte b = b < 256

abbrev pub next_byte : ℕ → ℕ → ℕ
next_byte acc b = acc * 256 + b

-- `from_be_bytes` of an array of any width.
unfoldable pub from_be_bytes : List ℕ → ℕ
from_be_bytes bs = foldl next_byte 0 bs

-- The `k` lowest bytes of `n`, in front of `rest`.
be_bytes_onto : ℕ → ℕ → List ℕ → List ℕ
be_bytes_onto zero n rest = rest
be_bytes_onto (suc k) n rest = be_bytes_onto k (n / 256) ((n % 256) ∷ rest)

-- `to_be_bytes` of a `k`-byte integer.
unfoldable pub to_be_bytes : ℕ → ℕ → List ℕ
unfolding be_bytes_onto
to_be_bytes k n = be_bytes_onto k n []

be_bytes_onto-length : (k n : ℕ) (rest : List ℕ) → length (be_bytes_onto k n rest) ≡ k + length rest
unfolding be_bytes_onto
be_bytes_onto-length zero n rest = omega arith
be_bytes_onto-length (suc k) n rest =
    omega (arith, be_bytes_onto-length k (n / 256) ((n % 256) ∷ rest))

pub length-to_be_bytes : (k n : ℕ) → length (to_be_bytes k n) ≡ k
unfolding to_be_bytes
length-to_be_bytes k n = omega (arith, be_bytes_onto-length k n [])

be_bytes_onto-IsByte :
    (k n : ℕ) (rest : List ℕ) → All IsByte rest → All IsByte (be_bytes_onto k n rest)
unfolding be_bytes_onto
be_bytes_onto-IsByte zero n rest h = h
be_bytes_onto-IsByte (suc k) n rest h =
    be_bytes_onto-IsByte k (n / 256) ((n % 256) ∷ rest) (omega arith, h)

pub to_be_bytes-IsByte : (k n : ℕ) → All IsByte (to_be_bytes k n)
unfolding to_be_bytes
to_be_bytes-IsByte k n = be_bytes_onto-IsByte k n [] tt

step_down : (k n : ℕ) → n < 256 ^ suc k → n / 256 < 256 ^ k
step_down k n h = omega (arith, pow-suc 256 k)

shift_in : (a k n : ℕ) → (a * 256 ^ k + n / 256) * 256 + n % 256 ≡ a * 256 ^ suc k + n
shift_in a k n = omega (arith, ap (λ (t : ℕ). a * t) (pow-suc 256 k))

foldl-be_bytes_onto :
    (k n a : ℕ) (rest : List ℕ)
    → n < 256 ^ k
    → foldl next_byte a (be_bytes_onto k n rest) ≡ foldl next_byte (a * 256 ^ k + n) rest
unfolding be_bytes_onto
foldl-be_bytes_onto zero n a rest h =
    ap (λ (t : ℕ). foldl next_byte t rest) (let e : a ≡ a * 256 ^ 0 + n = omega arith in e)
foldl-be_bytes_onto (suc k) n a rest h =
    foldl-be_bytes_onto k (n / 256) a ((n % 256) ∷ rest) (step_down k n h)
    ∙ ap (λ (t : ℕ). foldl next_byte t rest) (shift_in a k n)

-- What fits the width is read back as it was written.
pub from_be_bytes-to_be_bytes : (k n : ℕ) → n < 256 ^ k → from_be_bytes (to_be_bytes k n) ≡ n
unfolding from_be_bytes to_be_bytes
from_be_bytes-to_be_bytes k n h = foldl-be_bytes_onto k n 0 [] h ∙ omega arith
