-- ===== src/Prelude/Bits.antt =====
-- Laws of the bit operations: tables over one byte, and the digit recursion of `bit_xor`.
use Prim.Native.Nat.{ℕ, zero, suc, ◌+◌, ◌*◌, ◌/◌, ◌%◌, ◌<◌, bit_and, bit_or}
use mathlib.Core.Path.{◌≡◌, refl}
use mathlib.Core.Bool.{Bool, true, ◌&&◌}
use native.Mathlib.Omega.{arith}
use actix_server_alt.Prelude.Tests.{◌==◌, ==_iff}

-- A law of one byte is a table over its values.
pub passes : (ℕ → Bool) → ℕ → Bool
passes test zero = true
passes test (suc bound) = passes test bound && test bound

pub passes_at :
    (test : ℕ → Bool) (bound i : ℕ) → passes test bound ≡ true → i < bound → test i ≡ true
unfolding passes
passes_at test zero i all below = absurd (omega arith)
passes_at test (suc bound) i all below = ground (arith, passes_at test bound i)

module _ (f g : ℕ → ℕ) where
  abbrev pub AgreeBelow : ℕ → Type 0
  AgreeBelow n = passes (λ x. f x == g x) n ≡ true

  pub eq_below : (n : ℕ) → AgreeBelow n → (x : ℕ) → x < n → f x ≡ g x
  eq_below n table x h = (==_iff _ _).0 (passes_at _ n x table h)

pub bit_and-0x80 : (b : ℕ) → b < 256 → bit_and b 0x80 ≡ b / 128 * 128
unfolding passes
bit_and-0x80 = eq_below _ _ 256 refl

pub bit_and-0x7f : (b : ℕ) → b < 256 → bit_and b 0x7f ≡ b % 128
unfolding passes
bit_and-0x7f = eq_below _ _ 256 refl

pub bit_and-0x0f : (b : ℕ) → b < 256 → bit_and b 0x0f ≡ b % 16
unfolding passes
bit_and-0x0f = eq_below _ _ 256 refl

pub bit_or-0x80 : (b : ℕ) → b < 128 → bit_or 0x80 b ≡ b + 128
unfolding passes
bit_or-0x80 = eq_below _ _ 128 refl

pub bit_or_zero : (b : ℕ) → b < 256 → bit_or 0 b ≡ b
unfolding passes
bit_or_zero = eq_below _ _ 256 refl
