-- ===== src/Prelude/Xor.antt =====
-- Laws of `bit_xor` at every width, from the recursion on digits that the operation stands for.
use Prim.Native.Nat.{
  ℕ, zero, suc, ◌+◌, ◌*◌, ◌/◌, ◌%◌, ◌^◌, ◌≤◌, ◌<◌, bit_xor, digits, differ, bit_xor-bitwise,
}
use mathlib.Core.Path.{◌≡◌, refl, ap, ap₂, ◌∙◌}
use native.Mathlib.Omega.{arith}
use native.Mathlib.Nat.{le_refl, pow-suc}

abbrev xor_digits : ℕ → ℕ → ℕ → ℕ
xor_digits n a b = digits (λ b. b) differ n a b

xor_digits_fuel : (n m a b : ℕ) → a ≤ n → a ≤ m → xor_digits n a b ≡ xor_digits m a b
xor_digits_fuel zero zero a b p q = refl
xor_digits_fuel zero (suc m) zero b p q = refl
xor_digits_fuel zero (suc m) (suc a) b p q = absurd (omega arith)
xor_digits_fuel (suc n) zero zero b p q = refl
xor_digits_fuel (suc n) zero (suc a) b p q = absurd (omega arith)
xor_digits_fuel (suc n) (suc m) zero b p q = refl
xor_digits_fuel (suc n) (suc m) (suc a) b p q =
    rw (xor_digits_fuel n m (suc a / 2) (b / 2) (omega arith) (omega arith))

zero-bit_xor : (b : ℕ) → bit_xor 0 b ≡ b
zero-bit_xor b = bit_xor-bitwise 0 b

differ-digit : (a b : ℕ) → a < 2 → b < 2 → differ a b ≡ (a + b) % 2
differ-digit zero b h k = omega arith
differ-digit (suc zero) zero h k = refl
differ-digit (suc zero) (suc zero) h k = refl
differ-digit (suc zero) (suc (suc b)) h k = absurd (omega arith)
differ-digit (suc (suc a)) b h k = absurd (omega arith)

-- The lowest digit of the result is the sum of the lowest digits without its carry.
pub bit_xor_step : (a b : ℕ) → bit_xor a b ≡ bit_xor (a / 2) (b / 2) * 2 + (a % 2 + b % 2) % 2
bit_xor_step zero b = omega (arith, zero-bit_xor b, zero-bit_xor (b / 2))
bit_xor_step (suc a) b = omega (
  arith,
  bit_xor-bitwise (suc a) b,
  bit_xor-bitwise (suc a / 2) (b / 2),
  xor_digits_fuel a (suc a / 2) (suc a / 2) (b / 2) (omega arith) (le_refl _),
  differ-digit (suc a % 2) (b % 2) (omega arith) (omega arith),
)

halve : (k x : ℕ) → x < 2 ^ suc k → x / 2 < 2 ^ k
halve k x h = omega (arith, pow-suc 2 k)

pub bit_xor-lt : (k a b : ℕ) → a < 2 ^ k → b < 2 ^ k → bit_xor a b < 2 ^ k
bit_xor-lt zero zero b p q = omega (arith, zero-bit_xor b)
bit_xor-lt zero (suc a) b p q = absurd (omega arith)
bit_xor-lt (suc k) a b p q =
    omega (
      arith,
      bit_xor_step a b,
      pow-suc 2 k,
      bit_xor-lt k (a / 2) (b / 2) (halve k a p) (halve k b q),
    )

-- A second pass with the same operand takes the first one back.
pub bit_xor_twice : (k a m : ℕ) → a < 2 ^ k → m < 2 ^ k → bit_xor (bit_xor a m) m ≡ a
bit_xor_twice zero zero zero p q = refl
bit_xor_twice zero zero (suc m) p q = absurd (omega arith)
bit_xor_twice zero (suc a) m p q = absurd (omega arith)
bit_xor_twice (suc k) a m p q =
    let high : bit_xor a m / 2 ≡ bit_xor (a / 2) (m / 2) = omega (arith, bit_xor_step a m) in
    omega (
      arith,
      bit_xor_step a m,
      bit_xor_step (bit_xor a m) m,
      ap (λ (t : ℕ). bit_xor t (m / 2)) high,
      bit_xor_twice k (a / 2) (m / 2) (halve k a p) (halve k m q),
    )

half_split : (k x y : ℕ) → (x + 2 ^ suc k * y) / 2 ≡ x / 2 + 2 ^ k * y
half_split k x y = omega (arith, ap (λ (t : ℕ). t * y) (pow-suc 2 k))

digit_split : (k x y : ℕ) → (x + 2 ^ suc k * y) % 2 ≡ x % 2
digit_split k x y = omega (arith, ap (λ (t : ℕ). t * y) (pow-suc 2 k))

-- Low digits and high digits do not meet.
pub bit_xor_split :
    (k x y u v : ℕ)
    → x < 2 ^ k
    → u < 2 ^ k
    → bit_xor (x + 2 ^ k * y) (u + 2 ^ k * v) ≡ bit_xor x u + 2 ^ k * bit_xor y v
bit_xor_split zero zero y zero v p q =
    let drop_one : (n : ℕ) → 0 + 2 ^ 0 * n ≡ n = λ n. omega arith in
    ap₂ bit_xor (drop_one y) (drop_one v) ∙ omega arith
bit_xor_split zero zero y (suc u) v p q = absurd (omega arith)
bit_xor_split zero (suc x) y u v p q = absurd (omega arith)
bit_xor_split (suc k) x y u v p q = omega (
  arith,
  bit_xor_step (x + 2 ^ suc k * y) (u + 2 ^ suc k * v),
  ap₂ bit_xor (half_split k x y) (half_split k u v),
  digit_split k x y,
  digit_split k u v,
  bit_xor_split k (x / 2) y (u / 2) v (halve k x p) (halve k u q),
  bit_xor_step x u,
  ap (λ (t : ℕ). t * bit_xor y v) (pow-suc 2 k),
)
