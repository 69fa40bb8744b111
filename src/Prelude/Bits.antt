-- ===== src/Prelude/Bits.antt =====
-- Laws of `bit_and` at a mask whose low bits are clear, for the rounding of lengths.
use Prim.Native.Nat.{
  ℕ, zero, suc, ◌+◌, ◌-◌, ◌*◌, ◌/◌, ◌%◌, ◌^◌, ◌≤◌, ◌<◌, min, bit_and, digits, bit_and-bitwise,
}
use mathlib.Core.Path.{◌≡◌, refl}
use native.Mathlib.Omega.{arith}

-- What `bit_and` computes, with the fuel of its digit recursion free.
abbrev conj : ℕ → ℕ → ℕ → ℕ
conj fuel a b = digits (λ c. zero) min fuel a b

conj_fuel : (f g a b : ℕ) → a ≤ f → a ≤ g → conj f a b ≡ conj g a b
conj_fuel zero zero a b hf hg = refl
conj_fuel zero (suc g) zero b hf hg = refl
conj_fuel zero (suc g) (suc a) b hf hg = absurd (omega arith)
conj_fuel (suc f) zero zero b hf hg = refl
conj_fuel (suc f) zero (suc a) b hf hg = absurd (omega arith)
conj_fuel (suc f) (suc g) zero b hf hg = refl
conj_fuel (suc f) (suc g) (suc a) b hf hg =
    omega (arith, conj_fuel f g (suc a / 2) (b / 2) (omega arith) (omega arith))

-- The lowest digit of a conjunction, and the rest.
pub bit_and_step : (a b : ℕ) → bit_and a b ≡ 2 * bit_and (a / 2) (b / 2) + min (a % 2) (b % 2)
bit_and_step zero b = omega (arith, bit_and-bitwise 0 b, bit_and-bitwise 0 (b / 2))
bit_and_step (suc a) b = omega (
  arith,
  bit_and-bitwise (suc a) b,
  bit_and-bitwise (suc a / 2) (b / 2),
  conj_fuel a (suc a / 2) (suc a / 2) (b / 2) (omega arith) (omega arith),
)

-- `2 ^ n - 1`, by doubling.
abbrev ones : ℕ → ℕ
ones zero = 0
ones (suc n) = 2 * ones n + 1

-- A mask of ones keeps what fits under it.
bit_and-ones : (n x : ℕ) → x ≤ ones n → bit_and x (ones n) ≡ x
bit_and-ones zero zero h = refl
bit_and-ones zero (suc x) h = absurd (omega arith)
bit_and-ones (suc n) x h =
    let e : ones (suc n) / 2 ≡ ones n = omega arith in
    let ih : bit_and (x / 2) (ones (suc n) / 2) ≡ x / 2 =
      rw e (bit_and-ones n (x / 2) (omega arith)) in
    omega (arith, bit_and_step x (ones (suc n)), ih)

-- A clear low bit of the mask clears that bit, and the rest of the mask applies to the half.
bit_and-even : (x m : ℕ) → bit_and x (2 * m) ≡ 2 * bit_and (x / 2) m
bit_and-even x m =
    let e : 2 * m / 2 ≡ m = omega arith in
    let s : bit_and (x / 2) (2 * m / 2) ≡ bit_and (x / 2) m = rw e in
    omega (arith, bit_and_step x (2 * m), s)

-- Clearing the low 12 bits of a 64-bit word rounds it down to a multiple of 4096.
pub bit_and_page : (x : ℕ) → x < 2 ^ 64 → bit_and x (2 ^ 64 - 4096) ≡ 4096 * (x / 4096)
bit_and_page x h = omega (
  arith,
  bit_and-even x (2 ^ 63 - 2048),
  bit_and-even (x / 2) (2 ^ 62 - 1024),
  bit_and-even (x / 2 / 2) (2 ^ 61 - 512),
  bit_and-even (x / 2 / 2 / 2) (2 ^ 60 - 256),
  bit_and-even (x / 2 / 2 / 2 / 2) (2 ^ 59 - 128),
  bit_and-even (x / 2 / 2 / 2 / 2 / 2) (2 ^ 58 - 64),
  bit_and-even (x / 2 / 2 / 2 / 2 / 2 / 2) (2 ^ 57 - 32),
  bit_and-even (x / 2 / 2 / 2 / 2 / 2 / 2 / 2) (2 ^ 56 - 16),
  bit_and-even (x / 2 / 2 / 2 / 2 / 2 / 2 / 2 / 2) (2 ^ 55 - 8),
  bit_and-even (x / 2 / 2 / 2 / 2 / 2 / 2 / 2 / 2 / 2) (2 ^ 54 - 4),
  bit_and-even (x / 2 / 2 / 2 / 2 / 2 / 2 / 2 / 2 / 2 / 2) (2 ^ 53 - 2),
  bit_and-even (x / 2 / 2 / 2 / 2 / 2 / 2 / 2 / 2 / 2 / 2 / 2) (2 ^ 52 - 1),
  bit_and-ones 52 (x / 2 / 2 / 2 / 2 / 2 / 2 / 2 / 2 / 2 / 2 / 2 / 2) (omega arith),
)
