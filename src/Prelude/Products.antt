-- ===== src/Prelude/Products.antt =====
-- Products and quotients by an unknown, which `omega` takes for unknowns.
use Prim.Native.Nat.{ℕ, ◌+◌, ◌*◌, ◌/◌, ◌%◌, ◌≤◌, ◌<◌}
use mathlib.Core.Path.{◌≡◌}
use native.Mathlib.Decide.{dec_lt}
use native.Mathlib.Omega.{arith}

pub mul_mono : (a b d : ℕ) → a ≤ b → a * d ≤ b * d
mul_mono a b d h = grind arith

pub lt_of_mul-lt : (a b d : ℕ) → a * d < b * d → a < b
lt_of_mul-lt a b d h = elim (dec_lt a b) [
  | yes p ↦ p
  | no q ↦ absurd (omega (arith, mul_mono b a d (omega arith)))
]

pub div_mod_lem : (n d : ℕ) → 0 < d → (n / d * d + n % d ≡ n) × (n % d < d)
div_mod_lem n d h = grind arith

-- The quotient by a positive divisor, found by its bounds.
pub div_unique : (n d q : ℕ) → 0 < d → q * d ≤ n → n < q * d + d → n / d ≡ q
div_unique n d q h lo hi =
    let s = div_mod_lem n d h in
    let below : n / d < q + 1 = lt_of_mul-lt (n / d) (q + 1) d (omega (arith, s.0)) in
    let above : q < n / d + 1 = lt_of_mul-lt q (n / d + 1) d (omega (arith, s.0, s.1)) in
    omega (arith, below, above)
