-- ===== src/Memory.antt =====
-- The bytes of the staging buffers, by address, and what copy2.cpp does to ranges of them.
pub mod Ranges
mod Tests
use copy.Prelude.{
  ℕ, zero, suc, ◌+◌, ◌-◌, ◌<◌, Bool, true, false, ◌&&◌, ◌≡◌, ◌↔◌, refl, List, [], ◌∷◌, arith, ltb,
  leb, ◌==◌, if◌then◌else◌,
}

abbrev pub Memory : Type 0
Memory = ℕ → ℕ

-- `isZero`: the loop stops at the first byte that is not zero.
unfoldable pub is_zero : Memory → ℕ → ℕ → Bool
is_zero m a zero = true
is_zero m a (suc len) = let rest = is_zero m (a + 1) len in if m a == 0 then rest else false

-- `memset`.
abbrev pub memset : Memory → ℕ → ℕ → ℕ → Memory
memset m a v len p = if leb a p && ltb p (a + len) then v else m p

-- `memcpy` of `len` bytes.
abbrev pub memcpy : Memory → ℕ → Memory → ℕ → ℕ → Memory
memcpy dst a src b len p = if leb a p && ltb p (a + len) then src (b + (p - a)) else dst p

-- The bytes of a range, as the hash reads them.
abbrev pub bytes : Memory → ℕ → ℕ → List ℕ
bytes m a zero = []
bytes m a (suc len) = m a ∷ bytes m (a + 1) len

is_zero_sound : (m : Memory) (a len i : ℕ) → is_zero m a len ≡ true → i < len → m (a + i) ≡ 0
unfolding is_zero
is_zero_sound m a zero i h p = absurd (omega arith)
is_zero_sound m a (suc len) zero h p = let e : a + 0 ≡ a = omega arith in rw e (ground arith)
is_zero_sound m a (suc len) (suc i) h p =
    let e : a + suc i ≡ a + 1 + i = omega arith in
    rw e (is_zero_sound m (a + 1) len i (ground arith) (omega arith))

is_zero_complete :
    (m : Memory) (a len : ℕ) → ((i : ℕ) → i < len → m (a + i) ≡ 0) → is_zero m a len ≡ true
unfolding is_zero
is_zero_complete m a zero h = refl
is_zero_complete m a (suc len) h =
    let e : a + 0 ≡ a = omega arith in
    let first : m a ≡ 0 = rw e at (h 0 (omega arith)) in
    rw first (
      is_zero_complete m (a + 1) len
        λ i p. let f : a + 1 + i ≡ a + suc i = omega arith in rw f (h (suc i) (omega arith)))

-- `is_zero` says yes exactly of a range in which every byte is zero.
pub is_zero_iff :
    (m : Memory) (a len : ℕ) → (is_zero m a len ≡ true) ↔ ((i : ℕ) → i < len → m (a + i) ≡ 0)
is_zero_iff m a len = (λ h i p. is_zero_sound m a len i h p, is_zero_complete m a len)
