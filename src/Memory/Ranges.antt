-- ===== src/Memory/Ranges.antt =====
-- Ranges of bytes: their parts, and what the writes of a range leave in it.
use copy.Prelude.{
  ℕ, zero, suc, ◌+◌, ◌-◌, ◌≤◌, ◌<◌, ◌≡◌, ◌⊎◌, inl, inr, refl, sym, ap, ◌∙◌, List, [], ◌∷◌, ◌++◌,
  arith, leb, if◌then◌else◌, Option, none, some, get_elem?, length,
}
use native.Mathlib.Decide.{dec_lt}
use mathlib.Core.Path.{fun_ext}
use copy.Memory.{Memory, bytes, memcpy}

pub bytes-append : (m : Memory) (a n k : ℕ) → bytes m a (n + k) ≡ bytes m a n ++ bytes m (a + n) k
bytes-append m a zero k =
    let e : a + 0 ≡ a = omega arith in let f : 0 + k ≡ k = omega arith in rw e (rw f refl)
bytes-append m a (suc n) k =
    let e : a + suc n ≡ a + 1 + n = omega arith in
    let f : suc n + k ≡ suc (n + k) = omega arith in
    rw e (rw f (ap (λ l. m a ∷ l) (bytes-append m (a + 1) n k)))

pub bytes-cong :
    (m m' : Memory) (a b n : ℕ)
    → ((i : ℕ) → i < n → m (a + i) ≡ m' (b + i))
    → bytes m a n ≡ bytes m' b n
bytes-cong m m' a b zero h = refl
bytes-cong m m' a b (suc n) h =
    let e : a + 0 ≡ a = omega arith in
    let f : b + 0 ≡ b = omega arith in
    let first : m a ≡ m' b = rw e at (rw f at (h 0 (omega arith))) in
    let rest : bytes m (a + 1) n ≡ bytes m' (b + 1) n = bytes-cong m m' (a + 1) (b + 1) n λ i p.
      let e : a + suc i ≡ a + 1 + i = omega arith in
      let f : b + suc i ≡ b + 1 + i = omega arith in rw e at (rw f at (h (suc i) (omega arith))) in
    cc

-- `memcpy` inside and outside its range.
pub memcpy_inside :
    (dst src : Memory) (a b len i : ℕ) → i < len → memcpy dst a src b len (a + i) ≡ src (b + i)
memcpy_inside dst src a b len i h = let e : a + i - a ≡ i = omega arith in rw e (ground arith)

pub memcpy_outside :
    (dst src : Memory) (a b len p : ℕ) → (p < a) ⊎ (a + len ≤ p) → memcpy dst a src b len p ≡ dst p
memcpy_outside dst src a b len p h = ground arith

pub bytes-memcpy :
    (dst src : Memory) (a b len : ℕ) → bytes (memcpy dst a src b len) a len ≡ bytes src b len
bytes-memcpy dst src a b len =
    bytes-cong (memcpy dst a src b len) src a b len (memcpy_inside dst src a b len)

pub length-bytes : (m : Memory) (a n : ℕ) → length (bytes m a n) ≡ n
length-bytes m a zero = refl
length-bytes m a (suc n) = ap suc (length-bytes m (a + 1) n)

get_elem-bytes : (m : Memory) (a n i : ℕ) → i < n → get_elem? (bytes m a n) i ≡ some (m (a + i))
get_elem-bytes m a zero i h = absurd (omega arith)
get_elem-bytes m a (suc n) zero h = let e : a + 0 ≡ a = omega arith in rw e refl
get_elem-bytes m a (suc n) (suc i) h =
    let e : a + suc i ≡ a + 1 + i = omega arith in rw e (get_elem-bytes m (a + 1) n i (omega arith))

get_elem_past : (s : List ℕ) (i : ℕ) → length s ≤ i → get_elem? s i ≡ none
get_elem_past [] i h = refl
get_elem_past (x ∷ s) zero h = absurd (omega arith)
get_elem_past (x ∷ s) (suc i) h = get_elem_past s i (omega arith)

abbrev or_byte : Option ℕ → ℕ → ℕ
or_byte none b = b
or_byte (some x) b = x

-- A memory in which a string stands at an address.
abbrev pub put : Memory → ℕ → List ℕ → Memory
put m a s p = if leb a p then or_byte (get_elem? s (p - a)) (m p) else m p

-- At one address.
put_at :
    (m m' : Memory) (a : ℕ) (s : List ℕ) (p : ℕ)
    → bytes m' a (length s) ≡ s
    → ((p < a) ⊎ (a + length s ≤ p) → m' p ≡ m p)
    → m' p ≡ put m a s p
put_at m m' a s p e frame = elim (dec_lt p a) [
  | yes below ↦ let f = frame (inl below) in ground arith
  | no above ↦ elim (dec_lt (p - a) (length s)) [
    | yes inside ↦
        let back : a + (p - a) ≡ p = omega arith in
        let g : get_elem? s (p - a) ≡ some (m' p) =
          ap (λ (x : List ℕ). get_elem? x (p - a)) (sym e)
          ∙ get_elem-bytes m' a (length s) (p - a) inside
          ∙ ap (λ (q : ℕ). some (m' q)) back in
        rw g (ground arith)
    | no past ↦
        let f = frame (inr (omega arith)) in
        let g = get_elem_past s (p - a) (omega arith) in rw g (ground arith)
  ]
]

-- What is in the range, and that nothing else changes, says all.
pub put_unique :
    (m m' : Memory) (a : ℕ) (s : List ℕ)
    → bytes m' a (length s) ≡ s
    → ((p : ℕ) → (p < a) ⊎ (a + length s ≤ p) → m' p ≡ m p)
    → m' ≡ put m a s
put_unique m m' a s e frame = fun_ext λ p. put_at m m' a s p e (frame p)
