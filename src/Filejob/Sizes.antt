-- ===== src/Filejob/Sizes.antt =====
-- The block size that `blockSize` chooses for a file.
use copy.Prelude.{ℕ, zero, suc, ◌*◌, ◌/◌, ◌%◌, ◌^◌, ◌≤◌, ◌<◌, max, ◌≡◌, refl, ◌⊎◌, inr, arith}
use copy.Prelude.Products.{lt_of_mul-lt}
use copy.Filejob.{bit_ceil_from, bit_ceil, block_size, block_count, direct_io_align}
use copy.Filejob.Blocks.{block_count_ceil}

-- `p` doubled `k` times.
abbrev doubled : ℕ → ℕ → ℕ
doubled zero p = p
doubled (suc k) p = doubled k (2 * p)

le-doubled : (k p : ℕ) → p ≤ doubled k p
le-doubled zero p = omega arith
le-doubled (suc k) p = omega (arith, le-doubled k (2 * p))

bit_ceil_from-page : (fuel p x : ℕ) → p % 4096 ≡ 0 → bit_ceil_from fuel p x % 4096 ≡ 0
unfolding bit_ceil_from
bit_ceil_from-page zero p x h = h
bit_ceil_from-page (suc fuel) p x h =
    ground (arith, bit_ceil_from-page fuel (2 * p) x (omega arith))

-- Of a power of two: below a page, or a multiple of a page.
bit_ceil_from_small :
    (k fuel p x : ℕ)
    → k ≤ fuel
    → 0 < p
    → doubled k p ≡ 4096
    → (bit_ceil_from fuel p x < 4096) ⊎ (bit_ceil_from fuel p x % 4096 ≡ 0)
unfolding bit_ceil_from
bit_ceil_from_small zero fuel p x h pos e = inr (bit_ceil_from-page fuel p x (omega arith))
bit_ceil_from_small (suc k) zero p x h pos e = absurd (omega arith)
bit_ceil_from_small (suc k) (suc fuel) p x h pos e = ground (
  arith,
  le-doubled k (2 * p),
  bit_ceil_from_small k fuel (2 * p) x (omega arith) (omega arith) e,
)

bit_ceil_small : (x : ℕ) → (bit_ceil x < 4096) ⊎ (bit_ceil x % 4096 ≡ 0)
unfolding bit_ceil
bit_ceil_small x = bit_ceil_from_small 12 64 1 x (omega arith) (omega arith) refl

le-bit_ceil_from : (fuel p x : ℕ) → x ≤ doubled fuel p → x ≤ bit_ceil_from fuel p x
unfolding bit_ceil_from
le-bit_ceil_from zero p x h = h
le-bit_ceil_from (suc fuel) p x h = ground (arith, le-bit_ceil_from fuel (2 * p) x h)

le-bit_ceil : (x : ℕ) → x ≤ 2 ^ 64 → x ≤ bit_ceil x
unfolding bit_ceil
le-bit_ceil x h = le-bit_ceil_from 64 1 x h

-- Where both limits are multiples of the `O_DIRECT` alignment and the lower one is positive, the
-- block size of any file is a multiple of the alignment, not below the lower limit, and not above
-- both limits.
pub block_size-aligned :
    (fsize fs lo hi : ℕ)
    → 0 < lo
    → lo % direct_io_align ≡ 0
    → hi % direct_io_align ≡ 0
    → (block_size fsize fs lo hi % direct_io_align ≡ 0)
      × (lo ≤ block_size fsize fs lo hi)
      × (block_size fsize fs lo hi ≤ max lo hi)
unfolding block_size
block_size-aligned fsize fs lo hi pos l h = ground (arith, bit_ceil_small (fsize / 2))

-- A file whose half is not above the upper limit is cut into at most three blocks.
pub block_count-le_three :
    (fsize fs lo hi : ℕ)
    → 0 < lo
    → fsize < 2 ^ 64
    → fsize / 2 ≤ hi
    → block_count fsize (block_size fsize fs lo hi) ≤ 3
block_count-le_three fsize fs lo hi pos f h =
    let big = half_fits in
    let c = block_count_ceil fsize (block_size fsize fs lo hi) (omega arith) in
    let few =
      lt_of_mul-lt (block_count fsize (block_size fsize fs lo hi)) 4 (block_size fsize fs lo hi)
        (omega arith) in
    omega arith
  where
    half_fits : (lo ≤ block_size fsize fs lo hi) × (fsize / 2 ≤ block_size fsize fs lo hi)
    half_fits = unfold block_size in omega (arith, le-bit_ceil (fsize / 2) (omega arith))
