-- ===== src/Filejob/Blocks.antt =====
-- The blocks of a file: what `blockCount` guarantees.
use copy.Prelude.{ℕ, ◌+◌, ◌-◌, ◌*◌, ◌/◌, ◌≤◌, ◌<◌, ◌≡◌, arith, min}
use copy.Prelude.Products.{mul_mono, lt_of_mul-lt, div_mod_lem}
use copy.Filejob.{block_count}

-- The count is the quotient rounded up.
pub block_count_ceil :
    (fsize bsize : ℕ)
    → 0 < bsize
    → (fsize ≤ block_count fsize bsize * bsize) × (block_count fsize bsize * bsize < fsize + bsize)
unfolding block_count
block_count_ceil fsize bsize h = grind (arith, div_mod_lem fsize bsize h)

pub block_start-lt :
    (fsize bsize k : ℕ) → 0 < bsize → k < block_count fsize bsize → k * bsize < fsize
block_start-lt fsize bsize k h p = omega (
  arith,
  block_count_ceil fsize bsize h,
  mul_mono (k + 1) (block_count fsize bsize) bsize (omega arith),
)

-- With a positive block size, each position of a file lies in exactly one block, the one of
-- index `x / bsize`: that index is below the count, the position lies between the block's start
-- and its end (the last block ends with the file), and no other block holds it.
pub block_count_covers :
    (fsize bsize x : ℕ)
    → 0 < bsize
    → x < fsize
    → (x / bsize < block_count fsize bsize)
      × (x / bsize * bsize ≤ x)
      × (x < x / bsize * bsize + min bsize (fsize - x / bsize * bsize))
      × ((k : ℕ) → k * bsize ≤ x → x < k * bsize + bsize → k ≡ x / bsize)
block_count_covers fsize bsize x h p =
    let s = div_mod_lem x bsize h in
    (
      lt_of_mul-lt (x / bsize) (block_count fsize bsize) bsize
          (omega (arith, s, block_count_ceil fsize bsize h)),
      omega (arith, s),
      omega (arith, s),
      λ k lo hi. omega (
        arith,
        lt_of_mul-lt k (x / bsize + 1) bsize (omega (arith, s)),
        lt_of_mul-lt (x / bsize) (k + 1) bsize (omega (arith, s)),
      ),
    )
