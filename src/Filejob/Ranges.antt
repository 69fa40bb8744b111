-- ===== src/Filejob/Ranges.antt =====
-- The ranges of the destination that the padded writes of a file's blocks cover.
use copy.Prelude.{ℕ, ◌+◌, ◌-◌, ◌*◌, ◌/◌, ◌%◌, ◌≤◌, ◌<◌, min, ◌≡◌, ◌≢◌, ap, arith, word}
use copy.Filejob.{align_up, direct_io_align, block_count}
use copy.Filejob.Align.{align_up_bounds}
use copy.Filejob.Blocks.{block_start-lt}

-- The number of bytes of block `k`, and the number that is written for it.
abbrev pub block_bytes : ℕ → ℕ → ℕ → ℕ
block_bytes fsize bsize k = min bsize (fsize - bsize * k)

abbrev pub written_bytes : ℕ → ℕ → ℕ → ℕ
written_bytes fsize bsize k = align_up (block_bytes fsize bsize k) direct_io_align

aligned_start : (bsize k : ℕ) → bsize % direct_io_align ≡ 0 → bsize * k % direct_io_align ≡ 0
aligned_start bsize k h =
    let q : bsize ≡ bsize / 4096 * 4096 = omega arith in
    let e : bsize * k ≡ bsize / 4096 * 4096 * k = ap (λ (t : ℕ). t * k) q in omega (arith, e)

-- Where the block size is a multiple of the alignment, the write of every block starts at a
-- multiple of it, has a length that is one, stays within its own block, and within the length that
-- the destination was given before the copy.
pub aligned_writes_fit :
    (fsize bsize k : ℕ)
    → 0 < bsize
    → bsize % direct_io_align ≡ 0
    → fsize + bsize + 4095 < word
    → k < block_count fsize bsize
    → (bsize * k % direct_io_align ≡ 0)
      × (written_bytes fsize bsize k % direct_io_align ≡ 0)
      × (block_bytes fsize bsize k ≤ written_bytes fsize bsize k)
      × (written_bytes fsize bsize k ≤ bsize)
      × (bsize * k + written_bytes fsize bsize k ≤ align_up fsize direct_io_align)
aligned_writes_fit fsize bsize k pos mult fits lt =
    let start = aligned_start bsize k mult in
    let inside = block_start-lt fsize bsize k pos lt in
    let n = align_up_bounds (block_bytes fsize bsize k) (omega arith) in
    let whole = align_up_bounds fsize (omega arith) in
    (start, n.0, n.1, omega (arith, n), omega (arith, n, whole, start, inside))

-- Where it is not, the padded write of any block but the last reaches into the block after it.
pub unaligned_write_overlaps :
    (fsize bsize k : ℕ)
    → bsize % direct_io_align ≢ 0
    → fsize + bsize + 4095 < word
    → bsize * k + bsize < fsize
    → bsize * (k + 1) < bsize * k + written_bytes fsize bsize k
unaligned_write_overlaps fsize bsize k odd fits more =
    let n = align_up_bounds (block_bytes fsize bsize k) (omega arith) in omega (arith, n)
