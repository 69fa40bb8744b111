-- ===== src/Filejob/Tests.antt =====
-- Block sizes and ranges on concrete files.
use copy.Prelude.{ℕ, ◌+◌, ◌-◌, ◌*◌, ◌/◌, ◌%◌, ◌≤◌, ◌<◌, min, max, ◌≡◌, refl, arith}
use copy.Filejob.{align_up, direct_io_align, block_size, block_count}
use copy.Filejob.Blocks.{block_count_covers}
use copy.Filejob.Sizes.{block_size-aligned}
use copy.Filejob.Ranges.{block_bytes, written_bytes, aligned_writes_fit, unaligned_write_overlaps}

block_count_covers_example :
    (5000 / 4096 < block_count 10000 4096)
    × (5000 / 4096 * 4096 ≤ 5000)
    × (5000 < 5000 / 4096 * 4096 + min 4096 (10000 - 5000 / 4096 * 4096))
    × ((k : ℕ) → k * 4096 ≤ 5000 → 5000 < k * 4096 + 4096 → k ≡ 5000 / 4096)
block_count_covers_example = block_count_covers 10000 4096 5000 (omega arith) (omega arith)

block_size-aligned_example :
    (block_size 10000 0 4096 134217728 % direct_io_align ≡ 0)
    × (4096 ≤ block_size 10000 0 4096 134217728)
    × (block_size 10000 0 4096 134217728 ≤ max 4096 134217728)
block_size-aligned_example = block_size-aligned 10000 0 4096 134217728 (omega arith) refl refl

aligned_writes_fit_example :
    (4096 * 2 % direct_io_align ≡ 0)
    × (written_bytes 10000 4096 2 % direct_io_align ≡ 0)
    × (block_bytes 10000 4096 2 ≤ written_bytes 10000 4096 2)
    × (written_bytes 10000 4096 2 ≤ 4096)
    × (4096 * 2 + written_bytes 10000 4096 2 ≤ align_up 10000 direct_io_align)
aligned_writes_fit_example =
    aligned_writes_fit 10000 4096 2 (omega arith) refl (omega arith)
      (unfold block_count in omega arith)

unaligned_write_overlaps_example : 5000 * (0 + 1) < 5000 * 0 + written_bytes 20000 5000 0
unaligned_write_overlaps_example =
    unaligned_write_overlaps 20000 5000 0 (omega arith) (omega arith) (omega arith)
