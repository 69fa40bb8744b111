-- ===== src/Filejob/Align.antt =====
-- The rounding of lengths for `O_DIRECT`.
use copy.Prelude.{ℕ, ◌+◌, ◌*◌, ◌/◌, ◌%◌, ◌≤◌, ◌<◌, ◌≡◌, arith, word, add64, sub64}
use copy.Prelude.Bits.{bit_and_page}
use copy.Filejob.{align_up, direct_io_align}

align_up_page : (n : ℕ) → n + 4095 < word → align_up n direct_io_align ≡ 4096 * ((n + 4095) / 4096)
unfolding align_up
align_up_page n h = omega (arith, bit_and_page (sub64 (add64 n 4096) 1) (omega arith))

-- A length that does not wrap when it is rounded is rounded up to a multiple of the alignment,
-- by less than the alignment; a multiple of the alignment stays as it is.
pub align_up_bounds :
    (n : ℕ)
    → n + 4095 < word
    → (align_up n direct_io_align % direct_io_align ≡ 0)
      × (n ≤ align_up n direct_io_align)
      × (align_up n direct_io_align < n + direct_io_align)
      × (n % direct_io_align ≡ 0 → align_up n direct_io_align ≡ n)
align_up_bounds n h = omega (arith, align_up_page n h)
