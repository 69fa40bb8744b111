-- ===== src/Scheduler/Transfer.antt =====
-- copy2.cpp, `schedulerUpdateBlockCopyJob`: what is written for what was read, and what becomes of
-- a request that fails.
use copy.Prelude.{
  ℕ, ◌+◌, ◌-◌, ◌≤◌, ◌<◌, true, false, some, ◌≡◌, refl, arith, [], ◌∷◌, ◌++◌, ltb, ◌&&◌, ◌==◌, pos,
  if◌then◌else◌,
}
use copy.Filejob.{BlockCopyJob, read, write, pwrite, align_up, direct_io_align}
use copy.Memory.{Memory, is_zero, memset}
use copy.Shared.{Platform}
use copy.Scheduler.Block.{
  Work, request_bytes, callback, scheduler_update_block_copy_job, request_succeeded, read_finished,
}

-- The memory after the padding of a write: `len` bytes from `p` on are kept, and the rest of the
-- `total` bytes are zero.
abbrev padded : Memory → ℕ → ℕ → ℕ → Memory
padded m p len total = if ltb len total then memset m (p + len) 0 (total - len) else m

padded_keeps : (m : Memory) (p len total i : ℕ) → i < len → padded m p len total (p + i) ≡ m (p + i)
padded_keeps m p len total i h = ground arith

padded_zero :
    (m : Memory) (p len total i : ℕ) → len ≤ i → i < total → padded m p len total (p + i) ≡ 0
padded_zero m p len total i lo hi = ground arith

module _ {Arena : Type 0} (os : Platform Arena) (at : ℕ × ℕ) (w : Work Arena) where
  update_read :
      w.block.status ≡ 0
      → w.block.type ≡ read
      → scheduler_update_block_copy_job os at w ≡ read_finished os at w
  unfolding scheduler_update_block_copy_job request_succeeded
  update_read ok t = let a : (w.block.status == 0) ≡ true = ground arith in simp (a, t)

  -- A read of the source that succeeded, where the block is not skipped as sparse: the next request
  -- is a write to the destination, from the same buffer and at the same offset, of the block's bytes
  -- rounded up to the alignment. The bytes read are as they were, and the rest of what is written
  -- is zero; the request is the last of the batch, and the file's counters do not change.
  pub read_then_write :
      (p : ℕ)
      → w.block.status ≡ 0
      → w.block.type ≡ read
      → w.block.buffer ≡ some p
      → (w.shared.opts.sparse && is_zero w.shared.memory p w.block.nbytes) ≡ false
      → let w' = scheduler_update_block_copy_job os at w in
        let n = align_up w.block.nbytes direct_io_align in
        (w'.block.cb ≡ pwrite w.file.dst_fd (some p) n w.block.offset)
        × (w'.block.type ≡ write)
        × (w'.batch ≡ w.batch ++ at ∷ [])
        × (w'.file ≡ w.file)
        × ((i : ℕ) → i < w.block.nbytes → w'.shared.memory (p + i) ≡ w.shared.memory (p + i))
        × ((i : ℕ) → w.block.nbytes ≤ i → i < n → w'.shared.memory (p + i) ≡ 0)
  unfolding read_finished
  read_then_write p ok t b nz = rw (update_read ok t) (
      simp (b, nz)
        (
          refl,
          refl,
          refl,
          refl,
          padded_keeps w.shared.memory p w.block.nbytes (align_up w.block.nbytes direct_io_align),
          padded_zero w.shared.memory p w.block.nbytes (align_up w.block.nbytes direct_io_align),
        ))

-- A request that transferred nothing is taken for one that transferred all that was asked for.
pub empty_transfer_is_success :
    (job : BlockCopyJob) → callback job (pos 0) ≡ callback job (pos (request_bytes job.cb))
unfolding callback
empty_transfer_is_success job = ground arith
