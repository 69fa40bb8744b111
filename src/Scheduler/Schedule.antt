-- ===== src/Scheduler/Schedule.antt =====
-- copy2.cpp, `schedulerScheduleBlockCopyJob`: which block it starts, and when it starts none.
use native.Mathlib.Decide.{dec_lt}
use copy.Prelude.{
  refl, ◌⊎◌, inl, inr, Option, ℕ, ◌+◌, ◌-◌, ◌*◌, ◌^◌, ◌≤◌, ◌<◌, min, Bool, true, false, none, some,
  ◌≡◌, [], ◌∷◌, ◌++◌, arith, leb, word, add64,
}
use copy.Prelude.Products.{mul_mono, lt_of_mul-lt}
use copy.Filejob.{FileCopyJob, BlockCopyJob, blank_block_job, no_request, pread, read, block_count}
use copy.Filejob.Blocks.{block_count_ceil}
use copy.Shared.{Platform}
use copy.Scheduler.Block.{
  Work, einprogress, next_job, release_buffer, buffer_given, scheduler_schedule_block_copy_job,
}

-- A file job whose blocks can be counted: the block size is positive, the end of the last block
-- fits a `size_t`, and the number of blocks fits the `int` that numbers them.
pub record IsCountable (f : FileCopyJob) : Type 0 where
  pub positive : 0 < f.file_block_size
  pub fits : f.stx.stx_size + f.file_block_size < word
  pub few : block_count f.stx.stx_size f.file_block_size < 2 ^ 31

-- The number of blocks that a file job has started so far.
abbrev pub issued : FileCopyJob → ℕ
issued f = f.n_block_jobs_scheduled + f.n_block_jobs_finished

abbrev pub total_blocks : FileCopyJob → ℕ
total_blocks f = block_count f.stx.stx_size f.file_block_size

-- The job that reads block number `issued f` of the file into the buffer at `p`.
abbrev pub fresh_job : ℕ → FileCopyJob → ℕ → ℕ → BlockCopyJob
fresh_job parent f src_hash p =
    let offset = f.file_block_size * issued f in
    let nbytes = min f.file_block_size (f.stx.stx_size - offset) in
    record {
      jobno = issued f;
      parent = parent;
      cb = pread f.src_fd (some p) nbytes offset;
      type = read;
      status = einprogress;
      offset = offset;
      nbytes = nbytes;
      buffer = some p;
      in_use = true;
      src_hash = src_hash;
    }

-- The number and the offset of the next block do not wrap.
next_job_exact :
    {f : FileCopyJob}
    → IsCountable f
    → issued f ≤ total_blocks f
    → (parent : ℕ) (x : BlockCopyJob)
    → next_job parent f x ≡ record x {
      jobno = issued f;
      parent = parent;
      cb = no_request;
      type = read;
      status = einprogress;
      offset = f.file_block_size * issued f;
    }
unfolding next_job
next_job_exact {f} c bound parent x = ground (
  arith,
  block_count_ceil f.stx.stx_size f.file_block_size c.positive,
  mul_mono (issued f) (total_blocks f) f.file_block_size bound,
)

-- A block that starts inside the file is one of the file's blocks.
pub issued-lt :
    {f : FileCopyJob}
    → IsCountable f
    → f.file_block_size * issued f < f.stx.stx_size
    → issued f < total_blocks f
issued-lt {f} c h =
    lt_of_mul-lt (issued f) (total_blocks f) f.file_block_size
      (omega (arith, block_count_ceil f.stx.stx_size f.file_block_size c.positive, h))

-- The read of the next block goes into the batch, and the file counts one more block.
abbrev pub with_fresh : {Arena : Type 0} → ℕ × ℕ → ℕ → Work Arena → Work Arena
with_fresh at p w = record w {
  batch = w.batch ++ at ∷ [];
  file = record w.file { n_block_jobs_scheduled = w.file.n_block_jobs_scheduled + 1 };
  block = fresh_job at.0 w.file w.block.src_hash p;
}

module _ {Arena : Type 0} (os : Platform Arena) (at : ℕ × ℕ) (w : Work Arena)
    (c : IsCountable w.file) (bound : issued w.file ≤ total_blocks w.file) where
  -- Past the end of the file nothing is started, and the buffer is given back.
  pub schedule_past_end :
      (pre : Bool)
      → w.file.stx.stx_size ≤ w.file.file_block_size * issued w.file
      → scheduler_schedule_block_copy_job os pre at w ≡ record w {
        shared = release_buffer os w.block.buffer w.file.file_block_size w.shared;
        block = blank_block_job none;
      }
  unfolding scheduler_schedule_block_copy_job
  schedule_past_end pre h = rw (next_job_exact c bound at.0 w.block) (
      let past : leb w.file.stx.stx_size (w.file.file_block_size * issued w.file) ≡ true =
        ground arith in
      rw past)

  -- With a buffer at hand the next block of the file starts.
  pub schedule_preallocated :
      (p : ℕ)
      → w.block.buffer ≡ some p
      → w.file.file_block_size * issued w.file < w.file.stx.stx_size
      → scheduler_schedule_block_copy_job os true at w ≡ with_fresh at p w
  unfolding scheduler_schedule_block_copy_job
  schedule_preallocated p b h = rw (next_job_exact c bound at.0 w.block) (
      let inside : leb w.file.stx.stx_size (w.file.file_block_size * issued w.file) ≡ false =
        ground arith in
      let no_wrap : add64 w.file.n_block_jobs_scheduled 1 ≡ w.file.n_block_jobs_scheduled + 1 =
        omega (arith, c.few) in
      rw inside (rw (b, no_wrap)))

  -- For a file that can be counted and has not started more blocks than it has: where the next
  -- block starts inside the file and the copy buffer yields memory, a job without a buffer becomes
  -- the read of that block, of its exact offset and length and into that memory; the request is the
  -- last of the batch, the file counts one more scheduled block, and the totals of the allocator
  -- count the memory. Nothing wraps.
  pub schedule_allocated :
      (p : ℕ) (arena : Arena)
      → os.buddy_malloc w.shared.copybuffer_allocator w.file.file_block_size ≡ (some p, arena)
      → w.file.file_block_size * issued w.file < w.file.stx.stx_size
      → scheduler_schedule_block_copy_job os false at w
        ≡ with_fresh at p (record w {
          shared = record w.shared {
            copybuffer_allocator = arena;
            allocation_attempts = add64 w.shared.allocation_attempts 1;
            total_mem_allocated = add64 w.shared.total_mem_allocated w.file.file_block_size;
          };
        })
  unfolding scheduler_schedule_block_copy_job
  schedule_allocated p arena m h = rw (next_job_exact c bound at.0 w.block) (
      let inside : leb w.file.stx.stx_size (w.file.file_block_size * issued w.file) ≡ false =
        ground arith in
      let no_wrap : add64 w.file.n_block_jobs_scheduled 1 ≡ w.file.n_block_jobs_scheduled + 1 =
        omega (arith, c.few) in
      rw inside (rw (m, buffer_given) (rw no_wrap)))

  -- If there is none to be had, nothing is started.
  pub schedule_refused :
      (arena : Arena)
      → os.buddy_malloc w.shared.copybuffer_allocator w.file.file_block_size ≡ (none, arena)
      → w.file.file_block_size * issued w.file < w.file.stx.stx_size
      → let w' = scheduler_schedule_block_copy_job os false at w in
        (w'.file ≡ w.file) × (w'.block ≡ blank_block_job none) × (w'.batch ≡ w.batch)
  unfolding scheduler_schedule_block_copy_job
  schedule_refused arena m h = rw (next_job_exact c bound at.0 w.block) (
      let inside : leb w.file.stx.stx_size (w.file.file_block_size * issued w.file) ≡ false =
        ground arith in
      rw inside (rw (m, buffer_given) (refl, refl, refl)))

  -- What becomes of the file and the block: nothing is started, or the next block of the file is.
  abbrev pub Scheduled : Work Arena → Type 0
  Scheduled w' =
      ((w'.file ≡ w.file) × (w'.block ≡ blank_block_job none))
      ⊎ ((p : ℕ) × (w.file.file_block_size * issued w.file < w.file.stx.stx_size)
          × (w'.file ≡ record w.file { n_block_jobs_scheduled = w.file.n_block_jobs_scheduled + 1 })
          × (w'.block ≡ fresh_job at.0 w.file w.block.src_hash p))

  pub schedule_preallocated-Scheduled :
      (p : ℕ) → w.block.buffer ≡ some p → Scheduled (scheduler_schedule_block_copy_job os true at w)
  schedule_preallocated-Scheduled p b =
      elim (dec_lt (w.file.file_block_size * issued w.file) w.file.stx.stx_size) [
        | yes h ↦ rw (schedule_preallocated p b h) (inr (p, h, refl, refl))
        | no h ↦ rw (schedule_past_end true (omega arith)) (inl (refl, refl))
      ]

  malloc_cases :
      (r : Option ℕ × Arena)
      → os.buddy_malloc w.shared.copybuffer_allocator w.file.file_block_size ≡ r
      → w.file.file_block_size * issued w.file < w.file.stx.stx_size
      → Scheduled (scheduler_schedule_block_copy_job os false at w)
  malloc_cases (none, arena) m h =
      let (file, block, batch) = schedule_refused arena m h in inl (file, block)
  malloc_cases (some p, arena) m h = rw (schedule_allocated p arena m h) (inr (p, h, refl, refl))

  pub schedule-Scheduled : Scheduled (scheduler_schedule_block_copy_job os false at w)
  schedule-Scheduled = elim (dec_lt (w.file.file_block_size * issued w.file) w.file.stx.stx_size) [
    | yes h ↦ malloc_cases _ refl h
    | no h ↦ rw (schedule_past_end false (omega arith)) (inl (refl, refl))
  ]
