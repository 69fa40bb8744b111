-- ===== src/Scheduler/Step.antt =====
-- copy2.cpp: what every handler of a block job keeps, for the block and the file that owns it.
use copy.Prelude.{
  ℕ, ◌+◌, ◌-◌, ◌*◌, ◌≤◌, ◌<◌, min, true, false, none, some, ◌≡◌, refl, ap, ◌∙◌, ◌&&◌, ◌==◌, ◌⊎◌,
  inl, inr, arith, Bool-cases, is_some, add64, sub64,
}
use copy.Filejob.{
  FileCopyJob, BlockCopyJob, Rw, blank_block_job, size_of_bool, read, write, readdst, finish,
}
use copy.Shared.{Platform}
use copy.Scheduler.Block.{
  Work, scheduler_schedule_block_copy_job, read_finished, write_finished, block_finished,
  request_failed, request_succeeded, scheduler_update_block_copy_job, hash_errors, zero_buffer,
  einprogress,
}
use copy.Scheduler.Schedule.{
  IsCountable, issued, total_blocks, fresh_job, issued-lt, schedule-Scheduled,
  schedule_preallocated-Scheduled,
}

-- A block job in use is one of the blocks that its file has started: it holds a buffer, and covers
-- the part of the file that its number names. A block job that is not in use holds no buffer.
pub record BlockInv (f : FileCopyJob) (x : BlockCopyJob) : Type 0 where
  pub idle : x.in_use ≡ false → x.buffer ≡ none
  pub holds : x.in_use ≡ true → is_some x.buffer ≡ true
  pub numbered : x.in_use ≡ true → x.jobno < issued f
  pub placed : x.in_use ≡ true → x.offset ≡ f.file_block_size * x.jobno
  pub inside : x.in_use ≡ true → x.offset < f.stx.stx_size
  pub sized : x.in_use ≡ true → x.nbytes ≡ min f.file_block_size (f.stx.stx_size - x.offset)

-- The bounds on the counters of a file that is being copied.
pub record FileInv (f : FileCopyJob) : Type 0 where
  pub countable : IsCountable f
  pub bounded : issued f ≤ total_blocks f

-- A file with the counters of another.
abbrev pub with_counts : FileCopyJob → FileCopyJob → FileCopyJob
with_counts f g = record f {
  n_errors = g.n_errors;
  n_block_jobs_scheduled = g.n_block_jobs_scheduled;
  n_block_jobs_finished = g.n_block_jobs_finished;
}

-- A handler took the file `f` and its block `x` to `f'` and `x'`: the file keeps what it is but
-- for its counters; the blocks started and the blocks finished do not fall; the count of scheduled
-- blocks follows the use of the block job; a job in use is the same as before or a new one; and at
-- most one block is started, the next of the file.
pub record Kept (f : FileCopyJob) (x : BlockCopyJob) (f' : FileCopyJob) (x' : BlockCopyJob)
    : Type 0 where
  pub same : f' ≡ with_counts f f'
  pub stx : f'.stx ≡ f.stx
  pub size : f'.file_block_size ≡ f.file_block_size
  pub active : f'.active ≡ f.active
  pub grows : issued f ≤ issued f'
  pub finished : f.n_block_jobs_finished ≤ f'.n_block_jobs_finished
  pub bounded : issued f' ≤ total_blocks f'
  pub counted :
      size_of_bool x'.in_use + f.n_block_jobs_scheduled
      ≡ size_of_bool x.in_use + f'.n_block_jobs_scheduled
  pub block : BlockInv f' x'
  pub new : x'.in_use ≡ true → ((x.in_use ≡ true) × (x'.jobno ≡ x.jobno)) ⊎ (issued f ≤ x'.jobno)
  pub starts :
      (issued f' ≡ issued f)
      ⊎ ((issued f' ≡ issued f + 1) × (x'.in_use ≡ true) × (x'.jobno ≡ issued f))

-- All handlers come down to these: a block that stays idle, one that starts, and one that
-- ends, after which its job may start another.
idle-Kept :
    {f : FileCopyJob}
    → FileInv f
    → (x : BlockCopyJob) → x.in_use ≡ false
    → Kept f x f (blank_block_job none)
idle-Kept v x h = ground arith

fresh-Kept :
    {f : FileCopyJob}
    → FileInv f
    → (x : BlockCopyJob) (parent h p : ℕ) → x.in_use ≡ false
    → f.file_block_size * issued f < f.stx.stx_size
    → Kept f x
        (record f { n_block_jobs_scheduled = f.n_block_jobs_scheduled + 1 })
        (fresh_job parent f h p)
fresh-Kept {f} v x parent h p idle inside = ground (arith, issued-lt v.countable inside)

Kept-trans :
    {f g k : FileCopyJob} {x y z : BlockCopyJob}
    → Kept f x g y
    → Kept g y k z
    → issued g ≡ issued f
    → Kept f x k z
Kept-trans {f} {g} {k} p q e =
    let all : k ≡ with_counts f k = q.same ∙ ap (λ (x : FileCopyJob). with_counts x k) p.same in
    ground arith

pub Kept-FileInv : {f g : FileCopyJob} {x y : BlockCopyJob} → FileInv f → Kept f x g y → FileInv g
Kept-FileInv v k = ground arith

pub same-Kept :
    {f : FileCopyJob}
    → FileInv f
    → (x y : BlockCopyJob) → BlockInv f x
    → y.in_use ≡ x.in_use
    → y.jobno ≡ x.jobno
    → y.offset ≡ x.offset
    → y.nbytes ≡ x.nbytes
    → y.buffer ≡ x.buffer
    → Kept f x f y
same-Kept v x y b u j o n d = ground arith

-- The file job when one of its blocks has ended, with the given number of errors.
abbrev pub ended : FileCopyJob → ℕ → FileCopyJob
ended f errors = record f {
  n_errors = errors;
  n_block_jobs_scheduled = sub64 f.n_block_jobs_scheduled 1;
  n_block_jobs_finished = add64 f.n_block_jobs_finished 1;
}

pub ended-Kept :
    {f : FileCopyJob} (errors : ℕ)
    → FileInv f
    → 0 < f.n_block_jobs_scheduled
    → (x : BlockCopyJob) → x.in_use ≡ true
    → Kept f x (ended f errors) (blank_block_job none)
ended-Kept errors v pos x u = ground arith

module _ {Arena : Type 0} (os : Platform Arena) (at : ℕ × ℕ) where
  -- An idle job in, and what `schedulerScheduleBlockCopyJob` makes of it.
  pub schedule-Kept :
      (w : Work Arena)
      → FileInv w.file
      → w.block.in_use ≡ false
      → Kept w.file w.block
          (scheduler_schedule_block_copy_job os false at w).file
          (scheduler_schedule_block_copy_job os false at w).block
  schedule-Kept w v h = elim (schedule-Scheduled os at w v.countable v.bounded) [
    | inl (e, e') ↦ rw (e, e') (idle-Kept v w.block h)
    | inr (p, inside, e, e') ↦ rw (e, e') (fresh-Kept v w.block at.0 w.block.src_hash p h inside)
  ]

  module _ (w : Work Arena) (v : FileInv w.file) (b : BlockInv w.file w.block)
      (pos : 0 < w.file.n_block_jobs_scheduled) (u : w.block.in_use ≡ true) where
    read_finished-Kept :
        Kept w.file w.block (read_finished os at w).file (read_finished os at w).block
    unfolding read_finished
    read_finished-Kept =
        elim (Bool-cases
          (w.shared.opts.sparse && zero_buffer w.shared.memory w.block.buffer w.block.nbytes)) [
            | inl skip ↦ rw skip (same-Kept v w.block _ b refl refl refl refl refl)
            | inr copy ↦ rw copy (same-Kept v w.block _ b refl refl refl refl refl)
          ]

    write_finished-Kept :
        Kept w.file w.block (write_finished os at w).file (write_finished os at w).block
    unfolding write_finished
    write_finished-Kept = elim (Bool-cases w.shared.opts.readback) [
      | inl back ↦ rw back (same-Kept v w.block _ b refl refl refl refl refl)
      | inr last ↦ rw last (same-Kept v w.block _ b refl refl refl refl refl)
    ]

    request_failed-Kept : Kept w.file w.block (request_failed os w).file (request_failed os w).block
    unfolding request_failed
    request_failed-Kept = ended-Kept w.file.n_errors v pos w.block u

    block_finished-Kept :
        (p : ℕ)
        → w.block.buffer ≡ some p
        → Kept w.file w.block (block_finished os at w).file (block_finished os at w).block
    unfolding block_finished
    block_finished-Kept p d =
        let errors = add64 w.file.n_errors (hash_errors os w.block.type w) in
        let end = ended-Kept errors v pos w.block u in
        let v' = Kept-FileInv v end in
        let same : issued (ended w.file errors) ≡ issued w.file =
          omega (arith, v.bounded, v.countable.few) in
        elim (schedule_preallocated-Scheduled os at
          (record w { file = ended w.file errors; block = blank_block_job w.block.buffer })
          v'.countable v'.bounded p d) [
            | inl (e, e') ↦ rw (e, e') end
            | inr (q, inside, e, e') ↦
                rw (e, e')
                  (Kept-trans end (fresh-Kept v' (blank_block_job none) at.0 0 q refl inside) same)
          ]

    holds_buffer : (p : ℕ) × (w.block.buffer ≡ some p)
    holds_buffer = ground (arith, b.holds)

    request_succeeded-Kept :
        (t : Rw)
        → Kept w.file w.block (request_succeeded os t at w).file (request_succeeded os t at w).block
    unfolding request_succeeded
    request_succeeded-Kept read = read_finished-Kept
    request_succeeded-Kept write = write_finished-Kept
    request_succeeded-Kept readdst = let (p, d) = holds_buffer in block_finished-Kept p d
    request_succeeded-Kept finish = let (p, d) = holds_buffer in block_finished-Kept p d

    -- What `schedulerUpdateBlockCopyJob` makes of a block job in use, in its invariant, of a file in
    -- its invariant that counts a scheduled block, for any status of the last request and in any
    -- stage: the file stays the same but for its counters; the blocks started and the blocks
    -- finished do not fall, and the count of scheduled blocks follows the use of the job; the job keeps the block invariant; it works on the block it had or on a new one; and
    -- at most one block is started, the next of the file.
    pub update-Kept :
        Kept w.file w.block
          (scheduler_update_block_copy_job os at w).file
          (scheduler_update_block_copy_job os at w).block
    unfolding scheduler_update_block_copy_job
    update-Kept = elim (Bool-cases (w.block.status == 0)) [
      | inl ok ↦ rw ok (request_succeeded-Kept w.block.type)
      | inr not_ok ↦ rw not_ok (elim (Bool-cases (w.block.status == einprogress)) [
        | inl waits ↦ rw waits (same-Kept v w.block _ b refl refl refl refl refl)
        | inr failed ↦ rw failed request_failed-Kept
      ])
    ]
