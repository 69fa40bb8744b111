-- ===== src/Scheduler/Slots.antt =====
-- copy2.cpp: the invariant of a file job with its block jobs, through the passes of the scheduler,
-- and when a file is handed over as finished.
use mathlib.Core.Bool.{false≢true}
use native.Mathlib.Decide.{dec_lt}
use copy.Prelude.{
  ℕ, ◌≤◌, ◌<◌, true, false, none, ◌≡◌, refl, ◌∙◌, arith, List, [], ◌∷◌, ◌++◌, All, Bool-cases, leb,
  inl, inr,
}
use copy.Filejob.{FileCopyJob, BlockCopyJob, no_file_job}
use copy.Shared.{Platform, SharedState}
use copy.Scheduler.Loop.{
  Slot, Row, update_active, complete_or_schedule, clear_used, clear_blocks,
  scheduler_clear_file_copy_job, started,
}
use copy.Scheduler.Schedule.{IsCountable, total_blocks}
use copy.Scheduler.Step.{BlockInv, FileInv}
use copy.Scheduler.Rows.{
  used, Apart, Distinct, KeptRow, update_blocks-KeptRow, schedule_one-KeptRow,
  schedule_one-finish_queue,
}

-- A block job that does nothing and holds nothing.
abbrev pub IsIdle : BlockCopyJob → Type 0
IsIdle x = (x.in_use ≡ false) × (x.buffer ≡ none)

-- The row of a file that is being copied: the count of scheduled blocks is the number of block
-- jobs in use, these hold different blocks of the file, and no more blocks are started than there are.
pub record Live (f : FileCopyJob) (xs : List BlockCopyJob) : Type 0 where
  pub file : FileInv f
  pub blocks : All (BlockInv f) xs
  pub distinct : Distinct xs
  pub counted : used xs ≡ f.n_block_jobs_scheduled

pub record SlotInv (x : Slot) : Type 0 where
  pub live : x.file.active ≡ true → Live x.file x.blocks
  pub quiet : x.file.active ≡ false → All IsIdle x.blocks

KeptRow-FileInv :
    {f g : FileCopyJob} {xs ys : List BlockCopyJob} → FileInv f → KeptRow f xs g ys → FileInv g
KeptRow-FileInv v k =
    let e = k.stx in let e' = k.size in let b = k.bounded in ground (arith, e, e', b)

KeptRow-Live :
    {f g : FileCopyJob} {xs ys : List BlockCopyJob} → Live f xs → KeptRow f xs g ys → Live g ys
KeptRow-Live l k = record {
  file = KeptRow-FileInv l.file k;
  blocks = k.blocks;
  distinct = k.distinct;
  counted = omega (arith, k.counted, l.counted);
}

unused-IsIdle :
    (f : FileCopyJob) (xs : List BlockCopyJob) → All (BlockInv f) xs → used xs ≡ 0 → All IsIdle xs
unused-IsIdle f [] bs h = tt
unused-IsIdle f (x ∷ xs) bs h =
    let first : x.in_use ≡ false = ground arith in
    ((first, bs.0.idle first), unused-IsIdle f xs bs.1 (omega arith))

-- When as many blocks are finished as the file has, none of its block jobs is in use.
pub finished-IsIdle :
    {f : FileCopyJob} (xs : List BlockCopyJob)
    → Live f xs
    → total_blocks f ≤ f.n_block_jobs_finished
    → All IsIdle xs
finished-IsIdle xs l h = unused-IsIdle _ xs l.blocks (omega (arith, l.counted, l.file.bounded))

used-idle : (xs : List BlockCopyJob) → All IsIdle xs → used xs ≡ 0
used-idle [] h = refl
used-idle (x ∷ xs) h = let e = h.0.0 in ground (arith, used-idle xs h.1)

idle-BlockInvs : (f : FileCopyJob) (xs : List BlockCopyJob) → All IsIdle xs → All (BlockInv f) xs
idle-BlockInvs f [] h = tt
idle-BlockInvs f (x ∷ xs) h =
    let e = h.0.0 in let e' = h.0.1 in (ground arith, idle-BlockInvs f xs h.1)

idle-Distinct : (xs : List BlockCopyJob) → All IsIdle xs → Distinct xs
idle-Distinct [] h = tt
idle-Distinct (x ∷ xs) h = (apart xs, idle-Distinct xs h.1)
  where
    apart : (ys : List BlockCopyJob) → All (Apart x) ys
    apart [] = tt
    apart (y ∷ ys) = (λ u. cc (h.0.0), apart ys)

-- A job that is dequeued into a free slot starts in the invariant.
pub started-Live :
    (f : FileCopyJob) (xs : List BlockCopyJob) → IsCountable f → All IsIdle xs → Live (started f) xs
started-Live f xs c h = record {
  file = record {
    countable = record { positive = c.positive; fits = c.fits; few = c.few };
    bounded = omega arith;
  };
  blocks = idle-BlockInvs _ xs h;
  distinct = idle-Distinct xs h;
  counted = used-idle xs h;
}

pub Live-SlotInv : (x : Slot) → x.file.active ≡ true → Live x.file x.blocks → SlotInv x
Live-SlotInv x on l = record { live = λ _. l; quiet = λ off. cc }

module _ {Arena : Type 0} (os : Platform Arena) where
  clear_blocks_idle :
      (xs : List BlockCopyJob) (s : SharedState Arena) (b : List (ℕ × ℕ)) (f : FileCopyJob)
      → All IsIdle xs
      → clear_blocks os xs s b f
        ≡ record { shared = s; batch = b; slot = record { file = f; blocks = xs } }
  unfolding clear_blocks clear_used
  clear_blocks_idle [] s b f h = refl
  clear_blocks_idle (x ∷ xs) s b f h = simp (h.0.0, clear_blocks_idle xs s b f h.1)

  -- The first pass keeps the invariant of every slot, active or not.
  pub update_active-SlotInv :
      (i : ℕ) (r : Row Arena) → SlotInv r.slot → SlotInv (update_active os i r).slot
  unfolding update_active
  update_active-SlotInv i r v = elim (Bool-cases r.slot.file.active) [
    | inr off ↦ simp off v
    | inl on ↦
        let l = v.live on in
        let k =
          update_blocks-KeptRow os i 0 r.slot.blocks r.shared r.batch r.slot.file l.file l.blocks
            l.distinct (omega (arith, l.counted)) in
        simp on (Live-SlotInv _ (k.active ∙ on) (KeptRow-Live l k))
  ]

  module _ (i : ℕ) (r : Row Arena) (v : SlotInv r.slot) (on : r.slot.file.active ≡ true) where
    -- For an active slot in its invariant whose file has all its blocks finished: the file is put at
    -- the end of the finish queue, marked as transferred, and its slot is free again; nothing else
    -- changes, and all block jobs of the slot are idle and hold no buffer.
    pub complete_finished :
        total_blocks r.slot.file ≤ r.slot.file.n_block_jobs_finished
        → (complete_or_schedule os i r ≡ record {
          shared = record r.shared {
            finish_queue =
                r.shared.finish_queue ++ record r.slot.file { actually_transferred = true } ∷ [];
          };
          batch = r.batch;
          slot = record { file = no_file_job; blocks = r.slot.blocks };
        })
          × All IsIdle r.slot.blocks
    unfolding complete_or_schedule scheduler_clear_file_copy_job
    complete_finished h =
        let idle = finished-IsIdle r.slot.blocks (v.live on) h in
        let all : leb (total_blocks r.slot.file) r.slot.file.n_block_jobs_finished ≡ true =
          ground arith in
        (simp (on, all) (simp (clear_blocks_idle r.slot.blocks _ r.batch _ idle)), idle)

    -- For an active slot in its invariant whose file has fewer blocks finished than it has: the
    -- finish queue is as it was, and the file and its block jobs go on as `KeptRow` says: the file stays
    -- active and the same but for its counters, the blocks started and the blocks finished do not
    -- fall, the count of scheduled blocks follows the jobs in use, no more blocks are started than
    -- there are, each newly started block is held by a job, and the jobs in
    -- use work on different blocks.
    pub schedule_unfinished :
        r.slot.file.n_block_jobs_finished < total_blocks r.slot.file
        → ((complete_or_schedule os i r).shared.finish_queue ≡ r.shared.finish_queue)
          × KeptRow r.slot.file r.slot.blocks
              (complete_or_schedule os i r).slot.file
              (complete_or_schedule os i r).slot.blocks
    unfolding complete_or_schedule
    schedule_unfinished h =
        let l = v.live on in
        let more : leb (total_blocks r.slot.file) r.slot.file.n_block_jobs_finished ≡ false =
          ground arith in
        simp (on, more)
          (
            schedule_one-finish_queue os i 0 r.slot.blocks r.shared r.batch r.slot.file,
            schedule_one-KeptRow os i 0 r.slot.blocks r.shared r.batch r.slot.file l.file l.blocks
                l.distinct,
          )

  -- The second pass keeps the invariant of every slot.
  pub complete_or_schedule-SlotInv :
      (i : ℕ) (r : Row Arena) → SlotInv r.slot → SlotInv (complete_or_schedule os i r).slot
  complete_or_schedule-SlotInv i r v = elim (Bool-cases r.slot.file.active) [
    | inr off ↦ unfold complete_or_schedule in simp off v
    | inl on ↦ elim (dec_lt r.slot.file.n_block_jobs_finished (total_blocks r.slot.file)) [
      | yes more ↦
          let k = (schedule_unfinished i r v on more).1 in
          Live-SlotInv _ (k.active ∙ on) (KeptRow-Live (v.live on) k)
      | no done ↦
          let (e, idle) = complete_finished i r v on (omega arith) in
          rw e (record { live = λ p. absurd (false≢true p); quiet = λ p. idle })
    ]
  ]
