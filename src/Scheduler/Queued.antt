-- ===== src/Scheduler/Queued.antt =====
-- copy2.cpp: the passes of the scheduler take nothing from the job queue.
use copy.Prelude.{ℕ, ◌+◌, Bool, true, false, ◌≡◌, refl, ◌∙◌, ◌++◌, List, [], ◌∷◌, arith}
use copy.Filejob.{FileCopyJob, BlockCopyJob, Rw, read, write, readdst, finish}
use copy.Shared.{Platform, SharedState}
use copy.Scheduler.Block.{
  Work, buffer_given, scheduler_clear_block_copy_job, scheduler_schedule_block_copy_job,
  read_finished, write_finished, block_finished, request_succeeded, request_failed,
  scheduler_update_block_copy_job,
}
use copy.Scheduler.Loop.{
  Slot, Row, update_used, update_blocks, schedule_one, clear_used, clear_blocks,
  scheduler_clear_file_copy_job, complete_or_schedule, update_active, pass,
}

module _ {Arena : Type 0} (os : Platform Arena) where
  clear_queue :
      (nofree : Bool) (w : Work Arena)
      → (scheduler_clear_block_copy_job os nofree w).shared.job_queue ≡ w.shared.job_queue
  unfolding scheduler_clear_block_copy_job
  clear_queue true w = refl
  clear_queue false w = ground arith

  schedule_queue :
      (pre : Bool) (at : ℕ × ℕ) (w : Work Arena)
      → (scheduler_schedule_block_copy_job os pre at w).shared.job_queue ≡ w.shared.job_queue
  unfolding scheduler_schedule_block_copy_job buffer_given
  schedule_queue true at w = ground arith
  schedule_queue false at w = ground arith

  succeeded_queue :
      (t : Rw) (at : ℕ × ℕ) (w : Work Arena)
      → (request_succeeded os t at w).shared.job_queue ≡ w.shared.job_queue
  unfolding request_succeeded read_finished write_finished block_finished
  succeeded_queue read at w = ground arith
  succeeded_queue write at w = ground arith
  succeeded_queue readdst at w = schedule_queue true at _
  succeeded_queue finish at w = schedule_queue true at _

  update_used_queue :
      (at : ℕ × ℕ) (w : Work Arena) → (update_used os at w).shared.job_queue ≡ w.shared.job_queue
  unfolding update_used scheduler_update_block_copy_job request_failed
  update_used_queue at w = ground (arith, succeeded_queue w.block.type at w)

  update_blocks_queue :
      (i j : ℕ) (xs : List BlockCopyJob) (s : SharedState Arena) (b : List (ℕ × ℕ))
      (f : FileCopyJob)
      → (update_blocks os i j xs s b f).shared.job_queue ≡ s.job_queue
  unfolding update_blocks
  update_blocks_queue i j [] s b f = refl
  update_blocks_queue i j (x ∷ xs) s b f =
      update_blocks_queue i (j + 1) xs _ _ _ ∙ update_used_queue (i, j) _

  schedule_one_queue :
      (i j : ℕ) (xs : List BlockCopyJob) (s : SharedState Arena) (b : List (ℕ × ℕ))
      (f : FileCopyJob)
      → (schedule_one os i j xs s b f).shared.job_queue ≡ s.job_queue
  unfolding schedule_one
  schedule_one_queue i j [] s b f = refl
  schedule_one_queue i j (x ∷ xs) s b f = ground (
    arith,
    schedule_one_queue i (j + 1) xs s b f,
    schedule_queue false (i, j) (record { shared = s; batch = b; file = f; block = x }),
  )

  clear_blocks_queue :
      (xs : List BlockCopyJob) (s : SharedState Arena) (b : List (ℕ × ℕ)) (f : FileCopyJob)
      → (clear_blocks os xs s b f).shared.job_queue ≡ s.job_queue
  unfolding clear_blocks
  clear_blocks_queue [] s b f = refl
  clear_blocks_queue (x ∷ xs) s b f = clear_blocks_queue xs _ _ _ ∙ clear_used_queue _
    where
      clear_used_queue : (w : Work Arena) → (clear_used os w).shared.job_queue ≡ w.shared.job_queue
      clear_used_queue w = unfold clear_used in ground (arith, clear_queue false w)

  pub update_active_queue :
      (i : ℕ) (r : Row Arena) → (update_active os i r).shared.job_queue ≡ r.shared.job_queue
  unfolding update_active
  update_active_queue i r =
      ground (arith, update_blocks_queue i 0 r.slot.blocks r.shared r.batch r.slot.file)

  pub complete_or_schedule_queue :
      (i : ℕ) (r : Row Arena) → (complete_or_schedule os i r).shared.job_queue ≡ r.shared.job_queue
  unfolding complete_or_schedule scheduler_clear_file_copy_job
  complete_or_schedule_queue i r = ground (
    arith,
    schedule_one_queue i 0 r.slot.blocks r.shared r.batch r.slot.file,
    clear_blocks_queue r.slot.blocks
        (record r.shared {
          finish_queue =
              r.shared.finish_queue ++ record r.slot.file { actually_transferred = true } ∷ [];
        })
        r.batch r.slot.file,
  )

  pub pass_queue :
      (step : ℕ → Row Arena → Row Arena)
      → ((i : ℕ) (r : Row Arena) → (step i r).shared.job_queue ≡ r.shared.job_queue)
      → (i : ℕ) (xs : List Slot) (s : SharedState Arena) (b : List (ℕ × ℕ))
      → (pass os step i xs s b).shared.job_queue ≡ s.job_queue
  unfolding pass
  pass_queue step keep i [] s b = refl
  pass_queue step keep i (x ∷ xs) s b = pass_queue step keep (i + 1) xs _ _ ∙ keep i _
