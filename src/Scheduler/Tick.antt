-- ===== src/Scheduler/Tick.antt =====
-- copy2.cpp: one iteration of the scheduler, with its calls of the asynchronous I/O library.
--
-- The results of that library are arguments: what `io_submit` returned, the completions that the
-- calls of `io_getevents` returned until one returned something other than 1, and that value.
use copy.Prelude.{
  ℕ, true, false, Bool, List, [], ◌∷◌, ◌==◌, if◌then◌else◌, add64, sub64, ℤ, pos, negsuc, drop,
  ◌&&◌,
}
use copy.Shared.{Platform}
use copy.Scheduler.Block.{Work, callback, scheduler_clear_block_copy_job, einprogress}
use copy.Scheduler.Loop.{
  CopyScheduler, at_block, update_active, complete_or_schedule, pass, count_active, start_jobs,
}

-- What the outside gives in one iteration.
pub record Turn : Type 0 where
  pub submitted : ℤ
  pub events : List ((ℕ × ℕ) × ℤ)
  pub last : ℤ

-- A completion calls the callback of its request.
unfoldable pub io_queue_run_timeout :
    {Arena : Type 0} → List ((ℕ × ℕ) × ℤ) → CopyScheduler Arena → CopyScheduler Arena
io_queue_run_timeout [] c = c
io_queue_run_timeout ((at, res) ∷ events) c =
    io_queue_run_timeout events (at_block at (λ w. record w { block = callback w.block res }) c)

module _ {Arena : Type 0} (os : Platform Arena) where
  -- A block whose request could not be queued ends with an error.
  unfoldable pub not_queued : Work Arena → Work Arena
  not_queued w =
      let w' = scheduler_clear_block_copy_job os false w in
      record w' {
        file = record w'.file {
          n_block_jobs_scheduled = sub64 w'.file.n_block_jobs_scheduled 1;
          n_block_jobs_finished = add64 w'.file.n_block_jobs_finished 1;
          n_errors = add64 w'.file.n_errors 1;
        };
      }

  unfoldable pub fail_batch : List (ℕ × ℕ) → CopyScheduler Arena → CopyScheduler Arena
  unfolding not_queued
  fail_batch [] c = c
  fail_batch (at ∷ rest) c = fail_batch rest (at_block at not_queued c)

  unfoldable pub submit_batch : List (ℕ × ℕ) → ℤ → CopyScheduler Arena → CopyScheduler Arena × Bool
  unfolding fail_batch
  submit_batch [] submitted c = (record c { cb_batch = [] }, true)
  submit_batch (at ∷ rest) (negsuc n) c =
      let c' = fail_batch (at ∷ rest) c in (record c' { cb_batch = [] }, false)
  submit_batch (at ∷ rest) (pos n) c = (record c { cb_batch = drop n (at ∷ rest) }, true)

  -- The second part is false for the return value -1.
  unfoldable pub sched_io_submit_batch : ℤ → CopyScheduler Arena → CopyScheduler Arena × Bool
  unfolding submit_batch
  sched_io_submit_batch submitted c = submit_batch c.cb_batch submitted c

  unfoldable pub scheduler_tick : Turn → CopyScheduler Arena → CopyScheduler Arena
  scheduler_tick t c =
      let (c', sent) = sched_io_submit_batch t.submitted c in
      if sent then io_queue_run_timeout t.events c' else c'

  -- The passes over the file jobs, in the order of the source.
  unfoldable pub scheduler_passes : CopyScheduler Arena → CopyScheduler Arena
  scheduler_passes c =
      let c₁ = pass os (update_active os) 0 c.slots c.shared c.cb_batch in
      let c₂ = pass os (complete_or_schedule os) 0 c₁.slots c₁.shared c₁.cb_batch in
      let (slots, queue) = start_jobs os c₂.slots c₂.shared.job_queue in
      record c₂ {
        slots = slots;
        shared = record c₂.shared {
          job_queue = queue;
          scheduler_iterations = add64 c₂.shared.scheduler_iterations 1;
        };
      }

  -- `schedulerUpdate`: 0 where no file is active and the crawl is over, else `EINPROGRESS`.
  unfoldable pub scheduler_update : Turn → CopyScheduler Arena → CopyScheduler Arena × ℕ
  scheduler_update t c =
      let c' = scheduler_passes c in
      if (count_active c'.slots == 0) && c'.shared.crawl_done
      then (c', 0)
      else (scheduler_tick t c', einprogress)
