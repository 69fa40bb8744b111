-- ===== src/Scheduler/Loop.antt =====
-- copy2.cpp: the scheduler's passes over its file jobs and their block jobs.
--
-- A `Slot` is an entry of `fileCopyJobs` with the `nBlockCopyJobsPerFileCopyJob` entries of
-- `blockCopyJobs` that start at its index times that number; an `iocb` address is the index of the
-- slot and of the block job in it. A loop over an array is a recursion on the list, with the
-- index counted along.
use copy.Prelude.{
  ℕ, ◌+◌, Option, true, false, none, some, List, [], ◌∷◌, ◌++◌, ltb, leb, if◌then◌else◌, add64,
  get_elem?, set, replicate, not,
}
use copy.Filejob.{
  FileCopyJob, BlockCopyJob, blank_block_job, no_file_job, block_count, size_of_bool,
}
use copy.Shared.{SharedState, Platform}
use copy.Scheduler.Block.{
  Work, scheduler_clear_block_copy_job, scheduler_schedule_block_copy_job,
  scheduler_update_block_copy_job,
}

pub record Slot : Type 0 where
  pub file : FileCopyJob
  pub blocks : List BlockCopyJob

pub record CopyScheduler (Arena : Type 0) : Type 0 where
  pub shared : SharedState Arena
  pub slots : List Slot
  pub cb_batch : List (ℕ × ℕ)

-- What a pass over the blocks of one file may change.
pub record Row (Arena : Type 0) : Type 0 where
  pub shared : SharedState Arena
  pub batch : List (ℕ × ℕ)
  pub slot : Slot

abbrev pub row_of : {Arena : Type 0} → Work Arena → List BlockCopyJob → Row Arena
row_of w rest = record {
  shared = w.shared;
  batch = w.batch;
  slot = record { file = w.file; blocks = rest };
}

abbrev pub work_of : {Arena : Type 0} → Row Arena → BlockCopyJob → Work Arena
work_of r x = record { shared = r.shared; batch = r.batch; file = r.slot.file; block = x }

abbrev pub cons_block : {Arena : Type 0} → BlockCopyJob → Row Arena → Row Arena
cons_block x r = record r { slot = record { file = r.slot.file; blocks = x ∷ r.slot.blocks } }

-- The zeroed arrays of `createScheduler`.
abbrev pub blank_slot : ℕ → Slot
blank_slot blocks = record { file = no_file_job; blocks = replicate blocks (blank_block_job none) }

unfoldable pub create_scheduler : {Arena : Type 0} → SharedState Arena → ℕ → ℕ → CopyScheduler Arena
create_scheduler s files blocks = record {
  shared = s;
  slots = replicate files (blank_slot blocks);
  cb_batch = [];
}

unfoldable pub count_active : List Slot → ℕ
count_active [] = 0
count_active (x ∷ xs) = size_of_bool x.file.active + count_active xs

-- A dequeued job, with its counters reset.
abbrev pub started : FileCopyJob → FileCopyJob
started job = record job {
  n_block_jobs_scheduled = 0;
  n_block_jobs_finished = 0;
  n_errors = 0;
  active = true;
}

-- Change the block job at an address; an address outside the arrays changes nothing.
abbrev pub in_block :
    {Arena : Type 0}
    → ℕ × ℕ
    → (Work Arena → Work Arena)
    → CopyScheduler Arena
    → Slot
    → Option BlockCopyJob
    → CopyScheduler Arena
in_block at f c x none = c
in_block at f c x (some block) =
    let w = f (record { shared = c.shared; batch = c.cb_batch; file = x.file; block = block }) in
    record {
      shared = w.shared;
      slots = set c.slots at.0 (record { file = w.file; blocks = set x.blocks at.1 w.block });
      cb_batch = w.batch;
    }

abbrev pub in_slot :
    {Arena : Type 0}
    → ℕ × ℕ
    → (Work Arena → Work Arena)
    → CopyScheduler Arena
    → Option Slot
    → CopyScheduler Arena
in_slot at f c none = c
in_slot at f c (some x) = in_block at f c x (get_elem? x.blocks at.1)

abbrev pub at_block :
    {Arena : Type 0} → ℕ × ℕ → (Work Arena → Work Arena) → CopyScheduler Arena → CopyScheduler Arena
at_block at f c = in_slot at f c (get_elem? c.slots at.0)

module _ {Arena : Type 0} (os : Platform Arena) where
  unfoldable pub update_used : ℕ × ℕ → Work Arena → Work Arena
  update_used at w = if w.block.in_use then scheduler_update_block_copy_job os at w else w

  -- The first loop, over the blocks of an active file.
  unfoldable pub update_blocks :
      ℕ → ℕ → List BlockCopyJob → SharedState Arena → List (ℕ × ℕ) → FileCopyJob → Row Arena
  update_blocks i j [] s b f = record {
    shared = s;
    batch = b;
    slot = record { file = f; blocks = [] };
  }
  update_blocks i j (x ∷ xs) s b f =
      let w = update_used (i, j) (record { shared = s; batch = b; file = f; block = x }) in
      cons_block w.block (update_blocks i (j + 1) xs w.shared w.batch w.file)

  -- The loop that starts at most one block: it stops at the first job that is not in use, and where
  -- all blocks are finished or scheduled.
  unfoldable pub schedule_one :
      ℕ → ℕ → List BlockCopyJob → SharedState Arena → List (ℕ × ℕ) → FileCopyJob → Row Arena
  schedule_one i j [] s b f = record {
    shared = s;
    batch = b;
    slot = record { file = f; blocks = [] };
  }
  schedule_one i j (x ∷ xs) s b f =
      let w : Work Arena = record { shared = s; batch = b; file = f; block = x } in
      let w' = scheduler_schedule_block_copy_job os false (i, j) w in
      let later = cons_block x (schedule_one i (j + 1) xs s b f) in
      if ltb (add64 f.n_block_jobs_finished f.n_block_jobs_scheduled)
        (block_count f.stx.stx_size f.file_block_size)
      then (if x.in_use then later else row_of w' (w'.block ∷ xs))
      else row_of w (x ∷ xs)

  unfoldable pub clear_used : Work Arena → Work Arena
  clear_used w = if w.block.in_use then scheduler_clear_block_copy_job os false w else w

  -- `schedulerClearFileCopyJob`.
  unfoldable pub clear_blocks :
      List BlockCopyJob → SharedState Arena → List (ℕ × ℕ) → FileCopyJob → Row Arena
  clear_blocks [] s b f = record { shared = s; batch = b; slot = record { file = f; blocks = [] } }
  clear_blocks (x ∷ xs) s b f =
      let w = clear_used (record { shared = s; batch = b; file = f; block = x }) in
      cons_block w.block (clear_blocks xs w.shared w.batch w.file)

  unfoldable pub scheduler_clear_file_copy_job : Row Arena → Row Arena
  unfolding clear_blocks
  scheduler_clear_file_copy_job r =
      let c = clear_blocks r.slot.blocks r.shared r.batch r.slot.file in
      record c { slot = record { file = no_file_job; blocks = c.slot.blocks } }

  -- The second loop's body: hand a finished file over, or start one more of its blocks.
  unfoldable pub complete_or_schedule : ℕ → Row Arena → Row Arena
  complete_or_schedule i r =
      let f = r.slot.file in
      if not f.active
      then r
      else if leb (block_count f.stx.stx_size f.file_block_size) f.n_block_jobs_finished
      then scheduler_clear_file_copy_job (record r {
        shared = record r.shared {
          finish_queue = r.shared.finish_queue ++ (record f { actually_transferred = true }) ∷ [];
        };
      })
      else schedule_one i 0 r.slot.blocks r.shared r.batch f

  unfoldable pub update_active : ℕ → Row Arena → Row Arena
  unfolding update_blocks
  update_active i r =
      if not r.slot.file.active
      then r
      else update_blocks i 0 r.slot.blocks r.shared r.batch r.slot.file

  -- A pass over all slots.
  unfoldable pub pass :
      (ℕ → Row Arena → Row Arena)
      → ℕ
      → List Slot
      → SharedState Arena
      → List (ℕ × ℕ)
      → CopyScheduler Arena
  pass step i [] s b = record { shared = s; slots = []; cb_batch = b }
  pass step i (x ∷ xs) s b =
      let r = step i (record { shared = s; batch = b; slot = x }) in
      let c = pass step (i + 1) xs r.shared r.batch in record c { slots = r.slot ∷ c.slots }

  -- The loop that starts new files; it ends at the first dequeue that yields nothing.
  unfoldable pub start_jobs : List Slot → List FileCopyJob → List Slot × List FileCopyJob
  start_jobs [] q = ([], q)
  start_jobs (x ∷ xs) q = elim x.file.active [
    | true ↦ let (ys, q') = start_jobs xs q in (x ∷ ys, q')
    | false ↦ elim (os.dequeue q) [
      | none ↦ (x ∷ xs, q)
      | some (job, q') ↦
          let (ys, q'') = start_jobs xs q' in (record x { file = started job } ∷ ys, q'')
    ]
  ]
