-- ===== src/Scheduler/Tests.antt =====
-- copy2.cpp: the scheduler on a file of 10000 bytes in blocks of 4096, with two blocks under way.
use copy.Prelude.{
  ap, subst, ℕ, ◌+◌, ◌*◌, ◌≤◌, ◌<◌, true, false, Option, none, some, ◌≡◌, refl, arith, List, [],
  ◌∷◌, All, length, pos,
}
use copy.Filejob.{
  FileCopyJob, BlockCopyJob, no_file_job, no_statx, blank_block_job, block_count, pread, pwrite,
  write, align_up, direct_io_align,
}
use copy.Shared.{Opts, SharedState, Platform}
use copy.Scheduler.Block.{
  Work, einprogress, scheduler_update_block_copy_job, scheduler_schedule_block_copy_job,
}
use copy.Scheduler.Loop.{Slot, Row, CopyScheduler, update_blocks, complete_or_schedule}
use copy.Scheduler.Tick.{Turn, scheduler_passes, scheduler_update}
use copy.Scheduler.Completions.{scheduler_update-SlotInv}
use copy.Scheduler.Schedule.{IsCountable, with_fresh, schedule_allocated}
use copy.Scheduler.Step.{BlockInv, FileInv, Kept, update-Kept}
use copy.Scheduler.Rows.{Distinct, KeptRow, update_blocks-KeptRow}
use copy.Scheduler.Slots.{
  SlotInv, Live, IsIdle, Live-SlotInv, complete_finished, schedule_unfinished,
}
use copy.Scheduler.Passes.{YieldsMembers, scheduler_passes-SlotInv}
use copy.Scheduler.Transfer.{read_then_write}

abbrev first_of : List FileCopyJob → Option (FileCopyJob × List FileCopyJob)
first_of [] = none
first_of (job ∷ q) = some (job, q)

-- An arena that only grows.
abbrev bump : Platform ℕ
bump = record {
  buddy_malloc = λ top n. (some top, top + n);
  buddy_free = λ top p. top;
  xxh3_64bits = λ xs. length xs;
  dequeue = first_of;
}

abbrev opts : Opts
opts = record {
  min_block_size = 4096;
  max_block_size = 134217728;
  preserve_atime = false;
  readback = false;
  sparse = false;
  sync = false;
}

abbrev shared : List FileCopyJob → SharedState ℕ
shared q = record {
  opts = opts;
  copybuffer_allocator = 8192;
  memory = λ p. 7;
  job_queue = q;
  finish_queue = [];
  n_finished = 0;
  files_seen = 1;
  files_removed = 0;
  total_bytes_transferred = 0;
  total_bytes_actually_transferred = 0;
  total_bytes_seen_and_will_transfer = 0;
  total_bytes_seen = 0;
  bytes_read = 0;
  bytes_written = 0;
  allocation_attempts = 2;
  allocation_failures = 0;
  total_mem_allocated = 8192;
  scheduler_iterations = 0;
  crawl_done = false;
}

-- A file with the given counters.
abbrev job : ℕ → ℕ → FileCopyJob
job scheduled finished = record no_file_job {
  active = true;
  stx = record no_statx { stx_size = 10000 };
  src_fd = some 3;
  dst_fd = some 4;
  file_block_size = 4096;
  n_block_jobs_scheduled = scheduled;
  n_block_jobs_finished = finished;
}

-- The job of block `n`, for `n` 0 or 1, with the given status of its read.
abbrev block : ℕ → ℕ → BlockCopyJob
block n status = record (blank_block_job (some (4096 * n))) {
  jobno = n;
  cb = pread (some 3) (some (4096 * n)) 4096 (4096 * n);
  status = status;
  offset = 4096 * n;
  nbytes = 4096;
  in_use = true;
}

job-IsCountable : (s n : ℕ) → IsCountable (job s n)
job-IsCountable s n = record {
  positive = omega arith;
  fits = omega arith;
  few = unfold block_count in omega arith;
}

job-FileInv : (s n : ℕ) → s + n ≤ 3 → FileInv (job s n)
job-FileInv s n h = record {
  countable = job-IsCountable s n;
  bounded = unfold block_count in omega arith;
}

block_BlockInv : (n status : ℕ) → n < 2 → BlockInv (job 2 0) (block n status)
block_BlockInv n status h = record {
  idle = λ e. cc;
  holds = λ e. refl;
  numbered = λ e. h;
  placed = λ e. refl;
  inside = λ e. omega arith;
  sized = λ e. omega arith;
}

abbrev row : List BlockCopyJob
row = block 0 0 ∷ block 1 einprogress ∷ []

row_BlockInvs : All (BlockInv (job 2 0)) row
row_BlockInvs = (block_BlockInv 0 0 (omega arith), (block_BlockInv 1 einprogress (omega arith), tt))

row-Distinct : Distinct row
row-Distinct = ((λ u u'. omega arith, tt), (tt, tt))

row-Live : Live (job 2 0) row
row-Live = record {
  file = job-FileInv 2 0 (omega arith);
  blocks = row_BlockInvs;
  distinct = row-Distinct;
  counted = refl;
}

abbrev slot : Slot
slot = record { file = job 2 0; blocks = row }

slot_SlotInv : SlotInv slot
slot_SlotInv = Live-SlotInv slot refl row-Live

abbrev free_slot : Slot
free_slot = record { file = no_file_job; blocks = blank_block_job none ∷ [] }

free_slot-SlotInv : SlotInv free_slot
free_slot-SlotInv = record { live = λ e. cc; quiet = λ e. ((refl, refl), tt) }

bump-YieldsMembers : YieldsMembers bump
bump-YieldsMembers = record { keeps = keeps }
  where
    keeps :
        (P : FileCopyJob → Type 0) (q : List FileCopyJob) (x : FileCopyJob) (q' : List FileCopyJob)
        → first_of q ≡ some (x, q')
        → All P q
        → P x × All P q'
    keeps P [] x q' e h = absurd (cc e)
    keeps P (y ∷ q) x q' e h =
        let same : (y, q) ≡ (x, q') = cc in
        (
          subst P (ap (λ (t : FileCopyJob × List FileCopyJob). t.0) same) h.0,
          subst (All P) (ap (λ (t : FileCopyJob × List FileCopyJob). t.1) same) h.1,
        )

abbrev scheduler : CopyScheduler ℕ
scheduler = record { shared = shared (job 0 0 ∷ []); slots = slot ∷ free_slot ∷ []; cb_batch = [] }

scheduler_passes-SlotInv_example : All SlotInv (scheduler_passes bump scheduler).slots
scheduler_passes-SlotInv_example =
    scheduler_passes-SlotInv bump bump-YieldsMembers scheduler
      (slot_SlotInv, (free_slot-SlotInv, tt)) (job-IsCountable 0 0, tt)

abbrev work : Work ℕ
work = record { shared = shared []; batch = []; file = job 2 0; block = block 0 0 }

abbrev failed_work : Work ℕ
failed_work = record work { block = block 0 5 }

abbrev finished_row : Row ℕ
finished_row = record {
  shared = shared [];
  batch = [];
  slot = record { file = job 0 3; blocks = blank_block_job none ∷ [] };
}

finished_Live : Live (job 0 3) (blank_block_job none ∷ [])
finished_Live = record {
  file = job-FileInv 0 3 (omega arith);
  blocks = (
    record {
      idle = λ e. refl;
      holds = λ e. absurd (cc e);
      numbered = λ e. absurd (cc e);
      placed = λ e. absurd (cc e);
      inside = λ e. absurd (cc e);
      sized = λ e. absurd (cc e);
    },
    tt,
  );
  distinct = (tt, tt);
  counted = refl;
}

abbrev live_row : Row ℕ
live_row = record { shared = shared []; batch = []; slot = slot }

complete_finished_example :
    (complete_or_schedule bump 5 finished_row ≡ record {
      shared = record (shared []) {
        finish_queue = record (job 0 3) { actually_transferred = true } ∷ [];
      };
      batch = [];
      slot = record { file = no_file_job; blocks = blank_block_job none ∷ [] };
    })
    × All IsIdle (blank_block_job none ∷ [])
complete_finished_example =
    complete_finished bump 5 finished_row (Live-SlotInv finished_row.slot refl finished_Live) refl
      (unfold block_count in omega arith)

schedule_unfinished_example :
    ((complete_or_schedule bump 0 live_row).shared.finish_queue ≡ [])
    × KeptRow
        (job 2 0)
        row
        (complete_or_schedule bump 0 live_row).slot.file
        (complete_or_schedule bump 0 live_row).slot.blocks
schedule_unfinished_example =
    schedule_unfinished bump 0 live_row slot_SlotInv refl (unfold block_count in omega arith)

update_blocks-KeptRow_example :
    KeptRow
      (job 2 0)
      row
      (update_blocks bump 0 0 row (shared []) [] (job 2 0)).slot.file
      (update_blocks bump 0 0 row (shared []) [] (job 2 0)).slot.blocks
update_blocks-KeptRow_example =
    update_blocks-KeptRow bump 0 0 row (shared []) [] (job 2 0) (job-FileInv 2 0 (omega arith))
      row_BlockInvs row-Distinct (omega arith)

update-Kept_example :
    Kept
      (job 2 0)
      (block 0 5)
      (scheduler_update_block_copy_job bump (0, 0) failed_work).file
      (scheduler_update_block_copy_job bump (0, 0) failed_work).block
update-Kept_example =
    update-Kept bump (0, 0) failed_work (job-FileInv 2 0 (omega arith))
      (block_BlockInv 0 5 (omega arith)) (omega arith) refl

abbrev idle_work : Work ℕ
idle_work = record work { block = blank_block_job none }

schedule_allocated_example :
    scheduler_schedule_block_copy_job bump false (0, 2) idle_work
    ≡ with_fresh
        (0, 2)
        8192
        (record idle_work {
          shared = record (shared []) {
            copybuffer_allocator = 12288;
            allocation_attempts = 3;
            total_mem_allocated = 12288;
          };
        })
schedule_allocated_example =
    schedule_allocated bump (0, 2) idle_work (job-IsCountable 2 0)
      (unfold block_count in omega arith) 8192 12288 refl (omega arith)

read_then_write_example :
    let w' = scheduler_update_block_copy_job bump (0, 0) work in
    let n = align_up 4096 direct_io_align in
    (w'.block.cb ≡ pwrite (some 4) (some 0) n 0)
    × (w'.block.type ≡ write)
    × (w'.batch ≡ (0, 0) ∷ [])
    × (w'.file ≡ job 2 0)
    × ((i : ℕ) → i < 4096 → w'.shared.memory (0 + i) ≡ 7)
    × ((i : ℕ) → 4096 ≤ i → i < n → w'.shared.memory (0 + i) ≡ 0)
read_then_write_example = read_then_write bump (0, 0) work 0 refl refl refl refl

-- The read of block 1 completes, and nothing is left to submit.
abbrev turn : Turn
turn = record { submitted = pos 0; events = ((0, 1), pos 4096) ∷ []; last = pos 0 }

scheduler_update-SlotInv_example : All SlotInv (scheduler_update bump turn scheduler).0.slots
scheduler_update-SlotInv_example =
    scheduler_update-SlotInv bump bump-YieldsMembers turn 0 scheduler refl
      (slot_SlotInv, (free_slot-SlotInv, tt)) (job-IsCountable 0 0, tt)
