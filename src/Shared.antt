-- ===== src/Shared.antt =====
-- sharedstate.h: the state that the threads share. The parts that live in a component of their own
-- (the hard-link tables, the descriptor semaphore) are modelled there.
use copy.Prelude.{ℕ, Bool, List, Option}
use copy.Filejob.{FileCopyJob}
use copy.Memory.{Memory}

-- `Opts`, as far as the copying of a file depends on it.
pub record Opts : Type 0 where
  pub min_block_size : ℕ
  pub max_block_size : ℕ
  pub preserve_atime : Bool
  pub readback : Bool
  pub sparse : Bool
  pub sync : Bool

-- `Arena` is the state of the buddy allocator over the copy buffer, which is code of another
-- project; `memory` holds the bytes of that buffer. A queue is the list of its jobs, oldest first.
pub record SharedState (Arena : Type 0) : Type 0 where
  pub opts : Opts
  pub copybuffer_allocator : Arena
  pub memory : Memory
  pub job_queue : List FileCopyJob
  pub finish_queue : List FileCopyJob
  pub n_finished : ℕ
  pub files_seen : ℕ
  pub files_removed : ℕ
  pub total_bytes_transferred : ℕ
  pub total_bytes_actually_transferred : ℕ
  pub total_bytes_seen_and_will_transfer : ℕ
  pub total_bytes_seen : ℕ
  pub bytes_read : ℕ
  pub bytes_written : ℕ
  pub allocation_attempts : ℕ
  pub allocation_failures : ℕ
  pub total_mem_allocated : ℕ
  pub scheduler_iterations : ℕ
  pub crawl_done : Bool

-- What the copying of blocks calls of other projects' code: the buddy allocator over the copy buffer,
-- the hash, and the removal of a job from the concurrent queue (`none` where it yields nothing).
pub record Platform (Arena : Type 0) : Type 0 where
  pub buddy_malloc : Arena → ℕ → Option ℕ × Arena
  pub buddy_free : Arena → ℕ → Arena
  pub xxh3_64bits : List ℕ → ℕ
  pub dequeue : List FileCopyJob → Option (FileCopyJob × List FileCopyJob)
