-- ===== src/Scheduler/Block.antt =====
-- copy2.cpp: the life of one block job, from its read over its write to its end.
--
-- A handler changes the shared state, the batch of requests to submit, the file job that owns the
-- block and the block job itself: these make up a `Work`. An entry of the batch is the address of
-- a block job's `iocb`, here the pair of the index of its file job and its own index under that.
-- `Platform` has what other projects' code does.
use copy.Prelude.{
  ℕ, ◌+◌, ◌-◌, ◌%◌, ◌^◌, min, Bool, true, false, ◌&&◌, Option, none, some, List, [], ◌∷◌, ◌++◌, ltb,
  leb, ◌==◌, if◌then◌else◌, word, add64, sub64, mul64, ℤ, pos, negsuc,
}
use copy.Filejob.{
  FileCopyJob, BlockCopyJob, blank_block_job, no_request, pread, pwrite, Iocb, Rw, read, write,
  readdst, finish, align_up, direct_io_align,
}
use copy.Memory.{Memory, is_zero, memset, bytes}
use copy.Shared.{SharedState, Platform}

abbrev pub einprogress : ℕ
einprogress = 115

abbrev pub eio : ℕ
eio = 5

pub record Work (Arena : Type 0) : Type 0 where
  pub shared : SharedState Arena
  pub batch : List (ℕ × ℕ)
  pub file : FileCopyJob
  pub block : BlockCopyJob

abbrev pub request_bytes : Iocb → ℕ
request_bytes no_request = 0
request_bytes (pread fd buf nbytes offset) = nbytes
request_bytes (pwrite fd buf nbytes offset) = nbytes

-- The new `status` of both callbacks: an error code, 0 for success and for a result of 0, and
-- `EIO` for a short transfer. The `int` keeps 32 bits of the code.
abbrev pub request_status : Iocb → ℤ → ℕ
request_status cb (negsuc n) = (n + 1) % 2 ^ 32
request_status cb (pos res) = if res == 0 then 0 else if res == request_bytes cb then 0 else eio

unfoldable pub rd_done : BlockCopyJob → ℤ → BlockCopyJob
rd_done job res = record job { status = request_status job.cb res }

unfoldable pub wr_done : BlockCopyJob → ℤ → BlockCopyJob
wr_done job res = record job { status = request_status job.cb res }

-- The callback that was set with the request.
unfoldable pub callback : BlockCopyJob → ℤ → BlockCopyJob
unfolding rd_done wr_done
callback job res = elim job.cb [
  | no_request ↦ job
  | pread fd buf nbytes offset ↦ rd_done job res
  | pwrite fd buf nbytes offset ↦ wr_done job res
]

-- `int jobno = n`, read back as a `size_t`: 32 bits, and the sign extended.
abbrev pub int_of_size : ℕ → ℕ
int_of_size n = let w = n % 2 ^ 32 in if ltb w (2 ^ 31) then w else w + (word - 2 ^ 32)

abbrev pub memset_buffer : Memory → Option ℕ → ℕ → ℕ → Memory
memset_buffer m none skip len = m
memset_buffer m (some p) skip len = memset m (p + skip) 0 len

abbrev pub zero_buffer : Memory → Option ℕ → ℕ → Bool
zero_buffer m none len = true
zero_buffer m (some p) len = is_zero m p len

abbrev pub buffer_bytes : Memory → Option ℕ → ℕ → List ℕ
buffer_bytes m none len = []
buffer_bytes m (some p) len = bytes m p len

-- The fields that are set before the test of the offset.
unfoldable pub next_job : ℕ → FileCopyJob → BlockCopyJob → BlockCopyJob
next_job parent file block =
    let jobno = int_of_size (add64 file.n_block_jobs_scheduled file.n_block_jobs_finished) in
    record block {
      jobno = jobno;
      parent = parent;
      cb = no_request;
      type = read;
      status = einprogress;
      offset = mul64 file.file_block_size jobno;
    }

module _ {Arena : Type 0} (os : Platform Arena) where
  unfoldable pub release_buffer : Option ℕ → ℕ → SharedState Arena → SharedState Arena
  release_buffer none size s = s
  release_buffer (some p) size s = record s {
    copybuffer_allocator = os.buddy_free s.copybuffer_allocator p;
    total_mem_allocated = sub64 s.total_mem_allocated size;
  }

  unfoldable pub scheduler_clear_block_copy_job : Bool → Work Arena → Work Arena
  unfolding release_buffer
  scheduler_clear_block_copy_job true w = record w { block = blank_block_job w.block.buffer }
  scheduler_clear_block_copy_job false w = record w {
    shared = release_buffer w.block.buffer w.file.file_block_size w.shared;
    block = blank_block_job none;
  }

  -- The end of `schedulerScheduleBlockCopyJob`: the read request goes into the batch.
  unfoldable pub submit_read : ℕ × ℕ → Work Arena → Work Arena
  submit_read at w = record w {
    block = record w.block {
      in_use = true;
      cb = pread w.file.src_fd w.block.buffer w.block.nbytes w.block.offset;
    };
    batch = w.batch ++ at ∷ [];
    file = record w.file { n_block_jobs_scheduled = add64 w.file.n_block_jobs_scheduled 1 };
  }

  -- What follows `buddy_malloc`, with its result.
  unfoldable pub buffer_given : ℕ × ℕ → Option ℕ × Arena → Work Arena → Work Arena
  unfolding submit_read scheduler_clear_block_copy_job
  buffer_given at (none, arena) w = scheduler_clear_block_copy_job false (record w {
    shared = record w.shared {
      copybuffer_allocator = arena;
      allocation_attempts = add64 w.shared.allocation_attempts 1;
      allocation_failures = add64 w.shared.allocation_failures 1;
    };
  })
  buffer_given at (some p, arena) w = submit_read at (record w {
    shared = record w.shared {
      copybuffer_allocator = arena;
      allocation_attempts = add64 w.shared.allocation_attempts 1;
      total_mem_allocated = add64 w.shared.total_mem_allocated w.file.file_block_size;
    };
    block = record w.block { buffer = some p };
  })

  unfoldable pub fetch_buffer : Bool → ℕ × ℕ → Work Arena → Work Arena
  unfolding buffer_given submit_read
  fetch_buffer true at w = submit_read at w
  fetch_buffer false at w =
      buffer_given at (os.buddy_malloc w.shared.copybuffer_allocator w.file.file_block_size) w

  unfoldable pub scheduler_schedule_block_copy_job : Bool → ℕ × ℕ → Work Arena → Work Arena
  unfolding fetch_buffer scheduler_clear_block_copy_job
  scheduler_schedule_block_copy_job preallocated at w =
      let job = next_job at.0 w.file w.block in
      if leb w.file.stx.stx_size job.offset
      then scheduler_clear_block_copy_job false (record w { block = job })
      else fetch_buffer preallocated at (record w {
        block = record job {
          nbytes = min w.file.file_block_size (w.file.stx.stx_size - job.offset);
        };
      })

  -- A finished read of the source: skipped if sparse, or written out with its padding zeroed.
  unfoldable pub read_finished : ℕ × ℕ → Work Arena → Work Arena
  read_finished at w =
      let s = record w.shared { bytes_read = add64 w.shared.bytes_read w.block.nbytes } in
      let write_bytes = align_up w.block.nbytes direct_io_align in
      let padded =
        if ltb w.block.nbytes write_bytes
        then memset_buffer s.memory w.block.buffer w.block.nbytes (write_bytes - w.block.nbytes)
        else s.memory in
      if s.opts.sparse && zero_buffer s.memory w.block.buffer w.block.nbytes
      then record w { shared = s; block = record w.block { type = finish; status = 0 } }
      else record w {
        shared = record s { memory = padded };
        batch = w.batch ++ at ∷ [];
        block = record w.block {
          cb = pwrite w.file.dst_fd w.block.buffer write_bytes w.block.offset;
          status = einprogress;
          type = write;
          src_hash =
              if s.opts.readback
              then os.xxh3_64bits (buffer_bytes padded w.block.buffer w.block.nbytes)
              else 0;
        };
      }

  unfoldable pub write_finished : ℕ × ℕ → Work Arena → Work Arena
  write_finished at w =
      let s = record w.shared { bytes_written = add64 w.shared.bytes_written w.block.nbytes } in
      if s.opts.readback
      then record w {
        shared = record s { memory = memset_buffer s.memory w.block.buffer 0 w.block.nbytes };
        batch = w.batch ++ at ∷ [];
        block = record w.block {
          cb = pread w.file.dst_fd w.block.buffer w.block.nbytes w.block.offset;
          status = einprogress;
          type = readdst;
        };
      }
      else record w { shared = s; block = record w.block { type = finish; status = 0 } }

  -- One error if the data read back hashes otherwise than the data written.
  unfoldable pub hash_errors : Rw → Work Arena → ℕ
  hash_errors readdst w =
      if os.xxh3_64bits (buffer_bytes w.shared.memory w.block.buffer w.block.nbytes)
        == w.block.src_hash
      then 0
      else 1
  hash_errors _ w = 0

  -- The end of a block: its buffer goes on to the next block of the file.
  unfoldable pub block_finished : ℕ × ℕ → Work Arena → Work Arena
  unfolding scheduler_clear_block_copy_job
  block_finished at w = scheduler_schedule_block_copy_job true at (
      scheduler_clear_block_copy_job true (record w {
        file = record w.file {
          n_errors = add64 w.file.n_errors (hash_errors w.block.type w);
          n_block_jobs_scheduled = sub64 w.file.n_block_jobs_scheduled 1;
          n_block_jobs_finished = add64 w.file.n_block_jobs_finished 1;
        };
      }))

  unfoldable pub request_succeeded : Rw → ℕ × ℕ → Work Arena → Work Arena
  request_succeeded read at w = read_finished at w
  request_succeeded write at w = write_finished at w
  request_succeeded readdst at w = block_finished at w
  request_succeeded finish at w = block_finished at w

  unfoldable pub request_failed : Work Arena → Work Arena
  unfolding scheduler_clear_block_copy_job
  request_failed w = scheduler_clear_block_copy_job false (record w {
    file = record w.file {
      n_block_jobs_finished = add64 w.file.n_block_jobs_finished 1;
      n_block_jobs_scheduled = sub64 w.file.n_block_jobs_scheduled 1;
    };
  })

  unfoldable pub scheduler_update_block_copy_job : ℕ × ℕ → Work Arena → Work Arena
  scheduler_update_block_copy_job at w =
      if w.block.status == 0
      then request_succeeded w.block.type at w
      else if w.block.status == einprogress
      then w
      else request_failed w
