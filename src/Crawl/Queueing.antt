-- ===== src/Crawl/Queueing.antt =====
-- copy2.cpp, `processNonDir`: the jobs that the crawl queues are fit for the scheduler.
use copy.Prelude.{
  add64, ℕ, zero, suc, ◌+◌, ◌*◌, ◌^◌, ◌≤◌, ◌<◌, max, Bool, true, false, not, Option, none, some,
  All, All-append, arith, word, if◌then◌else◌, ◌==◌, ltb,
}
use copy.Prelude.Products.{lt_of_mul-lt}
use copy.Filejob.{block_size, block_count, align_up, direct_io_align}
use copy.Filejob.Blocks.{block_count_ceil}
use copy.Shared.{Opts}
use copy.Scheduler.Schedule.{IsCountable}
use copy.HLink.Lmdb.{Lmdb}
use copy.World.{Bytes, World, Action, ◌>>=◌, ◌>>◌, pure, assert, modify, call, enqueue_job}
use copy.Syscalls.{
  Kernel, Reply, ok, errno, post_on_error, sem_wait, sem_post, openat_wrapper, close_wrapper,
  ftruncate_wrapper, o_direct, o_noatime, o_rdwr, o_creat,
}
use copy.World.{fdrc_at, or_stop, at_ref, Fdrc, set_fdrc}
use copy.Fdrc.{incref}
use copy.Crawl.{Seen, copy_job, queue_copy, open_dest, open_source, transfer_regular}

block_size_bounds :
    (fsize fs lo hi : ℕ)
    → (lo ≤ block_size fsize fs lo hi) × (block_size fsize fs lo hi ≤ max lo hi)
unfolding block_size
block_size_bounds fsize fs lo hi = omega arith

-- A file whose size, with the larger limit, is below 2 ^ 31 of the smallest blocks has fewer blocks.
few_blocks :
    (fsize fs lo hi : ℕ)
    → 0 < lo
    → fsize + max lo hi < 2 ^ 31 * lo
    → block_count fsize (block_size fsize fs lo hi) < 2 ^ 31
few_blocks fsize fs lo hi pos small =
    let b = block_size_bounds fsize fs lo hi in
    let c = block_count_ceil fsize (block_size fsize fs lo hi) (omega arith) in
    lt_of_mul-lt (block_count fsize (block_size fsize fs lo hi)) (2 ^ 31)
      (block_size fsize fs lo hi) (omega arith)

-- All jobs in the job queue can be counted.
abbrev pub IsFit : {Fs : Type 0} → World Fs → Type 0
IsFit w = All IsCountable w.job_queue

module _ {Fs : Type 0} where
  -- The world afterwards, if there is one, has a fit queue.
  abbrev pub StaysFit : {A : Type 0} → Option (A × World Fs) → Type 0
  StaysFit none = Unit {0}
  StaysFit (some (a, w)) = IsFit w

  abbrev KeepsFit : {A : Type 0} → Action Fs A → Type 0
  KeepsFit m = (w : World Fs) → IsFit w → StaysFit (m w)

  fit_lem :
      {A B : Type 0} (o : Option (A × World Fs)) (f : A → Action Fs B)
      → StaysFit o
      → ((a : A) → KeepsFit (f a))
      → StaysFit (elim o [ none ↦ none | some (a, w') ↦ f a w' ])
  fit_lem none f h k = tt
  fit_lem (some (a, w)) f h k = k a w h

  bind-KeepsFit :
      {A B : Type 0} (m : Action Fs A) (f : A → Action Fs B)
      → KeepsFit m
      → ((a : A) → KeepsFit (f a))
      → KeepsFit (m >>= f)
  unfolding ◌>>=◌
  bind-KeepsFit m f h k w q = fit_lem (m w) f (h w q) k

  assert-KeepsFit : {A : Type 0} (c : Bool) (m : Action Fs A) → KeepsFit m → KeepsFit (assert c m)
  assert-KeepsFit true m h w q = h w q
  assert-KeepsFit false m h w q = tt

  if-KeepsFit :
      {A : Type 0} (c : Bool) (m n : Action Fs A)
      → KeepsFit m
      → KeepsFit n
      → KeepsFit (if c then m else n)
  if-KeepsFit true m n h k = h
  if-KeepsFit false m n h k = k

  returns-KeepsFit : (n : ℕ) → KeepsFit (pure {Fs = Fs} n)
  returns-KeepsFit n w q = q

  post_on_error-KeepsFit : (r : Reply ℕ) → KeepsFit (post_on_error {Fs = Fs} r)
  post_on_error-KeepsFit (ok fd) w q = q
  post_on_error-KeepsFit (errno e) w q = q

  fdrc_found-KeepsFit : (o : Option Fdrc) → KeepsFit (or_stop {Fs = Fs} o)
  fdrc_found-KeepsFit none w q = tt
  fdrc_found-KeepsFit (some x) w q = q

  incref-KeepsFit : (r : Option ℕ) → KeepsFit (incref {Fs = Fs} r)
  unfolding incref
  incref-KeepsFit r =
      bind-KeepsFit (fdrc_at r) _ (λ w q. fdrc_found-KeepsFit (at_ref w.fdrcs r) w q)
        λ x. bind-KeepsFit (modify _) (λ _. pure r) (counted r x) λ _ w q. q
    where
      counted :
          (i : Option ℕ) (x : Fdrc)
          → KeepsFit (modify {Fs = Fs} (set_fdrc i (record x { rc = add64 x.rc 1 })))
      counted none x w q = q
      counted (some i) x w q = q

  module _ (os : Kernel Fs) where
    waited :
        (d : ℕ) (p : Bytes) (f m k : ℕ) (w : World Fs)
        → IsFit w
        → StaysFit (
            (do sem_wait; rc ← call (os.openat d p f m); post_on_error rc; pure rc)
              (record w { fd_sem = k }))
    unfolding ◌>>=◌
    waited d p f m zero w q = tt
    waited d p f m (suc k) w q =
        bind-KeepsFit (post_on_error (os.openat d p f m w.fs).0) _
          (post_on_error-KeepsFit (os.openat d p f m w.fs).0) (λ _ v h. h) _ q

    openat-KeepsFit : (d : ℕ) (p : Bytes) (f m : ℕ) → KeepsFit (openat_wrapper os d p f m)
    unfolding openat_wrapper
    openat-KeepsFit d p f m =
        assert-KeepsFit _ (do sem_wait; rc ← call (os.openat d p f m); post_on_error rc; pure rc)
          λ w q. waited d p f m w.fd_sem w q

    ftruncate-KeepsFit : (d n : ℕ) → KeepsFit (ftruncate_wrapper os d n)
    unfolding ftruncate_wrapper
    ftruncate-KeepsFit d n = assert-KeepsFit (ltb n (2 ^ 63)) (call (os.ftruncate d n)) λ w q. q

    close-KeepsFit : (d : ℕ) → KeepsFit (close_wrapper os d)
    unfolding close_wrapper ◌>>=◌
    close-KeepsFit d =
        assert-KeepsFit (ltb 0 d) (do rc ← call (os.close d); sem_post; pure rc) λ w q. q

  module _ (os : Kernel Fs) (db : Lmdb Fs) (opts : Opts) (hash_name : Bytes → Bytes) (fuel : ℕ)
      (x : Seen) (pos : 0 < opts.min_block_size)
      (few : x.stx.stx_size + max opts.min_block_size opts.max_block_size
        < 2 ^ 31 * opts.min_block_size)
      (fits : x.stx.stx_size + max opts.min_block_size opts.max_block_size < word) where
    copy_job-IsCountable :
        (first_look : Bool) (src dst : ℕ)
        → IsCountable (copy_job os db opts hash_name fuel x first_look src dst)
    copy_job-IsCountable first_look src dst =
        let b =
          block_size_bounds x.stx.stx_size (64 * 1048576) opts.min_block_size opts.max_block_size in
        record {
          positive = omega arith;
          fits = omega arith;
          few =
              few_blocks x.stx.stx_size (64 * 1048576) opts.min_block_size opts.max_block_size pos
                few;
        }

    queue_copy-KeepsFit :
        (first_look : Bool) (src dst e : ℕ)
        → KeepsFit (queue_copy os db opts hash_name fuel x first_look src dst e)
    unfolding queue_copy
    queue_copy-KeepsFit first_look src dst e =
        if-KeepsFit (not (e == 0)) _ _
          (bind-KeepsFit (close_wrapper os src) _ (close-KeepsFit os src) λ _.
            bind-KeepsFit (close_wrapper os dst) (λ _. pure 1) (close-KeepsFit os dst)
              λ _. returns-KeepsFit 1)
          (bind-KeepsFit (modify _) _ (λ w q. q)
            λ _. bind-KeepsFit (incref x.dst_fd_ref) _ (incref-KeepsFit x.dst_fd_ref) λ _.
              bind-KeepsFit
                (modify (enqueue_job (copy_job os db opts hash_name fuel x first_look src dst)))
                (λ _. pure 0)
                (λ w q.
                  All-append IsCountable w.job_queue _ q
                    (copy_job-IsCountable first_look src dst, tt))
                λ _. returns-KeepsFit 0)

    open_dest-KeepsFit :
        (first_look : Bool) (src : ℕ) (r : Reply ℕ)
        → KeepsFit (open_dest os db opts hash_name fuel x first_look src r)
    unfolding open_dest
    open_dest-KeepsFit first_look src (errno e) =
        bind-KeepsFit (close_wrapper os src) (λ _. pure 1) (close-KeepsFit os src)
          λ _. returns-KeepsFit 1
    open_dest-KeepsFit first_look src (ok dst) =
        bind-KeepsFit (ftruncate_wrapper os dst (align_up x.stx.stx_size direct_io_align))
          (queue_copy os db opts hash_name fuel x first_look src dst)
          (ftruncate-KeepsFit os dst (align_up x.stx.stx_size direct_io_align))
          (queue_copy-KeepsFit first_look src dst)

    open_source-KeepsFit :
        (first_look : Bool) (r : Reply ℕ)
        → KeepsFit (open_source os db opts hash_name fuel x first_look r)
    unfolding open_source
    open_source-KeepsFit first_look (errno e) = returns-KeepsFit 1
    open_source-KeepsFit first_look (ok src) =
        bind-KeepsFit
          (openat_wrapper os x.dst_dir x.partial_name (o_rdwr + o_creat + o_direct + o_noatime)
            x.stx.stx_mode)
          (open_dest os db opts hash_name fuel x first_look src) (openat-KeepsFit os _ _ _ _)
          (open_dest-KeepsFit first_look src)

    -- The crawl and the scheduler fit together: with a positive minimum block size, and a file whose
    -- size plus the larger of the two limits on block sizes is below 2 ^ 64, and below 2 ^ 31 times the
    -- minimum block size, the transfer of the file leaves only jobs in the job queue that can be
    -- counted, if all were so before, on every path that returns.
    pub transfer_regular-IsFit :
        (first_look : Bool) (w : World Fs)
        → IsFit w
        → StaysFit (transfer_regular os db opts hash_name fuel x first_look w)
    unfolding transfer_regular
    transfer_regular-IsFit first_look =
        bind-KeepsFit (openat_wrapper os x.src_dir x.name (o_direct + o_noatime) 0)
          (open_source os db opts hash_name fuel x first_look) (openat-KeepsFit os _ _ _ _)
          (open_source-KeepsFit first_look)
