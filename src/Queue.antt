-- ===== src/Queue.antt =====
-- queue.h: the bounded queues, and the memory of their blocks.
--
-- The queue inside is the concurrent queue of another library, which is not modelled: of it, a state
-- says which jobs it holds. What threads do to a `Queue` interleaves between the calls that each of its
-- operations makes, of the semaphore and of the queue inside.
pub mod Blocks
pub mod Bound
mod Tests
use copy.Prelude.{
  ℕ, zero, suc, ◌+◌, ◌%◌, ◌^◌, ◌≡◌, Option, none, some, List, [], ◌∷◌, ◌++◌, ltb, if◌then◌else◌,
}
use copy.Filejob.{FileCopyJob}

-- A `Queue` and the threads in its operations: the value of `enqueueSem`, the jobs of the threads that
-- have waited for it and are yet to enqueue, the jobs in the queue inside, and the jobs that threads
-- have dequeued for which they are yet to signal.
pub record State : Type 0 where
  pub enqueue_sem : ℕ
  pub entering : List FileCopyJob
  pub q : List FileCopyJob
  pub leaving : List FileCopyJob

-- `Queue(s)`: the semaphore takes its count as an `int`, which keeps 32 bits of the `size_t`, and asserts
-- that it is not negative.
unfoldable pub create : ℕ → Option State
create s =
    if ltb (s % 2 ^ 32) (2 ^ 31)
    then some (record { enqueue_sem = s % 2 ^ 32; entering = []; q = []; leaving = [] })
    else none

-- A job taken out of a list, at any place.
pub data Taken (item : FileCopyJob) : List FileCopyJob → List FileCopyJob → Type 0 where
  first : {xs : List FileCopyJob} → Taken item (item ∷ xs) xs
  later :
      {x : FileCopyJob} {xs ys : List FileCopyJob} → Taken item xs ys → Taken item (x ∷ xs) (x ∷ ys)

-- One call. A thread enters with any job where the semaphore lets it, and `enqueue` of the queue inside
-- may fail for want of memory. A job is taken at any place.
pub data Step : State → State → Type 0 where
  -- `enqueueSem->wait()`.
  wait :
      {n : ℕ} {es q ls : List FileCopyJob} (item : FileCopyJob)
      → Step
          (record { enqueue_sem = suc n; entering = es; q = q; leaving = ls })
          (record { enqueue_sem = n; entering = item ∷ es; q = q; leaving = ls })
  -- `q.enqueue(item)`, of any thread that has waited.
  enqueue :
      {n : ℕ} {es es' q ls : List FileCopyJob} {item : FileCopyJob}
      → Taken item es es'
      → Step
          (record { enqueue_sem = n; entering = es; q = q; leaving = ls })
          (record { enqueue_sem = n; entering = es'; q = item ∷ q; leaving = ls })
  enqueue_failed :
      {n : ℕ} {es es' q ls : List FileCopyJob} {item : FileCopyJob}
      → Taken item es es'
      → Step
          (record { enqueue_sem = n; entering = es; q = q; leaving = ls })
          (record { enqueue_sem = n; entering = es'; q = q; leaving = ls })
  -- `q.wait_dequeue_timed` and `q.try_dequeue` where they yield a job.
  dequeue :
      {n : ℕ} {es q q' ls : List FileCopyJob} {item : FileCopyJob}
      → Taken item q q'
      → Step
          (record { enqueue_sem = n; entering = es; q = q; leaving = ls })
          (record { enqueue_sem = n; entering = es; q = q'; leaving = item ∷ ls })
  -- And where they yield none.
  dequeue_failed : {s : State} → Step s s
  -- `enqueueSem->signal()`, of any thread that has a job.
  signal :
      {n : ℕ} {es q ls ls' : List FileCopyJob} {item : FileCopyJob}
      → Taken item ls ls'
      → Step
          (record { enqueue_sem = n; entering = es; q = q; leaving = ls })
          (record { enqueue_sem = suc n; entering = es; q = q; leaving = ls' })

-- The states that a queue that was made with the size `s` comes to.
pub data Reachable (s : ℕ) : State → Type 0 where
  start : {x : State} → create s ≡ some x → Reachable s x
  next : {x y : State} → Reachable s x → Step x y → Reachable s y
