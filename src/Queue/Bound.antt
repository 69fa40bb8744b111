-- ===== src/Queue/Bound.antt =====
-- A queue holds no more jobs than it was made for.
use copy.Prelude.{
  ℕ, suc, ◌+◌, ◌%◌, ◌^◌, ◌≡◌, refl, sym, ap, ◌∙◌, some, List, [], ◌∷◌, arith, length, ltb,
  Bool-cases, inl, inr,
}
use copy.Filejob.{FileCopyJob}
use copy.Queue.{
  State, create, Step, Reachable, start, next, wait, enqueue, enqueue_failed, dequeue,
  dequeue_failed, signal, Taken, first, later,
}

-- The slots that are free, and those that jobs take.
abbrev pub slots : State → ℕ
slots s = s.enqueue_sem + length s.entering + length s.q + length s.leaving

length-Taken :
    {item : FileCopyJob} {xs ys : List FileCopyJob} → Taken item xs ys → length xs ≡ suc (length ys)
length-Taken first = refl
length-Taken (later t) = ap suc (length-Taken t)

-- The slot that a step loses.
abbrev lost : {x y : State} → Step x y → ℕ
lost (wait item) = 0
lost (enqueue t) = 0
lost (enqueue_failed t) = 1
lost (dequeue t) = 0
lost dequeue_failed = 0
lost (signal t) = 0

-- The calls of `enqueue` of the queue inside that failed on the way.
abbrev pub failures : {s : ℕ} {x : State} → Reachable s x → ℕ
failures (start e) = 0
failures (next r step) = failures r + lost step

Step-slots : {x y : State} (step : Step x y) → slots y + lost step ≡ slots x
Step-slots (wait item) = omega arith
Step-slots (enqueue t) = omega (arith, length-Taken t)
Step-slots (enqueue_failed t) = omega (arith, length-Taken t)
Step-slots (dequeue t) = omega (arith, length-Taken t)
Step-slots dequeue_failed = omega arith
Step-slots (signal t) = omega (arith, length-Taken t)

create_slots : (s : ℕ) (x : State) → create s ≡ some x → slots x ≡ s % 2 ^ 32
unfolding create
create_slots s x e = elim (Bool-cases (ltb (s % 2 ^ 32) (2 ^ 31))) [
  | inl small ↦
      let made : State = record { enqueue_sem = s % 2 ^ 32; entering = []; q = []; leaving = [] } in
      let it : made ≡ x = cc (rw small at e) in
      let n : slots made ≡ s % 2 ^ 32 = omega arith in ap slots (sym it) ∙ n
  | inr big ↦ absurd (cc (rw big at e))
]

slots_lem : (s : ℕ) (x : State) (r : Reachable s x) → slots x + failures r ≡ s % 2 ^ 32
slots_lem s x (start e) = omega (arith, create_slots s x e)
slots_lem s z (next {x} {y} r step) = omega (arith, slots_lem s x r, Step-slots step)

-- A state of the queue with no job in it, after `f` calls that failed.
abbrev pub Drained : ℕ → ℕ → Type 0
Drained s f =
    (n : ℕ) × (r : Reachable s (record { enqueue_sem = n; entering = []; q = []; leaving = [] }))
    × (failures r ≡ f)

-- The threads that have dequeued all signal,
signal_all :
    (s f n : ℕ) (ls : List FileCopyJob)
    (r : Reachable s (record { enqueue_sem = n; entering = []; q = []; leaving = ls }))
    → failures r ≡ f
    → Drained s f
signal_all s f n [] r e = (n, r, e)
signal_all s f n (l ∷ ls) r e = signal_all s f (suc n) ls (next r (signal first)) (omega (arith, e))

-- after all jobs are dequeued,
dequeue_all :
    (s f n : ℕ) (q ls : List FileCopyJob)
    (r : Reachable s (record { enqueue_sem = n; entering = []; q = q; leaving = ls }))
    → failures r ≡ f
    → Drained s f
dequeue_all s f n [] ls r e = signal_all s f n ls r e
dequeue_all s f n (x ∷ q) ls r e =
    dequeue_all s f n q (x ∷ ls) (next r (dequeue first)) (omega (arith, e))

-- after the threads that have waited all enqueue.
enqueue_all :
    (s f n : ℕ) (es q ls : List FileCopyJob)
    (r : Reachable s (record { enqueue_sem = n; entering = es; q = q; leaving = ls }))
    → failures r ≡ f
    → Drained s f
enqueue_all s f n [] q ls r e = dequeue_all s f n q ls r e
enqueue_all s f n (x ∷ es) q ls r e =
    enqueue_all s f n es (x ∷ q) ls (next r (enqueue first)) (omega (arith, e))

-- However the calls of any number of threads interleave, the free slots of the semaphore and the jobs
-- that enter, are in the queue or leave are together the 32 low bits of the size that the queue was
-- made with, less one slot for each call of `enqueue` of the queue inside that failed: a queue holds
-- no more jobs than its size. And from there the queue can come to a state without jobs and without
-- a further failed call, in which all of these slots are free: a slot is lost only with a job.
pub Reachable-slots :
    (s : ℕ) (x : State) (r : Reachable s x)
    → (slots x + failures r ≡ s % 2 ^ 32)
      × (n : ℕ) × (r' : Reachable s
          (record { enqueue_sem = n; entering = []; q = []; leaving = [] }))
      × (failures r' ≡ failures r)
      × (n + failures r ≡ s % 2 ^ 32)
Reachable-slots s x r =
    let (n, r', e) = enqueue_all s (failures r) x.enqueue_sem x.entering x.q x.leaving r refl in
    let total = slots_lem s _ r' in (slots_lem s x r, n, r', e, omega (arith, total, e))
