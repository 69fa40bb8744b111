-- ===== src/Scheduler/Completions.antt =====
-- copy2.cpp, `schedulerUpdate` with `schedulerTick`: the invariant of all slots through whole iterations,
-- with completions in any order.
use copy.Prelude.{
  ℕ, zero, suc, ◌+◌, Option, none, some, ◌≡◌, refl, ap, subst, ◌∙◌, arith, List, [], ◌∷◌, All,
  get_elem?, set, Bool-cases, inl, inr, ℤ, pos, ◌&&◌, ◌==◌, if◌then◌else◌,
}
use copy.Filejob.{FileCopyJob, BlockCopyJob, size_of_bool, Iocb, no_request, pread, pwrite}
use copy.Shared.{Platform}
use copy.Scheduler.Block.{Work, callback, request_status, rd_done, wr_done}
use copy.Scheduler.Loop.{Slot, CopyScheduler, in_block, in_slot, count_active}
use copy.Scheduler.Tick.{
  Turn, submit_batch, io_queue_run_timeout, sched_io_submit_batch, scheduler_tick, scheduler_passes,
  scheduler_update,
}
use copy.Scheduler.Schedule.{IsCountable}
use copy.Scheduler.Step.{BlockInv}
use copy.Scheduler.Rows.{used, Apart, Distinct}
use copy.Scheduler.Slots.{IsIdle, Live, SlotInv}
use copy.Scheduler.Passes.{YieldsMembers, scheduler_passes-SlotInv}

All-set :
    {A : Type 0} (P : A → Type 0) (xs : List A) (i : ℕ) (v : A)
    → All P xs
    → P v
    → All P (set xs i v)
All-set P [] i v h p = tt
All-set P (x ∷ xs) zero v h p = (p, h.1)
All-set P (x ∷ xs) (suc i) v h p = (h.0, All-set P xs i v h.1 p)

All-get_elem :
    {A : Type 0} (P : A → Type 0) (xs : List A) (i : ℕ) (x : A)
    → All P xs
    → get_elem? xs i ≡ some x
    → P x
All-get_elem P [] i x h e = absurd (cc e)
All-get_elem P (y ∷ xs) zero x h e = let same : y ≡ x = cc in subst P same h.0
All-get_elem P (y ∷ xs) (suc i) x h e = All-get_elem P xs i x h.1 e

-- A callback changes the status and nothing else.
callback_lem : (x : BlockCopyJob) (res : ℤ) → (s : ℕ) × (callback x res ≡ record x { status = s })
unfolding callback rd_done wr_done
callback_lem x res = by_request x.cb
  where
    by_request :
        (cb : Iocb)
        → (s : ℕ) × (callback (record x { cb = cb }) res ≡ record x { cb = cb; status = s })
    by_request no_request = (x.status, refl)
    by_request (pread fd buf nbytes offset) =
        (request_status (pread fd buf nbytes offset) res, refl)
    by_request (pwrite fd buf nbytes offset) =
        (request_status (pwrite fd buf nbytes offset) res, refl)

-- A row in which one job has another status.
module _ (f : FileCopyJob) (s : ℕ) where
  status-BlockInv : (x : BlockCopyJob) → BlockInv f x → BlockInv f (record x { status = s })
  status-BlockInv x b = record {
    idle = b.idle;
    holds = b.holds;
    numbered = b.numbered;
    placed = b.placed;
    inside = b.inside;
    sized = b.sized;
  }

  used_status :
      (xs : List BlockCopyJob) (j : ℕ) (x : BlockCopyJob)
      → get_elem? xs j ≡ some x
      → used (set xs j (record x { status = s })) ≡ used xs
  used_status [] j x e = refl
  used_status (y ∷ xs) zero x e = ground arith
  used_status (y ∷ xs) (suc j) x e = ap (λ n. size_of_bool y.in_use + n) (used_status xs j x e)

  Apart-status :
      (y : BlockCopyJob) (xs : List BlockCopyJob) (j : ℕ) (x : BlockCopyJob)
      → get_elem? xs j ≡ some x
      → All (Apart y) xs
      → All (Apart y) (set xs j (record x { status = s }))
  Apart-status y xs j x e h = All-set (Apart y) xs j _ h (All-get_elem (Apart y) xs j x h e)

  Distinct-status :
      (xs : List BlockCopyJob) (j : ℕ) (x : BlockCopyJob)
      → get_elem? xs j ≡ some x
      → Distinct xs
      → Distinct (set xs j (record x { status = s }))
  Distinct-status [] j x e d = d
  Distinct-status (y ∷ xs) zero x e d =
      let same : y ≡ x = cc in (renamed xs (subst (λ z. All (Apart z) xs) same d.0), d.1)
    where
      renamed :
          (ys : List BlockCopyJob) → All (Apart x) ys → All (Apart (record x { status = s })) ys
      renamed [] h = tt
      renamed (z ∷ ys) h = (h.0, renamed ys h.1)
  Distinct-status (y ∷ xs) (suc j) x e d =
      (Apart-status y xs j x e d.0, Distinct-status xs j x e d.1)

  status-Live :
      (xs : List BlockCopyJob) (j : ℕ) (x : BlockCopyJob)
      → get_elem? xs j ≡ some x
      → Live f xs
      → Live f (set xs j (record x { status = s }))
  status-Live xs j x e l = record {
    file = l.file;
    blocks =
        All-set (BlockInv f) xs j _ l.blocks
          (status-BlockInv x (All-get_elem (BlockInv f) xs j x l.blocks e));
    distinct = Distinct-status xs j x e l.distinct;
    counted = used_status xs j x e ∙ l.counted;
  }

-- A completion on a slot.
status-SlotInv :
    (y : Slot) (j s : ℕ) (x : BlockCopyJob)
    → get_elem? y.blocks j ≡ some x
    → SlotInv y
    → SlotInv (record { file = y.file; blocks = set y.blocks j (record x { status = s }) })
status-SlotInv y j s x e v = record {
  live = λ on. status-Live y.file s y.blocks j x e (v.live on);
  quiet = λ off.
      All-set IsIdle y.blocks j _ (v.quiet off) (All-get_elem IsIdle y.blocks j x (v.quiet off) e);
}

completed :
    (y : Slot) (j : ℕ) (x : BlockCopyJob) (res : ℤ)
    → get_elem? y.blocks j ≡ some x
    → SlotInv y
    → SlotInv (record { file = y.file; blocks = set y.blocks j (callback x res) })
completed y j x res e v =
    let (s, changed) = callback_lem x res in rw changed (status-SlotInv y j s x e v)

module _ {Arena : Type 0} where
  module _ (at : ℕ × ℕ) (res : ℤ) (c : CopyScheduler Arena) (v : All SlotInv c.slots) where
    abbrev complete : Work Arena → Work Arena
    complete w = record w { block = callback w.block res }

    complete-in_block :
        (y : Slot) (o : Option BlockCopyJob)
        → SlotInv y
        → get_elem? y.blocks at.1 ≡ o
        → All SlotInv (in_block at complete c y o).slots
    complete-in_block y none vy e = v
    complete-in_block y (some x) vy e =
        All-set SlotInv c.slots at.0 _ v (completed y at.1 x res e vy)

    complete-in_slot :
        (o : Option Slot) → get_elem? c.slots at.0 ≡ o → All SlotInv (in_slot at complete c o).slots
    complete-in_slot none e = v
    complete-in_slot (some y) e =
        complete-in_block y (get_elem? y.blocks at.1) (All-get_elem SlotInv c.slots at.0 y v e) refl

  io_queue_run_timeout-SlotInv :
      (events : List ((ℕ × ℕ) × ℤ)) (c : CopyScheduler Arena)
      → All SlotInv c.slots
      → All SlotInv (io_queue_run_timeout events c).slots
  unfolding io_queue_run_timeout
  io_queue_run_timeout-SlotInv [] c v = v
  io_queue_run_timeout-SlotInv ((at, res) ∷ events) c v =
      io_queue_run_timeout-SlotInv events _
        (complete-in_slot at res c v (get_elem? c.slots at.0) refl)

module _ {Arena : Type 0} (os : Platform Arena) where
  submitted_lem :
      (batch : List (ℕ × ℕ)) (n : ℕ) (c : CopyScheduler Arena) (events : List ((ℕ × ℕ) × ℤ))
      → All SlotInv c.slots
      → let (c', sent) = submit_batch os batch (pos n) c in
        All SlotInv (if sent then io_queue_run_timeout events c' else c').slots
  unfolding submit_batch
  submitted_lem [] n c events v = io_queue_run_timeout-SlotInv events _ v
  submitted_lem (at ∷ rest) n c events v = io_queue_run_timeout-SlotInv events _ v

  tick-SlotInv :
      (t : Turn) (n : ℕ) (c : CopyScheduler Arena)
      → t.submitted ≡ pos n
      → All SlotInv c.slots
      → All SlotInv (scheduler_tick os t c).slots
  unfolding scheduler_tick sched_io_submit_batch
  tick-SlotInv t n c e v = simp e (submitted_lem c.cb_batch n c t.events v)

  -- A whole iteration of the scheduler whose submission does not fail, with any number of
  -- completions in any order and with any results, successes, short transfers and errors: if
  -- before it every slot satisfies its invariant and every job that waits in the queue can be
  -- counted, then every slot satisfies its invariant after it. So the count of scheduled blocks of
  -- an active file is the number of its block jobs in use, these hold buffers and different blocks
  -- inside the file, no more blocks are started than there are, and a slot without a file holds no buffer.
  pub scheduler_update-SlotInv :
      YieldsMembers os
      → (t : Turn) (n : ℕ) (c : CopyScheduler Arena) → t.submitted ≡ pos n
      → All SlotInv c.slots
      → All IsCountable c.shared.job_queue
      → All SlotInv (scheduler_update os t c).0.slots
  unfolding scheduler_update
  scheduler_update-SlotInv law t n c e v q =
      let c' : CopyScheduler Arena = scheduler_passes os c in
      let v' = scheduler_passes-SlotInv os law c v q in
      elim (Bool-cases ((count_active c'.slots == 0) && c'.shared.crawl_done)) [
        | inl over ↦ rw over v'
        | inr goes_on ↦ rw goes_on (tick-SlotInv t n c' e v')
      ]
