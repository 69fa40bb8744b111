-- ===== src/Scheduler/Passes.antt =====
-- copy2.cpp, `schedulerUpdate`: the invariant of all slots through the passes of an iteration.
use copy.Prelude.{
  ℕ, ◌+◌, ◌≡◌, refl, sym, subst, ◌∙◌, List, [], ◌∷◌, All, some, Option-cases, Bool-cases, inl, inr,
}
use copy.Filejob.{FileCopyJob}
use copy.Shared.{Platform, SharedState}
use copy.Scheduler.Loop.{
  Slot, Row, CopyScheduler, pass, start_jobs, update_active, complete_or_schedule,
}
use copy.Scheduler.Schedule.{IsCountable}
use copy.Scheduler.Slots.{
  SlotInv, started-Live, Live-SlotInv, update_active-SlotInv, complete_or_schedule-SlotInv,
}
use copy.Scheduler.Queued.{update_active_queue, complete_or_schedule_queue, pass_queue}
use copy.Scheduler.Tick.{scheduler_passes}

-- What the queue is relied on for: it yields jobs that were put into it.
pub record YieldsMembers {Arena : Type 0} (os : Platform Arena) : Type 1 where
  pub keeps :
      (P : FileCopyJob → Type 0) (q : List FileCopyJob) (job : FileCopyJob) (q' : List FileCopyJob)
      → os.dequeue q ≡ some (job, q')
      → All P q
      → P job × All P q'

module _ {Arena : Type 0} (os : Platform Arena) where
  pass-SlotInv :
      (step : ℕ → Row Arena → Row Arena)
      → ((i : ℕ) (r : Row Arena) → SlotInv r.slot → SlotInv (step i r).slot)
      → (i : ℕ) (xs : List Slot) (s : SharedState Arena) (b : List (ℕ × ℕ)) → All SlotInv xs
      → All SlotInv (pass os step i xs s b).slots
  unfolding pass
  pass-SlotInv step keep i [] s b v = tt
  pass-SlotInv step keep i (x ∷ xs) s b v =
      let r = step i (record { shared = s; batch = b; slot = x }) in
      (keep i _ v.0, pass-SlotInv step keep (i + 1) xs r.shared r.batch v.1)

  module _ (law : YieldsMembers os) where
    start_jobs-SlotInv :
        (xs : List Slot) (q : List FileCopyJob)
        → All SlotInv xs
        → All IsCountable q
        → All SlotInv (start_jobs os xs q).0
    unfolding start_jobs
    start_jobs-SlotInv [] q v c = tt
    start_jobs-SlotInv (x ∷ xs) q v c = elim (Bool-cases x.file.active) [
      | inl on ↦ simp on (v.0, start_jobs-SlotInv xs q v.1 c)
      | inr off ↦ elim (Option-cases (os.dequeue q)) [
        | inl empty ↦ simp (off, empty) v
        | inr ((job, q'), e) ↦
            let (now, later) = law.keeps IsCountable q job q' e c in
            simp (off, e)
              (
                Live-SlotInv _ refl (started-Live job x.blocks now (v.0.quiet off)),
                start_jobs-SlotInv xs q' v.1 later,
              )
      ]
    ]

    -- The passes of an iteration keep the invariant of every slot, if the jobs that wait in the queue
    -- can be counted.
    pub scheduler_passes-SlotInv :
        (c : CopyScheduler Arena)
        → All SlotInv c.slots
        → All IsCountable c.shared.job_queue
        → All SlotInv (scheduler_passes os c).slots
    unfolding scheduler_passes
    scheduler_passes-SlotInv c v q =
        let c₁ = pass os (update_active os) 0 c.slots c.shared c.cb_batch in
        let v₁ =
          pass-SlotInv (update_active os) (update_active-SlotInv os) 0 c.slots c.shared c.cb_batch
            v in
        let v₂ =
          pass-SlotInv (complete_or_schedule os) (complete_or_schedule-SlotInv os) 0 c₁.slots
            c₁.shared c₁.cb_batch v₁ in
        let e =
          pass_queue os (complete_or_schedule os) (complete_or_schedule_queue os) 0 c₁.slots
            c₁.shared c₁.cb_batch
          ∙ pass_queue os (update_active os) (update_active_queue os) 0 c.slots c.shared
              c.cb_batch in
        start_jobs-SlotInv _ _ v₂ (subst (All IsCountable) (sym e) q)
