-- ===== src/Scheduler/Rows.antt =====
-- copy2.cpp: the invariant of a file's row of block jobs, through the loops over the row.
use native.Mathlib.Decide.{dec_le}
use copy.Prelude.{
  ℕ, ◌+◌, ◌≤◌, ◌<◌, true, false, ◌≡◌, ◌≢◌, refl, ap, ◌∙◌, ◌⊎◌, inl, inr, arith, List, [], ◌∷◌, All,
  Bool-cases, ltb, add64,
}
use copy.Filejob.{FileCopyJob, BlockCopyJob, size_of_bool, block_count}
use copy.Shared.{Platform, SharedState}
use copy.Scheduler.Block.{Work, buffer_given, scheduler_schedule_block_copy_job}
use copy.Scheduler.Loop.{update_used, update_blocks, schedule_one}
use copy.Scheduler.Schedule.{issued, total_blocks}
use copy.Scheduler.Step.{
  BlockInv, FileInv, with_counts, Kept, Kept-FileInv, same-Kept, schedule-Kept, update-Kept,
}

abbrev pub used : List BlockCopyJob → ℕ
used [] = 0
used (x ∷ xs) = size_of_bool x.in_use + used xs

-- Two block jobs in use work on different blocks.
abbrev pub Apart : BlockCopyJob → BlockCopyJob → Type 0
Apart x y = x.in_use ≡ true → y.in_use ≡ true → x.jobno ≢ y.jobno

abbrev pub Distinct : List BlockCopyJob → Type 0
Distinct [] = Unit {0}
Distinct (x ∷ xs) = All (Apart x) xs × Distinct xs

-- Entry by entry, a job in use is the same as before, or works on a block from number `n` on.
abbrev pub Evolved : ℕ → List BlockCopyJob → List BlockCopyJob → Type 0
Evolved n [] [] = Unit {0}
Evolved n [] (y ∷ ys) = ⊥
Evolved n (x ∷ xs) [] = ⊥
Evolved n (x ∷ xs) (y ∷ ys) =
    (y.in_use ≡ true → ((x.in_use ≡ true) × (y.jobno ≡ x.jobno)) ⊎ (n ≤ y.jobno)) × Evolved n xs ys

-- A job of the row works on block number `k`.
abbrev pub Held : ℕ → List BlockCopyJob → Type 0
Held k [] = ⊥
Held k (x ∷ xs) = ((x.in_use ≡ true) × (x.jobno ≡ k)) ⊎ Held k xs

-- A loop took the file `f` and its row `xs` to `f'` and `ys`.
pub record KeptRow (f : FileCopyJob) (xs : List BlockCopyJob) (f' : FileCopyJob)
    (ys : List BlockCopyJob) : Type 0 where
  pub same : f' ≡ with_counts f f'
  pub stx : f'.stx ≡ f.stx
  pub size : f'.file_block_size ≡ f.file_block_size
  pub active : f'.active ≡ f.active
  pub grows : issued f ≤ issued f'
  pub finished : f.n_block_jobs_finished ≤ f'.n_block_jobs_finished
  pub bounded : issued f' ≤ total_blocks f'
  pub counted : used ys + f.n_block_jobs_scheduled ≡ used xs + f'.n_block_jobs_scheduled
  pub blocks : All (BlockInv f') ys
  pub distinct : Distinct ys
  pub evolved : Evolved (issued f) xs ys
  pub started : (k : ℕ) → issued f ≤ k → k < issued f' → Held k ys

module _ (f g : FileCopyJob) (stx : g.stx ≡ f.stx) (size : g.file_block_size ≡ f.file_block_size)
    (grows : issued f ≤ issued g) where
  BlockInv-later : (x : BlockCopyJob) → BlockInv f x → BlockInv g x
  BlockInv-later x b = ground arith

  BlockInvs-later : (xs : List BlockCopyJob) → All (BlockInv f) xs → All (BlockInv g) xs
  BlockInvs-later [] b = tt
  BlockInvs-later (x ∷ xs) b = (BlockInv-later x b.0, BlockInvs-later xs b.1)

Evolved-later : {m n : ℕ} (xs ys : List BlockCopyJob) → m ≤ n → Evolved n xs ys → Evolved m xs ys
Evolved-later [] [] h e = tt
Evolved-later [] (y ∷ ys) h e = e
Evolved-later (x ∷ xs) [] h e = e
Evolved-later {m} {n} (x ∷ xs) (y ∷ ys) h e = (λ u. first (e.0 u), Evolved-later xs ys h e.1)
  where
    first :
        ((x.in_use ≡ true) × (y.jobno ≡ x.jobno)) ⊎ (n ≤ y.jobno)
        → ((x.in_use ≡ true) × (y.jobno ≡ x.jobno)) ⊎ (m ≤ y.jobno)
    first (inl old) = inl old
    first (inr new) = inr (omega arith)

Evolved-refl : (n : ℕ) (xs : List BlockCopyJob) → Evolved n xs xs
Evolved-refl n [] = tt
Evolved-refl n (x ∷ xs) = (λ u. inl (u, refl), Evolved-refl n xs)

-- One step on `x`, and the loop over the rest: `x'` stays apart from all of them.
Apart-after :
    {f g : FileCopyJob} {x x' : BlockCopyJob}
    → BlockInv f x
    → Kept f x g x'
    → (xs ys : List BlockCopyJob) → All (BlockInv f) xs
    → All (Apart x) xs
    → Evolved (issued g) xs ys
    → All (Apart x') ys
Apart-after b k [] [] bs aps e = tt
Apart-after b k [] (y ∷ ys) bs aps e = absurd e
Apart-after b k (x ∷ xs) [] bs aps e = absurd e
Apart-after {f} {g} {x} {x'} b k (z ∷ xs) (y ∷ ys) bs aps e =
    (λ u u'. first u u' (k.new u) (e.0 u'), Apart-after b k xs ys bs.1 aps.1 e.1)
  where
    first :
        x'.in_use ≡ true
        → y.in_use ≡ true
        → ((x.in_use ≡ true) × (x'.jobno ≡ x.jobno)) ⊎ (issued f ≤ x'.jobno)
        → ((z.in_use ≡ true) × (y.jobno ≡ z.jobno)) ⊎ (issued g ≤ y.jobno)
        → x'.jobno ≢ y.jobno
    first u u' (inl old) (inl old') = λ q. aps.0 old.0 old'.0 (omega arith)
    first u u' (inl old) (inr new') = omega (arith, b.numbered old.0, k.grows)
    first u u' (inr new) (inl old') = omega (arith, bs.0.numbered old'.0)
    first u u' (inr new) (inr new') = omega (arith, k.block.numbered u)

started_after :
    {f g k : FileCopyJob} {x x' : BlockCopyJob} {xs ys : List BlockCopyJob}
    → Kept f x g x'
    → KeptRow g xs k ys
    → (n : ℕ) → issued f ≤ n
    → n < issued k
    → (issued g ≡ issued f)
      ⊎ ((issued g ≡ issued f + 1) × (x'.in_use ≡ true) × (x'.jobno ≡ issued f))
    → Held n (x' ∷ ys)
started_after s r n lo hi (inl e) = inr (r.started n (omega arith) hi)
started_after {f} {g} s r n lo hi (inr (e, u, j)) = elim (dec_le (issued g) n) [
  | yes later ↦ inr (r.started n later hi)
  | no first ↦ inl (u, omega arith)
]

KeptRow-cons :
    {f g k : FileCopyJob} {x x' : BlockCopyJob} {xs ys : List BlockCopyJob}
    → BlockInv f x
    → All (BlockInv f) xs
    → All (Apart x) xs
    → Kept f x g x'
    → KeptRow g xs k ys
    → KeptRow f (x ∷ xs) k (x' ∷ ys)
KeptRow-cons {f} {k} {xs} {ys} b bs aps s r = record {
  same = r.same ∙ ap (λ (x : FileCopyJob). with_counts x k) s.same;
  stx = r.stx ∙ s.stx;
  size = r.size ∙ s.size;
  active = r.active ∙ s.active;
  grows = omega (arith, s.grows, r.grows);
  finished = omega (arith, s.finished, r.finished);
  bounded = r.bounded;
  counted = omega (arith, s.counted, r.counted);
  blocks = (BlockInv-later _ _ r.stx r.size r.grows _ s.block, r.blocks);
  distinct = (Apart-after b s xs ys bs aps r.evolved, r.distinct);
  evolved = (s.new, Evolved-later xs ys s.grows r.evolved);
  started = λ n lo hi. started_after s r n lo hi s.starts;
}

KeptRow-refl :
    {f : FileCopyJob} (xs : List BlockCopyJob)
    → FileInv f
    → All (BlockInv f) xs
    → Distinct xs
    → KeptRow f xs f xs
KeptRow-refl {f} xs v bs d = record {
  same = refl;
  stx = refl;
  size = refl;
  active = refl;
  grows = omega arith;
  finished = omega arith;
  bounded = v.bounded;
  counted = refl;
  blocks = bs;
  distinct = d;
  evolved = Evolved-refl (issued f) xs;
  started = λ n lo hi. absurd (omega arith);
}

module _ {Arena : Type 0} (os : Platform Arena) (i : ℕ) where
  update_used-Kept :
      (j : ℕ) (w : Work Arena)
      → FileInv w.file
      → BlockInv w.file w.block
      → size_of_bool w.block.in_use ≤ w.file.n_block_jobs_scheduled
      → Kept w.file w.block (update_used os (i, j) w).file (update_used os (i, j) w).block
  unfolding update_used
  update_used-Kept j w v b u = elim (Bool-cases w.block.in_use) [
    | inl busy ↦ simp busy (update-Kept os (i, j) w v b (ground arith) busy)
    | inr idle ↦ simp idle (same-Kept v w.block w.block b refl refl refl refl refl)
  ]

  -- The loop over the blocks of a file that can be counted, whose block jobs keep the block
  -- invariant, work on different blocks and are not more in use than counted as scheduled: the file
  -- stays the same but for its counters; blocks started and blocks finished do not fall, and not
  -- more are started than there are; the count of scheduled blocks changes as the number of jobs in
  -- use; afterwards the jobs in use keep the block invariant and work on different blocks, each on
  -- the block that it had or on a new one; and every block number started in between is held.
  pub update_blocks-KeptRow :
      (j : ℕ) (xs : List BlockCopyJob) (s : SharedState Arena) (b : List (ℕ × ℕ)) (f : FileCopyJob)
      → FileInv f
      → All (BlockInv f) xs
      → Distinct xs
      → used xs ≤ f.n_block_jobs_scheduled
      → let r = update_blocks os i j xs s b f in KeptRow f xs r.slot.file r.slot.blocks
  unfolding update_blocks
  update_blocks-KeptRow j [] s b f v bs d u = KeptRow-refl [] v tt tt
  update_blocks-KeptRow j (x ∷ xs) s b f v bs d u =
      let w : Work Arena = record { shared = s; batch = b; file = f; block = x } in
      let w' = update_used os (i, j) w in
      let k = update_used-Kept j w v bs.0 (omega arith) in
      KeptRow-cons bs.0 bs.1 d.0 k (
        update_blocks-KeptRow (j + 1) xs w'.shared w'.batch w'.file (Kept-FileInv v k)
          (BlockInvs-later f w'.file k.stx k.size k.grows xs bs.1) d.1 (omega (arith, k.counted)))

  -- The loop that starts one more block.
  pub schedule_one-KeptRow :
      (j : ℕ) (xs : List BlockCopyJob) (s : SharedState Arena) (b : List (ℕ × ℕ)) (f : FileCopyJob)
      → FileInv f
      → All (BlockInv f) xs
      → Distinct xs
      → let r = schedule_one os i j xs s b f in KeptRow f xs r.slot.file r.slot.blocks
  unfolding schedule_one
  schedule_one-KeptRow j [] s b f v bs d = KeptRow-refl [] v tt tt
  schedule_one-KeptRow j (x ∷ xs) s b f v bs d =
      elim (Bool-cases (
        ltb (add64 f.n_block_jobs_finished f.n_block_jobs_scheduled)
          (block_count f.stx.stx_size f.file_block_size))) [
            | inr all ↦ rw all (KeptRow-refl (x ∷ xs) v bs d)
            | inl more ↦ rw more (elim (Bool-cases x.in_use) [
              | inl busy ↦ simp busy (
                  KeptRow-cons bs.0 bs.1 d.0 (same-Kept v x x bs.0 refl refl refl refl refl)
                    (schedule_one-KeptRow (j + 1) xs s b f v bs.1 d.1))
              | inr idle ↦
                  let w : Work Arena = record { shared = s; batch = b; file = f; block = x } in
                  let k = schedule-Kept os (i, j) w v idle in
                  let w' = scheduler_schedule_block_copy_job os false (i, j) w in
                  simp idle (
                    KeptRow-cons bs.0 bs.1 d.0 k (
                      KeptRow-refl xs (Kept-FileInv v k)
                        (BlockInvs-later f w'.file k.stx k.size k.grows xs bs.1) d.1))
            ])
          ]

  schedule-finish_queue :
      (at : ℕ × ℕ) (w : Work Arena)
      → (scheduler_schedule_block_copy_job os false at w).shared.finish_queue
        ≡ w.shared.finish_queue
  unfolding scheduler_schedule_block_copy_job buffer_given
  schedule-finish_queue at w = ground arith

  pub schedule_one-finish_queue :
      (j : ℕ) (xs : List BlockCopyJob) (s : SharedState Arena) (b : List (ℕ × ℕ)) (f : FileCopyJob)
      → (schedule_one os i j xs s b f).shared.finish_queue ≡ s.finish_queue
  unfolding schedule_one
  schedule_one-finish_queue j [] s b f = refl
  schedule_one-finish_queue j (x ∷ xs) s b f = ground (
    arith,
    schedule_one-finish_queue (j + 1) xs s b f,
    schedule-finish_queue (i, j) (record { shared = s; batch = b; file = f; block = x }),
  )
