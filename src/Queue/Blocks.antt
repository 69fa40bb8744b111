-- ===== src/Queue/Blocks.antt =====
-- queue.h: the memory of a queue's blocks comes from the program's arenas. Each block starts with the
-- reference to itself, by which it is found when it is freed.
use copy.Prelude.{
  ℕ, ◌+◌, ◌-◌, ◌≡◌, ap, ◌∙◌, Option, some, arith, ◌==◌, if◌then◌else◌, or_else_none,
  or_else-Ensures, Ensures-some, add64, if_so, if_not,
}
use copy.Allocator.{Buddy, Allocator, Span, allocator_allocate, allocator_free}
use copy.Allocator.Owner.{allocator_free-allocator_allocate}
use copy.Allocator.Regions.{Lawful, IsLaidOut}

-- The references that stand in memory, by address.
abbrev pub References : Type 0
References = ℕ → ℕ

abbrev pub store : ℕ → ℕ → References → References
store a v m p = if p == a then v else m p

-- `ref_size`: the size of a reference.
module _ {S : Type 0} (b : Buddy S) (ref_size : ℕ) where
  -- `QueueTraits::malloc`.
  unfoldable pub queue_malloc : Allocator → ℕ → ℕ → References → S → Option (ℕ × (References × S))
  queue_malloc alloc tid size m s =
      or_else_none (allocator_allocate b alloc tid (add64 size ref_size) s)
        λ (ref, s'). some (ref + ref_size, (store ref ref m, s'))

  -- `QueueTraits::free`.
  unfoldable pub queue_free : Allocator → ℕ → References → S → S
  queue_free alloc ptr m s = if ptr == 0 then s else allocator_free b alloc (m (ptr - ref_size)) s

module _ {S : Type 0} (b : Buddy S) (region : ℕ → Span) (alloc : Allocator) where
  -- A block that is freed before its reference is written over leaves all the arenas as they were.
  pub queue_free-queue_malloc :
      (ref_size tid size p : ℕ) (m m' : References) (s s' : S)
      → Lawful b region
      → IsLaidOut b region alloc
      → queue_malloc b (ref_size + 1) alloc tid size m s ≡ some (p, (m', s'))
      → queue_free b (ref_size + 1) alloc p m' s' ≡ s
  unfolding queue_malloc queue_free
  queue_free-queue_malloc ref_size tid size p m m' s s' law laid e =
      Ensures-some
        (λ (o : ℕ × (References × S)). queue_free b (ref_size + 1) alloc o.0 o.1.0 o.1.1 ≡ s) _
        (p, (m', s'))
        (or_else-Ensures
          (λ (o : ℕ × (References × S)). queue_free b (ref_size + 1) alloc o.0 o.1.0 o.1.1 ≡ s)
          (allocator_allocate b alloc tid (add64 size (ref_size + 1)) s) _
          λ (ref, s1) f.
            let back : ref + (ref_size + 1) - (ref_size + 1) ≡ ref = omega arith in
            let found : store ref ref m ref ≡ ref = if_so (ref == ref) _ _ (ground arith) in
            if_not (ref + (ref_size + 1) == 0) _ _ (ground arith)
            ∙ ap (λ (x : ℕ). allocator_free b alloc (store ref ref m x) s1) back
            ∙ ap (λ (x : ℕ). allocator_free b alloc x s1) found
            ∙ allocator_free-allocator_allocate b region alloc tid (add64 size (ref_size + 1)) ref s
                s1 law laid f)
        e
