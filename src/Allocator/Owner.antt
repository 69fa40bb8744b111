-- ===== src/Allocator/Owner.antt =====
-- A block goes back to the arena that it came from.
use copy.Prelude.{
  ℕ, ◌+◌, ◌-◌, ◌*◌, ◌/◌, ◌%◌, ◌≤◌, ◌<◌, ◌≡◌, refl, sym, ap, subst, ◌∙◌, inl, inr, Bool, true, false,
  not, ◌&&◌, Option, none, some, Bool-cases, arith, ◌==◌, ltb, leb, or_else_none, or_else_found,
  if_so, if_not,
}
use native.Mathlib.Decide.{dec_lt}
use copy.Prelude.Products.{div_mod_lem}
use copy.Allocator.{
  Buddy, Allocator, Span, sub_allocator, allocate_sub, or_from, found_block, allocator_allocate,
  allocator_free,
}
use copy.Allocator.Regions.{
  Inside, Disjoint, Lawful, IsLaidOut, subs_span, sub_span, index_of, index_past,
}

abbrev or_zero : Option ℕ → ℕ
or_zero none = 0
or_zero (some h) = h

abbrev or_pair : {A : Type 0} → Option A → A → A
or_pair none y = y
or_pair (some x) y = x

abbrev guard : ℕ → ℕ → ℕ → ℕ → Bool
guard n base p k = not (n == 0) && (leb base p && ltb k n)

guard-true : (n base p k : ℕ) → k < n → base ≤ p → guard n base p k ≡ true
guard-true n base p k h lo = ground arith

guard-false : (n base p k : ℕ) → (0 < n → base ≤ p → n ≤ k) → guard n base p k ≡ false
guard-false n base p k h = ground arith

module _ {S : Type 0} (b : Buddy S) (region : ℕ → Span) (alloc : Allocator) where
  free-Inside :
      (i p : ℕ) (s : S)
      → i < alloc.n_sub_allocators
      → Inside p (sub_span alloc i)
      → allocator_free b alloc p s ≡ b.free (sub_allocator b alloc i) p s
  unfolding allocator_free
  free-Inside i p s h (lo, hi) =
      let k : ℕ = (p - alloc.mem_base) / alloc.sub_allocator_size in
      let e : k ≡ i = index_of alloc.mem_base alloc.sub_allocator_size i p (lo, hi) in
      if_so (guard alloc.n_sub_allocators alloc.mem_base p k) _ _
        (guard-true alloc.n_sub_allocators alloc.mem_base p k (omega (arith, e)) (omega arith))
      ∙ ap (λ (x : ℕ). b.free (sub_allocator b alloc x) p s) e

  free_past :
      (p : ℕ) (s : S)
      → (0 < alloc.n_sub_allocators → 0 < alloc.sub_allocator_size)
      → ¬ Inside p (subs_span alloc)
      → allocator_free b alloc p s ≡ b.free alloc.disk_alloc p (b.free alloc.mem_alloc p s)
  unfolding allocator_free
  free_past p s pos out =
      let k : ℕ = (p - alloc.mem_base) / alloc.sub_allocator_size in
      if_not (guard alloc.n_sub_allocators alloc.mem_base p k) _ _ (
        guard-false alloc.n_sub_allocators alloc.mem_base p k λ n lo.
          index_past alloc.mem_base alloc.sub_allocator_size alloc.n_sub_allocators p (pos n)
            (elim (dec_lt p (alloc.mem_base + alloc.n_sub_allocators * alloc.sub_allocator_size)) [
              | yes below ↦ absurd (out (lo, below))
              | no above ↦ omega arith
            ]))

  -- A block that was found is given back whole, and a failure to find one changes nothing.
  abbrev Back : S → Option ℕ × S → Type 0
  Back s (none, s') = s' ≡ s
  Back s (some p, s') = allocator_free b alloc p s' ≡ s

  calloc-Back :
      (h len : ℕ) (s : S)
      → Lawful b region
      → ((p : ℕ) (s' : S)
          → Inside p (region h)
          → b.free (some h) p s' ≡ s
          → allocator_free b alloc p s' ≡ s)
      → (o : Option ℕ × S) → b.calloc h 1 len s ≡ o
      → Back s o
  calloc-Back h len s law home (none, s') e = law.calloc_fails h len s s' e
  calloc-Back h len s law home (some p, s') e =
      home p s' (law.calloc_inside h len p s s' e) (law.free_calloc h len p s s' e)

  or_from-Back :
      (arena : Option ℕ) (len : ℕ) (s : S) (o : Option ℕ × S)
      → Lawful b region
      → ((h p : ℕ) (s' : S)
          → arena ≡ some h
          → Inside p (region h)
          → b.free (some h) p s' ≡ s
          → allocator_free b alloc p s' ≡ s)
      → Back s o
      → Back s (or_from b arena len o)
  or_from-Back arena len s (some p, s') law home back = back
  or_from-Back none len s (none, s') law home back = back
  or_from-Back (some h) len s (none, s') law home back =
      calloc-Back h len s law (λ p s'. home h p s' refl) (b.calloc h 1 len s')
        (ap (λ (x : S). b.calloc h 1 len x) (sym back))

  -- A null arena, or one that does not have the address, frees nothing.
  free_other :
      (arena : Option ℕ) (p : ℕ) (s : S)
      → Lawful b region
      → ((h : ℕ) → arena ≡ some h → ¬ Inside p (region h))
      → b.free arena p s ≡ s
  free_other none p s law out = law.free_null p s
  free_other (some h) p s law out = law.free_foreign h p s (out h refl)

  apart-Inside : (p : ℕ) (x y : Span) → Disjoint x y → Inside p x → ¬ Inside p y
  apart-Inside p (a, n) (c, k) d (lo, hi) (lo', hi') = ground arith

  mem-home :
      (h p : ℕ) (s s' : S)
      → Lawful b region
      → IsLaidOut b region alloc
      → alloc.mem_alloc ≡ some h
      → Inside p (region h)
      → b.free (some h) p s' ≡ s
      → allocator_free b alloc p s' ≡ s
  mem-home h p s s' law laid e inside back =
      free_past p s' laid.positive
        (apart-Inside p (region h) (subs_span alloc) (laid.mem h e) inside)
      ∙ ap (λ (o : Option ℕ). b.free alloc.disk_alloc p (b.free o p s')) e
      ∙ ap (λ (x : S). b.free alloc.disk_alloc p x) back
      ∙ free_other alloc.disk_alloc p s law
          λ k f. apart-Inside p (region h) (region k) (laid.apart h k e f) inside

  disk-home :
      (k p : ℕ) (s s' : S)
      → Lawful b region
      → IsLaidOut b region alloc
      → alloc.disk_alloc ≡ some k
      → Inside p (region k)
      → b.free (some k) p s' ≡ s
      → allocator_free b alloc p s' ≡ s
  disk-home k p s s' law laid e inside back =
      free_past p s' laid.positive
        (apart-Inside p (region k) (subs_span alloc) (laid.disk k e) inside)
      ∙ ap (λ (x : S). b.free alloc.disk_alloc p x)
          (free_other alloc.mem_alloc p s' law
            λ h f here. apart-Inside p (region h) (region k) (laid.apart h k f e) here inside)
      ∙ ap (λ (o : Option ℕ). b.free o p s') e
      ∙ back

  sub-home :
      (i h p : ℕ) (s s' : S)
      → IsLaidOut b region alloc
      → i < alloc.n_sub_allocators
      → sub_allocator b alloc i ≡ some h
      → Inside p (region h)
      → b.free (some h) p s' ≡ s
      → allocator_free b alloc p s' ≡ s
  sub-home i h p s s' laid lt e inside back =
      let (k, f, place) = laid.sub i lt in
      let same : some k ≡ some h = cc in
      let place' : region h ≡ sub_span alloc i =
        subst (λ (x : Option ℕ). region (or_zero x) ≡ sub_span alloc i) same place in
      free-Inside i p s' lt (subst (λ (x : Span). Inside p x) place' inside)
      ∙ ap (λ (o : Option ℕ). b.free o p s') e
      ∙ back

  -- The first attempt, in the thread's own arena.
  allocate_sub-Back :
      (tid len : ℕ) (s : S)
      → Lawful b region
      → IsLaidOut b region alloc
      → (o : Option ℕ × S) × (allocate_sub b alloc tid len s ≡ some o) × Back s o
  allocate_sub-Back tid len s law laid = elim (dec_lt 0 alloc.n_sub_allocators) [
    | yes pos ↦
        let lt = (div_mod_lem tid alloc.n_sub_allocators pos).1 in
        let (h, e, place) = laid.sub (tid % alloc.n_sub_allocators) lt in
        (
          b.calloc h 1 len s,
          if_not (alloc.n_sub_allocators == 0) _ _ (ground arith)
              ∙ or_else_found (sub_allocator b alloc (tid % alloc.n_sub_allocators)) h _ e,
          calloc-Back h len s law
              (λ p s'. sub-home (tid % alloc.n_sub_allocators) h p s s' laid lt e)
              (b.calloc h 1 len s) refl,
        )
    | no empty ↦ ((none, s), if_so (alloc.n_sub_allocators == 0) _ _ (ground arith), refl)
  ]

  found-Back :
      (len p : ℕ) (s s' : S) (o : Option ℕ × S)
      → Back s o
      → found_block b o ≡ some (p, s')
      → allocator_free b alloc p s' ≡ s
  found-Back len p s s' (none, v) back e = absurd (cc e)
  found-Back len p s s' (some q, v) back e =
      let f : (q, v) ≡ (p, s') = ap (λ (o : Option (ℕ × S)). or_pair o (p, s')) e in
      subst (λ (x : ℕ × S). allocator_free b alloc x.0 x.1 ≡ s) f back

  -- A block that is allocated and then freed leaves all the arenas as they were: whichever arena it
  -- came from, a thread's own, the one in memory or the one on disk, it goes back to that one. The
  -- buddy allocators give blocks of their own memory, take back what they gave, leave alone what is
  -- not theirs, and the arenas are laid out apart.
  pub allocator_free-allocator_allocate :
      (tid len p : ℕ) (s s' : S)
      → Lawful b region
      → IsLaidOut b region alloc
      → allocator_allocate b alloc tid len s ≡ some (p, s')
      → allocator_free b alloc p s' ≡ s
  unfolding allocator_allocate
  allocator_free-allocator_allocate tid len p s s' law laid e =
      let (tried, f, back) = allocate_sub-Back tid len s law laid in
      let o : Option ℕ × S = or_from b alloc.disk_alloc len (or_from b alloc.mem_alloc len tried) in
      let found : Option ℕ × S → Option (ℕ × S) =
        λ x. found_block b (or_from b alloc.disk_alloc len (or_from b alloc.mem_alloc len x)) in
      let rest : Option (ℕ × S) = or_else_none (allocate_sub b alloc tid len s) found in
      found-Back len p s s' o
        (or_from-Back alloc.disk_alloc len s (or_from b alloc.mem_alloc len tried) law
          (λ h q v g inside. disk-home h q s v law laid g inside)
          (or_from-Back alloc.mem_alloc len s tried law
            (λ h q v g inside. mem-home h q s v law laid g inside) back))
        (elim (Bool-cases (len == 0)) [
          | inl empty ↦ absurd (cc (sym (if_so (len == 0) none rest empty) ∙ e))
          | inr full ↦
              sym (or_else_found (allocate_sub b alloc tid len s) tried found f)
              ∙ sym (if_not (len == 0) none rest full)
              ∙ e
        ])
