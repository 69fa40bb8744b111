-- ===== src/Allocator/Created.antt =====
-- The allocator that is created keeps its arenas and the copy buffer apart.
use copy.Prelude.{
  ℕ, ◌+◌, ◌*◌, ◌≤◌, ◌<◌, ◌≡◌, refl, sym, ap, subst, ◌∙◌, ◌⊎◌, inl, inr, not, Option, none, some,
  arith, ◌==◌, Ensures, Ensures-some, or_else-Ensures, or_default, Ensures-map, some_injective,
  if-Ensures, word,
}
use copy.Allocator.{
  Os, Buddy, Allocator, Span, create_memory, carve_memory, carve_disk, create_disk,
  with_copy_buffer, create_allocator,
}
use copy.Allocator.Regions.{Disjoint, IsLaidOut, subs_span}
use copy.Allocator.Layout.{Embeds, Divided, Made, carve_memory-Divided}

-- Where all the regions of the threads are: nowhere, or between the copy buffer and the rest.
abbrev Placed : ℕ → ℕ → ℕ → ℕ → Type 0
Placed at total lo hi = ((total ≡ 0) × (at ≡ 0)) ⊎ ((lo ≤ at) × (at + total ≤ hi))

subs-Placed :
    (n size at lo hi : ℕ)
    → ((n ≡ 0) × (at ≡ 0)) ⊎ ((lo ≤ at) × (at + n * size ≤ hi))
    → Placed at (n * size) lo hi
subs-Placed n size at lo hi (inl (z, a)) =
    let none_at_all : 0 * size ≡ 0 = omega arith in inl (ap (λ k. k * size) z ∙ none_at_all, a)
subs-Placed n size at lo hi (inr p) = inr p

after_subs :
    (extent : ℕ) {at total lo hi : ℕ} → Placed at total lo hi → Disjoint (hi, extent) (at, total)
after_subs extent (inl (z, a)) = inr (omega arith)
after_subs extent (inr (l, h)) = inr h

buffer_subs :
    (base copy_size at total : ℕ) {hi : ℕ}
    → Placed at total (base + copy_size) hi
    → Disjoint (base, copy_size) (at, total)
buffer_subs base copy_size at total (inl (z, a)) = inr (omega arith)
buffer_subs base copy_size at total (inr (l, h)) = inl l

-- What is apart from a whole mapping is apart from its parts.
inside_apart :
    (base size : ℕ) (x y : Span)
    → base ≤ x.0
    → x.0 + x.1 ≤ base + size
    → Disjoint (base, size) y
    → Disjoint x y
inside_apart base size (a, n) (c, k) lo hi d = ground arith

outside_subs :
    (mem_size base copy_size at total start extent : ℕ) (y : Span)
    → Placed at total (base + copy_size) start
    → start + extent ≤ base + mem_size
    → Disjoint (base, mem_size) y
    → Disjoint y (at, total)
outside_subs mem_size base copy_size at total start extent (c, k) placed hi d = ground arith

module _ {S : Type 0} (os : Os) (b : Buddy S) (record_size lock_size : ℕ) (region : ℕ → Span) where
  -- The copy buffer, at an address and of a size, and no other memory at its place.
  abbrev pub BufferApart : Span → Allocator → Type 0
  BufferApart buffer alloc =
      (alloc.copy_buffer ≡ some buffer.0)
      × Disjoint buffer (subs_span alloc)
      × ((h : ℕ) × (alloc.mem_alloc ≡ some h) × Disjoint buffer (region h))

  abbrev Created : ℕ → ℕ → Option Allocator × S → Type 0
  Created mem_size copy_size (made, s) =
      (base : ℕ) × (alloc : Allocator) × (os.mmap_anonymous mem_size ≡ some base)
      × (made ≡ some alloc)
      × IsLaidOut b region alloc
      × BufferApart (base, copy_size) alloc

  -- The record with the arena on disk, if there is one, and the copy buffer.
  Divided-IsLaidOut :
      (base mem_size copy_size : ℕ) (alloc : Allocator) (disk : Option ℕ)
      → Divided b region (base, mem_size) copy_size alloc (some base)
      → ((h : ℕ) → disk ≡ some h → Disjoint (base, mem_size) (region h))
      → IsLaidOut b region (record alloc { disk_alloc = disk; copy_buffer = some base })
        × BufferApart
            (base, copy_size)
            (record alloc { disk_alloc = disk; copy_buffer = some base })
  Divided-IsLaidOut base mem_size copy_size alloc disk d apart =
      let (lo, hi) = d.rest in
      let (start, extent) = region d.handle in
      let total : ℕ = alloc.n_sub_allocators * alloc.sub_allocator_size in
      let placed =
        subs-Placed alloc.n_sub_allocators alloc.sub_allocator_size alloc.mem_base
          (base + copy_size) start d.subs in
      let in_memory : (h : ℕ) → alloc.mem_alloc ≡ some h → region d.handle ≡ region h =
        λ h e. ap (λ (o : Option ℕ). region (or_default o 0)) (sym d.mem ∙ e) in
      let laid : IsLaidOut b region (record alloc { disk_alloc = disk; copy_buffer = some base }) =
        record {
          positive = d.positive;
          sub = d.sub;
          mem = λ h e.
              subst (λ (x : Span). Disjoint x (alloc.mem_base, total)) (in_memory h e)
                (after_subs extent placed);
          disk = λ h e.
              outside_subs mem_size base copy_size alloc.mem_base total start extent (region h)
                placed hi (apart h e);
          apart = λ h k e f.
              subst (λ (x : Span). Disjoint x (region k)) (in_memory h e)
                (inside_apart base mem_size (start, extent) (region k) (omega arith) hi
                  (apart k f));
        } in
      (
        laid,
        (refl, buffer_subs base copy_size alloc.mem_base total placed, (d.handle, d.mem, inl lo)),
      )

  -- After the part in memory.
  abbrev InMemory : ℕ → ℕ → (Option Allocator × Option ℕ) × S → Type 0
  InMemory mem_size copy_size made =
      (base : ℕ) × (os.mmap_anonymous mem_size ≡ some base)
      × Made os b record_size lock_size region (base, mem_size) copy_size made

  create_memory-InMemory :
      (mem_size n sub_size copy_size : ℕ) (s : S)
      → Embeds b region
      → copy_size + n * sub_size < mem_size
      → mem_size < word
      → Ensures
          (InMemory mem_size copy_size)
          (create_memory os b record_size lock_size mem_size n sub_size copy_size s)
  create_memory-InMemory mem_size n sub_size copy_size s law fits w =
      if-Ensures (InMemory mem_size copy_size) (mem_size == 0) _ _ (λ empty. absurd (ground arith))
        λ asked.
          or_else-Ensures (InMemory mem_size copy_size) (os.mmap_anonymous mem_size) _ λ base m.
            Ensures-map
              (carve_memory os b record_size lock_size n sub_size copy_size (base, mem_size) s)
              (λ made d. (base, m, d))
              (carve_memory-Divided os b record_size lock_size region n sub_size copy_size base
                mem_size s law fits w)

  -- The mapping of the disk file is apart from the one in memory.
  abbrev MappedApart : ℕ → ℕ → Type 0
  MappedApart mem_size disk_size =
      (base fd at : ℕ)
      → os.mmap_anonymous mem_size ≡ some base
      → os.mmap_shared disk_size fd ≡ some at
      → Disjoint (base, mem_size) (at, disk_size)

  -- After the part on disk.
  abbrev Completed : ℕ → ℕ → (Option Allocator × Option ℕ) × S → Type 0
  Completed mem_size copy_size ((made, copy_buffer), s) =
      Created mem_size copy_size (with_copy_buffer made copy_buffer, s)

  carve_disk-Completed :
      (base mem_size copy_size at disk_size : ℕ) (alloc : Allocator) (s : S)
      → Embeds b region
      → os.mmap_anonymous mem_size ≡ some base
      → Divided b region (base, mem_size) copy_size alloc (some base)
      → Disjoint (base, mem_size) (at, disk_size)
      → Ensures (Completed mem_size copy_size) (
          carve_disk os b record_size lock_size copy_size (at, disk_size) (some alloc, some base) s)
  carve_disk-Completed base mem_size copy_size at disk_size alloc s law m d apart =
      or_else-Ensures (Completed mem_size copy_size) (b.embed at disk_size s).0 _ λ h e.
        let r = law.default at disk_size h s e in
        let disjoint : Disjoint (base, mem_size) (region h) =
          subst (λ (x : Span). Disjoint (base, mem_size) x) (sym r) apart in
        let (laid, buf) = Divided-IsLaidOut base mem_size copy_size alloc (some h) d λ k f.
          subst (λ (x : ℕ). Disjoint (base, mem_size) (region x)) (some_injective h k f) disjoint in
        (base, record alloc { disk_alloc = some h; copy_buffer = some base }, m, refl, laid, buf)

  create_disk-Completed :
      (base mem_size copy_size disk_size : ℕ) (alloc : Allocator) (s : S)
      → Embeds b region
      → MappedApart mem_size disk_size
      → os.mmap_anonymous mem_size ≡ some base
      → Divided b region (base, mem_size) copy_size alloc (some base)
      → Ensures
          (Completed mem_size copy_size)
          (create_disk os b record_size lock_size disk_size copy_size (some alloc, some base) s)
  create_disk-Completed base mem_size copy_size disk_size alloc s law maps m d =
      if-Ensures (Completed mem_size copy_size) (disk_size == 0) _ _
        (λ none_asked.
          let (laid, buf) =
            Divided-IsLaidOut base mem_size copy_size alloc alloc.disk_alloc d
              λ k f. absurd (cc (d.no_disk)) in
          (base, record alloc { copy_buffer = some base }, m, refl, laid, buf))
        (λ asked. or_else-Ensures (Completed mem_size copy_size) os.open_file _ λ fd opened.
          if-Ensures (Completed mem_size copy_size) (not (os.ftruncate fd disk_size)) none _
            (λ failed. tt)
            λ sized.
              or_else-Ensures (Completed mem_size copy_size) (os.mmap_shared disk_size fd) _
                λ at mapped.
                  carve_disk-Completed base mem_size copy_size at disk_size alloc s law m d
                    (maps base fd at m mapped))

  -- Where the memory is larger than the copy buffer and the threads' regions together, which the caller
  -- checks, and the two mappings are apart, an allocator that is created has its arenas laid out apart
  -- from each other, and the copy buffer at the start of the memory apart from the regions and from
  -- the arena for the rest.
  pub create_allocator-IsLaidOut :
      (mem_size n sub_size disk_size copy_size : ℕ) (s : S) (made : Option Allocator) (s' : S)
      → Embeds b region
      → MappedApart mem_size disk_size
      → copy_size + n * sub_size < mem_size
      → mem_size < word
      → create_allocator os b record_size lock_size mem_size n sub_size disk_size copy_size s
        ≡ some (made, s')
      → (base : ℕ) × (alloc : Allocator) × (os.mmap_anonymous mem_size ≡ some base)
        × (made ≡ some alloc)
        × IsLaidOut b region alloc
        × BufferApart (base, copy_size) alloc
  unfolding create_allocator
  create_allocator-IsLaidOut mem_size n sub_size disk_size copy_size s made s' law maps fits w e =
      let Goal : Option Allocator × S → Type 0 = Created mem_size copy_size in
      Ensures-some Goal _ (made, s')
        (or_else-Ensures Goal
          (create_memory os b record_size lock_size mem_size n sub_size copy_size s) _
          λ ((made1, copy_buffer), s1) e1.
            let (base, m, (alloc, f, d)) =
              Ensures-some (InMemory mem_size copy_size)
                (create_memory os b record_size lock_size mem_size n sub_size copy_size s)
                ((made1, copy_buffer), s1)
                (create_memory-InMemory mem_size n sub_size copy_size s law fits w) e1 in
            or_else-Ensures Goal
              (create_disk os b record_size lock_size disk_size copy_size (made1, copy_buffer) s1) _
              λ ((made2, copy_buffer2), s2) e2.
                let same : (made1, copy_buffer) ≡ (some alloc, some base) =
                  λ i. (f i, d.buffer i) in
                Ensures-some (Completed mem_size copy_size)
                  (create_disk os b record_size lock_size disk_size copy_size (made1, copy_buffer)
                    s1)
                  ((made2, copy_buffer2), s2)
                  (subst
                    (λ (x : Option Allocator × Option ℕ).
                      Ensures (Completed mem_size copy_size)
                        (create_disk os b record_size lock_size disk_size copy_size x s1))
                    (sym same)
                    (create_disk-Completed base mem_size copy_size disk_size alloc s1 law maps m (
                      subst (λ (x : Option ℕ). Divided b region (base, mem_size) copy_size alloc x)
                        d.buffer d)))
                  e2)
        e
