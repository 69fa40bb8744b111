-- ===== src/Allocator/Layout.antt =====
-- How the allocator that is created divides its memory.
use copy.Prelude.{
  ℕ, zero, suc, ◌+◌, ◌-◌, ◌*◌, ◌≤◌, ◌<◌, ◌≡◌, refl, sym, ap, subst, ◌∙◌, ◌⊎◌, inl, inr, not, ◌&&◌,
  Option, none, some, Bool-cases, arith, ◌==◌, ltb, Ensures, Ensures-some, or_else-Ensures, if_so,
  if_not, ltb_of_lt, word, mul64,
}
use copy.Allocator.{
  Os, Buddy, Allocator, Span, carve_copy_buffer, carve_subs, embed_subs, allocator_in,
  memory_record, embed_memory, carve_memory,
}

-- An arena that is embedded in a span has that span, and is found there again.
pub record Embeds {S : Type 0} (b : Buddy S) (region : ℕ → Span) : Type 0 where
  pub aligned :
      (at n h : ℕ) (s : S)
      → (b.embed_alignment at n 128 s).0 ≡ some h
      → (region h ≡ (at, n)) × (b.get_embed_at_alignment at n 128 ≡ some h)
  pub default : (at n h : ℕ) (s : S) → (b.embed at n s).0 ≡ some h → region h ≡ (at, n)

module _ {S : Type 0} (b : Buddy S) (region : ℕ → Span) where
  -- The arena of a thread, by the number of its region.
  abbrev pub Found : ℕ → ℕ → ℕ → Type 0
  Found base size i =
      (h : ℕ) × (b.get_embed_at_alignment (base + i * size) size 128 ≡ some h)
      × (region h ≡ (base + i * size, size))

  Ensures-all : {A : Type 0} (P : Type 0) (o : Option A) → P → Ensures (λ (a : A). P) o
  Ensures-all P none p = tt
  Ensures-all P (some a) p = p

  embed_subs-Found :
      (base size i k j : ℕ) (s : S)
      → Embeds b region
      → j < k
      → Ensures (λ (s' : S). Found base size (i + j)) (embed_subs b base size i k s)
  unfolding embed_subs
  embed_subs-Found base size i zero j s law h = absurd (omega arith)
  embed_subs-Found base size i (suc k) zero s law h =
      or_else-Ensures (λ (s' : S). Found base size (i + 0))
        (b.embed_alignment (base + i * size) size 128 s).0 _
        λ handle f.
          let (place, found) = law.aligned (base + i * size) size handle s f in
          let same : i ≡ i + 0 = omega arith in
          Ensures-all (Found base size (i + 0))
            (embed_subs b base size (suc i) k (b.embed_alignment (base + i * size) size 128 s).1)
            (subst (λ (n : ℕ). Found base size n) same (handle, found, place))
  embed_subs-Found base size i (suc k) (suc j) s law h =
      or_else-Ensures (λ (s' : S). Found base size (i + suc j))
        (b.embed_alignment (base + i * size) size 128 s).0 _
        λ handle f.
          let same : suc i + j ≡ i + suc j = omega arith in
          let s1 : S = (b.embed_alignment (base + i * size) size 128 s).1 in
          subst
            (λ (n : ℕ).
              Ensures (λ (s' : S). Found base size n) (embed_subs b base size (suc i) k s1))
            same (embed_subs-Found base size (suc i) k j s1 law (omega arith))

  -- What the mapping in memory is divided into: the copy buffer, the regions of the threads and the
  -- arena for the rest, in this order and with nothing in common.
  pub record Divided (whole : Span) (copy_size : ℕ) (alloc : Allocator) (copy_buffer : Option ℕ)
      : Type 0 where
    pub buffer : copy_buffer ≡ some whole.0
    pub positive : 0 < alloc.n_sub_allocators → 0 < alloc.sub_allocator_size
    pub sub : (i : ℕ) → i < alloc.n_sub_allocators → Found alloc.mem_base alloc.sub_allocator_size i
    pub no_disk : alloc.disk_alloc ≡ none
    pub handle : ℕ
    pub mem : alloc.mem_alloc ≡ some handle
    pub rest :
        (whole.0 + copy_size ≤ (region handle).0)
        × ((region handle).0 + (region handle).1 ≤ whole.0 + whole.1)
    pub subs :
        ((alloc.n_sub_allocators ≡ 0) × (alloc.mem_base ≡ 0))
        ⊎ ((whole.0 + copy_size ≤ alloc.mem_base)
            × (alloc.mem_base + alloc.n_sub_allocators * alloc.sub_allocator_size
                ≤ (region handle).0))

positive_factor : (n m : ℕ) → 0 < n * m → 0 < m
positive_factor n zero h = absurd (omega arith)
positive_factor n (suc m) h = omega arith

-- The regions of the threads are cut off where they are not empty and leave something.
carve_subs-cases :
    (n sub_size at size : ℕ)
    → n * sub_size < word
    → ((carve_subs n sub_size (at, size) ≡ ((at, n), (at + n * sub_size, size - n * sub_size)))
        × (0 < n * sub_size)
        × (n * sub_size < size))
      ⊎ (carve_subs n sub_size (at, size) ≡ ((0, 0), (at, size)))
carve_subs-cases n sub_size at size w =
    let exact : mul64 n sub_size ≡ n * sub_size = omega arith in
    let cut : ℕ → (ℕ × ℕ) × Span = λ k. ((at, n), (at + k, size - k)) in
    elim (Bool-cases (not (mul64 n sub_size == 0) && ltb (mul64 n sub_size) size)) [
      | inl yes_cut ↦ inl (
        if_so (not (mul64 n sub_size == 0) && ltb (mul64 n sub_size) size) _ _ yes_cut
            ∙ ap cut exact,
        ground (arith, exact),
        ground (arith, exact),
      )
      | inr none_cut ↦
          inr (if_not (not (mul64 n sub_size == 0) && ltb (mul64 n sub_size) size) _ _ none_cut)
    ]

module _ {S : Type 0} (os : Os) (b : Buddy S) (record_size lock_size : ℕ) (region : ℕ → Span) where
  abbrev pub Made : Span → ℕ → (Option Allocator × Option ℕ) × S → Type 0
  Made whole copy_size ((made, copy_buffer), s') =
      (alloc : Allocator) × (made ≡ some alloc) × Divided b region whole copy_size alloc copy_buffer

  abbrev Recorded : ℕ → ℕ → ℕ → ℕ → Allocator × S → Type 0
  Recorded sub_size base n h (alloc, s) =
      (locks : Option ℕ) × (alloc ≡ memory_record sub_size base n h locks)

  allocator_in-Recorded :
      (sub_size base n h : ℕ) (s : S)
      → Ensures
          (Recorded sub_size base n h)
          (allocator_in os b record_size lock_size sub_size base n h s)
  allocator_in-Recorded sub_size base n h s =
      or_else-Ensures (Recorded sub_size base n h) (b.calloc h 1 record_size s).0 _ λ p e. (_, refl)

  memory_record-Divided :
      (sub_size base0 n at size : ℕ) (whole : Span) (copy_size : ℕ) (s s1 : S) (h : ℕ)
      (locks copy_buffer : Option ℕ)
      → Embeds b region
      → copy_buffer ≡ some whole.0
      → (0 < n → 0 < sub_size)
      → whole.0 + copy_size ≤ at
      → at + size ≤ whole.0 + whole.1
      → ((n ≡ 0) × (base0 ≡ 0)) ⊎ ((whole.0 + copy_size ≤ base0) × (base0 + n * sub_size ≤ at))
      → embed_subs b base0 sub_size 0 n s ≡ some s1
      → region h ≡ (at, size)
      → Divided b region whole copy_size (memory_record sub_size base0 n h locks) copy_buffer
  memory_record-Divided sub_size base0 n at size whole copy_size s s1 h locks copy_buffer law buf
        pos lo hi place e r =
      let start : (region h).0 ≡ at = ap (λ (x : Span). x.0) r in
      let extent : (region h).1 ≡ size = ap (λ (x : Span). x.1) r in
      record {
        buffer = buf;
        positive = pos;
        sub = λ i lt.
            let zero_first : 0 + i ≡ i = omega arith in
            subst (λ (k : ℕ). Found b region base0 sub_size k) zero_first
              (Ensures-some (λ (s' : S). Found b region base0 sub_size (0 + i))
                (embed_subs b base0 sub_size 0 n s) s1
                (embed_subs-Found b region base0 sub_size 0 n i s law lt) e);
        no_disk = refl;
        handle = h;
        mem = refl;
        rest = (omega (arith, start), omega (arith, start, extent));
        subs = elim place [ inl z ↦ inl z | inr (x, y) ↦ inr (x, omega (arith, y, start)) ];
      }

  embed_memory-Divided :
      (sub_size base0 n at size : ℕ) (whole : Span) (copy_size : ℕ) (s : S) (copy_buffer : Option ℕ)
      → Embeds b region
      → copy_buffer ≡ some whole.0
      → (0 < n → 0 < sub_size)
      → whole.0 + copy_size ≤ at
      → at + size ≤ whole.0 + whole.1
      → ((n ≡ 0) × (base0 ≡ 0)) ⊎ ((whole.0 + copy_size ≤ base0) × (base0 + n * sub_size ≤ at))
      → Ensures
          (Made whole copy_size)
          (embed_memory os b record_size lock_size sub_size copy_buffer ((base0, n), (at, size)) s)
  embed_memory-Divided sub_size base0 n at size whole copy_size s copy_buffer law buf pos lo hi
        place =
      or_else-Ensures (Made whole copy_size) (embed_subs b base0 sub_size 0 n s) _ λ s1 e1.
        or_else-Ensures (Made whole copy_size) (b.embed_alignment at size 128 s1).0 _ λ h e2.
          let s2 : S = (b.embed_alignment at size 128 s1).1 in
          or_else-Ensures (Made whole copy_size)
            (allocator_in os b record_size lock_size sub_size base0 n h s2) _
            λ (alloc, s3) e3.
              let (locks, e4) =
                Ensures-some (Recorded sub_size base0 n h)
                  (allocator_in os b record_size lock_size sub_size base0 n h s2) (alloc, s3)
                  (allocator_in-Recorded sub_size base0 n h s2) e3 in
              (
                alloc,
                refl,
                subst (λ (x : Allocator). Divided b region whole copy_size x copy_buffer) (sym e4)
                    (memory_record-Divided sub_size base0 n at size whole copy_size s s1 h locks
                      copy_buffer law buf pos lo hi place e1 (law.aligned at size h s1 e2).0),
              )

  pub carve_memory-Divided :
      (n sub_size copy_size base size : ℕ) (s : S)
      → Embeds b region
      → copy_size + n * sub_size < size
      → size < word
      → Ensures
          (Made (base, size) copy_size)
          (carve_memory os b record_size lock_size n sub_size copy_size (base, size) s)
  carve_memory-Divided n sub_size copy_size base size s law fits w =
      let whole : Span = (base, size) in
      let rest : Span = (base + copy_size, size - copy_size) in
      let first : carve_copy_buffer copy_size whole ≡ (some base, rest) =
        if_so (ltb copy_size size) _ _ (ltb_of_lt copy_size size (omega arith)) in
      let goal : Option ℕ × ((ℕ × ℕ) × Span) → Type 0 = λ x.
        Ensures (Made whole copy_size)
          (embed_memory os b record_size lock_size sub_size x.0 x.1 s) in
      let carve : Option ℕ × Span → Option ℕ × ((ℕ × ℕ) × Span) =
        λ x. (x.0, carve_subs n sub_size x.1) in
      let carved : Option ℕ × ((ℕ × ℕ) × Span) = carve (carve_copy_buffer copy_size whole) in
      let start : carved ≡ carve (some base, rest) = ap carve first in
      elim (carve_subs-cases n sub_size (base + copy_size) (size - copy_size) (omega arith)) [
        | inl (cut, pos, room) ↦
            let parts : Option ℕ × ((ℕ × ℕ) × Span) = (
              some base,
              (
                (base + copy_size, n),
                (base + copy_size + n * sub_size, size - copy_size - n * sub_size),
              ),
            ) in
            let divided : carved ≡ parts =
              start ∙ ap (λ (x : (ℕ × ℕ) × Span). (some base, x)) cut in
            subst goal (sym divided) (
              embed_memory-Divided sub_size (base + copy_size) n (base + copy_size + n * sub_size)
                (size - copy_size - n * sub_size) whole copy_size s (some base) law refl
                (λ m. positive_factor n sub_size pos) (omega arith) (omega arith)
                (inr (omega arith, omega arith)))
        | inr none_cut ↦
            let parts : Option ℕ × ((ℕ × ℕ) × Span) = (some base, ((0, 0), rest)) in
            let divided : carved ≡ parts =
              start ∙ ap (λ (x : (ℕ × ℕ) × Span). (some base, x)) none_cut in
            subst goal (sym divided) (
              embed_memory-Divided sub_size 0 0 (base + copy_size) (size - copy_size) whole
                copy_size s (some base) law refl (λ m. absurd (omega arith)) (omega arith)
                (omega arith) (inl (refl, refl)))
      ]
