-- ===== src/Allocator/Tests.antt =====
-- Runs of the allocator, and the theorems on it, with arenas that give one block each.
use copy.Prelude.{
  ℕ, ◌+◌, ◌*◌, ◌/◌, ◌%◌, ◌^◌, ◌<◌, ◌≡◌, refl, sym, ap, subst, ◌∙◌, ◌⊎◌, inl, inr, Bool, true, false,
  ◌&&◌, ◌||◌, Option, none, some, List, [], ◌∷◌, arith, ◌==◌, ltb, leb, if◌then◌else◌, Bool-cases,
  some_injective, if_so, if_not,
}
use copy.Allocator.{
  Os, Buddy, Allocator, Span, create_allocator, allocator_allocate, allocator_free,
}
use copy.Allocator.Owner.{allocator_free-allocator_allocate}
use copy.Allocator.Regions.{Inside, Disjoint, Lawful, IsLaidOut}
use copy.Allocator.Layout.{Embeds}
use copy.Allocator.Created.{BufferApart, create_allocator-IsLaidOut}

-- A handle says where the arena is and how large.
abbrev region : ℕ → Span
region h = (h / 2 ^ 32, h % 2 ^ 32)

abbrev handle_at : ℕ → ℕ → Option ℕ
handle_at at n = if ltb n (2 ^ 32) then some (at * 2 ^ 32 + n) else none

abbrev contains : ℕ → List ℕ → Bool
contains h [] = false
contains h (x ∷ s) = (x == h) || contains h s

abbrev remove : ℕ → List ℕ → List ℕ
remove h [] = []
remove h (x ∷ s) = let rest = remove h s in if x == h then s else x ∷ rest

abbrev covers : ℕ → ℕ → Bool
covers h p = leb (h / 2 ^ 32) p && ltb p (h / 2 ^ 32 + h % 2 ^ 32)

-- The state is the list of the arenas whose block is out; the block stands at the arena's start.
abbrev give : ℕ → List ℕ → Option ℕ × List ℕ
give h s = if contains h s || (h % 2 ^ 32 == 0) then (none, s) else (some (h / 2 ^ 32), h ∷ s)

abbrev take_back : Option ℕ → ℕ → List ℕ → List ℕ
take_back none p s = s
take_back (some h) p s = if covers h p then remove h s else s

abbrev one_block : Buddy (List ℕ)
one_block = record {
  embed_alignment = λ at n a s. (handle_at at n, s);
  embed = λ at n s. (handle_at at n, s);
  get_embed_at_alignment = λ at n a. handle_at at n;
  calloc = λ h count n s. give h s;
  free = take_back;
  base_ptr = λ h s. h / 2 ^ 32;
  memory_size = λ h s. h % 2 ^ 32;
  reserve_range = λ h p n s. h ∷ s;
}

handle_region : (at n h : ℕ) → handle_at at n ≡ some h → region h ≡ (at, n)
handle_region at n h e = elim (Bool-cases (ltb n (2 ^ 32))) [
  | inl fits ↦
      let it : at * 2 ^ 32 + n ≡ h =
        some_injective (at * 2 ^ 32 + n) h (sym (if_so (ltb n (2 ^ 32)) _ _ fits) ∙ e) in
      let small : n < 2 ^ 32 = ground arith in
      let place : h / 2 ^ 32 ≡ at = omega (arith, it) in
      let extent : h % 2 ^ 32 ≡ n = omega (arith, it) in λ i. (place i, extent i)
  | inr large ↦ absurd (cc (if_not (ltb n (2 ^ 32)) (some (at * 2 ^ 32 + n)) none large))
]

one_block-Embeds : Embeds one_block region
one_block-Embeds = record {
  aligned = λ at n h s e. (handle_region at n h e, e);
  default = λ at n h s e. handle_region at n h e;
}

or_false : (a b : Bool) → (a || b) ≡ false → b ≡ false
or_false true b e = absurd (cc e)
or_false false b e = e

zero_test : (n : ℕ) → (n == 0) ≡ false → 0 < n
zero_test n e = ground arith

give_cases :
    (h : ℕ) (s : List ℕ)
    → (give h s ≡ (none, s)) ⊎ ((give h s ≡ (some (h / 2 ^ 32), h ∷ s)) × (0 < h % 2 ^ 32))
give_cases h s = elim (Bool-cases (contains h s || (h % 2 ^ 32 == 0))) [
  | inl busy ↦ inl (if_so (contains h s || (h % 2 ^ 32 == 0)) _ _ busy)
  | inr idle ↦ inr (
    if_not (contains h s || (h % 2 ^ 32 == 0)) _ _ idle,
    zero_test (h % 2 ^ 32) (or_false (contains h s) (h % 2 ^ 32 == 0) idle),
  )
]

-- What is given is the arena's block, and its arena is noted.
given :
    (h p : ℕ) (s s' : List ℕ)
    → give h s ≡ (some p, s')
    → (h / 2 ^ 32 ≡ p) × (h ∷ s ≡ s') × (0 < h % 2 ^ 32)
given h p s s' e = elim (give_cases h s) [
  | inl none_left ↦ absurd (cc (ap (λ (x : Option ℕ × List ℕ). x.0) (sym none_left ∙ e)))
  | inr (found, pos) ↦
      let same = sym found ∙ e in
      (
        some_injective (h / 2 ^ 32) p (ap (λ (x : Option ℕ × List ℕ). x.0) same),
        ap (λ (x : Option ℕ × List ℕ). x.1) same,
        pos,
      )
]

not_given : (h : ℕ) (s s' : List ℕ) → give h s ≡ (none, s') → s' ≡ s
not_given h s s' e = elim (give_cases h s) [
  | inl none_left ↦ ap (λ (x : Option ℕ × List ℕ). x.1) (sym e ∙ none_left)
  | inr (found, pos) ↦ absurd (cc (ap (λ (x : Option ℕ × List ℕ). x.0) (sym found ∙ e)))
]

covers-true : (h p : ℕ) → h / 2 ^ 32 ≡ p → 0 < h % 2 ^ 32 → covers h p ≡ true
covers-true h p e pos = ground arith

covers-false : (h p : ℕ) → ¬ Inside p (region h) → covers h p ≡ false
covers-false h p out = ground arith

taken_back : (h p : ℕ) (s s' : List ℕ) → give h s ≡ (some p, s') → take_back (some h) p s' ≡ s
taken_back h p s s' e =
    let (place, noted, pos) = given h p s s' e in
    let first : remove h (h ∷ s) ≡ s = if_so (h == h) s (h ∷ remove h s) (ground arith) in
    if_so (covers h p) (remove h s') s' (covers-true h p place pos)
    ∙ ap (λ (x : List ℕ). remove h x) (sym noted)
    ∙ first

one_block-Lawful : Lawful one_block region
one_block-Lawful = record {
  calloc_inside = λ h n p s s' e.
      let (place, noted, pos) = given h p s s' e in
      (omega (arith, place), omega (arith, place, pos));
  calloc_fails = λ h n s s' e. not_given h s s' e;
  free_calloc = λ h n p s s' e. taken_back h p s s' e;
  free_foreign = λ h p s out. if_not (covers h p) (remove h s) s (covers-false h p out);
  free_null = λ p s. refl;
}

abbrev os : Os
os = record {
  mmap_anonymous = λ n. some 1000;
  open_file = some 5;
  ftruncate = λ fd n. true;
  mmap_shared = λ n fd. some 9000;
}

-- A copy buffer of 300 bytes, two regions of 100 and the rest, and 500 bytes on disk.
abbrev created : Allocator
created = record {
  disk_alloc = some (9000 * 2 ^ 32 + 500);
  mem_alloc = some (1500 * 2 ^ 32 + 500);
  mem_base = 1300;
  copy_buffer = some 1000;
  n_sub_allocators = 2;
  sub_allocator_size = 100;
  sub_allocator_locks = none;
}

created_run :
    create_allocator os one_block 64 8 1000 2 100 500 300 []
    ≡ some (some created, (1500 * 2 ^ 32 + 500) ∷ [])
unfolding create_allocator
created_run = refl

os-apart :
    (base fd at : ℕ)
    → os.mmap_anonymous 1000 ≡ some base
    → os.mmap_shared 500 fd ≡ some at
    → Disjoint (base, 1000) (at, 500)
os-apart base fd at e f =
    let b : 1000 ≡ base = some_injective 1000 base e in
    let a : 9000 ≡ at = some_injective 9000 at f in inl (omega (arith, a, b))

create_allocator-IsLaidOut_example :
    (base : ℕ) × (alloc : Allocator) × (os.mmap_anonymous 1000 ≡ some base)
    × (some created ≡ some alloc)
    × IsLaidOut one_block region alloc
    × BufferApart os one_block 64 8 region (base, 300) alloc
create_allocator-IsLaidOut_example =
    create_allocator-IsLaidOut os one_block 64 8 region 1000 2 100 500 300 [] (some created)
      ((1500 * 2 ^ 32 + 500) ∷ []) one_block-Embeds os-apart (omega arith) (omega arith) created_run

created-IsLaidOut : IsLaidOut one_block region created
created-IsLaidOut =
    let (base, alloc, m, same, laid, buf) =
      create_allocator-IsLaidOut os one_block 64 8 region 1000 2 100 500 300 [] (some created)
        ((1500 * 2 ^ 32 + 500) ∷ []) one_block-Embeds os-apart (omega arith) (omega arith)
        created_run in
    subst (λ (x : Allocator). IsLaidOut one_block region x)
      (sym (some_injective created alloc same)) laid

-- The thread's arena and the one in memory are empty, so that the block comes from the disk.
abbrev busy : List ℕ
busy = (1400 * 2 ^ 32 + 100) ∷ (1500 * 2 ^ 32 + 500) ∷ []

allocated_run :
    allocator_allocate one_block created 7 40 busy ≡ some (9000, (9000 * 2 ^ 32 + 500) ∷ busy)
unfolding allocator_allocate
allocated_run = refl

allocator_free-allocator_allocate_example :
    allocator_free one_block created 9000 ((9000 * 2 ^ 32 + 500) ∷ busy) ≡ busy
allocator_free-allocator_allocate_example =
    allocator_free-allocator_allocate one_block region created 7 40 9000 busy
      ((9000 * 2 ^ 32 + 500) ∷ busy) one_block-Lawful created-IsLaidOut allocated_run
