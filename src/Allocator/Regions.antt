-- ===== src/Allocator/Regions.antt =====
-- Where the arenas lie, and what is asked of them.
use copy.Prelude.{ℕ, ◌+◌, ◌-◌, ◌*◌, ◌/◌, ◌≤◌, ◌<◌, ◌≡◌, ◌⊎◌, none, some, arith}
use native.Mathlib.Decide.{dec_lt}
use copy.Prelude.Products.{mul_mono, div_mod_lem, div_unique}
use copy.Allocator.{Buddy, Allocator, Span, sub_allocator}

abbrev pub Inside : ℕ → Span → Type 0
Inside p (base, size) = (base ≤ p) × (p < base + size)

-- Two spans with no address in common.
abbrev pub Disjoint : Span → Span → Type 0
Disjoint (a, n) (b, k) = (a + n ≤ b) ⊎ (b + k ≤ a)

-- The memory of an arena, by its handle; `region` says which.
pub record Lawful {S : Type 0} (b : Buddy S) (region : ℕ → Span) : Type 0 where
  pub calloc_inside : (h n p : ℕ) (s s' : S) → b.calloc h 1 n s ≡ (some p, s') → Inside p (region h)
  pub calloc_fails : (h n : ℕ) (s s' : S) → b.calloc h 1 n s ≡ (none, s') → s' ≡ s
  pub free_calloc :
      (h n p : ℕ) (s s' : S) → b.calloc h 1 n s ≡ (some p, s') → b.free (some h) p s' ≡ s
  pub free_foreign : (h p : ℕ) (s : S) → ¬ Inside p (region h) → b.free (some h) p s ≡ s
  pub free_null : (p : ℕ) (s : S) → b.free none p s ≡ s

-- The span of all the threads' regions.
abbrev pub subs_span : Allocator → Span
subs_span alloc = (alloc.mem_base, alloc.n_sub_allocators * alloc.sub_allocator_size)

-- The region of thread number `i`.
abbrev pub sub_span : Allocator → ℕ → Span
sub_span alloc i = (alloc.mem_base + i * alloc.sub_allocator_size, alloc.sub_allocator_size)

-- Each thread's arena lies where its number says, and no arena meets another one.
pub record IsLaidOut {S : Type 0} (b : Buddy S) (region : ℕ → Span) (alloc : Allocator)
    : Type 0 where
  pub positive : 0 < alloc.n_sub_allocators → 0 < alloc.sub_allocator_size
  pub sub :
      (i : ℕ)
      → i < alloc.n_sub_allocators
      → (h : ℕ) × (sub_allocator b alloc i ≡ some h) × (region h ≡ sub_span alloc i)
  pub mem : (h : ℕ) → alloc.mem_alloc ≡ some h → Disjoint (region h) (subs_span alloc)
  pub disk : (h : ℕ) → alloc.disk_alloc ≡ some h → Disjoint (region h) (subs_span alloc)
  pub apart :
      (h k : ℕ)
      → alloc.mem_alloc ≡ some h
      → alloc.disk_alloc ≡ some k
      → Disjoint (region h) (region k)

-- The number of the region that an address lies in.
pub index_of : (base size i p : ℕ) → Inside p (base + i * size, size) → (p - base) / size ≡ i
index_of base size i p (lo, hi) =
    div_unique (p - base) size i (omega arith) (omega arith) (omega arith)

-- An address past the regions has no number among theirs.
pub index_past : (base size n p : ℕ) → 0 < size → base + n * size ≤ p → n ≤ (p - base) / size
index_past base size n p pos h = elim (dec_lt ((p - base) / size) n) [
  | yes low ↦
      let d = div_mod_lem (p - base) size pos in
      let m = mul_mono ((p - base) / size + 1) n size (omega arith) in
      let e : ((p - base) / size + 1) * size ≡ (p - base) / size * size + size = grind arith in
      absurd (omega (arith, d.0, d.1, m, e))
  | no high ↦ omega arith
]
