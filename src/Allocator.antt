-- ===== src/Allocator.antt =====
-- allocator.h and allocator.cpp: the arenas of memory, and which of them a block comes from and goes
-- back to.
--
-- `Buddy` stands for the library of the buddy allocators: `S` is the state of all of them, and a handle
-- is the address of one. `Os` stands for the mappings that the operating system makes. An address is a
-- number, 0 for a null pointer. The locks are left out: a call runs without another one in between.
-- The blocks under `ALLOC_DEBUG`, which add a trailer to each block, count the blocks and check each
-- free, are left out, as is the advice on huge pages. `none` is the result where the program exits, an
-- assertion fails or a null pointer is followed.
pub mod Created
pub mod Layout
pub mod Owner
pub mod Regions
mod Tests
use copy.Prelude.{
  ℕ, zero, suc, ◌+◌, ◌-◌, ◌*◌, ◌/◌, ◌%◌, Bool, true, false, not, ◌&&◌, ◌||◌, Option, none, some,
  ◌==◌, ltb, leb, if◌then◌else◌, add64, mul64, or_else_none,
}

pub record Buddy (S : Type 0) : Type 0 where
  -- At an address, of a size and with an alignment.
  pub embed_alignment : ℕ → ℕ → ℕ → S → Option ℕ × S
  pub embed : ℕ → ℕ → S → Option ℕ × S
  pub get_embed_at_alignment : ℕ → ℕ → ℕ → Option ℕ
  pub calloc : ℕ → ℕ → ℕ → S → Option ℕ × S
  pub free : Option ℕ → ℕ → S → S
  pub base_ptr : ℕ → S → ℕ
  pub memory_size : ℕ → S → ℕ
  pub reserve_range : ℕ → ℕ → ℕ → S → S

pub record Os : Type 0 where
  pub mmap_anonymous : ℕ → Option ℕ
  pub open_file : Option ℕ
  pub ftruncate : ℕ → ℕ → Bool
  pub mmap_shared : ℕ → ℕ → Option ℕ

-- `struct Allocator`.
pub record Allocator : Type 0 where
  pub disk_alloc : Option ℕ
  pub mem_alloc : Option ℕ
  pub mem_base : ℕ
  pub copy_buffer : Option ℕ
  pub n_sub_allocators : ℕ
  pub sub_allocator_size : ℕ
  pub sub_allocator_locks : Option ℕ

-- Memory that is not given out yet: where it starts, and its size.
abbrev pub Span : Type 0
Span = ℕ × ℕ

-- The copy buffer is cut off the front where it leaves something.
abbrev pub carve_copy_buffer : ℕ → Span → Option ℕ × Span
carve_copy_buffer copy_size (mem, size) =
    if ltb copy_size size
    then (some mem, (mem + copy_size, size - copy_size))
    else (none, (mem, size))

-- Then the regions of the threads, all or none: where they start, how many there are, and the rest.
abbrev pub carve_subs : ℕ → ℕ → Span → (ℕ × ℕ) × Span
carve_subs n sub_size (mem, size) =
    if not (mul64 n sub_size == 0) && ltb (mul64 n sub_size) size
    then ((mem, n), (mem + mul64 n sub_size, size - mul64 n sub_size))
    else ((0, 0), (mem, size))

abbrev pub cleared : Allocator
cleared = record {
  disk_alloc = none;
  mem_alloc = none;
  mem_base = 0;
  copy_buffer = none;
  n_sub_allocators = 0;
  sub_allocator_size = 0;
  sub_allocator_locks = none;
}

module _ {S : Type 0} (b : Buddy S) where
  -- The loop over the regions of the threads, from number `i` on, with `k` to go.
  unfoldable pub embed_subs : ℕ → ℕ → ℕ → ℕ → S → Option S
  embed_subs base size i zero s = some s
  embed_subs base size i (suc k) s =
      let (handle, s') = b.embed_alignment (base + i * size) size 128 s in
      or_else_none handle λ suballoc. embed_subs base size (suc i) k s'

-- The record after the arena in memory is made.
abbrev pub memory_record : ℕ → ℕ → ℕ → ℕ → Option ℕ → Allocator
memory_record sub_size base n mem_alloc locks = record cleared {
  mem_alloc = some mem_alloc;
  mem_base = base;
  n_sub_allocators = n;
  sub_allocator_size = sub_size;
  sub_allocator_locks = locks;
}

-- The copy buffer is on disk where it did not fit in memory.
abbrev pub carve_disk_buffer : ℕ → Option ℕ → Span → Option ℕ × Span
carve_disk_buffer copy_size none whole = carve_copy_buffer copy_size whole
carve_disk_buffer copy_size (some p) whole = (some p, whole)

-- The record gets the copy buffer at the end.
abbrev pub with_copy_buffer : Option Allocator → Option ℕ → Option Allocator
with_copy_buffer none copy_buffer = none
with_copy_buffer (some alloc) copy_buffer = some (record alloc { copy_buffer = copy_buffer })

-- `record_size` and `lock_size`: the sizes of an `Allocator` and of a lock.
module _ {S : Type 0} (os : Os) (b : Buddy S) (record_size lock_size : ℕ) where
  -- The allocator's own record, and the array of the locks, come from the arena that is left.
  abbrev pub allocator_in : ℕ → ℕ → ℕ → ℕ → S → Option (Allocator × S)
  allocator_in sub_size base n mem_alloc s =
      let (at, s') = b.calloc mem_alloc 1 record_size s in
      let (locks, s'') = b.calloc mem_alloc (if n == 0 then 1 else n) lock_size s' in
      or_else_none at λ p. some (memory_record sub_size base n mem_alloc locks, s'')

  -- The arenas of the anonymous mapping, once it is divided.
  abbrev pub embed_memory :
      ℕ → Option ℕ → (ℕ × ℕ) × Span → S → Option ((Option Allocator × Option ℕ) × S)
  embed_memory sub_size copy_buffer ((base, n), (mem, size)) s =
      or_else_none (embed_subs b base sub_size 0 n s) λ s1.
        let (handle, s2) = b.embed_alignment mem size 128 s1 in
        or_else_none handle λ mem_alloc.
          or_else_none (allocator_in sub_size base n mem_alloc s2)
            λ (alloc, s3). some ((some alloc, copy_buffer), s3)

  abbrev pub carve_memory : ℕ → ℕ → ℕ → Span → S → Option ((Option Allocator × Option ℕ) × S)
  carve_memory n sub_size copy_size whole s =
      let (copy_buffer, rest) = carve_copy_buffer copy_size whole in
      embed_memory sub_size copy_buffer (carve_subs n sub_size rest) s

  abbrev pub create_memory : ℕ → ℕ → ℕ → ℕ → S → Option ((Option Allocator × Option ℕ) × S)
  create_memory mem_size n sub_size copy_size s =
      if mem_size == 0
      then some ((none, none), s)
      else or_else_none (os.mmap_anonymous mem_size)
          λ mem. carve_memory n sub_size copy_size (mem, mem_size) s

  -- The arena on disk holds the record where no memory was asked for.
  abbrev pub with_disk : ℕ → Option Allocator × S → Option Allocator × S
  with_disk disk_alloc (some alloc, s) = (some (record alloc { disk_alloc = some disk_alloc }), s)
  with_disk disk_alloc (none, s) =
      let (at, s') = b.calloc disk_alloc 1 record_size s in
      (or_else_none at λ p. some (record cleared { disk_alloc = some disk_alloc }), s')

  abbrev pub carve_disk :
      ℕ → Span → Option Allocator × Option ℕ → S → Option ((Option Allocator × Option ℕ) × S)
  carve_disk copy_size whole (alloc, copy_buffer) s =
      let (copy_buffer', (at, size)) = carve_disk_buffer copy_size copy_buffer whole in
      let (handle, s1) = b.embed at size s in
      or_else_none handle λ disk_alloc.
        let (alloc', s2) = with_disk disk_alloc (alloc, s1) in some ((alloc', copy_buffer'), s2)

  abbrev pub create_disk :
      ℕ → ℕ → Option Allocator × Option ℕ → S → Option ((Option Allocator × Option ℕ) × S)
  create_disk disk_size copy_size made s =
      if disk_size == 0
      then some (made, s)
      else or_else_none os.open_file λ fd.
        if not (os.ftruncate fd disk_size)
        then none
        else or_else_none (os.mmap_shared disk_size fd)
            λ at. carve_disk copy_size (at, disk_size) made s

  -- `createAllocator`.
  unfoldable pub create_allocator : ℕ → ℕ → ℕ → ℕ → ℕ → S → Option (Option Allocator × S)
  unfolding embed_subs
  create_allocator mem_size n sub_size disk_size copy_size s =
      or_else_none (create_memory mem_size n sub_size copy_size s) λ (made, s1).
        or_else_none (create_disk disk_size copy_size made s1)
          λ ((alloc, copy_buffer), s2). some (with_copy_buffer alloc copy_buffer, s2)

module _ {S : Type 0} (b : Buddy S) where
  -- The arena of thread number `i`.
  abbrev pub sub_allocator : Allocator → ℕ → Option ℕ
  sub_allocator alloc i =
      b.get_embed_at_alignment (alloc.mem_base + i * alloc.sub_allocator_size)
        alloc.sub_allocator_size 128

  -- A block of the thread's own arena, where there are such arenas; the assertion is that it is there.
  abbrev pub allocate_sub : Allocator → ℕ → ℕ → S → Option (Option ℕ × S)
  allocate_sub alloc tid len s =
      if alloc.n_sub_allocators == 0
      then some (none, s)
      else or_else_none (sub_allocator alloc (tid % alloc.n_sub_allocators))
          λ suballoc. some (b.calloc suballoc 1 len s)

  -- A block of an arena, if there is the arena and no block was found before.
  abbrev pub or_from : Option ℕ → ℕ → Option ℕ × S → Option ℕ × S
  or_from arena len (some p, s) = (some p, s)
  or_from none len (none, s) = (none, s)
  or_from (some handle) len (none, s) = b.calloc handle 1 len s

  -- The assertion that a block was found.
  abbrev pub found_block : Option ℕ × S → Option (ℕ × S)
  found_block (none, s) = none
  found_block (some p, s) = some (p, s)

  -- `AllocatorAllocate`, called by the thread `tid`.
  unfoldable pub allocator_allocate : Allocator → ℕ → ℕ → S → Option (ℕ × S)
  allocator_allocate alloc tid len s =
      if len == 0
      then none
      else or_else_none (allocate_sub alloc tid len s)
          λ tried. found_block (or_from alloc.disk_alloc len (or_from alloc.mem_alloc len tried))

  -- The range at an offset in an arena, if it lies in it and none was found before.
  abbrev pub or_range : Option ℕ → ℕ → ℕ → Option ℕ × S → Option ℕ × S
  or_range arena offset len (some p, s) = (some p, s)
  or_range none offset len (none, s) = (none, s)
  or_range (some handle) offset len (none, s) =
      let base = b.base_ptr handle s in
      let at = add64 base offset in
      if not (ltb at base) && leb (add64 at len) (add64 base (b.memory_size handle s))
      then (some at, b.reserve_range handle at len s)
      else (none, s)

  -- `AllocatorAllocateRange`.
  unfoldable pub allocator_allocate_range : Allocator → ℕ → ℕ → S → Option (ℕ × S)
  allocator_allocate_range alloc offset len s =
      if len == 0
      then none
      else found_block
          (or_range alloc.disk_alloc offset len (or_range alloc.mem_alloc offset len (none, s)))

  -- `AllocatorFree`: a block of a thread's region goes back there; any other is offered to both of the
  -- remaining arenas.
  unfoldable pub allocator_free : Allocator → ℕ → S → S
  allocator_free alloc ptr s =
      let index = (ptr - alloc.mem_base) / alloc.sub_allocator_size in
      if not (alloc.n_sub_allocators == 0)
        && (leb alloc.mem_base ptr && ltb index alloc.n_sub_allocators)
      then b.free (sub_allocator alloc index) ptr s
      else b.free alloc.disk_alloc ptr (b.free alloc.mem_alloc ptr s)
