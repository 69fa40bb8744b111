-- ===== src/Strings.antt =====
-- allocator.h and allocator.cpp: the parts that strings are made of, with their reference counts.
--
-- An arena is an array of slots, and a reference is the index of one, `none` for a null reference. A
-- free slot holds nothing. The bytes of a part, of a buffer and of a C string are memories by
-- address. A loop runs on fuel. The threads' decrements of a count are atomic, and stand one after
-- another here. `none` is the result where an assertion fails, where a reference is followed whose
-- slot is free, or where the fuel runs out.
pub mod Build
pub mod Copy
pub mod Counts
pub mod Keeps
pub mod Realloc
pub mod Release
pub mod RoundTrip
pub mod Spells
mod Tests
use copy.Prelude.{
  ℕ, zero, suc, ◌+◌, ◌-◌, Bool, true, false, ◌&&◌, not, Option, none, some, List, [], ◌∷◌, ◌==◌,
  ltb, leb, if◌then◌else◌, add64, sub64, or_else_none, get_elem?, set,
}
use copy.Memory.{Memory, memset, memcpy}

-- `struct StringPart`; `chars` is its `data`.
pub record StringPart : Type 0 where
  pub rc : ℕ
  pub len : ℕ
  pub prev : Option ℕ
  pub chars : Memory

abbrev pub Arena : Type 0
Arena = List (Option StringPart)

-- `stringPartDeref`.
abbrev pub string_part_deref : Arena → ℕ → Option StringPart
string_part_deref h i = or_else_none (get_elem? h i) λ slot. slot

-- `STRING_PART_RC_INC`, of a reference that may be null.
abbrev pub string_part_rc_inc : Arena → Option ℕ → Option Arena
string_part_rc_inc h none = some h
string_part_rc_inc h (some i) =
    or_else_none (string_part_deref h i)
      λ part. some (set h i (some (record part { rc = add64 part.rc 1 })))

-- One turn of the loop of `stringPartRelease`, with the rest of the loop.
abbrev pub release_part : (Arena → Option ℕ → Option Arena) → Arena → ℕ → StringPart → Option Arena
release_part next h i part =
    let rest = next (set h i none) part.prev in
    if part.rc == 0
    then none
    else if leb part.rc 1
    then rest
    else some (set h i (some (record part { rc = part.rc - 1 })))

-- `stringPartRelease`.
unfoldable pub string_part_release : ℕ → Arena → Option ℕ → Option Arena
string_part_release fuel h none = some h
string_part_release zero h (some i) = none
string_part_release (suc fuel) h (some i) =
    or_else_none (string_part_deref h i) (release_part (string_part_release fuel) h i)

-- The first loop of `stringRefMemcpy`: the lengths of the parts.
unfoldable pub count_bytes : Arena → ℕ → Option ℕ → ℕ → Option ℕ
count_bytes h fuel none size = some size
count_bytes h zero (some i) size = none
count_bytes h (suc fuel) (some i) size =
    or_else_none (string_part_deref h i) λ part. count_bytes h fuel part.prev (add64 size part.len)

-- Its second loop: the parts from the last one back, each before the one that was copied last.
unfoldable pub copy_parts : Arena → ℕ → Option ℕ → ℕ → ℕ → ℕ → ℕ → Memory → Option Memory
copy_parts h fuel none buf bufsize size it m = some m
copy_parts h zero (some i) buf bufsize size it m = none
copy_parts h (suc fuel) (some i) buf bufsize size it m =
    or_else_none (string_part_deref h i) λ part.
      let it' = add64 it part.len in
      let rest =
        copy_parts h fuel part.prev buf bufsize size it'
          (memcpy m (buf + size - it' - 1) part.chars 0 part.len) in
      if leb (add64 (sub64 (sub64 size it') 1) part.len) bufsize then rest else none

-- The null byte at the end.
abbrev pub terminate : ℕ → ℕ → Memory → Memory
terminate buf size m = memset m (buf + size - 1) 0 1

-- With the size: nothing is written to a buffer that is too small, or to none.
abbrev pub copy_string : Arena → ℕ → Option ℕ → Option ℕ → ℕ → Memory → ℕ → Option (ℕ × Memory)
copy_string h fuel r none bufsize m size = some (size, m)
copy_string h fuel r (some buf) bufsize m size =
    if ltb bufsize size
    then some (size, m)
    else or_else_none (copy_parts h fuel r buf bufsize size 0 m)
        λ m'. some (size, terminate buf size m')

-- `stringRefMemcpy`: the size of the string with its null byte, and the memory.
unfoldable pub string_ref_memcpy :
    Arena → ℕ → Option ℕ → Option ℕ → ℕ → Memory → Option (ℕ × Memory)
string_ref_memcpy h fuel none none bufsize m = if bufsize == 0 then some (1, m) else none
string_ref_memcpy h fuel none (some buf) bufsize m =
    some (1, if bufsize == 0 then m else memset m buf 0 1)
string_ref_memcpy h fuel (some i) buf bufsize m =
    or_else_none (count_bytes h fuel (some i) 0)
      λ n. copy_string h fuel (some i) buf bufsize m (add64 n 1)

-- A buffer: where it stands, and its size.
abbrev pub Buffer : Type 0
Buffer = ℕ × ℕ

-- `realloc`: the release of a buffer at an address, and the allocation of one of a size, which yields
-- the address of the new one and the memory.
module _ (realloc : ℕ → ℕ → Memory → ℕ × Memory) where
  -- The second attempt, in a buffer of the size that the first one asks for.
  abbrev pub copy_again : Arena → ℕ → Option ℕ → ℕ → ℕ → Memory → Option (Buffer × Memory)
  copy_again h fuel r buf len m =
      let (a, m') = realloc buf len m in
      or_else_none (string_ref_memcpy h fuel r (some a) len m')
        λ (n, m''). if n == len then some ((a, len), m'') else none

  abbrev pub copy_retry : Arena → ℕ → Option ℕ → Buffer → ℕ → Memory → Option (Buffer × Memory)
  copy_retry h fuel r (buf, bufsize) len m =
      if leb bufsize len then copy_again h fuel r buf len m else some ((buf, bufsize), m)

  -- `stringrefMemcpyWithRealloc`.
  unfoldable pub stringref_memcpy_with_realloc :
      Arena → ℕ → Option ℕ → Buffer → Memory → Option (Buffer × Memory)
  stringref_memcpy_with_realloc h fuel r (buf, bufsize) m =
      or_else_none (string_ref_memcpy h fuel r (some buf) bufsize (memset m buf 0 bufsize))
        λ (len, m'). copy_retry h fuel r (buf, bufsize) len m'

  -- `stringrefImmediateToCString`, with the buffer of the thread; the result is its address.
  abbrev pub stringref_immediate_to_c_string :
      Arena → ℕ → Option ℕ → Buffer → Memory → Option (ℕ × (Buffer × Memory))
  stringref_immediate_to_c_string h fuel r remote_buf m =
      or_else_none (stringref_memcpy_with_realloc h fuel r remote_buf m)
        λ ((buf, bufsize), m'). some (buf, ((buf, bufsize), m'))

-- The new part.
abbrev pub new_part : Option ℕ → Memory → ℕ → ℕ → Memory → ℕ → ℕ → StringPart
new_part tip s1 a1 len1 s2 a2 len2 = record {
  rc = 1;
  len = add64 len1 len2;
  prev = tip;
  chars = memcpy (memcpy (λ p. 0) 0 s1 a1 len1) len1 s2 a2 len2;
}

-- `allocate`: the slot that `AllocatorAllocate` finds for a number of bytes, if any; `header`: the
-- size of a part without its bytes.
module _ (allocate : Arena → ℕ → Option ℕ) (header : ℕ) where
  -- `toStringPart`.
  unfoldable pub to_string_part :
      Arena → Option ℕ → Memory → ℕ → ℕ → Memory → ℕ → ℕ → Option (Arena × Option ℕ)
  to_string_part h tip s1 a1 len1 s2 a2 len2 = or_else_none (string_part_rc_inc h tip) λ h'.
      or_else_none (allocate h' (add64 (add64 (add64 header len1) len2) 1))
        λ i. some (set h' i (some (new_part tip s1 a1 len1 s2 a2 len2)), some i)
