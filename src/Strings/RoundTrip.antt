-- ===== src/Strings/RoundTrip.antt =====
-- A string part that is made and then copied out.
use copy.Prelude.{
  ℕ, ◌+◌, ◌≤◌, ◌<◌, ◌≡◌, Option, none, some, List, [], ◌∷◌, ◌++◌, length, word, get_elem?,
}
use copy.Memory.{Memory, bytes}
use copy.World.{Bytes}
use copy.Strings.{Arena, string_part_rc_inc, to_string_part, stringref_memcpy_with_realloc}
use copy.Strings.Counts.{Counted, Live}
use copy.Strings.Spells.{Spells, join}
use copy.Strings.Build.{Held, to_string_part-Spells}
use copy.Strings.Realloc.{stringref_memcpy_with_realloc-Spells}

module _ (allocate : Arena → ℕ → Option ℕ) (header : ℕ)
    (realloc : ℕ → ℕ → Memory → ℕ × Memory) where
  -- A part that is made of two strings after a tip, and then copied out at its new reference into a
  -- buffer of any size, with enough fuel for its parts: both calls return, and the buffer that comes
  -- back has room for, and holds, the string of the tip, the two strings and a null byte, where that
  -- fits in a word. The counts are exact before, there are fewer slots and references than a word
  -- counts, the tip is null or held, the size of the part with its header and
  -- null byte is below 2 ^ 64, and the allocator finds a free slot for it.
  pub stringref_memcpy_with_realloc-to_string_part :
      (h : Arena) (roots : List (Option ℕ)) (tip : Option ℕ) (ss : List Bytes) (s1 : Memory)
      (a1 len1 : ℕ) (s2 : Memory) (a2 len2 : ℕ) (fuel buf bufsize : ℕ) (m : Memory)
      → Counted h roots
      → Live h
      → length h + length roots + 1 < word
      → Held roots tip
      → Spells h tip ss
      → header + len1 + len2 + 1 < word
      → ((h1 : Arena)
          → string_part_rc_inc h tip ≡ some h1
          → (i : ℕ) × (allocate h1 (header + len1 + len2 + 1) ≡ some i)
            × (get_elem? h1 i ≡ some none))
      → length ss < fuel
      → length (join ss ++ (bytes s1 a1 len1 ++ bytes s2 a2 len2)) + 1 < word
      → bufsize < word
      → (h' : Arena) × (r : Option ℕ) × (buf' : ℕ) × (bufsize' : ℕ) × (m' : Memory)
        × (to_string_part allocate header h tip s1 a1 len1 s2 a2 len2 ≡ some (h', r))
        × (stringref_memcpy_with_realloc realloc h' fuel r (buf, bufsize) m
            ≡ some ((buf', bufsize'), m'))
        × (length (join ss ++ (bytes s1 a1 len1 ++ bytes s2 a2 len2)) + 1 ≤ bufsize')
        × (bytes m' buf' (length (join ss ++ (bytes s1 a1 len1 ++ bytes s2 a2 len2)) + 1)
            ≡ (join ss ++ (bytes s1 a1 len1 ++ bytes s2 a2 len2)) ++ 0 ∷ [])
  stringref_memcpy_with_realloc-to_string_part h roots tip ss s1 a1 len1 s2 a2 len2 fuel buf bufsize
        m c l b held s fits found f w bw =
      let (h', r, made, c', l', spelt) =
        to_string_part-Spells allocate header h roots tip ss s1 a1 len1 s2 a2 len2 c l b held s fits
          found in
      let (buf', bufsize', m', copied, room, holds) =
        stringref_memcpy_with_realloc-Spells realloc h' fuel r buf bufsize m
          ((bytes s1 a1 len1 ++ bytes s2 a2 len2) ∷ ss) spelt f w bw in
      (h', r, buf', bufsize', m', made, copied, room, holds)
