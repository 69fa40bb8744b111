-- ===== src/Memory/Tests.antt =====
-- `is_zero` on a concrete memory.
use copy.Prelude.{ltb, if◌then◌else◌, true, ◌≡◌, refl}
use copy.Memory.{Memory, is_zero}

-- Zero below 8 and one from there on.
abbrev half : Memory
half p = if ltb p 8 then 0 else 1

half_run : is_zero half 4 4 ≡ true
unfolding is_zero
half_run = refl
