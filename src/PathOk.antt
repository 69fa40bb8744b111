-- ===== src/PathOk.antt =====
-- syscalls.h, `path_ok`: the guard of every system call that takes a path. A path is the list of its
-- bytes up to the terminator, `none` for a null pointer.
pub mod Components
mod Tests
use copy.Prelude.{
  ℕ, ◌-◌, Bool, true, false, not, ◌&&◌, ◌||◌, Option, none, some, List, [], ◌∷◌, ◌==◌, leb, ltb,
  if◌then◌else◌, length, drop, ◌≡◌, refl,
}

abbrev pub slash : ℕ
slash = 0x2f

abbrev pub dot : ℕ
dot = 0x2e

-- `strncmp(pattern, text, n) == 0` for a pattern of `n` bytes.
abbrev pub starts_with : List ℕ → List ℕ → Bool
starts_with [] q = true
starts_with (a ∷ pattern) [] = false
starts_with (a ∷ pattern) (c ∷ q) = (a == c) && starts_with pattern q

-- `strstr(text, pattern)` finds the pattern.
abbrev pub contains : List ℕ → List ℕ → Bool
contains pattern [] = starts_with pattern []
contains pattern (c ∷ q) = starts_with pattern (c ∷ q) || contains pattern q

-- `!strcmp(text, "..")`.
abbrev pub is_dots : List ℕ → Bool
is_dots q = (length q == 2) && starts_with (dot ∷ dot ∷ []) q

-- The last test of `path_ok`.
unfoldable pub inner_dots : List ℕ → Bool
inner_dots q =
    leb 3 (length q)
    && (contains (slash ∷ dot ∷ dot ∷ slash ∷ []) q
        || (starts_with (dot ∷ dot ∷ slash ∷ []) q
            || starts_with (slash ∷ dot ∷ dot ∷ []) (drop (length q - 3) q)))

unfoldable pub path_ok : Option (List ℕ) → Bool
unfolding inner_dots
path_ok none = false
path_ok (some []) = false
path_ok (some (c ∷ q)) =
    if c == slash then false else if is_dots (c ∷ q) then false else not (inner_dots (c ∷ q))

-- "a/../b" is refused, "a/..b" is not.
path_ok_inner : path_ok (some (0x61 ∷ slash ∷ dot ∷ dot ∷ slash ∷ 0x62 ∷ [])) ≡ false
unfolding path_ok
path_ok_inner = refl

path_ok_name : path_ok (some (0x61 ∷ slash ∷ dot ∷ dot ∷ 0x62 ∷ [])) ≡ true
unfolding path_ok
path_ok_name = refl
