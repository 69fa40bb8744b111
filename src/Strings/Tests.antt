-- ===== src/Strings/Tests.antt =====
-- Runs of the string parts, and the theorems on them at an arena of four slots.
use copy.Prelude.{
  ℕ, zero, suc, ◌+◌, ◌≤◌, ◌<◌, ◌≡◌, refl, ap, subst, Option, none, some, List, [], ◌∷◌, get_elem?,
  arith, ◌==◌, leb, if◌then◌else◌,
}
use copy.Memory.{Memory, bytes}
use copy.Memory.Ranges.{put}
use copy.World.{Bytes}
use copy.Strings.{
  StringPart, Arena, string_part_rc_inc, string_part_release, to_string_part, string_ref_memcpy,
  stringref_memcpy_with_realloc,
}
use copy.Strings.Counts.{Counted, Live, rc_of}
use copy.Strings.Release.{string_part_release-Counted}
use copy.Strings.Spells.{Spells, string_part_release-Spells}
use copy.Strings.Build.{to_string_part-Spells}
use copy.Strings.Copy.{string_ref_memcpy-Spells}
use copy.Strings.RoundTrip.{stringref_memcpy_with_realloc-to_string_part}

-- "ab" at 0 and "/c" at 2.
abbrev letters : Memory
letters p = if p == 0 then 97 else if p == 1 then 98 else if p == 2 then 47 else 99

-- A part that spells "ab", and one after it that adds "/".
abbrev part_ab : StringPart
part_ab = record { rc = 2; len = 2; prev = none; chars = letters }

abbrev part_c : StringPart
part_c = record { rc = 1; len = 1; prev = some 1; chars = λ p. letters (p + 2) }

abbrev arena : Arena
arena = none ∷ some part_ab ∷ none ∷ some part_c ∷ []

-- The first part is held itself, and through the second one.
abbrev held : List (Option ℕ)
held = some 3 ∷ some 1 ∷ []

arena-Counted : Counted arena held
unfolding Counted
arena-Counted zero = refl
arena-Counted (suc zero) = refl
arena-Counted (suc (suc zero)) = refl
arena-Counted (suc (suc (suc zero))) = refl
arena-Counted (suc (suc (suc (suc i)))) = ground arith

arena-Live : Live arena
unfolding Live
arena-Live zero q e = absurd (cc e)
arena-Live (suc zero) q e = subst (λ (o : Option StringPart). 0 < rc_of o) e (omega arith)
arena-Live (suc (suc zero)) q e = absurd (cc e)
arena-Live (suc (suc (suc zero))) q e =
    subst (λ (o : Option StringPart). 0 < rc_of o) e (omega arith)
arena-Live (suc (suc (suc (suc i)))) q e = absurd (cc e)

abbrev first_free_from : ℕ → Arena → Option ℕ
first_free_from n [] = none
first_free_from n (none ∷ h) = some n
first_free_from n (some part ∷ h) = first_free_from (suc n) h

abbrev first_free : Arena → ℕ → Option ℕ
first_free h size = first_free_from 0 h

-- A new buffer, far off.
abbrev far : ℕ → ℕ → Memory → ℕ × Memory
far a size m = (1000, m)

string_part_release-Counted_example :
    (h' : Arena) × (string_part_release 2 arena (some 3) ≡ some h')
    × Counted h' (some 1 ∷ [])
    × Live h'
string_part_release-Counted_example =
    string_part_release-Counted 2 arena (some 3) (some 1 ∷ []) arena-Counted arena-Live
      (omega arith)

-- Without the second part.
abbrev released : Arena
released = none ∷ some (record part_ab { rc = 1 }) ∷ none ∷ none ∷ []

release_run : string_part_release 2 arena (some 3) ≡ some released
unfolding string_part_release
release_run = refl

string_part_release-Spells_example : Spells released (some 1) ((97 ∷ 98 ∷ []) ∷ [])
string_part_release-Spells_example =
    string_part_release-Spells 2 arena released (some 3) (some 1 ∷ []) 1 ((97 ∷ 98 ∷ []) ∷ [])
      arena-Counted arena-Live (omega arith) release_run (omega arith) (part_ab, refl, refl, tt)

abbrev spelt : List Bytes
spelt = (47 ∷ []) ∷ (97 ∷ 98 ∷ []) ∷ []

arena-Spells : Spells arena (some 3) spelt
arena-Spells = (part_c, refl, refl, (part_ab, refl, refl, tt))

abbrev or_first : Option Arena → Arena → Arena
or_first none h = h
or_first (some x) h = x

finds :
    (h1 : Arena)
    → string_part_rc_inc arena (some 3) ≡ some h1
    → (i : ℕ) × (first_free h1 (24 + 1 + 1 + 1) ≡ some i) × (get_elem? h1 i ≡ some none)
finds h1 e =
    let it = ap (λ (o : Option Arena). or_first o h1) e in
    subst
      (λ (h : Arena).
        (i : ℕ) × (first_free h (24 + 1 + 1 + 1) ≡ some i) × (get_elem? h i ≡ some none))
      it (0, refl, refl)

to_string_part-Spells_example :
    (h' : Arena) × (r : Option ℕ) × (to_string_part first_free 24 arena
        (some 3)
        letters
        0
        1
        letters
        2
        1
      ≡ some (h', r))
    × Counted h' (r ∷ held)
    × Live h'
    × Spells h' r ((97 ∷ 47 ∷ []) ∷ spelt)
to_string_part-Spells_example =
    to_string_part-Spells first_free 24 arena held (some 3) spelt letters 0 1 letters 2 1
      arena-Counted arena-Live (omega arith) (omega arith) arena-Spells (omega arith) finds

string_ref_memcpy-Spells_example :
    string_ref_memcpy arena 2 (some 3) (some 10) 4 letters
    ≡ some (4, if leb 4 4 then put letters 10 (97 ∷ 98 ∷ 47 ∷ 0 ∷ []) else letters)
string_ref_memcpy-Spells_example =
    string_ref_memcpy-Spells arena 2 (some 3) 10 4 letters spelt arena-Spells (omega arith)
      (omega arith) (omega arith)

-- A buffer of two bytes is too small.
stringref_memcpy_with_realloc-to_string_part_example :
    (h' : Arena) × (r : Option ℕ) × (buf' : ℕ) × (bufsize' : ℕ) × (m' : Memory) × (to_string_part
        first_free 24 arena
        (some 3)
        letters
        0
        1
        letters
        2
        1
      ≡ some (h', r))
    × (stringref_memcpy_with_realloc far h' 3 r (10, 2) letters ≡ some ((buf', bufsize'), m'))
    × (6 ≤ bufsize')
    × (bytes m' buf' 6 ≡ 97 ∷ 98 ∷ 47 ∷ 97 ∷ 47 ∷ 0 ∷ [])
stringref_memcpy_with_realloc-to_string_part_example =
    stringref_memcpy_with_realloc-to_string_part first_free 24 far arena held (some 3) spelt letters
      0 1 letters 2 1 3 10 2 letters arena-Counted arena-Live (omega arith) (omega arith)
      arena-Spells (omega arith) finds (omega arith) (omega arith) (omega arith)
