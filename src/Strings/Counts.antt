-- ===== src/Strings/Counts.antt =====
-- The reference counts of string parts: each count is the number of the references to its part.
use copy.Prelude.{
  ℕ, zero, suc, ◌+◌, ◌≤◌, ◌<◌, ◌≡◌, refl, ap, ◌≢◌, Option, none, some, List, [], ◌∷◌, arith, ◌==◌,
  if◌then◌else◌, get_elem?, set, length, word,
}
use copy.Strings.{StringPart, Arena, string_part_deref}

-- Whether a reference is the one to slot `i`, as a number.
abbrev pub hit : Option ℕ → ℕ → ℕ
hit none i = 0
hit (some j) i = if j == i then 1 else 0

-- The references to slot `i` that a slot holds.
abbrev pub points : Option StringPart → ℕ → ℕ
points none i = 0
points (some part) i = hit part.prev i

-- The references to slot `i` that the parts of an arena hold.
abbrev pub refs : Arena → ℕ → ℕ
refs [] i = 0
refs (slot ∷ h) i = points slot i + refs h i

-- The references to slot `i` that are held from outside.
abbrev pub uses : List (Option ℕ) → ℕ → ℕ
uses [] i = 0
uses (r ∷ roots) i = hit r i + uses roots i

abbrev pub rc_of : Option StringPart → ℕ
rc_of none = 0
rc_of (some part) = part.rc

-- The number of parts.
abbrev pub used : Arena → ℕ
used [] = 0
used (none ∷ h) = used h
used (some part ∷ h) = suc (used h)

-- Every count is exact, and nothing refers to a free slot.
unfoldable pub Counted : Arena → List (Option ℕ) → Type 0
Counted h roots = (i : ℕ) → rc_of (string_part_deref h i) ≡ refs h i + uses roots i

-- No part is left over: every part is referred to.
unfoldable pub Live : Arena → Type 0
Live h = (i : ℕ) (part : StringPart) → string_part_deref h i ≡ some part → 0 < part.rc

pub hit_same : (i : ℕ) → hit (some i) i ≡ 1
hit_same i = ground arith

pub hit_other : (i j : ℕ) → i ≢ j → hit (some i) j ≡ 0
hit_other i j n = ground arith

pub deref-set_same :
    (h : Arena) (i : ℕ) (x : StringPart) (v : Option StringPart)
    → string_part_deref h i ≡ some x
    → string_part_deref (set h i v) i ≡ v
deref-set_same [] i x v e = absurd (cc e)
deref-set_same (y ∷ h) zero x v e = refl
deref-set_same (y ∷ h) (suc i) x v e = deref-set_same h i x v e

pub deref-set_free :
    (h : Arena) (i : ℕ) (w v : Option StringPart)
    → get_elem? h i ≡ some w
    → string_part_deref (set h i v) i ≡ v
deref-set_free [] i w v e = absurd (cc e)
deref-set_free (y ∷ h) zero w v e = refl
deref-set_free (y ∷ h) (suc i) w v e = deref-set_free h i w v e

pub deref-set_other :
    (h : Arena) (i j : ℕ) (v : Option StringPart)
    → i ≢ j
    → string_part_deref (set h i v) j ≡ string_part_deref h j
deref-set_other [] i j v n = refl
deref-set_other (y ∷ h) zero zero v n = absurd (n refl)
deref-set_other (y ∷ h) zero (suc j) v n = refl
deref-set_other (y ∷ h) (suc i) zero v n = refl
deref-set_other (y ∷ h) (suc i) (suc j) v n = deref-set_other h i j v λ e. n (ap suc e)

abbrev points_at : Option (Option StringPart) → ℕ → ℕ
points_at none j = 0
points_at (some slot) j = points slot j

-- What a write to a slot does to the references.
pub refs-set :
    (h : Arena) (i j : ℕ) (w v : Option StringPart)
    → get_elem? h i ≡ some w
    → refs (set h i v) j + points w j ≡ refs h j + points v j
refs-set [] i j w v e = absurd (cc e)
refs-set (y ∷ h) zero j w v e =
    let f : points y j ≡ points w j = ap (λ (o : Option (Option StringPart)). points_at o j) e in
    omega (arith, f)
refs-set (y ∷ h) (suc i) j w v e = omega (arith, refs-set h i j w v e)

pub used-free :
    (h : Arena) (i : ℕ) (part : StringPart)
    → string_part_deref h i ≡ some part
    → suc (used (set h i none)) ≡ used h
used-free [] i part e = absurd (cc e)
used-free (none ∷ h) zero part e = absurd (cc e)
used-free (some q ∷ h) zero part e = refl
used-free (none ∷ h) (suc i) part e = used-free h i part e
used-free (some q ∷ h) (suc i) part e = ap suc (used-free h i part e)

pub slot-deref :
    (h : Arena) (i : ℕ) (part : StringPart)
    → string_part_deref h i ≡ some part
    → get_elem? h i ≡ some (some part)
slot-deref [] i part e = absurd (cc e)
slot-deref (y ∷ h) zero part e = ap some e
slot-deref (y ∷ h) (suc i) part e = slot-deref h i part e

-- A part that refers to a slot is counted there.
pub refs-points :
    (h : Arena) (i j : ℕ) (part : StringPart)
    → string_part_deref h i ≡ some part
    → hit part.prev j ≤ refs h j
refs-points [] i j part e = absurd (cc e)
refs-points (y ∷ h) zero j part e =
    let f : points y j ≡ hit part.prev j = ap (λ (o : Option StringPart). points o j) e in
    omega (arith, f)
refs-points (y ∷ h) (suc i) j part e = omega (arith, refs-points h i j part e)

pub hit_le : (r : Option ℕ) (i : ℕ) → hit r i ≤ 1
hit_le none i = omega arith
hit_le (some j) i = ground arith

refs-le_length : (h : Arena) (i : ℕ) → refs h i ≤ length h
refs-le_length [] i = omega arith
refs-le_length (none ∷ h) i = omega (arith, refs-le_length h i)
refs-le_length (some part ∷ h) i = omega (arith, hit_le part.prev i, refs-le_length h i)

uses-le_length : (roots : List (Option ℕ)) (i : ℕ) → uses roots i ≤ length roots
uses-le_length [] i = omega arith
uses-le_length (r ∷ roots) i = omega (arith, hit_le r i, uses-le_length roots i)

-- Counts are far from the end of a word where there are fewer slots and roots than that.
pub rc-lt_word :
    (h : Arena) (roots : List (Option ℕ)) (i : ℕ) (part : StringPart)
    → Counted h roots
    → length h + length roots + 1 < word
    → string_part_deref h i ≡ some part
    → part.rc + 1 < word
unfolding Counted
rc-lt_word h roots i part c b e =
    let f : rc_of (string_part_deref h i) ≡ part.rc = ap rc_of e in
    omega (arith, f, c i, refs-le_length h i, uses-le_length roots i)
