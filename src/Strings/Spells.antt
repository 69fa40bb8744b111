-- ===== src/Strings/Spells.antt =====
-- The string that a reference stands for, and that the others' releases leave it alone.
use copy.Prelude.{
  ℕ, ◌+◌, ◌≤◌, ◌<◌, ◌≡◌, sym, ap, subst, ◌∙◌, Option, none, some, List, [], ◌∷◌, ◌++◌, arith,
}
use copy.Memory.{Memory, bytes}
use copy.World.{Bytes}
use copy.Strings.{StringPart, Arena, string_part_deref, string_part_release}
use native.Mathlib.Decide.{ℕ_discrete}
use copy.Strings.Counts.{
  hit, refs, uses, used, Counted, Live, hit_same, hit_other, hit_le, refs-points,
}
use copy.Strings.Keeps.{Keeps, SameText, or_part}
use copy.Strings.Release.{held_part, string_part_release-Released}

-- The parts of a string, the last one first, hold these bytes.
abbrev pub Spells : Arena → Option ℕ → List Bytes → Type 0
Spells h none [] = Unit {0}
Spells h none (s ∷ ss) = ⊥
Spells h (some i) [] = ⊥
Spells h (some i) (s ∷ ss) =
    (part : StringPart) × (string_part_deref h i ≡ some part)
    × (bytes part.chars 0 part.len ≡ s)
    × Spells h part.prev ss

-- The string, from its parts, the last one first.
abbrev pub join : List Bytes → Bytes
join [] = []
join (s ∷ ss) = join ss ++ s

kept_part :
    (h h' : Arena) (roots : List (Option ℕ)) (i : ℕ) (part : StringPart)
    → Counted h' roots
    → Keeps h h'
    → 0 < refs h' i + uses roots i
    → string_part_deref h i ≡ some part
    → (q : StringPart) × (string_part_deref h' i ≡ some q) × SameText part q
unfolding Keeps
kept_part h h' roots i part c k m e =
    let (q, f) = held_part h' roots i c m in
    let (p, g, (l, r, t)) = k i q f in
    let same : some p ≡ some part = cc e in
    let it : p ≡ part = ap (λ (o : Option StringPart). or_part o part) same in
    (q, f, subst (λ (x : StringPart). SameText x q) it (l, r, t))

pub Spells-held :
    (h h' : Arena) (roots : List (Option ℕ)) (r : Option ℕ) (ss : List Bytes)
    → Counted h' roots
    → Keeps h h'
    → ((i : ℕ) → hit r i ≤ refs h' i + uses roots i)
    → Spells h r ss
    → Spells h' r ss
Spells-held h h' roots none [] c k m s = tt
Spells-held h h' roots none (t ∷ ss) c k m s = s
Spells-held h h' roots (some i) [] c k m s = s
Spells-held h h' roots (some i) (t ∷ ss) c k m (part, e, spelt, before) =
    let (q, f, (l, r, d)) = kept_part h h' roots i part c k (omega (arith, m i, hit_same i)) e in
    let below : (j : ℕ) → hit part.prev j ≤ refs h' j + uses roots j =
      λ j. omega (arith, refs-points h' i j q f, ap (λ (o : Option ℕ). hit o j) r) in
    (
      q,
      f,
      ap (λ (n : ℕ). bytes q.chars 0 n) l ∙ ap (λ (x : Memory). bytes x 0 part.len) d ∙ spelt,
      subst (λ (x : Option ℕ). Spells h' x ss) (sym r)
          (Spells-held h h' roots part.prev ss c k below before),
    )

abbrev or_arena : Option Arena → Arena → Arena
or_arena none h = h
or_arena (some x) h = x

-- A reference that is held from outside is among the references.
root :
    (h : Arena) (roots : List (Option ℕ)) (i : ℕ)
    → 0 < uses roots i
    → (j : ℕ) → hit (some i) j ≤ refs h j + uses roots j
root h roots i m j = elim (ℕ_discrete i j) [
  | yes same ↦
      let u : uses roots j ≡ uses roots i = ap (λ (n : ℕ). uses roots n) (sym same) in
      omega (arith, u, hit_le (some i) j)
  | no other ↦ omega (arith, hit_other i j other)
]

-- A release leaves every string alone that another reference from outside holds: with exact counts
-- and enough fuel, what it spelt before it spells after.
pub string_part_release-Spells :
    (fuel : ℕ) (h h' : Arena) (r : Option ℕ) (roots : List (Option ℕ)) (i : ℕ) (ss : List Bytes)
    → Counted h (r ∷ roots)
    → Live h
    → used h ≤ fuel
    → string_part_release fuel h r ≡ some h'
    → 0 < uses roots i
    → Spells h (some i) ss
    → Spells h' (some i) ss
string_part_release-Spells fuel h h' r roots i ss c l u e m s =
    let (h1, f, (c1, l1, k1)) = string_part_release-Released fuel h r roots c l u in
    let same : some h1 ≡ some h' = cc in
    let it : h1 ≡ h' = ap (λ (o : Option Arena). or_arena o h1) same in
    let kept : Spells h1 (some i) ss =
      Spells-held h h1 roots (some i) ss c1 k1 (root h1 roots i m) s in
    subst (λ (x : Arena). Spells x (some i) ss) it kept
