-- ===== src/Strings/Release.antt =====
-- The release of a string: which parts go, and what the others keep.
use copy.Prelude.{
  ℕ, zero, suc, ◌+◌, ◌-◌, ◌≤◌, ◌<◌, ◌≡◌, refl, sym, ap, subst, ◌∙◌, inl, inr, Option, none, some,
  Option-cases, List, ◌∷◌, arith, set, or_else_found,
}
use native.Mathlib.Decide.{ℕ_discrete, dec_le}
use copy.Strings.{StringPart, Arena, string_part_deref, release_part, string_part_release}
use copy.Strings.Counts.{
  hit, refs, uses, rc_of, used, Counted, Live, hit_same, hit_other, deref-set_same, deref-set_other,
  refs-set, used-free, slot-deref,
}
use copy.Strings.Keeps.{Keeps, Keeps-refl, Keeps-trans, free_part-Keeps, recount-Keeps}

-- The last reference goes, and its part with it: the reference that the part holds is the caller's.
free_part-Counted :
    (h : Arena) (roots : List (Option ℕ)) (i : ℕ) (part : StringPart)
    → string_part_deref h i ≡ some part
    → part.rc ≤ 1
    → Counted h (some i ∷ roots)
    → Counted (set h i none) (part.prev ∷ roots)
unfolding Counted
free_part-Counted h roots i part e one c j =
    let moved = refs-set h i j (some part) none (slot-deref h i part e) in
    let here : rc_of (string_part_deref h i) ≡ part.rc = ap rc_of e in
    elim (ℕ_discrete i j) [
      | yes same ↦
          let gone : rc_of (string_part_deref (set h i none) j) ≡ 0 =
            rw (sym same) (ap rc_of (deref-set_same h i part none e)) in
          let before : rc_of (string_part_deref h j) ≡ part.rc = rw (sym same) here in
          let held : hit (some i) j ≡ 1 = rw (sym same) (hit_same i) in
          omega (arith, gone, before, held, moved, c j)
      | no other ↦
          let kept : rc_of (string_part_deref (set h i none) j) ≡ rc_of (string_part_deref h j) =
            ap rc_of (deref-set_other h i j none other) in
          omega (arith, kept, hit_other i j other, moved, c j)
    ]

-- One of several references goes.
unref_part-Counted :
    (h : Arena) (roots : List (Option ℕ)) (i : ℕ) (part : StringPart)
    → string_part_deref h i ≡ some part
    → 1 < part.rc
    → Counted h (some i ∷ roots)
    → Counted (set h i (some (record part { rc = part.rc - 1 }))) roots
unfolding Counted
unref_part-Counted h roots i part e more c j =
    let part' : StringPart = record part { rc = part.rc - 1 } in
    let moved = refs-set h i j (some part) (some part') (slot-deref h i part e) in
    let here : rc_of (string_part_deref h i) ≡ part.rc = ap rc_of e in
    elim (ℕ_discrete i j) [
      | yes same ↦
          let now : rc_of (string_part_deref (set h i (some part')) j) ≡ part.rc - 1 =
            rw (sym same) (ap rc_of (deref-set_same h i part (some part') e)) in
          let before : rc_of (string_part_deref h j) ≡ part.rc = rw (sym same) here in
          let held : hit (some i) j ≡ 1 = rw (sym same) (hit_same i) in
          omega (arith, now, before, held, moved, c j)
      | no other ↦
          let kept : rc_of (string_part_deref (set h i (some part')) j)
              ≡ rc_of (string_part_deref h j) =
            ap rc_of (deref-set_other h i j (some part') other) in
          omega (arith, kept, hit_other i j other, moved, c j)
    ]

free_part-Live :
    (h : Arena) (i : ℕ) (part : StringPart)
    → string_part_deref h i ≡ some part
    → Live h
    → Live (set h i none)
unfolding Live
free_part-Live h i part e l j q f = elim (ℕ_discrete i j) [
  | yes same ↦ absurd (cc (deref-set_same h i part none e))
  | no other ↦ l j q (sym (deref-set_other h i j none other) ∙ f)
]

unref_part-Live :
    (h : Arena) (i : ℕ) (part part' : StringPart)
    → string_part_deref h i ≡ some part
    → 0 < part'.rc
    → Live h
    → Live (set h i (some part'))
unfolding Live
unref_part-Live h i part part' e m l j q f = elim (ℕ_discrete i j) [
  | yes same ↦
      let now : some part' ≡ some q = cc (deref-set_same h i part (some part') e) in
      subst (λ n. 0 < n) (ap rc_of now) m
  | no other ↦ l j q (sym (deref-set_other h i j (some part') other) ∙ f)
]

-- What a release does to the arena, the reference that it is given being given up.
abbrev pub Released : Arena → List (Option ℕ) → Arena → Type 0
Released h roots h' = Counted h' roots × Live h' × Keeps h h'

-- A slot that is referred to holds a part.
pub held_part :
    (h : Arena) (roots : List (Option ℕ)) (i : ℕ)
    → Counted h roots
    → 0 < refs h i + uses roots i
    → (part : StringPart) × (string_part_deref h i ≡ some part)
unfolding Counted
held_part h roots i c m = elim (Option-cases (string_part_deref h i)) [
  | inl e ↦ let f : rc_of (string_part_deref h i) ≡ 0 = ap rc_of e in absurd (omega (arith, f, c i))
  | inr found ↦ found
]

last_part :
    (next : Arena → Option ℕ → Option Arena) (h : Arena) (i : ℕ) (part : StringPart)
    → part.rc ≡ 1
    → release_part next h i part ≡ next (set h i none) part.prev
last_part next h i part e = ground arith

shared_part :
    (next : Arena → Option ℕ → Option Arena) (h : Arena) (i : ℕ) (part : StringPart)
    → 1 < part.rc
    → release_part next h i part ≡ some (set h i (some (record part { rc = part.rc - 1 })))
shared_part next h i part e = ground arith

part-Released :
    (fuel : ℕ) (h : Arena) (roots : List (Option ℕ)) (i : ℕ) (part : StringPart)
    → ((h1 : Arena)
        → Counted h1 (part.prev ∷ roots)
        → Live h1
        → used h1 ≤ fuel
        → (h' : Arena) × (string_part_release fuel h1 part.prev ≡ some h') × Released h1 roots h')
    → Counted h (some i ∷ roots)
    → Live h
    → used h ≤ suc fuel
    → string_part_deref h i ≡ some part
    → (h' : Arena) × (string_part_release (suc fuel) h (some i) ≡ some h') × Released h roots h'
unfolding string_part_release Live
part-Released fuel h roots i part below c l u e =
    let step =
      or_else_found (string_part_deref h i) part (release_part (string_part_release fuel) h i) e in
    elim (dec_le part.rc 1) [
      | yes one ↦
          let (h', f, (c', l', k)) =
            below (set h i none) (free_part-Counted h roots i part e one c)
              (free_part-Live h i part e l) (omega (arith, used-free h i part e)) in
          (
            h',
            step ∙ last_part (string_part_release fuel) h i part (omega (arith, l i part e)) ∙ f,
            (c', l', Keeps-trans h (set h i none) h' (free_part-Keeps h i part e) k),
          )
      | no more ↦
          let shared : 1 < part.rc = omega arith in
          let part' : StringPart = record part { rc = part.rc - 1 } in
          (
            set h i (some part'),
            step ∙ shared_part (string_part_release fuel) h i part shared,
            (
              unref_part-Counted h roots i part e shared c,
              unref_part-Live h i part part' e (omega arith) l,
              recount-Keeps h i (part.rc - 1) part e,
            ),
          )
    ]

pub string_part_release-Released :
    (fuel : ℕ) (h : Arena) (r : Option ℕ) (roots : List (Option ℕ))
    → Counted h (r ∷ roots)
    → Live h
    → used h ≤ fuel
    → (h' : Arena) × (string_part_release fuel h r ≡ some h') × Released h roots h'
unfolding string_part_release Counted
string_part_release-Released fuel h none roots c l u =
    (h, refl, (λ i. omega (arith, c i), l, Keeps-refl h))
string_part_release-Released zero h (some i) roots c l u =
    let (part, e) = held_part h (some i ∷ roots) i c (omega (arith, hit_same i)) in
    absurd (omega (arith, used-free h i part e))
string_part_release-Released (suc fuel) h (some i) roots c l u =
    let (part, e) = held_part h (some i ∷ roots) i c (omega (arith, hit_same i)) in
    part-Released fuel h roots i part
      (λ h1 c1 l1 u1. string_part_release-Released fuel h1 part.prev roots c1 l1 u1) c l u e

-- With exact counts and enough fuel for the parts there are, a release of a reference that is held
-- returns: the counts are exact for the other references, and no part is left that nothing refers
-- to, so that no part goes while a reference to it is held, and none stays after its last one.
pub string_part_release-Counted :
    (fuel : ℕ) (h : Arena) (r : Option ℕ) (roots : List (Option ℕ))
    → Counted h (r ∷ roots)
    → Live h
    → used h ≤ fuel
    → (h' : Arena) × (string_part_release fuel h r ≡ some h') × Counted h' roots × Live h'
string_part_release-Counted fuel h r roots c l u =
    let (h', e, (c', l', k)) = string_part_release-Released fuel h r roots c l u in (h', e, c', l')
