-- ===== src/Strings/Build.antt =====
-- A new string part: the counts, and what it spells.
use copy.Prelude.{
  ℕ, ◌+◌, ◌<◌, ◌≡◌, refl, sym, ap, subst, ◌∙◌, Option, none, some, List, [], ◌∷◌, ◌++◌, arith,
  length, word, get_elem?, set, add64, ◌≢◌, inl, or_else_none, or_else_found,
}
use native.Mathlib.Decide.{ℕ_discrete}
use copy.Memory.{Memory, bytes, memcpy}
use copy.Memory.Ranges.{bytes-append, bytes-cong, memcpy_outside, bytes-memcpy}
use copy.World.{Bytes}
use copy.Strings.{
  StringPart, Arena, string_part_deref, string_part_rc_inc, new_part, to_string_part,
}
use copy.Strings.Counts.{
  hit, uses, rc_of, Counted, Live, hit_same, hit_other, deref-set_same, deref-set_other,
  deref-set_free, refs-set, slot-deref, rc-lt_word,
}
use copy.Strings.Keeps.{or_part, recount-Keeps}
use copy.Strings.Release.{held_part}
use copy.Strings.Spells.{Spells, Spells-held}

-- A reference that is null or held from outside.
abbrev pub Held : List (Option ℕ) → Option ℕ → Type 0
Held roots none = Unit {0}
Held roots (some i) = 0 < uses roots i

-- One more reference to a part.
ref_part-Counted :
    (h : Arena) (roots : List (Option ℕ)) (i : ℕ) (part : StringPart)
    → string_part_deref h i ≡ some part
    → Counted h roots
    → Counted (set h i (some (record part { rc = part.rc + 1 }))) (some i ∷ roots)
unfolding Counted
ref_part-Counted h roots i part e c j =
    let part' : StringPart = record part { rc = part.rc + 1 } in
    let moved = refs-set h i j (some part) (some part') (slot-deref h i part e) in
    let here : rc_of (string_part_deref h i) ≡ part.rc = ap rc_of e in
    elim (ℕ_discrete i j) [
      | yes same ↦
          let now : rc_of (string_part_deref (set h i (some part')) j) ≡ part.rc + 1 =
            rw (sym same) (ap rc_of (deref-set_same h i part (some part') e)) in
          let before : rc_of (string_part_deref h j) ≡ part.rc = rw (sym same) here in
          let held : hit (some i) j ≡ 1 = rw (sym same) (hit_same i) in
          omega (arith, now, before, held, moved, c j)
      | no other ↦
          let kept : rc_of (string_part_deref (set h i (some part')) j)
              ≡ rc_of (string_part_deref h j) =
            ap rc_of (deref-set_other h i j (some part') other) in
          omega (arith, kept, hit_other i j other, moved, c j)
    ]

-- A new part in a free slot, with the reference to the part before it that was its maker's.
place_part-Counted :
    (h : Arena) (roots : List (Option ℕ)) (i : ℕ) (part : StringPart)
    → get_elem? h i ≡ some none
    → part.rc ≡ 1
    → Counted h (part.prev ∷ roots)
    → Counted (set h i (some part)) (some i ∷ roots)
unfolding Counted
place_part-Counted h roots i part e one c j =
    let moved = refs-set h i j none (some part) e in
    let here : rc_of (string_part_deref h i) ≡ 0 =
      ap (λ (o : Option (Option StringPart)). rc_of (or_else_none o λ x. x)) e in
    elim (ℕ_discrete i j) [
      | yes same ↦
          let now : rc_of (string_part_deref (set h i (some part)) j) ≡ part.rc =
            rw (sym same) (ap rc_of (deref-set_free h i none (some part) e)) in
          let before : rc_of (string_part_deref h j) ≡ 0 = rw (sym same) here in
          let held : hit (some i) j ≡ 1 = rw (sym same) (hit_same i) in
          omega (arith, now, before, held, moved, c j, one)
      | no other ↦
          let kept : rc_of (string_part_deref (set h i (some part)) j)
              ≡ rc_of (string_part_deref h j) =
            ap rc_of (deref-set_other h i j (some part) other) in
          omega (arith, kept, hit_other i j other, moved, c j)
    ]

-- A write to a free slot changes no string.
place_part-Spells :
    (h : Arena) (i : ℕ) (v : Option StringPart) (r : Option ℕ) (ss : List Bytes)
    → get_elem? h i ≡ some none
    → Spells h r ss
    → Spells (set h i v) r ss
place_part-Spells h i v none [] e s = s
place_part-Spells h i v none (t ∷ ss) e s = s
place_part-Spells h i v (some j) [] e s = s
place_part-Spells h i v (some j) (t ∷ ss) e (part, f, spelt, before) =
    let apart : i ≢ j = λ same. (cc (slot-deref h j part f)) in
    (part, deref-set_other h i j v apart ∙ f, spelt, place_part-Spells h i v part.prev ss e before)

write-Live :
    (h : Arena) (i : ℕ) (part : StringPart) (w : Option StringPart)
    → get_elem? h i ≡ some w
    → 0 < part.rc
    → Live h
    → Live (set h i (some part))
unfolding Live
write-Live h i part w e m l j q f = elim (ℕ_discrete i j) [
  | yes same ↦
      let now : some part ≡ some q = cc (deref-set_free h i w (some part) e) in
      let it : part ≡ q = ap (λ (o : Option StringPart). or_part o q) now in
      subst (λ (x : StringPart). 0 < x.rc) it m
  | no other ↦ l j q (sym (deref-set_other h i j (some part) other) ∙ f)
]

-- The bytes of the new part are those of the two strings.
new_bytes :
    (s1 s2 : Memory) (a1 len1 a2 len2 : ℕ)
    → bytes (memcpy (memcpy (λ p. 0) 0 s1 a1 len1) len1 s2 a2 len2) 0 (len1 + len2)
      ≡ bytes s1 a1 len1 ++ bytes s2 a2 len2
new_bytes s1 s2 a1 len1 a2 len2 =
    let m : Memory = memcpy (λ p. 0) 0 s1 a1 len1 in
    let m' : Memory = memcpy m len1 s2 a2 len2 in
    let low : bytes m' 0 len1 ≡ bytes m 0 len1 =
      bytes-cong m' m 0 0 len1
        λ i p. memcpy_outside m s2 len1 a2 len2 (0 + i) (inl (omega arith)) in
    let high : bytes m' len1 len2 ≡ bytes s2 a2 len2 = bytes-memcpy m s2 len1 a2 len2 in
    let e : 0 + len1 ≡ len1 = omega arith in
    let high' : bytes m' (0 + len1) len2 ≡ bytes s2 a2 len2 = rw e high in
    let low' : bytes m 0 len1 ≡ bytes s1 a1 len1 = bytes-memcpy (λ p. 0) s1 0 a1 len1 in
    cc (bytes-append m' 0 len1 len2)

-- What the reference to the part before is worth after its count is raised.
raised :
    (h : Arena) (roots : List (Option ℕ)) (tip : Option ℕ) (ss : List Bytes)
    → Counted h roots
    → Live h
    → length h + length roots + 1 < word
    → Held roots tip
    → Spells h tip ss
    → (h1 : Arena) × (string_part_rc_inc h tip ≡ some h1)
      × Counted h1 (tip ∷ roots)
      × Live h1
      × Spells h1 tip ss
unfolding Counted
raised h roots none ss c l b held s = (h, refl, (λ i. omega (arith, c i)), l, s)
raised h roots (some i) ss c l b held s =
    let (part, e) = held_part h roots i c (omega arith) in
    let small = rc-lt_word h roots i part c b e in
    let sum : add64 part.rc 1 ≡ part.rc + 1 = omega arith in
    let h1 : Arena = set h i (some (record part { rc = part.rc + 1 })) in
    let counted = ref_part-Counted h roots i part e c in
    (
      h1,
      or_else_found (string_part_deref h i) part
            (λ (x : StringPart). some (set h i (some (record x { rc = add64 x.rc 1 })))) e
          ∙ ap (λ (n : ℕ). some (set h i (some (record part { rc = n })))) sum,
      counted,
      write-Live h i (record part { rc = part.rc + 1 }) (some part) (slot-deref h i part e)
          (omega arith) l,
      Spells-held h h1 (some i ∷ roots) (some i) ss counted (recount-Keeps h i (part.rc + 1) part e)
          (λ j. omega arith) s,
    )

module _ (allocate : Arena → ℕ → Option ℕ) (header : ℕ) where
  -- With exact counts, a null tip or one that is held, a part whose size with its header and null
  -- byte is below 2 ^ 64, and an allocator that finds a free slot for that size once the count of the
  -- tip is raised, a new part is made: the counts are exact with the
  -- reference to it that the caller gets, no part is without a reference, and the string at the new
  -- reference is that of the tip followed by the two that were given.
  pub to_string_part-Spells :
      (h : Arena) (roots : List (Option ℕ)) (tip : Option ℕ) (ss : List Bytes) (s1 : Memory)
      (a1 len1 : ℕ) (s2 : Memory) (a2 len2 : ℕ)
      → Counted h roots
      → Live h
      → length h + length roots + 1 < word
      → Held roots tip
      → Spells h tip ss
      → header + len1 + len2 + 1 < word
      → ((h1 : Arena)
          → string_part_rc_inc h tip ≡ some h1
          → (i : ℕ) × (allocate h1 (header + len1 + len2 + 1) ≡ some i)
            × (get_elem? h1 i ≡ some none))
      → (h' : Arena) × (r : Option ℕ) × (to_string_part allocate header h tip s1 a1 len1 s2 a2 len2
          ≡ some (h', r))
        × Counted h' (r ∷ roots)
        × Live h'
        × Spells h' r ((bytes s1 a1 len1 ++ bytes s2 a2 len2) ∷ ss)
  unfolding to_string_part
  to_string_part-Spells h roots tip ss s1 a1 len1 s2 a2 len2 c l b held s fits found =
      let (h1, e, c1, l1, s1') = raised h roots tip ss c l b held s in
      let (i, f, free) = found h1 e in
      let sum : add64 len1 len2 ≡ len1 + len2 = omega arith in
      let size : add64 (add64 (add64 header len1) len2) 1 ≡ header + len1 + len2 + 1 =
        omega arith in
      let part : StringPart = new_part tip s1 a1 len1 s2 a2 len2 in
      (
        set h1 i (some part),
        some i,
        or_else_found (string_part_rc_inc h tip) h1 _ e
            ∙ or_else_found (allocate h1 (add64 (add64 (add64 header len1) len2) 1)) i _
                (ap (λ (n : ℕ). allocate h1 n) size ∙ f),
        place_part-Counted h1 roots i part free refl c1,
        write-Live h1 i part none free (omega arith) l1,
        (
          part,
          deref-set_free h1 i none (some part) free,
          ap (λ (n : ℕ). bytes part.chars 0 n) sum ∙ new_bytes s1 s2 a1 len1 a2 len2,
          place_part-Spells h1 i (some part) tip ss free s1',
        ),
      )
