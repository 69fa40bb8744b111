-- ===== src/Strings/Keeps.antt =====
-- What becomes of the texts of parts when their counts change or parts go.
use copy.Prelude.{ℕ, ◌≡◌, refl, sym, ap, ◌∙◌, Option, none, some, set}
use native.Mathlib.Decide.{ℕ_discrete}
use copy.Strings.{StringPart, Arena, string_part_deref}
use copy.Strings.Counts.{deref-set_same, deref-set_other}

-- The string of a part, and the reference to the part before.
abbrev pub SameText : StringPart → StringPart → Type 0
SameText p q = (q.len ≡ p.len) × (q.prev ≡ p.prev) × (q.chars ≡ p.chars)

-- What is still a part has the text that it had.
unfoldable pub Keeps : Arena → Arena → Type 0
Keeps h h' =
    (i : ℕ) (q : StringPart)
    → string_part_deref h' i ≡ some q
    → (p : StringPart) × (string_part_deref h i ≡ some p) × SameText p q

pub Keeps-refl : (h : Arena) → Keeps h h
unfolding Keeps
Keeps-refl h i q e = (q, e, (refl, refl, refl))

pub Keeps-trans : (h1 h2 h3 : Arena) → Keeps h1 h2 → Keeps h2 h3 → Keeps h1 h3
unfolding Keeps
Keeps-trans h1 h2 h3 a b i q e =
    let (p, f, (l, r, c)) = b i q e in
    let (o, g, (l', r', c')) = a i p f in (o, g, (l ∙ l', r ∙ r', c ∙ c'))

pub free_part-Keeps :
    (h : Arena) (i : ℕ) (part : StringPart)
    → string_part_deref h i ≡ some part
    → Keeps h (set h i none)
unfolding Keeps
free_part-Keeps h i part e j q f = elim (ℕ_discrete i j) [
  | yes same ↦ absurd (cc (deref-set_same h i part none e))
  | no other ↦ (q, sym (deref-set_other h i j none other) ∙ f, (refl, refl, refl))
]

abbrev pub or_part : Option StringPart → StringPart → StringPart
or_part none q = q
or_part (some p) q = p

pub recount-Keeps :
    (h : Arena) (i n : ℕ) (part : StringPart)
    → string_part_deref h i ≡ some part
    → Keeps h (set h i (some (record part { rc = n })))
unfolding Keeps
recount-Keeps h i n part e j q f = elim (ℕ_discrete i j) [
  | yes same ↦
      let part' : StringPart = record part { rc = n } in
      let now : some part' ≡ some q = cc (deref-set_same h i part (some part') e) in
      let it : part' ≡ q = ap (λ (o : Option StringPart). or_part o q) now in
      (
        part,
        cc e,
        (
          sym (ap (λ (x : StringPart). x.len) it),
          sym (ap (λ (x : StringPart). x.prev) it),
          sym (ap (λ (x : StringPart). x.chars) it),
        ),
      )
  | no other ↦ (q, sym (deref-set_other h i j _ other) ∙ f, (refl, refl, refl))
]
