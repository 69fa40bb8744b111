-- ===== src/Strings/Copy.antt =====
-- The copying of a string out of its parts.
use copy.Prelude.{
  ℕ, zero, suc, ◌+◌, ◌-◌, ◌≤◌, ◌<◌, ◌≡◌, refl, sym, ap, ◌∙◌, ◌⊎◌, inr, true, Option, none, some,
  List, [], ◌∷◌, ◌++◌, arith, ◌==◌, length, length-append, word, add64, sub64, ltb, leb,
  or_else_found, if_so, if_not, leb_of_le, leb_of_lt, if◌then◌else◌, ltb_of_le, ltb_of_lt,
}
use native.Mathlib.Decide.{dec_lt}
use copy.Memory.{Memory, bytes, memcpy, memset}
use copy.Memory.Ranges.{
  bytes-append, bytes-cong, memcpy_outside, bytes-memcpy, length-bytes, put, put_unique,
}
use copy.World.{Bytes}
use copy.Strings.{
  StringPart, Arena, string_part_deref, count_bytes, copy_parts, copy_string, terminate,
  string_ref_memcpy,
}
use copy.Strings.Spells.{Spells, join}

-- The length of a string, from its last part.
length-join :
    (part : StringPart) (s : Bytes) (ss : List Bytes)
    → bytes part.chars 0 part.len ≡ s
    → length (join (s ∷ ss)) ≡ length (join ss) + part.len
length-join part s ss e =
    let l : length s ≡ part.len =
      ap (λ (x : Bytes). length x) (sym e) ∙ length-bytes part.chars 0 part.len in
    omega (arith, length-append (join ss) s, l)

count_bytes-Spells :
    (h : Arena) (fuel : ℕ) (r : Option ℕ) (size : ℕ) (ss : List Bytes)
    → Spells h r ss
    → length ss ≤ fuel
    → size + length (join ss) < word
    → count_bytes h fuel r size ≡ some (size + length (join ss))
unfolding count_bytes
count_bytes-Spells h fuel none size [] s u b = let e : size + 0 ≡ size = omega arith in rw e refl
count_bytes-Spells h fuel none size (t ∷ ss) s u b = absurd s
count_bytes-Spells h fuel (some i) size [] s u b = absurd s
count_bytes-Spells h zero (some i) size (t ∷ ss) s u b = absurd (omega arith)
count_bytes-Spells h (suc fuel) (some i) size (t ∷ ss) (part, e, spelt, before) u b =
    let l = length-join part t ss spelt in
    let a : add64 size part.len ≡ size + part.len = omega (arith, l) in
    let sum : add64 size part.len + length (join ss) ≡ size + length (join (t ∷ ss)) =
      omega (arith, l, a) in
    or_else_found (string_part_deref h i) part _ e
    ∙ count_bytes-Spells h fuel part.prev (add64 size part.len) ss before (omega arith)
        (omega (arith, l, a))
    ∙ ap (λ (n : ℕ). some n) sum

-- A range of the memory holds a string, and nothing else changes.
abbrev Written : Memory → ℕ → Bytes → Memory → Type 0
Written m a s m' =
    (bytes m' a (length s) ≡ s) × ((p : ℕ) → (p < a) ⊎ (a + length s ≤ p) → m' p ≡ m p)

-- A part written after the place of the parts before it.
Written-append :
    (m m' : Memory) (a b : ℕ) (s t : Bytes) (c : Memory) (n : ℕ)
    → b ≡ a + length s
    → bytes c 0 n ≡ t
    → Written (memcpy m b c 0 n) a s m'
    → Written m a (s ++ t) m'
Written-append m m' a b s t c n place spelt (low, frame) =
    let len : n ≡ length t = sym (length-bytes c 0 n) ∙ ap (λ (x : Bytes). length x) spelt in
    let mid : Memory = memcpy m b c 0 n in
    let high : bytes m' b n ≡ bytes mid b n =
      bytes-cong m' mid b b n λ i p. frame (b + i) (inr (omega arith)) in
    let high' : bytes m' b n ≡ t = high ∙ bytes-memcpy m c b 0 n ∙ spelt in
    let high'' : bytes m' (a + length s) (length t) ≡ t = rw place at (rw len at high') in
    let whole = length-append s t in
    (
      (ap (λ (k : ℕ). bytes m' a k) whole ∙ bytes-append m' a (length s) (length t))
          ∙ (ap (λ (x : Bytes). x ++ bytes m' (a + length s) (length t)) low
              ∙ ap (λ (x : Bytes). s ++ x) high''),
      λ p out. frame p (ground (arith, whole)) ∙ memcpy_outside m c b 0 n p (ground (arith, whole)),
    )

copy_parts-Written :
    (h : Arena) (fuel : ℕ) (r : Option ℕ) (buf bufsize size it : ℕ) (m : Memory) (ss : List Bytes)
    → Spells h r ss
    → length ss ≤ fuel
    → it + length (join ss) + 1 ≡ size
    → size ≤ bufsize
    → bufsize < word
    → (m' : Memory) × (copy_parts h fuel r buf bufsize size it m ≡ some m')
      × Written m buf (join ss) m'
unfolding copy_parts
copy_parts-Written h fuel none buf bufsize size it m [] s u e b w = (m, refl, (refl, λ p out. refl))
copy_parts-Written h fuel none buf bufsize size it m (t ∷ ss) s u e b w = absurd s
copy_parts-Written h fuel (some i) buf bufsize size it m [] s u e b w = absurd s
copy_parts-Written h zero (some i) buf bufsize size it m (t ∷ ss) s u e b w = absurd (omega arith)
copy_parts-Written h (suc fuel) (some i) buf bufsize size it m (t ∷ ss) (part, f, spelt, before) u e
      b w =
    let l = length-join part t ss spelt in
    let it' : ℕ = add64 it part.len in
    let a : it' ≡ it + part.len = omega (arith, l) in
    let place : buf + size - it' - 1 ≡ buf + length (join ss) = omega (arith, l, a) in
    let fits : leb (add64 (sub64 (sub64 size it') 1) part.len) bufsize ≡ true =
      let v : add64 (sub64 (sub64 size it') 1) part.len ≡ length (join ss) + part.len =
        omega (arith, l, a) in
      rw v (leb_of_le (length (join ss) + part.len) bufsize (omega (arith, l))) in
    let mid : Memory = memcpy m (buf + size - it' - 1) part.chars 0 part.len in
    let (m', g, written) =
      copy_parts-Written h fuel part.prev buf bufsize size it' mid ss before (omega arith)
        (omega (arith, l, a)) b w in
    (
      m',
      or_else_found (string_part_deref h i) part _ f ∙ if_so _ _ none fits ∙ g,
      Written-append m m' buf (buf + size - it' - 1) (join ss) t part.chars part.len place spelt
          written,
    )

-- The null byte, after the string.
terminate-put :
    (m m' : Memory) (buf size : ℕ) (s : Bytes)
    → length s + 1 ≡ size
    → Written m buf s m'
    → terminate buf size m' ≡ put m buf (s ++ 0 ∷ [])
terminate-put m m' buf size s e written =
    let m'' : Memory = terminate buf size m' in
    let (low, frame) = written in
    let low' : bytes m'' buf (length s) ≡ s =
      bytes-cong m'' m' buf buf (length s) (λ i p. ground arith) ∙ low in
    let high : bytes m'' (buf + length s) 1 ≡ 0 ∷ [] =
      let zero_byte : m'' (buf + length s) ≡ 0 = ground arith in ap (λ (b : ℕ). b ∷ []) zero_byte in
    let whole = length-append s (0 ∷ []) in
    put_unique m m'' buf (s ++ 0 ∷ [])
      (ap (λ (k : ℕ). bytes m'' buf k) whole
        ∙ bytes-append m'' buf (length s) 1
        ∙ (ap (λ (x : Bytes). x ++ bytes m'' (buf + length s) 1) low'
            ∙ ap (λ (x : Bytes). s ++ x) high))
      (λ p out. let f = frame p (ground (arith, whole)) in ground (arith, whole))

null_byte : (m : Memory) (buf : ℕ) → memset m buf 0 1 ≡ put m buf (0 ∷ [])
null_byte m buf =
    let e : buf ≡ buf + 1 - 1 = omega arith in
    ap (λ (a : ℕ). memset m a 0 1) e ∙ terminate-put m m buf 1 [] refl (refl, λ p out. refl)

-- A buffer of at least the size of the string then holds it with a null byte.
pub string_ref_memcpy_large :
    (h : Arena) (fuel : ℕ) (r : Option ℕ) (buf bufsize : ℕ) (m : Memory) (ss : List Bytes)
    → Spells h r ss
    → length ss ≤ fuel
    → length (join ss) + 1 ≤ bufsize
    → bufsize < word
    → string_ref_memcpy h fuel r (some buf) bufsize m
      ≡ some (length (join ss) + 1, put m buf (join ss ++ 0 ∷ []))
unfolding string_ref_memcpy
string_ref_memcpy_large h fuel none buf bufsize m [] s u b w =
    ap (λ (x : Memory). some (1, x))
      (if_not (bufsize == 0) m (memset m buf 0 1) (ground arith) ∙ null_byte m buf)
string_ref_memcpy_large h fuel none buf bufsize m (t ∷ ss) s u b w = absurd s
string_ref_memcpy_large h fuel (some i) buf bufsize m ss s u b w =
    let size : ℕ = length (join ss) + 1 in
    let (m', e, written) =
      copy_parts-Written h fuel (some i) buf bufsize size 0 m ss s u (omega arith) b w in
    let n : add64 (0 + length (join ss)) 1 ≡ size = omega arith in
    or_else_found (count_bytes h fuel (some i) 0) (0 + length (join ss)) _
      (count_bytes-Spells h fuel (some i) 0 ss s u (omega arith))
    ∙ ap (λ (k : ℕ). copy_string h fuel (some i) (some buf) bufsize m k) n
    ∙ if_not (ltb bufsize size) _ _ (ltb_of_le bufsize size b)
    ∙ or_else_found (copy_parts h fuel (some i) buf bufsize size 0 m) m' _ e
    ∙ ap (λ (x : Memory). some (size, x)) (terminate-put m m' buf size (join ss) refl written)

-- A buffer that is too small, or none, is not written to, and the size is returned all the same.
pub string_ref_memcpy_small :
    (h : Arena) (fuel : ℕ) (r : Option ℕ) (buf bufsize : ℕ) (m : Memory) (ss : List Bytes)
    → Spells h r ss
    → length ss ≤ fuel
    → bufsize < length (join ss) + 1
    → length (join ss) + 1 < word
    → string_ref_memcpy h fuel r (some buf) bufsize m ≡ some (length (join ss) + 1, m)
unfolding string_ref_memcpy
string_ref_memcpy_small h fuel none buf bufsize m [] s u b w =
    ap (λ (x : Memory). some (1, x)) (if_so (bufsize == 0) m (memset m buf 0 1) (ground arith))
string_ref_memcpy_small h fuel none buf bufsize m (t ∷ ss) s u b w = absurd s
string_ref_memcpy_small h fuel (some i) buf bufsize m ss s u b w =
    let size : ℕ = length (join ss) + 1 in
    let n : add64 (0 + length (join ss)) 1 ≡ size = omega arith in
    or_else_found (count_bytes h fuel (some i) 0) (0 + length (join ss)) _
      (count_bytes-Spells h fuel (some i) 0 ss s u (omega arith))
    ∙ ap (λ (k : ℕ). copy_string h fuel (some i) (some buf) bufsize m k) n
    ∙ if_so (ltb bufsize size) _ _ (ltb_of_lt bufsize size b)

-- Where the parts spell a string whose size with the null byte fits in a word, and the fuel is enough
-- for the parts, the copy returns that size, for a buffer of any size that fits in a word. A buffer of
-- at least that size then holds the string and a null byte, and no other byte has changed; a smaller
-- one leaves all memory as it was.
pub string_ref_memcpy-Spells :
    (h : Arena) (fuel : ℕ) (r : Option ℕ) (buf bufsize : ℕ) (m : Memory) (ss : List Bytes)
    → Spells h r ss
    → length ss ≤ fuel
    → length (join ss) + 1 < word
    → bufsize < word
    → string_ref_memcpy h fuel r (some buf) bufsize m
      ≡ some (
        length (join ss) + 1,
        if leb (length (join ss) + 1) bufsize then put m buf (join ss ++ 0 ∷ []) else m,
      )
string_ref_memcpy-Spells h fuel r buf bufsize m ss s u w b =
    let size : ℕ = length (join ss) + 1 in
    let full : Memory = put m buf (join ss ++ 0 ∷ []) in
    elim (dec_lt bufsize size) [
      | yes small ↦
          string_ref_memcpy_small h fuel r buf bufsize m ss s u small w
          ∙ ap (λ (x : Memory). some (size, x))
              (sym (if_not (leb size bufsize) full m (leb_of_lt size bufsize small)))
      | no large ↦
          string_ref_memcpy_large h fuel r buf bufsize m ss s u (omega arith) b
          ∙ ap (λ (x : Memory). some (size, x))
              (sym (if_so (leb size bufsize) full m (leb_of_le size bufsize (omega arith))))
    ]
