-- ===== src/Strings/Realloc.antt =====
-- The copying of a string into a buffer that grows.
use copy.Prelude.{
  ℕ, suc, ◌+◌, ◌-◌, ◌≤◌, ◌<◌, ◌≡◌, refl, sym, ap, subst, ◌∙◌, Option, none, some, List, [], ◌∷◌,
  ◌++◌, arith, ◌==◌, length, length-append, word, get_elem?, leb, or_else_found, if_so, if_not,
  leb_of_le, leb_of_lt,
}
use native.Mathlib.Decide.{dec_lt}
use copy.Memory.{Memory, bytes, memset}
use copy.Memory.Ranges.{put}
use copy.World.{Bytes}
use copy.Strings.{Arena, string_ref_memcpy, copy_again, copy_retry, stringref_memcpy_with_realloc}
use copy.Strings.Spells.{Spells, join}
use copy.Strings.Copy.{string_ref_memcpy_large, string_ref_memcpy_small}

length-terminated : (s : Bytes) → length (s ++ 0 ∷ []) ≡ length s + 1
length-terminated s = length-append s (0 ∷ [])

bytes_of_get :
    (m : Memory) (a : ℕ) (s : Bytes)
    → ((i x : ℕ) → get_elem? s i ≡ some x → m (a + i) ≡ x)
    → bytes m a (length s) ≡ s
bytes_of_get m a [] h = refl
bytes_of_get m a (x ∷ s) h =
    let e : a + 0 ≡ a = omega arith in
    let first : m a ≡ x = rw e at (h 0 x refl) in
    let rest =
      bytes_of_get m (a + 1) s
        λ i y g. let e : a + suc i ≡ a + 1 + i = omega arith in rw e at (h (suc i) y g) in
    cc

bytes-put : (m : Memory) (a : ℕ) (s : Bytes) → bytes (put m a s) a (length s) ≡ s
bytes-put m a s =
    bytes_of_get (put m a s) a s
      λ i x g. let e : a + i - a ≡ i = omega arith in rw e (rw g (ground arith))

module _ (realloc : ℕ → ℕ → Memory → ℕ × Memory) where
  -- The result of a copy whose buffer has room for the string.
  abbrev Holds : Bytes → Option ((ℕ × ℕ) × Memory) → Type 0
  Holds t o =
      (buf : ℕ) × (bufsize : ℕ) × (m : Memory) × (o ≡ some ((buf, bufsize), m))
      × (length t + 1 ≤ bufsize)
      × (bytes m buf (length t + 1) ≡ t ++ 0 ∷ [])

  put-Holds :
      (t : Bytes) (m : Memory) (buf bufsize : ℕ)
      → length t + 1 ≤ bufsize
      → Holds t (some ((buf, bufsize), put m buf (t ++ 0 ∷ [])))
  put-Holds t m buf bufsize h = (
    buf,
    bufsize,
    put m buf (t ++ 0 ∷ []),
    refl,
    h,
    ap (λ (n : ℕ). bytes (put m buf (t ++ 0 ∷ [])) buf n) (sym (length-terminated t))
        ∙ bytes-put m buf (t ++ 0 ∷ []),
  )

  copy_again-Holds :
      (h : Arena) (fuel : ℕ) (r : Option ℕ) (buf : ℕ) (m : Memory) (ss : List Bytes)
      → Spells h r ss
      → length ss ≤ fuel
      → length (join ss) + 1 < word
      → Holds (join ss) (copy_again realloc h fuel r buf (length (join ss) + 1) m)
  copy_again-Holds h fuel r buf m ss s u w =
      let size : ℕ = length (join ss) + 1 in
      let (a, m') = realloc buf size m in
      let e = string_ref_memcpy_large h fuel r a size m' ss s u (omega arith) w in
      subst (λ (o : Option ((ℕ × ℕ) × Memory)). Holds (join ss) o)
        (sym (
          or_else_found (string_ref_memcpy h fuel r (some a) size m') _ _ e
          ∙ if_so (size == size) _ none (ground arith)))
        (put-Holds (join ss) m' a size (omega arith))

  copy_retry-Holds :
      (h : Arena) (fuel : ℕ) (r : Option ℕ) (buf bufsize : ℕ) (m : Memory) (ss : List Bytes)
      → Spells h r ss
      → length ss ≤ fuel
      → length (join ss) + 1 < word
      → (length (join ss) + 1 < bufsize → Holds (join ss) (some ((buf, bufsize), m)))
      → Holds (join ss) (copy_retry realloc h fuel r (buf, bufsize) (length (join ss) + 1) m)
  copy_retry-Holds h fuel r buf bufsize m ss s u w k =
      let size : ℕ = length (join ss) + 1 in
      elim (dec_lt size bufsize) [
        | yes big ↦
            subst (λ (o : Option ((ℕ × ℕ) × Memory)). Holds (join ss) o)
              (sym (if_not (leb bufsize size) _ _ (leb_of_lt bufsize size big))) (k big)
        | no small ↦
            subst (λ (o : Option ((ℕ × ℕ) × Memory)). Holds (join ss) o)
              (sym (if_so (leb bufsize size) _ _ (leb_of_le bufsize size (omega arith))))
              (copy_again-Holds h fuel r buf m ss s u w)
      ]

  -- Whatever the size of the buffer that is given, and wherever a new one stands, the copy returns,
  -- where the parts spell a string that fits in a word with its null byte and the fuel is enough for
  -- the parts: the buffer that it returns has room for the string and the null byte, and holds them.
  pub stringref_memcpy_with_realloc-Spells :
      (h : Arena) (fuel : ℕ) (r : Option ℕ) (buf bufsize : ℕ) (m : Memory) (ss : List Bytes)
      → Spells h r ss
      → length ss ≤ fuel
      → length (join ss) + 1 < word
      → bufsize < word
      → (buf' : ℕ) × (bufsize' : ℕ) × (m' : Memory) × (stringref_memcpy_with_realloc realloc h fuel
            r
            (buf, bufsize)
            m
          ≡ some ((buf', bufsize'), m'))
        × (length (join ss) + 1 ≤ bufsize')
        × (bytes m' buf' (length (join ss) + 1) ≡ join ss ++ 0 ∷ [])
  unfolding stringref_memcpy_with_realloc
  stringref_memcpy_with_realloc-Spells h fuel r buf bufsize m ss s u w b =
      let size : ℕ = length (join ss) + 1 in
      let m0 : Memory = memset m buf 0 bufsize in
      elim (dec_lt bufsize size) [
        | yes small ↦
            subst (λ (o : Option ((ℕ × ℕ) × Memory)). Holds (join ss) o)
              (sym (
                or_else_found (string_ref_memcpy h fuel r (some buf) bufsize m0) (size, m0) _
                  (string_ref_memcpy_small h fuel r buf bufsize m0 ss s u small w)))
              (copy_retry-Holds h fuel r buf bufsize m0 ss s u w λ big. absurd (omega arith))
        | no big ↦
            let m1 : Memory = put m0 buf (join ss ++ 0 ∷ []) in
            subst (λ (o : Option ((ℕ × ℕ) × Memory)). Holds (join ss) o)
              (sym (
                or_else_found (string_ref_memcpy h fuel r (some buf) bufsize m0) (size, m1) _
                  (string_ref_memcpy_large h fuel r buf bufsize m0 ss s u (omega arith) b)))
              (copy_retry-Holds h fuel r buf bufsize m1 ss s u w
                λ big. put-Holds (join ss) m0 buf bufsize (omega arith))
      ]
