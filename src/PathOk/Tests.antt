-- ===== src/PathOk/Tests.antt =====
-- `path_ok` on concrete paths.
use copy.Prelude.{ℕ, none, some, not, ◌&&◌, ◌==◌, [], ◌∷◌, ◌≡◌, false}
use copy.PathOk.{slash, dot, path_ok}
use copy.PathOk.Components.{has_dots, path_ok_components}

path_ok_components_example :
    (path_ok none ≡ false)
    × (path_ok (some []) ≡ false)
    × ((c : ℕ)
        → path_ok (some (c ∷ slash ∷ dot ∷ dot ∷ []))
          ≡ (not (c == slash) && not (has_dots (c ∷ slash ∷ dot ∷ dot ∷ []))))
path_ok_components_example = path_ok_components (slash ∷ dot ∷ dot ∷ [])
