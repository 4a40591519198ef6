-- ===== src/WebEngine/Examples.antt =====
-- The injection at concrete documents.
use bumshi.Common.{none, some, [], ◌∷◌, ◌++◌, ◌≡◌, refl, Bytes, codes, length}
use bumshi.Strings.{to_lower}
use bumshi.WebEngine.{build_bootstrap, inject, splice}
use bumshi.WebEngine.Splice.{IsInjected, inject-IsInjected}

abbrev page : Bytes
page = codes "<HTML><Head a=b><p>"

inject-IsInjected_example :
    IsInjected (to_lower page) page (build_bootstrap (codes "N")) (inject to_lower page (codes "N"))
inject-IsInjected_example = inject-IsInjected to_lower page (codes "N") same
  where
    same : length (to_lower page) ≡ length page
    same = unfold to_lower in refl

behind_head : inject to_lower page [] ≡ some (splice page 16 (build_bootstrap []))
unfolding inject to_lower
behind_head = refl

-- A byte that is no UTF-8 becomes three when bytes.ToLower replaces it, and then the offsets are not those of
-- the body: an index is out of range, or another tag is taken for the head.
abbrev replaced : Bytes → Bytes
replaced [] = []
replaced (c ∷ s) = 239 ∷ 191 ∷ 189 ∷ s

shifted_panics : inject replaced (255 ∷ codes "<heade") [] ≡ none
unfolding inject
shifted_panics = refl

shifted_offset :
    inject replaced (255 ∷ codes "<header>") []
    ≡ some (255 ∷ codes "<header>" ++ build_bootstrap [])
unfolding inject
shifted_offset = refl
