-- ===== src/Maps.antt =====
-- Go's `map[string]T` as a list of entries, the first one counting.
pub mod Laws
use bumshi.Common.{Bool, true, false, Option, none, some, List, [], ◌∷◌, Bytes, if◌then◌else◌}
use bumshi.Strings.{eq}

abbrev pub Map : Type 0 → Type 0
Map A = List (Bytes × A)

module _ {A : Type 0} where
  -- `m[k]`
  unfoldable pub lookup : Map A → Bytes → Option A
  unfolding eq
  lookup [] k = none
  lookup ((k', a) ∷ m) k = if eq k' k then some a else lookup m k

  -- `delete(m, k)`
  unfoldable pub remove : Map A → Bytes → Map A
  unfolding eq
  remove [] k = []
  remove ((k', a) ∷ m) k = let rest = remove m k in if eq k' k then rest else (k', a) ∷ rest

  -- `m[k] = a`
  unfoldable pub insert : Map A → Bytes → A → Map A
  unfolding remove
  insert m k a = (k, a) ∷ remove m k
