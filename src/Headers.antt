-- ===== src/Headers.antt =====
-- What the program uses of net/http's `Header`: a map from canonical names to values, here a list of
-- entries.
pub mod Laws
use bumshi.Common.{
  ℕ, Bool, true, false, not, ◌&&◌, ◌||◌, Option, none, some, List, [], ◌∷◌, ◌++◌, Bytes, codes,
  length, ◌==◌, if◌then◌else◌,
}
use bumshi.Strings.{eq, index_byte, lower_byte, upper_byte, within}

abbrev pub Header : Type 0
Header = List (Bytes × List Bytes)

-- A byte that may stand in a header's name: a letter, a digit or one of a few signs.
unfoldable pub is_name_byte : ℕ → Bool
unfolding index_byte
is_name_byte c =
    within b'a' b'z' c
    || within b'A' b'Z' c
    || within b'0' b'9' c
    || elim (index_byte (codes "!#$%&'*+-.^_`|~") c) [ none ↦ false | some i ↦ true ]

pub all_name_bytes : Bytes → Bool
unfolding is_name_byte
all_name_bytes [] = true
all_name_bytes (c ∷ s) = is_name_byte c && all_name_bytes s

pub capitalized : Bool → Bytes → Bytes
unfolding upper_byte lower_byte
capitalized upper [] = []
capitalized upper (c ∷ s) =
    (if upper then upper_byte c else lower_byte c) ∷ capitalized (c == b'-') s

-- `http.CanonicalHeaderKey`: a name with other bytes is left alone.
unfoldable pub canonical_header_key : Bytes → Bytes
unfolding all_name_bytes capitalized
canonical_header_key k = if all_name_bytes k then capitalized true k else k

-- `h[k]`
unfoldable pub values : Header → Bytes → Option (List Bytes)
unfolding eq
values [] k = none
values ((k', vv) ∷ h) k = if eq k' k then some vv else values h k

-- `h[k] = vv`
unfoldable pub put : Header → Bytes → List Bytes → Header
unfolding eq
put [] k vv = (k, vv) ∷ []
put ((k', old) ∷ h) k vv =
    let rest = put h k vv in if eq k' k then (k', vv) ∷ h else (k', old) ∷ rest

-- `h.Set(k, v)`, `h.Del(k)` and `h.Get(k)` for a canonical name
abbrev pub set : Header → Bytes → Bytes → Header
set h k v = put h k (v ∷ [])

unfoldable pub del : Header → Bytes → Header
unfolding eq
del [] k = []
del ((k', vv) ∷ h) k = let rest = del h k in if eq k' k then rest else (k', vv) ∷ rest

abbrev pub first : Option (List Bytes) → Bytes
first none = []
first (some []) = []
first (some (v ∷ vv)) = v

abbrev pub get : Header → Bytes → Bytes
get h k = first (values h k)

-- `h.Add(k, v)` for a canonical name
unfoldable pub add : Header → Bytes → Bytes → Header
unfolding put values
add h k v = put h k (elim (values h k) [ none ↦ v ∷ [] | some vv ↦ vv ++ v ∷ [] ])
