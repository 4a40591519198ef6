-- ===== src/Strings.antt =====
-- What the program uses of Go's `strings` and `bytes` packages, over byte lists. `ToLower`,
-- `EqualFold`, `TrimSpace` and `Fields` are those of ASCII text: Go's Unicode cases for bytes from
-- 128 up leave such bytes alone here.
pub mod Laws
pub mod Found
use bumshi.Common.{
  ℕ, zero, suc, ◌+◌, ◌-◌, ◌*◌, ◌/◌, ◌%◌, ◌^◌, Bool, true, false, ◌&&◌, ◌||◌, not, Option, none,
  some, List, [], ◌∷◌, ◌++◌, map, Bytes, length, drop, ltb, leb, ◌==◌, if◌then◌else◌,
}

-- `c >= lo && c <= hi`
abbrev pub within : ℕ → ℕ → ℕ → Bool
within lo hi c = leb lo c && leb c hi

unfoldable pub lower_byte : ℕ → ℕ
lower_byte c = if within b'A' b'Z' c then c + 32 else c

unfoldable pub upper_byte : ℕ → ℕ
upper_byte c = if within b'a' b'z' c then c - 32 else c

-- `strings.ToLower`
unfoldable pub to_lower : Bytes → Bytes
unfolding lower_byte
to_lower [] = []
to_lower (c ∷ s) = lower_byte c ∷ to_lower s

-- `==` on strings
unfoldable pub eq : Bytes → Bytes → Bool
eq [] [] = true
eq (x ∷ xs) (y ∷ ys) = x == y && eq xs ys
eq _ _ = false

-- `slices.Contains`
unfoldable pub contains : List Bytes → Bytes → Bool
unfolding eq
contains [] s = false
contains (x ∷ xs) s = eq x s || contains xs s

-- `strings.EqualFold`
unfoldable pub equal_fold : Bytes → Bytes → Bool
unfolding to_lower eq
equal_fold s t = eq (to_lower s) (to_lower t)

-- `strings.HasPrefix(s, p)`
unfoldable pub has_prefix : Bytes → Bytes → Bool
has_prefix s [] = true
has_prefix [] (y ∷ p) = false
has_prefix (x ∷ s) (y ∷ p) = x == y && has_prefix s p

-- `strings.HasSuffix(s, p)`
unfoldable pub has_suffix : Bytes → Bytes → Bool
unfolding eq
has_suffix s p = leb (length p) (length s) && eq (drop (length s - length p) s) p

-- `strings.IndexByte(s, c)`; `none` stands for -1.
unfoldable pub index_byte : Bytes → ℕ → Option ℕ
index_byte [] c = none
index_byte (x ∷ s) c =
    if x == c then some 0 else elim (index_byte s c) [ none ↦ none | some i ↦ some (suc i) ]

-- `strings.Index(s, p)`
unfoldable pub index : Bytes → Bytes → Option ℕ
unfolding has_prefix
index [] p = if has_prefix [] p then some 0 else none
index (x ∷ s) p =
    if has_prefix (x ∷ s) p
    then some 0
    else elim (index s p) [ none ↦ none | some i ↦ some (suc i) ]

-- `strings.Count` of a single byte
unfoldable pub count : Bytes → ℕ → ℕ
count [] c = 0
count (x ∷ s) c = if x == c then suc (count s c) else count s c

-- `strings.TrimPrefix`, `strings.TrimSuffix` of a single byte
unfoldable pub trim_prefix : Bytes → Bytes → Bytes
unfolding has_prefix
trim_prefix s p = if has_prefix s p then drop (length p) s else s

unfoldable pub trim_suffix_byte : Bytes → ℕ → Bytes
trim_suffix_byte [] c = []
trim_suffix_byte (x ∷ []) c = if x == c then [] else x ∷ []
trim_suffix_byte (x ∷ y ∷ s) c = x ∷ trim_suffix_byte (y ∷ s) c

-- The ASCII white space of `unicode.IsSpace`.
unfoldable pub is_space : ℕ → Bool
is_space c = within 9 13 c || c == b' '

-- `strings.TrimLeftFunc`, `strings.TrimRightFunc`
unfoldable pub trim_left : (ℕ → Bool) → Bytes → Bytes
trim_left p [] = []
trim_left p (c ∷ s) = if p c then trim_left p s else c ∷ s

unfoldable pub trim_right : (ℕ → Bool) → Bytes → Bytes
trim_right p [] = []
trim_right p (c ∷ s) = elim (trim_right p s) [ [] ↦ if p c then [] else c ∷ [] | d ∷ r ↦ c ∷ d ∷ r ]

-- `strings.TrimSpace`
unfoldable pub trim_space : Bytes → Bytes
unfolding trim_left trim_right is_space
trim_space s = trim_right is_space (trim_left is_space s)

-- `strings.Split` at a single byte: never empty.
unfoldable pub split_on : ℕ → Bytes → Bytes → List Bytes
split_on sep cur [] = cur ∷ []
split_on sep cur (c ∷ s) = elim (c == sep) [
  | true ↦ cur ∷ split_on sep [] s
  | false ↦ split_on sep (cur ++ c ∷ []) s
]

unfoldable pub split : Bytes → ℕ → List Bytes
unfolding split_on
split s sep = split_on sep [] s

-- `strings.Fields`: the runs of bytes that are not white space.
unfoldable pub add_field : Bytes → List Bytes → List Bytes
add_field [] fs = fs
add_field (c ∷ s) fs = (c ∷ s) ∷ fs

unfoldable pub fields_on : Bytes → Bytes → List Bytes
unfolding is_space add_field
fields_on cur [] = add_field cur []
fields_on cur (c ∷ s) = elim (is_space c) [
  | true ↦ add_field cur (fields_on [] s)
  | false ↦ fields_on (cur ++ c ∷ []) s
]

unfoldable pub fields : Bytes → List Bytes
unfolding fields_on
fields s = fields_on [] s

-- `strings.Join`
unfoldable pub join : List Bytes → Bytes → Bytes
join [] sep = []
join (p ∷ []) sep = p
join (p ∷ q ∷ ps) sep = p ++ (sep ++ join (q ∷ ps) sep)

-- `strings.ReplaceAll` of a single byte
unfoldable pub replace_byte : Bytes → ℕ → Bytes → Bytes
replace_byte [] c new = []
replace_byte (x ∷ s) c new = (if x == c then new else x ∷ []) ++ replace_byte s c new

-- `strconv.Itoa` of a number that is not negative; a number has no more digits than its value and one.
unfoldable pub digits : ℕ → ℕ → Bytes → Bytes
digits zero n after = after
digits (suc fuel) n after = elim (ltb n 10) [
  | true ↦ (b'0' + n) ∷ after
  | false ↦ digits fuel (n / 10) ((b'0' + n % 10) ∷ after)
]

unfoldable pub itoa : ℕ → Bytes
unfolding digits
itoa n = digits (n + 1) n []

-- A Go integer.
pub data ℤ : Type 0 where
  pos negsuc : ℕ → ℤ

-- The value of decimal digits behind `v`; none at all are an error.
unfoldable pub decimal : ℕ → Bytes → Option ℕ
decimal v [] = some v
decimal v (c ∷ s) = elim (within b'0' b'9' c) [
  | true ↦ decimal (v * 10 + (c - b'0')) s
  | false ↦ none
]

unfoldable pub natural : Bytes → Option ℕ
unfolding decimal
natural [] = none
natural (c ∷ s) = decimal 0 (c ∷ s)

positive : Option ℕ → Option ℤ
positive none = none
positive (some n) = if ltb n (2 ^ 63) then some (pos n) else none

negative : Option ℕ → Option ℤ
negative none = none
negative (some zero) = some (pos 0)
negative (some (suc n)) = if ltb n (2 ^ 63) then some (negsuc n) else none

-- `strconv.Atoi`: a sign or none, decimal digits, and the range of an int64.
unfoldable pub atoi : Bytes → Option ℤ
unfolding natural positive negative
atoi [] = none
atoi (c ∷ s) =
    if c == b'+'
    then positive (natural s)
    else if c == b'-'
    then negative (natural s)
    else positive (natural (c ∷ s))

-- `bytes.ReplaceAll` for an `old` that is not empty; `skip` counts the bytes of a match that are left.
unfoldable pub replace_from : Bytes → Bytes → ℕ → Bytes → Bytes
unfolding has_prefix
replace_from old new skip [] = []
replace_from old new (suc skip) (c ∷ s) = replace_from old new skip s
replace_from old new zero (c ∷ s) = elim (has_prefix (c ∷ s) old) [
  | true ↦ new ++ replace_from old new (length old - 1) s
  | false ↦ c ∷ replace_from old new 0 s
]

unfoldable pub replace_all : Bytes → Bytes → Bytes → Bytes
unfolding replace_from
replace_all s old new = replace_from old new 0 s

-- `strings.ContainsAny`
unfoldable pub contains_any : Bytes → Bytes → Bool
unfolding index_byte
contains_any [] chars = false
contains_any (c ∷ s) chars = elim (index_byte chars c) [
  | none ↦ contains_any s chars
  | some i ↦ true
]
