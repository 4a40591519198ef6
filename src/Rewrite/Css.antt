-- ===== src/Rewrite/Css.antt =====
-- server/internal/proxy/rewrite/rewrite.go: classification of bodies and rewriting of CSS. The two
-- regular expressions are written out as matchers at the front of a text. In both, the choices of a
-- backtracking matcher are forced by the next byte, so each matcher is a straight line.
pub mod Verbatim
use bumshi.Common.{
  ℕ, zero, suc, ◌+◌, ◌-◌, Bool, true, false, not, ◌&&◌, ◌||◌, Option, none, some, List, [], ◌∷◌,
  ◌++◌, Bytes, codes, length, take, drop, get_elem?, ltb, leb, ◌==◌, if◌then◌else◌,
}
use bumshi.Strings.{to_lower, eq, equal_fold, has_prefix, trim_space}
use bumshi.Link.{Url, UrlLib, resolve}
use bumshi.Rewrite.Tokens.{is_html_space, run_length, byte_is, slice}

pub data Kind : Type 0 where
  html css other : Kind

-- `Classify`: the three results of its two flags.
unfoldable pub classify : Bytes → Kind
unfolding to_lower has_prefix trim_space
classify content_type =
    let ct = to_lower (trim_space content_type) in
    if has_prefix ct (codes "text/html")
    then html
    else if has_prefix ct (codes "application/xhtml+xml")
    then html
    else if has_prefix ct (codes "text/css")
    then css
    else other

-- A match at the front of a text: one less than its length, and the text of its group.
pub record Match : Type 0 where
  pub more : ℕ
  pub group : Bytes

abbrev pub is_quote : ℕ → Bool
is_quote c = c == b'"' || c == b'\''

-- The quoted text at the offset `j`, `"[^"]*"` or `'[^']*'`: where it ends, behind the quote.
unfoldable pub quoted_end : Bytes → ℕ → Option ℕ
unfolding run_length byte_is
quoted_end s j = elim (get_elem? s j) [
  | none ↦ none
  | some q ↦
      let k = j + 1 + run_length (λ c. not (c == q)) (drop (j + 1) s) in
      if is_quote q && byte_is s k q then some (k + 1) else none
]

-- `\s*\)` at the offset `k`: where it ends.
unfoldable pub paren_end : Bytes → ℕ → Option ℕ
unfolding run_length is_html_space byte_is
paren_end s k =
    let m = k + run_length is_html_space (drop k s) in
    if byte_is s m b')' then some (m + 1) else none

-- `[^)'"]+\)` at the offset `j`, where no white space is: the group ends at the parenthesis.
unfoldable pub bare_match : Bytes → ℕ → Option Match
unfolding run_length byte_is
bare_match s j =
    let k = j + run_length (λ c. not (c == b')' || is_quote c)) (drop j s) in
    if ltb j k && byte_is s k b')' then some (record { more = k; group = slice s j k }) else none

-- `url\(\s*("[^"]*"|'[^']*'|[^)'"]+)\s*\)`. An empty `url( )` matches with its last space for the
-- group, since the white space in front gives one byte back.
unfoldable pub match_url : Bytes → Option Match
unfolding run_length is_html_space quoted_end paren_end bare_match byte_is
match_url s =
    let j = 4 + run_length is_html_space (drop 4 s) in
    if not (equal_fold (take 4 s) (codes "url("))
    then none
    else if byte_is s j b')'
    then if ltb 4 j then some (record { more = j; group = slice s (j - 1) j }) else none
    else elim (quoted_end s j) [
      | none ↦ bare_match s j
      | some k ↦ elim (paren_end s k) [
        | none ↦ none
        | some m ↦ some (record { more = m - 1; group = slice s j k })
      ]
    ]

-- `@import\s+("[^"]*"|'[^']*')`
unfoldable pub match_import : Bytes → Option Match
unfolding run_length is_html_space quoted_end
match_import s =
    let j = 7 + run_length is_html_space (drop 7 s) in
    if not (equal_fold (take 7 s) (codes "@import")) || not (ltb 7 j)
    then none
    else elim (quoted_end s j) [
      | none ↦ none
      | some k ↦ some (record { more = k - 1; group = slice s j k })
    ]

-- `ReplaceAllStringFunc`; the first number counts the bytes of a match still to skip.
unfoldable pub replace_all : (Bytes → Option Match) → (Bytes → Bytes) → ℕ → Bytes → Bytes
replace_all find new skipped [] = []
replace_all find new (suc skipped) (c ∷ s) = replace_all find new skipped s
replace_all find new zero (c ∷ s) = elim (find (c ∷ s)) [
  | none ↦ c ∷ replace_all find new 0 s
  | some m ↦ new (take (suc m.more) (c ∷ s)) ++ replace_all find new m.more s
]

-- `splitQuoted`
unfoldable pub split_quoted : Bytes → Bytes × Bytes
unfolding byte_is
split_quoted [] = ([], [])
split_quoted (q ∷ raw) =
    if leb 2 (length (q ∷ raw)) && is_quote q && byte_is (q ∷ raw) (length raw) q
    then (q ∷ [], slice (q ∷ raw) 1 (length raw))
    else ([], q ∷ raw)

module _ (lib : UrlLib) (base : Url) where
  -- What the two callbacks of `rewriteCSS` return for a match `m`.
  unfoldable pub replace_url : Bytes → Bytes
  unfolding split_quoted
  replace_url m = elim (match_url m) [
    | none ↦ m
    | some g ↦
        let (quote, val) = split_quoted g.group in
        let next = resolve lib base val in
        let mark = if eq quote [] then codes "\"" else quote in
        if eq next val then m else codes "url(" ++ (mark ++ (next ++ (mark ++ codes ")")))
  ]

  unfoldable pub replace_import : Bytes → Bytes
  unfolding split_quoted
  replace_import m = elim (match_import m) [
    | none ↦ m
    | some g ↦
        let (quote, val) = split_quoted g.group in
        let next = resolve lib base val in
        if eq next val then m else take (length m - length g.group) m ++ (quote ++ (next ++ quote))
  ]

  unfoldable pub rewrite_css : Bytes → Bytes
  unfolding replace_all
  rewrite_css css_text =
      replace_all match_import replace_import 0 (replace_all match_url replace_url 0 css_text)
