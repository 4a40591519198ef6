-- ===== src/Rewrite/Tokens.antt =====
-- server/internal/proxy/rewrite/scan.go: byte classes, start tags and end tags. Offsets are those of
-- the source, and `s[a:b]` is `slice s a b`; that no slice is out of range is proved in `Bounds`.
pub mod Attrs
pub mod Bounds
use bumshi.Common.{
  ℕ, zero, suc, ◌+◌, ◌-◌, Bool, true, false, not, ◌&&◌, ◌||◌, Option, none, some, List, [], ◌∷◌,
  ◌++◌, Bytes, length, take, drop, get_elem?, leb, ◌==◌, if◌then◌else◌,
}
use bumshi.Strings.{within, to_lower, eq, equal_fold}

unfoldable pub is_html_space : ℕ → Bool
is_html_space c = c == b' ' || c == b'\t' || c == b'\n' || c == 12 || c == b'\r'

unfoldable pub is_ascii_letter : ℕ → Bool
is_ascii_letter c = within b'a' b'z' c || within b'A' b'Z' c

unfoldable pub is_tag_name_end : ℕ → Bool
unfolding is_html_space
is_tag_name_end c = is_html_space c || c == b'/' || c == b'>'

unfoldable pub is_attr_name_end : ℕ → Bool
unfolding is_tag_name_end
is_attr_name_end c = is_tag_name_end c || c == b'='

unfoldable pub is_unquoted_value_end : ℕ → Bool
unfolding is_html_space
is_unquoted_value_end c = is_html_space c || c == b'>'

-- `s[a:b]`
abbrev pub slice : Bytes → ℕ → ℕ → Bytes
slice s a b = take (b - a) (drop a s)

-- How many bytes at the front pass the test.
unfoldable pub run_length : (ℕ → Bool) → Bytes → ℕ
run_length p [] = 0
run_length p (c ∷ s) = let more = run_length p s in if p c then suc more else 0

-- `for j < len(s) && p(s[j]) { j++ }`
unfoldable pub skip : (ℕ → Bool) → Bytes → ℕ → ℕ
unfolding run_length
skip p s j = j + run_length p (drop j s)

-- `j < len(s) && s[j] == c`
unfoldable pub byte_is : Bytes → ℕ → ℕ → Bool
byte_is s j c = elim (get_elem? s j) [ none ↦ false | some d ↦ d == c ]

pub record HtmlAttr : Type 0 where
  pub name : Bytes
  pub start : ℕ
  pub end : ℕ
  pub name_end : ℕ
  pub val_start : ℕ
  pub val_end : ℕ
  pub quote : ℕ
  pub has_value : Bool

pub record HtmlTag : Type 0 where
  pub name : Bytes
  pub start : ℕ
  pub end : ℕ
  pub attrs : List HtmlAttr
  pub self_closing : Bool

-- The attribute whose name is `s[j:n]`, without a value.
abbrev no_value : Bytes → ℕ → ℕ → HtmlAttr
no_value s j n = record {
  name = to_lower (slice s j n);
  start = j;
  end = n;
  name_end = n;
  val_start = n;
  val_end = n;
  quote = 0;
  has_value = false;
}

-- A value behind the quote `q` at `k`.
quoted : Bytes → HtmlAttr → ℕ → ℕ → HtmlAttr
unfolding skip byte_is
quoted s a q k =
    let v = skip (λ c. not (c == q)) s (k + 1) in
    record a {
      quote = q;
      val_start = k + 1;
      val_end = v;
      end = if byte_is s v q then v + 1 else v;
      has_value = true;
    }

-- A value with no quote, from `k`.
unquoted : Bytes → HtmlAttr → ℕ → HtmlAttr
unfolding skip is_unquoted_value_end
unquoted s a k =
    let v = skip (λ c. not (is_unquoted_value_end c)) s k in
    record a { val_start = k; val_end = v; end = v; has_value = true }

-- The value that begins at `k`, behind the `=` and white space.
read_value : Bytes → HtmlAttr → ℕ → HtmlAttr
unfolding quoted unquoted byte_is
read_value s a k =
    if byte_is s k b'"'
    then quoted s a b'"' k
    else if byte_is s k b'\''
    then quoted s a b'\'' k
    else unquoted s a k

-- One attribute from `j`; the loop goes on at its `end`.
unfoldable pub read_attr : Bytes → ℕ → HtmlAttr
unfolding skip byte_is read_value is_attr_name_end is_html_space
read_attr s j =
    let n = skip (λ c. not (is_attr_name_end c)) s j in
    let k = skip is_html_space s n in
    if byte_is s k b'='
    then read_value s (no_value s j n) (skip is_html_space s (k + 1))
    else no_value s j n

-- What the attribute loop leaves: the attributes, where the tag ends, and `selfClosing`.
pub record AttrScan : Type 0 where
  pub attrs : List HtmlAttr
  pub end : ℕ
  pub self_closing : Bool

-- The attribute loop of `parseStartTag`; `none` means that the fuel ran out.
unfoldable pub parse_attrs : ℕ → Bytes → ℕ → List HtmlAttr → Option AttrScan
unfolding skip is_html_space byte_is
parse_attrs zero s from attrs = none
parse_attrs (suc fuel) s from attrs =
    let j = skip is_html_space s from in
    let a = read_attr s j in
    let behind_slash = parse_attrs fuel s (j + 1) attrs in
    let behind_attr =
      parse_attrs fuel s a.end (if eq a.name [] then attrs else attrs ++ (a ∷ [])) in
    elim (get_elem? s j) [
      | none ↦ some (record { attrs = attrs; end = length s; self_closing = false })
      | some c ↦
          if c == b'>'
          then some (record { attrs = attrs; end = j + 1; self_closing = false })
          else if c == b'/'
          then if byte_is s (j + 1) b'>'
            then some (record { attrs = attrs; end = j + 2; self_closing = true })
            else behind_slash
          else behind_attr
    ]

-- Every round moves on by a byte or more, so one round for each byte, and one, is enough.
abbrev pub attr_fuel : Bytes → ℕ
attr_fuel s = length s + 1

pub data StartTag : Type 0 where
  tag : HtmlTag → StartTag
  not_a_tag out_of_fuel : StartTag

abbrev finish_tag : Bytes → ℕ → Option AttrScan → StartTag
finish_tag name i none = out_of_fuel
finish_tag name i (some r) =
    tag (record {
      name = name;
      start = i;
      end = r.end;
      attrs = r.attrs;
      self_closing = r.self_closing;
    })

unfoldable pub parse_start_tag : Bytes → ℕ → StartTag
unfolding skip is_tag_name_end parse_attrs
parse_start_tag s i =
    let j = skip (λ c. not (is_tag_name_end c)) s (i + 1) in
    if j == i + 1
    then not_a_tag
    else finish_tag (to_lower (slice s (i + 1) j)) i (parse_attrs (attr_fuel s) s j [])

-- The byte behind a tag name; the end of the document is accepted.
ends_name : Bytes → Bool
unfolding is_tag_name_end
ends_name [] = true
ends_name (c ∷ s) = is_tag_name_end c

-- `hasTagNameAt(s, pos, name)`, on `s[pos:]`
unfoldable pub has_tag_name : Bytes → Bytes → Bool
unfolding equal_fold ends_name
has_tag_name rest name =
    leb (length name) (length rest)
    && equal_fold (take (length name) rest) name
    && ends_name (drop (length name) rest)

closes : Bytes → Bytes → Bool
unfolding has_tag_name
closes name [] = false
closes name (c ∷ rest) = c == b'/' && has_tag_name rest name

-- The search of `findEndTag` from the offset `pos`, where `rest` is what is left.
unfoldable pub find_end_on : Bytes → ℕ → Bytes → ℕ
unfolding closes
find_end_on name pos [] = pos
find_end_on name pos (c ∷ rest) =
    let further = find_end_on name (pos + 1) rest in
    if c == b'<' && closes name rest then pos else further

unfoldable pub find_end_tag : Bytes → Bytes → ℕ → ℕ
unfolding find_end_on
find_end_tag s name from = find_end_on name from (drop from s)
