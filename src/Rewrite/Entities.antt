-- ===== src/Rewrite/Entities.antt =====
-- server/internal/proxy/rewrite/scan.go: character references in attribute values.
pub mod RoundTrip
use bumshi.Common.{
  ℕ, zero, suc, ◌+◌, ◌-◌, ◌*◌, ◌/◌, ◌%◌, Bool, true, false, not, ◌&&◌, ◌||◌, Option, none, some,
  List, [], ◌∷◌, ◌++◌, Bytes, codes, length, take, ltb, leb, ◌==◌, if◌then◌else◌,
}
use bumshi.Strings.{within, to_lower, eq, index_byte, replace_byte}

-- `strings.Builder.WriteRune`: UTF-8, with U+FFFD for a surrogate.
unfoldable pub write_rune : ℕ → Bytes
write_rune r =
    if ltb r 0x80
    then r ∷ []
    else if ltb r 0x800
    then (0xc0 + r / 64) ∷ (0x80 + r % 64) ∷ []
    else if within 0xd800 0xdfff r
    then 0xef ∷ 0xbf ∷ 0xbd ∷ []
    else if ltb r 0x10000
    then (0xe0 + r / 4096) ∷ (0x80 + r / 64 % 64) ∷ (0x80 + r % 64) ∷ []
    else (0xf0 + r / 262144) ∷ (0x80 + r / 4096 % 64) ∷ (0x80 + r / 64 % 64) ∷ (0x80 + r % 64) ∷ []

-- The value of a digit, in bases up to 36; 36 stands for no digit.
unfoldable pub digit_of : ℕ → ℕ
digit_of c =
    if within b'0' b'9' c
    then c - b'0'
    else if within b'a' b'z' c
    then c - b'a' + 10
    else if within b'A' b'Z' c
    then c - b'A' + 10
    else 36

unfoldable pub parse_digits : ℕ → ℕ → Bytes → Option ℕ
unfolding digit_of
parse_digits base n [] = some n
parse_digits base n (c ∷ s) =
    let rest = parse_digits base (n * base + digit_of c) s in
    if leb base (digit_of c) then none else rest

unfoldable pub parse_unsigned : ℕ → Bytes → Option ℕ
unfolding parse_digits
parse_unsigned base [] = none
parse_unsigned base (c ∷ s) = parse_digits base 0 (c ∷ s)

-- `strconv.ParseInt(digits, base, 32)` where a result that is not positive is of no use: an error, a
-- minus sign and zero are all `none` or 0. Values out of range are refused by the caller's own bound.
unfoldable pub parse_int : ℕ → Bytes → Option ℕ
unfolding parse_unsigned
parse_int base [] = none
parse_int base (c ∷ s) =
    if c == b'+'
    then parse_unsigned base s
    else if c == b'-'
    then none
    else parse_unsigned base (c ∷ s)

-- `n > 0 && n <= 0x10FFFF`
unfoldable pub code_point : Option ℕ → Option ℕ
code_point none = none
code_point (some n) = if ltb 0 n && leb n 0x10ffff then some n else none

-- The digits behind "#", with an "x" in front for hexadecimal.
unfoldable pub numeric_reference : Bytes → Option ℕ
unfolding code_point parse_int
numeric_reference [] = none
numeric_reference (c ∷ digits) =
    if c == b'x' || c == b'X'
    then code_point (parse_int 16 digits)
    else code_point (parse_int 10 (c ∷ digits))

unfoldable pub hash_reference : Bytes → Option ℕ
unfolding numeric_reference
hash_reference [] = none
hash_reference (c ∷ digits) = if c == b'#' then numeric_reference digits else none

unfoldable pub decode_entity : Bytes → Option ℕ
unfolding to_lower eq hash_reference
decode_entity e =
    let name = to_lower e in
    if eq name (codes "amp")
    then some b'&'
    else if eq name (codes "lt")
    then some b'<'
    else if eq name (codes "gt")
    then some b'>'
    else if eq name (codes "quot")
    then some b'"'
    else if eq name (codes "apos")
    then some b'\''
    else if eq name (codes "nbsp")
    then some b' '
    else hash_reference e

-- The reference at the front of the text behind an "&": its code point, and how many bytes of the
-- text it takes, the ";" included. The bounds are those of `semi > 1 && semi <= 12`.
unfoldable pub reference : Bytes → Option (ℕ × ℕ)
unfolding index_byte decode_entity
reference rest = elim (index_byte rest b';') [
  | none ↦ none
  | some k ↦
      if leb 1 k && leb k 11
      then elim (decode_entity (take k rest)) [ none ↦ none | some r ↦ some (r, k + 1) ]
      else none
]

-- The loop of `unescapeHTML`; the first argument counts the bytes of a reference still to skip.
unfoldable pub unescape_on : ℕ → Bytes → Bytes
unfolding reference write_rune
unescape_on skipped [] = []
unescape_on (suc skipped) (c ∷ s) = unescape_on skipped s
unescape_on zero (c ∷ s) = elim (c == b'&') [
  | false ↦ c ∷ unescape_on 0 s
  | true ↦ elim (reference s) [
    | none ↦ b'&' ∷ unescape_on 0 s
    | some (r, n) ↦ write_rune r ++ unescape_on n s
  ]
]

unfoldable pub unescape_html : Bytes → Bytes
unfolding unescape_on index_byte
unescape_html s = elim (index_byte s b'&') [ none ↦ s | some i ↦ unescape_on 0 s ]

unfoldable pub escape_attr_value : Bytes → ℕ → Bytes
unfolding replace_byte
escape_attr_value v quote =
    let amped = replace_byte v b'&' (codes "&amp;") in
    if quote == b'"'
    then replace_byte amped b'"' (codes "&quot;")
    else if quote == b'\''
    then replace_byte amped b'\'' (codes "&#39;")
    else amped
