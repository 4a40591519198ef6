-- ===== src/Rewrite/Document.antt =====
-- server/internal/proxy/rewrite: `documentBase` (scan.go), `HTML` and `CSS` (rewrite.go).
pub mod Total
use bumshi.Common.{
  ℕ, zero, suc, ◌+◌, Bool, true, false, not, ◌&&◌, ◌||◌, Option, none, some, List, [], ◌∷◌, Bytes,
  codes, length, drop, if◌then◌else◌,
}
use bumshi.Strings.{contains, eq, has_prefix, index, index_byte, trim_space}
use bumshi.Link.{Url, UrlLib, is_http}
use bumshi.Rewrite.Css.{rewrite_css}
use bumshi.Rewrite.Entities.{unescape_html}
use bumshi.Rewrite.Tokens.{
  HtmlAttr, HtmlTag, StartTag, tag, not_a_tag, out_of_fuel, parse_start_tag, find_end_tag,
  has_tag_name,
}
use bumshi.Rewrite.Scan.{raw_text, letter_behind, value_of, scan}

abbrev head_content : List Bytes
head_content =
    codes "html"
    ∷ codes "head"
    ∷ codes "base"
    ∷ codes "basefont"
    ∷ codes "bgsound"
    ∷ codes "link"
    ∷ codes "meta"
    ∷ codes "noscript"
    ∷ codes "script"
    ∷ codes "style"
    ∷ codes "template"
    ∷ codes "title"
    ∷ []

-- One round of `documentBase` at a "<": the result, or the offset to go on from.
pub data BaseRound : Type 0 where
  found : Url → BaseRound
  next : ℕ → BaseRound

-- Where the search goes on behind a start tag.
unfoldable pub behind_tag : Bytes → HtmlTag → ℕ
behind_tag s t =
    if contains raw_text t.name && not t.self_closing then find_end_tag s t.name t.end else t.end

module _ (lib : UrlLib) where
  -- The base that one href names, if it is an http or https one.
  unfoldable pub href_base : Url → Bytes → Option Url
  unfolding is_http
  href_base target ref = if eq ref [] then none else elim (lib.parse ref) [
    | none ↦ none
    | some u ↦
        let abs = lib.resolve_reference target u in if is_http abs.scheme then some abs else none
  ]

  unfoldable pub first_base : Bytes → Url → List HtmlAttr → Option Url
  unfolding href_base
  first_base s target [] = none
  first_base s target (a ∷ attrs) =
      let later = first_base s target attrs in
      if eq a.name (codes "href") && a.has_value
      then elim (href_base target (trim_space (unescape_html (value_of s a)))) [
        | none ↦ later
        | some u ↦ some u
      ]
      else later

  -- The tokenizer never runs out of fuel, as `Tokens.Bounds` shows.
  unfoldable pub base_at_tag : Bytes → Url → ℕ → StartTag → BaseRound
  unfolding first_base behind_tag
  base_at_tag s target i not_a_tag = next (i + 1)
  base_at_tag s target i out_of_fuel = found target
  base_at_tag s target i (tag t) =
      if eq t.name (codes "base")
      then elim (first_base s target t.attrs) [ none ↦ next (behind_tag s t) | some u ↦ found u ]
      else if not (contains head_content t.name)
      then found target
      else next (behind_tag s t)

  base_at_comment : Bytes → Url → ℕ → BaseRound
  base_at_comment s target i = elim (index (drop (i + 4) s) (codes "-->")) [
    | none ↦ found target
    | some e ↦ next (i + 4 + e + 3)
  ]

  unfoldable pub base_round : Bytes → Url → ℕ → BaseRound
  unfolding base_at_comment base_at_tag letter_behind
  base_round s target i =
      if has_prefix (drop i s) (codes "<!--")
      then base_at_comment s target i
      else if has_prefix (drop i s) (codes "</")
      then if has_tag_name (drop (i + 2) s) (codes "head") then found target else next (i + 1)
      else if not (letter_behind s i)
      then next (i + 1)
      else base_at_tag s target i (parse_start_tag s i)

  -- The loop of `documentBase` from the offset `i`; `none` means that the fuel ran out.
  unfoldable pub base_on : ℕ → Bytes → Url → ℕ → Option Url
  unfolding base_round
  base_on zero s target i = none
  base_on (suc fuel) s target i = elim (index_byte (drop i s) b'<') [
    | none ↦ some target
    | some lt ↦ elim (base_round s target (i + lt)) [
      | found u ↦ some u
      | next j ↦ base_on fuel s target j
    ]
  ]

  -- Every round moves on by a byte or more.
  unfoldable pub document_base : Bytes → Url → Option Url
  unfolding base_on
  document_base s target = base_on (length s + 1) s target 0

  -- `HTML`
  unfoldable pub html : Url → Bytes → Option Bytes
  unfolding document_base scan
  html target body = elim (document_base body target) [
    | none ↦ none
    | some base ↦ scan lib base body
  ]

  -- `CSS`
  unfoldable pub css : Url → Bytes → Bytes
  css base body = rewrite_css lib base body
