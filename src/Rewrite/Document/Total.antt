-- ===== src/Rewrite/Document/Total.antt =====
-- server/internal/proxy/rewrite: `HTML` on a whole document.
use bumshi.Common.{
  ℕ, zero, suc, ◌+◌, ◌≤◌, ◌<◌, true, not, ◌&&◌, Option, none, some, List, [], ◌∷◌, ◌≡◌, ◌⊎◌, inl,
  inr, refl, arith, Bytes, codes, length, drop, Bool-cases, Option-cases, length-drop,
  if◌then◌else◌,
}
use bumshi.Strings.{contains, eq, has_prefix, index, index_byte, trim_space}
use bumshi.Strings.Laws.{index_byte-lt}
use bumshi.Link.{Url, UrlLib, is_http}
use bumshi.Rewrite.Entities.{unescape_html}
use bumshi.Rewrite.Tokens.{
  HtmlAttr, HtmlTag, StartTag, tag, not_a_tag, out_of_fuel, parse_start_tag, has_tag_name,
}
use bumshi.Rewrite.Tokens.Bounds.{Spanned, parse_start_tag-Spanned, find_end_tag_bounds}
use bumshi.Rewrite.Scan.{raw_text, letter_behind, value_of, scan}
use bumshi.Rewrite.Scan.Pieces.{Pieces}
use bumshi.Rewrite.Scan.Whole.{scan-Pieces}
use bumshi.Rewrite.Document.{
  BaseRound, found, next, head_content, behind_tag, href_base, first_base, base_at_tag,
  base_at_comment, base_round, base_on, document_base, html,
}

module _ (lib : UrlLib) (target : Url) where
  -- A base of the document: its own URL, or an http or https one.
  abbrev pub IsBase : Url → Type 0
  IsBase u = (u ≡ target) ⊎ (is_http u.scheme ≡ true)

  abbrev IsBaseRound : ℕ → BaseRound → Type 0
  IsBaseRound i (found u) = IsBase u
  IsBaseRound i (next j) = i < j

  abbrev Http : Option Url → Type 0
  Http none = Unit
  Http (some u) = is_http u.scheme ≡ true

  parsed-Http :
      (o : Option Url)
      → Http (elim o [
        | none ↦ none
        | some u ↦
            let abs = lib.resolve_reference target u in
            if is_http abs.scheme then some abs else none
      ])
  parsed-Http none = tt
  parsed-Http (some u) = elim (Bool-cases (is_http (lib.resolve_reference target u).scheme)) [
    | inl e ↦ rw (e, Http) e
    | inr e ↦ rw (e, Http) tt
  ]

  href_base-Http : (ref : Bytes) → Http (href_base lib target ref)
  unfolding href_base
  href_base-Http ref = elim (Bool-cases (eq ref [])) [
    | inl e ↦ rw (e, Http) tt
    | inr e ↦ rw (e, Http) (parsed-Http (lib.parse ref))
  ]

  first_base-Http : (s : Bytes) (attrs : List HtmlAttr) → Http (first_base lib s target attrs)
  unfolding first_base
  first_base-Http s [] = tt
  first_base-Http s (a ∷ attrs) = elim (Bool-cases (eq a.name (codes "href") && a.has_value)) [
    | inl e ↦
        rw (e, Http)
          (or_later (href_base lib target (trim_space (unescape_html (value_of s a))))
            (href_base-Http _) (first_base lib s target attrs) (first_base-Http s attrs))
    | inr e ↦ rw (e, Http) (first_base-Http s attrs)
  ]
    where
      or_later :
          (o : Option Url)
          → Http o
          → (later : Option Url) → Http later
          → Http (elim o [ none ↦ later | some u ↦ some u ])
      or_later none h later h' = h'
      or_later (some u) h later h' = h

  behind_tag-le : (s : Bytes) (t : HtmlTag) → t.end ≤ length s → t.end ≤ behind_tag s t
  unfolding behind_tag
  behind_tag-le s t h = elim (Bool-cases (contains raw_text t.name && not t.self_closing)) [
    | inl e ↦ rw e (find_end_tag_bounds s t.name t.end h).0
    | inr e ↦ rw e (omega arith)
  ]

  base_at_tag-IsBaseRound :
      (s : Bytes) (i : ℕ) (o : StartTag)
      → Spanned s i o
      → IsBaseRound i (base_at_tag lib s target i o)
  unfolding base_at_tag
  base_at_tag-IsBaseRound s i not_a_tag span = omega arith
  base_at_tag-IsBaseRound s i out_of_fuel span = absurd span
  base_at_tag-IsBaseRound s i (tag t) span =
      let moved : i < behind_tag s t = omega (arith, behind_tag-le s t span.inside, span.moves) in
      elim (Bool-cases (eq t.name (codes "base"))) [
        | inl e ↦
            rw (e, IsBaseRound)
              (or_next (first_base lib s target t.attrs) (first_base-Http s t.attrs) moved)
        | inr e ↦ elim (Bool-cases (contains head_content t.name)) [
          | inl e' ↦ rw (e, e', IsBaseRound) moved
          | inr e' ↦ rw (e, e', IsBaseRound) (inl refl)
        ]
      ]
    where
      or_next :
          (o : Option Url)
          → Http o
          → i < behind_tag s t
          → IsBaseRound i (elim o [ none ↦ next (behind_tag s t) | some u ↦ found u ])
      or_next none h moved = moved
      or_next (some u) h moved = inr h

  base_round-IsBaseRound :
      (s : Bytes) (i : ℕ) → i < length s → IsBaseRound i (base_round lib s target i)
  unfolding base_round base_at_comment
  base_round-IsBaseRound s i lt = elim (Bool-cases (has_prefix (drop i s) (codes "<!--"))) [
    | inl e ↦
        rw (e, IsBaseRound)
          (elim (Option-cases (index (drop (i + 4) s) (codes "-->"))) [
            | inl e' ↦ rw (e', IsBaseRound) (inl refl)
            | inr (k, e') ↦ rw (e', IsBaseRound) (omega arith)
          ])
    | inr e ↦ elim (Bool-cases (has_prefix (drop i s) (codes "</"))) [
      | inl e1 ↦ elim (Bool-cases (has_tag_name (drop (i + 2) s) (codes "head"))) [
        | inl e2 ↦ rw (e, e1, e2, IsBaseRound) (inl refl)
        | inr e2 ↦ rw (e, e1, e2, IsBaseRound) (omega arith)
      ]
      | inr e1 ↦ elim (Bool-cases (letter_behind s i)) [
        | inl e2 ↦
            rw (e, e1, e2, IsBaseRound)
              (base_at_tag-IsBaseRound s i (parse_start_tag s i) (parse_start_tag-Spanned s i lt))
        | inr e2 ↦ rw (e, e1, e2, IsBaseRound) (omega arith)
      ]
    ]
  ]

  abbrev FoundBase : Option Url → Type 0
  FoundBase none = ⊥
  FoundBase (some u) = IsBase u

  base_on-FoundBase :
      (fuel : ℕ) (s : Bytes) (i : ℕ)
      → length s + 1 ≤ fuel + i
      → 0 < fuel
      → FoundBase (base_on lib fuel s target i)
  unfolding base_on
  base_on-FoundBase zero s i enough le = absurd (omega arith)
  base_on-FoundBase (suc fuel) s i enough le = elim (Option-cases (index_byte (drop i s) b'<')) [
    | inl e ↦ rw (e, FoundBase) (inl refl)
    | inr (lt, e) ↦
        let inside : i + lt < length s =
          omega (arith, index_byte-lt (drop i s) b'<' e, length-drop i s) in
        rw (e, FoundBase)
          (after lt (base_round lib s target (i + lt)) (base_round-IsBaseRound s (i + lt) inside)
            (λ j lt'. base_on-FoundBase fuel s j (omega arith) (omega arith)))
  ]
    where
      after :
          (lt : ℕ) (o : BaseRound)
          → IsBaseRound (i + lt) o
          → ((j : ℕ) → i + lt < j → FoundBase (base_on lib fuel s target j))
          → FoundBase (elim o [ found u ↦ some u | next j ↦ base_on lib fuel s target j ])
      after lt (found u) h go = h
      after lt (next j) h go = go j h

  document_base-FoundBase : (s : Bytes) → FoundBase (document_base lib s target)
  unfolding document_base
  document_base-FoundBase s = base_on-FoundBase (length s + 1) s 0 (omega arith) (omega arith)

-- `HTML` returns on every document. The base that it resolves references against is the document's
-- own URL or an http or https one, and its output is the source in pieces, of which only start tags
-- and style sheets are written anew.
pub html-Pieces :
    (lib : UrlLib) (target : Url) (body : Bytes)
    → (base : Url) × IsBase lib target base
      × ((out : Bytes) × (html lib target body ≡ some out) × Pieces lib base body body out)
unfolding html
html-Pieces lib target body =
    on_base (document_base lib body target) (document_base-FoundBase lib target body)
  where
    on_base :
        (o : Option Url)
        → FoundBase lib target o
        → (base : Url) × IsBase lib target base
          × ((out : Bytes) × (elim o [ none ↦ none | some base ↦ scan lib base body ] ≡ some out)
              × Pieces lib base body body out)
    on_base none h = absurd h
    on_base (some base) h = (base, h, scan-Pieces lib base body)
