-- ===== src/Rewrite/Scan.antt =====
-- server/internal/proxy/rewrite/scan.go: the tables, and the scanner that rewrites a document.
pub mod Pieces
pub mod Whole
use bumshi.Common.{
  ℕ, zero, suc, ◌+◌, ◌-◌, Bool, true, false, not, ◌&&◌, ◌||◌, Option, none, some, List, [], ◌∷◌,
  ◌++◌, Bytes, codes, length, take, drop, ltb, ◌==◌, if◌then◌else◌,
}
use bumshi.Strings.{
  contains, eq, equal_fold, fields, has_prefix, index, index_byte, to_lower, trim_space,
}
use bumshi.Link.{Url, UrlLib, resolve, is_http}
use bumshi.Rewrite.Css.{rewrite_css}
use bumshi.Rewrite.Entities.{unescape_html, escape_attr_value}
use bumshi.Rewrite.Tokens.{
  HtmlAttr, HtmlTag, StartTag, tag, not_a_tag, out_of_fuel, slice, parse_start_tag, find_end_tag,
  is_ascii_letter, has_tag_name,
}
use bumshi.Rewrite.Values.{rewrite_srcset, rewrite_url_list, rewrite_meta_refresh}

abbrev pub raw_text : List Bytes
raw_text =
    codes "script"
    ∷ codes "style"
    ∷ codes "textarea"
    ∷ codes "title"
    ∷ codes "xmp"
    ∷ codes "iframe"
    ∷ codes "noembed"
    ∷ codes "noframes"
    ∷ codes "noscript"
    ∷ []

-- An attribute that holds a URL, and the elements on which it does; `none` is any element.
abbrev url_attrs : List (Bytes × Option (List Bytes))
url_attrs =
    (codes "href", none)
    ∷ (codes "src", none)
    ∷ (codes "data-src", none)
    ∷ (codes "data-href", none)
    ∷ (codes "action", some (codes "form" ∷ []))
    ∷ (codes "formaction", some (codes "button" ∷ codes "input" ∷ []))
    ∷ (codes "poster", some (codes "video" ∷ []))
    ∷ (codes "data", some (codes "object" ∷ []))
    ∷ (codes "cite", some (codes "blockquote" ∷ codes "q" ∷ codes "del" ∷ codes "ins" ∷ []))
    ∷ (codes "background", some (codes "body" ∷ codes "table" ∷ codes "td" ∷ codes "th" ∷ []))
    ∷ (codes "longdesc", some (codes "img" ∷ codes "iframe" ∷ codes "frame" ∷ []))
    ∷ (codes "manifest", some (codes "html" ∷ []))
    ∷ (codes "profile", some (codes "head" ∷ []))
    ∷ (codes "codebase", some (codes "object" ∷ codes "applet" ∷ []))
    ∷ []

abbrev srcset_attrs : List Bytes
srcset_attrs = codes "srcset" ∷ codes "imagesrcset" ∷ codes "data-srcset" ∷ []

lookup_attr : List (Bytes × Option (List Bytes)) → Bytes → Option (Option (List Bytes))
lookup_attr [] name = none
lookup_attr ((k, tags) ∷ m) name = if eq k name then some tags else lookup_attr m name

unfoldable pub is_url_attr : Bytes → Bytes → Bool
unfolding lookup_attr eq contains
is_url_attr tag_name name = elim (lookup_attr url_attrs name) [
  | none ↦ false
  | some tags ↦ elim tags [ none ↦ true | some names ↦ contains names tag_name ]
]

abbrev pub value_of : Bytes → HtmlAttr → Bytes
value_of s a = slice s a.val_start a.val_end

-- The test of `rewritesOwnBody` on one attribute with a value.
pub names_stylesheet : Bytes → HtmlAttr → Bool
names_stylesheet s a =
    let value = to_lower (unescape_html (value_of s a)) in
    if eq a.name (codes "rel")
    then contains (fields value) (codes "stylesheet")
    else if eq a.name (codes "as")
    then eq (trim_space value) (codes "style")
    else false

pub any_attr : (HtmlAttr → Bool) → List HtmlAttr → Bool
any_attr test [] = false
any_attr test (a ∷ attrs) = a.has_value && test a || any_attr test attrs

unfoldable pub rewrites_own_body : Bytes → HtmlTag → Bool
unfolding any_attr names_stylesheet
rewrites_own_body s t = eq t.name (codes "link") && any_attr (names_stylesheet s) t.attrs

pub is_refresh : Bytes → HtmlAttr → Bool
is_refresh s a =
    eq a.name (codes "http-equiv")
    && equal_fold (trim_space (unescape_html (value_of s a))) (codes "refresh")

unfoldable pub is_refresh_meta : Bytes → HtmlTag → Bool
unfolding any_attr is_refresh
is_refresh_meta s t = eq t.name (codes "meta") && any_attr (is_refresh s) t.attrs

-- The two attributes that are taken out: the hash of a stylesheet, and the href of a base element.
unfoldable pub is_dropped : Bytes → HtmlTag → HtmlAttr → Bool
unfolding rewrites_own_body
is_dropped s t a =
    rewrites_own_body s t && eq a.name (codes "integrity")
    || eq t.name (codes "base") && eq a.name (codes "href")

-- `i+1 < len(s) && isASCIILetter(s[i+1])`
unfoldable pub letter_behind : Bytes → ℕ → Bool
letter_behind s i = elim (drop (i + 1) s) [ [] ↦ false | c ∷ r ↦ is_ascii_letter c ]

-- One round of `run` at a "<": the offset to go on from and what is written, or the end of the run.
pub data Round : Type 0 where
  on : ℕ → Bytes → Round
  last : Bytes → Round

-- A comment ends behind "-->", and a declaration, a processing instruction or an end tag behind ">".
pub comment_round : Bytes → ℕ → Round
comment_round s i = elim (index (drop (i + 4) s) (codes "-->")) [
  | none ↦ last (drop i s)
  | some e ↦ on (i + 4 + e + 3) (slice s i (i + 4 + e + 3))
]

pub declaration_round : Bytes → ℕ → Round
declaration_round s i = elim (index_byte (drop i s) b'>') [
  | none ↦ last (drop i s)
  | some e ↦ on (i + e + 1) (slice s i (i + e + 1))
]

module _ (lib : UrlLib) (base : Url) where
  -- A rewritten value, or `none` where it does not differ.
  changed_to : Bytes → Bytes → Option Bytes
  changed_to val next = if eq next val then none else some next

  -- A srcset whose loop never ends would have no value; `Values` shows that it always has one.
  changed_srcset : Bytes → Option Bytes → Option Bytes
  changed_srcset val none = none
  changed_srcset val (some next) = changed_to val next

  unfoldable pub new_value : Bytes → Bytes → HtmlAttr → Bool → Option Bytes
  unfolding changed_to changed_srcset
  new_value s tag_name a refresh_meta =
      let val = unescape_html (value_of s a) in
      if contains srcset_attrs a.name
      then changed_srcset val (rewrite_srcset lib base val)
      else if eq a.name (codes "ping") && eq tag_name (codes "a")
      then changed_to val (rewrite_url_list lib base val)
      else if eq a.name (codes "style")
      then changed_to val (rewrite_css lib base val)
      else if refresh_meta && eq a.name (codes "content")
      then changed_to val (rewrite_meta_refresh lib base val)
      else if is_url_attr tag_name a.name
      then changed_to val (resolve lib base val)
      else none

  -- The text that takes the place of an attribute from `cur` on, and where copying goes on.
  replaced_attr : Bytes → ℕ → HtmlAttr → Bytes → Bytes × ℕ
  replaced_attr s cur a value =
      if a.quote == 0
      then (
        slice s cur a.start
            ++ (slice s a.start a.name_end
                ++ (codes "=\"" ++ (escape_attr_value value b'"' ++ codes "\""))),
        a.end,
      )
      else (slice s cur a.val_start ++ escape_attr_value value a.quote, a.val_end)

  -- What one round of the loop of `writeStartTag` writes.
  unfoldable pub write_attr : Bytes → HtmlTag → ℕ → HtmlAttr → Bytes × ℕ
  unfolding replaced_attr
  write_attr s t cur a =
      if is_dropped s t a
      then (slice s cur a.start, a.end)
      else if not a.has_value
      then ([], cur)
      else elim (new_value s t.name a (is_refresh_meta s t)) [
        | none ↦ ([], cur)
        | some value ↦ replaced_attr s cur a value
      ]

  unfoldable pub write_attrs : Bytes → HtmlTag → ℕ → List HtmlAttr → Bytes
  unfolding write_attr
  write_attrs s t cur [] = slice s cur t.end
  write_attrs s t cur (a ∷ attrs) =
      (write_attr s t cur a).0 ++ write_attrs s t (write_attr s t cur a).1 attrs

  unfoldable pub write_start_tag : Bytes → HtmlTag → Bytes
  unfolding write_attrs
  write_start_tag s t = write_attrs s t t.start t.attrs

  -- The text behind a raw-text start tag.
  raw_round : Bytes → HtmlTag → Round
  raw_round s t =
      let e = find_end_tag s t.name t.end in
      on e (
        write_start_tag s t
        ++ (if eq t.name (codes "style")
            then rewrite_css lib base (slice s t.end e)
            else slice s t.end e))

  pub start_tag_round : Bytes → ℕ → StartTag → Round
  unfolding raw_round
  start_tag_round s i not_a_tag = on (i + 1) (b'<' ∷ [])
  start_tag_round s i out_of_fuel = last []
  start_tag_round s i (tag t) =
      if eq t.name (codes "plaintext")
      then last (write_start_tag s t ++ drop t.end s)
      else if contains raw_text t.name && not t.self_closing
      then raw_round s t
      else on t.end (write_start_tag s t)

  unfoldable pub round : Bytes → ℕ → Round
  unfolding comment_round declaration_round start_tag_round letter_behind
  round s i =
      let rest = drop i s in
      if has_prefix rest (codes "<!--")
      then comment_round s i
      else if has_prefix rest (codes "<!")
          || (has_prefix rest (codes "<?") || has_prefix rest (codes "</"))
      then declaration_round s i
      else if letter_behind s i
      then start_tag_round s i (parse_start_tag s i)
      else on (i + 1) (b'<' ∷ [])

  -- `run` from the offset `i`; `none` means that the fuel ran out.
  unfoldable pub run : ℕ → Bytes → ℕ → Option Bytes
  unfolding round
  run zero s i = none
  run (suc fuel) s i = elim (index_byte (drop i s) b'<') [
    | none ↦ some (drop i s)
    | some lt ↦ elim (round s (i + lt)) [
      | last out ↦ some (slice s i (i + lt) ++ out)
      | on j out ↦ elim (run fuel s j) [
        | none ↦ none
        | some rest ↦ some (slice s i (i + lt) ++ (out ++ rest))
      ]
    ]
  ]

  -- Every round moves on by a byte or more.
  unfoldable pub scan : Bytes → Option Bytes
  unfolding run
  scan s = run (length s + 1) s 0
