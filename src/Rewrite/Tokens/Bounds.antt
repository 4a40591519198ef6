-- ===== src/Rewrite/Tokens/Bounds.antt =====
-- The offsets of a whole tag: in order and within the source, whatever the bytes are.
use bumshi.Common.{
  ℕ, zero, suc, ◌+◌, ◌≤◌, ◌<◌, false, not, Option, none, some, List, [], ◌∷◌, ◌++◌, ◌≡◌, ◌≢◌, inl,
  inr, refl, ap, ◌∙◌, arith, Bytes, length, drop, get_elem?, ◌==◌, if◌then◌else◌, Bool-cases,
  Option-cases, length-drop,
}
use bumshi.Strings.{eq, to_lower}
use bumshi.Rewrite.Tokens.{
  HtmlAttr, HtmlTag, AttrScan, StartTag, tag, not_a_tag, out_of_fuel, skip, byte_is, read_attr,
  parse_attrs, attr_fuel, finish_tag, parse_start_tag, find_end_tag, find_end_on, is_html_space,
  is_tag_name_end, slice,
}
use bumshi.Rewrite.Tokens.Attrs.{
  skip_bounds, get_elem?-lt, byte_is-lt, IsAttrSpan, read_attr-IsAttrSpan, skip_move,
  get_elem?-drop, skip_stop, read_attr_progress,
}

-- Attributes in order between two offsets, each in order within itself.
abbrev pub IsOrdered : Bytes → ℕ → List HtmlAttr → ℕ → Type 0
IsOrdered s lo [] hi = (lo ≤ hi) × (hi ≤ length s)
IsOrdered s lo (a ∷ attrs) hi = (lo ≤ a.start) × IsAttrSpan s a.start a × IsOrdered s a.end attrs hi

IsOrdered-append :
    (s : Bytes) (lo : ℕ) (attrs : List HtmlAttr) (mid : ℕ) (a : HtmlAttr) (hi : ℕ)
    → IsOrdered s lo attrs mid
    → mid ≤ a.start
    → IsAttrSpan s a.start a
    → a.end ≤ hi
    → hi ≤ length s
    → IsOrdered s lo (attrs ++ (a ∷ [])) hi
IsOrdered-append s lo [] mid a hi h le span le' inside = (omega arith, span, (le', inside))
IsOrdered-append s lo (b ∷ attrs) mid a hi (l, sp, h) le span le' inside =
    (l, sp, IsOrdered-append s b.end attrs mid a hi h le span le' inside)

IsOrdered-extend :
    (s : Bytes) (lo : ℕ) (attrs : List HtmlAttr) (mid hi : ℕ)
    → IsOrdered s lo attrs mid
    → mid ≤ hi
    → hi ≤ length s
    → IsOrdered s lo attrs hi
IsOrdered-extend s lo [] mid hi h le inside = (omega arith, inside)
IsOrdered-extend s lo (b ∷ attrs) mid hi (l, sp, h) le inside =
    (l, sp, IsOrdered-extend s b.end attrs mid hi h le inside)

-- What the attribute loop returns, from `from` with the attributes `attrs` behind it.
abbrev Scanned : Bytes → ℕ → ℕ → Option AttrScan → Type 0
Scanned s lo from none = ⊥
Scanned s lo from (some r) = IsOrdered s lo r.attrs r.end × (from ≤ r.end)

Scanned-from :
    (s : Bytes) (lo from mid : ℕ) (o : Option AttrScan)
    → from ≤ mid
    → Scanned s lo mid o
    → Scanned s lo from o
Scanned-from s lo from mid none le h = h
Scanned-from s lo from mid (some r) le (h, end) = (h, omega arith)

at_start : (s : Bytes) (j : ℕ) (a : HtmlAttr) → IsAttrSpan s j a → IsAttrSpan s a.start a
at_start s j a span = record {
  starts = refl;
  named = span.named;
  valued = span.valued;
  ordered = span.ordered;
  closed = span.closed;
  inside = span.inside;
}

-- An attribute without a name is dropped.
with_attr :
    (s : Bytes) (lo j : ℕ) (attrs : List HtmlAttr) (a : HtmlAttr)
    → IsAttrSpan s j a
    → IsOrdered s lo attrs j
    → IsOrdered s lo (if eq a.name [] then attrs else attrs ++ (a ∷ [])) a.end
with_attr s lo j attrs a span h = elim (Bool-cases (eq a.name [])) [
  | inl e ↦ rw e (IsOrdered-extend s lo attrs j a.end h (omega arith) span.inside)
  | inr e ↦ rw e (
      IsOrdered-append s lo attrs j a a.end h (omega arith) (at_start s j a span) (omega arith)
        span.inside)
]

parse_attrs-Scanned :
    (fuel : ℕ) (s : Bytes) (lo from : ℕ) (attrs : List HtmlAttr)
    → length s + 1 ≤ fuel + from
    → from ≤ length s
    → IsOrdered s lo attrs from
    → Scanned s lo from (parse_attrs fuel s from attrs)
unfolding parse_attrs
parse_attrs-Scanned zero s lo from attrs enough inside h = absurd (omega arith)
parse_attrs-Scanned (suc fuel) s lo from attrs enough inside h =
    let j = skip is_html_space s from in
    let b = skip_bounds is_html_space s from inside in
    let here = IsOrdered-extend s lo attrs from j h b.0 b.1 in
    elim (Option-cases (get_elem? s j)) [
      | inl e ↦
          rw (e, Scanned)
            (IsOrdered-extend s lo attrs from (length s) h inside (omega arith), inside)
      | inr (c, e) ↦
          let lt = get_elem?-lt s j e in
          elim (Bool-cases (c == b'>')) [
            | inl gt ↦
                rw (e, gt, Scanned)
                  (
                    IsOrdered-extend s lo attrs j (j + 1) here (omega arith) (omega arith),
                    omega arith,
                  )
            | inr gt ↦ elim (Bool-cases (c == b'/')) [
              | inl sl ↦ elim (Bool-cases (byte_is s (j + 1) b'>')) [
                | inl close ↦
                    let lt' = byte_is-lt s (j + 1) b'>' close in
                    rw (e, gt, sl, close, Scanned)
                      (
                        IsOrdered-extend s lo attrs j (j + 2) here (omega arith) (omega arith),
                        omega arith,
                      )
                | inr open_ ↦
                    rw (e, gt, sl, open_, Scanned)
                      (Scanned-from s lo from _ _ (omega arith) (
                        parse_attrs-Scanned fuel s lo (j + 1) attrs (omega arith) (omega arith)
                          (IsOrdered-extend s lo attrs j (j + 1) here (omega arith) (omega arith))))
              ]
              | inr sl ↦
                  let moved = read_attr_progress s j c e (skip_stop is_html_space s from e) gt sl in
                  let span = read_attr-IsAttrSpan s j (omega arith) in
                  rw (e, gt, sl, Scanned)
                    (Scanned-from s lo from _ _ (omega arith) (
                      parse_attrs-Scanned fuel s lo (read_attr s j).end _ (omega arith) span.inside
                        (with_attr s lo j attrs (read_attr s j) span here)))
            ]
          ]
    ]

-- A start tag as `parseStartTag` returns it from the offset `i`.
pub record IsTagSpan (s : Bytes) (i : ℕ) (t : HtmlTag) : Type 0 where
  pub starts : t.start ≡ i
  pub moves : i + 1 < t.end
  pub inside : t.end ≤ length s
  pub attributes : IsOrdered s (i + 2) t.attrs t.end

abbrev pub Spanned : Bytes → ℕ → StartTag → Type 0
Spanned s i (tag t) = IsTagSpan s i t
Spanned s i not_a_tag = Unit
Spanned s i out_of_fuel = ⊥

ordered_inside :
    (s : Bytes) (lo : ℕ) (attrs : List HtmlAttr) (hi : ℕ) → IsOrdered s lo attrs hi → hi ≤ length s
ordered_inside s lo [] hi h = h.1
ordered_inside s lo (a ∷ attrs) hi (l, sp, h) = ordered_inside s a.end attrs hi h

finish_tag-Spanned :
    (s name : Bytes) (i j : ℕ) (o : Option AttrScan)
    → i + 1 < j
    → Scanned s (i + 2) j o
    → Spanned s i (finish_tag name i o)
finish_tag-Spanned s name i j none lt h = h
finish_tag-Spanned s name i j (some r) lt (h, end) = record {
  starts = refl;
  moves = omega arith;
  inside = ordered_inside s (i + 2) r.attrs r.end h;
  attributes = h;
}

-- `parseStartTag` ends within its fuel on every input. The tag that it returns ends behind the name,
-- within the source, and the offsets of its attributes are in order and lie within the tag, so that
-- no slice that the rewriter takes is out of range.
pub parse_start_tag-Spanned : (s : Bytes) (i : ℕ) → i < length s → Spanned s i (parse_start_tag s i)
unfolding parse_start_tag
parse_start_tag-Spanned s i h =
    let j = skip (λ c. not (is_tag_name_end c)) s (i + 1) in
    let b = skip_bounds (λ c. not (is_tag_name_end c)) s (i + 1) (omega arith) in
    elim (Bool-cases (j == i + 1)) [
      | inl e ↦ rw e tt
      | inr e ↦ rw e (
          finish_tag-Spanned s _ i j _ (ground arith)
            (parse_attrs-Scanned (length s + 1) s (i + 2) j [] (omega arith) b.1 (ground arith)))
    ]

find_end_on_bounds :
    (name : Bytes) (pos : ℕ) (rest : Bytes)
    → (pos ≤ find_end_on name pos rest) × (find_end_on name pos rest ≤ pos + length rest)
unfolding find_end_on
find_end_on_bounds name pos [] = omega arith
find_end_on_bounds name pos (c ∷ rest) = ground (arith, find_end_on_bounds name (pos + 1) rest)

-- The end tag is searched forwards and within the source.
pub find_end_tag_bounds :
    (s name : Bytes) (from : ℕ)
    → from ≤ length s
    → (from ≤ find_end_tag s name from) × (find_end_tag s name from ≤ length s)
unfolding find_end_tag
find_end_tag_bounds s name from h =
    omega (arith, find_end_on_bounds name from (drop from s), length-drop from s)

finished : (name : Bytes) (i : ℕ) (o : Option AttrScan) → finish_tag name i o ≢ not_a_tag
finished name i none h = cc
finished name i (some r) h = cc

-- Behind a letter there is always a tag.
pub parse_start_tag_named :
    (s : Bytes) (i c : ℕ) (r : Bytes)
    → drop (i + 1) s ≡ c ∷ r
    → is_tag_name_end c ≡ false
    → parse_start_tag s i ≢ not_a_tag
unfolding parse_start_tag
parse_start_tag_named s i c r front inside h =
    let at : get_elem? s (i + 1) ≡ some c =
      ap (get_elem? s) (omega arith) ∙ get_elem?-drop (i + 1) 0 s ∙ ap (λ t. get_elem? t 0) front in
    let moved = skip_move (λ d. not (is_tag_name_end d)) s (i + 1) at (ap not inside) in
    is_tag s i _ (ground arith) h
  where
    is_tag :
        (s : Bytes) (i j : ℕ)
        → (j == i + 1) ≡ false
        → (if j == i + 1
            then not_a_tag
            else finish_tag (to_lower (slice s (i + 1) j)) i (parse_attrs (attr_fuel s) s j []))
          ≢ not_a_tag
    is_tag s i j e = rw e (finished _ i (parse_attrs (attr_fuel s) s j []))
