-- ===== src/Rewrite/Tokens/Attrs.antt =====
-- The offsets of one attribute: in order and within the source, whatever the bytes are.
use bumshi.Common.{
  ℕ, zero, suc, ◌+◌, ◌≤◌, ◌<◌, Bool, true, false, not, some, [], ◌∷◌, ◌≡◌, ◌⊎◌, inl, inr, refl, sym,
  ap, subst, ◌∙◌, arith, Bytes, length, drop, get_elem?, ◌==◌, Bool-cases, Option-cases,
  length-drop, ==_iff,
}
use bumshi.Rewrite.Tokens.{
  HtmlAttr, HtmlTag, AttrScan, StartTag, tag, not_a_tag, out_of_fuel, run_length, skip, byte_is,
  no_value, quoted, unquoted, read_value, read_attr, parse_attrs, attr_fuel, finish_tag,
  parse_start_tag, find_end_tag, find_end_on, is_html_space, is_attr_name_end, is_tag_name_end,
  slice,
}

pub run_length-le : (p : ℕ → Bool) (s : Bytes) → run_length p s ≤ length s
unfolding run_length
run_length-le p [] = omega arith
run_length-le p (c ∷ s) = ground (arith, run_length-le p s)

pub skip_bounds :
    (p : ℕ → Bool) (s : Bytes) (j : ℕ) → j ≤ length s → (j ≤ skip p s j) × (skip p s j ≤ length s)
unfolding skip
skip_bounds p s j h = omega (arith, run_length-le p (drop j s), length-drop j s)

pub get_elem?-lt : (s : Bytes) (j : ℕ) {c : ℕ} → get_elem? s j ≡ some c → j < length s
get_elem?-lt [] j h = absurd (cc h)
get_elem?-lt (x ∷ s) zero h = omega arith
get_elem?-lt (x ∷ s) (suc j) h = omega (arith, get_elem?-lt s j h)

pub byte_is-lt : (s : Bytes) (j c : ℕ) → byte_is s j c ≡ true → j < length s
unfolding byte_is
byte_is-lt s j c h = elim (Option-cases (get_elem? s j)) [
  | inl e ↦ absurd (cc (rw (e, byte_is) at h))
  | inr (d, e) ↦ get_elem?-lt s j e
]

-- The offsets of an attribute that begins at `j`.
pub record IsAttrSpan (s : Bytes) (j : ℕ) (a : HtmlAttr) : Type 0 where
  pub starts : a.start ≡ j
  pub named : a.start ≤ a.name_end
  pub valued : a.name_end ≤ a.val_start
  pub ordered : a.val_start ≤ a.val_end
  pub closed : a.val_end ≤ a.end
  pub inside : a.end ≤ length s

quoted-IsAttrSpan :
    (s : Bytes) (a : HtmlAttr) (j q k : ℕ)
    → IsAttrSpan s j a
    → a.name_end ≤ k
    → byte_is s k q ≡ true
    → IsAttrSpan s j (quoted s a q k) × (k < (quoted s a q k).end)
unfolding quoted
quoted-IsAttrSpan s a j q k span le here =
    let lt = byte_is-lt s k q here in
    let b = skip_bounds (λ c. not (c == q)) s (k + 1) (omega arith) in
    ground (arith, byte_is-lt s (skip (λ c. not (c == q)) s (k + 1)) q)

unquoted-IsAttrSpan :
    (s : Bytes) (a : HtmlAttr) (j k : ℕ)
    → IsAttrSpan s j a
    → a.name_end ≤ k
    → k ≤ length s
    → IsAttrSpan s j (unquoted s a k) × (k ≤ (unquoted s a k).end)
unfolding unquoted
unquoted-IsAttrSpan s a j k span le inside =
    let b = skip_bounds (λ c. not (bumshi.Rewrite.Tokens.is_unquoted_value_end c)) s k inside in
    ground arith

read_value-IsAttrSpan :
    (s : Bytes) (a : HtmlAttr) (j k : ℕ)
    → IsAttrSpan s j a
    → a.name_end ≤ k
    → k ≤ length s
    → IsAttrSpan s j (read_value s a k) × (k ≤ (read_value s a k).end)
unfolding read_value
read_value-IsAttrSpan s a j k span le inside = elim (Bool-cases (byte_is s k b'"')) [
  | inl double ↦
      let r = quoted-IsAttrSpan s a j b'"' k span le double in rw double (r.0, omega (arith, r.1))
  | inr other ↦ elim (Bool-cases (byte_is s k b'\'')) [
    | inl single ↦
        let r = quoted-IsAttrSpan s a j b'\'' k span le single in
        rw (other, single) (r.0, omega (arith, r.1))
    | inr bare ↦ rw (other, bare) (unquoted-IsAttrSpan s a j k span le inside)
  ]
]

-- `read_attr`'s parts, by name.
abbrev name_stop : Bytes → ℕ → ℕ
name_stop s j = skip (λ c. not (is_attr_name_end c)) s j

abbrev equals_at : Bytes → ℕ → ℕ
equals_at s j = skip is_html_space s (name_stop s j)

no_value-IsAttrSpan :
    (s : Bytes) (j : ℕ) → j ≤ length s → IsAttrSpan s j (no_value s j (name_stop s j))
no_value-IsAttrSpan s j h = let b = skip_bounds (λ c. not (is_attr_name_end c)) s j h in omega arith

-- With a value, the attribute ends behind the `=`.
read_attr_valued :
    (s : Bytes) (j : ℕ)
    → j ≤ length s
    → byte_is s (equals_at s j) b'=' ≡ true
    → IsAttrSpan s j (read_attr s j) × (equals_at s j < (read_attr s j).end)
unfolding read_attr
read_attr_valued s j h e =
    let n = skip_bounds (λ c. not (is_attr_name_end c)) s j h in
    let k = skip_bounds is_html_space s (name_stop s j) n.1 in
    let v =
      skip_bounds is_html_space s (equals_at s j + 1)
        (omega (arith, byte_is-lt s (equals_at s j) b'=' e)) in
    let r =
      read_value-IsAttrSpan s (no_value s j (name_stop s j)) j
        (skip is_html_space s (equals_at s j + 1)) (no_value-IsAttrSpan s j h) (omega arith) v.1 in
    rw e (r.0, omega (arith, r.1, v.0))

read_attr_bare :
    (s : Bytes) (j : ℕ)
    → j ≤ length s
    → byte_is s (equals_at s j) b'=' ≡ false
    → IsAttrSpan s j (read_attr s j) × ((read_attr s j).end ≡ name_stop s j)
unfolding read_attr
read_attr_bare s j h e = rw e (no_value-IsAttrSpan s j h, refl)

pub read_attr-IsAttrSpan : (s : Bytes) (j : ℕ) → j ≤ length s → IsAttrSpan s j (read_attr s j)
read_attr-IsAttrSpan s j h = elim (Bool-cases (byte_is s (equals_at s j) b'=')) [
  | inl e ↦ (read_attr_valued s j h e).0
  | inr e ↦ (read_attr_bare s j h e).0
]

drop_at : (s : Bytes) (j : ℕ) {c : ℕ} → get_elem? s j ≡ some c → (t : Bytes) × (drop j s ≡ c ∷ t)
drop_at [] j h = absurd (cc h)
drop_at (x ∷ s) zero h = (s, ground arith)
drop_at (x ∷ s) (suc j) h = drop_at s j h

skip_stay :
    (p : ℕ → Bool) (s : Bytes) (j : ℕ) {c : ℕ}
    → get_elem? s j ≡ some c
    → p c ≡ false
    → skip p s j ≡ j
unfolding skip run_length
skip_stay p s j {c} h e =
    let (t, front) = drop_at s j h in rw (front, run_length) (rw e (omega arith))

pub skip_move :
    (p : ℕ → Bool) (s : Bytes) (j : ℕ) {c : ℕ}
    → get_elem? s j ≡ some c
    → p c ≡ true
    → j < skip p s j
unfolding skip run_length
skip_move p s j {c} h e =
    let (t, front) = drop_at s j h in rw (front, run_length) (rw e (omega arith))

pub get_elem?-drop : (j k : ℕ) (s : Bytes) → get_elem? s (j + k) ≡ get_elem? (drop j s) k
get_elem?-drop zero k s = ap (get_elem? s) (omega arith)
get_elem?-drop (suc j) k [] = refl
get_elem?-drop (suc j) k (x ∷ s) = ap (get_elem? (x ∷ s)) e ∙ get_elem?-drop j k s
  where
    e : suc j + k ≡ suc (j + k)
    e = omega arith

pub run_length_stop :
    (p : ℕ → Bool) (t : Bytes) {c : ℕ} → get_elem? t (run_length p t) ≡ some c → p c ≡ false
unfolding run_length
run_length_stop p [] h = absurd (cc h)
run_length_stop p (x ∷ t) {c} h = elim (Bool-cases (p x)) [
  | inl e ↦ run_length_stop p t (rw e at h)
  | inr e ↦
      let same : some x ≡ some c = rw e at h in
      let e' : x ≡ c = cc same in subst (λ d. p d ≡ false) e' e
]

-- The byte at which a skip stops fails the test.
pub skip_stop :
    (p : ℕ → Bool) (s : Bytes) (j : ℕ) {c : ℕ} → get_elem? s (skip p s j) ≡ some c → p c ≡ false
unfolding skip
skip_stop p s j h =
    run_length_stop p (drop j s) (sym (get_elem?-drop j (run_length p (drop j s)) s) ∙ h)

name_end_cases :
    (c : ℕ)
    → is_html_space c ≡ false
    → (c == b'>') ≡ false
    → (c == b'/') ≡ false
    → (is_attr_name_end c ≡ false) ⊎ (c ≡ b'=')
unfolding is_attr_name_end is_tag_name_end
name_end_cases c sp gt sl = ground arith

at_equals : (s : Bytes) (j : ℕ) → get_elem? s j ≡ some b'=' → equals_at s j ≡ j
at_equals s j h =
    ap (skip is_html_space s)
      (skip_stay (λ d. not (is_attr_name_end d)) s j h (unfold is_attr_name_end in refl))
    ∙ skip_stay is_html_space s j h (unfold is_html_space in refl)

-- A round of the attribute loop that reads an attribute consumes a byte, also where the attribute has
-- no name because the byte is an `=`.
pub read_attr_progress :
    (s : Bytes) (j c : ℕ)
    → get_elem? s j ≡ some c
    → is_html_space c ≡ false
    → (c == b'>') ≡ false
    → (c == b'/') ≡ false
    → j < (read_attr s j).end
read_attr_progress s j c h sp gt sl =
    let inside = get_elem?-lt s j h in
    let n = skip_bounds (λ d. not (is_attr_name_end d)) s j (omega arith) in
    let k = skip_bounds is_html_space s (name_stop s j) n.1 in
    elim (name_end_cases c sp gt sl) [
      | inl in_name ↦
          let moved = skip_move (λ d. not (is_attr_name_end d)) s j h (ap not in_name) in
          elim (Bool-cases (byte_is s (equals_at s j) b'=')) [
            | inl e ↦ omega (arith, (read_attr_valued s j (omega arith) e).1)
            | inr e ↦ omega (arith, (read_attr_bare s j (omega arith) e).1)
          ]
      | inr equals ↦
          let here : equals_at s j ≡ j = at_equals s j (h ∙ ap some equals) in
          let e : byte_is s j b'=' ≡ true =
            unfold byte_is in rw (h, byte_is) ((==_iff c b'=').1 equals) in
          omega (arith, (read_attr_valued s j (omega arith) (rw here e)).1)
    ]
