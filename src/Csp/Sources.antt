-- ===== src/Csp/Sources.antt =====
-- server/internal/proxy/csp.go: the source lists of a translated policy.
use bumshi.Common.{
  Bool, true, false, not, ◌&&◌, ◌||◌, List, [], ◌∷◌, ◌++◌, ◌≡◌, ◌⊎◌, inl, inr, refl, sym, ap, ◌∙◌,
  arith, Bytes, Bool-cases, All, All-append,
}
use bumshi.Strings.{contains, eq, has_prefix, to_lower}
use bumshi.Strings.Laws.{eq_iff, to_lower-to_lower}
use bumshi.Csp.{
  source_keywords, local_schemes, self_source, none_source, is_nonce_or_hash, translated,
  add_source, translate_on, translate_sources, remove_source, nonce_source,
}

pub contains-append :
    (xs ys : List Bytes) (y : Bytes) → contains (xs ++ ys) y ≡ (contains xs y || contains ys y)
unfolding contains
contains-append [] ys y = refl
contains-append (x ∷ xs) ys y = ground (arith, contains-append xs ys y)

eq_comm : (s t : Bytes) → eq s t ≡ eq t s
unfolding eq
eq_comm [] [] = refl
eq_comm [] (y ∷ t) = refl
eq_comm (x ∷ s) [] = refl
eq_comm (x ∷ s) (y ∷ t) = ground (arith, eq_comm s t)

-- A source that means the same on every origin: a keyword, a nonce or a hash, or a local scheme.
abbrev pub IsLocal : Bytes → Type 0
IsLocal s =
    (contains source_keywords (to_lower s) ≡ true)
    ⊎ ((is_nonce_or_hash (to_lower s) ≡ true) ⊎ (contains local_schemes (to_lower s) ≡ true))

self-IsLocal : IsLocal self_source
unfolding contains eq to_lower
self-IsLocal = inl refl

pub none-IsLocal : IsLocal none_source
unfolding contains eq to_lower
none-IsLocal = inl refl

pub nonce-IsLocal : (nonce : Bytes) → IsLocal (nonce_source nonce)
unfolding contains eq to_lower is_nonce_or_hash has_prefix
nonce-IsLocal nonce = inr (inl refl)

translated-IsLocal : (s : Bytes) → IsLocal (translated s)
unfolding translated
translated-IsLocal s = elim (Bool-cases (contains source_keywords (to_lower s))) [
  | inl e ↦ rw e (inl (ap (contains source_keywords) (to_lower-to_lower s) ∙ e))
  | inr e ↦ elim (Bool-cases (is_nonce_or_hash (to_lower s))) [
    | inl e1 ↦ rw (e, e1) (inr (inl e1))
    | inr e1 ↦ elim (Bool-cases (contains local_schemes (to_lower s))) [
      | inl e2 ↦ rw (e, e1, e2) (inr (inr (ap (contains local_schemes) (to_lower-to_lower s) ∙ e2)))
      | inr e2 ↦ rw (e, e1, e2) self-IsLocal
    ]
  ]
]

add_source-All :
    (P : Bytes → Type 0) (out : List Bytes) (s : Bytes) → All P out → P s → All P (add_source out s)
unfolding add_source
add_source-All P out s h p = elim (Bool-cases (not (eq s []) && not (contains out s))) [
  | inl e ↦ rw e (All-append P out (s ∷ []) h (p, tt))
  | inr e ↦ rw e h
]

translate_on-IsLocal :
    (out sources : List Bytes) → All IsLocal out → All IsLocal (translate_on out sources)
unfolding translate_on
translate_on-IsLocal out [] h = h
translate_on-IsLocal out (s ∷ sources) h =
    translate_on-IsLocal (add_source out (translated s)) sources
      (add_source-All IsLocal out (translated s) h (translated-IsLocal s))

-- Each source is listed once.
abbrev pub Distinct : List Bytes → Type 0
Distinct [] = Unit
Distinct (s ∷ sources) = (contains sources s ≡ false) × Distinct sources

append-Distinct :
    (xs : List Bytes) (y : Bytes) → Distinct xs → contains xs y ≡ false → Distinct (xs ++ y ∷ [])
unfolding contains
append-Distinct [] y h e = (refl, tt)
append-Distinct (x ∷ xs) y (new, h) e = (
  contains-append xs (y ∷ []) x ∙ ground (arith, new, e, eq_comm x y),
  append-Distinct xs y h (ground (arith, e)),
)

add_source-Distinct : (out : List Bytes) (s : Bytes) → Distinct out → Distinct (add_source out s)
unfolding add_source
add_source-Distinct out s h = elim (Bool-cases (not (eq s []) && not (contains out s))) [
  | inl e ↦ rw e (append-Distinct out s h (ground (arith, e)))
  | inr e ↦ rw e h
]

translate_on-Distinct :
    (out sources : List Bytes) → Distinct out → Distinct (translate_on out sources)
unfolding translate_on
translate_on-Distinct out [] h = h
translate_on-Distinct out (s ∷ sources) h =
    translate_on-Distinct (add_source out (translated s)) sources
      (add_source-Distinct out (translated s) h)

-- Whether some source is translated to `y`.
unfoldable pub any_translated : List Bytes → Bytes → Bool
any_translated [] y = false
any_translated (s ∷ sources) y = eq (translated s) y || any_translated sources y

contains-add_source :
    (out : List Bytes) (s y : Bytes)
    → eq y [] ≡ false
    → contains (add_source out s) y ≡ (contains out y || eq s y)
unfolding add_source
contains-add_source out s y ne = elim (Bool-cases (eq s [])) [
  | inl e ↦ rw e (ground (arith, empty_other e))
  | inr e ↦ elim (Bool-cases (contains out s)) [
    | inl e1 ↦ rw (e, e1) (known e1)
    | inr e1 ↦ rw (e, e1) (contains-append out (s ∷ []) y ∙ last_one)
  ]
]
  where
    empty_other : eq s [] ≡ true → eq s y ≡ false
    empty_other e = ap (λ w. eq w y) ((eq_iff s []).0 e) ∙ eq_comm [] y ∙ ne

    known : contains out s ≡ true → contains out y ≡ (contains out y || eq s y)
    known e1 = elim (Bool-cases (eq s y)) [
      | inl e ↦
          let e2 : contains out y ≡ true = ap (contains out) (sym ((eq_iff s y).0 e)) ∙ e1 in
          ground (arith, e, e2)
      | inr e ↦ ground (arith, e)
    ]

    last_one : (contains out y || contains (s ∷ []) y) ≡ (contains out y || eq s y)
    last_one = unfold contains in ground arith

contains-translate_on :
    (out sources : List Bytes) (y : Bytes)
    → eq y [] ≡ false
    → contains (translate_on out sources) y ≡ (contains out y || any_translated sources y)
unfolding translate_on any_translated
contains-translate_on out [] y ne = ground arith
contains-translate_on out (s ∷ sources) y ne =
    contains-translate_on (add_source out (translated s)) sources y ne
    ∙ ap (λ b. b || any_translated sources y) (contains-add_source out (translated s) y ne)
    ∙ ground arith

-- A translated source list holds the translations of the site's sources and nothing else.
pub contains-translate_sources :
    (sources : List Bytes) (y : Bytes)
    → eq y [] ≡ false
    → contains (translate_sources sources) y ≡ any_translated sources y
unfolding translate_sources contains
contains-translate_sources sources y ne = contains-translate_on [] sources y ne

-- A translated source list names no foreign host and no foreign scheme, and no source twice.
pub translate_sources_lem :
    (sources : List Bytes)
    → All IsLocal (translate_sources sources) × Distinct (translate_sources sources)
unfolding translate_sources
translate_sources_lem sources =
    (translate_on-IsLocal [] sources tt, translate_on-Distinct [] sources tt)

keyword_ne : (w : Bytes) → contains source_keywords w ≡ true → eq w [] ≡ false
unfolding contains eq
keyword_ne [] h = absurd (cc h)
keyword_ne (c ∷ w) h = refl

scheme_ne : (w : Bytes) → contains local_schemes w ≡ true → eq w [] ≡ false
unfolding contains eq
scheme_ne [] h = absurd (cc h)
scheme_ne (c ∷ w) h = refl

nonce_ne : (w : Bytes) → is_nonce_or_hash (to_lower w) ≡ true → eq w [] ≡ false
unfolding is_nonce_or_hash has_prefix to_lower eq
nonce_ne [] h = absurd (cc h)
nonce_ne (c ∷ w) h = refl

pub translated_ne : (s : Bytes) → eq (translated s) [] ≡ false
unfolding translated
translated_ne s = elim (Bool-cases (contains source_keywords (to_lower s))) [
  | inl e ↦ rw e (keyword_ne (to_lower s) e)
  | inr e ↦ elim (Bool-cases (is_nonce_or_hash (to_lower s))) [
    | inl e1 ↦ rw (e, e1) (nonce_ne s e1)
    | inr e1 ↦ elim (Bool-cases (contains local_schemes (to_lower s))) [
      | inl e2 ↦ rw (e, e1, e2) (scheme_ne (to_lower s) e2)
      | inr e2 ↦ rw (e, e1, e2) (unfold eq in refl)
    ]
  ]
]

pub remove_source-All :
    (P : Bytes → Type 0) (sources : List Bytes) (y : Bytes)
    → All P sources
    → All P (remove_source sources y)
unfolding remove_source
remove_source-All P [] y h = tt
remove_source-All P (s ∷ sources) y (p, h) = elim (Bool-cases (eq s y)) [
  | inl e ↦ rw e (remove_source-All P sources y h)
  | inr e ↦ rw e (p, remove_source-All P sources y h)
]

pub contains-remove_source :
    (sources : List Bytes) (dropped y : Bytes)
    → contains (remove_source sources dropped) y ≡ (contains sources y && not (eq dropped y))
unfolding remove_source contains
contains-remove_source [] dropped y = refl
contains-remove_source (s ∷ sources) dropped y = elim (Bool-cases (eq s dropped)) [
  | inl e ↦
      let same : eq s y ≡ eq dropped y = ap (λ w. eq w y) ((eq_iff s dropped).0 e) in
      rw e (ground (arith, contains-remove_source sources dropped y, same))
  | inr e ↦ rw e (ground (arith, contains-remove_source sources dropped y, other e))
]
  where
    other : eq s dropped ≡ false → (eq s y && eq dropped y) ≡ false
    other e = elim (Bool-cases (eq s y)) [
      | inl e1 ↦
          let e2 : eq dropped y ≡ false =
            eq_comm dropped y ∙ ap (λ w. eq w dropped) (sym ((eq_iff s y).0 e1)) ∙ e in
          ground (arith, e1, e2)
      | inr e1 ↦ ground (arith, e1)
    ]
