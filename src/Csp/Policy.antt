-- ===== src/Csp/Policy.antt =====
-- server/internal/proxy/csp.go: what a translated policy says.
use bumshi.Common.{
  Bool, true, false, not, ◌&&◌, ◌||◌, Option, none, some, List, [], ◌∷◌, ◌++◌, ◌≡◌, ◌≢◌, ◌⊎◌, inl,
  inr, refl, ◌∙◌, arith, Bytes, codes, Bool-cases, All, All-append,
}
use bumshi.Strings.{contains, eq, fields, join, split, to_lower}
use bumshi.Strings.Laws.{eq_self}
use bumshi.Csp.{
  verbatim_directives, dropped_directives, script_directives, none_source, translated,
  translate_sources, remove_source, nonce_source, admit_runtime, or_none, sources_for, directive,
  directives, rewrite_csp,
}
use bumshi.Csp.Sources.{
  IsLocal, none-IsLocal, nonce-IsLocal, any_translated, contains-append, contains-translate_sources,
  translate_sources_lem, translated_ne, remove_source-All, contains-remove_source,
}

-- A directive that may start scripts lists the nonce and not 'none', if there is a nonce.
pub admits_runtime : Bytes → Bytes → List Bytes → Bool
admits_runtime nonce name sources =
    not (contains script_directives name && not (eq nonce []))
    || contains sources (nonce_source nonce) && not (contains sources none_source)

-- The site's source `s` is still listed, in translation, unless it is 'none'.
abbrev Kept : List Bytes → Bytes → Type 0
Kept sources s = (eq none_source (translated s) || contains sources (translated s)) ≡ true

-- A source list that takes the place of the site's `old` one in the directive `name`.
pub record IsSources (nonce name : Bytes) (old sources : List Bytes) : Type 0 where
  pub local : All IsLocal sources
  pub some_source : sources ≢ []
  pub runtime : admits_runtime nonce name sources ≡ true
  pub kept : All (Kept sources) old

-- What a directive of the site's policy, given by its words, is translated to.
abbrev pub IsDirective : Bytes → List Bytes → Bytes → Type 0
IsDirective nonce [] d = ⊥
IsDirective nonce (word ∷ old) d =
    (contains dropped_directives (to_lower word) ≡ false)
    × (((contains verbatim_directives (to_lower word) ≡ true) × (d ≡ join (word ∷ old) (codes " ")))
        ⊎ ((sources : List Bytes) × (d ≡ to_lower word ++ (b' ' ∷ join sources (codes " ")))
            × IsSources nonce (to_lower word) old sources))

-- A directive that is not sent on: an empty one, or one that names a report endpoint.
abbrev pub IsSilent : List Bytes → Type 0
IsSilent [] = Unit
IsSilent (word ∷ old) = contains dropped_directives (to_lower word) ≡ true

-- The directives of a policy and what stands for them, in order.
abbrev pub IsTranslation : Bytes → List Bytes → List Bytes → Type 0
IsTranslation nonce [] ds = ds ≡ []
IsTranslation nonce (raw ∷ raws) ds =
    (IsSilent (fields raw) × IsTranslation nonce raws ds)
    ⊎ ((d : Bytes) × (rest : List Bytes) × (ds ≡ d ∷ rest)
        × IsDirective nonce (fields raw) d
        × IsTranslation nonce raws rest)

or_none-All :
    (P : Bytes → Type 0) (sources : List Bytes)
    → P none_source
    → All P sources
    → All P (or_none sources)
unfolding or_none
or_none-All P [] n h = (n, tt)
or_none-All P (s ∷ sources) n h = h

or_none-ne : (sources : List Bytes) → or_none sources ≢ []
unfolding or_none
or_none-ne [] h = cc h
or_none-ne (s ∷ sources) h = cc h

or_none-append : (xs : List Bytes) (y : Bytes) → or_none (xs ++ y ∷ []) ≡ xs ++ y ∷ []
unfolding or_none
or_none-append [] y = refl
or_none-append (x ∷ xs) y = refl

contains-or_none :
    (sources : List Bytes) (y : Bytes)
    → contains sources y ≡ true
    → contains (or_none sources) y ≡ true
unfolding or_none contains
contains-or_none [] y h = absurd (cc h)
contains-or_none (s ∷ sources) y h = h

admit_runtime-IsLocal :
    (name nonce : Bytes) (sources : List Bytes)
    → All IsLocal sources
    → All IsLocal (admit_runtime name nonce sources)
unfolding admit_runtime
admit_runtime-IsLocal name nonce sources h =
    elim (Bool-cases (contains script_directives name && not (eq nonce []))) [
      | inl e ↦ rw e (
          All-append IsLocal (remove_source sources none_source) (nonce_source nonce ∷ [])
            (remove_source-All IsLocal sources none_source h) (nonce-IsLocal nonce, tt))
      | inr e ↦ rw e h
    ]

admits_runtime-or_none :
    (name nonce : Bytes) (sources : List Bytes)
    → admits_runtime nonce name (or_none (admit_runtime name nonce sources)) ≡ true
unfolding admits_runtime admit_runtime
admits_runtime-or_none name nonce sources =
    elim (Bool-cases (contains script_directives name && not (eq nonce []))) [
      | inl e ↦ rw e (
          rw (or_none-append (remove_source sources none_source) (nonce_source nonce))
            (ground (arith, listed, unlisted)))
      | inr e ↦ rw e refl
    ]
  where
    last : (y : Bytes) → contains (nonce_source nonce ∷ []) y ≡ eq (nonce_source nonce) y
    last y = unfold contains in ground arith

    listed :
        contains (remove_source sources none_source ++ nonce_source nonce ∷ []) (nonce_source nonce)
        ≡ true
    listed =
        contains-append (remove_source sources none_source) _ _
        ∙ ground (arith, last (nonce_source nonce), eq_self (nonce_source nonce))

    unlisted :
        contains (remove_source sources none_source ++ nonce_source nonce ∷ []) none_source ≡ false
    unlisted =
        let other : eq (nonce_source nonce) none_source ≡ false = unfold eq in refl in
        contains-append (remove_source sources none_source) _ _
        ∙ ground (
          arith,
          last none_source,
          other,
          contains-remove_source sources none_source none_source,
          eq_self none_source,
        )

kept_in :
    (name nonce : Bytes) (sources : List Bytes) (y : Bytes)
    → contains sources y ≡ true
    → (eq none_source y || contains (or_none (admit_runtime name nonce sources)) y) ≡ true
unfolding admit_runtime
kept_in name nonce sources y h =
    elim (Bool-cases (contains script_directives name && not (eq nonce []))) [
      | inl e ↦
          rw (e, admit_runtime)
            (rw (or_none-append (remove_source sources none_source) (nonce_source nonce)) (
              ground (
                arith,
                contains-append (remove_source sources none_source) (nonce_source nonce ∷ []) y,
                contains-remove_source sources none_source y,
              )))
      | inr e ↦ rw (e, admit_runtime) (ground (arith, contains-or_none sources y h))
    ]

All-Kept :
    (name nonce : Bytes) (old more : List Bytes)
    → ((s : Bytes)
        → any_translated more (translated s) ≡ true
        → any_translated old (translated s) ≡ true)
    → All (Kept (sources_for name nonce old)) more
unfolding any_translated
All-Kept name nonce old [] sub = tt
All-Kept name nonce old (s ∷ more) sub = (
  kept_in name nonce (translate_sources old) (translated s) (
      contains-translate_sources old (translated s) (translated_ne s)
      ∙ sub s (ground (arith, eq_self (translated s)))),
  All-Kept name nonce old more (λ w h. sub w (ground (arith, h))),
)

sources_for-IsSources :
    (name nonce : Bytes) (old : List Bytes) → IsSources nonce name old (sources_for name nonce old)
sources_for-IsSources name nonce old = record {
  local =
      or_none-All IsLocal _ none-IsLocal
        (admit_runtime-IsLocal name nonce (translate_sources old) (translate_sources_lem old).0);
  some_source = or_none-ne _;
  runtime = admits_runtime-or_none name nonce (translate_sources old);
  kept = All-Kept name nonce old old (λ s h. h);
}

-- What one directive gives.
abbrev DirectiveOf : Bytes → List Bytes → Option Bytes → Type 0
DirectiveOf nonce words none = IsSilent words
DirectiveOf nonce words (some d) = IsDirective nonce words d

directive-DirectiveOf :
    (nonce : Bytes) (words : List Bytes) → DirectiveOf nonce words (directive nonce words)
unfolding directive
directive-DirectiveOf nonce [] = tt
directive-DirectiveOf nonce (word ∷ old) =
    elim (Bool-cases (contains dropped_directives (to_lower word))) [
      | inl e ↦ rw (e, DirectiveOf) e
      | inr e ↦ elim (Bool-cases (contains verbatim_directives (to_lower word))) [
        | inl v ↦ rw (e, v, DirectiveOf) (e, inl (v, refl))
        | inr v ↦
            rw (e, v, DirectiveOf)
              (
                e,
                inr (
                  sources_for (to_lower word) nonce old,
                  refl,
                  sources_for-IsSources (to_lower word) nonce old,
                ),
              )
      ]
    ]

directives-IsTranslation :
    (nonce : Bytes) (raws : List Bytes) → IsTranslation nonce raws (directives nonce raws)
unfolding directives
directives-IsTranslation nonce [] = refl
directives-IsTranslation nonce (raw ∷ raws) =
    with_directive (directive nonce (fields raw)) (directive-DirectiveOf nonce (fields raw))
      (directives-IsTranslation nonce raws)
  where
    with_directive :
        (o : Option Bytes)
        → DirectiveOf nonce (fields raw) o
        → IsTranslation nonce raws (directives nonce raws)
        → IsTranslation nonce
            (raw ∷ raws)
            (elim o [ none ↦ directives nonce raws | some d ↦ d ∷ directives nonce raws ])
    with_directive none h rest = inl (h, rest)
    with_directive (some d) h rest = inr (d, directives nonce raws, refl, h, rest)

-- A policy is translated directive by directive, in order. Only empty directives and report endpoints
-- are left out. A directive with no source list keeps its words; any other keeps its name and gets
-- a list that is not empty and names no foreign host or scheme, in which every source of the site
-- stands in translation unless it is 'none'. Where such a directive may start scripts and there is a
-- nonce, the list has the nonce and no 'none'.
pub rewrite_csp-IsTranslation :
    (policy nonce : Bytes)
    → (ds : List Bytes) × (rewrite_csp policy nonce ≡ join ds (codes "; "))
      × IsTranslation nonce (split policy b';') ds
unfolding rewrite_csp
rewrite_csp-IsTranslation policy nonce =
    (directives nonce (split policy b';'), refl, directives-IsTranslation nonce (split policy b';'))
