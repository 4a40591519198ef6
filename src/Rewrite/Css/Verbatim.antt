-- ===== src/Rewrite/Css/Verbatim.antt =====
-- CSS whose references do not change is returned as it was written.
use bumshi.Common.{
  ℕ, zero, suc, true, Option, [], ◌∷◌, ◌++◌, ◌≡◌, inl, inr, refl, ap, ◌∙◌, Bytes, take, drop,
  take-append-drop, Option-cases,
}
use bumshi.Strings.{eq}
use bumshi.Strings.Laws.{eq_iff}
use bumshi.Link.{Url, UrlLib, resolve}
use bumshi.Rewrite.Css.{
  Match, replace_all, match_url, match_import, replace_url, replace_import, rewrite_css,
  split_quoted,
}

replace_all_verbatim :
    (find : Bytes → Option Match) (new : Bytes → Bytes)
    → ((m : Bytes) → new m ≡ m)
    → (k : ℕ) (s : Bytes) → replace_all find new k s ≡ drop k s
unfolding replace_all
replace_all_verbatim find new same zero [] = refl
replace_all_verbatim find new same (suc k) [] = refl
replace_all_verbatim find new same (suc k) (c ∷ s) = replace_all_verbatim find new same k s
replace_all_verbatim find new same zero (c ∷ s) = elim (Option-cases (find (c ∷ s))) [
  | inl e ↦ rw (e, replace_all) (ap (λ r. c ∷ r) (replace_all_verbatim find new same 0 s))
  | inr (m, e) ↦
      rw (e, replace_all)
        (rw (same (c ∷ take m.more s)) (
          ap (λ r. (c ∷ take m.more s) ++ r) (replace_all_verbatim find new same m.more s)
          ∙ ap (λ r. c ∷ r) (take-append-drop m.more s)))
]

module _ (lib : UrlLib) (base : Url) (alone : (v : Bytes) → resolve lib base v ≡ v) where
  unchanged : (v : Bytes) → eq (resolve lib base v) v ≡ true
  unchanged v = (eq_iff _ _).1 (alone v)

  replace_url_same : (m : Bytes) → replace_url lib base m ≡ m
  unfolding replace_url
  replace_url_same m = elim (Option-cases (match_url m)) [
    | inl e ↦ rw (e, replace_url)
    | inr (g, e) ↦ rw (e, replace_url) (rw (unchanged (split_quoted g.group).1))
  ]

  replace_import_same : (m : Bytes) → replace_import lib base m ≡ m
  unfolding replace_import
  replace_import_same m = elim (Option-cases (match_import m)) [
    | inl e ↦ rw (e, replace_import)
    | inr (g, e) ↦ rw (e, replace_import) (rw (unchanged (split_quoted g.group).1))
  ]

  -- If `Resolve` leaves every reference alone, a stylesheet is returned byte for byte.
  pub rewrite_css_verbatim : (s : Bytes) → rewrite_css lib base s ≡ s
  unfolding rewrite_css
  rewrite_css_verbatim s =
      replace_all_verbatim match_import _ replace_import_same 0 _
      ∙ replace_all_verbatim match_url _ replace_url_same 0 s
