-- ===== src/Rewrite/Values/Total.antt =====
-- server/internal/proxy/rewrite/scan.go: the loop of `rewriteSrcset` ends.
use bumshi.Common.{
  ℕ, zero, suc, ◌+◌, ◌≤◌, ◌<◌, false, not, ◌||◌, Option, none, some, List, [], ◌∷◌, ◌≡◌, inl, inr,
  refl, sym, subst, arith, Bytes, codes, length, take, drop, get_elem?, Bool-cases, length-drop,
}
use bumshi.Strings.{has_suffix, join}
use bumshi.Link.{Url, UrlLib}
use bumshi.Rewrite.Tokens.{is_html_space, run_length}
use bumshi.Rewrite.Tokens.Attrs.{run_length_stop}
use bumshi.Rewrite.Values.{is_comma, srcset_on, join_candidates, rewrite_srcset}

front_of : (s : Bytes) {c : ℕ} {r : Bytes} (k : ℕ) → drop k s ≡ c ∷ r → get_elem? s k ≡ some c
front_of [] zero e = absurd (cc e)
front_of [] (suc k) e = absurd (cc e)
front_of (x ∷ s) zero e = cc e
front_of (x ∷ s) (suc k) e = front_of s k e

-- A candidate is one byte or more, since white space was skipped.
candidate_front :
    (c : ℕ) (r : Bytes)
    → (is_html_space c || is_comma c) ≡ false
    → length (drop (run_length (λ d. not (is_html_space d)) (c ∷ r)) (c ∷ r)) < length (c ∷ r)
unfolding run_length
candidate_front c r h = elim (Bool-cases (is_html_space c)) [
  | inl e ↦ absurd (ground (arith, e))
  | inr e ↦ rw e (omega (arith, length-drop (run_length (λ d. not (is_html_space d)) r) r))
]

module _ (lib : UrlLib) (base : Url) where
  abbrev Found : {A : Type 0} → Option A → Type 0
  Found none = ⊥
  Found (some a) = Unit

  srcset_on-Found : (fuel : ℕ) (v : Bytes) → length v < fuel → Found (srcset_on lib base fuel v)
  unfolding srcset_on
  srcset_on-Found zero v h = absurd (omega arith)
  srcset_on-Found (suc fuel) v h =
      on_rest (drop (run_length (λ c. is_html_space c || is_comma c) v) v) refl
        (λ w le. srcset_on-Found fuel w (omega arith))
    where
      from_rest :
          (o : Option (List Bytes)) (f : List Bytes → List Bytes)
          → Found o
          → Found (elim o [ none ↦ none | some rest ↦ some (f rest) ])
      from_rest none f p = p
      from_rest (some r) f p = tt

      on_rest :
          (at : Bytes)
          → drop (run_length (λ c. is_html_space c || is_comma c) v) v ≡ at
          → ((w : Bytes) → length w < length v → Found (srcset_on lib base fuel w))
          → Found (srcset_on lib base (suc fuel) v)
      on_rest [] e next = rw (e, srcset_on) tt
      on_rest (c ∷ r) e next =
          let at = drop (run_length (λ d. is_html_space d || is_comma d) v) v in
          let stop = run_length_stop (λ d. is_html_space d || is_comma d) v (front_of v _ e) in
          let n = run_length (λ d. not (is_html_space d)) at in
          let shorter : length (drop n at) < length at =
            subst (λ w. length (drop (run_length (λ d. not (is_html_space d)) w) w) < length w)
              (sym e) (candidate_front c r stop) in
          let within : length at ≤ length v =
            omega (arith, length-drop (run_length (λ d. is_html_space d || is_comma d) v) v) in
          let d = run_length (λ d. not (is_comma d)) (drop n at) in
          rw (e, srcset_on)
            (elim (Bool-cases (has_suffix (take n at) (b',' ∷ []))) [
              | inl t ↦ rw t (from_rest _ _ (next (drop n at) (omega arith)))
              | inr f ↦ rw f (
                  from_rest _ _
                    (next (drop d (drop n at)) (omega (arith, length-drop d (drop n at)))))
            ])

  -- The loop of `rewriteSrcset` ends on every value within the fuel that it is given.
  pub rewrite_srcset_total : (v : Bytes) → (out : Bytes) × (rewrite_srcset lib base v ≡ some out)
  unfolding rewrite_srcset
  rewrite_srcset_total v =
      joined (srcset_on lib base (length v + 1) v) (srcset_on-Found (length v + 1) v (omega arith))
    where
      joined :
          (o : Option (List Bytes))
          → Found o
          → (out : Bytes) × (join_candidates lib base v o ≡ some out)
      joined none h = absurd h
      joined (some []) h = (v, refl)
      joined (some (p ∷ ps)) h = (join (p ∷ ps) (codes ", "), refl)
