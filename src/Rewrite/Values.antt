-- ===== src/Rewrite/Values.antt =====
-- server/internal/proxy/rewrite/scan.go: the rewriters of attribute values. The index loops run on the
-- text that is left.
pub mod Total
use bumshi.Common.{
  ℕ, zero, suc, ◌+◌, ◌-◌, Bool, true, false, not, ◌&&◌, ◌||◌, Option, none, some, List, [], ◌∷◌,
  ◌++◌, map, Bytes, codes, length, take, drop, ltb, ◌==◌, if◌then◌else◌,
}
use bumshi.Strings.{
  eq, equal_fold, index_byte, fields, has_suffix, join, trim_left, trim_right, trim_space,
}
use bumshi.Link.{Url, UrlLib, resolve}
use bumshi.Rewrite.Css.{is_quote}
use bumshi.Rewrite.Tokens.{is_html_space, run_length}

abbrev is_comma : ℕ → Bool
is_comma c = c == b','

-- `url` and `url descriptor`
abbrev with_descriptor : Bytes → Bytes → Bytes
with_descriptor link descriptor = if eq descriptor [] then link else link ++ (b' ' ∷ descriptor)

module _ (lib : UrlLib) (base : Url) where
  -- One written candidate, if its URL is not empty, in front of the others.
  abbrev written : Bytes → Bytes → List Bytes → List Bytes
  written candidate descriptor rest =
      if eq candidate []
      then rest
      else with_descriptor (resolve lib base candidate) descriptor ∷ rest

  -- The rounds of the loop of `rewriteSrcset`: the candidates that it writes. A round consumes a byte or
  -- more, so one round for each byte, and one, is enough; `none` means that the fuel ran out.
  unfoldable pub srcset_on : ℕ → Bytes → Option (List Bytes)
  unfolding run_length is_html_space has_suffix trim_right trim_space
  srcset_on zero v = none
  srcset_on (suc fuel) v =
      let at = drop (run_length (λ c. is_html_space c || is_comma c) v) v in
      let n = run_length (λ c. not (is_html_space c)) at in
      let candidate = take n at in
      let behind = drop n at in
      let d = run_length (λ c. not (is_comma c)) behind in
      let comma_ended = srcset_on fuel behind in
      let described = srcset_on fuel (drop d behind) in
      elim at [
        | [] ↦ some []
        | c ∷ s ↦ elim (has_suffix candidate (b',' ∷ [])) [
          | true ↦ elim comma_ended [
            | none ↦ none
            | some rest ↦ some (written (trim_right is_comma candidate) [] rest)
          ]
          | false ↦ elim described [
            | none ↦ none
            | some rest ↦ some (written candidate (trim_space (take d behind)) rest)
          ]
        ]
      ]

  abbrev join_candidates : Bytes → Option (List Bytes) → Option Bytes
  join_candidates v none = none
  join_candidates v (some []) = some v
  join_candidates v (some (p ∷ ps)) = some (join (p ∷ ps) (codes ", "))

  unfoldable pub rewrite_srcset : Bytes → Option Bytes
  unfolding srcset_on join
  rewrite_srcset v = join_candidates v (srcset_on (length v + 1) v)

  abbrev join_links : Bytes → List Bytes → Bytes
  join_links v [] = v
  join_links v (f ∷ fs) = join (map (resolve lib base) (f ∷ fs)) (b' ' ∷ [])

  unfoldable pub rewrite_url_list : Bytes → Bytes
  unfolding fields join
  rewrite_url_list v = join_links v (fields v)

  -- The reference behind "url=": what stands in quotes, or all of it less the white space at its end.
  unfoldable pub refresh_reference : Bytes → Bytes
  unfolding index_byte trim_right is_html_space
  refresh_reference [] = []
  refresh_reference (q ∷ ref) =
      if is_quote q
      then elim (index_byte ref q) [ none ↦ ref | some j ↦ take j ref ]
      else trim_right is_html_space (q ∷ ref)

  abbrev end_refresh : Bytes → Bytes → Bytes → Bytes
  end_refresh v front ref =
      let next = resolve lib base ref in if eq next ref then v else front ++ (codes "url=" ++ next)

  -- What stands behind "url" and white space must be "=".
  abbrev refresh_behind_url : Bytes → Bytes → Bytes → Bytes
  refresh_behind_url v front [] = v
  refresh_behind_url v front (c ∷ s) =
      if c == b'='
      then end_refresh v front (refresh_reference (drop (run_length is_html_space s) s))
      else v

  unfoldable pub rewrite_meta_refresh : Bytes → Bytes
  unfolding index_byte trim_left is_html_space equal_fold refresh_reference run_length
  rewrite_meta_refresh v = elim (index_byte v b';') [
    | none ↦ v
    | some semi ↦
        let rest = drop (semi + 1) v in
        let trimmed = trim_left is_html_space rest in
        let lead = take (length rest - length trimmed) rest in
        let front = take (semi + 1) v ++ lead in
        let behind = drop 3 trimmed in
        if ltb (length trimmed) 4 || not (equal_fold (take 3 trimmed) (codes "url"))
        then v
        else refresh_behind_url v front (drop (run_length is_html_space behind) behind)
  ]
