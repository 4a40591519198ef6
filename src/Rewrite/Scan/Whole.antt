-- ===== src/Rewrite/Scan/Whole.antt =====
-- server/internal/proxy/rewrite/scan.go: `run` on a whole document.
use bumshi.Common.{
  ℕ, zero, suc, ◌+◌, ◌-◌, ◌≤◌, ◌<◌, true, false, Option, none, some, [], ◌∷◌, ◌++◌, ◌≡◌, ◌≢◌, inl,
  inr, refl, sym, ap, subst, ◌∙◌, arith, Bytes, codes, length, take, drop, Bool-cases, Option-cases,
  drop-drop, length-drop, Lacks,
}
use bumshi.Strings.{has_prefix, index_byte}
use bumshi.Strings.Laws.{
  has_prefix-split, index_byte-lt, index_byte-take, index_byte-none, index_byte-drop,
}
use bumshi.Link.{Url, UrlLib}
use bumshi.Rewrite.Tokens.{
  slice, parse_start_tag, is_ascii_letter, is_tag_name_end, is_html_space, not_a_tag,
}
use bumshi.Rewrite.Tokens.Bounds.{parse_start_tag-Spanned, parse_start_tag_named}
use bumshi.Rewrite.Scan.{Round, on, last, letter_behind, round, run, scan}
use bumshi.Rewrite.Scan.Pieces.{
  Pieces, RoundPieces, Front, at_source, both, text_piece, comment_pieces, declaration_pieces,
  single_pieces, start_tag_pieces, slice-drop,
}

behind_front : (s : Bytes) (i : ℕ) {c : ℕ} {r : Bytes} → drop i s ≡ c ∷ r → drop (i + 1) s ≡ r
behind_front s i e = sym (drop-drop 1 i s) ∙ ap (drop 1) e

-- Where the text begins with "<" and a byte that is no letter, no letter is behind the "<".
no_letter :
    (s : Bytes) (i c : ℕ) (p : Bytes)
    → is_ascii_letter c ≡ false
    → has_prefix (drop i s) (b'<' ∷ c ∷ p) ≡ true
    → letter_behind s i ≡ false
unfolding letter_behind
no_letter s i c p other h =
    rw (behind_front s i (has_prefix-split (drop i s) (b'<' ∷ c ∷ p) h), letter_behind) other

letter_inside : (c : ℕ) → is_ascii_letter c ≡ true → is_tag_name_end c ≡ false
unfolding is_ascii_letter is_tag_name_end is_html_space
letter_inside c h = ground arith

letter_front :
    (s : Bytes) (i : ℕ)
    → letter_behind s i ≡ true
    → (c : ℕ) × (r : Bytes) × (drop (i + 1) s ≡ c ∷ r) × (is_ascii_letter c ≡ true)
unfolding letter_behind
letter_front s i h = on_rest (drop (i + 1) s) refl
  where
    on_rest :
        (rest : Bytes)
        → drop (i + 1) s ≡ rest
        → (c : ℕ) × (r : Bytes) × (drop (i + 1) s ≡ c ∷ r) × (is_ascii_letter c ≡ true)
    on_rest [] e = absurd (cc (rw (e, letter_behind) at h))
    on_rest (c ∷ r) e = (c, r, e, (rw (e, letter_behind) at h))

letter_named : (s : Bytes) (i : ℕ) → letter_behind s i ≡ true → parse_start_tag s i ≢ not_a_tag
letter_named s i h =
    let (c, r, e, letter) = letter_front s i h in
    parse_start_tag_named s i c r e (letter_inside c letter)

module _ (lib : UrlLib) (base : Url) where
  round_pieces :
      (s : Bytes) (i : ℕ)
      → Front lib base s i
      → i < length s
      → RoundPieces lib base s i (round lib base s i)
  unfolding round is_ascii_letter
  round_pieces s i front lt =
      let rest = drop i s in
      elim (Bool-cases (has_prefix rest (codes "<!--"))) [
        | inl e ↦
            rw (e, RoundPieces)
              (comment_pieces lib base s i (no_letter s i b'!' (codes "--") refl e) front)
        | inr e ↦ elim (Bool-cases (has_prefix rest (codes "<!"))) [
          | inl e1 ↦
              rw (e, e1, RoundPieces)
                (declaration_pieces lib base s i (no_letter s i b'!' [] refl e1) front)
          | inr e1 ↦ elim (Bool-cases (has_prefix rest (codes "<?"))) [
            | inl e2 ↦
                rw (e, e1, e2, RoundPieces)
                  (declaration_pieces lib base s i (no_letter s i b'?' [] refl e2) front)
            | inr e2 ↦ elim (Bool-cases (has_prefix rest (codes "</"))) [
              | inl e3 ↦
                  rw (e, e1, e2, e3, RoundPieces)
                    (declaration_pieces lib base s i (no_letter s i b'/' [] refl e3) front)
              | inr e3 ↦ elim (Bool-cases (letter_behind s i)) [
                | inl l ↦
                    rw (e, e1, e2, e3, l, RoundPieces)
                      (start_tag_pieces lib base s i (parse_start_tag s i) refl
                        (parse_start_tag-Spanned s i lt) (letter_named s i l))
                | inr l ↦ rw (e, e1, e2, e3, l, RoundPieces) (single_pieces lib base s i l front)
              ]
            ]
          ]
        ]
      ]

  -- The run from `i` has a result, and that result is made of pieces.
  abbrev RunPieces : Bytes → ℕ → Option Bytes → Type 0
  RunPieces s i none = ⊥
  RunPieces s i (some out) = Pieces lib base s (drop i s) out

  run_pieces :
      (fuel : ℕ) (s : Bytes) (i : ℕ)
      → length s + 1 ≤ fuel + i
      → i ≤ length s
      → RunPieces s i (run lib base fuel s i)
  unfolding run
  run_pieces zero s i enough le = absurd (omega arith)
  run_pieces (suc fuel) s i enough le = elim (Option-cases (index_byte (drop i s) b'<')) [
    | inl e ↦
        rw (e, RunPieces) (text_piece lib base s (drop i s) (index_byte-none (drop i s) b'<' e))
    | inr (lt, e) ↦
        let (r, found) = index_byte-drop (drop i s) b'<' e in
        let inside = index_byte-lt (drop i s) b'<' e in
        let text : Pieces lib base s (slice s i (i + lt)) (slice s i (i + lt)) =
          text_piece lib base s _ (cut lt (index_byte-take (drop i s) b'<' e)) in
        rw (e, RunPieces)
          (behind_text (i + lt) (omega arith) text (round lib base s (i + lt))
            (round_pieces s (i + lt) (r, sym (drop-drop lt i s) ∙ found)
              (omega (arith, length-drop i s)))
            (λ j. run_pieces fuel s j))
  ]
    where
      cut : (lt : ℕ) → Lacks b'<' (take lt (drop i s)) → Lacks b'<' (slice s i (i + lt))
      cut lt h =
          let same : lt ≡ i + lt - i = omega arith in
          subst (λ m. Lacks b'<' (take m (drop i s))) same h

      behind_text :
          (k : ℕ)
          → i ≤ k
          → Pieces lib base s (slice s i k) (slice s i k)
          → (o : Round) → RoundPieces lib base s k o
          → ((j : ℕ)
              → length s + 1 ≤ fuel + j
              → j ≤ length s
              → RunPieces s j (run lib base fuel s j))
          → RunPieces s i (elim o [
            | last out ↦ some (slice s i k ++ out)
            | on j out ↦ elim (run lib base fuel s j) [
              | none ↦ none
              | some rest ↦ some (slice s i k ++ (out ++ rest))
            ]
          ])
      behind_text k le' text (last out) p next =
          at_source lib base (slice-drop s i k le') (both lib base s _ _ _ _ text p)
      behind_text k le' text (on j out) (lt, inside, p) next =
          on_next (run lib base fuel s j) (next j (omega arith) inside)
        where
          on_next :
              (o : Option Bytes)
              → RunPieces s j o
              → RunPieces s i
                  (elim o [ none ↦ none | some rest ↦ some (slice s i k ++ (out ++ rest)) ])
          on_next none h = h
          on_next (some rest) h =
              at_source lib base
                (ap (λ t. slice s i k ++ t) (slice-drop s k j (omega arith)) ∙ slice-drop s i k le')
                (both lib base s _ _ _ _ text (both lib base s _ _ _ _ p h))

-- The scanner ends on every document, and its output is the document with only these changes: a
-- start tag is replaced by what `writeStartTag` writes for it, and the body of a style element by the
-- rewritten style sheet. Text, comments, declarations, end tags, scripts and all other raw text are
-- copied byte for byte, in order, and every "<" with a letter behind it is read as a start tag.
pub scan-Pieces :
    (lib : UrlLib) (base : Url) (s : Bytes)
    → (out : Bytes) × (scan lib base s ≡ some out) × Pieces lib base s s out
unfolding scan
scan-Pieces lib base s =
    on_result (run lib base (length s + 1) s 0) refl
      (run_pieces lib base (length s + 1) s 0 (omega arith) (omega arith))
  where
    on_result :
        (o : Option Bytes)
        → run lib base (length s + 1) s 0 ≡ o
        → RunPieces lib base s 0 o
        → (out : Bytes) × (run lib base (length s + 1) s 0 ≡ some out) × Pieces lib base s s out
    on_result none e h = absurd h
    on_result (some out) e h = (out, e, h)
