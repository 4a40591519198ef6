-- ===== src/Rewrite/Scan/Pieces.antt =====
-- The scanner ends, and its output differs from the document only in start tags and style sheets.
use bumshi.Common.{
  ℕ, ◌+◌, ◌-◌, ◌≤◌, ◌<◌, Bool, true, false, not, ◌&&◌, List, [], ◌∷◌, ◌++◌, append_assoc,
  append-nil, ◌≡◌, ◌≢◌, inl, inr, refl, sym, ap, subst, ◌∙◌, arith, Bytes, codes, length, take,
  drop, if◌then◌else◌, Bool-cases, Option-cases, take-append-drop, take-append-take, drop-drop,
  length-drop, Lacks, All, All-append,
}
use bumshi.Strings.{contains, eq, index, index_byte}
use bumshi.Strings.Laws.{index_byte-lt, index-le}
use bumshi.Link.{Url, UrlLib}
use bumshi.Rewrite.Css.{rewrite_css}
use bumshi.Rewrite.Tokens.{
  HtmlTag, StartTag, tag, not_a_tag, out_of_fuel, slice, parse_start_tag, find_end_tag,
}
use bumshi.Rewrite.Tokens.Bounds.{IsTagSpan, Spanned, find_end_tag_bounds}
use bumshi.Rewrite.Scan.{
  Round, on, last, comment_round, declaration_round, letter_behind, raw_text, write_start_tag,
  raw_round, start_tag_round,
}

pub slice-slice : (s : Bytes) (i j k : ℕ) → i ≤ j → j ≤ k → slice s i j ++ slice s j k ≡ slice s i k
slice-slice s i j k p q =
    ap (λ r. take (j - i) (drop i s) ++ take (k - j) r)
      (ap (λ m. drop m s) (omega arith) ∙ sym (drop-drop (j - i) i s))
    ∙ take-append-take (j - i) (k - j) (drop i s)
    ∙ ap (λ m. take m (drop i s)) (omega arith)

pub slice-drop : (s : Bytes) (i j : ℕ) → i ≤ j → slice s i j ++ drop j s ≡ drop i s
slice-drop s i j h =
    ap (λ r. slice s i j ++ r) (ap (λ k. drop k s) (omega arith) ∙ sym (drop-drop (j - i) i s))
    ∙ take-append-drop (j - i) (drop i s)

-- A document in pieces: text; what begins with "<" and is no start tag, up to an offset; a start tag;
-- an element whose body is raw text; and a plaintext tag with all that follows it.
pub data Piece : Type 0 where
  text : Bytes → Piece
  markup : ℕ → ℕ → Piece
  start_tag raw_element plaintext : HtmlTag → Piece

-- The body of a raw-text element.
abbrev body_of : Bytes → HtmlTag → Bytes
body_of s t = slice s t.end (find_end_tag s t.name t.end)

-- What a piece is in the source.
pub source_of : Bytes → Piece → Bytes
source_of s (text b) = b
source_of s (markup i j) = slice s i j
source_of s (start_tag t) = slice s t.start t.end
source_of s (raw_element t) = slice s t.start t.end ++ body_of s t
source_of s (plaintext t) = slice s t.start t.end ++ drop t.end s

pub sources : Bytes → List Piece → Bytes
sources s [] = []
sources s (p ∷ ps) = source_of s p ++ sources s ps

abbrev is_raw : HtmlTag → Bool
is_raw t = contains raw_text t.name && not t.self_closing

-- Text holds no "<"; other markup stands where no letter follows the "<"; a tag is one that the
-- tokenizer reads, and its name tells which kind of piece it is.
abbrev pub IsPiece : Bytes → Piece → Type 0
IsPiece s (text b) = Lacks b'<' b
IsPiece s (markup i j) = (letter_behind s i ≡ false) × ((r : Bytes) × (drop i s ≡ b'<' ∷ r))
IsPiece s (start_tag t) =
    (parse_start_tag s t.start ≡ tag t)
    × (eq t.name (codes "plaintext") ≡ false)
    × (is_raw t ≡ false)
IsPiece s (raw_element t) =
    (parse_start_tag s t.start ≡ tag t)
    × (eq t.name (codes "plaintext") ≡ false)
    × (is_raw t ≡ true)
IsPiece s (plaintext t) =
    (parse_start_tag s t.start ≡ tag t) × (eq t.name (codes "plaintext") ≡ true)

sources-append :
    (s : Bytes) (ps qs : List Piece) → sources s (ps ++ qs) ≡ sources s ps ++ sources s qs
unfolding sources
sources-append s [] qs = refl
sources-append s (p ∷ ps) qs =
    ap (λ r. source_of s p ++ r) (sources-append s ps qs) ∙ sym (append_assoc (source_of s p) _ _)

module _ (lib : UrlLib) (base : Url) where
  -- What the rewriter writes for a piece.
  pub rendered_of : Bytes → Piece → Bytes
  rendered_of s (text b) = b
  rendered_of s (markup i j) = slice s i j
  rendered_of s (start_tag t) = write_start_tag lib base s t
  rendered_of s (raw_element t) =
      write_start_tag lib base s t
      ++ (if eq t.name (codes "style") then rewrite_css lib base (body_of s t) else body_of s t)
  rendered_of s (plaintext t) = write_start_tag lib base s t ++ drop t.end s

  pub rendered : Bytes → List Piece → Bytes
  rendered s [] = []
  rendered s (p ∷ ps) = rendered_of s p ++ rendered s ps

  rendered-append :
      (s : Bytes) (ps qs : List Piece) → rendered s (ps ++ qs) ≡ rendered s ps ++ rendered s qs
  unfolding rendered
  rendered-append s [] qs = refl
  rendered-append s (p ∷ ps) qs =
      ap (λ r. rendered_of s p ++ r) (rendered-append s ps qs)
      ∙ sym (append_assoc (rendered_of s p) _ _)

  -- The pieces that make up `src` and are written as `out`.
  pub record Pieces (s src out : Bytes) : Type 0 where
    pub pieces : List Piece
    pub from : sources s pieces ≡ src
    pub into : rendered s pieces ≡ out
    pub valid : All (IsPiece s) pieces

  pub both : (s a b x y : Bytes) → Pieces s a x → Pieces s b y → Pieces s (a ++ b) (x ++ y)
  both s a b x y p q = record {
    pieces = p.pieces ++ q.pieces;
    from = sources-append s p.pieces q.pieces ∙ cc (p.from, q.from);
    into = rendered-append s p.pieces q.pieces ∙ cc (p.into, q.into);
    valid = All-append (IsPiece s) p.pieces q.pieces p.valid q.valid;
  }

  one : (s : Bytes) (p : Piece) → IsPiece s p → Pieces s (source_of s p) (rendered_of s p)
  unfolding sources rendered
  one s p h = record { pieces = p ∷ []; from = append-nil _; into = append-nil _; valid = (h, tt) }

  -- What a round leaves to the next one.
  abbrev pub RoundPieces : Bytes → ℕ → Round → Type 0
  RoundPieces s i (on j out) = (i < j) × (j ≤ length s) × Pieces s (slice s i j) out
  RoundPieces s i (last out) = Pieces s (drop i s) out

  pub at_source : {s src src' out : Bytes} → src ≡ src' → Pieces s src out → Pieces s src' out
  at_source {s} {out = out} e p = subst (λ r. Pieces s r out) e p

  abbrev pub Front : Bytes → ℕ → Type 0
  Front s i = (r : Bytes) × (drop i s ≡ b'<' ∷ r)

  pub text_piece : (s b : Bytes) → Lacks b'<' b → Pieces s b b
  unfolding source_of rendered_of
  text_piece s b h = one s (text b) h

  markup_piece :
      (s : Bytes) (i j : ℕ)
      → letter_behind s i ≡ false
      → Front s i
      → Pieces s (slice s i j) (slice s i j)
  unfolding source_of rendered_of
  markup_piece s i j h front = one s (markup i j) (h, front)

  take-all : (s : Bytes) → take (length s) s ≡ s
  take-all [] = refl
  take-all (c ∷ s) = ap (λ r. c ∷ r) (take-all s)

  markup_tail :
      (s : Bytes) (i : ℕ) → letter_behind s i ≡ false → Front s i → Pieces s (drop i s) (drop i s)
  markup_tail s i h front =
      subst (λ r. Pieces s r r)
        (ap (λ k. take k (drop i s)) (sym (length-drop i s)) ∙ take-all (drop i s))
        (markup_piece s i (length s) h front)

  start_tag_piece :
      (s : Bytes) (t : HtmlTag)
      → IsPiece s (start_tag t)
      → Pieces s (slice s t.start t.end) (write_start_tag lib base s t)
  unfolding source_of rendered_of
  start_tag_piece s t h = one s (start_tag t) h

  pub comment_pieces :
      (s : Bytes) (i : ℕ)
      → letter_behind s i ≡ false
      → Front s i
      → RoundPieces s i (comment_round s i)
  unfolding comment_round
  comment_pieces s i h front = elim (Option-cases (index (drop (i + 4) s) (codes "-->"))) [
    | inl e ↦ rw (e, RoundPieces) (markup_tail s i h front)
    | inr (k, e) ↦
        rw (e, RoundPieces)
          (
            omega arith,
            omega (arith, index-le (drop (i + 4) s) (codes "-->") e, length-drop (i + 4) s),
            markup_piece s i _ h front,
          )
  ]

  pub declaration_pieces :
      (s : Bytes) (i : ℕ)
      → letter_behind s i ≡ false
      → Front s i
      → RoundPieces s i (declaration_round s i)
  unfolding declaration_round
  declaration_pieces s i h front = elim (Option-cases (index_byte (drop i s) b'>')) [
    | inl e ↦ rw (e, RoundPieces) (markup_tail s i h front)
    | inr (k, e) ↦
        rw (e, RoundPieces)
          (
            omega arith,
            omega (arith, index_byte-lt (drop i s) b'>' e, length-drop i s),
            markup_piece s i _ h front,
          )
  ]

  -- The slice of one byte.
  first_byte : (s : Bytes) (i : ℕ) (r : Bytes) → drop i s ≡ b'<' ∷ r → slice s i (i + 1) ≡ b'<' ∷ []
  first_byte s i r front =
      let e : i + 1 - i ≡ 1 = omega arith in ap (λ m. take m (drop i s)) e ∙ ap (take 1) front

  pub single_pieces :
      (s : Bytes) (i : ℕ)
      → letter_behind s i ≡ false
      → Front s i
      → RoundPieces s i (on (i + 1) (b'<' ∷ []))
  single_pieces s i h front = (
    omega arith,
    omega (arith, ap length front.1, length-drop i s),
    subst (λ r. Pieces s (slice s i (i + 1)) r) (first_byte s i front.0 front.1)
        (markup_piece s i (i + 1) h front),
  )

  raw_pieces :
      (s : Bytes) (i : ℕ) (t : HtmlTag)
      → IsTagSpan s i t
      → IsPiece s (raw_element t)
      → RoundPieces s i (raw_round lib base s t)
  unfolding raw_round source_of rendered_of
  raw_pieces s i t span h =
      let b = find_end_tag_bounds s t.name t.end span.inside in
      (
        omega arith,
        omega arith,
        at_source
            (ap (λ k. slice s k t.end ++ body_of s t) span.starts
              ∙ slice-slice s i t.end (find_end_tag s t.name t.end) (omega arith) (omega arith))
            (one s (raw_element t) h),
      )

  plaintext-Pieces :
      (s : Bytes) (i : ℕ) (t : HtmlTag)
      → IsTagSpan s i t
      → IsPiece s (plaintext t)
      → Pieces s (drop i s) (write_start_tag lib base s t ++ drop t.end s)
  unfolding source_of rendered_of
  plaintext-Pieces s i t span h =
      at_source
        (ap (λ k. slice s k t.end ++ drop t.end s) span.starts ∙ slice-drop s i t.end (omega arith))
        (one s (plaintext t) h)

  pub start_tag_pieces :
      (s : Bytes) (i : ℕ) (o : StartTag)
      → parse_start_tag s i ≡ o
      → Spanned s i o
      → o ≢ not_a_tag
      → RoundPieces s i (start_tag_round lib base s i o)
  unfolding start_tag_round
  start_tag_pieces s i not_a_tag parsed span named = absurd (named refl)
  start_tag_pieces s i out_of_fuel parsed span named = absurd span
  start_tag_pieces s i (tag t) parsed span named =
      let parsed' = ap (parse_start_tag s) span.starts ∙ parsed in
      elim (Bool-cases (eq t.name (codes "plaintext"))) [
        | inl plain ↦ rw (plain, RoundPieces) (plaintext-Pieces s i t span (parsed', plain))
        | inr e ↦ elim (Bool-cases (contains raw_text t.name && not t.self_closing)) [
          | inl raw ↦ rw (e, raw, RoundPieces) (raw_pieces s i t span (parsed', e, raw))
          | inr e' ↦
              rw (e, e', RoundPieces)
                (
                  omega arith,
                  span.inside,
                  at_source (ap (λ k. slice s k t.end) span.starts)
                      (start_tag_piece s t (parsed', e, e')),
                )
        ]
      ]
