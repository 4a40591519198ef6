-- ===== src/Rewrite/Entities/RoundTrip.antt =====
-- A value that was escaped for a quote is read back, and cannot close the quote.
use bumshi.Common.{
  ℕ, true, false, none, [], ◌∷◌, ◌++◌, append_assoc, ◌≡◌, ◌⊎◌, inl, inr, refl, sym, ap, ◌∙◌, arith,
  Bytes, codes, ◌==◌, if◌then◌else◌, Bool-cases, Option-cases, Lacks, All-append, ==_iff,
}
use bumshi.Strings.{replace_byte, index_byte}
use bumshi.Rewrite.Entities.{unescape_on, unescape_html, escape_attr_value}

-- The two quotes of HTML.
abbrev pub IsQuote : ℕ → Type 0
IsQuote q = (q ≡ b'"') ⊎ (q ≡ b'\'')

quote_reference : ℕ → Bytes
quote_reference q = if q == b'"' then codes "&quot;" else codes "&#39;"

-- What one byte becomes.
escaped_byte : ℕ → ℕ → Bytes
escaped_byte q c = if c == b'&' then codes "&amp;" else if c == q then quote_reference q else c ∷ []

escaped : ℕ → Bytes → Bytes
escaped q [] = []
escaped q (c ∷ v) = escaped_byte q c ++ escaped q v

replace_byte-append :
    (s t : Bytes) (c : ℕ) (new : Bytes)
    → replace_byte (s ++ t) c new ≡ replace_byte s c new ++ replace_byte t c new
unfolding replace_byte
replace_byte-append [] t c new = refl
replace_byte-append (x ∷ s) t c new =
    ap (λ r. (if x == c then new else x ∷ []) ++ r) (replace_byte-append s t c new)
    ∙ sym (append_assoc (if x == c then new else x ∷ []) _ _)

replaced_byte :
    (q c : ℕ)
    → IsQuote q
    → replace_byte (if c == b'&' then codes "&amp;" else c ∷ []) q (quote_reference q)
      ≡ escaped_byte q c
unfolding replace_byte escaped_byte quote_reference
replaced_byte q c (inl e) = rw e (ground arith)
replaced_byte q c (inr e) = rw e (ground arith)

first_byte :
    (c : ℕ) (v : Bytes)
    → replace_byte (c ∷ v) b'&' (codes "&amp;")
      ≡ (if c == b'&' then codes "&amp;" else c ∷ []) ++ replace_byte v b'&' (codes "&amp;")
unfolding replace_byte
first_byte c v = refl

escaped_lem :
    (q : ℕ) (v : Bytes)
    → IsQuote q
    → replace_byte (replace_byte v b'&' (codes "&amp;")) q (quote_reference q) ≡ escaped q v
unfolding escaped
escaped_lem q [] h = unfold replace_byte in refl
escaped_lem q (c ∷ v) h =
    ap (λ r. replace_byte r q (quote_reference q)) (first_byte c v)
    ∙ replace_byte-append (if c == b'&' then codes "&amp;" else c ∷ []) _ q (quote_reference q)
    ∙ rw (replaced_byte q c h) (ap (λ r. escaped_byte q c ++ r) (escaped_lem q v h))

escape_attr_value-escaped : (q : ℕ) (v : Bytes) → IsQuote q → escape_attr_value v q ≡ escaped q v
unfolding escape_attr_value quote_reference
escape_attr_value-escaped q v (inl e) = rw e (escaped_lem b'"' v (inl refl))
escape_attr_value-escaped q v (inr e) = rw e (escaped_lem b'\'' v (inr refl))

escaped_byte-Lacks : (q c : ℕ) → IsQuote q → Lacks q (escaped_byte q c)
unfolding escaped_byte quote_reference
escaped_byte-Lacks q c (inl e) = rw e (ground arith)
escaped_byte-Lacks q c (inr e) = rw e (ground arith)

escaped-Lacks : (q : ℕ) (v : Bytes) → IsQuote q → Lacks q (escaped q v)
unfolding escaped
escaped-Lacks q [] h = tt
escaped-Lacks q (c ∷ v) h =
    All-append _ (escaped_byte q c) (escaped q v) (escaped_byte-Lacks q c h) (escaped-Lacks q v h)

-- A value that is spliced between two quotes holds no such quote, so it cannot end the attribute.
pub escape_attr_value-Lacks : (q : ℕ) (v : Bytes) → IsQuote q → Lacks q (escape_attr_value v q)
escape_attr_value-Lacks q v h = rw (escape_attr_value-escaped q v h) (escaped-Lacks q v h)

unescape_on_other :
    (c : ℕ) (rest : Bytes) → (c == b'&') ≡ false → unescape_on 0 (c ∷ rest) ≡ c ∷ unescape_on 0 rest
unfolding unescape_on
unescape_on_other c rest e = rw (e, unescape_on)

same : (c d : ℕ) (rest : Bytes) → (c == d) ≡ true → d ∷ unescape_on 0 rest ≡ c ∷ unescape_on 0 rest
same c d rest e = ap (λ x. x ∷ unescape_on 0 rest) (sym ((==_iff c d).0 e))

unescape_quote_reference :
    (q : ℕ) (rest : Bytes)
    → IsQuote q
    → unescape_on 0 (quote_reference q ++ rest) ≡ q ∷ unescape_on 0 rest
unfolding quote_reference unescape_on
unescape_quote_reference q rest (inl e) = rw e
unescape_quote_reference q rest (inr e) = rw e

unescape_on-escaped_byte :
    (q c : ℕ) (rest : Bytes)
    → IsQuote q
    → unescape_on 0 (escaped_byte q c ++ rest) ≡ c ∷ unescape_on 0 rest
unfolding escaped_byte quote_reference unescape_on
unescape_on-escaped_byte q c rest h = elim (Bool-cases (c == b'&')) [
  | inl amp ↦ rw amp (same c b'&' rest amp)
  | inr other ↦ elim (Bool-cases (c == q)) [
    | inl quote ↦ rw (other, quote) (unescape_quote_reference q rest h ∙ same c q rest quote)
    | inr plain ↦ rw (other, plain) (unescape_on_other c rest other)
  ]
]

unescape_on-escaped : (q : ℕ) (v : Bytes) → IsQuote q → unescape_on 0 (escaped q v) ≡ v
unfolding escaped
unescape_on-escaped q [] h = unfold unescape_on in refl
unescape_on-escaped q (c ∷ v) h =
    unescape_on-escaped_byte q c (escaped q v) h ∙ ap (λ r. c ∷ r) (unescape_on-escaped q v h)

unescape_on_plain : (s : Bytes) → index_byte s b'&' ≡ none → unescape_on 0 s ≡ s
unfolding unescape_on index_byte
unescape_on_plain [] h = refl
unescape_on_plain (c ∷ s) h = elim (Bool-cases (c == b'&')) [
  | inl e ↦ ground (arith, e)
  | inr e ↦ unescape_on_other c s e ∙ ap (λ r. c ∷ r) (unescape_on_plain s (ground (arith, e)))
]

-- The shortcut for a text without "&" changes nothing.
pub unescape_html-unescape_on : (s : Bytes) → unescape_html s ≡ unescape_on 0 s
unescape_html-unescape_on s = elim (Option-cases (index_byte s b'&')) [
  | inl e ↦ unfold unescape_html in rw (e, unescape_html) (sym (unescape_on_plain s e))
  | inr (i, e) ↦ unfold unescape_html in rw (e, unescape_html)
]

-- A value that was escaped for a single or a double quote is read back as it was, whatever bytes it
-- holds.
pub unescape_html-escape_attr_value :
    (q : ℕ) (v : Bytes) → IsQuote q → unescape_html (escape_attr_value v q) ≡ v
unescape_html-escape_attr_value q v h =
    unescape_html-unescape_on _
    ∙ ap (unescape_on 0) (escape_attr_value-escaped q v h)
    ∙ unescape_on-escaped q v h
