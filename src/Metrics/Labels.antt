-- ===== src/Metrics/Labels.antt =====
-- server/internal/metrics/metrics.go: a label's value in the text format can be read back, whatever it is.
use bumshi.Common.{
  ℕ, Bool, true, false, Option, none, some, [], ◌∷◌, ◌++◌, ◌≡◌, inl, inr, refl, sym, ap, ◌∙◌, arith,
  Bytes, ◌==◌, Bool-cases, ==_iff, Lacks, All-append, append_assoc, if◌then◌else◌,
}
use bumshi.Metrics.{escape_byte, escape_label_value}

-- The byte that an escape sequence stands for, by the byte behind the backslash.
unfoldable pub unescaped : ℕ → ℕ
unescaped c = if c == b'n' then b'\n' else c

abbrev add_byte : ℕ → Option (Bytes × Bytes) → Option (Bytes × Bytes)
add_byte c none = none
add_byte c (some (v, rest)) = some (c ∷ v, rest)

-- What the text format's reader takes for a value, `behind` a backslash or not: up to the first quote that
-- no backslash stands before.
unfoldable pub read_value : Bool → Bytes → Option (Bytes × Bytes)
unfolding unescaped
read_value behind [] = none
read_value true (c ∷ s) = add_byte (unescaped c) (read_value false s)
read_value false (c ∷ s) = elim (c == b'"') [
  | true ↦ some ([], s)
  | false ↦ elim (c == b'\\') [ true ↦ read_value true s | false ↦ add_byte c (read_value false s) ]
]

read_value-escape_byte :
    (c : ℕ) (t v rest : Bytes)
    → read_value false t ≡ some (v, rest)
    → read_value false (escape_byte c ++ t) ≡ some (c ∷ v, rest)
unfolding read_value escape_byte unescaped
read_value-escape_byte c t v rest h = elim (Bool-cases (c == b'\\')) [
  | inl e ↦ rw e (ap (add_byte b'\\') h ∙ ap (λ d. some (d ∷ v, rest)) (sym ((==_iff c b'\\').0 e)))
  | inr e ↦ rw e (elim (Bool-cases (c == b'"')) [
    | inl e1 ↦
        rw e1 (ap (add_byte b'"') h ∙ ap (λ d. some (d ∷ v, rest)) (sym ((==_iff c b'"').0 e1)))
    | inr e1 ↦ rw e1 (elim (Bool-cases (c == b'\n')) [
      | inl e2 ↦
          rw e2 (ap (add_byte b'\n') h ∙ ap (λ d. some (d ∷ v, rest)) (sym ((==_iff c b'\n').0 e2)))
      | inr e2 ↦ rw e2 (rw (e1, read_value) (rw e (ap (add_byte c) h)))
    ])
  ])
]

escape_byte-Lacks : (c : ℕ) → Lacks b'\n' (escape_byte c)
unfolding escape_byte
escape_byte-Lacks c = elim (Bool-cases (c == b'\\')) [
  | inl e ↦ rw e (omega arith)
  | inr e ↦ rw e (elim (Bool-cases (c == b'"')) [
    | inl e1 ↦ rw e1 (omega arith)
    | inr e1 ↦ rw e1 (elim (Bool-cases (c == b'\n')) [
      | inl e2 ↦ rw e2 (omega arith)
      | inr e2 ↦ rw e2 (ground (arith, e2), tt)
    ])
  ])
]

-- A value that is escaped, between quotes, is read back as it was, and the reader stops right behind it;
-- and no line ends within it.
pub read_value-escape_label_value :
    (v rest : Bytes)
    → (read_value false (escape_label_value v ++ b'"' ∷ rest) ≡ some (v, rest))
      × Lacks b'\n' (escape_label_value v)
unfolding read_value escape_label_value
read_value-escape_label_value [] rest = (refl, tt)
read_value-escape_label_value (c ∷ v) rest =
    let (read, no_break) = read_value-escape_label_value v rest in
    (
      ap (read_value false) (append_assoc (escape_byte c) (escape_label_value v) (b'"' ∷ rest))
          ∙ read_value-escape_byte c (escape_label_value v ++ b'"' ∷ rest) v rest read,
      All-append _ (escape_byte c) (escape_label_value v) (escape_byte-Lacks c) no_break,
    )
