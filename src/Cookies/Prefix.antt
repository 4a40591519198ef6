-- ===== src/Cookies/Prefix.antt =====
-- The prefix `b_<hash><kind>_` can be read back: it is the only one that a packed name begins with.
use bumshi.Common.{
  ℕ, ◌<◌, ◌^◌, Bool, true, false, none, some, List, [], ◌∷◌, ◌++◌, append_assoc, append-nil, ◌≡◌,
  ◌≢◌, refl, sym, ap, subst, ◌∙◌, arith, Bytes, length, drop, if◌then◌else◌, inl, inr, Bool-cases,
  Lacks, All, All-append, length-append, drop-length_append,
}
use bumshi.Strings.{to_lower, has_prefix, contains, eq}
use bumshi.Strings.Laws.{eq_iff, eq_self, has_prefix-append, has_prefix-split}
use bumshi.Cookies.{cookie_prefix, fnv1a64, fnv_from, fnv_round, scope_kind, strip_any}
use bumshi.Cookies.Hex.{format_hex, format_hex-Lacks, format_hex-injective}

-- A text up to the first separator is determined.
upto_separator :
    (c : ℕ) (a b x y : Bytes)
    → Lacks c a
    → Lacks c b
    → a ++ (c ∷ x) ≡ b ++ (c ∷ y)
    → (a ≡ b) × (x ≡ y)
upto_separator c [] [] x y ha hb e = ground arith
upto_separator c (s ∷ a) [] x y ha hb e = ground arith
upto_separator c [] (t ∷ b) x y ha hb e = ground arith
upto_separator c (s ∷ a) (t ∷ b) x y ha hb e = ground (arith, upto_separator c a b x y ha.1 hb.1)

-- The hash and the kind letter, in front of the closing underscore.
tag : Bytes → Bool → Bytes
tag s m = format_hex (fnv1a64 (to_lower s)) ++ (scope_kind m ∷ [])

tag-Lacks : (s : Bytes) (m : Bool) → Lacks b'_' (tag s m)
unfolding tag
tag-Lacks s true =
    All-append _ (format_hex (fnv1a64 (to_lower s))) _ (format_hex-Lacks _) (omega arith)
tag-Lacks s false =
    All-append _ (format_hex (fnv1a64 (to_lower s))) _ (format_hex-Lacks _) (omega arith)

cookie_prefix-tag :
    (s : Bytes) (m : Bool) (n : Bytes)
    → cookie_prefix s m ++ n ≡ b'b' ∷ b'_' ∷ (tag s m ++ (b'_' ∷ n))
unfolding cookie_prefix tag
cookie_prefix-tag s m n = simp append_assoc

last_of_append : (a b : Bytes) (x y : ℕ) → a ++ (x ∷ []) ≡ b ++ (y ∷ []) → (a ≡ b) × (x ≡ y)
last_of_append [] [] x y e = ground arith
last_of_append (s ∷ []) [] x y e = ground arith
last_of_append (s ∷ s' ∷ a) [] x y e = ground arith
last_of_append [] (t ∷ []) x y e = ground arith
last_of_append [] (t ∷ t' ∷ b) x y e = ground arith
last_of_append (s ∷ a) (t ∷ b) x y e = ground (arith, last_of_append a b x y)

cookie_prefix-tag_nil :
    (s : Bytes) (m : Bool) → cookie_prefix s m ≡ b'b' ∷ b'_' ∷ (tag s m ++ (b'_' ∷ []))
cookie_prefix-tag_nil s m = sym (append-nil _) ∙ cookie_prefix-tag s m []

tag_injective :
    (s t : Bytes) (m k : Bool) → tag s m ≡ tag t k → cookie_prefix s m ≡ cookie_prefix t k
tag_injective s t m k e =
    cookie_prefix-tag_nil s m
    ∙ ap (λ u. b'b' ∷ b'_' ∷ (u ++ b'_' ∷ [])) e
    ∙ sym (cookie_prefix-tag_nil t k)

-- A packed name begins with no other prefix than its own.
pub has_prefix-cookie_prefix :
    (s t : Bytes) (m k : Bool) (n : Bytes)
    → has_prefix (cookie_prefix s m ++ n) (cookie_prefix t k) ≡ true
    → cookie_prefix t k ≡ cookie_prefix s m
has_prefix-cookie_prefix s t m k n h =
    sym
      (tag_injective s t m k (upto_separator b'_' _ _ n _ (tag-Lacks s m) (tag-Lacks t k) tails).0)
  where
    rest : Bytes
    rest = drop (length (cookie_prefix t k)) (cookie_prefix s m ++ n)

    tails : tag s m ++ (b'_' ∷ n) ≡ tag t k ++ (b'_' ∷ rest)
    tails =
        ap (drop 2)
          (sym (cookie_prefix-tag s m n) ∙ has_prefix-split _ _ h ∙ cookie_prefix-tag t k rest)

fnv_from-lt : (h : ℕ) (s : Bytes) → h < 2 ^ 64 → fnv_from h s < 2 ^ 64
unfolding fnv_from
fnv_from-lt h [] lt = lt
fnv_from-lt h (c ∷ s) lt = fnv_from-lt (fnv_round h c) s (omega arith)

fnv1a64-lt : (s : Bytes) → fnv1a64 s < 2 ^ 64
unfolding fnv1a64
fnv1a64-lt s = fnv_from-lt _ s (omega arith)

-- Equal prefixes have equal hashes and kinds.
pub cookie_prefix-injective :
    (s t : Bytes) (m k : Bool)
    → cookie_prefix s m ≡ cookie_prefix t k
    → (fnv1a64 (to_lower s) ≡ fnv1a64 (to_lower t)) × (scope_kind m ≡ scope_kind k)
unfolding tag
cookie_prefix-injective s t m k e =
    (format_hex-injective _ _ (fnv1a64-lt (to_lower s)) (fnv1a64-lt (to_lower t)) parts.0, parts.1)
  where
    tags : tag s m ≡ tag t k
    tags =
        (upto_separator b'_' _ _ [] [] (tag-Lacks s m) (tag-Lacks t k)
          (ap (drop 2) (sym (cookie_prefix-tag_nil s m) ∙ e ∙ cookie_prefix-tag_nil t k))).0

    parts :
        (format_hex (fnv1a64 (to_lower s)) ≡ format_hex (fnv1a64 (to_lower t)))
        × (scope_kind m ≡ scope_kind k)
    parts = last_of_append _ _ _ _ tags

-- A list of prefixes as `scopePrefixes` builds it.
abbrev pub IsBuilt : Bytes → Type 0
IsBuilt p = (t : Bytes) × (k : Bool) × (p ≡ cookie_prefix t k)

foreign_prefix :
    (s t : Bytes) (m k : Bool) (n p : Bytes)
    → p ≡ cookie_prefix t k
    → eq p (cookie_prefix s m) ≡ false
    → has_prefix (cookie_prefix s m ++ n) p ≡ false
foreign_prefix s t m k n p built other = elim (Bool-cases (has_prefix (cookie_prefix s m ++ n) p)) [
  | inl h ↦ cc (built ∙ has_prefix-cookie_prefix s t m k n (rw built at h), eq_self p)
  | inr e ↦ e
]

strip_own :
    (s : Bytes) (m : Bool) (n : Bytes) (ps : List Bytes)
    → n ≢ []
    → strip_any (cookie_prefix s m ++ n) (cookie_prefix s m ∷ ps)
      ≡ (if contains (cookie_prefix s m ∷ ps) (cookie_prefix s m) then some n else none)
unfolding strip_any contains
strip_own s m [] ps ne = absurd (ne refl)
strip_own s m (c ∷ n) ps ne = ground (
  arith,
  has_prefix-append (cookie_prefix s m) (c ∷ n),
  length-append (cookie_prefix s m) (c ∷ n),
  drop-length_append (cookie_prefix s m) (c ∷ n),
  eq_self (cookie_prefix s m),
)

-- The loop of `stripCookiePrefix` takes off the cookie's own prefix, where it is among the prefixes.
pub strip_any_lem :
    (s : Bytes) (m : Bool) (n : Bytes) (ps : List Bytes)
    → n ≢ []
    → All IsBuilt ps
    → strip_any (cookie_prefix s m ++ n) ps
      ≡ (if contains ps (cookie_prefix s m) then some n else none)
unfolding strip_any contains
strip_any_lem s m n [] ne h = refl
strip_any_lem s m n (p ∷ ps) ne ((t, k, built), h) = elim (Bool-cases (eq p (cookie_prefix s m))) [
  | inl same ↦
      subst
        (λ q.
          strip_any (cookie_prefix s m ++ n) (q ∷ ps)
          ≡ (if contains (q ∷ ps) (cookie_prefix s m) then some n else none))
        (sym ((eq_iff _ _).0 same)) (strip_own s m n ps ne)
  | inr other ↦ rw (other, foreign_prefix s t m k n p built other) (strip_any_lem s m n ps ne h)
]
