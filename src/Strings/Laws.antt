-- ===== src/Strings/Laws.antt =====
-- The laws of the string functions that the components share.
use bumshi.Common.{
  ℕ, zero, suc, take, Option-cases, ◌+◌, ◌-◌, ◌≤◌, ◌<◌, Bool, true, false, Option, none, some, List,
  [], ◌∷◌, ◌++◌, ◌≡◌, refl, sym, ap, ◌∙◌, ◌↔◌, inl, inr, arith, Bytes, length, drop, leb, ◌==◌,
  Bool-cases, length-append, drop-length_append, Lacks, All,
}
use bumshi.Strings.{
  to_lower, lower_byte, eq, has_prefix, has_suffix, index_byte, trim_prefix, count, index,
}

pub eq_iff : (s t : Bytes) → (eq s t ≡ true) ↔ (s ≡ t)
unfolding eq
eq_iff [] [] = ground arith
eq_iff (x ∷ s) (y ∷ t) = ground (arith, eq_iff s t)
eq_iff [] (y ∷ t) = ground arith
eq_iff (x ∷ s) [] = ground arith

pub eq_self : (s : Bytes) → eq s s ≡ true
eq_self s = (eq_iff s s).1 refl

pub lower_byte-lower_byte : (c : ℕ) → lower_byte (lower_byte c) ≡ lower_byte c
unfolding lower_byte
lower_byte-lower_byte c = ground arith

pub to_lower-to_lower : (s : Bytes) → to_lower (to_lower s) ≡ to_lower s
unfolding to_lower
to_lower-to_lower [] = refl
to_lower-to_lower (c ∷ s) = ground (arith, lower_byte-lower_byte c, to_lower-to_lower s)

pub to_lower-append : (s t : Bytes) → to_lower (s ++ t) ≡ to_lower s ++ to_lower t
unfolding to_lower
to_lower-append [] t = refl
to_lower-append (c ∷ s) t = ap (λ r. lower_byte c ∷ r) (to_lower-append s t)

pub has_prefix-append : (p t : Bytes) → has_prefix (p ++ t) p ≡ true
unfolding has_prefix
has_prefix-append [] t = refl
has_prefix-append (c ∷ p) t = ground (arith, has_prefix-append p t)

-- A text with the prefix `p` is `p` and what follows it.
pub has_prefix-split : (s p : Bytes) → has_prefix s p ≡ true → s ≡ p ++ drop (length p) s
unfolding has_prefix
has_prefix-split s [] h = refl
has_prefix-split [] (y ∷ p) h = cc
has_prefix-split (x ∷ s) (y ∷ p) h = ground (arith, has_prefix-split s p)

pub trim_prefix-append : (p t : Bytes) → trim_prefix (p ++ t) p ≡ t
unfolding trim_prefix
trim_prefix-append p t = rw (has_prefix-append p t) (drop-length_append p t)

pub has_suffix-append : (s p : Bytes) → has_suffix (s ++ p) p ≡ true
unfolding has_suffix
has_suffix-append s p = ground (arith, length-append s p, drop_front, eq_self p)
  where
    drop_front : drop (length (s ++ p) - length p) (s ++ p) ≡ p
    drop_front =
        ap (λ k. drop k (s ++ p)) (omega (arith, length-append s p)) ∙ drop-length_append s p

drop-suffix : (s : Bytes) (n : ℕ) → (r : Bytes) × (s ≡ r ++ drop n s)
drop-suffix s n = (bumshi.Common.take n s, sym (bumshi.Common.take-append-drop n s))

-- A text with the suffix `p` is something and `p`.
pub has_suffix-split : (s p : Bytes) → has_suffix s p ≡ true → (r : Bytes) × (s ≡ r ++ p)
unfolding has_suffix
has_suffix-split s p h =
    let (r, e) = drop-suffix s (length s - length p) in (r, e ∙ ap (λ t. r ++ t) tail)
  where
    tail : drop (length s - length p) s ≡ p
    tail = (eq_iff _ p).0 (ground arith)

-- `index_byte` finds the first place of a byte.
pub index_byte-append :
    (s t : Bytes) (c : ℕ) → Lacks c s → index_byte (s ++ (c ∷ t)) c ≡ some (length s)
unfolding index_byte
index_byte-append [] t c h = ground arith
index_byte-append (x ∷ s) t c h = ground (arith, index_byte-append s t c h.1)

pub index_byte-Lacks : (s : Bytes) (c : ℕ) → Lacks c s → index_byte s c ≡ none
unfolding index_byte
index_byte-Lacks [] c h = refl
index_byte-Lacks (x ∷ s) c h = ground (arith, index_byte-Lacks s c h.1)

pub index_byte-lt : (s : Bytes) (c : ℕ) {i : ℕ} → index_byte s c ≡ some i → i < length s
unfolding index_byte
index_byte-lt [] c h = cc
index_byte-lt (x ∷ s) c {i} h = elim (bumshi.Common.Option-cases (index_byte s c)) [
  | inl e ↦ ground arith
  | inr (j, e) ↦ ground (arith, index_byte-lt s c e)
]

pub count-append : (s t : Bytes) (c : ℕ) → count (s ++ t) c ≡ count s c + count t c
unfolding count
count-append [] t c = omega arith
count-append (x ∷ s) t c = ground (arith, count-append s t c)

pub index_byte-take : (s : Bytes) (c : ℕ) {i : ℕ} → index_byte s c ≡ some i → Lacks c (take i s)
unfolding index_byte
index_byte-take [] c h = absurd (cc h)
index_byte-take (x ∷ s) c {i = zero} h = tt
index_byte-take (x ∷ s) c {i = suc i} h = elim (Bool-cases (x == c)) [
  | inl e ↦ ground (arith, e)
  | inr e ↦ elim (Option-cases (index_byte s c)) [
    | inl none_left ↦ ground (arith, e, none_left)
    | inr (j, found) ↦ (ground (arith, e), index_byte-take s c {i = i} (ground (arith, e, found)))
  ]
]

pub index_byte-none : (s : Bytes) (c : ℕ) → index_byte s c ≡ none → Lacks c s
unfolding index_byte
index_byte-none [] c h = tt
index_byte-none (x ∷ s) c h = elim (Bool-cases (x == c)) [
  | inl e ↦ ground (arith, e)
  | inr e ↦ elim (Option-cases (index_byte s c)) [
    | inl rest ↦ (ground (arith, e), index_byte-none s c rest)
    | inr (j, found) ↦ ground (arith, e, found)
  ]
]

-- The byte that was found, and what follows it.
pub index_byte-drop :
    (s : Bytes) (c : ℕ) {i : ℕ} → index_byte s c ≡ some i → (r : Bytes) × (drop i s ≡ c ∷ r)
unfolding index_byte
index_byte-drop [] c h = absurd (cc h)
index_byte-drop (x ∷ s) c {i = zero} h = elim (Bool-cases (x == c)) [
  | inl e ↦ (s, ground (arith, e))
  | inr e ↦ elim (Option-cases (index_byte s c)) [
    | inl none_left ↦ absurd (ground (arith, e, none_left))
    | inr (j, found) ↦ absurd (ground (arith, e, found))
  ]
]
index_byte-drop (x ∷ s) c {i = suc i} h = elim (Bool-cases (x == c)) [
  | inl e ↦ absurd (ground (arith, e))
  | inr e ↦ elim (Option-cases (index_byte s c)) [
    | inl none_left ↦ absurd (ground (arith, e, none_left))
    | inr (j, found) ↦ index_byte-drop s c {i = i} (ground (arith, e, found))
  ]
]

pub has_prefix-length : (s p : Bytes) → has_prefix s p ≡ true → length p ≤ length s
unfolding has_prefix
has_prefix-length s [] h = omega arith
has_prefix-length [] (y ∷ p) h = absurd (cc h)
has_prefix-length (x ∷ s) (y ∷ p) h = ground (arith, has_prefix-length s p)

-- A text that is found lies within.
pub index-le : (s p : Bytes) {i : ℕ} → index s p ≡ some i → i + length p ≤ length s
unfolding index
index-le [] p {i} h = elim (Bool-cases (has_prefix [] p)) [
  | inl e ↦ ground (arith, e, has_prefix-length [] p e)
  | inr e ↦ absurd (ground (arith, e))
]
index-le (x ∷ s) p {i} h = elim (Bool-cases (has_prefix (x ∷ s) p)) [
  | inl e ↦ ground (arith, e, has_prefix-length (x ∷ s) p e)
  | inr e ↦ elim (Option-cases (index s p)) [
    | inl none_left ↦ absurd (ground (arith, e, none_left))
    | inr (j, found) ↦ ground (arith, e, found, index-le s p found)
  ]
]
