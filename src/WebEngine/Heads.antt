-- ===== src/WebEngine/Heads.antt =====
-- server/internal/webengine/webengine.go: `headOpenTag` finds the first opening head tag.
use bumshi.Common.{
  ℕ, zero, suc, ◌+◌, ◌-◌, ◌≤◌, ◌<◌, Bool, true, false, ◌&&◌, ◌||◌, Option, none, some, [], ◌∷◌,
  ◌++◌, ◌≡◌, ◌⊎◌, inl, inr, refl, sym, subst, ap, ◌∙◌, arith, Bytes, codes, length, drop, get_elem?,
  ◌==◌, ltb, Bool-cases, Option-cases, length-drop, drop-drop,
}
use bumshi.Strings.{index, has_prefix}
use bumshi.Strings.Laws.{index-le, has_prefix-split}
use bumshi.Strings.Found.{index-found, index-before, index-none}
use bumshi.WebEngine.{HeadSearch, at_offset, no_head, panics, out_of_fuel, ends_head, head_on}

-- What follows a tag's name in HTML: the end of the tag, a slash, or white space.
unfoldable pub is_behind_name : Option ℕ → Bool
is_behind_name none = false
is_behind_name (some c) = c == 62 || c == 47 || c == 32 || c == 9 || (c == 10 || c == 12 || c == 13)

get_elem?-in : (s : Bytes) (i : ℕ) → i < length s → (c : ℕ) × (get_elem? s i ≡ some c)
get_elem?-in [] i h = absurd (omega arith)
get_elem?-in (x ∷ s) zero h = (x, refl)
get_elem?-in (x ∷ s) (suc i) h = get_elem?-in s i (omega arith)

lt-or-le : (j n : ℕ) → (j < n) ⊎ (n ≤ j)
lt-or-le j n = elim (Bool-cases (ltb j n)) [
  | inl e ↦ inl (ground (arith, e))
  | inr e ↦ inr (ground (arith, e))
]

module _ (lower body : Bytes) where
  -- An opening head tag starts at the offset, in any case of its letters.
  unfoldable pub head_at : ℕ → Bool
  unfolding has_prefix is_behind_name
  head_at i = has_prefix (drop i lower) (codes "<head") && is_behind_name (get_elem? body (i + 5))

  abbrev pub NoneBefore : ℕ → Type 0
  NoneBefore n = (j : ℕ) → j < n → head_at j ≡ false

  -- What the search finds: the first head tag, or that there is none.
  abbrev pub IsFirst : HeadSearch → Type 0
  IsFirst (at_offset i) = (i < length body) × (head_at i ≡ true) × NoneBefore i
  IsFirst no_head = (j : ℕ) → head_at j ≡ false
  IsFirst panics = ⊥
  IsFirst out_of_fuel = ⊥

  not_there : (i : ℕ) → has_prefix (drop i lower) (codes "<head") ≡ false → head_at i ≡ false
  unfolding head_at
  not_there i h = ground (arith, h)

  goes_on : (i c : ℕ) → get_elem? body (i + 5) ≡ some c → ends_head c ≡ false → head_at i ≡ false
  unfolding head_at ends_head is_behind_name
  goes_on i c at h = rw at (ground (arith, h))

  is_there :
      (i c : ℕ)
      → has_prefix (drop i lower) (codes "<head") ≡ true
      → get_elem? body (i + 5) ≡ some c
      → ends_head c ≡ true
      → head_at i ≡ true
  unfolding head_at ends_head is_behind_name
  is_there i c found at h = rw at (ground (arith, found, h))

  -- Within the five bytes of "<head" no other one begins.
  inside :
      (i d : ℕ)
      → has_prefix (drop i lower) (codes "<head") ≡ true
      → 0 < d
      → d < 5
      → has_prefix (drop (i + d) lower) (codes "<head") ≡ false
  unfolding has_prefix
  inside i d found some_byte few =
      ap (λ t. has_prefix t (codes "<head"))
        (sym (drop-drop d i lower)
          ∙ ap (drop d) (has_prefix-split (drop i lower) (codes "<head") found))
      ∙ other_byte d (drop 5 (drop i lower)) some_byte few
    where
      other_byte :
          (d : ℕ) (t : Bytes)
          → 0 < d
          → d < 5
          → has_prefix (drop d (codes "<head" ++ t)) (codes "<head") ≡ false
      other_byte zero t p q = absurd (omega (arith, p))
      other_byte (suc zero) t p q = refl
      other_byte (suc (suc zero)) t p q = refl
      other_byte (suc (suc (suc zero))) t p q = refl
      other_byte (suc (suc (suc (suc zero)))) t p q = refl
      other_byte (suc (suc (suc (suc (suc d))))) t p q = absurd (omega (arith, q))

  -- No head tag between an occurrence that is none and the end of its five bytes.
  past :
      (i : ℕ)
      → has_prefix (drop i lower) (codes "<head") ≡ true
      → head_at i ≡ false
      → NoneBefore i
      → NoneBefore (i + 5)
  past i found other none_yet j lt = elim (lt-or-le j i) [
    | inl before ↦ none_yet j before
    | inr after ↦
        let at : i + (j - i) ≡ j = omega (arith, after) in
        elim (Bool-cases (j == i)) [
          | inl same ↦
              let e : i ≡ j = ground (arith, same) in subst (λ j. head_at j ≡ false) e other
          | inr differs ↦ not_there j (
              subst (λ j. has_prefix (drop j lower) (codes "<head") ≡ false) at
                (inside i (j - i) found (ground (arith, differs, after))
                  (omega (arith, lt, after))))
        ]
  ]

  up_to :
      (from k : ℕ)
      → index (drop from lower) (codes "<head") ≡ some k
      → NoneBefore from
      → NoneBefore (from + k)
  up_to from k e none_yet j lt = elim (lt-or-le j from) [
    | inl before ↦ none_yet j before
    | inr after ↦
        let at : from + (j - from) ≡ j = omega (arith, after) in
        not_there j (
          ap (λ t. has_prefix t (codes "<head"))
            (sym (drop-drop (j - from) from lower ∙ ap (λ j. drop j lower) at))
          ∙ index-before (drop from lower) (codes "<head") (j - from) e (omega (arith, lt, after)))
  ]

  nowhere :
      (from : ℕ)
      → index (drop from lower) (codes "<head") ≡ none
      → NoneBefore from
      → (j : ℕ) → head_at j ≡ false
  nowhere from e none_yet j = elim (lt-or-le j from) [
    | inl before ↦ none_yet j before
    | inr after ↦
        let at : from + (j - from) ≡ j = omega (arith, after) in
        not_there j (
          ap (λ t. has_prefix t (codes "<head"))
            (sym (drop-drop (j - from) from lower ∙ ap (λ j. drop j lower) at))
          ∙ index-none (drop from lower) (codes "<head") (j - from) e)
  ]

  -- An occurrence at the very end is no tag, and nothing is behind it.
  at_the_end :
      (i : ℕ)
      → length lower ≡ length body
      → i + 5 ≡ length body
      → NoneBefore i
      → (j : ℕ) → head_at j ≡ false
  unfolding head_at is_behind_name
  at_the_end i same last none_yet j = elim (lt-or-le j i) [
    | inl before ↦ none_yet j before
    | inr after ↦
        let over : get_elem? body (j + 5) ≡ none =
          beyond body (j + 5) (omega (arith, last, after)) in
        rw over (ground arith)
  ]
    where
      beyond : (s : Bytes) (n : ℕ) → length s ≤ n → get_elem? s n ≡ none
      beyond [] n h = refl
      beyond (x ∷ s) zero h = absurd (omega (arith, h))
      beyond (x ∷ s) (suc n) h = beyond s n (omega (arith, h))

  found_at :
      (from k : ℕ)
      → index (drop from lower) (codes "<head") ≡ some k
      → has_prefix (drop (from + k) lower) (codes "<head") ≡ true
  found_at from k e =
      ap (λ t. has_prefix t (codes "<head")) (sym (drop-drop k from lower))
      ∙ index-found (drop from lower) (codes "<head") e

  pub head_on-IsFirst :
      (fuel from : ℕ)
      → length lower ≡ length body
      → length lower + 1 ≤ fuel + from
      → from ≤ length lower
      → NoneBefore from
      → IsFirst (head_on fuel lower body from)
  unfolding head_on
  head_on-IsFirst zero from same enough le none_yet = absurd (omega arith)
  head_on-IsFirst (suc fuel) from same enough le none_yet =
      elim (Option-cases (index (drop from lower) (codes "<head"))) [
        | inl e ↦ rw (e, IsFirst) (nowhere from e none_yet)
        | inr (k, e) ↦
            let within : from + k + 5 ≤ length body =
              omega (arith, index-le (drop from lower) (codes "<head") e, length-drop from lower) in
            let before = up_to from k e none_yet in
            rw (e, IsFirst)
              (elim (Bool-cases (from + k + 5 == length body)) [
                | inl last ↦
                    rw (last, IsFirst) (at_the_end (from + k) same (ground (arith, last)) before)
                | inr inner ↦
                    let (c, at) =
                      get_elem?-in body (from + k + 5) (ground (arith, inner, within)) in
                    rw (inner, at, IsFirst)
                      (elim (Bool-cases (ends_head c)) [
                        | inl ends ↦
                            rw (ends, IsFirst)
                              (
                                omega (arith, within),
                                is_there (from + k) c (found_at from k e) at ends,
                                before,
                              )
                        | inr goes ↦
                            rw (goes, IsFirst)
                              (head_on-IsFirst fuel (from + k + 5) same (omega (arith, enough))
                                (omega (arith, within, same))
                                (past (from + k) (found_at from k e) (goes_on (from + k) c at goes)
                                  before))
                      ])
              ])
      ]
