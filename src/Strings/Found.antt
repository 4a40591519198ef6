-- ===== src/Strings/Found.antt =====
-- The laws of `strings.Index` that say where it looks.
use bumshi.Common.{
  ℕ, zero, suc, Option-cases, ◌<◌, true, false, none, some, [], ◌∷◌, ◌≡◌, subst, ap, ◌∙◌, inl, inr,
  arith, Bytes, drop, drop-nil, Bool-cases,
}
use bumshi.Strings.{has_prefix, index}

-- What is found stands there, and nowhere before.
pub index-found : (s p : Bytes) {i : ℕ} → index s p ≡ some i → has_prefix (drop i s) p ≡ true
unfolding index
index-found [] p {i} h = elim (Bool-cases (has_prefix [] p)) [
  | inl e ↦
      let first : 0 ≡ i = ground (arith, e, h) in
      subst (λ i. has_prefix (drop i []) p ≡ true) first e
  | inr e ↦ absurd (ground (arith, e))
]
index-found (x ∷ s) p {i} h = elim (Bool-cases (has_prefix (x ∷ s) p)) [
  | inl e ↦
      let first : 0 ≡ i = ground (arith, e, h) in
      subst (λ i. has_prefix (drop i (x ∷ s)) p ≡ true) first e
  | inr e ↦ elim (Option-cases (index s p)) [
    | inl none_left ↦ absurd (ground (arith, e, none_left))
    | inr (j, found) ↦
        let later : suc j ≡ i = ground (arith, e, found, h) in
        subst (λ i. has_prefix (drop i (x ∷ s)) p ≡ true) later (index-found s p found)
  ]
]

pub index-before :
    (s p : Bytes) {i : ℕ} (j : ℕ) → index s p ≡ some i → j < i → has_prefix (drop j s) p ≡ false
unfolding index
index-before [] p {i} j h lt = elim (Bool-cases (has_prefix [] p)) [
  | inl e ↦ absurd (ground (arith, e))
  | inr e ↦ absurd (ground (arith, e))
]
index-before (x ∷ s) p {i} j h lt = elim (Bool-cases (has_prefix (x ∷ s) p)) [
  | inl e ↦ absurd (ground (arith, e))
  | inr e ↦ elim (Option-cases (index s p)) [
    | inl none_left ↦ absurd (ground (arith, e, none_left))
    | inr (k, found) ↦
        let later : suc k ≡ i = ground (arith, e, found, h) in
        elim j as (λ j. j < i → has_prefix (drop j (x ∷ s)) p ≡ false) [
          | zero ↦ λ lt. e
          | suc j ↦ λ lt. index-before s p j found (omega (arith, later, lt))
        ]
          lt
  ]
]

pub index-none : (s p : Bytes) (j : ℕ) → index s p ≡ none → has_prefix (drop j s) p ≡ false
unfolding index
index-none [] p j h = elim (Bool-cases (has_prefix [] p)) [
  | inl e ↦ absurd (ground (arith, e))
  | inr e ↦ ap (λ t. has_prefix t p) (drop-nil j) ∙ e
]
index-none (x ∷ s) p j h = elim (Bool-cases (has_prefix (x ∷ s) p)) [
  | inl e ↦ absurd (ground (arith, e))
  | inr e ↦ elim (Option-cases (index s p)) [
    | inl none_left ↦ elim j as (λ j. has_prefix (drop j (x ∷ s)) p ≡ false) [
      | zero ↦ e
      | suc j ↦ index-none s p j none_left
    ]
    | inr (k, found) ↦ absurd (ground (arith, e, found))
  ]
]
