-- ===== src/Maps/Laws.antt =====
-- Reading a map behind a write.
use bumshi.Common.{
  false, none, some, [], ◌∷◌, ◌≡◌, inl, inr, refl, sym, ap, ◌∙◌, Bytes, Bool-cases, if◌then◌else◌,
}
use bumshi.Strings.{eq}
use bumshi.Strings.Laws.{eq_iff, eq_self}
use bumshi.Maps.{Map, lookup, insert, remove}

module _ {A : Type 0} where
  pub lookup-remove : (m : Map A) (k : Bytes) → lookup (remove m k) k ≡ none
  unfolding lookup remove
  lookup-remove [] k = refl
  lookup-remove ((key, a) ∷ m) k = elim (Bool-cases (eq key k)) [
    | inl e ↦ rw (e, remove) (lookup-remove m k)
    | inr e ↦
        rw (e, remove) (ap (λ b. if b then some a else lookup (remove m k) k) e ∙ lookup-remove m k)
  ]

  pub lookup-remove_other :
      (m : Map A) (k k' : Bytes) → eq k k' ≡ false → lookup (remove m k) k' ≡ lookup m k'
  unfolding lookup remove
  lookup-remove_other [] k k' h = refl
  lookup-remove_other ((key, a) ∷ m) k k' h = elim (Bool-cases (eq key k)) [
    | inl e ↦
        let other : eq key k' ≡ false = ap (λ w. eq w k') ((eq_iff key k).0 e) ∙ h in
        rw (e, remove)
          (lookup-remove_other m k k' h ∙ sym (ap (λ b. if b then some a else lookup m k') other))
    | inr e ↦
        rw (e, remove) (ap (λ r. if eq key k' then some a else r) (lookup-remove_other m k k' h))
  ]

  pub lookup-insert : (m : Map A) (k : Bytes) (a : A) → lookup (insert m k a) k ≡ some a
  unfolding lookup insert
  lookup-insert m k a = ap (λ b. if b then some a else lookup (remove m k) k) (eq_self k)

  pub lookup-insert_other :
      (m : Map A) (k : Bytes) (a : A) (k' : Bytes)
      → eq k k' ≡ false
      → lookup (insert m k a) k' ≡ lookup m k'
  unfolding lookup insert
  lookup-insert_other m k a k' h =
      ap (λ b. if b then some a else lookup (remove m k) k') h ∙ lookup-remove_other m k k' h
