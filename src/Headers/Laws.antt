-- ===== src/Headers/Laws.antt =====
-- Reading a header behind a write.
use bumshi.Common.{
  Bool, true, false, none, some, List, [], ◌∷◌, ◌≡◌, inl, inr, refl, sym, ap, ◌∙◌, Bytes,
  Bool-cases, if◌then◌else◌, arith,
}
use bumshi.Strings.{eq}
use bumshi.Strings.Laws.{eq_iff}
use bumshi.Headers.{Header, values, put, del}

pub values-put :
    (h : Header) (k : Bytes) (vv : List Bytes) (k' : Bytes)
    → values (put h k vv) k' ≡ (if eq k k' then some vv else values h k')
unfolding values put
values-put [] k vv k' = refl
values-put ((key, old) ∷ h) k vv k' = elim (Bool-cases (eq key k)) [
  | inl e ↦
      let same : eq key k' ≡ eq k k' = ap (λ w. eq w k') ((eq_iff key k).0 e) in
      rw (e, put)
        (elim (Bool-cases (eq k k')) [
          | inl e' ↦ ground (arith, same, e')
          | inr e' ↦ ground (arith, same, e')
        ])
  | inr e ↦
      rw (e, put)
        (elim (Bool-cases (eq key k')) [
          | inl e' ↦
              let other : eq k k' ≡ false =
                different (eq k k') (λ h.
                  sym e ∙ (eq_iff key k).1 ((eq_iff key k').0 e' ∙ sym ((eq_iff k k').0 h))) in
              ground (arith, e', other)
          | inr e' ↦ ground (arith, e', values-put h k vv k')
        ])
]
  where
    different : (b : Bool) → (b ≡ true → false ≡ true) → b ≡ false
    different true f = absurd (cc (f refl))
    different false f = refl

pub values-del :
    (h : Header) (k k' : Bytes) → values (del h k) k' ≡ (if eq k k' then none else values h k')
unfolding values del
values-del [] k k' = elim (Bool-cases (eq k k')) [ inl e ↦ rw e refl | inr e ↦ rw e refl ]
values-del ((key, old) ∷ h) k k' = elim (Bool-cases (eq key k)) [
  | inl e ↦
      let same : eq key k' ≡ eq k k' = ap (λ w. eq w k') ((eq_iff key k).0 e) in
      rw (e, del)
        (elim (Bool-cases (eq k k')) [
          | inl e' ↦ ground (arith, same, e', values-del h k k')
          | inr e' ↦ ground (arith, same, e', values-del h k k')
        ])
  | inr e ↦
      rw (e, del)
        (elim (Bool-cases (eq key k')) [
          | inl e' ↦
              let other : eq k k' ≡ false =
                different (eq k k') (λ h.
                  sym e ∙ (eq_iff key k).1 ((eq_iff key k').0 e' ∙ sym ((eq_iff k k').0 h))) in
              ground (arith, e', other)
          | inr e' ↦ ground (arith, e', values-del h k k')
        ])
]
  where
    different : (b : Bool) → (b ≡ true → false ≡ true) → b ≡ false
    different true f = absurd (cc (f refl))
    different false f = refl
