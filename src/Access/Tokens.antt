-- ===== src/Access/Tokens.antt =====
-- server/internal/admin/accessusers.go: which tokens are let through.
use bumshi.Common.{
  ℕ, Bool, true, false, none, some, [], ◌∷◌, ◌≡◌, inl, inr, refl, sym, ap, subst, ◌∙◌, Bytes,
  Bool-cases, if◌then◌else◌,
}
use bumshi.Strings.{eq}
use bumshi.Strings.Laws.{eq_iff, eq_self}
use bumshi.Maps.{Map, lookup, remove}
use bumshi.Maps.Laws.{lookup-remove, lookup-remove_other}
use bumshi.Access.{AccessUser, AccessStore, match_token, is_authorized, delete_user}
use bumshi.Access.Persist.{IsRoster, IsRoster-remove, users-save}

abbrev NoneMatch : Bytes → Map AccessUser → Type 0
NoneMatch token m = (k : Bytes) (u : AccessUser) → lookup m k ≡ some u → eq u.token token ≡ false

match_token-none :
    (m : Map AccessUser) (token : Bytes)
    → IsRoster m
    → NoneMatch token m
    → match_token token none m ≡ none
unfolding match_token lookup IsRoster
match_token-none [] token h other = refl
match_token-none ((id, u) ∷ m) token (own, named, once, h) other =
    let first : eq u.token token ≡ false =
      other id u (ap (λ b. if b then some u else lookup m id) (eq_self id)) in
    rw first (match_token-none m token h rest)
  where
    rest : NoneMatch token m
    rest k v found = elim (Bool-cases (eq id k)) [
      | inl e ↦ absurd (cc (sym found ∙ ap (lookup m) (sym ((eq_iff id k).0 e)) ∙ once))
      | inr e ↦ other k v (ap (λ b. if b then some u else lookup m k) e ∙ found)
    ]

is_authorized-none :
    (s : AccessStore) (now : ℕ) (token : Bytes)
    → IsRoster s.users
    → NoneMatch token s.users
    → is_authorized s now token ≡ false
unfolding is_authorized
is_authorized-none s now token h other = elim (Bool-cases (eq token [])) [
  | inl e ↦ rw e refl
  | inr e ↦ rw e (rw (match_token-none s.users token h other) refl)
]

-- A user who is deleted is locked out, also when the file could not be written: no later request with
-- the token is authorized, provided no other user has it.
pub is_authorized-delete_user :
    (s : AccessStore) (writable : Bool) (now : ℕ) (id token : Bytes)
    → IsRoster s.users
    → ((k : Bytes) (u : AccessUser) → lookup s.users k ≡ some u → eq u.token token ≡ true → k ≡ id)
    → is_authorized (delete_user s writable id).0 now token ≡ false
unfolding delete_user
is_authorized-delete_user s writable now id token h only =
    is_authorized-none (delete_user s writable id).0 now token
      (subst IsRoster (sym kept) (IsRoster-remove s.users id h))
      (subst (NoneMatch token) (sym kept) gone)
  where
    kept : (delete_user s writable id).0.users ≡ remove s.users id
    kept = users-save (record s { users = remove s.users id }) writable

    gone : NoneMatch token (remove s.users id)
    gone k u found = elim (Bool-cases (eq id k)) [
      | inl e ↦ absurd (
          cc (
            sym found
            ∙ ap (lookup (remove s.users id)) (sym ((eq_iff id k).0 e))
            ∙ lookup-remove s.users id))
      | inr e ↦ elim (Bool-cases (eq u.token token)) [
        | inr differ ↦ differ
        | inl same ↦
            let own = only k u (sym (lookup-remove_other s.users id k e) ∙ found) same in
            absurd (cc (sym e ∙ (eq_iff id k).1 (sym own)))
      ]
    ]
