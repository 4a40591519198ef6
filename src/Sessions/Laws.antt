-- ===== src/Sessions/Laws.antt =====
-- server/internal/auth/session.go: which sessions a store has.
use bumshi.Common.{
  ℕ, ◌+◌, ◌≤◌, Bool, true, false, Option, none, some, [], ◌≡◌, inl, inr, refl, sym, ap, ◌∙◌, arith,
  Bytes, ltb, Bool-cases, Option-cases, if◌then◌else◌,
}
use bumshi.Strings.{eq}
use bumshi.Strings.Laws.{eq_iff}
use bumshi.Maps.{lookup, insert, remove}
use bumshi.Maps.Laws.{lookup-insert, lookup-insert_other, lookup-remove, lookup-remove_other}
use bumshi.Sessions.{Session, SessionStore, create, without, get_session, delete_session}

-- The session that a token has at a time, whatever is still stored: what the store promises.
abbrev pub unexpired : ℕ → Option Session → Option Session
unexpired now none = none
unexpired now (some sess) = if ltb sess.expiry now then none else some sess

unfoldable pub live : SessionStore → ℕ → Bytes → Option Session
unfolding eq lookup
live s now token = if eq token [] then none else unexpired now (lookup s.by_token token)

-- `Get` answers with the live session of the token.
pub get_session-live :
    (s : SessionStore) (now : ℕ) (token : Bytes) → (get_session s now token).1 ≡ live s now token
unfolding get_session live
get_session-live s now token = elim (Bool-cases (eq token [])) [
  | inl e ↦ rw (e, get_session, live) refl
  | inr e ↦ elim (Option-cases (lookup s.by_token token)) [
    | inl e1 ↦ rw (e, e1, get_session, live) refl
    | inr (sess, e1) ↦ elim (Bool-cases (ltb sess.expiry now)) [
      | inl e2 ↦ rw (e, e1, get_session, live) (rw e2 refl)
      | inr e2 ↦ rw (e, e1, get_session, live) (rw e2 refl)
    ]
  ]
]

-- Expiry is final.
still_expired :
    (s : SessionStore) (now later : ℕ) (token : Bytes) (sess : Session)
    → lookup s.by_token token ≡ some sess
    → ltb sess.expiry now ≡ true
    → now ≤ later
    → unexpired later (lookup s.by_token token) ≡ none
still_expired s now later token sess e over le =
    let over' : ltb sess.expiry later ≡ true = ground arith in
    ap (unexpired later) e ∙ ap (λ b. if b then none else some sess) over'

live-without :
    (s : SessionStore) (now later : ℕ) (token other : Bytes) (sess : Session)
    → lookup s.by_token token ≡ some sess
    → ltb sess.expiry now ≡ true
    → now ≤ later
    → live (without s token) later other ≡ live s later other
unfolding live
live-without s now later token other sess e over le =
    ap (λ o. if eq other [] then none else o)
      (elim (Bool-cases (eq token other)) [
        | inl same ↦
            let t : token ≡ other = (eq_iff token other).0 same in
            ap (unexpired later)
              (ap (lookup (remove s.by_token token)) (sym t) ∙ lookup-remove s.by_token token)
            ∙ sym (
                ap (λ k. unexpired later (lookup s.by_token k)) (sym t)
                ∙ still_expired s now later token sess e over le)
        | inr differ ↦ ap (unexpired later) (lookup-remove_other s.by_token token other differ)
      ])

-- `Get` forgets only what has expired: at no later time does any token have another session for it.
pub live-get_session :
    (s : SessionStore) (now later : ℕ) (token other : Bytes)
    → now ≤ later
    → live (get_session s now token).0 later other ≡ live s later other
unfolding get_session
live-get_session s now later token other le = elim (Bool-cases (eq token [])) [
  | inl e ↦ rw (e, get_session) refl
  | inr e ↦ elim (Option-cases (lookup s.by_token token)) [
    | inl e1 ↦ rw (e, e1, get_session) refl
    | inr (sess, e1) ↦ elim (Bool-cases (ltb sess.expiry now)) [
      | inl e2 ↦
          rw (e, e1, get_session) (rw e2 (live-without s now later token other sess e1 e2 le))
      | inr e2 ↦ rw (e, e1, get_session) (rw e2 refl)
    ]
  ]
]

-- A new session is the live one of its token until its time to live is over, and every other token
-- keeps its own.
pub live-create :
    (s : SessionStore) (now later : ℕ) (user token csrf other : Bytes)
    → eq token [] ≡ false
    → live (create s now user (some token) (some csrf)).0 later other ≡ (
        if eq token other
        then (if ltb (now + s.ttl) later
            then none
            else some (record { user = user; csrf = csrf; expiry = now + s.ttl }))
        else live s later other)
unfolding live create
live-create s now later user token csrf other ne = elim (Bool-cases (eq token other)) [
  | inl same ↦
      own ((eq_iff token other).0 same)
      ∙ sym (
          ap
            (λ b.
              if b
              then (if ltb (now + s.ttl) later then none else some made)
              else (if eq other [] then none else unexpired later (lookup s.by_token other)))
            same)
  | inr differ ↦
      ap (λ o. if eq other [] then none else unexpired later o)
        (lookup-insert_other s.by_token token made other differ)
      ∙ sym (
          ap
            (λ b.
              if b
              then (if ltb (now + s.ttl) later then none else some made)
              else (if eq other [] then none else unexpired later (lookup s.by_token other)))
            differ)
]
  where
    made : Session
    made = record { user = user; csrf = csrf; expiry = now + s.ttl }

    own :
        token ≡ other
        → (if eq other []
            then none
            else unexpired later (lookup (insert s.by_token token made) other))
          ≡ (if ltb (now + s.ttl) later then none else some made)
    own t =
        ap
          (λ k. if eq k [] then none else unexpired later (lookup (insert s.by_token token made) k))
          (sym t)
        ∙ ap
            (λ b. if b then none else unexpired later (lookup (insert s.by_token token made) token))
            ne
        ∙ ap (unexpired later) (lookup-insert s.by_token token made)

-- A deleted token has no session at any time, and every other token keeps its own.
pub live-delete_session :
    (s : SessionStore) (later : ℕ) (token other : Bytes)
    → live (delete_session s token) later other
      ≡ (if eq token other then none else live s later other)
unfolding live delete_session
live-delete_session s later token other = elim (Bool-cases (eq token other)) [
  | inl same ↦ rw same (
      ap (λ o. if eq other [] then none else unexpired later o)
        (ap (lookup (remove s.by_token token)) (sym ((eq_iff token other).0 same))
          ∙ lookup-remove s.by_token token)
      ∙ none_both (eq other []))
  | inr differ ↦ rw differ (
      ap (λ o. if eq other [] then none else unexpired later o)
        (lookup-remove_other s.by_token token other differ))
]
  where
    none_both : (b : Bool) → (if b then none else unexpired later none) ≡ none
    none_both true = refl
    none_both false = refl
