-- ===== src/Sessions.antt =====
-- server/internal/auth/session.go: the sessions of the admin panel. A time is a number; the clock and the
-- random tokens are arguments.
pub mod Laws
mod Examples
use bumshi.Common.{
  ℕ, ◌+◌, Bool, true, false, Option, none, some, List, [], ◌∷◌, Bytes, length, ltb, if◌then◌else◌,
}
use bumshi.Strings.{eq}
use bumshi.Maps.{Map, lookup, insert, remove}

pub record Session : Type 0 where
  pub user : Bytes
  pub csrf : Bytes
  pub expiry : ℕ

pub record SessionStore : Type 0 where
  pub by_token : Map Session
  pub ttl : ℕ

-- `NewSessionStore`
abbrev pub new_session_store : ℕ → SessionStore
new_session_store ttl = record { by_token = []; ttl = ttl }

-- `Create`, with the two results of `randomToken`; `none` is its error, and then nothing is stored.
unfoldable pub create :
    SessionStore → ℕ → Bytes → Option Bytes → Option Bytes → SessionStore × Option (Bytes × Bytes)
unfolding insert
create s now user (some token) (some csrf) = (
  record s {
    by_token = insert s.by_token token (record { user = user; csrf = csrf; expiry = now + s.ttl });
  },
  some (token, csrf),
)
create s now user (some token) none = (s, none)
create s now user none csrf = (s, none)

abbrev pub without : SessionStore → Bytes → SessionStore
without s token = record s { by_token = remove s.by_token token }

-- `Get`; a session that has expired is deleted.
unfoldable pub get_session : SessionStore → ℕ → Bytes → SessionStore × Option Session
unfolding lookup remove eq
get_session s now token = if eq token [] then (s, none) else elim (lookup s.by_token token) [
  | none ↦ (s, none)
  | some sess ↦ if ltb sess.expiry now then (without s token, none) else (s, some sess)
]

-- `Delete`
unfoldable pub delete_session : SessionStore → Bytes → SessionStore
unfolding remove
delete_session s token = without s token

-- `Count`
keep_unexpired : ℕ → Map Session → Map Session
keep_unexpired now [] = []
keep_unexpired now ((token, sess) ∷ m) =
    let rest = keep_unexpired now m in if ltb sess.expiry now then rest else (token, sess) ∷ rest

unfoldable pub count_sessions : SessionStore → ℕ → SessionStore × ℕ
unfolding keep_unexpired
count_sessions s now =
    let kept = keep_unexpired now s.by_token in (record s { by_token = kept }, length kept)
