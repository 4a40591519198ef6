-- ===== src/Admin.antt =====
-- server/internal/admin/admin.go: the panel's state, its requests and replies, and what the handlers share:
-- sessions, cookies and the client's address. The children hold the handlers and the theorems.
pub mod Handlers
pub mod Clients
pub mod Guards
pub mod Logins
pub mod Examples
use bumshi.Common.{
  ℕ, ◌+◌, ◌*◌, ◌^◌, Bool, true, false, not, ◌&&◌, ◌||◌, Option, none, some, List, [], ◌∷◌, ◌++◌,
  Bytes, codes, if◌then◌else◌,
}
use bumshi.Strings.{eq, equal_fold, split, trim_space}
use bumshi.Maps.{Map, lookup}
use bumshi.Headers.{Header, values, get}
use bumshi.Sessions.{Session, SessionStore, get_session}
use bumshi.RateLimit.{RateLimiter}
use bumshi.Settings.{Settings, Snapshot}
use bumshi.Access.{AccessUser, AccessStore}
use bumshi.Passwords.{Prf}
use bumshi.Strings.{ℤ}

abbrev pub session_cookie : Bytes
session_cookie = codes "bumshi_admin_session"

abbrev pub csrf_cookie : Bytes
csrf_cookie = codes "bumshi_admin_csrf"

-- `csrfHeader`, as a header is looked up
abbrev pub csrf_header : Bytes
csrf_header = codes "X-Csrf-Token"

abbrev pub max_body_bytes : ℕ
max_body_bytes = 16 * 2 ^ 10

-- In seconds.
abbrev pub admin_session_ttl : ℕ
admin_session_ttl = 8 * 3600

pub record Credentials : Type 0 where
  pub username : Bytes
  pub password : Bytes

pub record NewUser : Type 0 where
  pub label : Bytes
  pub expires_days : ℤ

-- What encoding/json makes of a body, and of a connection link's payload; `net.SplitHostPort`'s host.
pub record Codec : Type 0 where
  pub credentials : Bytes → Option Credentials
  pub snapshot : Bytes → Option Snapshot
  pub new_user : Bytes → NewUser
  pub user_id : Bytes → Option Bytes
  pub link_payload : Bytes → Bytes → Bytes → Bytes
  pub host_of : Bytes → Option Bytes

-- The fields of `Options` that are not state.
pub record Options : Type 0 where
  pub base_path : Bytes
  pub username : Bytes
  pub password_hash : Bytes
  pub public_url : Bytes
  pub trusted_proxy : Option (Bytes → Bool)
  pub assets : Map Bytes
  pub codec : Codec
  pub prf : Prf

-- What the handlers share and change.
pub record Panel : Type 0 where
  pub settings : Settings
  pub sessions : SessionStore
  pub logins : RateLimiter
  pub access : AccessStore

-- What a request draws on: the clock, in nanoseconds, the random texts, and the disk.
pub record World : Type 0 where
  pub now : ℕ
  pub session_token : Option Bytes
  pub session_csrf : Option Bytes
  pub user_id : Option Bytes
  pub user_token : Option Bytes
  pub is_writable : Bool

-- The cookies are by name, the first one of a name first.
pub record Request : Type 0 where
  pub header : Header
  pub cookies : Map Bytes
  pub remote_addr : Bytes
  pub tls : Bool
  pub body : Bytes

pub record SetCookie : Type 0 where
  pub name : Bytes
  pub value : Bytes
  pub path : Bytes
  pub max_age : ℤ
  pub http_only : Bool
  pub secure : Bool
  pub same_site_strict : Bool

-- `userView`
pub record UserView : Type 0 where
  pub id : Bytes
  pub label : Bytes
  pub created : ℕ
  pub expires : Option ℕ
  pub link : Bytes
  pub expired : Bool

pub record Status : Type 0 where
  pub settings : Snapshot
  pub sessions : ℕ
  pub access_users : ℕ

-- What is written: the bodies are the values that encoding/json prints.
pub data Content : Type 0 where
  error_body redirect : Bytes → Content
  asset : Bytes → Bytes → Content
  done : Option Bytes → Content
  status_body : Status → Content
  snapshot_body : Snapshot → Content
  user_body : UserView → Content
  users_body : List UserView → Content
  not_found : Content

pub record Reply : Type 0 where
  pub status : ℕ
  pub cookies : List SetCookie
  pub content : Content

abbrev pub reply : ℕ → Content → Reply
reply status content = record { status = status; cookies = []; content = content }

-- The peer's address without its port, when it has one.
unfoldable pub peer_of : Options → Request → Bytes
peer_of o r = elim (o.codec.host_of r.remote_addr) [ none ↦ r.remote_addr | some host ↦ host ]

unfoldable pub is_trusted : Options → Bytes → Bool
is_trusted o peer = elim o.trusted_proxy [ none ↦ false | some trusted ↦ trusted peer ]

-- `isSecureRequest`
unfoldable pub is_secure_request : Options → Request → Bool
unfolding peer_of is_trusted equal_fold values
is_secure_request o r =
    if r.tls
    then true
    else if is_trusted o (peer_of o r)
    then equal_fold (get r.header (codes "X-Forwarded-Proto")) (codes "https")
    else false

-- `parts[len(parts)-1]`
unfoldable pub last : List Bytes → Bytes
last [] = []
last (p ∷ []) = p
last (p ∷ q ∷ ps) = last (q ∷ ps)

-- The client that the headers of a trusted proxy name, or else the peer.
unfoldable pub real_ip_or : Bytes → Bytes → Bytes
unfolding eq trim_space
real_ip_or real_ip peer = let ip = trim_space real_ip in if eq ip [] then peer else ip

unfoldable pub forwarded_or : Bytes → Bytes → Bytes
unfolding eq last split trim_space
forwarded_or forwarded otherwise =
    if eq forwarded []
    then otherwise
    else let ip = trim_space (last (split forwarded b',')) in if eq ip [] then otherwise else ip

-- `clientIP`
unfoldable pub client_ip : Options → Request → Bytes
unfolding peer_of is_trusted real_ip_or forwarded_or values
client_ip o r =
    let peer = peer_of o r in
    if is_trusted o peer
    then forwarded_or (get r.header (codes "X-Forwarded-For"))
        (real_ip_or (get r.header (codes "X-Real-Ip")) peer)
    else peer

-- `setCookie`
unfoldable pub set_cookie : Options → Request → Bytes → Bytes → Bool → SetCookie
unfolding is_secure_request
set_cookie o r name value http_only = record {
  name = name;
  value = value;
  path = o.base_path;
  max_age = ℤ.pos admin_session_ttl;
  http_only = http_only;
  secure = is_secure_request o r;
  same_site_strict = true;
}

-- `clearCookie`
unfoldable pub clear_cookie : Options → Request → Bytes → SetCookie
unfolding is_secure_request
clear_cookie o r name = record {
  name = name;
  value = [];
  path = o.base_path;
  max_age = ℤ.negsuc 0;
  http_only = true;
  secure = is_secure_request o r;
  same_site_strict = true;
}

-- `currentSession`
unfoldable pub current_session : Panel → World → Request → Panel × Option Session
unfolding lookup get_session
current_session p w r = elim (lookup r.cookies session_cookie) [
  | none ↦ (p, none)
  | some token ↦
      let found = get_session p.sessions w.now token in (record p { sessions = found.0 }, found.1)
]

abbrev unauthorized : Reply
unauthorized = reply 401 (error_body (codes "unauthorized"))

-- `h.auth(next)`
unfoldable pub auth : (Panel → Panel × Reply) → Panel → World → Request → Panel × Reply
unfolding current_session
auth next p w r =
    let found = current_session p w r in
    elim found.1 [ none ↦ (found.0, unauthorized) | some sess ↦ next found.0 ]

-- `h.authCSRF(next)`
unfoldable pub auth_csrf : (Panel → Panel × Reply) → Panel → World → Request → Panel × Reply
unfolding current_session eq values
auth_csrf next p w r =
    let found = current_session p w r in
    elim found.1 [
      | none ↦ (found.0, unauthorized)
      | some sess ↦
          if eq (get r.header csrf_header) sess.csrf
          then next found.0
          else (found.0, reply 403 (error_body (codes "invalid CSRF token")))
    ]
