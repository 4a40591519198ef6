-- ===== src/Serve.antt =====
-- server/internal/proxy: `ServeHTTP` and `isSelf` (proxy.go), and the test for a WebSocket upgrade
-- (websocket.go).
pub mod Laws
mod Examples
use bumshi.Common.{
  ℕ, Bool, true, false, not, ◌&&◌, ◌||◌, Option, none, some, List, [], ◌∷◌, ◌++◌, Bytes, codes,
  if◌then◌else◌,
}
use bumshi.Strings.{eq, equal_fold, split, trim_space, to_lower}
use bumshi.Headers.{Header, values, get}
use bumshi.Link.{Url, UrlLib, ok, err, decode_request}
use bumshi.Telemetry.{is_telemetry_sink}

-- The host of `net.SplitHostPort`; `none` is an error.
abbrev pub SplitHostPort : Type 0
SplitHostPort = Bytes → Option Bytes

-- What the handler has: `none` stands for a function that is nil, and `enabled` for what `h.enabled()`
-- returns for this request.
pub record Handler : Type 0 where
  pub enabled : Option Bool
  pub require_token : Bool
  pub authorized : Option (Bytes → Bool)
  pub self_hosts : List Bytes
  pub block_telemetry : Bool

-- What it reads of a request; `access_token` is the value of the cookie "bumshi_access", if any.
pub record HttpRequest : Type 0 where
  pub escaped_path : Bytes
  pub raw_query : Bytes
  pub host : Bytes
  pub access_token : Option Bytes
  pub header : Header

-- The end of `ServeHTTP`: 404, 403, 400 twice, the empty answer to a beacon, a tunnel or a fetch.
pub data Outcome : Type 0 where
  not_found access_denied invalid_target self_target telemetry : Outcome
  web_socket forward : Url → Outcome

-- `normalizeHosts`
unfoldable pub normalize_hosts : SplitHostPort → List Bytes → List Bytes
unfolding to_lower trim_space eq
normalize_hosts split_host [] = []
normalize_hosts split_host (h ∷ hosts) =
    let host = to_lower (trim_space (elim (split_host h) [ none ↦ h | some name ↦ name ])) in
    let rest = normalize_hosts split_host hosts in if not (eq host []) then host ∷ rest else rest

any_equal_fold : Bytes → List Bytes → Bool
unfolding equal_fold
any_equal_fold host [] = false
any_equal_fold host (h ∷ hosts) = equal_fold host h || any_equal_fold host hosts

-- `isSelf`
unfoldable pub is_self : SplitHostPort → List Bytes → Bytes → Bytes → Bool
unfolding any_equal_fold eq
is_self split_host self_hosts target_host req_host =
    if eq target_host []
    then false
    else (equal_fold target_host (elim (split_host req_host) [ none ↦ req_host | some name ↦ name ])
        || any_equal_fold target_host self_hosts)

any_part : List Bytes → Bytes → Bool
unfolding equal_fold trim_space
any_part [] token = false
any_part (p ∷ parts) token = equal_fold (trim_space p) token || any_part parts token

any_value : List Bytes → Bytes → Bool
unfolding any_part split
any_value [] token = false
any_value (v ∷ vv) token = any_part (split v b',') token || any_value vv token

-- `headerContainsToken`, for a canonical name
unfoldable pub header_contains_token : Header → Bytes → Bytes → Bool
unfolding any_value values
header_contains_token h key token = elim (values h key) [
  | none ↦ false
  | some vv ↦ any_value vv token
]

-- `isWebSocketUpgrade`
unfoldable pub is_web_socket_upgrade : Header → Bool
unfolding equal_fold header_contains_token
is_web_socket_upgrade h =
    equal_fold (get h (codes "Upgrade")) (codes "websocket")
    && header_contains_token h (codes "Connection") (codes "upgrade")

-- `accessToken`
abbrev pub token_of : Option Bytes → Bytes
token_of none = []
token_of (some token) = token

-- `h.enabled != nil && !h.enabled()`
abbrev pub is_off : Option Bool → Bool
is_off none = false
is_off (some on) = not on

-- `h.authorized == nil || !h.authorized(accessToken(r))`
abbrev pub is_refused : Option (Bytes → Bool) → Bytes → Bool
is_refused none token = true
is_refused (some authorized) token = not (authorized token)

module _ (lib : UrlLib) (split_host : SplitHostPort) where
  -- `ServeHTTP` from the decoded target on.
  unfoldable pub serve_target : Handler → HttpRequest → Url → Outcome
  unfolding is_self is_telemetry_sink is_web_socket_upgrade
  serve_target h r target =
      if is_self split_host h.self_hosts (lib.hostname target) r.host
      then self_target
      else if h.block_telemetry && is_telemetry_sink lib target
      then telemetry
      else if is_web_socket_upgrade r.header
      then web_socket target
      else forward target

  -- `ServeHTTP`
  unfoldable pub serve_http : Handler → HttpRequest → Outcome
  unfolding decode_request serve_target
  serve_http h r =
      if is_off h.enabled
      then not_found
      else if h.require_token && is_refused h.authorized (token_of r.access_token)
      then access_denied
      else elim (decode_request lib r.escaped_path r.raw_query) [
        | err e ↦ invalid_target
        | ok target ↦ serve_target h r target
      ]
