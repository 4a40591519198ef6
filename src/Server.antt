-- ===== src/Server.antt =====
-- server/internal/server/server.go: which handlers a configuration builds and what state they share; and
-- server/internal/health/health.go. `live` is the settings once the file has been read; path/filepath and
-- net.ParseIP are parameters.
pub mod Gate
pub mod Lifecycle
pub mod Moves
pub mod Shutdown
mod Examples
use bumshi.Common.{
  ℕ, ◌*◌, ◌^◌, Bool, true, false, not, ◌&&◌, Option, none, some, List, [], ◌∷◌, ◌++◌, Bytes, codes,
  if◌then◌else◌,
}
use bumshi.Strings.{eq, index, trim_space}
use bumshi.Link.{Url, UrlLib}
use bumshi.SsrfGuard.{Addr, is_loopback}
use bumshi.Access.{AccessStore, File, Json, new_access_store, is_authorized}
use bumshi.Sessions.{new_session_store}
use bumshi.RateLimit.{new_rate_limiter}
use bumshi.Settings.{Settings}
use bumshi.Passwords.{verify_password}
use bumshi.Serve.{SplitHostPort, Handler, normalize_hosts}
use bumshi.Admin.{Codec, Options, Panel, admin_session_ttl}
use bumshi.Maps.{Map}
use bumshi.Passwords.{Prf}
use bumshi.Config.{Config}

pub record ServerLib : Type 0 where
  pub url : UrlLib
  pub split_host : SplitHostPort
  pub parse_ip : Bytes → Option Addr
  pub dir : Bytes → Bytes
  pub join_path : Bytes → Bytes → Bytes
  pub codec : Codec
  pub prf : Prf
  pub assets : Map Bytes

-- `isLoopbackPeer`
unfoldable pub is_loopback_peer : ServerLib → Bytes → Bool
unfolding is_loopback
is_loopback_peer lib peer = elim (lib.parse_ip peer) [ none ↦ false | some ip ↦ is_loopback ip ]

-- `settingsPath`
unfoldable pub settings_path : ServerLib → Bytes → Bytes
unfolding eq
settings_path lib access_store_path =
    if eq access_store_path []
    then []
    else lib.join_path (lib.dir access_store_path) (codes "settings.json")

-- `strings.Contains(raw, "://")`
unfoldable pub with_scheme : Bytes → Bytes
unfolding index
with_scheme raw = elim (index raw (codes "://")) [ none ↦ codes "https://" ++ raw | some i ↦ raw ]

-- `selfHosts`
unfoldable pub self_hosts : ServerLib → Bytes → List Bytes
unfolding trim_space eq with_scheme
self_hosts lib public_url =
    if eq (trim_space public_url) []
    then []
    else elim (lib.url.parse (with_scheme (trim_space public_url))) [
      | none ↦ []
      | some u ↦ if eq (lib.url.hostname u) [] then [] else lib.url.hostname u ∷ []
    ]

-- The roster of `New`: in memory when the file cannot be loaded.
unfoldable pub open_roster : Json → Bytes → File → AccessStore
unfolding new_access_store
open_roster json path file = elim (new_access_store json path file) [
  | some access ↦ access
  | none ↦ record { users = []; path = []; file = file; json = json }
]

-- `buildProxy`, as the handler stands at a time, and `proxy.New` for these options; none when the proxy is
-- not mounted.
unfoldable pub build_proxy : ServerLib → Config → Settings → AccessStore → ℕ → Option Handler
unfolding is_authorized self_hosts normalize_hosts
build_proxy lib c live access now =
    if not c.proxy_enabled && not c.admin_enabled
    then none
    else some (record {
      enabled = some live.proxy_enabled;
      require_token = c.proxy_require_token;
      authorized = some (is_authorized access now);
      self_hosts = normalize_hosts lib.split_host (self_hosts lib c.public_url);
      block_telemetry = true;
    })

-- A minute in nanoseconds.
abbrev pub minute : ℕ
minute = 60 * 10 ^ 9

-- `buildAdmin`: the panel's options and its state, or none when it is not started.
unfoldable pub build_admin : ServerLib → Config → Settings → AccessStore → Option (Options × Panel)
unfolding eq verify_password is_loopback_peer
build_admin lib c live access =
    if not c.admin_enabled
    then none
    else if eq c.admin_password_hash []
    then none
    else elim (verify_password lib.prf c.admin_password_hash []) [
      | none ↦ none
      | some matches ↦ some (
        record {
          base_path = c.admin_path;
          username = c.admin_username;
          password_hash = c.admin_password_hash;
          public_url = c.public_url;
          trusted_proxy = some (is_loopback_peer lib);
          assets = lib.assets;
          codec = lib.codec;
          prf = lib.prf;
        },
        record {
          settings = live;
          sessions = new_session_store (admin_session_ttl * 10 ^ 9);
          logins = new_rate_limiter 10 minute;
          access = access;
        },
      )
    ]

-- `Checker.Ready` and `Checker.Live`: the status of each probe.
unfoldable pub ready_status : Bool → ℕ
ready_status ready = if ready then 200 else 503

abbrev pub live_status : ℕ
live_status = 200
