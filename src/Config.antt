-- ===== src/Config.antt =====
-- server/internal/config/config.go: the configuration, read from the environment and validated. The
-- environment is a map; `time.ParseDuration` and `url.Parse` are parameters.
pub mod Laws
mod Examples
use bumshi.Common.{
  ℕ, zero, suc, ◌*◌, ◌^◌, Bool, true, false, not, ◌&&◌, ◌||◌, Option, none, some, List, [], ◌∷◌,
  ◌++◌, ◌⊎◌, inl, inr, Bytes, codes, if◌then◌else◌,
}
use bumshi.Strings.{
  ℤ, pos, negsuc, atoi, contains, eq, has_prefix, has_suffix, to_lower, trim_space,
}
use bumshi.Maps.{Map, lookup}
use bumshi.Link.{Url}

abbrev pub env_prefix : Bytes
env_prefix = codes "BUMSHI_"

abbrev pub env_development : Bytes
env_development = codes "development"

abbrev pub env_production : Bytes
env_production = codes "production"

pub data Level : Type 0 where
  debug info warn error : Level

-- `Config`; a duration is in nanoseconds.
pub record Config : Type 0 where
  pub env : Bytes
  pub listen_addr : Bytes
  pub metrics_addr : Bytes
  pub log_level : Level
  pub log_format : Bytes
  pub access_log : Bool
  pub read_timeout : ℤ
  pub read_header_timeout : ℤ
  pub write_timeout : ℤ
  pub idle_timeout : ℤ
  pub shutdown_timeout : ℤ
  pub proxy_enabled : Bool
  pub proxy_rewrite_max_bytes : ℤ
  pub proxy_response_header_timeout : ℤ
  pub proxy_force_ipv4 : Bool
  pub proxy_require_token : Bool
  pub proxy_allow_open_relay : Bool
  pub admin_enabled : Bool
  pub admin_addr : Bytes
  pub admin_path : Bytes
  pub admin_username : Bytes
  pub admin_password_hash : Bytes
  pub public_url : Bytes
  pub access_store_path : Bytes
  pub log_upstream_host : Bytes

-- A variable, its value and what it should have been.
pub record ParseError : Type 0 where
  pub key : Bytes
  pub value : Bytes
  pub want : Bytes

-- The messages of `Load`, without the values they quote.
pub data ConfigError : Type 0 where
  invalid_values : List ParseError → ConfigError
  invalid_log_level invalid_env no_listen_addr no_metrics_addr same_metrics_and_listen
        invalid_log_format :
      ConfigError
  negative_timeout no_shutdown_timeout no_rewrite_max no_response_header_timeout open_relay :
      ConfigError
  relative_public_url public_url_scheme no_public_url : ConfigError
  admin_path_slashes no_admin_username no_admin_addr same_admin_and_listen same_admin_and_metrics :
      ConfigError

pub record ConfigLib : Type 0 where
  pub parse_duration : Bytes → Option ℤ
  pub parse_url : Bytes → Option Url

-- `os.LookupEnv(envPrefix + key)`
abbrev pub lookup_env : Map Bytes → Bytes → Option Bytes
lookup_env env key = lookup env (env_prefix ++ key)

-- `getString`
unfoldable pub get_string : Map Bytes → Bytes → Bytes → Bytes
unfolding lookup eq trim_space
get_string env key def = elim (lookup_env env key) [
  | none ↦ def
  | some v ↦ let tv = trim_space v in if eq tv [] then def else tv
]

-- `getStringAllowEmpty`
unfoldable pub get_string_allow_empty : Map Bytes → Bytes → Bytes → Bytes
unfolding lookup trim_space
get_string_allow_empty env key def = elim (lookup_env env key) [
  | none ↦ def
  | some v ↦ trim_space v
]

-- `strconv.ParseBool`
unfoldable pub parse_bool : Bytes → Option Bool
unfolding contains
parse_bool s =
    if contains
      (codes "1" ∷ codes "t" ∷ codes "T" ∷ codes "TRUE" ∷ codes "true" ∷ codes "True" ∷ []) s
    then some true
    else if contains
        (codes "0" ∷ codes "f" ∷ codes "F" ∷ codes "FALSE" ∷ codes "false" ∷ codes "False" ∷ []) s
    then some false
    else none

-- A value, and the errors added in reading it.
abbrev pub Parsed : Type 0 → Type 0
Parsed A = A × List ParseError

module _ {A : Type 0} where
  -- The end of a reader: `errs.add`, and the default.
  unfoldable pub or_default : Option A → A → ParseError → Parsed A
  or_default none def e = (def, e ∷ [])
  or_default (some a) def e = (a, [])

  -- What `getBool`, `getInt64` and `getDuration` share, from the variable's value on.
  unfoldable pub parse_found : (Bytes → Option A) → Bytes → Bytes → A → Option Bytes → Parsed A
  unfolding eq trim_space or_default
  parse_found parse want key def none = (def, [])
  parse_found parse want key def (some v) =
      if eq (trim_space v) []
      then (def, [])
      else or_default (parse (trim_space v)) def
          (record { key = env_prefix ++ key; value = v; want = want })

  unfoldable pub get_parsed : (Bytes → Option A) → Bytes → Map Bytes → Bytes → A → Parsed A
  unfolding lookup parse_found
  get_parsed parse want env key def = parse_found parse want key def (lookup_env env key)

-- `getBool`
abbrev pub get_bool : Map Bytes → Bytes → Bool → Parsed Bool
get_bool = get_parsed parse_bool (codes "boolean (true/false)")

-- `getInt64`
abbrev pub get_int64 : Map Bytes → Bytes → ℤ → Parsed ℤ
get_int64 = get_parsed atoi (codes "integer")

-- `getDuration`
abbrev pub get_duration : ConfigLib → Map Bytes → Bytes → ℤ → Parsed ℤ
get_duration lib = get_parsed lib.parse_duration (codes "duration (e.g. 30s, 2m)")

-- `normalizePath`
unfoldable pub with_prefix : Bytes → Bytes
unfolding has_prefix
with_prefix p = if has_prefix p (codes "/") then p else b'/' ∷ p

unfoldable pub with_suffix : Bytes → Bytes
unfolding has_suffix
with_suffix p = if has_suffix p (codes "/") then p else p ++ codes "/"

unfoldable pub normalize_path : Bytes → Bytes
unfolding trim_space eq with_prefix with_suffix
normalize_path raw =
    let p = trim_space raw in if eq p [] then codes "/admin/" else with_suffix (with_prefix p)

-- `parseLevel`
unfoldable pub parse_level : Bytes → Option Level
unfolding to_lower trim_space eq
parse_level s =
    let l = to_lower (trim_space s) in
    if eq l (codes "debug")
    then some debug
    else if eq l (codes "info") || eq l []
    then some info
    else if eq l (codes "warn") || eq l (codes "warning")
    then some warn
    else if eq l (codes "error")
    then some error
    else none

abbrev pub is_negative : ℤ → Bool
is_negative (pos n) = false
is_negative (negsuc n) = true

abbrev pub is_positive : ℤ → Bool
is_positive (pos zero) = false
is_positive (pos (suc n)) = true
is_positive (negsuc n) = false

-- The checks of `validate`, in order: the first that fails gives the error.
unfoldable pub first_error : List (Bool × ConfigError) → Option ConfigError
first_error [] = none
first_error ((failed, e) ∷ checks) = if failed then some e else first_error checks

unfoldable pub basic_checks : Config → List (Bool × ConfigError)
unfolding eq
basic_checks c =
    (not (eq c.env env_development) && not (eq c.env env_production), invalid_env)
    ∷ (eq c.listen_addr [], no_listen_addr)
    ∷ (eq c.metrics_addr [], no_metrics_addr)
    ∷ (eq c.metrics_addr c.listen_addr, same_metrics_and_listen)
    ∷ (
      not (eq c.log_format (codes "json")) && not (eq c.log_format (codes "text")),
      invalid_log_format,
    )
    ∷ (
      is_negative c.read_timeout
          || is_negative c.read_header_timeout
          || is_negative c.write_timeout
          || is_negative c.idle_timeout,
      negative_timeout,
    )
    ∷ (not (is_positive c.shutdown_timeout), no_shutdown_timeout)
    ∷ []

unfoldable pub proxy_checks : Config → List (Bool × ConfigError)
proxy_checks c =
    (c.proxy_enabled && not (is_positive c.proxy_rewrite_max_bytes), no_rewrite_max)
    ∷ (
      c.proxy_enabled && not (is_positive c.proxy_response_header_timeout),
      no_response_header_timeout,
    )
    ∷ (c.proxy_enabled && (not c.proxy_require_token && not c.proxy_allow_open_relay), open_relay)
    ∷ []

unfoldable pub public_url_checks : ConfigLib → Config → List (Bool × ConfigError)
unfolding eq
public_url_checks lib c =
    if eq c.public_url []
    then (c.admin_enabled, no_public_url) ∷ []
    else elim (lib.parse_url c.public_url) [
      | none ↦ (true, relative_public_url) ∷ []
      | some u ↦
          (eq u.scheme [] || eq u.host [], relative_public_url)
          ∷ (
            not (eq u.scheme (codes "http")) && not (eq u.scheme (codes "https")),
            public_url_scheme,
          )
          ∷ []
    ]

unfoldable pub admin_checks : Config → List (Bool × ConfigError)
unfolding eq has_prefix has_suffix
admin_checks c =
    (
      c.admin_enabled
          && (not (has_prefix c.admin_path (codes "/"))
              || not (has_suffix c.admin_path (codes "/"))),
      admin_path_slashes,
    )
    ∷ (c.admin_enabled && eq c.admin_username [], no_admin_username)
    ∷ (c.admin_enabled && eq c.admin_addr [], no_admin_addr)
    ∷ (c.admin_enabled && eq c.admin_addr c.listen_addr, same_admin_and_listen)
    ∷ (c.admin_enabled && eq c.admin_addr c.metrics_addr, same_admin_and_metrics)
    ∷ []

-- `validate`
unfoldable pub validate : ConfigLib → Config → Option ConfigError
unfolding first_error basic_checks proxy_checks public_url_checks admin_checks
validate lib c =
    first_error (basic_checks c ++ (proxy_checks c ++ (public_url_checks lib c ++ admin_checks c)))

abbrev second : ℕ
second = 10 ^ 9

-- The literal of `Load`, with the paths and the levels as they are set later.
unfoldable pub read_config : ConfigLib → Map Bytes → Level → Config
unfolding get_string get_string_allow_empty get_parsed parse_bool atoi normalize_path eq
read_config lib env level =
    let mode = get_string env (codes "ENV") env_production in
    let format = get_string env (codes "LOG_FORMAT") [] in
    record {
      env = mode;
      listen_addr = get_string env (codes "LISTEN_ADDR") (codes "127.0.0.1:8080");
      metrics_addr = get_string env (codes "METRICS_ADDR") (codes "127.0.0.1:9090");
      log_level = level;
      log_format =
          if eq format []
          then (if eq mode env_development then codes "text" else codes "json")
          else format;
      access_log = (get_bool env (codes "ACCESS_LOG") false).0;
      read_timeout = (get_duration lib env (codes "READ_TIMEOUT") (pos (15 * second))).0;
      read_header_timeout =
          (get_duration lib env (codes "READ_HEADER_TIMEOUT") (pos (10 * second))).0;
      write_timeout = (get_duration lib env (codes "WRITE_TIMEOUT") (pos (30 * second))).0;
      idle_timeout = (get_duration lib env (codes "IDLE_TIMEOUT") (pos (120 * second))).0;
      shutdown_timeout = (get_duration lib env (codes "SHUTDOWN_TIMEOUT") (pos (20 * second))).0;
      proxy_enabled = (get_bool env (codes "PROXY_ENABLED") false).0;
      proxy_rewrite_max_bytes =
          (get_int64 env (codes "PROXY_REWRITE_MAX_BYTES") (pos (8 * 2 ^ 20))).0;
      proxy_response_header_timeout =
          (get_duration lib env (codes "PROXY_RESPONSE_HEADER_TIMEOUT") (pos (30 * second))).0;
      proxy_force_ipv4 = (get_bool env (codes "PROXY_FORCE_IPV4") true).0;
      proxy_require_token = (get_bool env (codes "PROXY_REQUIRE_TOKEN") false).0;
      proxy_allow_open_relay = (get_bool env (codes "PROXY_ALLOW_OPEN_RELAY") false).0;
      admin_enabled = (get_bool env (codes "ADMIN_ENABLED") false).0;
      admin_addr = get_string env (codes "ADMIN_ADDR") (codes "127.0.0.1:8081");
      admin_path = normalize_path (get_string env (codes "ADMIN_PATH") (codes "/admin/"));
      admin_username = get_string env (codes "ADMIN_USERNAME") (codes "admin");
      admin_password_hash = get_string env (codes "ADMIN_PASSWORD_HASH") [];
      public_url = get_string env (codes "PUBLIC_URL") [];
      access_store_path =
          get_string_allow_empty env (codes "ACCESS_STORE_PATH")
            (codes "/var/lib/bumshi/access.json");
      log_upstream_host = get_string_allow_empty env (codes "LOG_UPSTREAM_HOST") [];
    }

-- The errors that reading adds, in the order of the literal's fields.
unfoldable pub field_errors : ConfigLib → Map Bytes → List (List ParseError)
unfolding get_parsed parse_bool atoi
field_errors lib env =
    (get_bool env (codes "ACCESS_LOG") false).1
    ∷ (get_duration lib env (codes "READ_TIMEOUT") (pos (15 * second))).1
    ∷ (get_duration lib env (codes "READ_HEADER_TIMEOUT") (pos (10 * second))).1
    ∷ (get_duration lib env (codes "WRITE_TIMEOUT") (pos (30 * second))).1
    ∷ (get_duration lib env (codes "IDLE_TIMEOUT") (pos (120 * second))).1
    ∷ (get_duration lib env (codes "SHUTDOWN_TIMEOUT") (pos (20 * second))).1
    ∷ (get_bool env (codes "PROXY_ENABLED") false).1
    ∷ (get_int64 env (codes "PROXY_REWRITE_MAX_BYTES") (pos (8 * 2 ^ 20))).1
    ∷ (get_duration lib env (codes "PROXY_RESPONSE_HEADER_TIMEOUT") (pos (30 * second))).1
    ∷ (get_bool env (codes "PROXY_FORCE_IPV4") true).1
    ∷ (get_bool env (codes "PROXY_REQUIRE_TOKEN") false).1
    ∷ (get_bool env (codes "PROXY_ALLOW_OPEN_RELAY") false).1
    ∷ (get_bool env (codes "ADMIN_ENABLED") false).1
    ∷ []

unfoldable pub join_errors : List (List ParseError) → List ParseError
join_errors [] = []
join_errors (errs ∷ rest) = errs ++ join_errors rest

unfoldable pub read_errors : ConfigLib → Map Bytes → List ParseError
unfolding field_errors join_errors
read_errors lib env = join_errors (field_errors lib env)

unfoldable pub validated : Config → Option ConfigError → ConfigError ⊎ Config
validated c none = inr c
validated c (some e) = inl e

unfoldable pub load_level : ConfigLib → Map Bytes → Option Level → ConfigError ⊎ Config
unfolding read_config validate validated
load_level lib env none = inl invalid_log_level
load_level lib env (some level) = let c = read_config lib env level in validated c (validate lib c)

unfoldable pub load_values : ConfigLib → Map Bytes → List ParseError → ConfigError ⊎ Config
unfolding parse_level get_string load_level
load_values lib env (e ∷ errs) = inl (invalid_values (e ∷ errs))
load_values lib env [] =
    load_level lib env (parse_level (get_string env (codes "LOG_LEVEL") (codes "info")))

-- `Load`
unfoldable pub load : ConfigLib → Map Bytes → ConfigError ⊎ Config
unfolding load_values read_errors
load lib env = load_values lib env (read_errors lib env)
