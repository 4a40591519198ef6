-- ===== src/Config/Laws.antt =====
-- server/internal/config/config.go: what holds of every configuration that `Load` returns.
use bumshi.Common.{
  Bool, true, false, not, ◌||◌, Option, none, some, List, [], ◌∷◌, ◌++◌, ◌≡◌, inl, inr, refl, subst,
  Bytes, codes, All, Bool-cases, if◌then◌else◌,
}
use bumshi.Strings.{eq, trim_space}
use bumshi.Maps.{Map, lookup}
use bumshi.Config.{
  Level, Config, ParseError, ConfigError, ConfigLib, lookup_env, get_string, parse_bool, or_default,
  parse_found, get_parsed, get_bool, parse_level, is_positive, validate, read_config, field_errors,
  join_errors, read_errors, validated, load_level, load_values, load,
}

abbrev Passes : Bool × ConfigError → Type 0
Passes check = check.0 ≡ false

-- What is promised of the service at its start: a proxy that is on is no open relay unless one was asked
-- for, and the three listeners are apart. A proxy that the panel switches on later is not asked about.
abbrev pub StartsSafely : Config → Type 0
StartsSafely c =
    ((not c.proxy_enabled || (c.proxy_require_token || c.proxy_allow_open_relay)) ≡ true)
    × (eq c.metrics_addr c.listen_addr ≡ false)
    × ((not c.admin_enabled || not (eq c.admin_addr c.listen_addr)) ≡ true)
    × ((not c.admin_enabled || not (eq c.admin_addr c.metrics_addr)) ≡ true)
    × (is_positive c.shutdown_timeout ≡ true)

validated-inr :
    (c c' : Config) (o : Option ConfigError) → validated c o ≡ inr c' → (o ≡ none) × (c ≡ c')
unfolding validated
validated-inr c c' none h = (refl, cc h)
validated-inr c c' (some e) h = absurd (cc h)

load_level-inr :
    (lib : ConfigLib) (env : Map Bytes) (c : Config) (o : Option Level)
    → load_level lib env o ≡ inr c
    → (level : Level) × (validate lib (read_config lib env level) ≡ none)
      × (read_config lib env level ≡ c)
unfolding load_level
load_level-inr lib env c none h = absurd (cc h)
load_level-inr lib env c (some level) h =
    let (valid, same) =
      validated-inr (read_config lib env level) c (validate lib (read_config lib env level)) h in
    (level, valid, same)

load_values-inr :
    (lib : ConfigLib) (env : Map Bytes) (c : Config) (errs : List ParseError)
    → load_values lib env errs ≡ inr c
    → (errs ≡ [])
      × ((level : Level) × (validate lib (read_config lib env level) ≡ none)
          × (read_config lib env level ≡ c))
unfolding load_values
load_values-inr lib env c (e ∷ errs) h = absurd (cc h)
load_values-inr lib env c [] h = (
  refl,
  load_level-inr lib env c (parse_level (get_string env (codes "LOG_LEVEL") (codes "info"))) h,
)

-- What a variable of two values says: the default when it is not set or blank, else what it reads as.
unfoldable pub says_found : Bool → Option Bytes → Option Bool
unfolding eq trim_space parse_bool
says_found def none = some def
says_found def (some v) = if eq (trim_space v) [] then some def else parse_bool (trim_space v)

unfoldable pub says : Map Bytes → Bytes → Bool → Option Bool
unfolding lookup says_found
says env key def = says_found def (lookup_env env key)

or_default-some :
    {A : Type 0} (o : Option A) (def : A) (e : ParseError)
    → (or_default o def e).1 ≡ []
    → o ≡ some (or_default o def e).0
unfolding or_default
or_default-some none def e h = absurd (cc h)
or_default-some (some a) def e h = refl

says_found-parse_found :
    (want key : Bytes) (def : Bool) (found : Option Bytes)
    → (parse_found parse_bool want key def found).1 ≡ []
    → says_found def found ≡ some (parse_found parse_bool want key def found).0
unfolding says_found parse_found
says_found-parse_found want key def none h = refl
says_found-parse_found want key def (some v) h = elim (Bool-cases (eq (trim_space v) [])) [
  | inl e ↦ rw e refl
  | inr e ↦ rw e (or_default-some (parse_bool (trim_space v)) def _ (rw e at h))
]

get_bool-says :
    (env : Map Bytes) (key : Bytes) (def : Bool)
    → (get_bool env key def).1 ≡ []
    → says env key def ≡ some (get_bool env key def).0
unfolding says get_parsed
get_bool-says env key def h =
    says_found-parse_found (codes "boolean (true/false)") key def (lookup_env env key) h

nil_both : {A : Type 0} (xs ys : List A) → xs ++ ys ≡ [] → (xs ≡ []) × (ys ≡ [])
nil_both [] ys h = (refl, h)
nil_both (x ∷ xs) ys h = absurd (cc h)

abbrev IsNil : List ParseError → Type 0
IsNil errs = errs ≡ []

join_errors-IsNil : (fields : List (List ParseError)) → join_errors fields ≡ [] → All IsNil fields
unfolding join_errors
join_errors-IsNil [] h = tt
join_errors-IsNil (errs ∷ fields) h =
    let (first, rest) = nil_both errs (join_errors fields) h in
    (first, join_errors-IsNil fields rest)

-- The access switches of a configuration are what their variables say.
abbrev pub Follows : Map Bytes → Config → Type 0
Follows env c =
    (says env (codes "ACCESS_LOG") false ≡ some c.access_log)
    × (says env (codes "PROXY_ENABLED") false ≡ some c.proxy_enabled)
    × (says env (codes "PROXY_REQUIRE_TOKEN") false ≡ some c.proxy_require_token)
    × (says env (codes "PROXY_ALLOW_OPEN_RELAY") false ≡ some c.proxy_allow_open_relay)
    × (says env (codes "ADMIN_ENABLED") false ≡ some c.admin_enabled)

read_config-Follows :
    (lib : ConfigLib) (env : Map Bytes) (level : Level)
    → read_errors lib env ≡ []
    → Follows env (read_config lib env level)
unfolding read_errors field_errors read_config
read_config-Follows lib env level h =
    let none_of = join_errors-IsNil (field_errors lib env) h in
    let from_proxy = none_of.1.1.1.1.1.1 in
    let from_token = from_proxy.1.1.1.1 in
    (
      get_bool-says env (codes "ACCESS_LOG") false none_of.0,
      get_bool-says env (codes "PROXY_ENABLED") false from_proxy.0,
      get_bool-says env (codes "PROXY_REQUIRE_TOKEN") false from_token.0,
      get_bool-says env (codes "PROXY_ALLOW_OPEN_RELAY") false from_token.1.0,
      get_bool-says env (codes "ADMIN_ENABLED") false from_token.1.1.0,
    )

-- A switch that is misspelt is an error: a configuration is loaded only if each of the switches that
-- control access says true or false, or nothing, and then it is as it says.
pub load-Follows :
    (lib : ConfigLib) (env : Map Bytes) (c : Config) → load lib env ≡ inr c → Follows env c
unfolding load
load-Follows lib env c h =
    let (no_errors, found) = load_values-inr lib env c (read_errors lib env) h in
    subst (Follows env) found.2 (read_config-Follows lib env found.0 no_errors)
