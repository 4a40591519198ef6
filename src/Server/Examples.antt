-- ===== src/Server/Examples.antt =====
-- The theorems on the whole service at a concrete configuration.
use bumshi.Common.{
  Option, ◌≤◌, length, true, false, none, some, [], ◌∷◌, ◌++◌, ◌≡◌, inl, inr, refl, sym, ap, ◌∙◌,
  Bytes, codes, Bool-cases, if◌then◌else◌,
}
use bumshi.Strings.{eq}
use bumshi.Strings.Laws.{eq_iff}
use bumshi.Maps.{Map, lookup}
use bumshi.Access.{AccessUser, File, is_authorized}
use bumshi.Access.Persist.{IsRoster}
use bumshi.Settings.{Settings, new_settings, apply}
use bumshi.Config.{Level, Config, ConfigLib, read_config, load}
use bumshi.Serve.{Handler, HttpRequest, forward, serve_http}
use bumshi.Admin.{Panel}
use bumshi.Admin.Examples.{no_json, options, panel, world, stranger}
use bumshi.Admin.Handlers.{api_delete_user}
use bumshi.Request.Examples.{site, paths}
use bumshi.Base64.{decode}
use bumshi.Server.Lifecycle.{
  unbegun, listening, ended, control, metrics, Process, begin, cancel, shutdown, start, run,
}
use bumshi.Server.Shutdown.{Returns, run-has_returned}
use bumshi.Server.{ServerLib, build_proxy}
use bumshi.Server.Gate.{IsRefused, api_delete_user-IsRefused}

-- Takes every address for one of the site, and an address without a port for its host.
abbrev library : ServerLib
library = record {
  url = paths;
  split_host = λ s. none;
  parse_ip = λ s. none;
  dir = λ s. s;
  join_path = λ a b. a ++ b;
  codec = options.codec;
  prf = options.prf;
  assets = [];
}

abbrev unread : ConfigLib
unread = record { parse_duration = λ s. none; parse_url = λ s. some (site []) }

-- The panel without the proxy: no token is required, and no open relay asked for.
abbrev panel_only : Map Bytes
panel_only =
    (codes "BUMSHI_ADMIN_ENABLED", codes "true")
    ∷ (codes "BUMSHI_PUBLIC_URL", codes "https://a.io")
    ∷ []

panel_only_loads : load unread panel_only ≡ inr (read_config unread panel_only Level.info)
unfolding load
panel_only_loads = refl

abbrev gated : Map Bytes
gated =
    (codes "BUMSHI_PROXY_ENABLED", codes "true")
    ∷ (codes "BUMSHI_PROXY_REQUIRE_TOKEN", codes "true")
    ∷ []

abbrev configured : Config
configured = read_config unread gated Level.info

abbrev anna : AccessUser
anna = record {
  id = codes "a";
  label = codes "Anna";
  token = codes "k";
  created = 5;
  expires = none;
}

abbrev staffed : Panel
staffed = record panel {
  access = record {
    users = (codes "a", anna) ∷ [];
    path = [];
    file = File.missing;
    json = no_json;
  };
}

abbrev visit : HttpRequest
visit = record {
  escaped_path = codes "/p/aHR0cHM6Ly9hLmlvLw";
  raw_query = [];
  host = codes "proxy.io";
  access_token = some (codes "k");
  header = [];
}

abbrev live : Settings
live = new_settings true false

abbrev deletion : bumshi.Admin.Request
deletion = record stranger { body = codes "a" }

abbrev gated_handler : Handler
gated_handler = record {
  enabled = some true;
  require_token = true;
  authorized = some (is_authorized (api_delete_user options world deletion staffed).0.access 20);
  self_hosts = [];
  block_telemetry = true;
}

built :
    build_proxy library configured live (api_delete_user options world deletion staffed).0.access 20
    ≡ some gated_handler
unfolding build_proxy read_config new_settings
built = refl

api_delete_user-IsRefused_example :
    IsRefused (serve_http library.url library.split_host gated_handler visit)
api_delete_user-IsRefused_example =
    api_delete_user-IsRefused library configured options staffed world deletion (codes "a") live 20
      gated_handler visit anna_listed only_anna refl (unfold eq in refl) built token_required
  where
    anna_listed : IsRoster staffed.access.users
    anna_listed = unfold IsRoster in unfold eq in unfold lookup in (refl, refl, refl, tt)

    token_required : configured.proxy_require_token ≡ true
    token_required = unfold read_config in refl

    only_anna :
        (k : Bytes) (u : AccessUser)
        → lookup staffed.access.users k ≡ some u
        → eq u.token (codes "k") ≡ true
        → k ≡ codes "a"
    only_anna k u found same = elim (Bool-cases (eq (codes "a") k)) [
      | inl e ↦ sym ((eq_iff (codes "a") k).0 e)
      | inr e ↦
          let missing : lookup staffed.access.users k ≡ none =
            unfold lookup in ap (λ b. if b then some anna else none) e in
          absurd (cc (sym found ∙ missing))
    ]

abbrev relaying : Handler
relaying = record {
  enabled =
      some
        (apply (new_settings false false)
          (record { proxy_enabled = true; access_log = false; modules = [] })).proxy_enabled;
  require_token = (read_config unread panel_only Level.info).proxy_require_token;
  authorized = some (λ token. false);
  self_hosts = [];
  block_telemetry = true;
}

-- Switched on in the panel, the proxy forwards for anyone, though no open relay was asked for.
relay_without_asking :
    serve_http paths library.split_host relaying visit ≡ forward (site (codes "https://a.io/"))
unfolding serve_http apply read_config new_settings decode
relay_without_asking = refl

-- The context ends before the control plane's goroutine has begun: the service returns, still ready.
ready_after_shutdown :
    run
      (cancel ∷ shutdown control ∷ shutdown metrics ∷ begin metrics ∷ begin control ∷ [])
      (start false)
    ≡ some (record {
      control_phase = ended;
      metrics_phase = ended;
      admin_phase = ended;
      ready = true;
      errors = [];
      selected = some none;
      control_shut = true;
      metrics_shut = true;
      admin_shut = true;
    })
unfolding run start
ready_after_shutdown = refl

-- The context ends while only the metrics listener has begun.
abbrev stopping : Process
stopping = record {
  control_phase = unbegun;
  metrics_phase = listening;
  admin_phase = ended;
  ready = false;
  errors = [];
  selected = some none;
  control_shut = false;
  metrics_shut = false;
  admin_shut = true;
}

run-has_returned_example :
    (length (begin metrics ∷ cancel ∷ []) ≤ 10)
    × ((given : Option Bytes) → stopping.selected ≡ some given → Returns stopping given)
run-has_returned_example = run-has_returned false (begin metrics ∷ cancel ∷ []) stopping stops
  where
    stops : run (begin metrics ∷ cancel ∷ []) (start false) ≡ some stopping
    stops = unfold run in unfold start in refl
