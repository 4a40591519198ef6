-- ===== src/Config/Examples.antt =====
-- The theorems on the configuration at a concrete environment.
use bumshi.Common.{none, [], ◌∷◌, ◌≡◌, inl, inr, refl, codes}
use bumshi.Maps.{Map}
use bumshi.Common.{Bytes}
use bumshi.Config.{Level, ConfigLib, open_relay, invalid_values, read_config, load}
use bumshi.Config.Laws.{Follows, load-Follows}

-- Durations and addresses that are never read.
abbrev unread : ConfigLib
unread = record { parse_duration = λ s. none; parse_url = λ s. none }

abbrev gated : Map Bytes
gated =
    (codes "BUMSHI_PROXY_ENABLED", codes "true")
    ∷ (codes "BUMSHI_PROXY_REQUIRE_TOKEN", codes " 1 ")
    ∷ []

abbrev relay : Map Bytes
relay = (codes "BUMSHI_PROXY_ENABLED", codes "true") ∷ []

abbrev misspelt : Map Bytes
misspelt = (codes "BUMSHI_PROXY_REQUIRE_TOKEN", codes "ture") ∷ []

relay_refused : load unread relay ≡ inl open_relay
unfolding load
relay_refused = refl

misspelt_refused :
    load unread misspelt
    ≡ inl (
        invalid_values (
          record {
            key = codes "BUMSHI_PROXY_REQUIRE_TOKEN";
            value = codes "ture";
            want = codes "boolean (true/false)";
          }
          ∷ []))
unfolding load
misspelt_refused = refl

gated_loads : load unread gated ≡ inr (read_config unread gated Level.info)
unfolding load
gated_loads = refl

load-Follows_example : Follows gated (read_config unread gated Level.info)
load-Follows_example = load-Follows unread gated (read_config unread gated Level.info) gated_loads
