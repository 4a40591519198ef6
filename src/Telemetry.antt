-- ===== src/Telemetry.antt =====
-- server/internal/proxy/telemetry.go: beacons that are answered locally.
pub mod Laws
mod Examples
use bumshi.Common.{
  Bool, true, false, not, ◌&&◌, ◌||◌, List, [], ◌∷◌, ◌++◌, Bytes, codes, if◌then◌else◌,
}
use bumshi.Strings.{eq, has_prefix, has_suffix, to_lower, trim_suffix_byte}
use bumshi.Link.{Url, UrlLib}

pub record TelemetryRule : Type 0 where
  pub host_suffix : Bytes
  pub path_prefix : Bytes
  pub exact_path : Bool

abbrev prefix_rule : Bytes → Bytes → TelemetryRule
prefix_rule host path = record { host_suffix = host; path_prefix = path; exact_path = false }

abbrev exact_rule : Bytes → Bytes → TelemetryRule
exact_rule host path = record { host_suffix = host; path_prefix = path; exact_path = true }

abbrev pub telemetry_sinks : List TelemetryRule
telemetry_sinks =
    exact_rule (codes "google.com") (codes "/gen_204")
    ∷ exact_rule (codes "google.com") (codes "/client_204")
    ∷ prefix_rule (codes "google.com") (codes "/httpservice/retry/jserror")
    ∷ prefix_rule (codes "play.google.com") (codes "/log")
    ∷ exact_rule (codes "google.com") (codes "/log")
    ∷ prefix_rule (codes "youtube.com") (codes "/api/stats/")
    ∷ prefix_rule (codes "youtube.com") (codes "/ptracking")
    ∷ prefix_rule (codes "google-analytics.com") (codes "/collect")
    ∷ prefix_rule (codes "google-analytics.com") (codes "/g/collect")
    ∷ prefix_rule (codes "google-analytics.com") (codes "/j/collect")
    ∷ prefix_rule (codes "google-analytics.com") (codes "/batch")
    ∷ prefix_rule (codes "analytics.google.com") (codes "/g/collect")
    ∷ exact_rule (codes "facebook.com") (codes "/tr")
    ∷ prefix_rule (codes "ingest.sentry.io") (codes "/api/")
    ∷ prefix_rule (codes "api.mixpanel.com") (codes "/track")
    ∷ prefix_rule (codes "api.amplitude.com") (codes "/")
    ∷ prefix_rule (codes "api.segment.io") (codes "/v1/")
    ∷ prefix_rule (codes "scorecardresearch.com") (codes "/")
    ∷ []

-- `hostMatches`
unfoldable pub host_matches : Bytes → Bytes → Bool
unfolding eq has_suffix
host_matches host suffix = eq host suffix || has_suffix host (b'.' ∷ suffix)

-- One round of the loop of `isTelemetrySink`.
unfoldable pub rule_matches : TelemetryRule → Bytes → Bytes → Bool
unfolding host_matches has_prefix
rule_matches r host path =
    if not (eq r.host_suffix []) && not (host_matches host r.host_suffix)
    then false
    else if r.exact_path
    then eq path r.path_prefix
    else has_prefix path r.path_prefix

unfoldable pub any_rule : List TelemetryRule → Bytes → Bytes → Bool
unfolding rule_matches
any_rule [] host path = false
any_rule (r ∷ rules) host path = rule_matches r host path || any_rule rules host path

-- `isTelemetrySink`
unfoldable pub is_telemetry_sink : UrlLib → Url → Bool
unfolding any_rule to_lower trim_suffix_byte
is_telemetry_sink lib target =
    any_rule telemetry_sinks (to_lower (trim_suffix_byte (lib.hostname target) b'.'))
      (lib.escaped_path target)
