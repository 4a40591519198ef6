-- ===== src/Telemetry/Examples.antt =====
-- The theorems on beacons at concrete targets.
use bumshi.Common.{true, false, ◌≡◌, ◌↔◌, [], none, refl, Bytes, codes}
use bumshi.Strings.{to_lower, trim_suffix_byte}
use bumshi.Link.{Url, UrlLib}
use bumshi.Telemetry.{telemetry_sinks, is_telemetry_sink}
use bumshi.Telemetry.Laws.{AnySatisfied, is_telemetry_sink_iff}

abbrev at : Bytes → Bytes → Url
at host path = record {
  scheme = codes "https";
  host = host;
  path = path;
  raw_path = [];
  raw_query = [];
  force_query = false;
  fragment = [];
}

abbrev plain : UrlLib
plain = record {
  parse = λ s. none;
  to_string = λ u. u.path;
  resolve_reference = λ base u. u;
  hostname = λ u. u.host;
  port = λ u. [];
  escaped_path = λ u. u.path;
}

is_telemetry_sink_iff_example :
    (is_telemetry_sink plain (at (codes "www.google.com.") (codes "/gen_204")) ≡ true)
    ↔ AnySatisfied telemetry_sinks
        (to_lower (trim_suffix_byte (codes "www.google.com.") b'.'))
        (codes "/gen_204")
is_telemetry_sink_iff_example =
    is_telemetry_sink_iff plain (at (codes "www.google.com.") (codes "/gen_204"))

-- A script of one of the hosts whose every path is a sink.
script_is_sink : is_telemetry_sink plain (at (codes "api.amplitude.com") (codes "/lib/a.js")) ≡ true
unfolding is_telemetry_sink
script_is_sink = refl
