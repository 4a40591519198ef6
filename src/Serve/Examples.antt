-- ===== src/Serve/Examples.antt =====
-- The theorems on the handler at concrete requests.
use bumshi.Common.{true, none, some, [], ◌∷◌, ◌≡◌, refl, Bytes, codes}
use bumshi.Strings.{eq}
use bumshi.Request.Examples.{paths}
use bumshi.Serve.{
  SplitHostPort, Handler, HttpRequest, serve_http, is_web_socket_upgrade, access_denied,
}
use bumshi.Serve.Laws.{Means, serve_http-Means}

abbrev whole : SplitHostPort
whole = λ s. none

abbrev handler : Handler
handler = record {
  enabled = some true;
  require_token = true;
  authorized = some (λ token. eq token (codes "t"));
  self_hosts = codes "proxy.io" ∷ [];
  block_telemetry = true;
}

abbrev request : Bytes → HttpRequest
request token = record {
  escaped_path = codes "/p/aHR0cHM6Ly9hLmlv";
  raw_query = [];
  host = codes "proxy.io";
  access_token = some token;
  header =
      (codes "Upgrade", codes "WebSocket" ∷ [])
      ∷ (codes "Connection", codes "keep-alive, Upgrade" ∷ [])
      ∷ [];
}

serve_http-Means_example :
    Means paths whole handler
      (request (codes "t"))
      (serve_http paths whole handler (request (codes "t")))
serve_http-Means_example = serve_http-Means paths whole handler (request (codes "t"))

upgrade : is_web_socket_upgrade (request []).header ≡ true
unfolding is_web_socket_upgrade
upgrade = refl

wrong_token : serve_http paths whole handler (request (codes "x")) ≡ access_denied
unfolding serve_http eq
wrong_token = refl
