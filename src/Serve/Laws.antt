-- ===== src/Serve/Laws.antt =====
-- server/internal/proxy/proxy.go: which requests are served, and how.
use bumshi.Common.{Bool, true, false, ◌&&◌, ◌≡◌, inl, inr, refl, Bool-cases}
use bumshi.Link.{Url, UrlLib, Decoded, LinkError, ok, err, decode_request}
use bumshi.Telemetry.{is_telemetry_sink}
use bumshi.Serve.{
  SplitHostPort, Handler, HttpRequest, Outcome, not_found, access_denied, invalid_target,
  self_target, telemetry, web_socket, forward, is_self, is_web_socket_upgrade, token_of, is_off,
  is_refused, serve_target, serve_http,
}

module _ (lib : UrlLib) (split_host : SplitHostPort) where
  -- A request that gets past the switch and the access token.
  abbrev pub IsAdmitted : Handler → HttpRequest → Type 0
  IsAdmitted h r =
      (is_off h.enabled ≡ false)
      × ((h.require_token && is_refused h.authorized (token_of r.access_token)) ≡ false)

  -- Whether the decoded target is the proxy itself, and whether it is a beacon that is blocked.
  abbrev pub self_of : Handler → HttpRequest → Url → Bool
  self_of h r target = is_self split_host h.self_hosts (lib.hostname target) r.host

  abbrev pub blocked : Handler → Url → Bool
  blocked h target = h.block_telemetry && is_telemetry_sink lib target

  -- What each outcome says of the request.
  abbrev pub Means : Handler → HttpRequest → Outcome → Type 0
  Means h r not_found = is_off h.enabled ≡ true
  Means h r access_denied =
      (is_off h.enabled ≡ false)
      × ((h.require_token && is_refused h.authorized (token_of r.access_token)) ≡ true)
  Means h r invalid_target =
      IsAdmitted h r × ((e : LinkError) × (decode_request lib r.escaped_path r.raw_query ≡ err e))
  Means h r self_target =
      IsAdmitted h r
      × ((u : Url) × (decode_request lib r.escaped_path r.raw_query ≡ ok u)
          × (self_of h r u ≡ true))
  Means h r telemetry =
      IsAdmitted h r
      × ((u : Url) × (decode_request lib r.escaped_path r.raw_query ≡ ok u)
          × (self_of h r u ≡ false)
          × (blocked h u ≡ true))
  Means h r (web_socket u) =
      IsAdmitted h r
      × (decode_request lib r.escaped_path r.raw_query ≡ ok u)
      × (self_of h r u ≡ false)
      × (blocked h u ≡ false)
      × (is_web_socket_upgrade r.header ≡ true)
  Means h r (forward u) =
      IsAdmitted h r
      × (decode_request lib r.escaped_path r.raw_query ≡ ok u)
      × (self_of h r u ≡ false)
      × (blocked h u ≡ false)
      × (is_web_socket_upgrade r.header ≡ false)

  serve_target-Means :
      (h : Handler) (r : HttpRequest) (u : Url)
      → IsAdmitted h r
      → decode_request lib r.escaped_path r.raw_query ≡ ok u
      → Means h r (serve_target lib split_host h r u)
  unfolding serve_target
  serve_target-Means h r u admitted d = elim (Bool-cases (self_of h r u)) [
    | inl e ↦ rw (e, Means) (admitted, (u, d, e))
    | inr e ↦ elim (Bool-cases (blocked h u)) [
      | inl e1 ↦ rw (e, e1, Means) (admitted, (u, d, e, e1))
      | inr e1 ↦ elim (Bool-cases (is_web_socket_upgrade r.header)) [
        | inl e2 ↦ rw (e, e1, e2, Means) (admitted, d, e, e1, e2)
        | inr e2 ↦ rw (e, e1, e2, Means) (admitted, d, e, e1, e2)
      ]
    ]
  ]

  -- Every outcome of `ServeHTTP` means what it says, on all branches. In particular a request is
  -- forwarded or tunnelled only if the proxy is on, the access token is valid where one is required,
  -- and the target was decoded from the path, is not the proxy itself and is not a blocked beacon.
  pub serve_http-Means : (h : Handler) (r : HttpRequest) → Means h r (serve_http lib split_host h r)
  unfolding serve_http
  serve_http-Means h r = elim (Bool-cases (is_off h.enabled)) [
    | inl e ↦ rw (e, Means) e
    | inr e ↦
        elim (Bool-cases (h.require_token && is_refused h.authorized (token_of r.access_token))) [
          | inl e1 ↦ rw (e, e1, Means) (e, e1)
          | inr e1 ↦
              rw (e, e1, Means)
                (on_decoded (decode_request lib r.escaped_path r.raw_query) refl (e, e1))
        ]
  ]
    where
      on_decoded :
          (d : Decoded)
          → decode_request lib r.escaped_path r.raw_query ≡ d
          → IsAdmitted h r
          → Means h r (elim d [ err e ↦ invalid_target | ok u ↦ serve_target lib split_host h r u ])
      on_decoded (err e) same admitted = (admitted, (e, same))
      on_decoded (ok u) same admitted = serve_target-Means h r u admitted same
