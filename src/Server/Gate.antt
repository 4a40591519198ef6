-- ===== src/Server/Gate.antt =====
-- server/internal/server/server.go: the panel, the roster and the proxy together.
use bumshi.Common.{
  ℕ, true, false, not, ◌&&◌, none, some, [], ◌≡◌, ◌⊎◌, inl, inr, refl, sym, ap, subst, ◌∙◌, Bytes,
  Bool-cases, if◌then◌else◌,
}
use bumshi.Strings.{eq}
use bumshi.Maps.{lookup}
use bumshi.Access.{AccessUser, AccessStore, is_authorized, delete_user}
use bumshi.Access.Persist.{IsRoster}
use bumshi.Access.Tokens.{is_authorized-delete_user}
use bumshi.Settings.{Settings}
use bumshi.Config.{Config}
use bumshi.Serve.{
  Handler, HttpRequest, Outcome, not_found, access_denied, normalize_hosts, token_of, is_off,
  is_refused, serve_http,
}
use bumshi.Admin.{Options, Panel, World, Request}
use bumshi.Admin.Handlers.{limited_body, api_delete_user}
use bumshi.Server.{ServerLib, self_hosts, build_proxy}

-- The proxy answers with 404 or 403, and asks nothing of any target.
abbrev pub IsRefused : Outcome → Type 0
IsRefused o = (o ≡ not_found) ⊎ (o ≡ access_denied)

serve_http-IsRefused :
    (lib : ServerLib) (h : Handler) (r : HttpRequest)
    → h.require_token ≡ true
    → is_refused h.authorized (token_of r.access_token) ≡ true
    → IsRefused (serve_http lib.url lib.split_host h r)
unfolding serve_http
serve_http-IsRefused lib h r required refused = elim (Bool-cases (is_off h.enabled)) [
  | inl e ↦ inl (rw e refl)
  | inr e ↦ inr (rw e (rw required (rw refused refl)))
]

-- A proxy that requires a token refuses a token that is not authorized.
build_proxy-IsRefused :
    (lib : ServerLib) (c : Config) (live : Settings) (access : AccessStore) (now : ℕ) (h : Handler)
    (r : HttpRequest)
    → build_proxy lib c live access now ≡ some h
    → c.proxy_require_token ≡ true
    → is_authorized access now (token_of r.access_token) ≡ false
    → IsRefused (serve_http lib.url lib.split_host h r)
unfolding build_proxy
build_proxy-IsRefused lib c live access now h r built required unknown =
    elim (Bool-cases (not c.proxy_enabled && not c.admin_enabled)) [
      | inl e ↦ absurd (cc (sym (ap (λ b. if b then none else some made) e) ∙ built))
      | inr e ↦
          let same : some made ≡ some h = sym (ap (λ b. if b then none else some made) e) ∙ built in
          let is_made : made ≡ h = cc same in
          subst (λ h. IsRefused (serve_http lib.url lib.split_host h r)) is_made
            (serve_http-IsRefused lib made r required (ap not unknown))
    ]
  where
    made : Handler
    made = record {
      enabled = some live.proxy_enabled;
      require_token = c.proxy_require_token;
      authorized = some (is_authorized access now);
      self_hosts = normalize_hosts lib.split_host (self_hosts lib c.public_url);
      block_telemetry = true;
    }

access-api_delete_user :
    (o : Options) (p : Panel) (w : World) (asked : Request) (id : Bytes)
    → o.codec.user_id (limited_body asked) ≡ some id
    → eq id [] ≡ false
    → (api_delete_user o w asked p).0.access ≡ (delete_user p.access w.is_writable id).0
unfolding api_delete_user
access-api_delete_user o p w asked id named some_id = rw (named, api_delete_user) (rw some_id refl)

-- A user whom the panel deletes is locked out of the proxy at once, although the two only share the
-- roster: every later request with the user's token is refused, whatever the settings are by then, where
-- tokens are required and no other user has that token.
pub api_delete_user-IsRefused :
    (lib : ServerLib) (c : Config) (o : Options) (p : Panel) (w : World) (asked : Request)
    (id : Bytes) (live : Settings) (now : ℕ) (h : Handler) (r : HttpRequest)
    → IsRoster p.access.users
    → ((k : Bytes) (u : AccessUser)
        → lookup p.access.users k ≡ some u
        → eq u.token (token_of r.access_token) ≡ true
        → k ≡ id)
    → o.codec.user_id (limited_body asked) ≡ some id
    → eq id [] ≡ false
    → build_proxy lib c live (api_delete_user o w asked p).0.access now ≡ some h
    → c.proxy_require_token ≡ true
    → IsRefused (serve_http lib.url lib.split_host h r)
api_delete_user-IsRefused lib c o p w asked id live now h r users only named some_id built
      required =
    build_proxy-IsRefused lib c live (delete_user p.access w.is_writable id).0 now h r
      (ap (λ access. build_proxy lib c live access now)
          (sym (access-api_delete_user o p w asked id named some_id))
        ∙ built)
      required
      (is_authorized-delete_user p.access w.is_writable now id (token_of r.access_token) users only)
