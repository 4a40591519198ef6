-- ===== src/Admin/Guards.antt =====
-- server/internal/admin/admin.go: what a request without a session, or without its CSRF token, can do.
use bumshi.Common.{
  Bool, true, false, not, ◌||◌, Option, none, some, ◌≡◌, inl, inr, refl, sym, ap, ◌∙◌, codes,
  Bool-cases, Option-cases,
}
use bumshi.Strings.{eq}
use bumshi.Maps.{lookup}
use bumshi.Headers.{values, get}
use bumshi.Sessions.{Session, create}
use bumshi.Sessions.Laws.{live, get_session-live}
use bumshi.RateLimit.{allow}
use bumshi.Passwords.{verify_password}
use bumshi.Admin.{
  session_cookie, csrf_header, Credentials, Options, Panel, World, Request, Reply, reply,
  error_body, current_session, auth, auth_csrf, client_ip,
}
use bumshi.Admin.Handlers.{
  Route, get_app, get_login, post_login, post_logout, get_asset, get_status, get_settings,
  put_settings, get_users, post_user, post_delete, serve, serve_app, serve_login, open_session,
  check_login, handle_login, handle_logout, api_status, api_get_settings, api_put_settings,
  api_list_users, api_create_user, api_delete_user, limited_body,
}

-- The session that the request's cookie names.
unfoldable pub caller : Panel → World → Request → Option Session
unfolding lookup live
caller p w r = elim (lookup r.cookies session_cookie) [
  | none ↦ none
  | some token ↦ live p.sessions w.now token
]

unfoldable pub has_token : Request → Option Session → Bool
unfolding eq values
has_token r found = elim found [
  | none ↦ false
  | some sess ↦ eq (get r.header csrf_header) sess.csrf
]

-- The request comes with a session and its CSRF token.
unfoldable pub is_admitted : Panel → World → Request → Bool
unfolding caller has_token
is_admitted p w r = has_token r (caller p w r)

-- The settings and the roster are the same.
abbrev pub Untouched : Panel → Panel → Type 0
Untouched p q = (q.settings ≡ p.settings) × (q.access ≡ p.access)

current_session-caller :
    (p : Panel) (w : World) (r : Request) → (current_session p w r).1 ≡ caller p w r
unfolding current_session caller
current_session-caller p w r = elim (Option-cases (lookup r.cookies session_cookie)) [
  | inl e ↦ rw (e, current_session, caller) refl
  | inr (token, e) ↦ rw (e, current_session, caller) (get_session-live p.sessions w.now token)
]

current_session-Untouched :
    (p : Panel) (w : World) (r : Request) → Untouched p (current_session p w r).0
unfolding current_session
current_session-Untouched p w r = elim (Option-cases (lookup r.cookies session_cookie)) [
  | inl e ↦ rw (e, current_session) (refl, refl)
  | inr (token, e) ↦ rw (e, current_session) (refl, refl)
]

auth-Untouched :
    (next : Panel → Panel × Reply) (p : Panel) (w : World) (r : Request)
    → ((q : Panel) → Untouched q (next q).0)
    → Untouched p (auth next p w r).0
unfolding auth
auth-Untouched next p w r keeps = elim (Option-cases (current_session p w r).1) [
  | inl e ↦ rw (e, auth) (current_session-Untouched p w r)
  | inr (sess, e) ↦
      let (s1, a1) = current_session-Untouched p w r in
      let (s2, a2) = keeps (current_session p w r).0 in rw (e, auth) (s2 ∙ s1, a2 ∙ a1)
]

auth_csrf-Untouched :
    (next : Panel → Panel × Reply) (p : Panel) (w : World) (r : Request)
    → is_admitted p w r ≡ false
    → Untouched p (auth_csrf next p w r).0
unfolding auth_csrf is_admitted has_token
auth_csrf-Untouched next p w r out = elim (Option-cases (current_session p w r).1) [
  | inl e ↦ rw (e, auth_csrf) (current_session-Untouched p w r)
  | inr (sess, e) ↦
      let wrong : eq (get r.header csrf_header) sess.csrf ≡ false =
        ap (has_token r) (sym e ∙ current_session-caller p w r) ∙ out in
      rw (e, auth_csrf) (rw wrong (current_session-Untouched p w r))
]

serve_app-Untouched :
    (o : Options) (p : Panel) (w : World) (r : Request) → Untouched p (serve_app o p w r).0
unfolding serve_app
serve_app-Untouched o p w r = elim (Option-cases (current_session p w r).1) [
  | inl e ↦ rw (e, serve_app) (current_session-Untouched p w r)
  | inr (sess, e) ↦ rw (e, serve_app) (current_session-Untouched p w r)
]

serve_login-Untouched :
    (o : Options) (p : Panel) (w : World) (r : Request) → Untouched p (serve_login o p w r).0
unfolding serve_login
serve_login-Untouched o p w r = elim (Option-cases (current_session p w r).1) [
  | inl e ↦ rw (e, serve_login) (current_session-Untouched p w r)
  | inr (sess, e) ↦ rw (e, serve_login) (current_session-Untouched p w r)
]

open_session-Untouched :
    (o : Options) (p : Panel) (w : World) (r : Request) → Untouched p (open_session o p w r).0
unfolding open_session
open_session-Untouched o p w r =
    elim (Option-cases (create p.sessions w.now o.username w.session_token w.session_csrf).1) [
      | inl e ↦ rw (e, open_session) (refl, refl)
      | inr (made, e) ↦ rw (e, open_session) (refl, refl)
    ]

check_login-Untouched :
    (o : Options) (p : Panel) (w : World) (r : Request) (c : Credentials)
    → Untouched p (check_login o p w r c).0
unfolding check_login
check_login-Untouched o p w r c =
    elim (Option-cases (verify_password o.prf o.password_hash c.password)) [
      | inl e ↦ rw (e, check_login) (refl, refl)
      | inr (ok, e) ↦ elim (Bool-cases (not (eq c.username o.username) || not ok)) [
        | inl e1 ↦ rw (e, check_login) (rw e1 (refl, refl))
        | inr e1 ↦ rw (e, check_login) (rw e1 (open_session-Untouched o p w r))
      ]
    ]

handle_login-Untouched :
    (o : Options) (p : Panel) (w : World) (r : Request) → Untouched p (handle_login o p w r).0
unfolding handle_login
handle_login-Untouched o p w r = elim (Bool-cases (allow p.logins w.now (client_ip o r)).1) [
  | inl e ↦ elim (Option-cases (o.codec.credentials (limited_body r))) [
    | inl e1 ↦ rw (e, handle_login) (rw e1 (refl, refl))
    | inr (c, e1) ↦
        rw (e, handle_login)
          (rw e1 (
            check_login-Untouched o (record p { logins = (allow p.logins w.now (client_ip o r)).0 })
              w r c))
  ]
  | inr e ↦ rw (e, handle_login) (refl, refl)
]

-- Without a session and its CSRF token no request changes the settings or the roster, whatever its route:
-- also not the login.
pub serve-Untouched :
    (route : Route) (o : Options) (p : Panel) (w : World) (r : Request)
    → is_admitted p w r ≡ false
    → Untouched p (serve route o p w r).0
unfolding serve api_status api_get_settings api_list_users
serve-Untouched get_app o p w r out = serve_app-Untouched o p w r
serve-Untouched get_login o p w r out = serve_login-Untouched o p w r
serve-Untouched post_login o p w r out = handle_login-Untouched o p w r
serve-Untouched post_logout o p w r out = auth_csrf-Untouched (λ q. handle_logout o q w r) p w r out
serve-Untouched (get_asset file) o p w r out = (refl, refl)
serve-Untouched get_status o p w r out =
    auth-Untouched (λ q. api_status q w) p w r (λ q. (refl, refl))
serve-Untouched get_settings o p w r out = auth-Untouched api_get_settings p w r (λ q. (refl, refl))
serve-Untouched put_settings o p w r out = auth_csrf-Untouched (api_put_settings o r) p w r out
serve-Untouched get_users o p w r out =
    auth-Untouched (api_list_users o w) p w r (λ q. (refl, refl))
serve-Untouched post_user o p w r out = auth_csrf-Untouched (api_create_user o w r) p w r out
serve-Untouched post_delete o p w r out = auth_csrf-Untouched (api_delete_user o w r) p w r out

-- The routes of the API, and the logout.
unfoldable pub is_private : Route → Bool
is_private get_app = false
is_private get_login = false
is_private post_login = false
is_private (get_asset file) = false
is_private _ = true

auth-unauthorized :
    (next : Panel → Panel × Reply) (p : Panel) (w : World) (r : Request)
    → caller p w r ≡ none
    → (auth next p w r).1 ≡ reply 401 (error_body (codes "unauthorized"))
unfolding auth
auth-unauthorized next p w r none_found = rw (current_session-caller p w r ∙ none_found, auth) refl

auth_csrf-unauthorized :
    (next : Panel → Panel × Reply) (p : Panel) (w : World) (r : Request)
    → caller p w r ≡ none
    → (auth_csrf next p w r).1 ≡ reply 401 (error_body (codes "unauthorized"))
unfolding auth_csrf
auth_csrf-unauthorized next p w r none_found =
    rw (current_session-caller p w r ∙ none_found, auth_csrf) refl

-- Whoever has no session learns nothing from the API: every such route answers the same 401.
pub serve-unauthorized :
    (route : Route) (o : Options) (p : Panel) (w : World) (r : Request)
    → is_private route ≡ true
    → caller p w r ≡ none
    → (serve route o p w r).1 ≡ reply 401 (error_body (codes "unauthorized"))
unfolding serve is_private
serve-unauthorized get_app o p w r private none_found = absurd (cc private)
serve-unauthorized get_login o p w r private none_found = absurd (cc private)
serve-unauthorized post_login o p w r private none_found = absurd (cc private)
serve-unauthorized (get_asset file) o p w r private none_found = absurd (cc private)
serve-unauthorized post_logout o p w r private none_found =
    auth_csrf-unauthorized (λ q. handle_logout o q w r) p w r none_found
serve-unauthorized get_status o p w r private none_found =
    auth-unauthorized (λ q. api_status q w) p w r none_found
serve-unauthorized get_settings o p w r private none_found =
    auth-unauthorized api_get_settings p w r none_found
serve-unauthorized put_settings o p w r private none_found =
    auth_csrf-unauthorized (api_put_settings o r) p w r none_found
serve-unauthorized get_users o p w r private none_found =
    auth-unauthorized (api_list_users o w) p w r none_found
serve-unauthorized post_user o p w r private none_found =
    auth_csrf-unauthorized (api_create_user o w r) p w r none_found
serve-unauthorized post_delete o p w r private none_found =
    auth_csrf-unauthorized (api_delete_user o w r) p w r none_found
