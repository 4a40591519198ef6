-- ===== src/Admin/Handlers.antt =====
-- server/internal/admin/admin.go: the pages, the login and logout, the API, and which handler a route has.
-- Choosing the route from the method and the path is net/http's.
use bumshi.Common.{
  ℕ, ◌+◌, ◌*◌, ◌^◌, true, false, not, ◌&&◌, ◌||◌, Option, none, some, [], ◌∷◌, ◌++◌, map, Bytes,
  codes, length, take, ltb, if◌then◌else◌,
}
use bumshi.Strings.{ℤ, pos, negsuc, eq, contains_any, has_suffix, replace_all, trim_space}
use bumshi.Maps.{lookup}
use bumshi.Base64.{url_alphabet, encode}
use bumshi.Sessions.{create, delete_session, count_sessions}
use bumshi.RateLimit.{allow, reset_key}
use bumshi.Settings.{is_valid, apply, snapshot}
use bumshi.Access.{AccessUser, is_expired, create_user, delete_user, list_users}
use bumshi.Passwords.{verify_password}
use bumshi.Admin.{
  session_cookie, csrf_cookie, max_body_bytes, Credentials, Options, Panel, World, Request,
  UserView, error_body, redirect, asset, done, status_body, snapshot_body, user_body, users_body,
  not_found, Reply, reply, client_ip, set_cookie, clear_cookie, current_session, auth, auth_csrf,
}

-- `io.LimitReader(r.Body, maxBodyBytes)`
abbrev pub limited_body : Request → Bytes
limited_body r = take max_body_bytes r.body

-- `writeAsset`
unfoldable pub write_asset : Options → Bytes → Bytes → Reply
unfolding lookup has_suffix replace_all
write_asset o name content_type = elim (lookup o.assets name) [
  | none ↦ reply 404 not_found
  | some content ↦ reply 200 (
      asset content_type (
        if has_suffix name (codes ".html") || has_suffix name (codes ".js")
        then replace_all content (codes "__BASE__") o.base_path
        else content))
]

-- `serveApp`
unfoldable pub serve_app : Options → Panel → World → Request → Panel × Reply
unfolding current_session write_asset
serve_app o p w r =
    let found = current_session p w r in
    elim found.1 [
      | none ↦ (found.0, reply 303 (redirect (o.base_path ++ codes "login")))
      | some sess ↦ (found.0, write_asset o (codes "app.html") (codes "text/html; charset=utf-8"))
    ]

-- `serveLogin`
unfoldable pub serve_login : Options → Panel → World → Request → Panel × Reply
unfolding current_session write_asset
serve_login o p w r =
    let found = current_session p w r in
    elim found.1 [
      | none ↦ (found.0, write_asset o (codes "login.html") (codes "text/html; charset=utf-8"))
      | some sess ↦ (found.0, reply 303 (redirect o.base_path))
    ]

-- `serveAsset`, for the name in the path
unfoldable pub serve_asset : Options → Bytes → Reply
unfolding contains_any has_suffix write_asset
serve_asset o file =
    if contains_any file (codes "/\\")
    then reply 404 not_found
    else if has_suffix file (codes ".css")
    then write_asset o file (codes "text/css; charset=utf-8")
    else if has_suffix file (codes ".js")
    then write_asset o file (codes "text/javascript; charset=utf-8")
    else reply 404 not_found

-- The end of `handleLogin`, for the right credentials.
unfoldable pub open_session : Options → Panel → World → Request → Panel × Reply
unfolding create reset_key client_ip set_cookie
open_session o p w r =
    let made = create p.sessions w.now o.username w.session_token w.session_csrf in
    elim made.1 [
      | none ↦ (record p { sessions = made.0 }, reply 500 (error_body (codes "internal error")))
      | some (token, csrf) ↦ (
        record p { sessions = made.0; logins = reset_key p.logins (client_ip o r) },
        record {
          status = 200;
          cookies =
              set_cookie o r session_cookie token true ∷ set_cookie o r csrf_cookie csrf false ∷ [];
          content = done (some o.base_path);
        },
      )
    ]

bad_hash : Bytes
bad_hash = codes "the server's admin password hash is not valid; see the service logs"

-- `handleLogin` from the credentials on.
unfoldable pub check_login : Options → Panel → World → Request → Credentials → Panel × Reply
unfolding eq verify_password open_session bad_hash
check_login o p w r c = elim (verify_password o.prf o.password_hash c.password) [
  | none ↦ (p, reply 500 (error_body bad_hash))
  | some pass_ok ↦
      if not (eq c.username o.username) || not pass_ok
      then (p, reply 401 (error_body (codes "invalid credentials")))
      else open_session o p w r
]

-- `handleLogin`
unfoldable pub handle_login : Options → Panel → World → Request → Panel × Reply
unfolding allow client_ip check_login
handle_login o p w r =
    let allowed = allow p.logins w.now (client_ip o r) in
    let p' : Panel = record p { logins = allowed.0 } in
    if allowed.1
    then elim (o.codec.credentials (limited_body r)) [
      | none ↦ (p', reply 400 (error_body (codes "invalid request")))
      | some c ↦ check_login o p' w r c
    ]
    else (p', reply 429 (error_body (codes "too many attempts, please wait")))

-- `handleLogout`
unfoldable pub handle_logout : Options → Panel → World → Request → Panel × Reply
unfolding lookup delete_session clear_cookie
handle_logout o p w r = (
  elim (lookup r.cookies session_cookie) [
    | none ↦ p
    | some token ↦ record p { sessions = delete_session p.sessions token }
  ],
  record {
    status = 200;
    cookies = clear_cookie o r session_cookie ∷ clear_cookie o r csrf_cookie ∷ [];
    content = done (some (o.base_path ++ codes "login"));
  },
)

-- `apiStatus`, without the build's version and the uptime
unfoldable pub api_status : Panel → World → Panel × Reply
unfolding count_sessions list_users
api_status p w =
    let counted = count_sessions p.sessions w.now in
    (
      record p { sessions = counted.0 },
      reply 200 (
          status_body (record {
            settings = snapshot p.settings;
            sessions = counted.1;
            access_users = length (list_users p.access);
          })),
    )

-- `apiGetSettings`
unfoldable pub api_get_settings : Panel → Panel × Reply
api_get_settings p = (p, reply 200 (snapshot_body (snapshot p.settings)))

-- `apiPutSettings`; the message for a module that is not known also has its name.
unfoldable pub api_put_settings : Options → Request → Panel → Panel × Reply
unfolding is_valid apply
api_put_settings o r p = elim (o.codec.snapshot (limited_body r)) [
  | none ↦ (p, reply 400 (error_body (codes "invalid request")))
  | some snap ↦
      if is_valid snap.modules
      then (let p' : Panel = record p { settings = apply p.settings snap } in
          (p', reply 200 (snapshot_body (snapshot p'.settings))))
      else (p, reply 400 (error_body (codes "unknown module")))
]

-- `connectionLink`
unfoldable pub connection_link : Options → AccessUser → Bytes
unfolding encode
connection_link o u =
    codes "bumshi://connect#"
    ++ encode url_alphabet (o.codec.link_payload o.public_url u.token u.label)

-- `newUserView`
unfoldable pub new_user_view : Options → ℕ → AccessUser → UserView
unfolding connection_link is_expired
new_user_view o now u = record {
  id = u.id;
  label = u.label;
  created = u.created;
  expires = u.expires;
  link = connection_link o u;
  expired = is_expired now u;
}

-- `apiListUsers`
unfoldable pub api_list_users : Options → World → Panel → Panel × Reply
unfolding list_users new_user_view
api_list_users o w p =
    (p, reply 200 (users_body (map (new_user_view o w.now) (list_users p.access))))

-- The label that is kept: trimmed, never empty, at most 64 bytes.
unfoldable pub label_of : Bytes → Bytes
unfolding trim_space eq
label_of raw = let label = trim_space raw in take 64 (if eq label [] then codes "user" else label)

-- 24 hours in nanoseconds
abbrev pub day : ℕ
day = 24 * 3600 * 10 ^ 9

-- The end of `apiCreateUser`: a user that could not be saved is created all the same.
unfoldable pub create_labelled : Options → World → Panel → Bytes → Option ℕ → Panel × Reply
unfolding create_user eq new_user_view
create_labelled o w p label expires =
    let made = create_user p.access w.is_writable w.now label expires w.user_id w.user_token in
    let p' : Panel = record p { access = made.0 } in
    if not made.2 && eq made.1.token []
    then (p', reply 500 (error_body (codes "internal error")))
    else (p', reply 200 (user_body (new_user_view o w.now made.1)))

-- When the access of a user ends; `none` for a number of days that is refused.
unfoldable pub expiry_of : ℕ → ℤ → Option (Option ℕ)
expiry_of now (negsuc n) = none
expiry_of now (pos days) =
    if ltb 3650 days then none else some (if ltb 0 days then some (now + days * day) else none)

-- `apiCreateUser`
unfoldable pub api_create_user : Options → World → Request → Panel → Panel × Reply
unfolding label_of expiry_of create_labelled
api_create_user o w r p =
    let body = o.codec.new_user (limited_body r) in
    elim (expiry_of w.now body.expires_days) [
      | none ↦ (p, reply 400 (error_body (codes "expiresDays must be between 0 and 3650")))
      | some expires ↦ create_labelled o w p (label_of body.label) expires
    ]

-- `apiDeleteUser`
unfoldable pub api_delete_user : Options → World → Request → Panel → Panel × Reply
unfolding delete_user eq
api_delete_user o w r p = elim (o.codec.user_id (limited_body r)) [
  | none ↦ (p, reply 400 (error_body (codes "invalid request")))
  | some id ↦
      if eq id []
      then (p, reply 400 (error_body (codes "invalid request")))
      else (record p { access = (delete_user p.access w.is_writable id).0 }, reply 200 (done none))
]

-- The patterns that `New` registers under the base path.
pub data Route : Type 0 where
  get_app get_login post_login post_logout : Route
  get_asset : Bytes → Route
  get_status get_settings put_settings get_users post_user post_delete : Route

-- The handler of each pattern.
unfoldable pub serve : Route → Options → Panel → World → Request → Panel × Reply
unfolding serve_app serve_login handle_login handle_logout serve_asset api_status api_get_settings
    api_put_settings api_list_users api_create_user api_delete_user auth auth_csrf
serve get_app o p w r = serve_app o p w r
serve get_login o p w r = serve_login o p w r
serve post_login o p w r = handle_login o p w r
serve post_logout o p w r = auth_csrf (λ p'. handle_logout o p' w r) p w r
serve (get_asset file) o p w r = (p, serve_asset o file)
serve get_status o p w r = auth (λ p'. api_status p' w) p w r
serve get_settings o p w r = auth api_get_settings p w r
serve put_settings o p w r = auth_csrf (api_put_settings o r) p w r
serve get_users o p w r = auth (api_list_users o w) p w r
serve post_user o p w r = auth_csrf (api_create_user o w r) p w r
serve post_delete o p w r = auth_csrf (api_delete_user o w r) p w r
