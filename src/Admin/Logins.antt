-- ===== src/Admin/Logins.antt =====
-- server/internal/admin/admin.go: what the login does for the right credentials, and for any other.
use bumshi.Common.{
  ℕ, ◌+◌, ◌≤◌, Bool, true, false, not, ◌&&◌, ◌||◌, Option, none, some, [], ◌≡◌, inl, inr, refl, sym,
  ap, ◌∙◌, arith, Bytes, ltb, Bool-cases, Option-cases, if◌then◌else◌,
}
use bumshi.Strings.{eq}
use bumshi.Strings.Laws.{eq_iff, eq_self}
use bumshi.Maps.{lookup}
use bumshi.Headers.{get}
use bumshi.Sessions.{Session, create}
use bumshi.Sessions.Laws.{live, live-create}
use bumshi.RateLimit.{allow}
use bumshi.Passwords.{verify_password}
use bumshi.Admin.{
  session_cookie, csrf_header, Credentials, Options, Panel, World, Request, client_ip,
}
use bumshi.Admin.Handlers.{limited_body, open_session, check_login, handle_login}
use bumshi.Admin.Guards.{caller, has_token, is_admitted}

unfoldable pub is_match : Bool → Option Bool → Bool
is_match user_ok none = false
is_match user_ok (some pass_ok) = user_ok && pass_ok

-- The credentials of the operator, for the hash that is configured.
unfoldable pub is_right : Options → Credentials → Bool
unfolding eq verify_password is_match
is_right o c =
    is_match (eq c.username o.username) (verify_password o.prf o.password_hash c.password)

accepted : (a b : Bool) → (a && b) ≡ true → (not a || not b) ≡ false
accepted a b h = ground arith

refused : (a b : Bool) → (a && b) ≡ false → (not a || not b) ≡ true
refused a b h = ground arith

counted : Options → Panel → World → Request → Panel
counted o p w r = record p { logins = (allow p.logins w.now (client_ip o r)).0 }

check_login_right :
    (o : Options) (p : Panel) (w : World) (r : Request) (c : Credentials)
    → is_right o c ≡ true
    → check_login o p w r c ≡ open_session o p w r
unfolding check_login is_right is_match
check_login_right o p w r c right =
    elim (Option-cases (verify_password o.prf o.password_hash c.password)) [
      | inl e ↦
          let never = ap (is_match (eq c.username o.username)) (sym e) ∙ right in absurd (cc never)
      | inr (ok, e) ↦
          let both : (eq c.username o.username && ok) ≡ true =
            ap (is_match (eq c.username o.username)) (sym e) ∙ right in
          rw (e, check_login) (rw (accepted (eq c.username o.username) ok both) refl)
    ]

handle_login_right :
    (o : Options) (p : Panel) (w : World) (r : Request) (c : Credentials)
    → (allow p.logins w.now (client_ip o r)).1 ≡ true
    → o.codec.credentials (limited_body r) ≡ some c
    → is_right o c ≡ true
    → handle_login o p w r ≡ open_session o (counted o p w r) w r
unfolding handle_login counted
handle_login_right o p w r c allowed decoded right =
    rw (allowed, handle_login) (rw decoded (check_login_right o (counted o p w r) w r c right))

sessions-open_session :
    (o : Options) (p : Panel) (w : World) (r : Request)
    → (open_session o p w r).0.sessions
      ≡ (create p.sessions w.now o.username w.session_token w.session_csrf).0
unfolding open_session
sessions-open_session o p w r =
    elim (Option-cases (create p.sessions w.now o.username w.session_token w.session_csrf).1) [
      | inl e ↦ rw (e, open_session) refl
      | inr (made, e) ↦ rw (e, open_session) refl
    ]

status-open_session :
    (o : Options) (p : Panel) (w : World) (r : Request) (token csrf : Bytes)
    → w.session_token ≡ some token
    → w.session_csrf ≡ some csrf
    → (open_session o p w r).1.status ≡ 200
unfolding open_session create
status-open_session o p w r token csrf e1 e2 = rw (e1, open_session) (rw e2 refl)

-- A new session admits the requests with its two texts until it expires.
live-open_session :
    (o : Options) (p : Panel) (w : World) (r : Request) (token csrf : Bytes) (later : ℕ)
    → w.session_token ≡ some token
    → w.session_csrf ≡ some csrf
    → eq token [] ≡ false
    → later ≤ w.now + p.sessions.ttl
    → live (open_session o p w r).0.sessions later token
      ≡ some (record { user = o.username; csrf = csrf; expiry = w.now + p.sessions.ttl })
live-open_session o p w r token csrf later e1 e2 some_token in_time =
    ap (λ s. live s later token)
      (sessions-open_session o p w r
        ∙ ap (λ t. (create p.sessions w.now o.username t w.session_csrf).0) e1
        ∙ ap (λ c. (create p.sessions w.now o.username (some token) c).0) e2)
    ∙ live-create p.sessions w.now later o.username token csrf token some_token
    ∙ ap
        (λ b.
          if b
          then (if ltb (w.now + p.sessions.ttl) later then none else some made)
          else live p.sessions later token)
        (eq_self token)
    ∙ ap (λ b. if b then none else some made) still
  where
    made : Session
    made = record { user = o.username; csrf = csrf; expiry = w.now + p.sessions.ttl }

    still : ltb (w.now + p.sessions.ttl) later ≡ false
    still = ground (arith, in_time)

-- The right credentials, sent within the limit of attempts, open a session: the answer is 200, and until
-- the time to live is over a request with the cookie and the token of that session is admitted.
pub handle_login-is_admitted :
    (o : Options) (p : Panel) (w w' : World) (r r' : Request) (c : Credentials) (token csrf : Bytes)
    → (allow p.logins w.now (client_ip o r)).1 ≡ true
    → o.codec.credentials (limited_body r) ≡ some c
    → is_right o c ≡ true
    → w.session_token ≡ some token
    → w.session_csrf ≡ some csrf
    → eq token [] ≡ false
    → w'.now ≤ w.now + p.sessions.ttl
    → lookup r'.cookies session_cookie ≡ some token
    → get r'.header csrf_header ≡ csrf
    → ((handle_login o p w r).1.status ≡ 200) × (is_admitted (handle_login o p w r).0 w' r' ≡ true)
unfolding is_admitted caller has_token counted
handle_login-is_admitted o p w w' r r' c token csrf allowed decoded right e1 e2 some_token in_time
      cookie header =
    let opened = handle_login_right o p w r c allowed decoded right in
    (
      ap (λ a. a.1.status) opened ∙ status-open_session o (counted o p w r) w r token csrf e1 e2,
      ap (λ a. is_admitted a.0 w' r') opened
          ∙ ap
              (λ t. has_token r' (elim t [
                | none ↦ none
                | some t ↦ live (open_session o (counted o p w r) w r).0.sessions w'.now t
              ]))
              cookie
          ∙ ap (has_token r')
              (live-open_session o (counted o p w r) w r token csrf w'.now e1 e2 some_token in_time)
          ∙ (eq_iff (get r'.header csrf_header) csrf).1 header,
    )

-- Any other credentials leave the sessions as they are.
pub handle_login_wrong :
    (o : Options) (p : Panel) (w : World) (r : Request) (c : Credentials)
    → o.codec.credentials (limited_body r) ≡ some c
    → is_right o c ≡ false
    → (handle_login o p w r).0.sessions ≡ p.sessions
unfolding handle_login check_login is_right is_match counted
handle_login_wrong o p w r c decoded wrong =
    elim (Bool-cases (allow p.logins w.now (client_ip o r)).1) [
      | inr e ↦ rw (e, handle_login) refl
      | inl e ↦ rw (e, handle_login) (rw decoded (no_session (counted o p w r) refl))
    ]
  where
    no_session :
        (q : Panel) → q.sessions ≡ p.sessions → (check_login o q w r c).0.sessions ≡ p.sessions
    no_session q same = elim (Option-cases (verify_password o.prf o.password_hash c.password)) [
      | inl e ↦ rw (e, check_login) same
      | inr (ok, e) ↦
          let other : (eq c.username o.username && ok) ≡ false =
            ap (is_match (eq c.username o.username)) (sym e) ∙ wrong in
          rw (e, check_login) (rw (refused (eq c.username o.username) ok other) same)
    ]
