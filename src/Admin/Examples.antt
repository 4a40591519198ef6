-- ===== src/Admin/Examples.antt =====
-- The theorems on the panel at a concrete panel.
use bumshi.Common.{true, false, none, some, [], ◌∷◌, ◌≡◌, refl, arith, Bytes, codes}
use bumshi.Strings.{ℤ, eq, trim_space}
use bumshi.Headers.{Header, values}
use bumshi.Maps.{Map, lookup}
use bumshi.RateLimit.{new_rate_limiter, allow}
use bumshi.Access.{File, Json}
use bumshi.Passwords.{Prf}
use bumshi.Admin.{session_cookie, Options, Panel, World, Request, peer_of, is_trusted, client_ip}
use bumshi.Admin.Handlers.{post_user, serve, handle_login}
use bumshi.Admin.Clients.{forwarded_for, client_ip-last}
use bumshi.Admin.Guards.{Untouched, is_admitted, serve-Untouched}
use bumshi.Admin.Logins.{is_right, handle_login-is_admitted}

-- Writes and reads nothing.
abbrev pub no_json : Json
no_json = record { marshal = λ us. none; unmarshal = λ t. none }

-- Every sum is one byte.
abbrev ones : Prf
ones = record { sum = λ key text. 1 ∷ []; size = 1 }

-- Every body is the operator's credentials, and the proxy stands at 127.0.0.1.
abbrev pub options : Options
options = record {
  base_path = codes "/admin/";
  username = codes "root";
  password_hash = codes "pbkdf2_sha256$1$AA$AQ";
  public_url = [];
  trusted_proxy = some (eq (codes "127.0.0.1"));
  assets = [];
  codec = record {
    credentials = λ s. some (record { username = codes "root"; password = s });
    snapshot = λ s. none;
    new_user = λ s. record { label = s; expires_days = ℤ.pos 0 };
    user_id = some;
    link_payload = λ url token label. token;
    host_of = λ s. none;
  };
  prf = ones;
}

abbrev pub panel : Panel
panel = record {
  settings = record {
    proxy_enabled = true;
    access_log = false;
    modules = [];
    path = [];
    saved = none;
  };
  sessions = record { by_token = []; ttl = 100 };
  logins = new_rate_limiter 5 60;
  access = record { users = []; path = []; file = File.missing; json = no_json };
}

abbrev pub world : World
world = record {
  now = 10;
  session_token = some (codes "t");
  session_csrf = some (codes "c");
  user_id = some (codes "u");
  user_token = some (codes "k");
  is_writable = true;
}

abbrev later : World
later = record world { now = 110 }

abbrev pub request : Header → Map Bytes → Request
request header cookies = record {
  header = header;
  cookies = cookies;
  remote_addr = codes "127.0.0.1";
  tls = false;
  body = codes "secret";
}

abbrev pub stranger : Request
stranger = request [] []

abbrev operator : Request
operator = request ((codes "X-Csrf-Token", codes "c" ∷ []) ∷ []) ((session_cookie, codes "t") ∷ [])

abbrev forwarded : Request
forwarded = request ((codes "X-Forwarded-For", codes "1.1.1.1, 9.9.9.9" ∷ []) ∷ []) []

serve-Untouched_example : Untouched panel (serve post_user options panel world stranger).0
serve-Untouched_example = serve-Untouched post_user options panel world stranger not_admitted
  where
    not_admitted : is_admitted panel world stranger ≡ false
    not_admitted = unfold is_admitted in refl

first_attempt : (allow panel.logins world.now (client_ip options stranger)).1 ≡ true
unfolding allow
first_attempt = refl

right_credentials :
    is_right options (record { username = codes "root"; password = codes "secret" }) ≡ true
unfolding is_right
right_credentials = refl

handle_login-is_admitted_example :
    ((handle_login options panel world stranger).1.status ≡ 200)
    × (is_admitted (handle_login options panel world stranger).0 later operator ≡ true)
handle_login-is_admitted_example =
    handle_login-is_admitted options panel world later stranger operator
      (record { username = codes "root"; password = codes "secret" }) (codes "t") (codes "c")
      first_attempt refl right_credentials refl refl (unfold eq in refl) (omega arith)
      (unfold lookup in refl) (unfold values in refl)

client_ip-last_example : client_ip options forwarded ≡ codes "9.9.9.9"
client_ip-last_example =
    client_ip-last options forwarded (codes "1.1.1.1" ∷ []) (codes "9.9.9.9") trusted_peer
      (unfold values in unfold forwarded_for in refl) (omega arith) (unfold trim_space in refl)
      (unfold eq in refl)
  where
    trusted_peer : is_trusted options (peer_of options forwarded) ≡ true
    trusted_peer = unfold is_trusted in unfold peer_of in unfold eq in refl
