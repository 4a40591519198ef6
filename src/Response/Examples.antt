-- ===== src/Response/Examples.antt =====
-- The theorems on response headers at a concrete response.
use bumshi.Common.{true, false, none, [], ◌∷◌, ◌++◌, ◌≡◌, refl, codes, if◌then◌else◌}
use bumshi.Headers.{Header, values, get}
use bumshi.Link.{resolve}
use bumshi.Cookies.{MaxAge, SameSite, HttpCookies}
use bumshi.Request.Examples.{site, paths}
use bumshi.Response.{
  ResponseContext, control_plane_headers, set_cookie_name, del_all, copy_response_headers,
}
use bumshi.Response.Steps.{listed}
use bumshi.Response.Laws.{
  mentions, stored_cookies, is_withheld, withheld-copy_response_headers,
  stored-copy_response_headers, location-copy_response_headers,
}

-- Every line is a cookie with that name, and a cookie is printed as its name.
abbrev pub names : HttpCookies
names = record {
  read_set_cookie = λ raw.
      record {
        name = raw;
        value = [];
        path = [];
        domain = [];
        secure = false;
        http_only = false;
        same_site = SameSite.lax;
        expires = none;
        max_age = MaxAge.unset;
      }
      ∷ [];
  to_string = λ c. c.name;
}

abbrev context : ResponseContext
context = record {
  lib = paths;
  http = names;
  base = site (codes "/");
  nonce = codes "N";
  secure = true;
  keep_length = false;
}

abbrev upstream : Header
upstream =
    (codes "Set-Cookie", codes "sid" ∷ codes "lang" ∷ [])
    ∷ (codes "location", codes "/next" ∷ [])
    ∷ (codes "Transfer-Encoding", codes "chunked" ∷ [])
    ∷ []

withheld-copy_response_headers_example :
    values (copy_response_headers context [] upstream) (codes "Transfer-Encoding")
    ≡ values (del_all control_plane_headers []) (codes "Transfer-Encoding")
unfolding is_withheld
withheld-copy_response_headers_example =
    withheld-copy_response_headers context [] upstream (codes "Transfer-Encoding") refl

stored-copy_response_headers_example :
    listed (values (copy_response_headers context [] upstream) set_cookie_name)
    ≡ listed (values (del_all control_plane_headers []) set_cookie_name)
      ++ stored_cookies context upstream
stored-copy_response_headers_example = stored-copy_response_headers context [] upstream

location-copy_response_headers_example :
    get (copy_response_headers context [] upstream) (codes "Location") ≡ (
      if mentions upstream (codes "Location")
      then resolve paths (site (codes "/")) (get upstream (codes "Location"))
      else get (del_all control_plane_headers []) (codes "Location"))
location-copy_response_headers_example = location-copy_response_headers context [] upstream
