-- ===== src/Response.antt =====
-- server/internal/proxy/proxy.go: the headers of a response that goes back to the client.
pub mod Steps
pub mod Laws
pub mod Examples
use bumshi.Common.{
  Bool, true, false, not, ◌&&◌, ◌||◌, Option, none, some, List, [], ◌∷◌, ◌++◌, Bytes, codes,
  if◌then◌else◌,
}
use bumshi.Strings.{contains, eq}
use bumshi.Headers.{Header, canonical_header_key, values, put, set, del, get, add}
use bumshi.Link.{Url, UrlLib, resolve}
use bumshi.Cookies.{HttpCookies, pack_set_cookie}
use bumshi.Csp.{rewrite_csp}
use bumshi.Request.{hop_by_hop}

abbrev pub control_plane_headers : List Bytes
control_plane_headers =
    codes "X-Frame-Options"
    ∷ codes "X-Content-Type-Options"
    ∷ codes "Referrer-Policy"
    ∷ codes "Cross-Origin-Opener-Policy"
    ∷ codes "Cross-Origin-Embedder-Policy"
    ∷ codes "Cross-Origin-Resource-Policy"
    ∷ []

-- `for _, k := range controlPlaneHeaders { dst.Del(k) }`
unfoldable pub del_all : List Bytes → Header → Header
unfolding del
del_all [] dst = dst
del_all (k ∷ ks) dst = del_all ks (del dst k)

abbrev pub location_names : List Bytes
location_names = codes "Location" ∷ codes "Content-Location" ∷ []

abbrev pub csp_names : List Bytes
csp_names = codes "Content-Security-Policy" ∷ codes "Content-Security-Policy-Report-Only" ∷ []

abbrev pub set_cookie_name : Bytes
set_cookie_name = codes "Set-Cookie"

-- What `copyResponseHeaders` has beside the two headers.
pub record ResponseContext : Type 0 where
  pub lib : UrlLib
  pub http : HttpCookies
  pub base : Url
  pub nonce : Bytes
  pub secure : Bool
  pub keep_length : Bool

-- `packSetCookie(c, base, h.secure)`
unfoldable pub pack : ResponseContext → Bytes → Option Bytes
unfolding pack_set_cookie
pack ctx c = pack_set_cookie ctx.http c (ctx.lib.hostname ctx.base) ctx.secure

unfoldable pub add_cookies : ResponseContext → Header → List Bytes → Header
unfolding pack add
add_cookies ctx dst [] = dst
add_cookies ctx dst (c ∷ vv) = elim (pack ctx c) [
  | none ↦ add_cookies ctx dst vv
  | some packed ↦ add_cookies ctx (add dst set_cookie_name packed) vv
]

unfoldable pub set_policy : ResponseContext → Header → Bytes → Bytes → Header
unfolding rewrite_csp put
set_policy ctx dst ck policy =
    let translated = rewrite_csp policy ctx.nonce in
    if not (eq translated []) then set dst ck translated else dst

-- One round of the loop, for the canonical name `ck`; `src` is the whole upstream header.
unfoldable pub copy_entry : ResponseContext → Header → Header → Bytes → List Bytes → Header
unfolding add_cookies set_policy put values contains resolve
copy_entry ctx src dst ck vv =
    if eq ck (codes "Content-Length") && not ctx.keep_length
    then dst
    else if eq ck (codes "Content-Encoding")
    then dst
    else if contains location_names ck
    then set dst ck (resolve ctx.lib ctx.base (get src ck))
    else if eq ck set_cookie_name
    then add_cookies ctx dst vv
    else if contains csp_names ck
    then set_policy ctx dst ck (get src ck)
    else if eq ck (codes "Strict-Transport-Security")
    then dst
    else if contains hop_by_hop ck
    then dst
    else put dst ck vv

unfoldable pub copy_entries : ResponseContext → Header → Header → Header → Header
unfolding copy_entry canonical_header_key
copy_entries ctx src dst [] = dst
copy_entries ctx src dst ((k, vv) ∷ rest) =
    copy_entries ctx src (copy_entry ctx src dst (canonical_header_key k) vv) rest

-- `copyResponseHeaders`
unfoldable pub copy_response_headers : ResponseContext → Header → Header → Header
unfolding copy_entries del_all
copy_response_headers ctx dst src = copy_entries ctx src (del_all control_plane_headers dst) src
