-- ===== src/Request.antt =====
-- server/internal/proxy/proxy.go: the headers of a request that goes upstream.
pub mod Copy
pub mod Steps
pub mod Withheld
pub mod Laws
pub mod Examples
use bumshi.Common.{
  ℕ, suc, ◌-◌, Bool, true, false, not, ◌&&◌, ◌||◌, Option, none, some, List, [], ◌∷◌, ◌++◌, map,
  Bytes, codes, length, take, drop, ltb, if◌then◌else◌,
}
use bumshi.Strings.{contains, eq, equal_fold, join, split, to_lower, trim_suffix_byte}
use bumshi.Headers.{Header, canonical_header_key, values, put, set, del, get}
use bumshi.Link
use bumshi.Link.{Url, UrlLib, ok, err}
use bumshi.Cookies.{NamedValue, unpack_cookies}

abbrev pub hop_by_hop : List Bytes
hop_by_hop =
    codes "Connection"
    ∷ codes "Proxy-Connection"
    ∷ codes "Keep-Alive"
    ∷ codes "Te"
    ∷ codes "Trailer"
    ∷ codes "Transfer-Encoding"
    ∷ codes "Upgrade"
    ∷ codes "Proxy-Authenticate"
    ∷ codes "Proxy-Authorization"
    ∷ []

-- `headerSet`
abbrev header_set : List Bytes → List Bytes
header_set names = map canonical_header_key names

abbrev pub denied_names : List Bytes
denied_names =
    codes "Cookie"
    ∷ codes "Origin"
    ∷ codes "Referer"
    ∷ codes "Accept-Encoding"
    ∷ codes "X-Requested-With"
    ∷ codes "X-Real-IP"
    ∷ codes "True-Client-IP"
    ∷ codes "Client-IP"
    ∷ codes "X-Client-IP"
    ∷ codes "X-Cluster-Client-IP"
    ∷ codes "X-Http-Client-IP"
    ∷ codes "Proxy-Client-IP"
    ∷ codes "WL-Proxy-Client-IP"
    ∷ codes "X-Original-Forwarded-For"
    ∷ codes "CF-Connecting-IP"
    ∷ codes "Forwarded"
    ∷ codes "Via"
    ∷ codes "CDN-Loop"
    ∷ codes "Early-Data"
    ∷ []

unfoldable pub denied_request_header : Bytes → Bool
unfolding contains canonical_header_key
denied_request_header ck = contains (header_set denied_names) ck

abbrev pub denied_prefixes : List Bytes
denied_prefixes =
    codes "Cf-"
    ∷ codes "X-Forwarded-"
    ∷ codes "X-Amz-Cf-"
    ∷ codes "X-Azure-"
    ∷ codes "X-Envoy-"
    ∷ codes "Fastly-"
    ∷ codes "Akamai-"
    ∷ codes "X-Akamai-"
    ∷ codes "Fly-"
    ∷ codes "X-Vercel-"
    ∷ []

unfoldable pub any_prefix : List Bytes → Bytes → Bool
unfolding equal_fold
any_prefix [] ck = false
any_prefix (p ∷ ps) ck =
    ltb (length p) (length ck) && equal_fold (take (length p) ck) p || any_prefix ps ck

-- `deniedByPrefix`
unfoldable pub denied_by_prefix : Bytes → Bool
unfolding any_prefix
denied_by_prefix ck = any_prefix denied_prefixes ck

unfoldable pub is_stripped : Bytes → Bool
unfolding contains denied_request_header denied_by_prefix
is_stripped ck = contains hop_by_hop ck || denied_request_header ck || denied_by_prefix ck

-- `copyRequestHeaders`
unfoldable pub copy_request_headers : Header → Header → Header
unfolding is_stripped put canonical_header_key
copy_request_headers dst [] = dst
copy_request_headers dst ((k, vv) ∷ src) =
    let ck = canonical_header_key k in
    copy_request_headers (if is_stripped ck then dst else put dst ck vv) src

-- The last two of a list of two labels or more.
last_two : List Bytes → List Bytes
last_two parts = drop (length parts - 2) parts

-- `registrableDomain`
unfoldable pub registrable_domain : Bytes → Bytes
unfolding to_lower trim_suffix_byte split join last_two
registrable_domain host =
    let h = to_lower (trim_suffix_byte host b'.') in
    let parts = split h b'.' in
    if ltb (length parts) 2 then h else join (last_two parts) (codes ".")

abbrev navigates : Header → Bool
navigates incoming = equal_fold (get incoming (codes "Sec-Fetch-Mode")) (codes "navigate")

module _ (lib : UrlLib) where
  -- `secFetchSite`
  unfoldable pub sec_fetch_site : Bytes → Url → Bytes
  unfolding registrable_domain
  sec_fetch_site referer target = if eq referer [] then codes "none" else elim (lib.parse referer) [
    | none ↦ codes "cross-site"
    | some ref ↦
        if eq ref.host []
        then codes "cross-site"
        else if equal_fold ref.scheme target.scheme && equal_fold ref.host target.host
        then codes "same-origin"
        else if eq (registrable_domain (lib.hostname ref))
            (registrable_domain (lib.hostname target))
        then codes "same-site"
        else codes "cross-site"
  ]

  -- The destination of a navigation, corrected.
  unfoldable pub set_fetch_dest : Header → Header → Header
  unfolding put values
  set_fetch_dest out incoming =
      let d = get incoming (codes "Sec-Fetch-Dest") in
      if navigates incoming && (eq d [] || equal_fold d (codes "empty"))
      then set out (codes "Sec-Fetch-Dest") (codes "document")
      else out

  -- The two corrections of "none".
  unfoldable pub coherent_site : Header → Bytes → Bytes
  unfolding values
  coherent_site incoming site =
      let moved =
        if eq site (codes "none") && not (navigates incoming) then codes "same-origin" else site in
      if eq moved (codes "none") && not (eq (get incoming (codes "Origin")) [])
      then codes "same-origin"
      else moved

  -- `setFetchMetadata`
  unfoldable pub set_fetch_metadata : Header → Header → Url → Bytes → Header
  unfolding set_fetch_dest coherent_site sec_fetch_site
  set_fetch_metadata out incoming target referer =
      if eq (get incoming (codes "Sec-Fetch-Mode")) []
        && eq (get incoming (codes "Sec-Fetch-Dest")) []
      then out
      else if eq (get incoming (codes "Sec-Fetch-Site")) []
      then set_fetch_dest out incoming
      else set (set_fetch_dest out incoming) (codes "Sec-Fetch-Site")
          (coherent_site incoming (sec_fetch_site referer target))

  -- The page that a Referer leads to, as a text; nothing if it is no proxy link.
  unfoldable pub real_referer : Bytes → Bytes
  unfolding Link.decode
  real_referer ref = if eq ref [] then [] else elim (lib.parse ref) [
    | none ↦ []
    | some u ↦ elim (Link.decode lib (lib.escaped_path u)) [
      | err e ↦ []
      | ok real ↦ lib.to_string real
    ]
  ]

  -- Whether a Referer is sent on.
  unfoldable pub set_referer : Header → Bytes → Header
  unfolding Link.decode put
  set_referer out ref = if eq ref [] then out else elim (lib.parse ref) [
    | none ↦ out
    | some u ↦ elim (Link.decode lib (lib.escaped_path u)) [
      | err e ↦ out
      | ok real ↦ set out (codes "Referer") (lib.to_string real)
    ]
  ]

  unfoldable pub set_cookie : Header → Bytes → Header
  unfolding put del
  set_cookie out cookies =
      if not (eq cookies []) then set out (codes "Cookie") cookies else del out (codes "Cookie")

  unfoldable pub set_origin : Header → Header → Url → Header
  unfolding put values
  set_origin out incoming target =
      if not (eq (get incoming (codes "Origin")) [])
      then set out (codes "Origin") (target.scheme ++ (codes "://" ++ target.host))
      else out

  -- `setRequestIdentity`; `jar` is what net/http reads from the request's Cookie header.
  unfoldable pub set_request_identity : Header → Header → List NamedValue → Url → Header
  unfolding set_cookie set_origin set_referer real_referer set_fetch_metadata unpack_cookies
  set_request_identity out incoming jar target =
      let ref = get incoming (codes "Referer") in
      let named =
        set_origin (set_cookie out (unpack_cookies jar (lib.hostname target))) incoming target in
      set_fetch_metadata (set_referer named ref) incoming target (real_referer ref)

  -- The header that `serveHTTP` sends upstream.
  unfoldable pub upstream_header : Header → List NamedValue → Url → Header
  unfolding copy_request_headers set_request_identity
  upstream_header incoming jar target =
      set_request_identity (copy_request_headers [] incoming) incoming jar target
