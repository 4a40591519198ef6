-- ===== src/Request/Examples.antt =====
-- The theorems on upstream requests at a concrete request.
use bumshi.Common.{true, false, none, some, [], ◌∷◌, ◌≡◌, refl, Bytes, codes, if◌then◌else◌}
use bumshi.Strings.{eq}
use bumshi.Headers.{Header, values, get, canonical_header_key}
use bumshi.Link.{Url, UrlLib}
use bumshi.Cookies.{unpack_cookies}
use bumshi.Request.{is_stripped, real_referer, upstream_header}
use bumshi.Request.Copy.{sent}
use bumshi.Request.Steps.{is_rebuilt}
use bumshi.Request.Withheld.{is_withheld}
use bumshi.Request.Laws.{values-upstream_header, upstream_header_lem}

abbrev pub site : Bytes → Url
site path = record {
  scheme = codes "https";
  host = codes "a.io";
  path = path;
  raw_path = [];
  raw_query = [];
  force_query = false;
  fragment = [];
}

-- Takes every text for a path of one site.
abbrev pub paths : UrlLib
paths = record {
  parse = λ s. some (site s);
  to_string = λ u. u.path;
  resolve_reference = λ base u. u;
  hostname = λ u. u.host;
  port = λ u. [];
  escaped_path = λ u. u.path;
}

abbrev request : Header
request =
    (codes "cf-connecting-ip", codes "9.9.9.9" ∷ [])
    ∷ (codes "Origin", codes "https://proxy" ∷ [])
    ∷ (codes "Sec-Fetch-Mode", codes "cors" ∷ [])
    ∷ (codes "Sec-Fetch-Site", codes "none" ∷ [])
    ∷ (codes "X-Csrf-Token", codes "t" ∷ [])
    ∷ []

values-upstream_header_example :
    values (upstream_header paths request [] (site [])) (codes "Cf-Connecting-Ip") ≡ (
      if is_withheld (codes "Cf-Connecting-Ip")
      then none
      else sent request (codes "Cf-Connecting-Ip") none)
values-upstream_header_example =
    values-upstream_header paths request [] (site []) (codes "Cf-Connecting-Ip") rest
  where
    rest : is_rebuilt (codes "Cf-Connecting-Ip") ≡ false
    rest = unfold is_rebuilt in unfold eq in refl

address_is_stripped : is_stripped (codes "Cf-Connecting-Ip") ≡ true
unfolding is_stripped
address_is_stripped = refl

upstream_header_lem_example :
    (get (upstream_header paths request [] (site [])) (codes "Cookie")
      ≡ unpack_cookies [] (codes "a.io"))
    × (get (upstream_header paths request [] (site [])) (codes "Origin")
        ≡ (if eq (get request (codes "Origin")) [] then [] else codes "https://a.io"))
    × (get (upstream_header paths request [] (site [])) (codes "Referer")
        ≡ real_referer paths (get request (codes "Referer")))
upstream_header_lem_example = upstream_header_lem paths request [] (site [])

canonical_names : canonical_header_key (codes "WL-proxy-client-IP") ≡ codes "Wl-Proxy-Client-Ip"
unfolding canonical_header_key
canonical_names = refl
