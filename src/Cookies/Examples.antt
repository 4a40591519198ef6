-- ===== src/Cookies/Examples.antt =====
-- Runs of the cookie code, and its theorems at concrete cookies.
use bumshi.Common.{
  ◌≤◌, Bool, true, false, none, List, [], ◌∷◌, ◌++◌, ◌≡◌, refl, ap, ◌∙◌, arith, Bytes, inl, inr,
  codes,
}
use bumshi.Strings.{to_lower, contains, count, join, trim_suffix_byte}
use bumshi.Cookies.{
  NamedValue, Cookie, MaxAge, SameSite, cookie_prefix, host_key, cookie_scope, scope_prefixes,
  fnv1a64, unpack_cookies, packed, semicolon_space,
}
use bumshi.Cookies.Hex.{format_hex}
use bumshi.Cookies.Scope.{Covers, cookie_scope-Covers}
use bumshi.Cookies.Jar.{
  pairs, unpack_cookies_unmarked, unpack_cookies_isolated, unpack_cookies-packed,
}

abbrev google : Bytes
google = codes "www.google.com"

-- The reference value of the empty text and of one byte.
fnv_vectors : (fnv1a64 [] ≡ 0xcbf29ce484222325) × (fnv1a64 (codes "a") ≡ 0xaf63dc4c8601ec8c)
unfolding fnv1a64
fnv_vectors = (refl, refl)

hex_digits : format_hex 0xcbf29ce484222325 ≡ codes "cbf29ce484222325"
unfolding format_hex
hex_digits = refl

scope_of_google : cookie_scope (codes ".Google.com") google ≡ (codes "google.com", true)
unfolding cookie_scope bumshi.Cookies.scope_of to_lower trim_suffix_byte bumshi.Strings.trim_space
    bumshi.Strings.trim_prefix bumshi.Strings.eq count bumshi.Strings.has_suffix
scope_of_google = refl

scope_of_suffix : cookie_scope (codes "com") google ≡ (google, false)
unfolding cookie_scope bumshi.Cookies.scope_of to_lower trim_suffix_byte bumshi.Strings.trim_space
    bumshi.Strings.trim_prefix bumshi.Strings.eq count bumshi.Strings.has_suffix
scope_of_suffix = refl

abbrev sid : Cookie
sid = record {
  name = codes "SID";
  value = codes "x";
  path = codes "/mail";
  domain = codes ".google.com";
  secure = true;
  http_only = true;
  same_site = SameSite.unspecified;
  expires = none;
  max_age = MaxAge.unset;
}

abbrev access_cookie : NamedValue
access_cookie = (codes "bumshi_access", codes "secret")

abbrev jar : List NamedValue
jar = access_cookie ∷ (cookie_prefix (codes "google.com") true ++ codes "SID", codes "x") ∷ []

cookie_scope-Covers_example :
    Covers
      (cookie_scope (codes ".google.com") google).0
      (cookie_scope (codes ".google.com") google).1
      (host_key google)
    × ((cookie_scope (codes ".google.com") google).1 ≡ true
        → 1 ≤ count (cookie_scope (codes ".google.com") google).0 b'.')
cookie_scope-Covers_example = cookie_scope-Covers (codes ".google.com") google

unpack_cookies_unmarked_example :
    unpack_cookies (access_cookie ∷ []) google ≡ unpack_cookies [] google
unpack_cookies_unmarked_example =
    unpack_cookies_unmarked [] [] (codes "bumshi_access") (codes "secret") google
      (unfold bumshi.Strings.has_prefix in refl)

abbrev short_host : Bytes
short_host = codes "b.co"

short_scopes : (r t : Bytes) → short_host ≡ r ++ (b'.' ∷ t) → t ≡ codes "co"
short_scopes [] t e = ground arith
short_scopes (x ∷ []) t e = ground arith
short_scopes (x ∷ y ∷ []) t e = ground arith
short_scopes (x ∷ y ∷ z ∷ []) t e = ground arith
short_scopes (x ∷ y ∷ z ∷ w ∷ []) t e = ground arith
short_scopes (x ∷ y ∷ z ∷ w ∷ v ∷ r) t e = ground arith

no_collision :
    (t : Bytes) (k : Bool)
    → Covers t k (host_key short_host)
    → fnv1a64 (to_lower (codes "a.org")) ≡ fnv1a64 (to_lower t)
    → codes "a.org" ≡ t
unfolding fnv1a64 to_lower trim_suffix_byte
no_collision t false covers e = absurd (omega (arith, e ∙ ap (λ u. fnv1a64 (to_lower u)) covers))
no_collision t true (inl covers) e =
    absurd (omega (arith, e ∙ ap (λ u. fnv1a64 (to_lower u)) covers))
no_collision t true (inr (r, split)) e =
    absurd (omega (arith, e ∙ ap (λ u. fnv1a64 (to_lower u)) (short_scopes r t split)))

uncovered : ¬ (Covers (codes "a.org") true (host_key short_host))
unfolding to_lower trim_suffix_byte
uncovered (inl e) = ground arith
uncovered (inr (r, split)) = ground (arith, short_scopes r (codes "a.org") split)

unpack_cookies_isolated_example :
    unpack_cookies ((cookie_prefix (codes "a.org") true ++ codes "SID", codes "x") ∷ []) short_host
    ≡ unpack_cookies [] short_host
unpack_cookies_isolated_example =
    unpack_cookies_isolated [] [] (codes "a.org") true (codes "SID") (codes "x") short_host (cc)
      no_collision uncovered

unpack_cookies-packed_example :
    unpack_cookies
      (access_cookie ∷ ((packed sid google true).name, (packed sid google true).value) ∷ [])
      google
    ≡ join
        (pairs (scope_prefixes google) (access_cookie ∷ [])
          ++ ((codes "SID" ++ (b'=' ∷ codes "x")) ∷ pairs (scope_prefixes google) []))
        semicolon_space
unpack_cookies-packed_example =
    unpack_cookies-packed (access_cookie ∷ []) [] sid google true (cc)
      (unfold to_lower trim_suffix_byte in cc)
