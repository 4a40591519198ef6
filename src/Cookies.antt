-- ===== src/Cookies.antt =====
-- server/internal/proxy/cookies.go: cookie namespacing. The parts of net/http that the file calls
-- (reading a Set-Cookie header, printing a cookie) are the fields of `HttpCookies`.
pub mod Hex
pub mod Prefix
pub mod Scope
pub mod Jar
mod Examples
use bumshi.Common.{
  ℕ, ◌-◌, ◌*◌, ◌%◌, ◌^◌, bit_xor, ◌<◌, Bool, true, false, not, ◌&&◌, ◌||◌, Option, none, some, List,
  [], ◌∷◌, ◌++◌, Bytes, codes, length, drop, ltb, ◌==◌, if◌then◌else◌,
}
use bumshi.Strings.{
  to_lower, eq, has_prefix, has_suffix, count, trim_prefix, trim_suffix_byte, trim_space,
}
use bumshi.Cookies.Hex.{format_hex}

-- `cookieNamePrefix`
abbrev pub cookie_name_prefix : Bytes
cookie_name_prefix = codes "b_"

-- `minScopeLabels`
abbrev pub min_scope_labels : ℕ
min_scope_labels = 2

-- One round of the hash: `h ^= uint64(s[i]); h *= prime` on 64 bits.
abbrev pub fnv_round : ℕ → ℕ → ℕ
fnv_round h c = (bit_xor h c * 1099511628211) % 2 ^ 64

pub fnv_from : ℕ → Bytes → ℕ
fnv_from h [] = h
fnv_from h (c ∷ s) = fnv_from (fnv_round h c) s

unfoldable pub fnv1a64 : Bytes → ℕ
unfolding fnv_from
fnv1a64 s = fnv_from 14695981039346656037 s

-- The letter after the hash.
abbrev pub scope_kind : Bool → ℕ
scope_kind domain_match = if domain_match then b'd' else b'h'

unfoldable pub cookie_prefix : Bytes → Bool → Bytes
cookie_prefix scope domain_match =
    cookie_name_prefix
    ++ (format_hex (fnv1a64 (to_lower scope)) ++ (scope_kind domain_match ∷ b'_' ∷ []))

-- `strings.ToLower(strings.TrimSuffix(host, "."))`
abbrev pub host_key : Bytes → Bytes
host_key host = to_lower (trim_suffix_byte host b'.')

-- The clean-up of a Domain attribute.
abbrev pub domain_key : Bytes → Bytes
domain_key domain_attr =
    trim_suffix_byte (trim_prefix (to_lower (trim_space domain_attr)) (b'.' ∷ [])) b'.'

-- The guards of `cookieScope`, on the cleaned-up Domain and host.
unfoldable pub scope_of : Bytes → Bytes → Bytes × Bool
scope_of d host =
    if eq d [] || ltb (count d b'.') (min_scope_labels - 1)
    then (host, false)
    else if not (eq d host) && not (has_suffix host (b'.' ∷ d))
    then (host, false)
    else (d, true)

unfoldable pub cookie_scope : Bytes → Bytes → Bytes × Bool
cookie_scope domain_attr request_host = scope_of (domain_key domain_attr) (host_key request_host)

-- The loop of `scopePrefixes`, from `rest`: it goes on to the byte behind the next dot, and stops
-- when what is left there has fewer than two labels.
unfoldable pub parent_prefixes : Bytes → List Bytes
parent_prefixes [] = []
parent_prefixes (c ∷ rest) =
    let more = parent_prefixes rest in
    if c == b'.'
    then if ltb (count rest b'.') (min_scope_labels - 1) then [] else cookie_prefix rest true ∷ more
    else more

unfoldable pub scope_prefixes : Bytes → List Bytes
unfolding parent_prefixes
scope_prefixes host =
    let h = host_key host in
    if eq h [] then [] else cookie_prefix h false ∷ cookie_prefix h true ∷ parent_prefixes h

-- The loop of `stripCookiePrefix` over the prefixes.
unfoldable pub strip_any : Bytes → List Bytes → Option Bytes
strip_any name [] = none
strip_any name (p ∷ ps) =
    if has_prefix name p && ltb (length p) (length name)
    then some (drop (length p) name)
    else strip_any name ps

unfoldable pub strip_cookie_prefix : Bytes → List Bytes → Option Bytes
unfolding strip_any
strip_cookie_prefix name prefixes =
    if not (has_prefix name cookie_name_prefix) then none else strip_any name prefixes

-- One cookie of a request's Cookie header: its name and its value.
abbrev pub NamedValue : Type 0
NamedValue = Bytes × Bytes

abbrev pub semicolon_space : Bytes
semicolon_space = codes "; "

-- The loop of `unpackCookies`; the last argument is what the builder holds.
unfoldable pub unpack_on : List Bytes → List NamedValue → Bytes → Bytes
unpack_on prefixes [] out = out
unpack_on prefixes ((name, value) ∷ jar) out =
    unpack_on prefixes jar (elim (strip_cookie_prefix name prefixes) [
      | none ↦ out
      | some n ↦
          (if ltb 0 (length out) then out ++ semicolon_space else out) ++ (n ++ (b'=' ∷ value))
    ])

-- `r.Cookies()` is the argument `jar`.
unfoldable pub unpack_cookies : List NamedValue → Bytes → Bytes
unfolding unpack_on
unpack_cookies jar target_host =
    let prefixes = scope_prefixes target_host in
    elim prefixes [ [] ↦ [] | p ∷ ps ↦ unpack_on (p ∷ ps) jar [] ]

-- `MaxAge`: zero, negative or positive in Go.
pub data MaxAge : Type 0 where
  unset delete_now : MaxAge
  seconds : ℕ → MaxAge

pub data SameSite : Type 0 where
  unspecified lax strict cross_site : SameSite

-- The fields of `http.Cookie` that the program reads or writes; `none` is the zero time.
pub record Cookie : Type 0 where
  pub name : Bytes
  pub value : Bytes
  pub path : Bytes
  pub domain : Bytes
  pub secure : Bool
  pub http_only : Bool
  pub same_site : SameSite
  pub expires : Option ℕ
  pub max_age : MaxAge

-- What `packSetCookie` uses of net/http.
pub record HttpCookies : Type 0 where
  pub read_set_cookie : Bytes → List Cookie
  pub to_string : Cookie → Bytes

-- The cookie that `packSetCookie` stores for an upstream cookie.
unfoldable pub packed : Cookie → Bytes → Bool → Cookie
packed c hostname secure =
    let (scope, domain_match) = cookie_scope c.domain hostname in
    record {
      name = cookie_prefix scope domain_match ++ c.name;
      value = c.value;
      path = codes "/";
      domain = [];
      secure = secure || c.secure;
      http_only = c.http_only;
      same_site = SameSite.lax;
      expires = c.expires;
      max_age = c.max_age;
    }

unfoldable pub print_packed : HttpCookies → Cookie → Option Bytes
print_packed http out = let s = http.to_string out in if eq s [] then none else some s

unfoldable pub pack_parsed : HttpCookies → List Cookie → Bytes → Bool → Option Bytes
unfolding packed print_packed
pack_parsed http (c ∷ []) hostname secure =
    if eq c.name [] then none else print_packed http (packed c hostname secure)
pack_parsed http _ hostname secure = none

-- `packSetCookie`; `hostname` is `target.Hostname()`.
unfoldable pub pack_set_cookie : HttpCookies → Bytes → Bytes → Bool → Option Bytes
unfolding pack_parsed
pack_set_cookie http raw hostname secure =
    pack_parsed http (http.read_set_cookie raw) hostname secure
