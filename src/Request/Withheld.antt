-- ===== src/Request/Withheld.antt =====
-- server/internal/proxy/proxy.go: the headers that never go upstream, against the tables of the code.
use bumshi.Common.{
  Bool, false, ◌&&◌, ◌||◌, List, [], ◌∷◌, ◌≡◌, refl, ap, ◌∙◌, arith, Bytes, codes, length, take,
  ltb,
}
use bumshi.Strings.{contains, eq, equal_fold}
use bumshi.Request.{hop_by_hop, any_prefix, denied_by_prefix, denied_request_header, is_stripped}
use bumshi.Request.Steps.{is_rebuilt}

-- The headers of one connection (RFC 9110, 7.6.1).
abbrev pub of_connection : List Bytes
of_connection =
    codes "Connection"
    ∷ codes "Proxy-Connection"
    ∷ codes "Keep-Alive"
    ∷ codes "Te"
    ∷ codes "Trailer"
    ∷ codes "Transfer-Encoding"
    ∷ codes "Upgrade"
    ∷ codes "Proxy-Authenticate"
    ∷ codes "Proxy-Authorization"
    ∷ []

-- Those in which a relay names itself or tells the client's address.
abbrev pub of_relay : List Bytes
of_relay =
    codes "X-Real-Ip"
    ∷ codes "True-Client-Ip"
    ∷ codes "Client-Ip"
    ∷ codes "X-Client-Ip"
    ∷ codes "X-Cluster-Client-Ip"
    ∷ codes "X-Http-Client-Ip"
    ∷ codes "Proxy-Client-Ip"
    ∷ codes "Wl-Proxy-Client-Ip"
    ∷ codes "X-Original-Forwarded-For"
    ∷ codes "Cf-Connecting-Ip"
    ∷ codes "Forwarded"
    ∷ codes "Via"
    ∷ codes "Cdn-Loop"
    ∷ codes "Early-Data"
    ∷ []

-- What the headers of the networks in front of a site begin with.
abbrev pub of_network : List Bytes
of_network =
    codes "Cf-"
    ∷ codes "X-Forwarded-"
    ∷ codes "X-Amz-Cf-"
    ∷ codes "X-Azure-"
    ∷ codes "X-Envoy-"
    ∷ codes "Fastly-"
    ∷ codes "Akamai-"
    ∷ codes "X-Akamai-"
    ∷ codes "Fly-"
    ∷ codes "X-Vercel-"
    ∷ []

unfoldable begins_with_one : List Bytes → Bytes → Bool
unfolding equal_fold
begins_with_one [] k = false
begins_with_one (p ∷ ps) k =
    ltb (length p) (length k) && equal_fold (take (length p) k) p || begins_with_one ps k

unfoldable pub is_withheld : Bytes → Bool
unfolding contains begins_with_one
is_withheld k =
    contains of_connection k
    || contains (codes "Accept-Encoding" ∷ codes "X-Requested-With" ∷ of_relay) k
    || begins_with_one of_network k

contains_behind :
    (x : Bytes) (xs : List Bytes) (k : Bytes) → eq x k ≡ false → contains (x ∷ xs) k ≡ contains xs k
unfolding contains
contains_behind x xs k h = rw h refl

any_prefix-begins_with_one : (ps : List Bytes) (k : Bytes) → any_prefix ps k ≡ begins_with_one ps k
unfolding any_prefix begins_with_one
any_prefix-begins_with_one [] k = refl
any_prefix-begins_with_one (p ∷ ps) k =
    ap (λ b. ltb (length p) (length k) && equal_fold (take (length p) k) p || b)
      (any_prefix-begins_with_one ps k)

denied_by_prefix-of_network : (k : Bytes) → denied_by_prefix k ≡ begins_with_one of_network k
unfolding denied_by_prefix
denied_by_prefix-of_network k = any_prefix-begins_with_one of_network k

-- The header set without the three that are rebuilt.
denied-of_relay :
    (k : Bytes)
    → eq (codes "Cookie") k ≡ false
    → eq (codes "Origin") k ≡ false
    → eq (codes "Referer") k ≡ false
    → denied_request_header k
      ≡ contains (codes "Accept-Encoding" ∷ codes "X-Requested-With" ∷ of_relay) k
unfolding denied_request_header
denied-of_relay k cookie origin referer =
    contains_behind (codes "Cookie") (codes "Origin" ∷ codes "Referer" ∷ others) k cookie
    ∙ contains_behind (codes "Origin") (codes "Referer" ∷ others) k origin
    ∙ contains_behind (codes "Referer") others k referer
  where
    others : List Bytes
    others = codes "Accept-Encoding" ∷ codes "X-Requested-With" ∷ of_relay

pub is_stripped-is_withheld : (k : Bytes) → is_rebuilt k ≡ false → is_stripped k ≡ is_withheld k
unfolding is_stripped is_withheld is_rebuilt
is_stripped-is_withheld k h =
    let cookie : eq (codes "Cookie") k ≡ false = ground (arith, h) in
    let origin : eq (codes "Origin") k ≡ false = ground (arith, h) in
    let referer : eq (codes "Referer") k ≡ false = ground (arith, h) in
    ap (λ b. contains hop_by_hop k || b || denied_by_prefix k)
      (denied-of_relay k cookie origin referer)
    ∙ ap
        (λ b.
          contains hop_by_hop k
          || contains (codes "Accept-Encoding" ∷ codes "X-Requested-With" ∷ of_relay) k
          || b)
        (denied_by_prefix-of_network k)
