-- ===== src/Request/Laws.antt =====
-- server/internal/proxy/proxy.go: what an upstream request tells of the user and of the proxy.
use bumshi.Common.{
  true, false, not, ◌&&◌, ◌||◌, none, some, List, [], ◌∷◌, ◌++◌, ◌≡◌, inl, inr, refl, sym, ap, ◌∙◌,
  arith, Bytes, codes, Bool-cases, if◌then◌else◌,
}
use bumshi.Strings.{eq}
use bumshi.Strings.Laws.{eq_iff, eq_self}
use bumshi.Headers.{Header, values, set, get, first}
use bumshi.Headers.Laws.{values-put}
use bumshi.Link.{Url, UrlLib}
use bumshi.Cookies.{NamedValue, unpack_cookies}
use bumshi.Request.{
  is_stripped, copy_request_headers, navigates, sec_fetch_site, set_fetch_dest, coherent_site,
  set_fetch_metadata, real_referer, set_referer, set_cookie, set_origin, set_request_identity,
  upstream_header,
}
use bumshi.Request.Copy.{sent, values-copy_request_headers}
use bumshi.Request.Steps.{
  is_rebuilt, values-set_cookie, values-set_origin, values-set_referer_other, values-set_referer,
  values-set_fetch_metadata,
}
use bumshi.Request.Withheld.{is_withheld, is_stripped-is_withheld}

origin-is_stripped : is_stripped (codes "Origin") ≡ true
unfolding is_stripped
origin-is_stripped = refl

referer-is_stripped : is_stripped (codes "Referer") ≡ true
unfolding is_stripped
referer-is_stripped = refl

module _ (lib : UrlLib) where
  coherent_site-coherent :
      (incoming : Header) (site : Bytes)
      → (not (eq (coherent_site lib incoming site) (codes "none"))
          || navigates incoming && eq (get incoming (codes "Origin")) [])
        ≡ true
  unfolding coherent_site eq
  coherent_site-coherent incoming site = elim (Bool-cases (navigates incoming)) [
    | inl e ↦ elim (Bool-cases (eq (get incoming (codes "Origin")) [])) [
      | inl e1 ↦ rw (e, e1) (ground arith)
      | inr e1 ↦ elim (Bool-cases (eq site (codes "none"))) [
        | inl e2 ↦ rw (e, e1) (ground (arith, e2))
        | inr e2 ↦ rw (e, e1) (ground (arith, e2))
      ]
    ]
    | inr e ↦ elim (Bool-cases (eq site (codes "none"))) [
      | inl e2 ↦ rw (e, e2) refl
      | inr e2 ↦ rw e (ground (arith, e2))
    ]
  ]

  -- The header before the Sec-Fetch corrections.
  abbrev named : Header → List NamedValue → Url → Header
  named incoming jar target =
      set_origin lib
        (set_cookie lib (copy_request_headers [] incoming)
          (unpack_cookies jar (lib.hostname target)))
        incoming target

  values-upstream :
      (incoming : Header) (jar : List NamedValue) (target : Url) (k : Bytes)
      → eq (codes "Sec-Fetch-Dest") k ≡ false
      → eq (codes "Sec-Fetch-Site") k ≡ false
      → values (upstream_header lib incoming jar target) k
        ≡ values (set_referer lib (named incoming jar target) (get incoming (codes "Referer"))) k
  unfolding upstream_header set_request_identity
  values-upstream incoming jar target k hd hs =
      values-set_fetch_metadata lib
        (set_referer lib (named incoming jar target) (get incoming (codes "Referer"))) incoming
        target (real_referer lib (get incoming (codes "Referer"))) k hd hs

  values-named :
      (incoming : Header) (jar : List NamedValue) (target : Url) (k : Bytes)
      → eq (codes "Cookie") k ≡ false
      → eq (codes "Origin") k ≡ false
      → values (named incoming jar target) k
        ≡ (if is_stripped k then none else sent incoming k none)
  values-named incoming jar target k hc ho =
      values-set_origin lib _ incoming target k
      ∙ rw ho (
          values-set_cookie lib (copy_request_headers [] incoming)
            (unpack_cookies jar (lib.hostname target)) k
          ∙ rw hc (values-copy_request_headers incoming k))

  -- Of the headers that the proxy does not rebuild, these never go upstream: those of one connection,
  -- those in which a relay names itself or the client's address, and Accept-Encoding and
  -- X-Requested-With. Every other one reaches the target with the values that the client sent.
  pub values-upstream_header :
      (incoming : Header) (jar : List NamedValue) (target : Url) (k : Bytes)
      → is_rebuilt k ≡ false
      → values (upstream_header lib incoming jar target) k
        ≡ (if is_withheld k then none else sent incoming k none)
  unfolding is_rebuilt
  values-upstream_header incoming jar target k h =
      values-upstream incoming jar target k (ground (arith, h)) (ground (arith, h))
      ∙ values-set_referer_other lib (named incoming jar target) (get incoming (codes "Referer")) k
          (ground (arith, h))
      ∙ values-named incoming jar target k (ground (arith, h)) (ground (arith, h))
      ∙ ap (λ b. if b then none else sent incoming k none) (is_stripped-is_withheld k h)

  -- Cookie, Origin and Referer describe the target: the cookies that were packed for it, its own
  -- origin where the client sent one, and the page that the client's Referer leads to.
  pub upstream_header_lem :
      (incoming : Header) (jar : List NamedValue) (target : Url)
      → (get (upstream_header lib incoming jar target) (codes "Cookie")
          ≡ unpack_cookies jar (lib.hostname target))
        × (get (upstream_header lib incoming jar target) (codes "Origin") ≡ (
            if eq (get incoming (codes "Origin")) []
            then []
            else target.scheme ++ (codes "://" ++ target.host)))
        × (get (upstream_header lib incoming jar target) (codes "Referer")
            ≡ real_referer lib (get incoming (codes "Referer")))
  unfolding eq
  upstream_header_lem incoming jar target = (cookie, origin, referer)
    where
      copied : Header
      copied = copy_request_headers [] incoming

      jarred : Bytes
      jarred = unpack_cookies jar (lib.hostname target)

      or_absent : first (if eq jarred [] then none else some (jarred ∷ [])) ≡ jarred
      or_absent = elim (Bool-cases (eq jarred [])) [
        | inl e ↦ rw e (sym ((eq_iff jarred []).0 e))
        | inr e ↦ rw e refl
      ]

      cookie : get (upstream_header lib incoming jar target) (codes "Cookie") ≡ jarred
      cookie =
          ap first (
            values-upstream incoming jar target (codes "Cookie") refl refl
            ∙ values-set_referer_other lib (named incoming jar target)
                (get incoming (codes "Referer")) (codes "Cookie") refl
            ∙ values-set_origin lib (set_cookie lib copied jarred) incoming target (codes "Cookie")
            ∙ values-set_cookie lib copied jarred (codes "Cookie"))
          ∙ or_absent

      origin : get (upstream_header lib incoming jar target) (codes "Origin") ≡ (
          if eq (get incoming (codes "Origin")) []
          then []
          else target.scheme ++ (codes "://" ++ target.host))
      origin =
          ap first (
            values-upstream incoming jar target (codes "Origin") refl refl
            ∙ values-set_referer_other lib (named incoming jar target)
                (get incoming (codes "Referer")) (codes "Origin") refl
            ∙ values-set_origin lib (set_cookie lib copied jarred) incoming target (codes "Origin"))
          ∙ elim (Bool-cases (eq (get incoming (codes "Origin")) [])) [
            | inl e ↦ rw e (
                ap first (
                  values-set_cookie lib copied jarred (codes "Origin")
                  ∙ values-copy_request_headers incoming (codes "Origin")
                  ∙ ap (λ b. if b then none else sent incoming (codes "Origin") none)
                      origin-is_stripped))
            | inr e ↦ rw e refl
          ]

      referer :
          get (upstream_header lib incoming jar target) (codes "Referer")
          ≡ real_referer lib (get incoming (codes "Referer"))
      referer =
          ap first (values-upstream incoming jar target (codes "Referer") refl refl)
          ∙ values-set_referer lib (named incoming jar target) (get incoming (codes "Referer")) (
              values-named incoming jar target (codes "Referer") refl refl
              ∙ ap (λ b. if b then none else sent incoming (codes "Referer") none)
                  referer-is_stripped)

  -- A request whose Sec-Fetch headers are rewritten claims to have no initiator only if it is a
  -- navigation that carries no Origin.
  pub upstream_header-coherent :
      (incoming : Header) (jar : List NamedValue) (target : Url)
      → (eq (get incoming (codes "Sec-Fetch-Mode")) []
          && eq (get incoming (codes "Sec-Fetch-Dest")) [])
        ≡ false
      → eq (get incoming (codes "Sec-Fetch-Site")) [] ≡ false
      → (not (
            eq
              (get (upstream_header lib incoming jar target) (codes "Sec-Fetch-Site"))
              (codes "none"))
          || navigates incoming && eq (get incoming (codes "Origin")) [])
        ≡ true
  unfolding upstream_header set_request_identity set_fetch_metadata
  upstream_header-coherent incoming jar target h hs =
      let out = set_referer lib (named incoming jar target) (get incoming (codes "Referer")) in
      let site =
        coherent_site lib incoming
          (sec_fetch_site lib (real_referer lib (get incoming (codes "Referer"))) target) in
      rw (h, hs)
        (let written : get (set (set_fetch_dest lib out incoming) (codes "Sec-Fetch-Site") site)
                (codes "Sec-Fetch-Site")
              ≡ site =
            ap first (
              values-put (set_fetch_dest lib out incoming) (codes "Sec-Fetch-Site") (site ∷ [])
                (codes "Sec-Fetch-Site")
              ∙ ap
                  (λ b.
                    if b
                    then some (site ∷ [])
                    else values (set_fetch_dest lib out incoming) (codes "Sec-Fetch-Site"))
                  (eq_self (codes "Sec-Fetch-Site"))) in
          ap
            (λ w.
              not (eq w (codes "none"))
              || navigates incoming && eq (get incoming (codes "Origin")) [])
            written
          ∙ coherent_site-coherent incoming
              (sec_fetch_site lib (real_referer lib (get incoming (codes "Referer"))) target))
