-- ===== src/Response/Laws.antt =====
-- server/internal/proxy/proxy.go: what reaches the client of an upstream response's headers.
use bumshi.Common.{
  Bool, true, false, not, ◌&&◌, ◌||◌, some, List, [], ◌∷◌, ◌++◌, append_assoc, append-nil, ◌≡◌, inl,
  inr, refl, sym, ap, ◌∙◌, Bytes, codes, Bool-cases, if◌then◌else◌,
}
use bumshi.Strings.{contains, eq}
use bumshi.Strings.Laws.{eq_iff, eq_self}
use bumshi.Headers.{Header, canonical_header_key, values, set, get, first}
use bumshi.Headers.Laws.{values-put}
use bumshi.Link.{resolve}
use bumshi.Request.{hop_by_hop}
use bumshi.Response.{
  ResponseContext, control_plane_headers, set_cookie_name, location_names, csp_names, del_all,
  add_cookies, copy_entry, copy_entries, copy_response_headers,
}
use bumshi.Response.Steps.{listed, packed_lines, listed-add_cookies, values-copy_entry_other}

-- Whether the upstream header has an entry under a name.
unfoldable pub mentions : Header → Bytes → Bool
unfolding eq
mentions [] k = false
mentions ((key, vv) ∷ src) k = eq (canonical_header_key key) k || mentions src k

-- The cookies that are stored for all Set-Cookie lines of the upstream header, in order.
unfoldable pub stored_cookies : ResponseContext → Header → List Bytes
unfolding packed_lines eq
stored_cookies ctx [] = []
stored_cookies ctx ((key, vv) ∷ src) =
    (if eq (canonical_header_key key) set_cookie_name then packed_lines ctx vv else [])
    ++ stored_cookies ctx src

-- A name whose upstream values never reach the client: a header of the connection or of the body's
-- encoding, a length that is no longer true, and the target's HSTS.
unfoldable pub is_withheld : ResponseContext → Bytes → Bool
unfolding eq contains
is_withheld ctx ck =
    (eq ck (codes "Content-Length") && not ctx.keep_length || eq ck (codes "Content-Encoding"))
    || (not (contains location_names ck || eq ck set_cookie_name || contains csp_names ck)
        && (eq ck (codes "Strict-Transport-Security") || contains hop_by_hop ck))

withheld_parts :
    (a b l c p s h : Bool)
    → ((a || b) || (not (l || c || p) && (s || h))) ≡ true
    → a ≡ false
    → b ≡ false
    → (l ≡ false) × (c ≡ false) × (p ≡ false) × ((s || h) ≡ true)
withheld_parts true b l c p s h all ha hb = absurd (cc ha)
withheld_parts false true l c p s h all ha hb = absurd (cc hb)
withheld_parts false false true c p s h all ha hb = absurd (cc all)
withheld_parts false false false true p s h all ha hb = absurd (cc all)
withheld_parts false false false false true s h all ha hb = absurd (cc all)
withheld_parts false false false false false s h all ha hb = (refl, refl, refl, all)

withheld-copy_entry :
    (ctx : ResponseContext) (src dst : Header) (ck : Bytes) (vv : List Bytes)
    → is_withheld ctx ck ≡ true
    → copy_entry ctx src dst ck vv ≡ dst
unfolding copy_entry is_withheld
withheld-copy_entry ctx src dst ck vv h =
    elim (Bool-cases (eq ck (codes "Content-Length") && not ctx.keep_length)) [
      | inl e ↦ rw e refl
      | inr e ↦ elim (Bool-cases (eq ck (codes "Content-Encoding"))) [
        | inl e1 ↦ rw (e, e1) refl
        | inr e1 ↦
            let (l, c, p, last) =
              withheld_parts _ _ (contains location_names ck) (eq ck set_cookie_name)
                (contains csp_names ck) (eq ck (codes "Strict-Transport-Security"))
                (contains hop_by_hop ck) h e e1 in
            rw (e, e1, l, c, p)
              (elim (Bool-cases (eq ck (codes "Strict-Transport-Security"))) [
                | inl e2 ↦ rw e2 refl
                | inr e2 ↦
                    let hop : contains hop_by_hop ck ≡ true = rw e2 at last in rw (e2, hop) refl
              ])
      ]
    ]

withheld-copy_entries :
    (ctx : ResponseContext) (src dst rest : Header) (k : Bytes)
    → is_withheld ctx k ≡ true
    → values (copy_entries ctx src dst rest) k ≡ values dst k
unfolding copy_entries
withheld-copy_entries ctx src dst [] k h = refl
withheld-copy_entries ctx src dst ((key, vv) ∷ rest) k h =
    withheld-copy_entries ctx src (copy_entry ctx src dst (canonical_header_key key) vv) rest k h
    ∙ elim (Bool-cases (eq (canonical_header_key key) k)) [
      | inl e ↦
          let same = (eq_iff (canonical_header_key key) k).0 e in
          ap (λ d. values d k)
            (withheld-copy_entry ctx src dst (canonical_header_key key) vv
              (ap (is_withheld ctx) same ∙ h))
      | inr e ↦ values-copy_entry_other ctx src dst (canonical_header_key key) vv k e
    ]

-- What the target says of its connection, of its body's encoding and of HSTS stays behind, and so does a
-- length that the body no longer has: under such a name the response has what was staged before, less
-- the control plane's own headers.
pub withheld-copy_response_headers :
    (ctx : ResponseContext) (dst src : Header) (k : Bytes)
    → is_withheld ctx k ≡ true
    → values (copy_response_headers ctx dst src) k ≡ values (del_all control_plane_headers dst) k
unfolding copy_response_headers
withheld-copy_response_headers ctx dst src k h =
    withheld-copy_entries ctx src (del_all control_plane_headers dst) src k h

set_cookie-entry :
    (ctx : ResponseContext) (src dst : Header) (vv : List Bytes)
    → copy_entry ctx src dst set_cookie_name vv ≡ add_cookies ctx dst vv
unfolding copy_entry eq contains
set_cookie-entry ctx src dst vv = refl

stored-copy_entries :
    (ctx : ResponseContext) (src dst rest : Header)
    → listed (values (copy_entries ctx src dst rest) set_cookie_name)
      ≡ listed (values dst set_cookie_name) ++ stored_cookies ctx rest
unfolding copy_entries stored_cookies
stored-copy_entries ctx src dst [] = sym (append-nil _)
stored-copy_entries ctx src dst ((key, vv) ∷ rest) =
    stored-copy_entries ctx src (copy_entry ctx src dst (canonical_header_key key) vv) rest
    ∙ ap (λ r. r ++ stored_cookies ctx rest) one
    ∙ append_assoc (listed (values dst set_cookie_name)) _ _
  where
    one :
        listed (values (copy_entry ctx src dst (canonical_header_key key) vv) set_cookie_name)
        ≡ listed (values dst set_cookie_name)
          ++ (if eq (canonical_header_key key) set_cookie_name then packed_lines ctx vv else [])
    one = elim (Bool-cases (eq (canonical_header_key key) set_cookie_name)) [
      | inl e ↦
          let same = (eq_iff (canonical_header_key key) set_cookie_name).0 e in
          ap (λ ck. listed (values (copy_entry ctx src dst ck vv) set_cookie_name)) same
          ∙ ap (λ d. listed (values d set_cookie_name)) (set_cookie-entry ctx src dst vv)
          ∙ listed-add_cookies ctx dst vv
          ∙ rw e refl
      | inr e ↦
          ap listed
            (values-copy_entry_other ctx src dst (canonical_header_key key) vv set_cookie_name e)
          ∙ rw e (sym (append-nil _))
    ]

-- The Set-Cookie lines of the response are those that were staged before and then the target's, each
-- one packed for the target's host and in order; a line that cannot be packed is left out.
pub stored-copy_response_headers :
    (ctx : ResponseContext) (dst src : Header)
    → listed (values (copy_response_headers ctx dst src) set_cookie_name)
      ≡ listed (values (del_all control_plane_headers dst) set_cookie_name)
        ++ stored_cookies ctx src
unfolding copy_response_headers
stored-copy_response_headers ctx dst src =
    stored-copy_entries ctx src (del_all control_plane_headers dst) src

location-entry :
    (ctx : ResponseContext) (src dst : Header) (vv : List Bytes)
    → copy_entry ctx src dst (codes "Location") vv
      ≡ set dst (codes "Location") (resolve ctx.lib ctx.base (get src (codes "Location")))
unfolding copy_entry eq contains
location-entry ctx src dst vv = refl

location-copy_entries :
    (ctx : ResponseContext) (src dst rest : Header)
    → get (copy_entries ctx src dst rest) (codes "Location") ≡ (
        if mentions rest (codes "Location")
        then resolve ctx.lib ctx.base (get src (codes "Location"))
        else get dst (codes "Location"))
unfolding copy_entries mentions
location-copy_entries ctx src dst [] = refl
location-copy_entries ctx src dst ((key, vv) ∷ rest) =
    location-copy_entries ctx src (copy_entry ctx src dst (canonical_header_key key) vv) rest
    ∙ elim (Bool-cases (mentions rest (codes "Location"))) [
      | inl e ↦ elim (Bool-cases (eq (canonical_header_key key) (codes "Location"))) [
        | inl e1 ↦ rw (e, e1) refl
        | inr e1 ↦ rw (e, e1) refl
      ]
      | inr e ↦ elim (Bool-cases (eq (canonical_header_key key) (codes "Location"))) [
        | inl e1 ↦
            rw (e, e1) (at_location ((eq_iff (canonical_header_key key) (codes "Location")).0 e1))
        | inr e1 ↦
            rw (e, e1)
              (ap first (
                values-copy_entry_other ctx src dst (canonical_header_key key) vv (codes "Location")
                  e1))
      ]
    ]
  where
    at_location :
        canonical_header_key key ≡ codes "Location"
        → get (copy_entry ctx src dst (canonical_header_key key) vv) (codes "Location")
          ≡ resolve ctx.lib ctx.base (get src (codes "Location"))
    at_location same =
        ap (λ ck. get (copy_entry ctx src dst ck vv) (codes "Location")) same
        ∙ ap (λ d. get d (codes "Location")) (location-entry ctx src dst vv)
        ∙ ap first (
            values-put dst (codes "Location") _ (codes "Location")
            ∙ ap
                (λ b.
                  if b
                  then some (resolve ctx.lib ctx.base (get src (codes "Location")) ∷ [])
                  else values dst (codes "Location"))
                (eq_self (codes "Location")))

-- A redirect leads through the proxy: if the target sends a Location, the client gets what `Resolve`
-- makes of it, and otherwise the response has the Location that was staged before.
pub location-copy_response_headers :
    (ctx : ResponseContext) (dst src : Header)
    → get (copy_response_headers ctx dst src) (codes "Location") ≡ (
        if mentions src (codes "Location")
        then resolve ctx.lib ctx.base (get src (codes "Location"))
        else get (del_all control_plane_headers dst) (codes "Location"))
unfolding copy_response_headers
location-copy_response_headers ctx dst src =
    location-copy_entries ctx src (del_all control_plane_headers dst) src
