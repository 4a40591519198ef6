-- ===== src/Response/Steps.antt =====
-- server/internal/proxy/proxy.go: what a round of `copyResponseHeaders` writes.
use bumshi.Common.{
  false, not, ◌&&◌, Option, none, some, List, [], ◌∷◌, ◌++◌, append_assoc, append-nil, ◌≡◌, inl,
  inr, refl, sym, ap, ◌∙◌, Bytes, codes, Bool-cases, Option-cases, if◌then◌else◌,
}
use bumshi.Strings.{contains, eq}
use bumshi.Strings.Laws.{eq_iff, eq_self}
use bumshi.Headers.{Header, values, put, get, add}
use bumshi.Headers.Laws.{values-put}
use bumshi.Csp.{rewrite_csp}
use bumshi.Request.{hop_by_hop}
use bumshi.Response.{
  ResponseContext, set_cookie_name, location_names, csp_names, pack, add_cookies, set_policy,
  copy_entry,
}

values-put_other :
    (dst : Header) (k : Bytes) (vv : List Bytes) (k' : Bytes)
    → eq k k' ≡ false
    → values (put dst k vv) k' ≡ values dst k'
values-put_other dst k vv k' h =
    values-put dst k vv k' ∙ ap (λ b. if b then some vv else values dst k') h

-- A list of values, empty where there is no entry.
abbrev pub listed : Option (List Bytes) → List Bytes
listed none = []
listed (some vv) = vv

-- The packed cookies of the Set-Cookie lines that are kept.
unfoldable pub packed_lines : ResponseContext → List Bytes → List Bytes
packed_lines ctx [] = []
packed_lines ctx (c ∷ vv) = elim (pack ctx c) [
  | none ↦ packed_lines ctx vv
  | some p ↦ p ∷ packed_lines ctx vv
]

values-add_other :
    (dst : Header) (k v k' : Bytes) → eq k k' ≡ false → values (add dst k v) k' ≡ values dst k'
unfolding add
values-add_other dst k v k' h = values-put_other dst k _ k' h

listed-add :
    (dst : Header) (k v : Bytes) → listed (values (add dst k v) k) ≡ listed (values dst k) ++ v ∷ []
unfolding add
listed-add dst k v = elim (Option-cases (values dst k)) [
  | inl e ↦
      rw (e, listed)
        (ap listed
          (values-put dst k _ k ∙ ap (λ b. if b then some (v ∷ []) else values dst k) (eq_self k)))
  | inr (vv, e) ↦
      rw (e, listed)
        (ap listed (
          values-put dst k _ k
          ∙ ap (λ b. if b then some (vv ++ v ∷ []) else values dst k) (eq_self k)))
]

values-add_cookies_other :
    (ctx : ResponseContext) (dst : Header) (vv : List Bytes) (k : Bytes)
    → eq set_cookie_name k ≡ false
    → values (add_cookies ctx dst vv) k ≡ values dst k
unfolding add_cookies
values-add_cookies_other ctx dst [] k h = refl
values-add_cookies_other ctx dst (c ∷ vv) k h = elim (Option-cases (pack ctx c)) [
  | inl e ↦ rw (e, add_cookies) (values-add_cookies_other ctx dst vv k h)
  | inr (p, e) ↦
      rw (e, add_cookies)
        (values-add_cookies_other ctx (add dst set_cookie_name p) vv k h
          ∙ values-add_other dst set_cookie_name p k h)
]

pub listed-add_cookies :
    (ctx : ResponseContext) (dst : Header) (vv : List Bytes)
    → listed (values (add_cookies ctx dst vv) set_cookie_name)
      ≡ listed (values dst set_cookie_name) ++ packed_lines ctx vv
unfolding add_cookies packed_lines
listed-add_cookies ctx dst [] = sym (append-nil _)
listed-add_cookies ctx dst (c ∷ vv) = elim (Option-cases (pack ctx c)) [
  | inl e ↦ rw (e, add_cookies, packed_lines) (listed-add_cookies ctx dst vv)
  | inr (p, e) ↦
      rw (e, add_cookies, packed_lines)
        (listed-add_cookies ctx (add dst set_cookie_name p) vv
          ∙ ap (λ r. r ++ packed_lines ctx vv) (listed-add dst set_cookie_name p)
          ∙ append_assoc (listed (values dst set_cookie_name)) (p ∷ []) (packed_lines ctx vv))
]

values-set_policy_other :
    (ctx : ResponseContext) (dst : Header) (ck policy k : Bytes)
    → eq ck k ≡ false
    → values (set_policy ctx dst ck policy) k ≡ values dst k
unfolding set_policy
values-set_policy_other ctx dst ck policy k h =
    elim (Bool-cases (eq (rewrite_csp policy ctx.nonce) [])) [
      | inl e ↦ rw e refl
      | inr e ↦ rw e (values-put_other dst ck _ k h)
    ]

-- A round for one name leaves the others alone.
pub values-copy_entry_other :
    (ctx : ResponseContext) (src dst : Header) (ck : Bytes) (vv : List Bytes) (k : Bytes)
    → eq ck k ≡ false
    → values (copy_entry ctx src dst ck vv) k ≡ values dst k
unfolding copy_entry
values-copy_entry_other ctx src dst ck vv k h =
    elim (Bool-cases (eq ck (codes "Content-Length") && not ctx.keep_length)) [
      | inl e ↦ rw e refl
      | inr e ↦ elim (Bool-cases (eq ck (codes "Content-Encoding"))) [
        | inl e1 ↦ rw (e, e1) refl
        | inr e1 ↦ elim (Bool-cases (contains location_names ck)) [
          | inl e2 ↦ rw (e, e1, e2) (values-put_other dst ck _ k h)
          | inr e2 ↦ rw (e, e1, e2) behind_location
        ]
      ]
    ]
  where
    behind_csp :
        values
          (if eq ck (codes "Strict-Transport-Security")
            then dst
            else if contains hop_by_hop ck
            then dst
            else put dst ck vv)
          k
        ≡ values dst k
    behind_csp = elim (Bool-cases (eq ck (codes "Strict-Transport-Security"))) [
      | inl e ↦ rw e refl
      | inr e ↦ elim (Bool-cases (contains hop_by_hop ck)) [
        | inl e1 ↦ rw (e, e1) refl
        | inr e1 ↦ rw (e, e1) (values-put_other dst ck vv k h)
      ]
    ]

    behind_location :
        values
          (if eq ck set_cookie_name
            then add_cookies ctx dst vv
            else if contains csp_names ck
            then set_policy ctx dst ck (get src ck)
            else if eq ck (codes "Strict-Transport-Security")
            then dst
            else if contains hop_by_hop ck
            then dst
            else put dst ck vv)
          k
        ≡ values dst k
    behind_location = elim (Bool-cases (eq ck set_cookie_name)) [
      | inl e ↦ rw e (
          values-add_cookies_other ctx dst vv k
            (ap (λ w. eq w k) (sym ((eq_iff ck set_cookie_name).0 e)) ∙ h))
      | inr e ↦ elim (Bool-cases (contains csp_names ck)) [
        | inl e1 ↦ rw (e, e1) (values-set_policy_other ctx dst ck (get src ck) k h)
        | inr e1 ↦ rw (e, e1) behind_csp
      ]
    ]
