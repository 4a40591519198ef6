-- ===== src/Request/Steps.antt =====
-- server/internal/proxy/proxy.go: what each correction of an upstream header writes.
use bumshi.Common.{
  Bool, false, not, ◌&&◌, ◌||◌, Option, none, some, [], ◌∷◌, ◌++◌, ◌≡◌, inl, inr, refl, ap, ◌∙◌,
  arith, Bytes, codes, Bool-cases, if◌then◌else◌,
}
use bumshi.Strings.{eq, equal_fold}
use bumshi.Strings.Laws.{eq_self}
use bumshi.Headers.{Header, values, set, get, first}
use bumshi.Headers.Laws.{values-put, values-del}
use bumshi.Link
use bumshi.Link.{Url, UrlLib, Decoded, ok, err}
use bumshi.Request.{
  navigates, set_fetch_dest, set_fetch_metadata, real_referer, set_referer, set_cookie, set_origin,
}

-- A header that the corrections write.
unfoldable pub is_rebuilt : Bytes → Bool
is_rebuilt k =
    eq (codes "Cookie") k
    || eq (codes "Origin") k
    || eq (codes "Referer") k
    || (eq (codes "Sec-Fetch-Dest") k || eq (codes "Sec-Fetch-Site") k)

module _ (lib : UrlLib) where
  pub values-set_cookie :
      (out : Header) (cookies k : Bytes)
      → values (set_cookie lib out cookies) k ≡ (
          if eq (codes "Cookie") k
          then (if eq cookies [] then none else some (cookies ∷ []))
          else values out k)
  unfolding set_cookie
  values-set_cookie out cookies k = elim (Bool-cases (eq cookies [])) [
    | inl e ↦ rw e (values-del out (codes "Cookie") k)
    | inr e ↦ rw e (values-put out (codes "Cookie") (cookies ∷ []) k)
  ]

  pub values-set_origin :
      (out incoming : Header) (target : Url) (k : Bytes)
      → values (set_origin lib out incoming target) k ≡ (
          if eq (codes "Origin") k && not (eq (get incoming (codes "Origin")) [])
          then some ((target.scheme ++ (codes "://" ++ target.host)) ∷ [])
          else values out k)
  unfolding set_origin
  values-set_origin out incoming target k =
      elim (Bool-cases (eq (get incoming (codes "Origin")) [])) [
        | inl e ↦ rw e (ground arith)
        | inr e ↦ rw e (values-put out (codes "Origin") _ k ∙ ground arith)
      ]

  pub values-set_referer_other :
      (out : Header) (ref k : Bytes)
      → eq (codes "Referer") k ≡ false
      → values (set_referer lib out ref) k ≡ values out k
  unfolding set_referer
  values-set_referer_other out ref k h = elim (Bool-cases (eq ref [])) [
    | inl e ↦ rw e refl
    | inr e ↦ rw e (on_parsed (lib.parse ref))
  ]
    where
      on_decoded :
          (d : Decoded)
          → values
              (elim d [ err e ↦ out | ok real ↦ set out (codes "Referer") (lib.to_string real) ])
              k
            ≡ values out k
      on_decoded (err e) = refl
      on_decoded (ok real) =
          values-put out (codes "Referer") _ k
          ∙ ap (λ b. if b then some (lib.to_string real ∷ []) else values out k) h

      on_parsed :
          (o : Option Url)
          → values
              (elim o [
                | none ↦ out
                | some u ↦ elim (Link.decode lib (lib.escaped_path u)) [
                  | err e ↦ out
                  | ok real ↦ set out (codes "Referer") (lib.to_string real)
                ]
              ])
              k
            ≡ values out k
      on_parsed none = refl
      on_parsed (some u) = on_decoded (Link.decode lib (lib.escaped_path u))

  pub values-set_referer :
      (out : Header) (ref : Bytes)
      → values out (codes "Referer") ≡ none
      → get (set_referer lib out ref) (codes "Referer") ≡ real_referer lib ref
  unfolding set_referer real_referer
  values-set_referer out ref h = elim (Bool-cases (eq ref [])) [
    | inl e ↦ rw e (ap first h)
    | inr e ↦ rw e (on_parsed (lib.parse ref))
  ]
    where
      on_decoded :
          (d : Decoded)
          → get
              (elim d [ err e ↦ out | ok real ↦ set out (codes "Referer") (lib.to_string real) ])
              (codes "Referer")
            ≡ (elim d [ err e ↦ [] | ok real ↦ lib.to_string real ])
      on_decoded (err e) = ap first h
      on_decoded (ok real) = ap first (
          values-put out (codes "Referer") (lib.to_string real ∷ []) (codes "Referer")
          ∙ ap (λ b. if b then some (lib.to_string real ∷ []) else values out (codes "Referer"))
              (eq_self (codes "Referer")))

      on_parsed :
          (o : Option Url)
          → get
              (elim o [
                | none ↦ out
                | some u ↦ elim (Link.decode lib (lib.escaped_path u)) [
                  | err e ↦ out
                  | ok real ↦ set out (codes "Referer") (lib.to_string real)
                ]
              ])
              (codes "Referer")
            ≡ (elim o [
              | none ↦ []
              | some u ↦ elim (Link.decode lib (lib.escaped_path u)) [
                | err e ↦ []
                | ok real ↦ lib.to_string real
              ]
            ])
      on_parsed none = ap first h
      on_parsed (some u) = on_decoded (Link.decode lib (lib.escaped_path u))

  pub values-set_fetch_dest :
      (out incoming : Header) (k : Bytes)
      → eq (codes "Sec-Fetch-Dest") k ≡ false
      → values (set_fetch_dest lib out incoming) k ≡ values out k
  unfolding set_fetch_dest
  values-set_fetch_dest out incoming k h =
      elim (Bool-cases (
        navigates incoming
        && (eq (get incoming (codes "Sec-Fetch-Dest")) []
            || equal_fold (get incoming (codes "Sec-Fetch-Dest")) (codes "empty")))) [
              | inl e ↦
                  rw e
                    (values-put out (codes "Sec-Fetch-Dest") (codes "document" ∷ []) k ∙ rw h refl)
              | inr e ↦ rw e refl
            ]

  pub values-set_fetch_metadata :
      (out incoming : Header) (target : Url) (referer k : Bytes)
      → eq (codes "Sec-Fetch-Dest") k ≡ false
      → eq (codes "Sec-Fetch-Site") k ≡ false
      → values (set_fetch_metadata lib out incoming target referer) k ≡ values out k
  unfolding set_fetch_metadata
  values-set_fetch_metadata out incoming target referer k hd hs =
      elim (Bool-cases (
        eq (get incoming (codes "Sec-Fetch-Mode")) []
        && eq (get incoming (codes "Sec-Fetch-Dest")) [])) [
          | inl e ↦ rw e refl
          | inr e ↦ elim (Bool-cases (eq (get incoming (codes "Sec-Fetch-Site")) [])) [
            | inl e1 ↦ rw (e, e1) (values-set_fetch_dest out incoming k hd)
            | inr e1 ↦
                rw (e, e1)
                  (values-put (set_fetch_dest lib out incoming) (codes "Sec-Fetch-Site") _ k
                    ∙ rw hs (values-set_fetch_dest out incoming k hd))
          ]
        ]
