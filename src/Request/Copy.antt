-- ===== src/Request/Copy.antt =====
-- server/internal/proxy/proxy.go: which of the client's headers are copied.
use bumshi.Common.{
  true, false, Option, none, some, List, [], ◌∷◌, ◌≡◌, inl, inr, refl, ap, ◌∙◌, Bytes, Bool-cases,
  if◌then◌else◌,
}
use bumshi.Strings.{eq}
use bumshi.Strings.Laws.{eq_iff}
use bumshi.Headers.{Header, canonical_header_key, values, put}
use bumshi.Headers.Laws.{values-put}
use bumshi.Request.{is_stripped, copy_request_headers}

-- What the client sent under a name, the last entry counting; `otherwise` if there is none.
pub sent : Header → Bytes → Option (List Bytes) → Option (List Bytes)
sent [] k otherwise = otherwise
sent ((key, vv) ∷ src) k otherwise =
    sent src k (if eq (canonical_header_key key) k then some vv else otherwise)

values-copy_on :
    (src dst : Header) (k : Bytes)
    → is_stripped k ≡ false
    → values (copy_request_headers dst src) k ≡ sent src k (values dst k)
unfolding copy_request_headers sent
values-copy_on [] dst k h = refl
values-copy_on ((key, vv) ∷ src) dst k h =
    elim (Bool-cases (is_stripped (canonical_header_key key))) [
      | inl e ↦
          let other : eq (canonical_header_key key) k ≡ false = differs e in
          values-copy_on src
            (if is_stripped (canonical_header_key key)
              then dst
              else put dst (canonical_header_key key) vv)
            k h
          ∙ ap (sent src k) (rw (e, other) refl)
      | inr e ↦
          values-copy_on src
            (if is_stripped (canonical_header_key key)
              then dst
              else put dst (canonical_header_key key) vv)
            k h
          ∙ ap (sent src k) (rw e (values-put dst (canonical_header_key key) vv k))
    ]
  where
    differs :
        is_stripped (canonical_header_key key) ≡ true → eq (canonical_header_key key) k ≡ false
    differs e = elim (Bool-cases (eq (canonical_header_key key) k)) [
      | inl same ↦ absurd (cc (e, h, ap is_stripped ((eq_iff (canonical_header_key key) k).0 same)))
      | inr other ↦ other
    ]

stripped-copy_on :
    (src dst : Header) (k : Bytes)
    → is_stripped k ≡ true
    → values (copy_request_headers dst src) k ≡ values dst k
unfolding copy_request_headers
stripped-copy_on [] dst k h = refl
stripped-copy_on ((key, vv) ∷ src) dst k h =
    stripped-copy_on src
      (if is_stripped (canonical_header_key key)
        then dst
        else put dst (canonical_header_key key) vv)
      k h
    ∙ elim (Bool-cases (is_stripped (canonical_header_key key))) [
      | inl e ↦ rw e refl
      | inr e ↦ rw e (values-put dst (canonical_header_key key) vv k ∙ rw (differs e) refl)
    ]
  where
    differs :
        is_stripped (canonical_header_key key) ≡ false → eq (canonical_header_key key) k ≡ false
    differs e = elim (Bool-cases (eq (canonical_header_key key) k)) [
      | inl same ↦ absurd (cc (e, h, ap is_stripped ((eq_iff (canonical_header_key key) k).0 same)))
      | inr other ↦ other
    ]

-- Headers that describe the relay or the client's address are not copied. Any other header has upstream
-- the values that the client sent.
pub values-copy_request_headers :
    (src : Header) (k : Bytes)
    → values (copy_request_headers [] src) k ≡ (if is_stripped k then none else sent src k none)
unfolding values
values-copy_request_headers src k = elim (Bool-cases (is_stripped k)) [
  | inl e ↦ rw e (stripped-copy_on src [] k e)
  | inr e ↦ rw e (values-copy_on src [] k e)
]
