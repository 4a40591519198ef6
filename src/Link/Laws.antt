-- ===== src/Link/Laws.antt =====
-- Encoding and decoding of proxy links, and what `Resolve` returns.
use bumshi.Common.{
  ◌||◌, not, Bool, true, false, Option, none, some, [], ◌∷◌, ◌++◌, append-nil, ◌≡◌, ◌≢◌, ◌⊎◌, inl,
  inr, refl, ap, subst, ◌∙◌, Bytes, take, length, Bool-cases, Option-cases, Lacks,
}
use bumshi.Strings.{to_lower, eq, trim_prefix, trim_space}
use bumshi.Strings.Laws.{eq_iff, trim_prefix-append, index_byte-append, index_byte-Lacks}
use bumshi.Base64
use bumshi.Base64.{url_alphabet}
use bumshi.Base64.RoundTrip.{IsBytes, decode-encode, encode-Lacks, encode-ne-nil}
use bumshi.Link.{
  Url, UrlLib, ok, err, LinkError, prefix, encode_string, is_http, first_segment, token_of,
  check_url, encode, decode_token, decode, decode_request, begins_with_any, non_navigational,
}

-- What may stand behind the token: nothing, or further segments.
abbrev pub IsExtra : Bytes → Type 0
IsExtra extra = (extra ≡ []) ⊎ ((more : Bytes) × (extra ≡ b'/' ∷ more))

take-length_append : (s t : Bytes) → take (length s) (s ++ t) ≡ s
take-length_append [] t = refl
take-length_append (c ∷ s) t = ap (λ r. c ∷ r) (take-length_append s t)

first_segment_whole : (t : Bytes) → Lacks b'/' t → first_segment t ≡ t
unfolding first_segment
first_segment_whole t lacks = rw (index_byte-Lacks t b'/' lacks, first_segment)

first_segment_cut : (t more : Bytes) → Lacks b'/' t → first_segment (t ++ (b'/' ∷ more)) ≡ t
unfolding first_segment
first_segment_cut t more lacks =
    rw (index_byte-append t more b'/' lacks, first_segment) (take-length_append t (b'/' ∷ more))

first_segment-append :
    (t extra : Bytes) → Lacks b'/' t → IsExtra extra → first_segment (t ++ extra) ≡ t
first_segment-append t extra lacks (inl e) =
    ap (λ x. first_segment (t ++ x)) e
    ∙ ap first_segment (append-nil t)
    ∙ first_segment_whole t lacks
first_segment-append t extra lacks (inr (more, e)) =
    ap (λ x. first_segment (t ++ x)) e ∙ first_segment_cut t more lacks

-- The token is the text between the prefix and the next slash.
pub token_of-append :
    (t extra : Bytes) → Lacks b'/' t → IsExtra extra → token_of (prefix ++ (t ++ extra)) ≡ t
token_of-append t extra lacks x =
    token_of_lem (prefix ++ (t ++ extra))
    ∙ ap first_segment (trim_prefix-append prefix (t ++ extra))
    ∙ first_segment-append t extra lacks x
  where
    token_of_lem : (path : Bytes) → token_of path ≡ first_segment (trim_prefix path prefix)
    token_of_lem path = unfold token_of in refl

-- A URL as `Decode` may return it.
pub record IsTarget (u : Url) : Type 0 where
  pub http : is_http u.scheme ≡ true
  pub named : u.host ≢ []

check_url-IsTarget : (o : Option Url) {u : Url} → check_url o ≡ ok u → (o ≡ some u) × IsTarget u
unfolding check_url
check_url-IsTarget none h = cc
check_url-IsTarget (some v) {u} h = elim (Bool-cases (is_http v.scheme)) [
  | inl http ↦ elim (Bool-cases (eq v.host [])) [
    | inl empty ↦ absurd (cc (rw (http, empty) at h))
    | inr named ↦
        let same : ok v ≡ ok u = rw (http, named) at h in
        let e : v ≡ u = cc same in
        (
          ap some e,
          record {
            http = subst (λ w. is_http w.scheme ≡ true) e http;
            named = λ none_left.
                cc (named, (eq_iff v.host []).1 (ap (λ (w : Url). w.host) e ∙ none_left));
          },
        )
  ]
  | inr other ↦ absurd (cc (rw other at h))
]

module _ (lib : UrlLib) where
  -- A link made of any text leads back to that text, whatever segments follow the token: decoding
  -- it is parsing the text and checking the scheme and the host.
  pub decode-encode_string :
      (raw extra : Bytes)
      → raw ≢ []
      → IsBytes raw
      → IsExtra extra
      → decode lib (encode_string raw ++ extra) ≡ check_url (lib.parse raw)
  unfolding decode encode_string
  decode-encode_string raw extra ne bytes x =
      rw (token_of-append (Base64.encode url_alphabet raw) extra (encode-Lacks raw) x, not_empty)
        (rw (decode-encode url_alphabet raw (inl refl) bytes, decode_token))
    where
      not_empty : eq (Base64.encode url_alphabet raw) [] ≡ false
      not_empty = elim (Bool-cases (eq (Base64.encode url_alphabet raw) [])) [
        | inl e ↦ absurd (encode-ne-nil url_alphabet raw ne ((eq_iff _ _).0 e))
        | inr e ↦ e
      ]

  -- Whatever path is decoded, a target is http or https and has a host.
  pub decode-IsTarget : (path : Bytes) {u : Url} → decode lib path ≡ ok u → IsTarget u
  unfolding decode
  decode-IsTarget path h = elim (Bool-cases (eq (token_of path) [])) [
    | inl e ↦ absurd (cc (rw e at h))
    | inr e ↦ elim (Option-cases (Base64.decode url_alphabet (token_of path))) [
      | inl bad ↦ absurd (cc (rw (e, bad, decode_token) at h))
      | inr (raw, good) ↦ (check_url-IsTarget (lib.parse raw) (rw (e, good, decode_token) at h)).1
    ]
  ]

  -- A reference that leads nowhere: blank, of a scheme that is no page, unparsed, or joined with the
  -- base to a URL that is not http or https.
  unfoldable pub is_kept : Url → Bytes → Bool
  unfolding is_http
  is_kept base ref =
      eq (trim_space ref) []
      || begins_with_any (to_lower (trim_space ref)) non_navigational
      || elim (lib.parse (trim_space ref)) [
        | none ↦ true
        | some u ↦ not (is_http (lib.resolve_reference base u).scheme)
      ]

  -- A request's own query replaces the target's query and nothing else, and without one the target
  -- is that of the path; a path that is no link is an error either way.
  pub decode_request_lem :
      (path query : Bytes)
      → ((e : LinkError) → decode lib path ≡ err e → decode_request lib path query ≡ err e)
        × ((u : Url) → decode lib path ≡ ok u → decode_request lib path [] ≡ ok u)
        × ((u : Url)
            → decode lib path ≡ ok u
            → query ≢ []
            → decode_request lib path query
              ≡ ok (record u { raw_query = query; force_query = false }))
  unfolding decode_request
  decode_request_lem path query =
      (λ e h. rw h, λ u h. rw h (unfold eq in refl), λ u h ne. rw (h, differs ne))
    where
      differs : query ≢ [] → eq query [] ≡ false
      differs ne = elim (Bool-cases (eq query [])) [
        | inl e ↦ absurd (ne ((eq_iff _ _).0 e))
        | inr e ↦ e
      ]
