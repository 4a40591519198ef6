-- ===== src/Cookies/Jar.antt =====
-- What of a browser's jar reaches an upstream host.
use bumshi.Common.{
  ℕ, suc, Bool, true, false, none, some, List, [], ◌∷◌, ◌++◌, append_assoc, ◌≡◌, ◌≢◌, refl, sym, ap,
  subst, ◌∙◌, arith, Bytes, length, ltb, if◌then◌else◌, inl, inr, Bool-cases, Option-cases,
}
use bumshi.Strings.{to_lower, has_prefix, contains, join}
use bumshi.Cookies.{
  NamedValue, Cookie, cookie_prefix, cookie_name_prefix, host_key, cookie_scope, scope_prefixes,
  fnv1a64, unpack_on, unpack_cookies, strip_cookie_prefix, packed, semicolon_space, scope_kind,
}
use bumshi.Cookies.Prefix.{strip_any_lem, cookie_prefix-injective}
use bumshi.Cookies.Scope.{
  Covers, scope_prefixes-IsBuilt, scope_prefixes-Covers, cookie_scope-Covers,
  contains-scope_prefixes,
}

-- One `name=value` of an upstream Cookie header, for each cookie that has one of the prefixes.
pub pairs : List Bytes → List NamedValue → List Bytes
pairs ps [] = []
pairs ps ((name, value) ∷ jar) =
    let more = pairs ps jar in
    elim (strip_cookie_prefix name ps) [ none ↦ more | some n ↦ (n ++ (b'=' ∷ value)) ∷ more ]

join-cons_append :
    (a b : Bytes) (ps : List Bytes) (sep : Bytes)
    → join ((a ++ b) ∷ ps) sep ≡ a ++ join (b ∷ ps) sep
unfolding join
join-cons_append a b [] sep = refl
join-cons_append a b (q ∷ ps) sep = append_assoc a b _

ltb_zero_suc : (n : ℕ) → ltb 0 (suc n) ≡ true
ltb_zero_suc n = ground arith

unpack_on-cons :
    (ps : List Bytes) (jar : List NamedValue) (c : ℕ) (out : Bytes)
    → unpack_on ps jar (c ∷ out) ≡ join ((c ∷ out) ∷ pairs ps jar) semicolon_space
unfolding unpack_on pairs
unpack_on-cons ps [] c out = unfold join in refl
unpack_on-cons ps ((name, value) ∷ jar) c out = elim (Option-cases (strip_cookie_prefix name ps)) [
  | inl e ↦ rw (e, pairs) (unpack_on-cons ps jar c out)
  | inr (n, e) ↦
      rw (e, pairs)
        (rw (ltb_zero_suc (length out)) (
          unpack_on-cons ps jar c ((out ++ semicolon_space) ++ (n ++ (b'=' ∷ value)))
          ∙ join-cons_append ((c ∷ out) ++ semicolon_space) (n ++ (b'=' ∷ value)) (pairs ps jar)
              semicolon_space
          ∙ unfold join in append_assoc (c ∷ out) semicolon_space _))
]

unpack_on-nil :
    (ps : List Bytes) (jar : List NamedValue)
    → unpack_on ps jar [] ≡ join (pairs ps jar) semicolon_space
unfolding unpack_on pairs
unpack_on-nil ps [] = unfold join in refl
unpack_on-nil ps ((name, value) ∷ jar) = elim (Option-cases (strip_cookie_prefix name ps)) [
  | inl e ↦ rw (e, pairs) (unpack_on-nil ps jar)
  | inr ([], e) ↦ rw (e, pairs) (unpack_on-cons ps jar _ _)
  | inr (d ∷ n, e) ↦ rw (e, pairs) (unpack_on-cons ps jar _ _)
]

strip_any-nil : (name : Bytes) → strip_cookie_prefix name [] ≡ none
unfolding strip_cookie_prefix
strip_any-nil name = elim (Bool-cases (has_prefix name cookie_name_prefix)) [
  | inl e ↦ rw e
  | inr e ↦ rw e
]

pairs-nil : (jar : List NamedValue) → pairs [] jar ≡ []
unfolding pairs
pairs-nil [] = refl
pairs-nil ((name, value) ∷ jar) = rw (strip_any-nil name, pairs) (pairs-nil jar)

-- The header that `unpackCookies` builds is the selected cookies, under their original names,
-- joined by "; ".
pub unpack_cookies-join :
    (jar : List NamedValue) (host : Bytes)
    → unpack_cookies jar host ≡ join (pairs (scope_prefixes host) jar) semicolon_space
unfolding unpack_cookies
unpack_cookies-join jar host = by_prefixes (scope_prefixes host)
  where
    by_prefixes :
        (ps : List Bytes)
        → (elim ps as (λ x. Bytes) [ [] ↦ [] | p ∷ qs ↦ unpack_on (p ∷ qs) jar [] ])
          ≡ join (pairs ps jar) semicolon_space
    by_prefixes [] = rw (pairs-nil jar) (unfold join in refl)
    by_prefixes (p ∷ qs) = unpack_on-nil (p ∷ qs) jar

pairs-append :
    (ps : List Bytes) (before after : List NamedValue)
    → pairs ps (before ++ after) ≡ pairs ps before ++ pairs ps after
unfolding pairs
pairs-append ps [] after = refl
pairs-append ps ((name, value) ∷ jar) after = elim (Option-cases (strip_cookie_prefix name ps)) [
  | inl e ↦ rw (e, pairs) (pairs-append ps jar after)
  | inr (n, e) ↦ rw (e, pairs) (ap (λ r. (n ++ (b'=' ∷ value)) ∷ r) (pairs-append ps jar after))
]

pairs-cons_none :
    (ps : List Bytes) (name value : Bytes) (jar : List NamedValue)
    → strip_cookie_prefix name ps ≡ none
    → pairs ps ((name, value) ∷ jar) ≡ pairs ps jar
unfolding pairs
pairs-cons_none ps name value jar e = rw (e, pairs)

pairs-cons_some :
    (ps : List Bytes) (name value n : Bytes) (jar : List NamedValue)
    → strip_cookie_prefix name ps ≡ some n
    → pairs ps ((name, value) ∷ jar) ≡ (n ++ (b'=' ∷ value)) ∷ pairs ps jar
unfolding pairs
pairs-cons_some ps name value n jar e = rw (e, pairs)

-- A cookie whose name is not taken apart leaves no trace in the header.
dropped :
    (before after : List NamedValue) (name value host : Bytes)
    → strip_cookie_prefix name (scope_prefixes host) ≡ none
    → unpack_cookies (before ++ ((name, value) ∷ after)) host
      ≡ unpack_cookies (before ++ after) host
dropped before after name value host e =
    simp (unpack_cookies-join, pairs-append, pairs-cons_none _ name value after e)

-- A cookie whose name does not begin with the packing prefix never reaches a target, whatever
-- else is in the jar.
pub unpack_cookies_unmarked :
    (before after : List NamedValue) (name value host : Bytes)
    → has_prefix name cookie_name_prefix ≡ false
    → unpack_cookies (before ++ ((name, value) ∷ after)) host
      ≡ unpack_cookies (before ++ after) host
unpack_cookies_unmarked before after name value host e =
    dropped before after name value host (unfold strip_cookie_prefix in rw e)

scope_kind-injective : (m k : Bool) → scope_kind m ≡ scope_kind k → m ≡ k
scope_kind-injective m k e = ground arith

marked :
    (s : Bytes) (m : Bool) (n : Bytes)
    → has_prefix (cookie_prefix s m ++ n) cookie_name_prefix ≡ true
unfolding cookie_prefix has_prefix
marked s m n = refl

strip_packed :
    (s : Bytes) (m : Bool) (n host : Bytes)
    → n ≢ []
    → strip_cookie_prefix (cookie_prefix s m ++ n) (scope_prefixes host)
      ≡ (if contains (scope_prefixes host) (cookie_prefix s m) then some n else none)
unfolding strip_cookie_prefix
strip_packed s m n host ne =
    rw (marked s m n) (strip_any_lem s m n (scope_prefixes host) ne (scope_prefixes-IsBuilt host))

-- A packed cookie is not sent to a host that its scope does not cover, provided that no scope
-- covering that host collides with it under the 64-bit hash.
pub unpack_cookies_isolated :
    (before after : List NamedValue) (s : Bytes) (m : Bool) (n value host : Bytes)
    → n ≢ []
    → ((t : Bytes) (k : Bool)
        → Covers t k (host_key host)
        → fnv1a64 (to_lower s) ≡ fnv1a64 (to_lower t)
        → s ≡ t)
    → ¬ (Covers s m (host_key host))
    → unpack_cookies (before ++ ((cookie_prefix s m ++ n, value) ∷ after)) host
      ≡ unpack_cookies (before ++ after) host
unpack_cookies_isolated before after s m n value host ne collision_free uncovered =
    dropped before after _ value host
      (elim (Bool-cases (contains (scope_prefixes host) (cookie_prefix s m))) [
        | inl listed ↦ absurd (uncovered (covered listed))
        | inr missing ↦ strip_packed s m n host ne ∙ rw missing
      ])
  where
    covered : contains (scope_prefixes host) (cookie_prefix s m) ≡ true → Covers s m (host_key host)
    covered listed =
        let (t, k, built, covers) = scope_prefixes-Covers host _ listed in
        let (hashes, kinds) = cookie_prefix-injective s t m k built in
        subst (λ u. Covers s u (host_key host)) (sym (scope_kind-injective m k kinds))
          (subst (λ u. Covers u k (host_key host)) (sym (collision_free t k covers hashes)) covers)

-- A cookie that `packSetCookie` stored for a host is sent back to it under its own name and value,
-- in its place among the others of the jar.
pub unpack_cookies-packed :
    (before after : List NamedValue) (c : Cookie) (host : Bytes) (secure : Bool)
    → c.name ≢ []
    → host_key host ≢ []
    → unpack_cookies
        (before ++ (((packed c host secure).name, (packed c host secure).value) ∷ after))
        host
      ≡ join
          (pairs (scope_prefixes host) before
            ++ ((c.name ++ (b'=' ∷ c.value)) ∷ pairs (scope_prefixes host) after))
          semicolon_space
unfolding packed
unpack_cookies-packed before after c host secure ne named =
    unpack_cookies-join _ host
    ∙ ap (λ r. join r semicolon_space)
        (pairs-append _ before _
          ∙ ap (λ r. pairs (scope_prefixes host) before ++ r)
              (pairs-cons_some (scope_prefixes host) _ c.value c.name after strip_own_scope))
  where
    strip_own_scope :
        strip_cookie_prefix
          (cookie_prefix (cookie_scope c.domain host).0 (cookie_scope c.domain host).1 ++ c.name)
          (scope_prefixes host)
        ≡ some c.name
    strip_own_scope =
        strip_packed _ _ c.name host ne
        ∙ rw (
            contains-scope_prefixes _ _ host named (cookie_scope-Covers c.domain host).0
              (cookie_scope-Covers c.domain host).1)
