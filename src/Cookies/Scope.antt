-- ===== src/Cookies/Scope.antt =====
-- Which hosts a scope covers, and that the scopes enumerated for a host are those that cover it.
use bumshi.Common.{
  ℕ, ◌-◌, ◌≤◌, Bool, true, false, ◌||◌, [], ◌∷◌, ◌++◌, ◌≡◌, ◌≢◌, ◌⊎◌, refl, sym, ap, arith, Bytes,
  ltb, ◌==◌, inl, inr, Bool-cases, ||_cases, ==_iff, ==_self, suc, All,
}
use bumshi.Strings.{has_suffix, contains, eq, count}
use bumshi.Strings.Laws.{eq_iff, eq_self, count-append, has_suffix-split}
use bumshi.Cookies.{
  cookie_prefix, host_key, domain_key, scope_of, cookie_scope, parent_prefixes, scope_prefixes,
}
use bumshi.Cookies.Prefix.{IsBuilt}

-- A host-only scope covers its own host; a domain scope covers its host and the hosts below it.
abbrev pub Covers : Bytes → Bool → Bytes → Type 0
Covers scope false h = scope ≡ h
Covers scope true h = (scope ≡ h) ⊎ ((r : Bytes) × (h ≡ r ++ (b'.' ∷ scope)))

parent_prefixes-IsBuilt : (s : Bytes) → All IsBuilt (parent_prefixes s)
unfolding parent_prefixes
parent_prefixes-IsBuilt [] = tt
parent_prefixes-IsBuilt (c ∷ rest) = elim (Bool-cases (c == b'.')) [
  | inl dot ↦ rw dot (elim (Bool-cases (ltb (count rest b'.') (2 - 1))) [
    | inl few ↦ rw few tt
    | inr enough ↦ rw enough ((rest, true, refl), parent_prefixes-IsBuilt rest)
  ])
  | inr other ↦ rw other (parent_prefixes-IsBuilt rest)
]

pub scope_prefixes-IsBuilt : (host : Bytes) → All IsBuilt (scope_prefixes host)
unfolding scope_prefixes
scope_prefixes-IsBuilt host = elim (Bool-cases (eq (host_key host) [])) [
  | inl e ↦ rw e tt
  | inr e ↦ rw e (
    (host_key host, false, refl),
    ((host_key host, true, refl), parent_prefixes-IsBuilt (host_key host)),
  )
]

abbrev BelowDot : Bytes → Bytes → Type 0
BelowDot s p = (t : Bytes) × (p ≡ cookie_prefix t true) × ((r : Bytes) × (s ≡ r ++ (b'.' ∷ t)))

longer : (c : ℕ) (rest p : Bytes) → BelowDot rest p → BelowDot (c ∷ rest) p
longer c rest p (t, e, (r, split)) = (t, e, (c ∷ r, ap (λ u. c ∷ u) split))

parent_prefixes-Covers : (s p : Bytes) → contains (parent_prefixes s) p ≡ true → BelowDot s p
unfolding parent_prefixes contains
parent_prefixes-Covers [] p h = cc
parent_prefixes-Covers (c ∷ rest) p h = elim (Bool-cases (c == b'.')) [
  | inl dot ↦ elim (Bool-cases (ltb (count rest b'.') (2 - 1))) [
    | inl few ↦ absurd (cc (rw (dot, few) at h))
    | inr enough ↦ elim (||_cases (eq (cookie_prefix rest true) p) _ (rw (dot, enough) at h)) [
      | inl here ↦
          (rest, sym ((eq_iff _ _).0 here), ([], ap (λ d. d ∷ rest) ((==_iff c b'.').0 dot)))
      | inr there ↦ longer c rest p (parent_prefixes-Covers rest p there)
    ]
  ]
  | inr other ↦ longer c rest p (parent_prefixes-Covers rest p (rw other at h))
]

-- Every prefix that `scopePrefixes` lists is that of a scope which covers the host.
pub scope_prefixes-Covers :
    (host p : Bytes)
    → contains (scope_prefixes host) p ≡ true
    → (t : Bytes) × (k : Bool) × (p ≡ cookie_prefix t k) × Covers t k (host_key host)
unfolding scope_prefixes contains
scope_prefixes-Covers host p h = elim (Bool-cases (eq (host_key host) [])) [
  | inl e ↦ absurd (cc (rw e at h))
  | inr e ↦ elim (||_cases (eq (cookie_prefix (host_key host) false) p) _ (rw e at h)) [
    | inl only ↦ (host_key host, false, sym ((eq_iff _ _).0 only), refl)
    | inr more ↦ elim (||_cases (eq (cookie_prefix (host_key host) true) p) _ more) [
      | inl own ↦ (host_key host, true, sym ((eq_iff _ _).0 own), inl refl)
      | inr parent ↦
          let (t, built, below) = parent_prefixes-Covers (host_key host) p parent in
          (t, true, built, inr below)
    ]
  ]
]

contains-parent_prefixes :
    (r t : Bytes)
    → 1 ≤ count t b'.'
    → contains (parent_prefixes (r ++ (b'.' ∷ t))) (cookie_prefix t true) ≡ true
unfolding parent_prefixes contains
contains-parent_prefixes [] t h = ground (arith, eq_self (cookie_prefix t true))
contains-parent_prefixes (c ∷ r) t h =
    ground
      (arith, count-append r (b'.' ∷ t) b'.', contains-parent_prefixes r t h, ==_self b'.', more)
  where
    more : count (b'.' ∷ t) b'.' ≡ suc (count t b'.')
    more = unfold count in refl

-- The two outcomes of `cookieScope`: the host alone, or a Domain of two labels that covers it.
scope_of_cases :
    (d h : Bytes)
    → (scope_of d h ≡ (h, false))
      ⊎ ((scope_of d h ≡ (d, true)) × (1 ≤ count d b'.') × Covers d true h)
unfolding scope_of
scope_of_cases d h = elim (Bool-cases (eq d [] || ltb (count d b'.') (2 - 1))) [
  | inl refused ↦ inl (rw refused)
  | inr enough ↦ elim (Bool-cases (eq d h)) [
    | inl same ↦ inr (rw (enough, same), ground arith, inl ((eq_iff d h).0 same))
    | inr differs ↦ elim (Bool-cases (has_suffix h (b'.' ∷ d))) [
      | inl below ↦
          inr (rw (enough, differs, below), ground arith, inr (has_suffix-split h _ below))
      | inr apart ↦ inl (rw (enough, differs, apart))
    ]
  ]
]

-- A cookie's scope covers the host that set it, and has two labels or more if it is a domain scope.
pub cookie_scope-Covers :
    (domain_attr host : Bytes)
    → Covers (cookie_scope domain_attr host).0 (cookie_scope domain_attr host).1 (host_key host)
      × ((cookie_scope domain_attr host).1 ≡ true
          → 1 ≤ count (cookie_scope domain_attr host).0 b'.')
unfolding cookie_scope
cookie_scope-Covers domain_attr host =
    elim (scope_of_cases (domain_key domain_attr) (host_key host)) [
      | inl e ↦ rw e (refl, λ t. absurd (cc t))
      | inr (e, labels, covers) ↦ rw e (covers, λ t. labels)
    ]

contains-Covers :
    (s h : Bytes)
    → 1 ≤ count s b'.'
    → Covers s true h
    → contains (cookie_prefix h true ∷ parent_prefixes h) (cookie_prefix s true) ≡ true
unfolding contains
contains-Covers s h labels (inl same) = ground (arith, eq_self (cookie_prefix s true))
contains-Covers s h labels (inr (r, split)) =
    rw split (ground (arith, contains-parent_prefixes r s labels))

-- The prefix of a scope that covers the host is among those of the host.
pub contains-scope_prefixes :
    (s : Bytes) (m : Bool) (host : Bytes)
    → host_key host ≢ []
    → Covers s m (host_key host)
    → (m ≡ true → 1 ≤ count s b'.')
    → contains (scope_prefixes host) (cookie_prefix s m) ≡ true
unfolding scope_prefixes
contains-scope_prefixes s m host ne covers labels = elim (Bool-cases (eq (host_key host) [])) [
  | inl empty ↦ absurd (ne ((eq_iff _ _).0 empty))
  | inr named ↦ rw named (unfold contains in by_kind m covers labels)
]
  where
    by_kind :
        (m : Bool)
        → Covers s m (host_key host)
        → (m ≡ true → 1 ≤ count s b'.')
        → (eq (cookie_prefix (host_key host) false) (cookie_prefix s m)
            || contains
                (cookie_prefix (host_key host) true ∷ parent_prefixes (host_key host))
                (cookie_prefix s m))
          ≡ true
    by_kind false c l = ground (
      arith,
      eq_self (cookie_prefix s false),
      ap (λ u. eq (cookie_prefix u false) (cookie_prefix s false)) c,
    )
    by_kind true c l = ground (arith, contains-Covers s (host_key host) (l refl) c)
