-- ===== src/Telemetry/Laws.antt =====
-- server/internal/proxy/telemetry.go: which targets are beacons.
use bumshi.Common.{
  Bool, true, false, not, ◌&&◌, ◌||◌, List, [], ◌∷◌, ◌++◌, ◌≡◌, ◌↔◌, ◌⊎◌, inl, inr, refl, ap, ◌∙◌,
  arith, Bytes, Bool-cases, ||_cases, if◌then◌else◌,
}
use bumshi.Strings.{eq, has_prefix, has_suffix, to_lower, trim_suffix_byte}
use bumshi.Strings.Laws.{eq_iff, has_suffix-append, has_suffix-split}
use bumshi.Link.{Url, UrlLib}
use bumshi.Telemetry.{
  TelemetryRule, telemetry_sinks, host_matches, rule_matches, any_rule, is_telemetry_sink,
}

-- A host matches a domain exactly when it is that domain or ends in a dot and that domain, so that no
-- host matches that only ends in the same letters.
pub host_matches_iff :
    (host suffix : Bytes)
    → (host_matches host suffix ≡ true)
      ↔ ((host ≡ suffix) ⊎ ((r : Bytes) × (host ≡ r ++ (b'.' ∷ suffix))))
unfolding host_matches
host_matches_iff host suffix = (to_parts, from_parts)
  where
    to_parts :
        (eq host suffix || has_suffix host (b'.' ∷ suffix)) ≡ true
        → (host ≡ suffix) ⊎ ((r : Bytes) × (host ≡ r ++ (b'.' ∷ suffix)))
    to_parts h = elim (||_cases (eq host suffix) _ h) [
      | inl e ↦ inl ((eq_iff host suffix).0 e)
      | inr e ↦ inr (has_suffix-split host (b'.' ∷ suffix) e)
    ]

    from_parts :
        (host ≡ suffix) ⊎ ((r : Bytes) × (host ≡ r ++ (b'.' ∷ suffix)))
        → (eq host suffix || has_suffix host (b'.' ∷ suffix)) ≡ true
    from_parts (inl e) = ground (arith, (eq_iff host suffix).1 e)
    from_parts (inr (r, e)) =
        let found : has_suffix host (b'.' ∷ suffix) ≡ true =
          ap (λ w. has_suffix w (b'.' ∷ suffix)) e ∙ has_suffix-append r (b'.' ∷ suffix) in
        ground (arith, found)

-- A rule of the table that a host and a path satisfy.
abbrev pub Satisfies : TelemetryRule → Bytes → Bytes → Type 0
Satisfies r host path =
    ((r.host_suffix ≡ [])
      ⊎ ((host ≡ r.host_suffix) ⊎ ((p : Bytes) × (host ≡ p ++ (b'.' ∷ r.host_suffix)))))
    × (((r.exact_path ≡ true) × (path ≡ r.path_prefix))
        ⊎ ((r.exact_path ≡ false) × (has_prefix path r.path_prefix ≡ true)))

abbrev pub AnySatisfied : List TelemetryRule → Bytes → Bytes → Type 0
AnySatisfied [] host path = ⊥
AnySatisfied (r ∷ rules) host path = Satisfies r host path ⊎ AnySatisfied rules host path

path_test_iff :
    (exact : Bool) (path p : Bytes)
    → ((if exact then eq path p else has_prefix path p) ≡ true)
      ↔ (((exact ≡ true) × (path ≡ p)) ⊎ ((exact ≡ false) × (has_prefix path p ≡ true)))
path_test_iff true path p = (λ h. inl (refl, (eq_iff path p).0 h), from)
  where
    from :
        ((true ≡ true) × (path ≡ p)) ⊎ ((true ≡ false) × (has_prefix path p ≡ true))
        → eq path p ≡ true
    from (inl (t, e)) = (eq_iff path p).1 e
    from (inr (t, e)) = absurd (cc t)
path_test_iff false path p = (λ h. inr (refl, h), from)
  where
    from :
        ((false ≡ true) × (path ≡ p)) ⊎ ((false ≡ false) × (has_prefix path p ≡ true))
        → has_prefix path p ≡ true
    from (inl (t, e)) = absurd (cc t)
    from (inr (t, e)) = e

rule_matches_iff :
    (r : TelemetryRule) (host path : Bytes)
    → (rule_matches r host path ≡ true) ↔ Satisfies r host path
unfolding rule_matches
rule_matches_iff r host path = (to, from)
  where
    on_path : Bool
    on_path = if r.exact_path then eq path r.path_prefix else has_prefix path r.path_prefix

    to :
        (if not (eq r.host_suffix []) && not (host_matches host r.host_suffix)
            then false
            else on_path)
          ≡ true
        → Satisfies r host path
    to h = elim (Bool-cases (eq r.host_suffix [])) [
      | inl e ↦ (
        inl ((eq_iff r.host_suffix []).0 e),
        (path_test_iff r.exact_path path r.path_prefix).0 (rw e at h),
      )
      | inr e ↦ elim (Bool-cases (host_matches host r.host_suffix)) [
        | inl m ↦ (
          inr ((host_matches_iff host r.host_suffix).0 m),
          (path_test_iff r.exact_path path r.path_prefix).0 (rw (e, m) at h),
        )
        | inr m ↦ absurd (cc (rw (e, m) at h))
      ]
    ]

    from :
        Satisfies r host path
        → (if not (eq r.host_suffix []) && not (host_matches host r.host_suffix)
            then false
            else on_path)
          ≡ true
    from (inl any, p) =
        let e = (eq_iff r.host_suffix []).1 any in
        rw e ((path_test_iff r.exact_path path r.path_prefix).1 p)
    from (inr m, p) = elim (Bool-cases (eq r.host_suffix [])) [
      | inl e ↦ rw e ((path_test_iff r.exact_path path r.path_prefix).1 p)
      | inr e ↦
          let hit = (host_matches_iff host r.host_suffix).1 m in
          rw (e, hit) ((path_test_iff r.exact_path path r.path_prefix).1 p)
    ]

any_rule_iff :
    (rules : List TelemetryRule) (host path : Bytes)
    → (any_rule rules host path ≡ true) ↔ AnySatisfied rules host path
unfolding any_rule
any_rule_iff [] host path = (λ h. cc h, λ h. absurd h)
any_rule_iff (r ∷ rules) host path =
    (to (any_rule_iff rules host path), from (any_rule_iff rules host path))
  where
    to :
        ((any_rule rules host path ≡ true) ↔ AnySatisfied rules host path)
        → (rule_matches r host path || any_rule rules host path) ≡ true
        → AnySatisfied (r ∷ rules) host path
    to rest h = elim (||_cases (rule_matches r host path) _ h) [
      | inl e ↦ inl ((rule_matches_iff r host path).0 e)
      | inr e ↦ inr (rest.0 e)
    ]

    from :
        ((any_rule rules host path ≡ true) ↔ AnySatisfied rules host path)
        → AnySatisfied (r ∷ rules) host path
        → (rule_matches r host path || any_rule rules host path) ≡ true
    from rest (inl h) = ground (arith, (rule_matches_iff r host path).1 h)
    from rest (inr h) = ground (arith, rest.1 h)

-- A target is answered locally exactly when one rule of the table names its host, or a domain that the
-- host is in, and its escaped path or a text that the path begins with.
pub is_telemetry_sink_iff :
    (lib : UrlLib) (target : Url)
    → (is_telemetry_sink lib target ≡ true)
      ↔ AnySatisfied telemetry_sinks
          (to_lower (trim_suffix_byte (lib.hostname target) b'.'))
          (lib.escaped_path target)
unfolding is_telemetry_sink
is_telemetry_sink_iff lib target = any_rule_iff telemetry_sinks _ _
