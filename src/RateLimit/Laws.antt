-- ===== src/RateLimit/Laws.antt =====
-- server/internal/auth/ratelimit.go: how many attempts a window lets through.
use bumshi.Common.{
  ℕ, suc, ◌+◌, ◌-◌, ◌≤◌, Bool, true, false, none, some, List, [], ◌∷◌, ◌≡◌, inl, inr, refl, sym,
  subst, ◌∙◌, arith, Bytes, ltb, Bool-cases, Option-cases, All, if◌then◌else◌,
}
use bumshi.Strings.{eq}
use bumshi.Strings.Laws.{eq_iff, eq_self}
use bumshi.Maps.{lookup}
use bumshi.Maps.Laws.{lookup-insert, lookup-insert_other}
use bumshi.RateLimit.{HitWindow, RateLimiter, open_window, count_hit, allow}

-- An attempt: its time and its key.
abbrev pub Attempt : Type 0
Attempt = ℕ × Bytes

-- How many of the attempts are of the key and get through, one after the other.
unfoldable pub granted : RateLimiter → Bytes → List Attempt → ℕ
unfolding allow eq
granted r key [] = 0
granted r key ((now, k) ∷ attempts) =
    let further = granted (allow r now k).0 key attempts in
    if eq k key then (if (allow r now k).1 then suc further else further) else further

abbrev pub Until : ℕ → List Attempt → Type 0
Until end = All (λ a. a.0 ≤ end)

limit-allow : (r : RateLimiter) (now : ℕ) (k : Bytes) → (allow r now k).0.limit ≡ r.limit
unfolding allow open_window count_hit
limit-allow r now k = elim (Option-cases (lookup r.hits k)) [
  | inl e ↦ rw (e, allow) refl
  | inr (w, e) ↦ elim (Bool-cases (ltb w.reset now)) [
    | inl e1 ↦ rw (e, allow) (rw e1 refl)
    | inr e1 ↦ rw (e, allow) (rw e1 refl)
  ]
]

allow_other :
    (r : RateLimiter) (now : ℕ) (k key : Bytes)
    → eq k key ≡ false
    → lookup (allow r now k).0.hits key ≡ lookup r.hits key
unfolding allow open_window count_hit
allow_other r now k key h = elim (Option-cases (lookup r.hits k)) [
  | inl e ↦ rw (e, allow) (lookup-insert_other r.hits k _ key h)
  | inr (w, e) ↦ elim (Bool-cases (ltb w.reset now)) [
    | inl e1 ↦ rw (e, allow) (rw e1 (lookup-insert_other r.hits k _ key h))
    | inr e1 ↦ rw (e, allow) (rw e1 (lookup-insert_other r.hits k _ key h))
  ]
]

allow_within :
    (r : RateLimiter) (now : ℕ) (key : Bytes) (w : HitWindow)
    → lookup r.hits key ≡ some w
    → now ≤ w.reset
    → allow r now key ≡ count_hit r key w
unfolding allow
allow_within r now key w e le =
    let inside : ltb w.reset now ≡ false = ground arith in rw (e, allow) (rw inside refl)

granted_same :
    (attempts : List Attempt) (r : RateLimiter) (now : ℕ) (key : Bytes)
    → granted r key ((now, key) ∷ attempts) ≡ (
        if (allow r now key).1
        then suc (granted (allow r now key).0 key attempts)
        else granted (allow r now key).0 key attempts)
unfolding granted
granted_same attempts r now key = rw (eq_self key, granted) refl

-- In an open window no more attempts get through than its count leaves of the limit.
granted_within :
    (attempts : List Attempt) (r : RateLimiter) (key : Bytes) (w : HitWindow)
    → lookup r.hits key ≡ some w
    → Until w.reset attempts
    → granted r key attempts ≤ r.limit - w.count
unfolding granted count_hit
granted_within [] r key w e h = omega arith
granted_within ((now, k) ∷ attempts) r key w e (le, h) = elim (Bool-cases (eq k key)) [
  | inl same ↦
      let next = (count_hit r key w).0 in
      let rest =
        granted_within attempts next key (record { count = suc w.count; reset = w.reset })
          (lookup-insert r.hits key (record { count = suc w.count; reset = w.reset })) h in
      subst (λ x. granted r key ((now, x) ∷ attempts) ≤ r.limit - w.count)
        (sym ((eq_iff k key).0 same))
        (subst (λ n. n ≤ r.limit - w.count) (sym (granted_same attempts r now key))
          (subst
            (λ s.
              (if s.1 then suc (granted s.0 key attempts) else granted s.0 key attempts)
              ≤ r.limit - w.count)
            (sym (allow_within r now key w e le)) (ground (arith, rest))))
  | inr other ↦
      let rest =
        granted_within attempts (allow r now k).0 key w (allow_other r now k key other ∙ e) h in
      rw other (omega (arith, rest, limit-allow r now k))
]

-- Whether an attempt at this time begins a window for the key.
unfoldable pub begins : RateLimiter → ℕ → Bytes → Bool
begins r now key = elim (lookup r.hits key) [ none ↦ true | some w ↦ ltb w.reset now ]

allow_first :
    (r : RateLimiter) (now : ℕ) (key : Bytes)
    → begins r now key ≡ true
    → allow r now key ≡ open_window r now key
unfolding allow begins
allow_first r now key h = elim (Option-cases (lookup r.hits key)) [
  | inl e ↦ rw (e, allow) refl
  | inr (w, e) ↦
      let over : ltb w.reset now ≡ true = rw (e, begins) at h in rw (e, allow) (rw over refl)
]

-- Of all attempts from the first one in a window until the window ends, those of other keys between
-- them included, no more than the limit get through for the key, where the limit is not zero.
pub granted_window :
    (attempts : List Attempt) (r : RateLimiter) (now : ℕ) (key : Bytes)
    → begins r now key ≡ true
    → 1 ≤ r.limit
    → Until (now + r.window) attempts
    → granted r key ((now, key) ∷ attempts) ≤ r.limit
unfolding open_window
granted_window attempts r now key first some_limit h =
    let fresh : HitWindow = record { count = 1; reset = now + r.window } in
    let rest =
      granted_within attempts (open_window r now key).0 key fresh (lookup-insert r.hits key fresh)
        h in
    subst (λ n. n ≤ r.limit) (sym (granted_same attempts r now key))
      (subst
        (λ s. (if s.1 then suc (granted s.0 key attempts) else granted s.0 key attempts) ≤ r.limit)
        (sym (allow_first r now key first)) (omega (arith, rest)))
