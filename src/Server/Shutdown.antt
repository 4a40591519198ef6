-- ===== src/Server/Shutdown.antt =====
-- server/internal/server/server.go: `Run` comes to its end, whatever the order of its goroutines.
use bumshi.Common.{
  ℕ, zero, suc, All, ◌+◌, ◌<◌, ◌≤◌, Bool, true, false, Option, none, some, List, [], ◌∷◌, ◌≡◌, ◌⊎◌,
  inl, inr, refl, sym, ap, subst, ◌∙◌, arith, Bytes, length, Bool-cases, Option-cases,
  if◌then◌else◌,
}
use bumshi.Server.Lifecycle.{
  Phase, unbegun, listening, ended, Listener, control, metrics, admin, Process, start, shut_of,
  Move, begin, close, fail, cancel, notice, shutdown, phase_of, with_phase, begin_from, close_from,
  shutdown_from, step, run, has_returned, moves_left,
}
use bumshi.Server.Moves.{step-Advances}

-- A move of the service itself, where no listener fails and no context ends.
unfoldable pub IsOwn : Move → Type 0
IsOwn (begin l) = Unit
IsOwn (close l) = Unit
IsOwn (shutdown l) = Unit
IsOwn (fail l e) = ⊥
IsOwn cancel = ⊥
IsOwn notice = ⊥

-- The service has a move of its own.
abbrev GoesOn : Process → Type 0
GoesOn p = (m : Move) × (q : Process) × IsOwn m × (step m p ≡ some q)

-- A goroutine that has not ended can go on once its server is shut down.
listener-ready :
    (p : Process) (l : Listener) (f : Phase)
    → phase_of p l ≡ f
    → shut_of p l ≡ true
    → (f ≡ ended) ⊎ GoesOn p
unfolding step begin_from close_from IsOwn
listener-ready p l unbegun at shut = inr (begin l, _, tt, ap (λ f. begin_from l f p) at)
listener-ready p l listening at shut = inr (
  close l,
  _,
  tt,
  ap (λ f. close_from l f p) at ∙ ap (λ b. if b then some (with_phase p l ended) else none) shut,
)
listener-ready p l ended at shut = inl refl

-- Until all servers are shut down, the next one can be.
shutdown-ready :
    (p : Process) (given : Option Bytes)
    → p.selected ≡ some given
    → ((p.control_shut ≡ true) × (p.metrics_shut ≡ true) × (p.admin_shut ≡ true)) ⊎ GoesOn p
unfolding step shutdown_from IsOwn
shutdown-ready p given chosen = elim (Bool-cases p.control_shut) [
  | inr c ↦
      inr (
        shutdown control,
        record p { control_shut = true },
        tt,
        (rw (chosen, c, shutdown_from) refl),
      )
  | inl c ↦ elim (Bool-cases p.metrics_shut) [
    | inr t ↦ inr (
      shutdown metrics,
      record p { metrics_shut = true },
      tt,
      (rw (chosen, c, t, shutdown_from) refl),
    )
    | inl t ↦ elim (Bool-cases p.admin_shut) [
      | inr a ↦ inr (
        shutdown admin,
        record p { admin_shut = true },
        tt,
        (rw (chosen, t, a, shutdown_from) refl),
      )
      | inl a ↦ inl (c, t, a)
    ]
  ]
]

-- Once a listener has failed or the context has ended, the service goes on until `Run` returns.
pub selected-ready :
    (p : Process) (given : Option Bytes)
    → p.selected ≡ some given
    → (has_returned p ≡ true) ⊎ GoesOn p
unfolding has_returned
selected-ready p given chosen = elim (shutdown-ready p given chosen) [
  | inr more ↦ inr more
  | inl (sc, st, sa) ↦ elim (listener-ready p control p.control_phase refl sc) [
    | inr more ↦ inr more
    | inl c ↦ elim (listener-ready p metrics p.metrics_phase refl st) [
      | inr more ↦ inr more
      | inl t ↦ elim (listener-ready p admin p.admin_phase refl sa) [
        | inr more ↦ inr more
        | inl a ↦ inl (rw (sc, st, sa, c, t, a) refl)
      ]
    ]
  ]
]

run-Advances :
    (ms : List Move) (p q : Process) → run ms p ≡ some q → length ms + moves_left q ≤ moves_left p
unfolding run
run-Advances [] p q h =
    let same : p ≡ q = cc in subst (λ q. 0 + moves_left q ≤ moves_left p) same (omega arith)
run-Advances (m ∷ ms) p q h = elim (Option-cases (step m p)) [
  | inl e ↦ absurd (cc (sym (ap (λ o. elim o [ none ↦ none | some p' ↦ run ms p' ]) e) ∙ h))
  | inr (p', e) ↦
      let rest : run ms p' ≡ some q =
        sym (ap (λ o. elim o [ none ↦ none | some p' ↦ run ms p' ]) e) ∙ h in
      let (fewer, kept) = step-Advances m p p' e in
      let bound = run-Advances ms p' q rest in omega (arith, fewer, bound)
]

-- `Run` returns what was selected, by moves of the service itself.
abbrev pub Returns : Process → Option Bytes → Type 0
Returns p given =
    (ms : List Move) × (q : Process) × All IsOwn ms
    × (run ms p ≡ some q)
    × (has_returned q ≡ true)
    × (q.selected ≡ some given)

selected-Returns :
    (fuel : ℕ) (p : Process) (given : Option Bytes)
    → moves_left p < fuel
    → p.selected ≡ some given
    → Returns p given
unfolding run
selected-Returns zero p given enough chosen = absurd (omega arith)
selected-Returns (suc fuel) p given enough chosen = elim (selected-ready p given chosen) [
  | inl done ↦ ([], p, tt, refl, done, chosen)
  | inr (m, p', own, taken) ↦
      let (fewer, kept) = step-Advances m p p' taken in
      let (ms, q, all_own, goes, returned, chosen') =
        selected-Returns fuel p' given (omega (arith, fewer, enough)) (kept given chosen) in
      (
        m ∷ ms,
        q,
        (own, all_own),
        ap (λ o. elim o [ none ↦ none | some p' ↦ run ms p' ]) taken ∙ goes,
        returned,
        chosen',
      )
]

moves_left-start : (has_admin : Bool) → moves_left (start has_admin) ≤ 10
unfolding moves_left start
moves_left-start true = omega arith
moves_left-start false = omega arith

-- However the goroutines take their turns, a run of the service has ten moves at most; and wherever it
-- stands once a listener has failed or the context has ended, `Run` comes to return what was selected,
-- without another failure, when a listener stops once its own server is shut down.
pub run-has_returned :
    (has_admin : Bool) (ms : List Move) (q : Process)
    → run ms (start has_admin) ≡ some q
    → (length ms ≤ 10) × ((given : Option Bytes) → q.selected ≡ some given → Returns q given)
run-has_returned has_admin ms q h =
    let bound = run-Advances ms (start has_admin) q h in
    let most = moves_left-start has_admin in
    (
      omega (arith, bound, most),
      λ given chosen. selected-Returns (suc (moves_left q)) q given (omega arith) chosen,
    )
