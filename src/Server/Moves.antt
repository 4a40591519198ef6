-- ===== src/Server/Moves.antt =====
-- server/internal/server/server.go: each move of `Run`'s goroutines uses up one of those that are left.
use bumshi.Common.{
  not, ◌&&◌, ◌+◌, ◌<◌, ◌≤◌, Bool, true, false, Option, none, some, List, [], ◌∷◌, ◌++◌, ◌≡◌, inl,
  inr, refl, sym, ap, subst, ◌∙◌, arith, Bytes, Bool-cases, if◌then◌else◌,
}
use bumshi.Server.Lifecycle.{
  Phase, unbegun, listening, ended, Listener, control, metrics, admin, Process, shut_of, Move,
  begin, close, fail, cancel, notice, shutdown, phase_of, with_phase, announce, begin_from,
  close_from, fail_from, select_from, notice_from, shutdown_from, step, steps_of, moves_left,
  not_yet, not_selected,
}

-- One move fewer, and what was selected stays.
abbrev pub Advances : Process → Process → Type 0
Advances p q =
    (moves_left q < moves_left p)
    × ((given : Option Bytes) → p.selected ≡ some given → q.selected ≡ some given)

moves_left-with_phase :
    (p : Process) (l : Listener) (f : Phase)
    → moves_left (announce l (with_phase p l f)) + steps_of (phase_of p l)
      ≡ moves_left p + steps_of f
unfolding moves_left
moves_left-with_phase p control f = omega arith
moves_left-with_phase p metrics f = omega arith
moves_left-with_phase p admin f = omega arith

selected-with_phase :
    (p : Process) (l : Listener) (f : Phase) → (announce l (with_phase p l f)).selected ≡ p.selected
selected-with_phase p control f = refl
selected-with_phase p metrics f = refl
selected-with_phase p admin f = refl

begun_or_ended : (b : Bool) → steps_of (if b then ended else listening) ≤ 1
begun_or_ended true = omega arith
begun_or_ended false = omega arith

begin_from-Advances :
    (l : Listener) (f : Phase) (p q : Process)
    → phase_of p l ≡ f
    → begin_from l f p ≡ some q
    → Advances p q
unfolding begin_from
begin_from-Advances l unbegun p q at h =
    let next : Phase = if shut_of p l then ended else listening in
    let same : announce l (with_phase p l next) ≡ q = cc in
    let total = moves_left-with_phase p l next in
    let before : steps_of (phase_of p l) ≡ 2 = ap steps_of at in
    let small = begun_or_ended (shut_of p l) in
    subst (Advances p) same
      (omega (arith, total, before, small), λ given s. selected-with_phase p l next ∙ s)
begin_from-Advances l listening p q at h = absurd (cc h)
begin_from-Advances l ended p q at h = absurd (cc h)

moves_left-ended :
    (p : Process) (l : Listener) (errs : List Bytes)
    → phase_of p l ≡ listening
    → Advances p (record (with_phase p l ended) { errors = errs })
unfolding moves_left
moves_left-ended p control errs at =
    let before : steps_of p.control_phase ≡ 1 = ap steps_of at in
    (omega (arith, before), λ given s. s)
moves_left-ended p metrics errs at =
    let before : steps_of p.metrics_phase ≡ 1 = ap steps_of at in
    (omega (arith, before), λ given s. s)
moves_left-ended p admin errs at =
    let before : steps_of p.admin_phase ≡ 1 = ap steps_of at in
    (omega (arith, before), λ given s. s)

errors-with_phase :
    (p : Process) (l : Listener) (f : Phase)
    → record (with_phase p l f) { errors = p.errors } ≡ with_phase p l f
errors-with_phase p control f = refl
errors-with_phase p metrics f = refl
errors-with_phase p admin f = refl

some_if : {P : Process} (b : Bool) (q : Process) → (if b then some P else none) ≡ some q → P ≡ q
some_if true q h = cc h
some_if false q h = absurd (cc h)

none_if : {P : Process} (b : Bool) (q : Process) → (if b then none else some P) ≡ some q → P ≡ q
none_if true q h = absurd (cc h)
none_if false q h = cc h

close_from-Advances :
    (l : Listener) (f : Phase) (p q : Process)
    → phase_of p l ≡ f
    → close_from l f p ≡ some q
    → Advances p q
unfolding close_from
close_from-Advances l listening p q at h =
    subst (Advances p) (errors-with_phase p l ended ∙ some_if (shut_of p l) q h)
      (moves_left-ended p l p.errors at)
close_from-Advances l unbegun p q at h = absurd (cc h)
close_from-Advances l ended p q at h = absurd (cc h)

fail_from-Advances :
    (l : Listener) (e : Bytes) (f : Phase) (p q : Process)
    → phase_of p l ≡ f
    → fail_from l e f p ≡ some q
    → Advances p q
unfolding fail_from
fail_from-Advances l e listening p q at h =
    let same = none_if (shut_of p l) q h in
    subst (Advances p) same (moves_left-ended p l (p.errors ++ e ∷ []) at)
fail_from-Advances l e unbegun p q at h = absurd (cc h)
fail_from-Advances l e ended p q at h = absurd (cc h)

select_from-Advances :
    (s : Option (Option Bytes)) (given : Option Bytes) (p : Process) (errs : List Bytes)
    (q : Process)
    → p.selected ≡ s
    → select_from s given (record p { errors = errs }) ≡ some q
    → Advances p q
unfolding select_from moves_left
select_from-Advances none given p errs q at h =
    let same : record p { errors = errs; selected = some given; ready = false } ≡ q = cc in
    let before : not_selected p.selected ≡ 1 = ap not_selected at in
    subst (Advances p) same (omega (arith, before), λ given s. absurd (cc (sym at ∙ s)))
select_from-Advances (some old) given p errs q at h = absurd (cc h)

notice_from-Advances :
    (errs : List Bytes) (p q : Process) → notice_from errs p ≡ some q → Advances p q
unfolding notice_from
notice_from-Advances [] p q h = absurd (cc h)
notice_from-Advances (e ∷ errs) p q h = select_from-Advances p.selected (some e) p errs q refl h

not_both :
    (before this : Bool) (p q : Process)
    → this ≡ true
    → (if before && not this then some p else none) ≡ some q
    → true ≡ false
not_both true true p q e h = absurd (cc h)
not_both true false p q e h = sym e
not_both false this p q e h = absurd (cc h)

shutdown_from-Advances :
    (s : Option (Option Bytes)) (l : Listener) (p q : Process)
    → shutdown_from s l p ≡ some q
    → Advances p q
unfolding shutdown_from moves_left
shutdown_from-Advances none l p q h = absurd (cc h)
shutdown_from-Advances (some given) control p q h = elim (Bool-cases p.control_shut) [
  | inl e ↦
      absurd
        (cc (sym (ap (λ b. if b then none else some (record p { control_shut = true })) e) ∙ h))
  | inr e ↦
      let before : not_yet p.control_shut ≡ 1 = ap not_yet e in
      subst (Advances p) (none_if p.control_shut q h) (omega (arith, before), λ given s. s)
]
shutdown_from-Advances (some given) metrics p q h = elim (Bool-cases p.metrics_shut) [
  | inl e ↦
      absurd (cc (not_both p.control_shut p.metrics_shut (record p { metrics_shut = true }) q e h))
  | inr e ↦
      let before : not_yet p.metrics_shut ≡ 1 = ap not_yet e in
      subst (Advances p) (some_if (p.control_shut && not p.metrics_shut) q h)
        (omega (arith, before), λ given s. s)
]
shutdown_from-Advances (some given) admin p q h = elim (Bool-cases p.admin_shut) [
  | inl e ↦
      absurd (cc (not_both p.metrics_shut p.admin_shut (record p { admin_shut = true }) q e h))
  | inr e ↦
      let before : not_yet p.admin_shut ≡ 1 = ap not_yet e in
      subst (Advances p) (some_if (p.metrics_shut && not p.admin_shut) q h)
        (omega (arith, before), λ given s. s)
]

pub step-Advances : (m : Move) (p q : Process) → step m p ≡ some q → Advances p q
unfolding step
step-Advances (begin l) p q h = begin_from-Advances l (phase_of p l) p q refl h
step-Advances (close l) p q h = close_from-Advances l (phase_of p l) p q refl h
step-Advances (fail l e) p q h = fail_from-Advances l e (phase_of p l) p q refl h
step-Advances cancel p q h = select_from-Advances p.selected none p p.errors q refl h
step-Advances notice p q h = notice_from-Advances p.errors p q h
step-Advances (shutdown l) p q h = shutdown_from-Advances p.selected l p q h
