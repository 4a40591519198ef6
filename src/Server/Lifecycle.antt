-- ===== src/Server/Lifecycle.antt =====
-- server/internal/server/server.go: `Run` and `shutdown`, as the moves of the goroutines in any order.
use bumshi.Common.{
  ℕ, ◌+◌, Bool, true, false, not, ◌&&◌, Option, none, some, List, [], ◌∷◌, ◌++◌, Bytes,
  if◌then◌else◌,
}

-- A listener's goroutine: not begun, in ListenAndServe, or done.
pub data Phase : Type 0 where
  unbegun listening ended : Phase

pub data Listener : Type 0 where
  control metrics admin : Listener

-- The goroutines, the readiness flag, what `errCh` holds, what `select` gave (`none` before it, an error
-- or the end of the context behind it), and which servers are shut down; what is not built is.
pub record Process : Type 0 where
  pub control_phase : Phase
  pub metrics_phase : Phase
  pub admin_phase : Phase
  pub ready : Bool
  pub errors : List Bytes
  pub selected : Option (Option Bytes)
  pub control_shut : Bool
  pub metrics_shut : Bool
  pub admin_shut : Bool

-- `Run` at its start; without a panel there is no goroutine for it.
unfoldable pub start : Bool → Process
start has_admin = record {
  control_phase = unbegun;
  metrics_phase = unbegun;
  admin_phase = if has_admin then unbegun else ended;
  ready = false;
  errors = [];
  selected = none;
  control_shut = false;
  metrics_shut = false;
  admin_shut = not has_admin;
}

pub data Move : Type 0 where
  begin close : Listener → Move
  fail : Listener → Bytes → Move
  shutdown : Listener → Move
  cancel notice : Move

abbrev pub phase_of : Process → Listener → Phase
phase_of p control = p.control_phase
phase_of p metrics = p.metrics_phase
phase_of p admin = p.admin_phase

abbrev pub with_phase : Process → Listener → Phase → Process
with_phase p control f = record p { control_phase = f }
with_phase p metrics f = record p { metrics_phase = f }
with_phase p admin f = record p { admin_phase = f }

abbrev pub shut_of : Process → Listener → Bool
shut_of p control = p.control_shut
shut_of p metrics = p.metrics_shut
shut_of p admin = p.admin_shut

-- `SetReady(true)`, which only the control plane's goroutine does.
abbrev pub announce : Listener → Process → Process
announce control p = record p { ready = true }
announce metrics p = p
announce admin p = p

-- A goroutine begins; a server that was shut down before does not listen.
unfoldable pub begin_from : Listener → Phase → Process → Option Process
begin_from l unbegun p =
    some (announce l (with_phase p l (if shut_of p l then ended else listening)))
begin_from l listening p = none
begin_from l ended p = none

-- ListenAndServe returns ErrServerClosed once its own server is shut down, and any other error only before.
unfoldable pub close_from : Listener → Phase → Process → Option Process
close_from l listening p = if shut_of p l then some (with_phase p l ended) else none
close_from l unbegun p = none
close_from l ended p = none

unfoldable pub fail_from : Listener → Bytes → Phase → Process → Option Process
fail_from l e listening p =
    if shut_of p l
    then none
    else some (record (with_phase p l ended) { errors = p.errors ++ e ∷ [] })
fail_from l e unbegun p = none
fail_from l e ended p = none

-- `select`, and `SetReady(false)` behind it
unfoldable pub select_from : Option (Option Bytes) → Option Bytes → Process → Option Process
select_from none given p = some (record p { selected = some given; ready = false })
select_from (some before) given p = none

unfoldable pub notice_from : List Bytes → Process → Option Process
unfolding select_from
notice_from [] p = none
notice_from (e ∷ errors) p = select_from p.selected (some e) (record p { errors = errors })

-- The three calls of `shutdown`, which come behind `select`, one after the other.
unfoldable pub shutdown_from : Option (Option Bytes) → Listener → Process → Option Process
shutdown_from none l p = none
shutdown_from (some given) control p =
    if p.control_shut then none else some (record p { control_shut = true })
shutdown_from (some given) metrics p =
    if p.control_shut && not p.metrics_shut then some (record p { metrics_shut = true }) else none
shutdown_from (some given) admin p =
    if p.metrics_shut && not p.admin_shut then some (record p { admin_shut = true }) else none

unfoldable pub step : Move → Process → Option Process
unfolding begin_from close_from fail_from select_from notice_from shutdown_from
step (begin l) p = begin_from l (phase_of p l) p
step (close l) p = close_from l (phase_of p l) p
step (fail l e) p = fail_from l e (phase_of p l) p
step cancel p = select_from p.selected none p
step notice p = notice_from p.errors p
step (shutdown l) p = shutdown_from p.selected l p

unfoldable pub run : List Move → Process → Option Process
unfolding step
run [] p = some p
run (m ∷ ms) p = elim (step m p) [ none ↦ none | some q ↦ run ms q ]

abbrev pub is_ended : Phase → Bool
is_ended unbegun = false
is_ended listening = false
is_ended ended = true

-- `wg.Wait` is over, so `Run` returns.
unfoldable pub has_returned : Process → Bool
has_returned p =
    p.control_shut
    && p.metrics_shut
    && p.admin_shut
    && is_ended p.control_phase
    && is_ended p.metrics_phase
    && is_ended p.admin_phase

abbrev pub steps_of : Phase → ℕ
steps_of unbegun = 2
steps_of listening = 1
steps_of ended = 0

abbrev pub not_yet : Bool → ℕ
not_yet true = 0
not_yet false = 1

abbrev pub not_selected : Option (Option Bytes) → ℕ
not_selected none = 1
not_selected (some given) = 0

-- The moves that a process can still make: two of each listener, the end of `select`, and three of `shutdown`.
unfoldable pub moves_left : Process → ℕ
moves_left p =
    steps_of p.control_phase
    + steps_of p.metrics_phase
    + steps_of p.admin_phase
    + not_yet p.control_shut
    + not_yet p.metrics_shut
    + not_yet p.admin_shut
    + not_selected p.selected
