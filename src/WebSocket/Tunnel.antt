-- ===== src/WebSocket/Tunnel.antt =====
-- server/internal/proxy/websocket.go: the tunnel, for every order in which its two loops take their turns.
use bumshi.Common.{
  ℕ, suc, ◌+◌, ◌*◌, ◌≤◌, true, false, Option, none, some, List, [], ◌∷◌, ◌++◌, ◌≡◌, inl, inr, refl,
  sym, subst, ap, ◌∙◌, arith, Bytes, length, append-nil, length-append, Option-cases,
}
use bumshi.WebSocket.{
  Conn, Copier, Copied, TunnelState, Move, up_turn, down_turn, client_ends, upstream_ends,
  client_breaks, upstream_breaks, ended, broken, copy_turn, with_up, with_down, step, run, tunnel,
}
use bumshi.WebSocket.Ways.{Way, budget, copy_turn-Way, copy_turn-back, budget-copy_turn}

-- Both directions, for what the client sends and what the upstream sends.
abbrev pub Ways : Bytes → Bytes → TunnelState → Type 0
Ways up_whole down_whole t =
    Way up_whole t.client t.upstream t.up × Way down_whole t.upstream t.client t.down

unfoldable pub turns_left : TunnelState → ℕ
turns_left t = budget t.client t.up + budget t.upstream t.down

-- A turn of a loop counts, what the peers do does not.
unfoldable pub turns : List Move → ℕ
turns [] = 0
turns (up_turn n ∷ ms) = suc (turns ms)
turns (down_turn n ∷ ms) = suc (turns ms)
turns (client_ends ∷ ms) = turns ms
turns (upstream_ends ∷ ms) = turns ms
turns (client_breaks ∷ ms) = turns ms
turns (upstream_breaks ∷ ms) = turns ms

with_up-some :
    (t t' : TunnelState) (o : Option Copied)
    → with_up t o ≡ some t'
    → (r : Copied) × (o ≡ some r) × (record t { client = r.0; upstream = r.1; up = r.2 } ≡ t')
with_up-some t t' none h = absurd (cc h)
with_up-some t t' (some r) h = (r, refl, cc h)

with_down-some :
    (t t' : TunnelState) (o : Option Copied)
    → with_down t o ≡ some t'
    → (r : Copied) × (o ≡ some r) × (record t { upstream = r.0; client = r.1; down = r.2 } ≡ t')
with_down-some t t' none h = absurd (cc h)
with_down-some t t' (some r) h = (r, refl, cc h)

module _ (v w : Bytes) where
  -- What a step keeps, and what it costs.
  abbrev pub Follows : Move → TunnelState → TunnelState → Type 0
  Follows m t t' = Ways v w t' × (turns (m ∷ []) + turns_left t' ≤ turns_left t)

  pub step-Follows :
      (m : Move) (t t' : TunnelState) → Ways v w t → step m t ≡ some t' → Follows m t t'
  unfolding step turns turns_left budget
  step-Follows (up_turn n) t t' (u, d) h =
      let (r, taken, same) = with_up-some t t' (copy_turn n t.client t.upstream t.up) h in
      let (fewer, kept) = budget-copy_turn n t.client t.upstream t.up t.down r taken in
      subst (Follows (up_turn n) t) same (
        (
          copy_turn-Way v n t.client t.upstream t.up u r taken,
          copy_turn-back v n t.client t.upstream t.up u w t.down r d taken,
        ),
        omega (arith, fewer, kept),
      )
  step-Follows (down_turn n) t t' (u, d) h =
      let (r, taken, same) = with_down-some t t' (copy_turn n t.upstream t.client t.down) h in
      let (fewer, kept) = budget-copy_turn n t.upstream t.client t.down t.up r taken in
      subst (Follows (down_turn n) t) same (
        (
          copy_turn-back w n t.upstream t.client t.down d v t.up r u taken,
          copy_turn-Way w n t.upstream t.client t.down d r taken,
        ),
        omega (arith, fewer, kept),
      )
  step-Follows client_ends t t' h e =
      let same : record t { client = ended t.client } ≡ t' = cc in
      subst (Follows client_ends t) same (h, omega arith)
  step-Follows upstream_ends t t' h e =
      let same : record t { upstream = ended t.upstream } ≡ t' = cc in
      subst (Follows upstream_ends t) same (h, omega arith)
  step-Follows client_breaks t t' (u, d) e =
      let same : record t { client = broken t.client } ≡ t' = cc in
      subst (Follows client_breaks t) same
        ((u, (d.0, d.1, λ off is_open sound. absurd (cc sound))), omega arith)
  step-Follows upstream_breaks t t' (u, d) e =
      let same : record t { upstream = broken t.upstream } ≡ t' = cc in
      subst (Follows upstream_breaks t) same
        (((u.0, u.1, λ off is_open sound. absurd (cc sound)), d), omega arith)

  turns-cons : (m : Move) (ms : List Move) → turns (m ∷ ms) ≡ turns (m ∷ []) + turns ms
  unfolding turns
  turns-cons (up_turn n) ms = omega arith
  turns-cons (down_turn n) ms = omega arith
  turns-cons client_ends ms = omega arith
  turns-cons upstream_ends ms = omega arith
  turns-cons client_breaks ms = omega arith
  turns-cons upstream_breaks ms = omega arith

  run-Ways :
      (ms : List Move) (s t : TunnelState)
      → Ways v w s
      → run ms s ≡ some t
      → Ways v w t × (turns ms + turns_left t ≤ turns_left s)
  unfolding run
  run-Ways [] s t h e =
      let same : s ≡ t = cc in
      subst (λ t. Ways v w t × (turns [] + turns_left t ≤ turns_left s)) same
        (h, (unfold turns in omega arith))
  run-Ways (m ∷ ms) s t h e = elim (Option-cases (step m s)) [
    | inl stuck ↦
        absurd (cc (sym (ap (λ o. elim o [ none ↦ none | some s' ↦ run ms s' ]) stuck) ∙ e))
    | inr (s', taken) ↦
        let rest : run ms s' ≡ some t =
          sym (ap (λ o. elim o [ none ↦ none | some s' ↦ run ms s' ]) taken) ∙ e in
        let (h', cost) = step-Follows m s s' h taken in
        let (h'', bound) = run-Ways ms s' t h' rest in
        let both = turns-cons m ms in (h'', omega (arith, cost, bound, both))
  ]

-- What the written bytes are of all that the source sends: a part from its front, and, once the loop has
-- ended though its source is open and its destination not broken, all of it.
abbrev pub Relayed : Bytes → Conn → Conn → Copier → Type 0
Relayed whole src dst c =
    ((rest : Bytes) × (dst.written ++ rest ≡ whole))
    × (c.running ≡ false → src.is_open ≡ true → dst.is_broken ≡ false → dst.written ≡ whole)

Way-Relayed :
    (whole : Bytes) (src dst : Conn) (c : Copier) → Way whole src dst c → Relayed whole src dst c
Way-Relayed whole src dst c (order, _, complete) = (
  (c.held ++ (src.buffered ++ src.arriving), order),
  λ off is_open sound.
      let (held, buffered, arriving) = complete off is_open sound in
      sym (append-nil dst.written)
      ∙ ap (λ t. dst.written ++ t) (cc (held, buffered, arriving))
      ∙ order,
)

abbrev pub InOrder : Bytes → Bytes → TunnelState → Type 0
InOrder v w t = Relayed v t.client t.upstream t.up × Relayed w t.upstream t.client t.down

module _ (cb ca ub ua : Bytes) (ms : List Move) (t : TunnelState)
    (h : run ms (tunnel cb ca ub ua) ≡ some t) where
  pub reached :
      Ways (cb ++ ca) (ub ++ ua) t × (turns ms + turns_left t ≤ turns_left (tunnel cb ca ub ua))
  unfolding tunnel
  reached =
      run-Ways (cb ++ ca) (ub ++ ua) ms (tunnel cb ca ub ua) t
        ((refl, refl, λ off. absurd (cc off)), (refl, refl, λ off. absurd (cc off))) h

  pub turns_left-tunnel :
      turns_left (tunnel cb ca ub ua) ≡ 2 * (length (cb ++ ca) + length (ub ++ ua)) + 2
  unfolding turns_left budget tunnel
  turns_left-tunnel =
      let up_size = length-append cb ca in
      let down_size = length-append ub ua in omega (arith, up_size, down_size)

  -- In whatever order the two loops take their turns and the peers end or break their connections, each
  -- peer is written a part from the front of what the handshake left in the other's buffer and what
  -- then arrived from it; and it is written all of that once the loop has ended, if the other loop has
  -- not closed the source before and the peer's own connection is not broken.
  pub run-InOrder : InOrder (cb ++ ca) (ub ++ ua) t
  run-InOrder =
      let (u, d) = reached.0 in
      (
        Way-Relayed (cb ++ ca) t.client t.upstream t.up u,
        Way-Relayed (ub ++ ua) t.upstream t.client t.down d,
      )
