-- ===== src/WebSocket/Ways.antt =====
-- server/internal/proxy/websocket.go: what one direction of the tunnel has relayed, and the turns it has left.
use bumshi.Common.{
  ℕ, suc, ◌+◌, ◌*◌, ◌≤◌, ◌<◌, Bool, true, false, ◌&&◌, some, [], ◌++◌, ◌≡◌, inl, inr, refl, sym, ap,
  ◌∙◌, arith, Bytes, length, take, drop, ltb, leb, append_assoc, take-append-drop, length-drop,
  if◌then◌else◌,
}
use bumshi.Strings.{eq}
use bumshi.WebSocket.{Conn, Copier, Copied, reads, copy_turn}
use bumshi.WebSocket.Turns.{WhyEnded, copy_turn_by_cases}

-- One direction: what was written, what is held and what is left are what the source sends; the
-- destination is open while the loop runs; and a loop that ended, though its source is still open and its
-- destination not broken, has left nothing.
abbrev pub Way : Bytes → Conn → Conn → Copier → Type 0
Way whole src dst c =
    (dst.written ++ (c.held ++ (src.buffered ++ src.arriving)) ≡ whole)
    × (dst.is_open ≡ c.running)
    × (c.running ≡ false
        → src.is_open ≡ true
        → dst.is_broken ≡ false
        → (c.held ≡ []) × (src.buffered ≡ []) × (src.arriving ≡ []))

-- How many turns a loop can still take.
unfoldable pub budget : Conn → Copier → ℕ
unfolding eq
budget src c =
    if c.running
    then suc (2 * (length src.buffered + length src.arriving) + (if eq c.held [] then 0 else 1))
    else 0

module _ (whole : Bytes) (n : ℕ) (src dst : Conn) (c : Copier) (way : Way whole src dst c) where
  all_read :
      WhyEnded src dst c
      → c.running ≡ true
      → src.is_open ≡ true
      → dst.is_broken ≡ false
      → (c.held ≡ []) × (src.buffered ≡ []) × (src.arriving ≡ [])
  unfolding WhyEnded
  all_read (inl (inl shut)) on is_open sound = absurd (cc (way.1, shut, on))
  all_read (inl (inr (inl broken))) on is_open sound = absurd (cc)
  all_read (inl (inr (inr shut))) on is_open sound = absurd (cc)
  all_read (inr nothing) on is_open sound = nothing

  pub copy_turn-Way : (r : Copied) → copy_turn n src dst c ≡ some r → Way whole r.0 r.1 r.2
  copy_turn-Way r =
      copy_turn_by_cases n src dst c (λ r. Way whole r.0 r.1 r.2)
        (λ on held is_open. (
          append_assoc dst.written c.held (src.buffered ++ src.arriving) ∙ way.0,
          way.1,
          λ off. absurd (cc (off, on)),
        ))
        (λ on why. (way.0, refl, λ off. all_read why on))
        (λ on free fits. (drained free, way.1, λ off. absurd (cc (off, on))))
        (λ on free empty fits. (arrived free empty, way.1, λ off. absurd (cc (off, on)))) r
    where
      drained :
          c.held ≡ []
          → dst.written ++ (take n src.buffered ++ (drop n src.buffered ++ src.arriving)) ≡ whole
      drained free =
          ap (λ t. dst.written ++ t)
            (sym (append_assoc (take n src.buffered) (drop n src.buffered) src.arriving)
              ∙ ap (λ t. t ++ src.arriving) (take-append-drop n src.buffered)
              ∙ ap (λ t. t ++ (src.buffered ++ src.arriving)) (sym free))
          ∙ way.0

      arrived :
          c.held ≡ []
          → src.buffered ≡ []
          → dst.written ++ (take n src.arriving ++ (src.buffered ++ drop n src.arriving)) ≡ whole
      arrived free empty =
          ap (λ t. dst.written ++ t)
            (ap (λ t. take n src.arriving ++ (t ++ drop n src.arriving)) empty
              ∙ take-append-drop n src.arriving
              ∙ ap (λ t. t ++ src.arriving) (sym empty)
              ∙ ap (λ t. t ++ (src.buffered ++ src.arriving)) (sym free))
          ∙ way.0

  -- The other direction is left as it stands.
  pub copy_turn-back :
      (back : Bytes) (c' : Copier) (r : Copied)
      → Way back dst src c'
      → copy_turn n src dst c ≡ some r
      → Way back r.1 r.0 c'
  copy_turn-back back c' r other =
      copy_turn_by_cases n src dst c (λ r. Way back r.1 r.0 c') (λ on held is_open. other)
        (λ on why. (other.0, other.1, λ off shut. absurd (cc shut))) (λ on free fits. other)
        (λ on free empty fits. other) r

-- Each turn uses up the loop's budget, and leaves the other's.
budget-on :
    (src : Conn) (c : Copier)
    → c.running ≡ true
    → budget src c
      ≡ suc (2 * (length src.buffered + length src.arriving) + (if eq c.held [] then 0 else 1))
unfolding budget
budget-on src c on = rw on refl

at_most_one : (b : Bool) → (if b then 0 else 1) ≤ 1
at_most_one true = omega arith
at_most_one false = omega arith

read_costs :
    (n : ℕ) (t : Bytes) (k : ℕ) (b : Bool)
    → (ltb 0 n && leb n (length t)) ≡ true
    → suc (suc (2 * (length (drop n t) + k) + (if b then 0 else 1))) ≤ suc (2 * (length t + k) + 0)
read_costs n t k b fits =
    let left = length-drop n t in
    let piece = at_most_one b in
    let some_byte : 0 < n = ground (arith, fits) in
    let within : n ≤ length t = ground (arith, fits) in
    omega (arith, left, piece, some_byte, within)

read_costs_behind :
    (n : ℕ) (t : Bytes) (b : Bool)
    → (ltb 0 n && leb n (length t)) ≡ true
    → suc (suc (2 * (0 + length (drop n t)) + (if b then 0 else 1))) ≤ suc (2 * (0 + length t) + 0)
read_costs_behind n t b fits = let cost = read_costs n t 0 b fits in omega (arith, cost)

pub budget-copy_turn :
    (n : ℕ) (src dst : Conn) (c c' : Copier) (r : Copied)
    → copy_turn n src dst c ≡ some r
    → (budget r.0 r.2 < budget src c) × (budget r.1 c' ≡ budget dst c')
unfolding budget reads
budget-copy_turn n src dst c c' r =
    copy_turn_by_cases n src dst c
      (λ r. (budget r.0 r.2 < budget src c) × (budget r.1 c' ≡ budget dst c'))
      (λ on held opened. ((rw (on, held) (omega arith)), refl))
      (λ on why. ((rw on (omega arith)), refl))
      (λ on free fits. (
        (rw (on, free)
            (read_costs n src.buffered (length src.arriving) (eq (take n src.buffered) []) fits)),
        refl,
      ))
      (λ on free empty fits. (
        (rw (on, free, empty)
            (read_costs_behind n src.arriving (eq (take n src.arriving) []) fits)),
        refl,
      ))
      r
