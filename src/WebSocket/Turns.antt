-- ===== src/WebSocket/Turns.antt =====
-- server/internal/proxy/websocket.go: a turn of one of the loops of the tunnel, case by case.
use bumshi.Common.{
  ℕ, Bool, true, false, not, ◌&&◌, Option, some, [], ◌++◌, ◌≡◌, ◌⊎◌, inl, inr, refl, subst, arith,
  take, drop, if◌then◌else◌,
}
use bumshi.Strings.{eq}
use bumshi.Strings.Laws.{eq_iff}
use bumshi.WebSocket.{Conn, Copier, Copied, reads, finish, write_piece, read_conn, copy_turn}

-- Why a loop ends: its destination cannot be written to, its source was closed, or all was read.
unfoldable pub WhyEnded : Conn → Conn → Copier → Type 0
WhyEnded src dst c =
    ((dst.is_open ≡ false) ⊎ ((dst.is_broken ≡ true) ⊎ (src.is_open ≡ false)))
    ⊎ ((c.held ≡ []) × (src.buffered ≡ []) × (src.arriving ≡ []))

if_case :
    {A : Type 0} (b : Bool) (x y : A) (P : A → Type 0)
    → (b ≡ true → P x)
    → (b ≡ false → P y)
    → P (if b then x else y)
if_case true x y P on off = on refl
if_case false x y P on off = off refl

-- What a turn does, case by case, for what is to be shown of its result.
module _ (n : ℕ) (src dst : Conn) (c : Copier) (P : Copied → Type 0)
    (wrote : c.running ≡ true
      → eq c.held [] ≡ false
      → dst.is_open ≡ true
      → P (src, record dst { written = dst.written ++ c.held }, record c { held = [] }))
    (ended : c.running ≡ true
      → WhyEnded src dst c
      → P (src, record dst { is_open = false }, record c { running = false }))
    (read_buffered : c.running ≡ true
      → c.held ≡ []
      → reads n src.buffered ≡ true
      → P (
        record src { buffered = drop n src.buffered },
        dst,
        record c { held = take n src.buffered },
      ))
    (read_arriving : c.running ≡ true
      → c.held ≡ []
      → src.buffered ≡ []
      → reads n src.arriving ≡ true
      → P (
        record src { arriving = drop n src.arriving },
        dst,
        record c { held = take n src.arriving },
      )) where
  write_piece_by_cases : c.running ≡ true → eq c.held [] ≡ false → P (write_piece src dst c)
  unfolding write_piece finish WhyEnded
  write_piece_by_cases on held =
      if_case (dst.is_open && not dst.is_broken) _ _ P (λ e. wrote on held (ground (arith, e)))
        (λ e. ended on (inl (shut_or_broken dst.is_open dst.is_broken e)))
    where
      shut_or_broken :
          (a b : Bool) → (a && not b) ≡ false → (a ≡ false) ⊎ ((b ≡ true) ⊎ (src.is_open ≡ false))
      shut_or_broken false b e = inl refl
      shut_or_broken true true e = inr (inl refl)
      shut_or_broken true false e = absurd (cc e)

  module _ (r : Copied) where
    abbrev pub Gives : Option Copied → Type 0
    Gives o = o ≡ some r → P r

    gives : (r' : Copied) → P r' → Gives (some r')
    gives r' p h = subst P (cc h) p

    read_conn_by_cases :
        c.running ≡ true → c.held ≡ [] → src.buffered ≡ [] → Gives (read_conn n src dst c)
    unfolding read_conn finish WhyEnded
    read_conn_by_cases on held buffered =
        if_case (not src.is_open) _ _ Gives
          (λ e. gives _ (ended on (inl (inr (inr (ground (arith, e)))))))
          (λ e.
            if_case (eq src.arriving []) _ _ Gives
              (λ none_left.
                if_case src.at_end _ _ Gives
                  (λ last.
                    gives _ (ended on (inr (held, buffered, (eq_iff src.arriving []).0 none_left))))
                  (λ waits h. absurd (cc h)))
              (λ some_left.
                if_case (reads n src.arriving) _ _ Gives
                  (λ fits. gives _ (read_arriving on held buffered fits))
                  (λ other h. absurd (cc h))))

    pub copy_turn_by_cases : Gives (copy_turn n src dst c)
    unfolding copy_turn
    copy_turn_by_cases =
        if_case (not c.running) _ _ Gives (λ off h. absurd (cc h))
          (λ e.
            let on : c.running ≡ true = ground (arith, e) in
            if_case (not (eq c.held [])) _ _ Gives
              (λ held. gives _ (write_piece_by_cases on (ground (arith, held))))
              (λ free.
                let none_held : c.held ≡ [] = (eq_iff c.held []).0 (ground (arith, free)) in
                if_case (eq src.buffered []) _ _ Gives
                  (λ empty. read_conn_by_cases on none_held ((eq_iff src.buffered []).0 empty))
                  (λ full.
                    if_case (reads n src.buffered) _ _ Gives
                      (λ fits. gives _ (read_buffered on none_held fits))
                      (λ other h. absurd (cc h)))))
