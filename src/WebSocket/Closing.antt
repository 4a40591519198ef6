-- ===== src/WebSocket/Closing.antt =====
-- server/internal/proxy/websocket.go: how the tunnel comes to its end once one of its loops has ended.
use bumshi.Common.{true, some, List, ◌≡◌, All}
use bumshi.WebSocket.{
  TunnelState, Move, up_turn, down_turn, client_ends, upstream_ends, client_breaks, upstream_breaks,
  run, is_done,
}

unfoldable pub IsTurn : Move → Type 0
IsTurn (up_turn n) = Unit
IsTurn (down_turn n) = Unit
IsTurn client_ends = ⊥
IsTurn upstream_ends = ⊥
IsTurn client_breaks = ⊥
IsTurn upstream_breaks = ⊥

-- The tunnel ends by turns of its loops alone.
abbrev pub Finishes : TunnelState → Type 0
Finishes t =
    (ms : List Move) × (t' : TunnelState) × All IsTurn ms
    × (run ms t ≡ some t')
    × (is_done t' ≡ true)
