-- ===== src/WebSocket/Examples.antt =====
-- The theorems on WebSockets at a concrete tunnel and a concrete handshake.
use bumshi.Common.{false, true, false, some, List, [], ◌∷◌, ◌≡◌, refl, codes}
use bumshi.Headers.{Header}
use bumshi.WebSocket.{
  TunnelState, Move, up_turn, down_turn, client_ends, upstream_breaks, run, tunnel,
}
use bumshi.WebSocket.Tunnel.{InOrder, run-InOrder}

-- The handshake left half of the client's text in its buffer.
abbrev opened : TunnelState
opened = tunnel (codes "pi") (codes "ng") [] (codes "pong!")

abbrev moves : List Move
moves =
    up_turn 2
    ∷ up_turn 0
    ∷ down_turn 5
    ∷ up_turn 2
    ∷ down_turn 0
    ∷ client_ends
    ∷ up_turn 0
    ∷ up_turn 0
    ∷ []

-- The client's loop has ended, the upstream's has not.
abbrev half : TunnelState
half = record {
  client = record {
    buffered = [];
    arriving = [];
    written = codes "pong!";
    is_open = true;
    at_end = true;
    is_broken = false;
  };
  upstream = record {
    buffered = [];
    arriving = [];
    written = codes "ping";
    is_open = false;
    at_end = false;
    is_broken = false;
  };
  up = record { held = []; running = false };
  down = record { held = []; running = true };
}

moves_end : run moves opened ≡ some half
unfolding run tunnel
moves_end = refl

-- The upstream's connection breaks: the client's loop ends at its next piece.
broken_moves :
    run (up_turn 2 ∷ upstream_breaks ∷ up_turn 0 ∷ []) opened
    ≡ some (record opened {
      client = record {
        buffered = [];
        arriving = codes "ng";
        written = [];
        is_open = true;
        at_end = false;
        is_broken = false;
      };
      upstream = record {
        buffered = [];
        arriving = codes "pong!";
        written = [];
        is_open = false;
        at_end = true;
        is_broken = true;
      };
      up = record { held = codes "pi"; running = false };
    })
unfolding run tunnel
broken_moves = refl

run-InOrder_example : InOrder (codes "ping") (codes "pong!") half
run-InOrder_example = run-InOrder (codes "pi") (codes "ng") [] (codes "pong!") moves half moves_end

abbrev client : Header
client =
    (codes "Upgrade", codes "websocket" ∷ []) ∷ (codes "Authorization", codes "secret" ∷ []) ∷ []
