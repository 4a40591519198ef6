-- ===== src/WebSocket/Handshake.antt =====
-- server/internal/proxy/websocket.go: what the upstream's handshake carries of the client's header.
use bumshi.Common.{Option, none, some, List, [], ◌∷◌, Bytes, if◌then◌else◌}
use bumshi.Strings.{eq}

-- What was sent under a name, when there was anything; else what there is already.
unfoldable pub or_keep : Option (List Bytes) → Option (List Bytes) → Option (List Bytes)
or_keep none kept = kept
or_keep (some []) kept = kept
or_keep (some (v ∷ vv)) kept = some (v ∷ vv)

unfoldable pub own_cookie : Bytes → Option (List Bytes) → Option (List Bytes)
unfolding eq
own_cookie cookies kept = if eq cookies [] then kept else some (cookies ∷ [])
