-- ===== src/WebSocket.antt =====
-- server/internal/proxy/websocket.go: the handshake with the upstream and the client, what the handler
-- answers, and the tunnel as interleaved steps of its two copying loops.
pub mod Handshake
pub mod Turns
pub mod Ways
pub mod Tunnel
pub mod Closing
mod Examples
use bumshi.Common.{
  ℕ, zero, suc, ◌+◌, Bool, true, false, not, ◌&&◌, ◌||◌, Option, none, some, List, [], ◌∷◌, ◌++◌,
  Bytes, codes, length, take, drop, ltb, leb, ◌==◌, if◌then◌else◌,
}
use bumshi.Strings.{eq, index_byte}
use bumshi.Headers.{Header, values, set, put}
use bumshi.Link.{Url, UrlLib}
use bumshi.Cookies.{NamedValue, unpack_cookies}
use bumshi.Exchange.{Event, http_error, count, write, flush}

-- `wsForwardHeaders`
abbrev pub forward_headers : List Bytes
forward_headers =
    codes "Upgrade"
    ∷ codes "Connection"
    ∷ codes "Sec-Websocket-Key"
    ∷ codes "Sec-Websocket-Version"
    ∷ codes "Sec-Websocket-Protocol"
    ∷ codes "Sec-Websocket-Extensions"
    ∷ codes "User-Agent"
    ∷ codes "Accept-Language"
    ∷ []

-- `wsUpgradeResponseHeaders`
abbrev pub upgrade_response_headers : List Bytes
upgrade_response_headers =
    codes "Upgrade"
    ∷ codes "Connection"
    ∷ codes "Sec-Websocket-Accept"
    ∷ codes "Sec-Websocket-Protocol"
    ∷ codes "Sec-Websocket-Extensions"
    ∷ []

-- `net.JoinHostPort`: brackets for a host with a colon.
unfoldable pub join_host_port : Bytes → Bytes → Bytes
unfolding index_byte
join_host_port host port = elim (index_byte host b':') [
  | none ↦ host ++ (b':' ∷ port)
  | some i ↦ codes "[" ++ (host ++ (codes "]:" ++ port))
]

-- `canonicalHostPort`
unfoldable pub canonical_host_port : UrlLib → Url → Bytes
unfolding eq join_host_port
canonical_host_port lib u =
    if not (eq (lib.port u) [])
    then u.host
    else if eq u.scheme (codes "https")
    then join_host_port (lib.hostname u) (codes "443")
    else join_host_port (lib.hostname u) (codes "80")

-- One turn of the loop of `upstreamHandshake`, for what the client sent under the name.
unfoldable pub forward_one : Bytes → Option (List Bytes) → Header → Header
unfolding put
forward_one k none out = out
forward_one k (some []) out = out
forward_one k (some (v ∷ vv)) out = put out k (v ∷ vv)

-- The loop over the headers that are passed on.
unfoldable pub forward : List Bytes → Header → Header → Header
unfolding values forward_one
forward [] incoming out = out
forward (k ∷ ks) incoming out = forward ks incoming (forward_one k (values incoming k) out)

unfoldable pub with_cookie : Bytes → Header → Header
unfolding eq put
with_cookie cookies h = if not (eq cookies []) then set h (codes "Cookie") cookies else h

-- The header of the request that `upstreamHandshake` writes, for the client's header and cookies.
unfoldable pub handshake_header : UrlLib → Url → Header → List NamedValue → Header
unfolding forward put with_cookie unpack_cookies
handshake_header lib target incoming jar = with_cookie (unpack_cookies jar (lib.hostname target)) (
    set (forward forward_headers incoming []) (codes "Origin")
      (target.scheme ++ (codes "://" ++ target.host)))

-- The lines of one header, and of all that are echoed.
unfoldable pub header_lines : Bytes → List Bytes → Bytes
header_lines k [] = []
header_lines k (v ∷ vv) = k ++ (codes ": " ++ (v ++ (b'\r' ∷ b'\n' ∷ header_lines k vv)))

unfoldable pub echoed : List Bytes → Header → Bytes
unfolding values header_lines
echoed [] h = []
echoed (k ∷ ks) h = elim (values h k) [
  | none ↦ echoed ks h
  | some vv ↦ header_lines k vv ++ echoed ks h
]

-- The text of `writeClientHandshake`.
unfoldable pub client_handshake : Header → Bytes
unfolding echoed
client_handshake h =
    codes "HTTP/1.1 101 Switching Protocols"
    ++ (b'\r' ∷ b'\n' ∷ (echoed upgrade_response_headers h ++ (b'\r' ∷ b'\n' ∷ [])))

-- What the dial, the handshake with the upstream, and taking over the client's connection come to.
pub data Dialed : Type 0 where
  blocked failed no_answer : Dialed
  answered : ℕ → Header → Dialed

-- `serveWebSocket` up to the tunnel, and whether the tunnel is entered.
unfoldable pub serve_web_socket : Header → Dialed → Bool → Bool → List Event × Bool
unfolding client_handshake
serve_web_socket staged blocked hijacked written = (
  count (codes "blocked") ∷ http_error staged 403 (codes "destination not permitted") ∷ [],
  false,
)
serve_web_socket staged failed hijacked written =
    (count (codes "upstream_error") ∷ http_error staged 502 (codes "bad gateway") ∷ [], false)
serve_web_socket staged no_answer hijacked written =
    (count (codes "upstream_error") ∷ http_error staged 502 (codes "bad gateway") ∷ [], false)
serve_web_socket staged (answered status header) hijacked written =
    if not (status == 101)
    then (
      count (codes "upstream_error")
          ∷ http_error staged 502 (codes "upstream did not upgrade")
          ∷ [],
      false,
    )
    else if not hijacked
    then (
      count (codes "upstream_error") ∷ http_error staged 500 (codes "streaming unsupported") ∷ [],
      false,
    )
    else if not written
    then (write (client_handshake header) ∷ [], false)
    else (write (client_handshake header) ∷ flush ∷ count (codes "ok") ∷ [], true)

-- One end of the tunnel: what its reader has buffered since the handshake, what will still arrive behind
-- that, what was written to it, whether the tunnel holds it open, whether nothing else arrives, and whether
-- it can no longer be written to.
pub record Conn : Type 0 where
  pub buffered : Bytes
  pub arriving : Bytes
  pub written : Bytes
  pub is_open : Bool
  pub at_end : Bool
  pub is_broken : Bool

-- io.Copy: the piece that was read and is not yet written, and whether the loop runs.
pub record Copier : Type 0 where
  pub held : Bytes
  pub running : Bool

-- `tunnel`: the two connections, the loop from the client, and the one from the upstream.
pub record TunnelState : Type 0 where
  pub client : Conn
  pub upstream : Conn
  pub up : Copier
  pub down : Copier

-- What happens next: a turn of a loop, with the number of bytes if it is a read; or a peer closes its side,
-- or its connection breaks.
pub data Move : Type 0 where
  up_turn down_turn : ℕ → Move
  client_ends upstream_ends client_breaks upstream_breaks : Move

-- A read of `n` bytes.
unfoldable pub reads : ℕ → Bytes → Bool
reads n text = ltb 0 n && leb n (length text)

-- What a turn of a loop leaves: its source, its destination and itself.
abbrev pub Copied : Type 0
Copied = Conn × Conn × Copier

-- The end of a loop: `Close` of its destination.
unfoldable pub finish : Conn → Conn → Copier → Copied
finish src dst c = (src, record dst { is_open = false }, record c { running = false })

-- The piece is written, or the write fails.
unfoldable pub write_piece : Conn → Conn → Copier → Copied
unfolding finish
write_piece src dst c =
    if dst.is_open && not dst.is_broken
    then (src, record dst { written = dst.written ++ c.held }, record c { held = [] })
    else finish src dst c

-- A read of the connection itself, when nothing is buffered: it fails once the tunnel has closed the
-- connection, gives what has arrived, ends when nothing else arrives, and else waits, which is `none`.
unfoldable pub read_conn : ℕ → Conn → Conn → Copier → Option Copied
unfolding finish reads eq
read_conn n src dst c =
    if not src.is_open
    then some (finish src dst c)
    else if eq src.arriving []
    then (if src.at_end then some (finish src dst c) else none)
    else if reads n src.arriving
    then some (
      record src { arriving = drop n src.arriving },
      dst,
      record c { held = take n src.arriving },
    )
    else none

-- A turn of io.Copy from a bufio.Reader: the piece that is held is written before the next is read, and
-- what is buffered is read before the connection.
unfoldable pub copy_turn : ℕ → Conn → Conn → Copier → Option Copied
unfolding write_piece read_conn reads eq
copy_turn n src dst c =
    if not c.running
    then none
    else if not (eq c.held [])
    then some (write_piece src dst c)
    else if eq src.buffered []
    then read_conn n src dst c
    else if reads n src.buffered
    then some (
      record src { buffered = drop n src.buffered },
      dst,
      record c { held = take n src.buffered },
    )
    else none

abbrev pub with_up : TunnelState → Option Copied → Option TunnelState
with_up t none = none
with_up t (some (src, dst, c)) = some (record t { client = src; upstream = dst; up = c })

abbrev pub with_down : TunnelState → Option Copied → Option TunnelState
with_down t none = none
with_down t (some (src, dst, c)) = some (record t { upstream = src; client = dst; down = c })

abbrev pub ended : Conn → Conn
ended e = record e { at_end = true }

abbrev pub broken : Conn → Conn
broken e = record e { at_end = true; is_broken = true }

unfoldable pub step : Move → TunnelState → Option TunnelState
unfolding copy_turn
step (up_turn n) t = with_up t (copy_turn n t.client t.upstream t.up)
step (down_turn n) t = with_down t (copy_turn n t.upstream t.client t.down)
step client_ends t = some (record t { client = ended t.client })
step upstream_ends t = some (record t { upstream = ended t.upstream })
step client_breaks t = some (record t { client = broken t.client })
step upstream_breaks t = some (record t { upstream = broken t.upstream })

-- The tunnel's goroutines, in the order in which their turns fall.
unfoldable pub run : List Move → TunnelState → Option TunnelState
unfolding step
run [] t = some t
run (m ∷ ms) t = elim (step m t) [ none ↦ none | some t' ↦ run ms t' ]

-- An end at the start, with what its reader has buffered and what will arrive.
abbrev pub fresh : Bytes → Bytes → Conn
fresh buffered arriving = record {
  buffered = buffered;
  arriving = arriving;
  written = [];
  is_open = true;
  at_end = false;
  is_broken = false;
}

-- `tunnel` at its start: `clientRW` and `upstreamBR` with what they have buffered.
unfoldable pub tunnel : Bytes → Bytes → Bytes → Bytes → TunnelState
tunnel client_buffered client_sends upstream_buffered upstream_sends = record {
  client = fresh client_buffered client_sends;
  upstream = fresh upstream_buffered upstream_sends;
  up = record { held = []; running = true };
  down = record { held = []; running = true };
}

-- Both loops are done, so `tunnel` returns.
unfoldable pub is_done : TunnelState → Bool
is_done t = not t.up.running && not t.down.running
