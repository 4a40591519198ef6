-- ===== src/Lib.antt =====
-- Bumshi: a web proxy that runs on a server. A client asks for "/p/<token>", where the token is a target
-- URL in base64. The proxy fetches the target, rewrites the links of HTML and CSS so that they lead
-- back to it, keeps the cookies of all sites apart in one jar, and passes on the headers that tell
-- nothing of the user. An admin panel logs in with sessions and switches the proxy at run time.
--
-- The modules and the code that each one models, with paths from the repository's root:
--   Common     Booleans, lists over the native numbers, and texts: a Go string is the list of its bytes.
--   Strings    the functions of Go's strings and bytes packages that the program calls.
--   Base64     encoding/base64 for both alphabets without padding.
--   Maps       Go's maps from strings, as lists with one entry for each key that was inserted.
--   Headers    http.Header and CanonicalHeaderKey.
--   Link       server/internal/proxy/link/link.go: encode, decode, decode_request and resolve are
--              Encode, Decode, DecodeRequest and Resolve.
--   Cookies    server/internal/proxy/cookies.go: cookie_scope, cookie_prefix, scope_prefixes,
--              unpack_cookies and pack_set_cookie, down to the FNV-1a label of a scope on 64 bits.
--   Rewrite    server/internal/proxy/rewrite: Tokens (start and end tags), Entities (character
--              references), Css (rewriteCSS), Values (srcset, lists of URLs, refresh), Scan (the
--              scanner and writeStartTag) and Document (documentBase, HTML and CSS).
--   Csp        server/internal/proxy/csp.go: rewriteCSP and translateCSPSources.
--   Telemetry  server/internal/proxy/telemetry.go: the table of beacons and isTelemetrySink.
--   Request    server/internal/proxy/proxy.go: copyRequestHeaders and setRequestIdentity.
--   Response   server/internal/proxy/proxy.go: copyResponseHeaders.
--   Serve      server/internal/proxy/proxy.go: ServeHTTP, as a function from a request to its outcome;
--              websocket.go: the test for an upgrade.
--   Exchange   server/internal/proxy/proxy.go: serveHTTP and serveRewritten, as functions from what the
--              upstream does to the events that the client and the metrics see.
--   WebSocket  server/internal/proxy/websocket.go: the two handshakes, serveWebSocket, and tunnel as a
--              list of the turns that its two loops take.
--   SsrfGuard  server/internal/proxy/ssrfguard/ssrfguard.go: IsPublic and Control, on addresses as
--              numbers.
--   WebEngine  server/internal/webengine/webengine.go: Inject, headOpenTag, buildBootstrap and the
--              handlers of the assets and of the access cookie.
--   RateLimit, Sessions, Passwords   server/internal/auth/ratelimit.go, session.go, password.go and
--              pbkdf2.go.
--   Settings   server/internal/settings/settings.go.
--   Access     server/internal/admin/accessusers.go: the roster, its file and Authorized.
--   Admin      server/internal/admin/admin.go: the panel's state, its guards and cookies; Handlers has
--              one function for each handler, and serve gives each route its own.
--   Config     server/internal/config/config.go: Load and validate.
--   Server     server/internal/server/server.go: buildProxy, buildAdmin and what New shares between them,
--              and in Lifecycle Run, as a list of the moves of its goroutines;
--              server/internal/health/health.go: the statuses of the probes.
--   Metrics    server/internal/metrics/metrics.go: the vectors' operations and the text format.
--   Middleware server/internal/httpx/middleware.go: Chain and its links; Counts has Metrics and
--              the collectors.
--
-- How they interact: Serve decides what becomes of a request by Link and Telemetry. What is forwarded
-- goes out with the header of Request, which reads the jar by Cookies and the Referer by Link, and
-- comes back with the header of Response, which packs cookies by Cookies, resolves redirects by Link
-- and translates policies by Csp. The body is rewritten by Rewrite, whose links are those of Link, and
-- Exchange puts these together. WebSocket sends the cookies that Cookies selects. The panel of Admin
-- holds the state of Settings, Sessions, RateLimit and Access, and checks passwords by Passwords.
-- Server builds Serve's handler and the panel from a configuration of Config, over one roster of Access.
--
-- Conventions. State is passed explicitly: an operation on a store returns the new store. Errors are
-- constructors or `none`. A time is a number, and the clock, random tokens and nonces are arguments.
-- Numbers are unbounded but in the FNV-1a hash and the histogram counts, which are taken modulo 2^64,
-- and in the bytes of PBKDF2, taken modulo 2^8. An index loop over a text runs on what is left of it, by
-- structural recursion where it moves one byte at a time. The loops that move in jumps run on fuel: the attribute loop of a start tag, the srcset loop, the
-- scanner and the search for a base. Each round of these moves on by a byte or more, so that the
-- length and one is enough, and it is proved that they never run out. A hash is printed in 16
-- hexadecimal digits, enough for 64 bits.
--
-- ToLower, EqualFold, TrimSpace and Fields are those of ASCII text; bytes from 128 up are left alone,
-- where Go has Unicode's rules. The two regular expressions for CSS are written out as
-- matchers at the front of a text.
--
-- The pieces in which io.Copy moves a body are an argument. An atomic step of the tunnel is one turn of
-- one of its loops of io.Copy: a piece read from the reader's buffer or else from the connection, a piece
-- written, or the loop's end with its Close; or a peer that ends or breaks its connection. What arrives on
-- a connection is fixed from the start. ListenAndServe returns once its own server is shut down, and its
-- other errors come before. A store that writes a file keeps what the file
-- holds; a write that fails leaves the old file, since the new one is renamed into place.
--
-- Parameters, which stand for code outside the repository: net/url (UrlLib: parsing, printing and joining
-- of URLs), net/http's reading and printing of cookies (HttpCookies, and the jar of a request), its choice
-- of a route, net.SplitHostPort, netip.ParseAddr, bytes.ToLower where it is not of ASCII text,
-- time.ParseDuration, encoding/json (Codec, Json), HMAC-SHA256 (Prf) and float64 (Floats).
--
-- Not modelled: sockets and connections, registering the metrics
-- and sorting their bounds, the set-up of the HTTP client (proxy/fetch) and of logs
-- (logging, proxy/debug.go), the router's patterns (server/internal/server/router.go), version, reading the
-- settings' file, the entry point, and all JavaScript and scripts. These are I/O, configuration or
-- languages of their own.
mod Common
pub mod Strings
pub mod Base64
pub mod Config
pub mod Cookies
pub mod Csp
pub mod Exchange
pub mod Headers
pub mod Link
pub mod Maps
pub mod Metrics
pub mod Middleware
pub mod RateLimit
pub mod Access
pub mod Admin
pub mod Passwords
pub mod Request
pub mod Response
pub mod Rewrite
pub mod Serve
pub mod Server
pub mod Sessions
pub mod SsrfGuard
pub mod Settings
pub mod Telemetry
pub mod WebEngine
pub mod WebSocket
