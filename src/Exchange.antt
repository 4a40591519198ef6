-- ===== src/Exchange.antt =====
-- server/internal/proxy/proxy.go: `serveHTTP` from the request upstream on, `serveRewritten` and
-- `shouldInject`. What the client and the metrics see is a list of events, in order.
pub mod Replies
pub mod Bodies
mod Examples
use bumshi.Common.{
  ℕ, ◌+◌, Bool, true, false, not, ◌&&◌, ◌||◌, Option, none, some, List, [], ◌∷◌, ◌++◌, Bytes, codes,
  length, take, drop, ltb, leb, if◌then◌else◌,
}
use bumshi.Strings.{contains, eq, equal_fold, itoa, to_lower}
use bumshi.Headers.{Header, values, set, get, put}
use bumshi.Link.{Url, UrlLib}
use bumshi.Cookies.{HttpCookies}
use bumshi.Rewrite.Css.{Kind, classify}
use bumshi.Rewrite.Document.{html, css}
use bumshi.Response.{ResponseContext, copy_response_headers}

-- What reaches the client, a status with the header that is staged then, and the count of an outcome.
pub data Event : Type 0 where
  http_error : Header → ℕ → Bytes → Event
  write_header : Header → ℕ → Event
  write : Bytes → Event
  flush : Event
  count : Bytes → Event

-- What a reader gives: its bytes, and whether an error follows them.
pub record Body : Type 0 where
  pub content : Bytes
  pub broken : Bool

-- The fields of `http.Response` that are read.
pub record Answer : Type 0 where
  pub status : ℕ
  pub header : Header
  pub uncompressed : Bool
  pub body : Body

-- How the request upstream ends.
pub data Fetched : Type 0 where
  no_request blocked failed : Fetched
  answered : Answer → Fetched

-- What the handler has: the fields of `Handler`, the target, a fresh nonce, and the pieces in which
-- io.Copy hands on a text.
pub record Proxy : Type 0 where
  pub lib : UrlLib
  pub http : HttpCookies
  pub target : Url
  pub secure : Bool
  pub rewrite_max : ℕ
  pub inject_html : Option (Bytes → Bytes → Bytes)
  pub fresh_nonce : Bytes
  pub chunks : Bytes → List Bytes

abbrev document_dests : List Bytes
document_dests =
    [] ∷ codes "document" ∷ codes "iframe" ∷ codes "frame" ∷ codes "embed" ∷ codes "object" ∷ []

-- `shouldInject`, on the header of the client's request
unfoldable pub should_inject : Header → Bool
unfolding values equal_fold contains to_lower
should_inject incoming =
    if equal_fold (get incoming (codes "Sec-Fetch-Mode")) (codes "navigate")
    then true
    else contains document_dests (to_lower (get incoming (codes "Sec-Fetch-Dest")))

abbrev pub context : Proxy → Bytes → Bool → ResponseContext
context p nonce keep_length = record {
  lib = p.lib;
  http = p.http;
  base = p.target;
  nonce = nonce;
  secure = p.secure;
  keep_length = keep_length;
}

-- `io.ReadAll(io.LimitReader(body, limit))`: an error behind the limit is not met.
unfoldable pub read_limited : ℕ → Body → Option Bytes
read_limited limit b =
    if leb limit (length b.content)
    then some (take limit b.content)
    else if b.broken
    then none
    else some b.content

-- `io.Copy` through a `flushWriter`: a flush behind each piece that is not empty.
unfoldable pub stream : List Bytes → List Event
unfolding eq
stream [] = []
stream (c ∷ cs) = write c ∷ (if eq c [] then stream cs else flush ∷ stream cs)

-- `h.injectHTML`, for a document
unfoldable pub injected : Proxy → Header → Kind → Bytes → Bytes → Bytes
unfolding should_inject
injected p incoming Kind.html nonce body = elim p.inject_html [
  | none ↦ body
  | some inject ↦ if should_inject incoming then inject body nonce else body
]
injected p incoming Kind.css nonce body = body
injected p incoming Kind.other nonce body = body

-- The rewriter of a document always gives one, as `Rewrite.Document.Total` shows.
abbrev pub document : Option Bytes → Bytes → Bytes
document none body = body
document (some out) body = out

unfoldable pub rewritten : Proxy → Header → Kind → Bytes → Bytes → Bytes
unfolding injected html css
rewritten p incoming Kind.html nonce body =
    injected p incoming Kind.html nonce (document (html p.lib p.target body) body)
rewritten p incoming Kind.css nonce body = css p.lib p.target body
rewritten p incoming Kind.other nonce body = body

pub bad_gateway : Header → List Event
bad_gateway staged =
    count (codes "upstream_error") ∷ http_error staged 502 (codes "bad gateway") ∷ []

-- The three ends of `serveRewritten`, by what was read.
pub serve_read : Proxy → Header → Header → Answer → Kind → Bytes → Option Bytes → List Event
unfolding bad_gateway rewritten injected copy_response_headers stream put itoa
serve_read p incoming staged a kind nonce none = bad_gateway staged
serve_read p incoming staged a kind nonce (some body) =
    let header = copy_response_headers (context p nonce false) staged a.header in
    if ltb p.rewrite_max (length body)
    then write_header header a.status
      ∷ write (injected p incoming kind nonce body)
      ∷ flush
      ∷ (stream (p.chunks (drop (p.rewrite_max + 1) a.body.content))
          ++ count (codes "ok_unrewritten") ∷ [])
    else let out = rewritten p incoming kind nonce body in
      write_header (set header (codes "Content-Length") (itoa (length out))) a.status
      ∷ write out
      ∷ count (codes "ok")
      ∷ []

-- `serveRewritten`
unfoldable pub serve_rewritten : Proxy → Header → Header → Answer → Kind → Bytes → List Event
unfolding serve_read read_limited
serve_rewritten p incoming staged a kind nonce =
    serve_read p incoming staged a kind nonce (read_limited (p.rewrite_max + 1) a.body)

-- The nonce of a response that has a policy.
unfoldable pub nonce_for : Proxy → Header → Bytes
unfolding values eq
nonce_for p header =
    if not (eq (get header (codes "Content-Security-Policy")) [])
      || not (eq (get header (codes "Content-Security-Policy-Report-Only")) [])
    then p.fresh_nonce
    else []

-- The end of `serveHTTP` for a body that is passed on as it is.
unfoldable pub serve_streamed : Proxy → Header → Answer → Bytes → List Event
unfolding copy_response_headers stream
serve_streamed p staged a nonce =
    write_header (copy_response_headers (context p nonce (not a.uncompressed)) staged a.header)
      a.status
    ∷ flush
    ∷ (stream (p.chunks a.body.content) ++ count (codes "ok") ∷ [])

unfoldable pub serve_kind : Proxy → Header → Header → Answer → Bytes → Kind → List Event
unfolding serve_rewritten serve_streamed
serve_kind p incoming staged a nonce Kind.html = serve_rewritten p incoming staged a Kind.html nonce
serve_kind p incoming staged a nonce Kind.css = serve_rewritten p incoming staged a Kind.css nonce
serve_kind p incoming staged a nonce Kind.other = serve_streamed p staged a nonce

-- `serveHTTP`, for a client's header and what the middleware staged.
unfoldable pub serve_fetched : Proxy → Header → Header → Fetched → List Event
unfolding bad_gateway serve_kind nonce_for classify values
serve_fetched p incoming staged no_request =
    count (codes "bad_request") ∷ http_error staged 400 (codes "invalid request") ∷ []
serve_fetched p incoming staged blocked =
    count (codes "blocked") ∷ http_error staged 403 (codes "destination not permitted") ∷ []
serve_fetched p incoming staged failed = bad_gateway staged
serve_fetched p incoming staged (answered a) =
    serve_kind p incoming staged a (nonce_for p a.header)
      (classify (get a.header (codes "Content-Type")))
