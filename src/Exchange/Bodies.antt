-- ===== src/Exchange/Bodies.antt =====
-- server/internal/proxy/proxy.go: what `serveRewritten` writes of a text, by its length and its reader's end.
-- The comment of ProxyRewriteMaxBytes (server/internal/config/config.go) has a longer text cut off at the limit.
use bumshi.Common.{
  ℕ, ◌+◌, ◌<◌, ◌≤◌, true, false, none, some, List, [], ◌∷◌, ◌++◌, ◌≡◌, inl, inr, refl, sym, ap, ◌∙◌,
  arith, Bytes, codes, length, take, drop, ltb, leb, if◌then◌else◌, Bool-cases, Option-cases,
  le→leb, append-nil, take-append-drop, length-take,
}
use bumshi.Strings.{eq, itoa}
use bumshi.Strings.Laws.{eq_iff}
use bumshi.Headers.Laws.{values-put}
use bumshi.Headers.{Header, get, set, values, first}
use bumshi.Response.{copy_response_headers}
use bumshi.Rewrite.Css.{Kind}
use bumshi.Exchange.{
  Event, http_error, write_header, write, flush, count, Answer, Body, Proxy, read_limited, stream,
  bad_gateway, serve_read, serve_rewritten, should_inject, injected, rewritten, context,
}

-- The bytes of the body, the page of an error not counted.
unfoldable pub written : List Event → Bytes
written [] = []
written (write b ∷ es) = b ++ written es
written (flush ∷ es) = written es
written (count o ∷ es) = written es
written (write_header h s ∷ es) = written es
written (http_error h s m ∷ es) = written es

unfoldable pub concat : List Bytes → Bytes
concat [] = []
concat (c ∷ cs) = c ++ concat cs

written-stream : (cs : List Bytes) (o : Bytes) → written (stream cs ++ count o ∷ []) ≡ concat cs
unfolding stream written concat
written-stream [] o = refl
written-stream (c ∷ cs) o = elim (Bool-cases (eq c [])) [
  | inl e ↦ rw e (ap (λ t. c ++ t) (written-stream cs o))
  | inr e ↦ rw e (ap (λ t. c ++ t) (written-stream cs o))
]

injected_plain :
    (p : Proxy) (incoming : Header) (kind : Kind) (nonce body : Bytes)
    → should_inject incoming ≡ false
    → injected p incoming kind nonce body ≡ body
unfolding injected
injected_plain p incoming Kind.html nonce body e = elim (Option-cases p.inject_html) [
  | inl none_set ↦ rw (none_set, injected) refl
  | inr (inject, is_set) ↦ rw (is_set, injected) (rw e refl)
]
injected_plain p incoming Kind.css nonce body e = refl
injected_plain p incoming Kind.other nonce body e = refl

read_over :
    (n : ℕ) (b : Body)
    → n < length b.content
    → read_limited (n + 1) b ≡ some (take (n + 1) b.content)
unfolding read_limited
read_over n b h =
    let reached : leb (n + 1) (length b.content) ≡ true =
      le→leb (n + 1) (length b.content) (omega arith) in
    rw reached refl

read_whole :
    (n : ℕ) (b : Body)
    → length b.content ≤ n
    → b.broken ≡ false
    → read_limited (n + 1) b ≡ some b.content
unfolding read_limited
read_whole n b h sound =
    let below : leb (n + 1) (length b.content) ≡ false = ground arith in rw below (rw sound refl)

read_failed :
    (n : ℕ) (b : Body) → length b.content ≤ n → b.broken ≡ true → read_limited (n + 1) b ≡ none
unfolding read_limited
read_failed n b h failed =
    let below : leb (n + 1) (length b.content) ≡ false = ground arith in rw below (rw failed refl)

prefix_over : (n : ℕ) (t : Bytes) → n < length t → ltb n (length (take (n + 1) t)) ≡ true
prefix_over n t h = let size = length-take (n + 1) t in ground (arith, size)

-- A text that is longer than the limit reaches the client whole and unchanged, when nothing is to be
-- injected and the pieces that io.Copy hands on are all it reads.
pub serve_rewritten-whole :
    (p : Proxy) (incoming staged : Header) (a : Answer) (kind : Kind) (nonce : Bytes)
    → ((t : Bytes) → concat (p.chunks t) ≡ t)
    → should_inject incoming ≡ false
    → p.rewrite_max < length a.body.content
    → written (serve_rewritten p incoming staged a kind nonce) ≡ a.body.content
unfolding serve_rewritten serve_read written
serve_rewritten-whole p incoming staged a kind nonce all_pieces plain over =
    rw (read_over p.rewrite_max a.body over) (
      rw (prefix_over p.rewrite_max a.body.content over) (
        ap (λ b. b ++ written (stream (p.chunks rest) ++ count (codes "ok_unrewritten") ∷ []))
          (injected_plain p incoming kind nonce prefix plain)
        ∙ ap (λ b. prefix ++ b)
            (written-stream (p.chunks rest) (codes "ok_unrewritten") ∙ all_pieces rest)
        ∙ take-append-drop (p.rewrite_max + 1) a.body.content))
  where
    prefix : Bytes
    prefix = take (p.rewrite_max + 1) a.body.content

    rest : Bytes
    rest = drop (p.rewrite_max + 1) a.body.content

-- The length that the first header sent declares.
unfoldable pub declared : List Event → Bytes
unfolding values
declared (write_header h s ∷ es) = get h (codes "Content-Length")
declared (http_error h s m ∷ es) = get h (codes "Content-Length")
declared (write b ∷ es) = declared es
declared (flush ∷ es) = declared es
declared (count o ∷ es) = declared es
declared [] = []

get-set : (h : Header) (k v : Bytes) → get (set h k v) k ≡ v
get-set h k v = ap first (
    values-put h k (v ∷ []) k
    ∙ ap (λ b. if b then some (v ∷ []) else values h k) ((eq_iff k k).1 refl))

-- A text within the limit that is read without an error is sent with the length of what is written,
-- whatever the upstream declared and the rewriting and the injection made of it.
pub serve_rewritten-sized :
    (p : Proxy) (incoming staged : Header) (a : Answer) (kind : Kind) (nonce : Bytes)
    → length a.body.content ≤ p.rewrite_max
    → a.body.broken ≡ false
    → declared (serve_rewritten p incoming staged a kind nonce)
      ≡ itoa (length (written (serve_rewritten p incoming staged a kind nonce)))
unfolding serve_rewritten serve_read written declared
serve_rewritten-sized p incoming staged a kind nonce within sound =
    rw (read_whole p.rewrite_max a.body within sound) (
      rw below (
        get-set staged_out (codes "Content-Length") (itoa (length out))
        ∙ ap (λ b. itoa (length b)) (sym (append-nil out))))
  where
    below : ltb p.rewrite_max (length a.body.content) ≡ false
    below = ground (arith, within)

    out : Bytes
    out = rewritten p incoming kind nonce a.body.content

    staged_out : Header
    staged_out = copy_response_headers (context p nonce false) staged a.header

-- What is read short of the limit and then fails is not sent: the reply is the error page, with the
-- header as it was staged before the upstream's.
pub serve_rewritten-broken :
    (p : Proxy) (incoming staged : Header) (a : Answer) (kind : Kind) (nonce : Bytes)
    → length a.body.content ≤ p.rewrite_max
    → a.body.broken ≡ true
    → serve_rewritten p incoming staged a kind nonce ≡ bad_gateway staged
unfolding serve_rewritten serve_read
serve_rewritten-broken p incoming staged a kind nonce within failed =
    rw (read_failed p.rewrite_max a.body within failed) refl
