-- ===== src/Admin/Clients.antt =====
-- server/internal/admin/admin.go: whose word is taken for the client's address and the transport.
use bumshi.Common.{
  arith, ℕ, Bool, true, false, List, some, [], ◌∷◌, ◌++◌, ◌≡◌, inl, inr, refl, ap, ◌∙◌, Bytes,
  codes, ◌==◌, ==_self, Bool-cases, Lacks, if◌then◌else◌,
}
use bumshi.Strings.{eq, join, split, split_on, trim_space}
use bumshi.Headers.{Header, values, first, get}
use bumshi.Passwords.RoundTrip.{split_on-last}
use bumshi.Admin.{
  Options, Request, peer_of, is_trusted, is_secure_request, last, forwarded_or, real_ip_or,
  client_ip,
}

last-cons :
    (p : Bytes) (sep : ℕ) (cur s : Bytes)
    → last (p ∷ split_on sep cur s) ≡ last (split_on sep cur s)
unfolding last split_on
last-cons p sep cur [] = refl
last-cons p sep cur (c ∷ s) = elim (Bool-cases (c == sep)) [
  | inl e ↦ rw (e, split_on) refl
  | inr e ↦ rw (e, split_on) (last-cons p sep (cur ++ c ∷ []) s)
]

last-split_on :
    (sep : ℕ) (cur s t : Bytes) → Lacks sep t → last (split_on sep cur (s ++ sep ∷ t)) ≡ t
unfolding last split_on
last-split_on sep cur [] t h =
    rw (==_self sep, split_on) (last-cons cur sep [] t ∙ ap last (split_on-last sep [] t h))
last-split_on sep cur (c ∷ s) t h = elim (Bool-cases (c == sep)) [
  | inl e ↦ rw (e, split_on) (last-cons cur sep [] (s ++ sep ∷ t) ∙ last-split_on sep [] s t h)
  | inr e ↦ rw (e, split_on) (last-split_on sep (cur ++ c ∷ []) s t h)
]

some_left : (s t : Bytes) (c : ℕ) → eq (s ++ c ∷ t) [] ≡ false
unfolding eq
some_left [] t c = refl
some_left (x ∷ s) t c = refl

-- What a proxy sends as X-Forwarded-For that observed `ip` and was sent some lines: one line, where its
-- own entry is behind theirs (net/http/httputil and Caddy).
unfoldable pub forwarded_for : List Bytes → Bytes → Bytes
unfolding join
forwarded_for [] ip = ip
forwarded_for (line ∷ lines) ip = join (line ∷ lines) (codes ", ") ++ (codes ", " ++ ip)

last_entry :
    (lines : List Bytes) (ip : Bytes)
    → Lacks b',' ip
    → trim_space (last (split_on b',' [] (forwarded_for lines ip))) ≡ trim_space ip
unfolding forwarded_for trim_space last split_on
last_entry [] ip one = ap trim_space (ap last (split_on-last b',' [] ip one))
last_entry (line ∷ lines) ip one =
    ap trim_space
      (last-split_on b',' [] (join (line ∷ lines) (codes ", ")) (b' ' ∷ ip) (lacks_space ip one))
  where
    lacks_space : (ip : Bytes) → Lacks b',' ip → Lacks b',' (b' ' ∷ ip)
    lacks_space ip one = (omega arith, one)

forwarded_for-some :
    (lines : List Bytes) (ip : Bytes) → eq ip [] ≡ false → eq (forwarded_for lines ip) [] ≡ false
unfolding forwarded_for
forwarded_for-some [] ip h = h
forwarded_for-some (line ∷ lines) ip h =
    some_left (join (line ∷ lines) (codes ", ")) (b' ' ∷ ip) b','

-- Behind a trusted proxy that puts the address it observed behind what it was sent, on one line of
-- X-Forwarded-For, the client is that address, whatever lines the client sent and if it sent none.
pub client_ip-last :
    (o : Options) (r : Request) (lines : List Bytes) (ip : Bytes)
    → is_trusted o (peer_of o r) ≡ true
    → values r.header (codes "X-Forwarded-For") ≡ some (forwarded_for lines ip ∷ [])
    → Lacks b',' ip
    → trim_space ip ≡ ip
    → eq ip [] ≡ false
    → client_ip o r ≡ ip
unfolding client_ip forwarded_or split
client_ip-last o r lines ip trusted header one trimmed some_ip = rw trusted (
    ap (λ f. forwarded_or (first f) otherwise) header
    ∙ ap (λ b. if b then otherwise else named (last (split_on b',' [] (forwarded_for lines ip))))
        (forwarded_for-some lines ip some_ip)
    ∙ ap (λ t. if eq t [] then otherwise else t) (last_entry lines ip one ∙ trimmed)
    ∙ ap (λ b. if b then otherwise else ip) some_ip)
  where
    otherwise : Bytes
    otherwise = real_ip_or (get r.header (codes "X-Real-Ip")) (peer_of o r)

    named : Bytes → Bytes
    named part = if eq (trim_space part) [] then otherwise else trim_space part

-- From a peer that is not trusted no header counts: neither for the client's address nor for the transport.
pub client_ip_untrusted :
    (o : Options) (r : Request) (header : Header)
    → is_trusted o (peer_of o r) ≡ false
    → (client_ip o (record r { header = header }) ≡ peer_of o r)
      × (is_secure_request o (record r { header = header }) ≡ r.tls)
unfolding client_ip is_secure_request peer_of
client_ip_untrusted o r header untrusted = (rw untrusted refl, rw untrusted (by_transport r.tls))
  where
    by_transport : (b : Bool) → (if b then true else false) ≡ b
    by_transport true = refl
    by_transport false = refl
