-- ===== src/Middleware/Logs.antt =====
-- server/internal/httpx/middleware.go: what the access log says of a response, and of a path.
use bumshi.Common.{
  ℕ, ◌+◌, Bool, true, false, Option, none, some, List, [], ◌∷◌, ◌++◌, ◌≡◌, refl, ap, arith, Bytes,
  codes, length, if◌then◌else◌,
}
use bumshi.Strings.{eq}
use bumshi.Middleware.{
  Request, Act, set_header, write_header, write, Handler, new_recorder, record_header, record_write,
  recorded, proxy_path_prefix, redact_path, access_log,
}

-- The status that net/http sends for some acts: the first one, or 200 for a body without one.
unfoldable pub sent_status : List Act → ℕ
sent_status [] = 200
sent_status (set_header k v ∷ acts) = sent_status acts
sent_status (write_header code ∷ acts) = code
sent_status (write b ∷ acts) = 200

-- The length of the body.
unfoldable pub sent_bytes : List Act → ℕ
sent_bytes [] = 0
sent_bytes (set_header k v ∷ acts) = sent_bytes acts
sent_bytes (write_header code ∷ acts) = sent_bytes acts
sent_bytes (write b ∷ acts) = length b + sent_bytes acts

-- Once a status is recorded it stays, and every further one is withheld.
recorded_wrote :
    (acts : List Act) (status bytes : ℕ)
    → ((recorded (record { status = status; bytes = bytes; wrote = true }) acts).0.status ≡ status)
      × ((recorded (record { status = status; bytes = bytes; wrote = true }) acts).0.bytes
          ≡ bytes + sent_bytes acts)
      × (sent_bytes (recorded (record { status = status; bytes = bytes; wrote = true }) acts).1
          ≡ sent_bytes acts)
unfolding recorded record_header record_write sent_bytes
recorded_wrote [] status bytes = (refl, omega arith, refl)
recorded_wrote (set_header k v ∷ acts) status bytes = recorded_wrote acts status bytes
recorded_wrote (write_header code ∷ acts) status bytes = recorded_wrote acts status bytes
recorded_wrote (write b ∷ acts) status bytes =
    let (same, more, kept) = recorded_wrote acts status (bytes + length b) in
    (same, omega (arith, more), omega (arith, kept))

-- What the recorder has seen of a handler is what the client is sent: the status is the one that goes
-- out, the one the handler chose first, and the count is the length of the body.
pub recorded_lem :
    (acts : List Act)
    → ((recorded new_recorder acts).0.status ≡ sent_status acts)
      × (sent_status (recorded new_recorder acts).1 ≡ sent_status acts)
      × ((recorded new_recorder acts).0.bytes ≡ sent_bytes acts)
      × (sent_bytes (recorded new_recorder acts).1 ≡ sent_bytes acts)
unfolding recorded record_header record_write sent_status sent_bytes
recorded_lem [] = (refl, refl, refl, refl)
recorded_lem (set_header k v ∷ acts) = recorded_lem acts
recorded_lem (write_header code ∷ acts) =
    let (same, more, kept) = recorded_wrote acts code 0 in (same, refl, omega (arith, more), kept)
recorded_lem (write b ∷ acts) =
    let (same, more, kept) = recorded_wrote acts 200 (0 + length b) in
    (same, refl, omega (arith, more), omega (arith, kept))

-- A request for the proxy, with what follows the prefix.
abbrev pub proxied : Request → Bytes → Request
proxied r rest = record r { path = proxy_path_prefix ++ rest }

redact_path-prefix :
    (rest : Bytes)
    → redact_path (proxy_path_prefix ++ rest) ≡ proxy_path_prefix ++ codes "(redacted)"
unfolding redact_path eq
redact_path-prefix rest = refl

-- The access log tells nothing of where a proxied request goes: for two targets that a handler answers
-- alike the lines are the same.
pub access_log-proxied :
    (enabled : Option Bool) (next : Handler) (r : Request) (one other : Bytes)
    → next (proxied r one) ≡ next (proxied r other)
    → (access_log enabled next (proxied r one)).1 ≡ (access_log enabled next (proxied r other)).1
unfolding access_log redact_path
access_log-proxied none next r one other h = refl
access_log-proxied (some false) next r one other h = refl
access_log-proxied (some true) next r one other h =
    ap
      (λ done.
        if done.panics
        then none
        else some (record {
          request_id = r.request_id;
          method = r.method;
          path = proxy_path_prefix ++ codes "(redacted)";
          status = (recorded new_recorder done.acts).0.status;
          bytes = (recorded new_recorder done.acts).0.bytes;
        }))
      h
