-- ===== src/Middleware/Examples.antt =====
-- The theorems on the middleware at a concrete handler.
use bumshi.Common.{true, false, some, List, [], ◌∷◌, ◌≡◌, refl, Bytes, codes}
use bumshi.Middleware.{
  Request, Act, write_header, write, Handler, valid_request_id, redact_path, access_log,
}
use bumshi.Middleware.Logs.{proxied, access_log-proxied}

-- A handler that answers and then fails.
abbrev failing : Handler
failing = λ r. record { acts = write_header 404 ∷ write (codes "gone") ∷ []; panics = true }

abbrev asked : Request
asked = record { method = codes "GET"; path = codes "/"; header = []; request_id = [] }

abbrev fresh : Bytes
fresh = codes "0a1b"

fresh_valid : valid_request_id fresh ≡ true
unfolding valid_request_id
fresh_valid = refl

secret_path : redact_path (codes "/__bumshi__/auth") ≡ codes "/__bumshi__/auth (redacted)"
unfolding redact_path
secret_path = refl

abbrev twice : List Act
twice = write_header 404 ∷ write_header 200 ∷ write (codes "gone") ∷ []

abbrev plain : Handler
plain = λ r. record { acts = write (codes "ok") ∷ []; panics = false }

access_log-proxied_example :
    (access_log (some true) plain (proxied asked (codes "aHR0cA"))).1
    ≡ (access_log (some true) plain (proxied asked (codes "Zm9v"))).1
access_log-proxied_example =
    access_log-proxied (some true) plain asked (codes "aHR0cA") (codes "Zm9v") refl
