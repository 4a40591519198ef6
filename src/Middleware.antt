-- ===== src/Middleware.antt =====
-- server/internal/httpx/middleware.go. A handler is a function on the request and the header that is staged,
-- which gives what is written, or panics; the texts that are random or of the clock are arguments.
pub mod Logs
pub mod Chains
pub mod Counts
mod Examples
use bumshi.Common.{
  ℕ, zero, suc, ◌+◌, Bool, true, false, not, ◌&&◌, ◌||◌, Option, none, some, List, [], ◌∷◌, ◌++◌,
  Bytes, codes, length, ltb, leb, ◌==◌, if◌then◌else◌,
}
use bumshi.Strings.{eq, has_prefix, within}
use bumshi.Headers.{Header, values, get, set, put}

-- `requestIDHeader`, as a header is looked up
abbrev pub request_id_header : Bytes
request_id_header = codes "X-Request-Id"

-- `http.Request`, as far as the middleware reads and changes it; the id is the context's.
pub record Request : Type 0 where
  pub method : Bytes
  pub path : Bytes
  pub header : Header
  pub request_id : Bytes

-- What a handler does with the writer it has, in order, and whether it panics in the end.
pub data Act : Type 0 where
  set_header : Bytes → Bytes → Act
  write_header : ℕ → Act
  write : Bytes → Act

pub record Run : Type 0 where
  pub acts : List Act
  pub panics : Bool

abbrev pub Handler : Type 0
Handler = Request → Run

abbrev pub Middleware : Type 0
Middleware = Handler → Handler

-- `Chain`
unfoldable pub chain : Handler → List Middleware → Handler
chain h [] = h
chain h (mw ∷ mws) = mw (chain h mws)

-- Some acts in front of a run.
abbrev pub before : List Act → Run → Run
before acts r = record r { acts = acts ++ r.acts }

is_id_byte : ℕ → Bool
is_id_byte c =
    within b'a' b'z' c || within b'A' b'Z' c || within b'0' b'9' c || c == b'-' || c == b'_'

pub all_id_bytes : Bytes → Bool
unfolding is_id_byte
all_id_bytes [] = true
all_id_bytes (c ∷ s) = if is_id_byte c then all_id_bytes s else false

-- `validRequestID`
unfoldable pub valid_request_id : Bytes → Bool
unfolding eq all_id_bytes
valid_request_id s = if eq s [] || ltb 128 (length s) then false else all_id_bytes s

-- The id that `RequestID` settles on.
unfoldable pub settled_id : Bytes → Bytes → Bytes
unfolding valid_request_id
settled_id fresh given = if valid_request_id given then given else fresh

-- `RequestID`, for the id that `newRequestID` gives
unfoldable pub request_id : Bytes → Middleware
unfolding settled_id values
request_id fresh next r =
    let id = settled_id fresh (get r.header request_id_header) in
    before (set_header request_id_header id ∷ []) (next (record r { request_id = id }))

-- `Recoverer`
unfoldable pub recoverer : Middleware
recoverer next r =
    let done = next r in
    if done.panics
    then record {
      acts =
          done.acts
          ++ set_header (codes "Content-Type") (codes "application/json; charset=utf-8")
            ∷ write_header 500
            ∷ write (codes "{\"error\":\"internal server error\"}")
            ∷ [];
      panics = false;
    }
    else done

-- `SecurityHeaders`
unfoldable pub security_headers : Middleware
security_headers next r =
    before
      (set_header (codes "X-Content-Type-Options") (codes "nosniff")
        ∷ set_header (codes "X-Frame-Options") (codes "DENY")
        ∷ set_header (codes "Referrer-Policy") (codes "no-referrer")
        ∷ set_header (codes "Cross-Origin-Opener-Policy") (codes "same-origin")
        ∷ [])
      (next r)

-- `responseRecorder`
pub record Recorder : Type 0 where
  pub status : ℕ
  pub bytes : ℕ
  pub wrote : Bool

abbrev pub new_recorder : Recorder
new_recorder = record { status = 200; bytes = 0; wrote = false }

-- `WriteHeader`, and whether it is passed on.
unfoldable pub record_header : Recorder → ℕ → Recorder × Bool
record_header rr code =
    if rr.wrote then (rr, false) else (record rr { status = code; wrote = true }, true)

-- `Write`, for a writer that takes all bytes.
unfoldable pub record_write : Recorder → Bytes → Recorder
unfolding record_header
record_write rr b =
    let rr' = if not rr.wrote then (record_header rr 200).0 else rr in
    record rr' { bytes = rr'.bytes + length b }

-- What the recorder makes of a handler's acts, and what it passes on.
unfoldable pub recorded : Recorder → List Act → Recorder × List Act
unfolding record_header record_write
recorded rr [] = (rr, [])
recorded rr (set_header k v ∷ acts) =
    let rest = recorded rr acts in (rest.0, set_header k v ∷ rest.1)
recorded rr (write_header code ∷ acts) =
    let one = record_header rr code in
    let rest = recorded one.0 acts in (rest.0, if one.1 then write_header code ∷ rest.1 else rest.1)
recorded rr (write b ∷ acts) =
    let rest = recorded (record_write rr b) acts in
    (rest.0, if rr.wrote then write b ∷ rest.1 else write_header 200 ∷ write b ∷ rest.1)

abbrev pub proxy_path_prefix : Bytes
proxy_path_prefix = codes "/p/"

abbrev pub redacted_paths : List Bytes
redacted_paths = codes "/__bumshi__/auth" ∷ []

-- The first redacted path that the path is.
unfoldable pub redacted_as : List Bytes → Bytes → Option Bytes
unfolding eq
redacted_as [] path = none
redacted_as (p ∷ ps) path =
    if eq path p then some (p ++ codes " (redacted)") else redacted_as ps path

-- `redactPath`
unfoldable pub redact_path : Bytes → Bytes
unfolding redacted_as has_prefix
redact_path path = elim (redacted_as redacted_paths path) [
  | some p ↦ p
  | none ↦
      if has_prefix path proxy_path_prefix then proxy_path_prefix ++ codes "(redacted)" else path
]

-- A line of the access log, without the duration.
pub record LogLine : Type 0 where
  pub request_id : Bytes
  pub method : Bytes
  pub path : Bytes
  pub status : ℕ
  pub bytes : ℕ

-- `AccessLog`: the run, and the line; `none` for a function `enabled` that is nil. A panic passes through
-- before the line is written.
unfoldable pub access_log : Option Bool → Handler → Request → Run × Option LogLine
unfolding recorded redact_path
access_log enabled next r = elim enabled [
  | none ↦ (next r, none)
  | some on ↦
      if on
      then (let done = next r in
          let rec = recorded new_recorder done.acts in
          (
            record { acts = rec.1; panics = done.panics },
            if done.panics
                then none
                else some (record {
                  request_id = r.request_id;
                  method = r.method;
                  path = redact_path r.path;
                  status = rec.0.status;
                  bytes = rec.0.bytes;
                }),
          ))
      else (next r, none)
]
