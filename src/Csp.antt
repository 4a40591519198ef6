-- ===== src/Csp.antt =====
-- server/internal/proxy/csp.go: translation of a Content-Security-Policy for the proxy's origin. The
-- random nonce is an argument.
pub mod Sources
pub mod Policy
mod Examples
use bumshi.Common.{
  Bool, true, false, not, ◌&&◌, ◌||◌, Option, none, some, List, [], ◌∷◌, ◌++◌, Bytes, codes,
  if◌then◌else◌,
}
use bumshi.Strings.{contains, eq, fields, has_prefix, join, split, to_lower}

abbrev pub source_keywords : List Bytes
source_keywords =
    codes "'self'"
    ∷ codes "'none'"
    ∷ codes "'unsafe-inline'"
    ∷ codes "'unsafe-eval'"
    ∷ codes "'unsafe-hashes'"
    ∷ codes "'wasm-unsafe-eval'"
    ∷ codes "'strict-dynamic'"
    ∷ codes "'report-sample'"
    ∷ codes "'inline-speculation-rules'"
    ∷ []

abbrev pub verbatim_directives : List Bytes
verbatim_directives =
    codes "upgrade-insecure-requests"
    ∷ codes "block-all-mixed-content"
    ∷ codes "sandbox"
    ∷ codes "require-trusted-types-for"
    ∷ codes "trusted-types"
    ∷ []

abbrev pub dropped_directives : List Bytes
dropped_directives = codes "report-uri" ∷ codes "report-to" ∷ []

abbrev pub script_directives : List Bytes
script_directives = codes "script-src" ∷ codes "script-src-elem" ∷ codes "default-src" ∷ []

abbrev pub local_schemes : List Bytes
local_schemes = codes "data:" ∷ codes "blob:" ∷ codes "filesystem:" ∷ codes "mediastream:" ∷ []

abbrev pub self_source : Bytes
self_source = codes "'self'"

abbrev pub none_source : Bytes
none_source = codes "'none'"

-- A nonce or a hash, by its lower-cased text.
unfoldable pub is_nonce_or_hash : Bytes → Bool
unfolding has_prefix
is_nonce_or_hash lower =
    has_prefix lower (codes "'nonce-")
    || has_prefix lower (codes "'sha256-")
    || (has_prefix lower (codes "'sha384-") || has_prefix lower (codes "'sha512-"))

-- The `switch` of `translateCSPSources`: what is added for one source.
unfoldable pub translated : Bytes → Bytes
unfolding contains is_nonce_or_hash
translated s =
    let lower = to_lower s in
    if contains source_keywords lower
    then lower
    else if is_nonce_or_hash lower
    then s
    else if contains local_schemes lower
    then lower
    else self_source

-- `add`: the keys of `seen` are the elements of `out`.
unfoldable pub add_source : List Bytes → Bytes → List Bytes
unfolding eq contains
add_source out s = if not (eq s []) && not (contains out s) then out ++ s ∷ [] else out

unfoldable pub translate_on : List Bytes → List Bytes → List Bytes
unfolding add_source translated
translate_on out [] = out
translate_on out (s ∷ sources) = translate_on (add_source out (translated s)) sources

-- `translateCSPSources`
unfoldable pub translate_sources : List Bytes → List Bytes
unfolding translate_on
translate_sources sources = translate_on [] sources

-- `removeCSPSource`
unfoldable pub remove_source : List Bytes → Bytes → List Bytes
unfolding eq
remove_source [] dropped = []
remove_source (s ∷ sources) dropped =
    let rest = remove_source sources dropped in if eq s dropped then rest else s ∷ rest

abbrev pub nonce_source : Bytes → Bytes
nonce_source nonce = codes "'nonce-" ++ (nonce ++ codes "'")

-- The sources of a directive for the injected runtime.
unfoldable pub admit_runtime : Bytes → Bytes → List Bytes → List Bytes
unfolding remove_source
admit_runtime name nonce sources =
    if contains script_directives name && not (eq nonce [])
    then remove_source sources none_source ++ nonce_source nonce ∷ []
    else sources

-- An empty list is written as 'none'.
unfoldable pub or_none : List Bytes → List Bytes
or_none [] = none_source ∷ []
or_none (s ∷ sources) = s ∷ sources

abbrev pub sources_for : Bytes → Bytes → List Bytes → List Bytes
sources_for name nonce sources = or_none (admit_runtime name nonce (translate_sources sources))

-- One round of `rewriteCSP`: what is appended for the words of a directive.
unfoldable pub directive : Bytes → List Bytes → Option Bytes
unfolding or_none admit_runtime translate_sources
directive nonce [] = none
directive nonce (word ∷ sources) =
    let name = to_lower word in
    if contains dropped_directives name
    then none
    else if contains verbatim_directives name
    then some (join (word ∷ sources) (codes " "))
    else some (name ++ (b' ' ∷ join (sources_for name nonce sources) (codes " ")))

unfoldable pub directives : Bytes → List Bytes → List Bytes
unfolding directive fields
directives nonce [] = []
directives nonce (raw ∷ raws) = elim (directive nonce (fields raw)) [
  | none ↦ directives nonce raws
  | some d ↦ d ∷ directives nonce raws
]

-- `rewriteCSP`; joining nothing gives the empty text.
unfoldable pub rewrite_csp : Bytes → Bytes → Bytes
unfolding directives join split
rewrite_csp policy nonce = join (directives nonce (split policy b';')) (codes "; ")
