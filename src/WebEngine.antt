-- ===== src/WebEngine.antt =====
-- server/internal/webengine/webengine.go: where the bootstrap of the browser runtime is put.
pub mod Heads
pub mod Splice
mod Examples
use bumshi.Common.{
  ℕ, zero, suc, ◌+◌, ◌*◌, Bool, true, false, ◌&&◌, ◌||◌, Option, none, some, List, [], ◌∷◌, ◌++◌,
  Bytes, codes, length, take, drop, get_elem?, ◌==◌, if◌then◌else◌,
}
use bumshi.Strings.{contains_any, eq, index, index_byte, trim_prefix}
use bumshi.Maps.{Map, lookup}

-- `Prefix`
abbrev pub engine_prefix : Bytes
engine_prefix = codes "/__bumshi__/"

abbrev bootstrap_assets : List Bytes
bootstrap_assets = codes "codec.js" ∷ codes "rewriter.js" ∷ codes "client.js" ∷ []

script_tags : Bytes → List Bytes → Bytes
script_tags attr [] = []
script_tags attr (name ∷ names) =
    codes "<script"
    ++ (attr
        ++ (codes " src=\""
            ++ (engine_prefix ++ (name ++ (codes "\"></script>" ++ script_tags attr names)))))

-- `buildBootstrap`
unfoldable pub build_bootstrap : Bytes → Bytes
unfolding script_tags eq
build_bootstrap nonce =
    script_tags (if eq nonce [] then [] else codes " nonce=\"" ++ (nonce ++ codes "\""))
      bootstrap_assets

-- How the search for a head tag ends: at an offset, without one, or in a panic at an index that is out of range.
pub data HeadSearch : Type 0 where
  at_offset : ℕ → HeadSearch
  no_head panics : HeadSearch
  out_of_fuel : HeadSearch

unfoldable pub ends_head : ℕ → Bool
ends_head c =
    c == b'>' || c == b'/' || c == b' ' || c == b'\t' || (c == b'\n' || c == 12 || c == b'\r')

-- The loop of `headOpenTag` from the offset `from`; `lower` is what bytes.ToLower gives for the body. It
-- moves on by five bytes or more in each round.
unfoldable pub head_on : ℕ → Bytes → Bytes → ℕ → HeadSearch
unfolding index ends_head
head_on zero lower body from = out_of_fuel
head_on (suc fuel) lower body from = elim (index (drop from lower) (codes "<head")) [
  | none ↦ no_head
  | some k ↦ if from + k + 5 == length body then no_head else elim (get_elem? body (from + k + 5)) [
    | none ↦ panics
    | some c ↦ elim (ends_head c) [
      | true ↦ at_offset (from + k)
      | false ↦ head_on fuel lower body (from + k + 5)
    ]
  ]
]

-- `headOpenTag`
unfoldable pub head_open_tag : Bytes → Bytes → HeadSearch
unfolding head_on
head_open_tag lower body = head_on (length lower + 1) lower body 0

-- The body with the bootstrap at an offset.
abbrev pub splice : Bytes → ℕ → Bytes → Bytes
splice body pos bootstrap = take pos body ++ (bootstrap ++ drop pos body)

inject_at : Bytes → Bytes → HeadSearch → Option Bytes
unfolding index_byte
inject_at body bootstrap (at_offset i) = elim (index_byte (drop i body) b'>') [
  | none ↦ some (bootstrap ++ body)
  | some gt ↦ some (splice body (i + gt + 1) bootstrap)
]
inject_at body bootstrap no_head = some (bootstrap ++ body)
inject_at body bootstrap panics = none
inject_at body bootstrap out_of_fuel = none

-- `Inject`, where `lower` is bytes.ToLower; `none` is a panic.
unfoldable pub inject : (Bytes → Bytes) → Bytes → Bytes → Option Bytes
unfolding inject_at head_open_tag build_bootstrap
inject lower body nonce = inject_at body (build_bootstrap nonce) (head_open_tag (lower body) body)

-- What the handlers of the runtime answer: an error or a redirect with its cookie, an asset with its
-- header, or 404.
pub record AccessCookie : Type 0 where
  pub value : Bytes
  pub max_age : ℕ
  pub secure : Bool

pub data Served : Type 0 where
  missing_token not_found : Served
  see_other : Bytes → AccessCookie → Served
  asset : List (Bytes × Bytes) → Bytes → Served

-- `AuthHandler`, for the value of the query's parameter "t"
unfoldable pub auth_handler : Bool → Bytes → Served
unfolding eq
auth_handler secure token =
    if eq token []
    then missing_token
    else see_other (codes "/")
        (record { value = token; max_age = 400 * 24 * 60 * 60; secure = secure })

-- The header that `Handler` stages.
unfoldable pub asset_header : Bytes → List (Bytes × Bytes)
unfolding eq
asset_header name =
    (codes "Content-Type", codes "text/javascript; charset=utf-8")
    ∷ (codes "Cache-Control", codes "no-cache")
    ∷ (if eq name (codes "sw.js") then (codes "Service-Worker-Allowed", codes "/") ∷ [] else [])

-- `Handler`, for the embedded files
unfoldable pub asset_handler : Map Bytes → Bytes → Served
unfolding trim_prefix eq contains_any lookup asset_header
asset_handler files path =
    let name = trim_prefix path engine_prefix in
    if eq name [] || contains_any name (codes "/\\")
    then not_found
    else elim (lookup files name) [ none ↦ not_found | some text ↦ asset (asset_header name) text ]
