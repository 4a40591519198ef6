-- ===== src/Link.antt =====
-- server/internal/proxy/link/link.go: proxy links. What the file calls of net/url is the parameter
-- `lib`, a `UrlLib`.
pub mod Laws
mod Examples
use bumshi.Common.{
  ℕ, Bool, true, false, not, ◌&&◌, ◌||◌, Option, none, some, List, [], ◌∷◌, ◌++◌, Bytes, codes,
  if◌then◌else◌, take,
}
use bumshi.Strings.{to_lower, eq, has_prefix, index_byte, trim_prefix, trim_space}
use bumshi.Base64
use bumshi.Base64.{url_alphabet}

-- The fields of `url.URL` that the program reads or writes.
pub record Url : Type 0 where
  pub scheme : Bytes
  pub host : Bytes
  pub path : Bytes
  pub raw_path : Bytes
  pub raw_query : Bytes
  pub force_query : Bool
  pub fragment : Bytes

-- `url.Parse`, and the methods of `url.URL` that the program calls.
pub record UrlLib : Type 0 where
  pub parse : Bytes → Option Url
  pub to_string : Url → Bytes
  pub resolve_reference : Url → Url → Url
  pub hostname : Url → Bytes
  pub port : Url → Bytes
  pub escaped_path : Url → Bytes

-- `Prefix`
abbrev pub prefix : Bytes
prefix = codes "/p/"

pub data LinkError : Type 0 where
  err_empty err_malformed err_scheme : LinkError

pub data Decoded : Type 0 where
  ok : Url → Decoded
  err : LinkError → Decoded

abbrev pub non_navigational : List Bytes
non_navigational =
    codes "#"
    ∷ codes "data:"
    ∷ codes "blob:"
    ∷ codes "mailto:"
    ∷ codes "tel:"
    ∷ codes "javascript:"
    ∷ codes "about:"
    ∷ codes "ws:"
    ∷ codes "wss:"
    ∷ []

-- `EncodeString`
unfoldable pub encode_string : Bytes → Bytes
encode_string raw = prefix ++ Base64.encode url_alphabet raw

-- `u.Scheme == "http" || u.Scheme == "https"`
unfoldable pub is_http : Bytes → Bool
unfolding eq
is_http scheme = eq scheme (codes "http") || eq scheme (codes "https")

unfoldable pub first_segment : Bytes → Bytes
unfolding index_byte
first_segment token = elim (index_byte token b'/') [ none ↦ token | some i ↦ take i token ]

-- The first segment behind the prefix.
unfoldable pub token_of : Bytes → Bytes
unfolding trim_prefix first_segment
token_of path = first_segment (trim_prefix path prefix)

-- What `Decode` checks of the parsed target.
unfoldable pub check_url : Option Url → Decoded
unfolding is_http
check_url none = err err_malformed
check_url (some u) =
    if not (is_http u.scheme)
    then err err_scheme
    else if eq u.host []
    then err err_malformed
    else ok u

-- A reference that must stay as it is written: one of the prefixes, after lower-casing.
unfoldable pub begins_with_any : Bytes → List Bytes → Bool
unfolding has_prefix
begins_with_any s [] = false
begins_with_any s (p ∷ ps) = has_prefix s p || begins_with_any s ps

module _ (lib : UrlLib) where
  -- `Encode`
  unfoldable pub encode : Url → Bytes
  encode target = prefix ++ Base64.encode url_alphabet (lib.to_string target)

  unfoldable pub decode_token : Bytes → Decoded
  unfolding check_url
  decode_token token = elim (Base64.decode url_alphabet token) [
    | none ↦ err err_malformed
    | some raw ↦ check_url (lib.parse raw)
  ]

  -- `Decode`
  unfoldable pub decode : Bytes → Decoded
  unfolding decode_token token_of
  decode path =
      let token = token_of path in if eq token [] then err err_empty else decode_token token

  -- `DecodeRequest`
  unfoldable pub decode_request : Bytes → Bytes → Decoded
  unfolding decode
  decode_request escaped_path raw_query = elim (decode escaped_path) [
    | err e ↦ err e
    | ok u ↦ ok (
        if not (eq raw_query [])
        then record u { raw_query = raw_query; force_query = false }
        else u)
  ]

  -- The end of `Resolve`, from the parsed reference on.
  unfoldable pub resolve_parsed : Url → Bytes → Option Url → Bytes
  unfolding encode is_http
  resolve_parsed base ref none = ref
  resolve_parsed base ref (some u) =
      let abs = lib.resolve_reference base u in if not (is_http abs.scheme) then ref else encode abs

  -- `Resolve`
  unfoldable pub resolve : Url → Bytes → Bytes
  unfolding resolve_parsed
  resolve base ref =
      let trimmed = trim_space ref in
      if eq trimmed []
      then ref
      else if begins_with_any (to_lower trimmed) non_navigational
      then ref
      else resolve_parsed base ref (lib.parse trimmed)
