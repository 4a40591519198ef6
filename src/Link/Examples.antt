-- ===== src/Link/Examples.antt =====
-- A small `UrlLib` that reads "https://host" and takes anything else for a path, and the theorems on
-- links with it.
use bumshi.Common.{
  false, Option, some, [], ◌++◌, ◌≡◌, inr, refl, arith, Bytes, codes, if◌then◌else◌, drop,
}
use bumshi.Strings.{to_lower, has_prefix, eq, trim_space}
use bumshi.Base64
use bumshi.Base64.{url_alphabet, std_alphabet}
use bumshi.Base64.RoundTrip.{decode-encode}
use bumshi.Link.{begins_with_any, Url, UrlLib, ok, encode_string, check_url, decode}
use bumshi.Link.Laws.{is_kept, IsTarget, decode-IsTarget}

abbrev https : Bytes
https = codes "https://"

abbrev site : Bytes → Bytes → Url
site host path = record {
  scheme = codes "https";
  host = host;
  path = path;
  raw_path = [];
  raw_query = [];
  force_query = false;
  fragment = [];
}

abbrev toy_parse : Bytes → Option Url
toy_parse s = if has_prefix s https then some (site (drop 8 s) []) else some (site [] s)

abbrev toy : UrlLib
toy = record {
  parse = toy_parse;
  to_string = λ u. https ++ (u.host ++ u.path);
  resolve_reference = λ base u. if eq u.host [] then record base { path = u.path } else u;
  hostname = λ u. u.host;
  port = λ u. [];
  escaped_path = λ u. u.path;
}

abbrev raw : Bytes
raw = codes "https://a.io"

abbrev page : Url
page = site (codes "a.io") []

link_text : encode_string raw ≡ codes "/p/aHR0cHM6Ly9hLmlv"
unfolding encode_string Base64.encode
link_text = refl

link_target : decode toy (codes "/p/aHR0cHM6Ly9hLmlv/x") ≡ ok page
unfolding decode Base64.decode check_url eq has_prefix
link_target = refl

decode-encode_example :
    Base64.decode std_alphabet (Base64.encode std_alphabet (codes "salt")) ≡ some (codes "salt")
decode-encode_example = decode-encode std_alphabet (codes "salt") (inr refl) (omega arith)

decode-IsTarget_example : IsTarget page
decode-IsTarget_example = decode-IsTarget toy (codes "/p/aHR0cHM6Ly9hLmlv/x") link_target

-- The path is no reference that is kept.
path_goes : is_kept toy page (codes "/q") ≡ false
unfolding is_kept trim_space begins_with_any to_lower
path_goes = refl
