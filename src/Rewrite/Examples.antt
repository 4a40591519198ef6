-- ===== src/Rewrite/Examples.antt =====
-- The theorems on the rewriter at concrete inputs.
use bumshi.Common.{false, none, some, [], ◌≡◌, inl, refl, arith, Bytes, codes}
use bumshi.Link.{Url, UrlLib, resolve, resolve_parsed}
use bumshi.Rewrite.Entities.{unescape_html, escape_attr_value}
use bumshi.Rewrite.Entities.RoundTrip.{unescape_html-escape_attr_value}
use bumshi.Rewrite.Tokens.{parse_start_tag}
use bumshi.Rewrite.Tokens.Bounds.{Spanned, parse_start_tag-Spanned}
use bumshi.Rewrite.Scan.Pieces.{Pieces}
use bumshi.Rewrite.Document.{html}
use bumshi.Rewrite.Document.Total.{IsBase, html-Pieces}

-- Nothing can be parsed.
abbrev blank : Url
blank = record {
  scheme = codes "https";
  host = codes "a.io";
  path = [];
  raw_path = [];
  raw_query = [];
  force_query = false;
  fragment = [];
}

abbrev no_urls : UrlLib
no_urls = record {
  parse = λ s. none;
  to_string = λ u. u.host;
  resolve_reference = λ base u. u;
  hostname = λ u. u.host;
  port = λ u. [];
  escaped_path = λ u. u.path;
}

abbrev document : Bytes
document = codes "<p>a</p><a href=x>b"

html-Pieces_example :
    (base : Url) × IsBase no_urls blank base
    × ((out : Bytes) × (html no_urls blank document ≡ some out)
        × Pieces no_urls base document document out)
html-Pieces_example = html-Pieces no_urls blank document

parse_start_tag-Spanned_example : Spanned document 8 (parse_start_tag document 8)
parse_start_tag-Spanned_example = parse_start_tag-Spanned document 8 (omega arith)

abbrev attribute : Bytes
attribute = codes "a&b\"c&amp;"

unescape_html-escape_attr_value_example :
    unescape_html (escape_attr_value attribute b'"') ≡ attribute
unescape_html-escape_attr_value_example = unescape_html-escape_attr_value b'"' attribute (inl refl)

-- With a parser that reads nothing, `Resolve` leaves every reference alone.
resolve_unparsed : (v : Bytes) → resolve no_urls blank v ≡ v
unfolding resolve resolve_parsed
resolve_unparsed v = ground arith
