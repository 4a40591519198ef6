-- ===== src/Exchange/Examples.antt =====
-- The theorems on the upstream exchange at a concrete answer.
use bumshi.Common.{true, false, some, [], ◌∷◌, ◌++◌, ◌≡◌, refl, append-nil, arith, Bytes, codes}
use bumshi.Headers.{Header}
use bumshi.Request.Examples.{site, paths}
use bumshi.Response.Examples.{names}
use bumshi.Rewrite.Css.{Kind}
use bumshi.Exchange.{Proxy, Answer, should_inject, serve_rewritten}
use bumshi.Exchange.Bodies.{written, concat, serve_rewritten-whole}

abbrev proxy : Proxy
proxy = record {
  lib = paths;
  http = names;
  target = site (codes "/");
  secure = true;
  rewrite_max = 4;
  inject_html = some (λ body nonce. body ++ codes "+");
  fresh_nonce = codes "N";
  chunks = λ t. t ∷ [];
}

abbrev page : Bytes → Answer
page text = record {
  status = 200;
  header = (codes "Content-Type", codes "text/html" ∷ []) ∷ [];
  uncompressed = false;
  body = record { content = text; broken = false };
}

abbrev script : Header
script = (codes "Sec-Fetch-Dest", codes "empty" ∷ []) ∷ []

serve_rewritten-whole_example :
    written (serve_rewritten proxy script [] (page (codes "abcdefg")) Kind.html [])
    ≡ codes "abcdefg"
serve_rewritten-whole_example =
    serve_rewritten-whole proxy script [] (page (codes "abcdefg")) Kind.html [] one_piece not_asked
      (omega arith)
  where
    one_piece : (t : Bytes) → concat (proxy.chunks t) ≡ t
    one_piece t = unfold concat in append-nil t

    not_asked : should_inject script ≡ false
    not_asked = unfold should_inject in refl
