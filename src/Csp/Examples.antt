-- ===== src/Csp/Examples.antt =====
-- The theorems on policies at concrete inputs.
use bumshi.Common.{List, [], ◌∷◌, ◌≡◌, refl, Bytes, codes}
use bumshi.Strings.{join, split, to_lower}
use bumshi.Csp.{rewrite_csp}
use bumshi.Csp.Policy.{IsTranslation, rewrite_csp-IsTranslation}

abbrev policy : Bytes
policy = codes "script-src 'none'; img-src https://a.io data:; report-uri /r"

abbrev sources : List Bytes
sources = codes "https://a.io" ∷ codes "*.b.io" ∷ codes "data:" ∷ []

rewrite_csp-IsTranslation_example :
    (ds : List Bytes) × (rewrite_csp policy (codes "N") ≡ join ds (codes "; "))
    × IsTranslation (codes "N") (split policy b';') ds
rewrite_csp-IsTranslation_example = rewrite_csp-IsTranslation policy (codes "N")

policy_text : rewrite_csp policy (codes "N") ≡ codes "script-src 'nonce-N'; img-src 'self' data:"
unfolding rewrite_csp to_lower
policy_text = refl
