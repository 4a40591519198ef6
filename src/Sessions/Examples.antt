-- ===== src/Sessions/Examples.antt =====
-- The theorems on sessions at a concrete store.
use bumshi.Common.{[], ◌∷◌, ◌≡◌, arith, codes}
use bumshi.Sessions.{SessionStore, get_session}
use bumshi.Sessions.Laws.{live, live-get_session}

abbrev store : SessionStore
store = record {
  by_token = (codes "t", record { user = codes "root"; csrf = codes "c"; expiry = 100 }) ∷ [];
  ttl = 60;
}

live-get_session_example :
    live (get_session store 101 (codes "t")).0 102 (codes "t") ≡ live store 102 (codes "t")
live-get_session_example = live-get_session store 101 102 (codes "t") (codes "t") (omega arith)
