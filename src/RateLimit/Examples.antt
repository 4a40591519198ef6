-- ===== src/RateLimit/Examples.antt =====
-- The limiter at concrete attempts.
use bumshi.Common.{◌≤◌, true, [], ◌∷◌, ◌≡◌, refl, arith, Bytes, codes}
use bumshi.Maps.{lookup}
use bumshi.RateLimit.{new_rate_limiter}
use bumshi.RateLimit.Laws.{granted, begins, granted_window}

abbrev ip : Bytes
ip = codes "10.0.0.1"

granted_window_example :
    granted (new_rate_limiter 2 60) ip ((5, ip) ∷ (6, ip) ∷ (7, codes "x") ∷ (8, ip) ∷ []) ≤ 2
granted_window_example =
    granted_window ((6, ip) ∷ (7, codes "x") ∷ (8, ip) ∷ []) (new_rate_limiter 2 60) 5 ip begun
      (omega arith) (omega arith, (omega arith, (omega arith, tt)))
  where
    begun : begins (new_rate_limiter 2 60) 5 ip ≡ true
    begun = unfold begins in unfold lookup in refl

two_of_three : granted (new_rate_limiter 2 60) ip ((5, ip) ∷ (6, ip) ∷ (8, ip) ∷ []) ≡ 2
unfolding granted
two_of_three = refl
