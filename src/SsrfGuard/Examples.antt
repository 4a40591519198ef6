-- ===== src/SsrfGuard/Examples.antt =====
-- The guard at concrete addresses.
use bumshi.Common.{◌+◌, ◌*◌, ◌^◌, true, false, some, ◌≡◌, refl, codes}
use bumshi.SsrfGuard.{v4, v6, ip, is_public, control, blocked_address}
use bumshi.SsrfGuard.Ranges.{reachable, is_public-reachable}

is_public-reachable_example : is_public (v4 (ip 100 127 0 1)) ≡ reachable (v4 (ip 100 127 0 1))
is_public-reachable_example = is_public-reachable (v4 (ip 100 127 0 1))

carrier_is_refused : is_public (v4 (ip 100 127 0 1)) ≡ false
unfolding is_public
carrier_is_refused = refl

resolver_is_public : is_public (v4 (ip 8 8 8 8)) ≡ true
unfolding is_public
resolver_is_public = refl

-- The mapped form of 127.0.0.1, and a documentation address with a zone.
mapped_is_refused : is_public (v6 (0xffff * 2 ^ 32 + ip 127 0 0 1) false) ≡ false
unfolding is_public
mapped_is_refused = refl

zoned_is_public : is_public (v6 (0x20010db8 * 2 ^ 96 + 1) true) ≡ true
unfolding is_public
zoned_is_public = refl

control_refuses :
    control (λ s. some s) (λ s. some (v4 (ip 10 0 0 1))) (codes "10.0.0.1") ≡ some blocked_address
unfolding control
control_refuses = refl
