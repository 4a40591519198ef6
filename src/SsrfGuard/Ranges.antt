-- ===== src/SsrfGuard/Ranges.antt =====
-- server/internal/proxy/ssrfguard/ssrfguard.go: the addresses that are refused, as ranges.
use bumshi.Common.{
  ℕ, ◌-◌, ◌*◌, ◌/◌, ◌%◌, ◌^◌, Bool, true, false, not, ◌&&◌, ◌||◌, List, [], ◌∷◌, ◌≡◌, refl, ap, ◌∙◌,
  inl, inr, arith, if◌then◌else◌, ◌==◌, Bool-cases,
}
use bumshi.Strings.{within}
use bumshi.SsrfGuard.{
  Addr, no_addr, v4, v6, ip, unmap, is_loopback, is_private, is_unspecified, is_link_local_unicast,
  is_link_local_multicast, is_multicast, is_interface_local_multicast, blocked_prefixes,
  contains_addr, any_prefix, is_public_unmapped, is_public,
}

-- Whether a number lies in one of the ranges, the ends included.
unfoldable pub in_ranges : List (ℕ × ℕ) → ℕ → Bool
in_ranges [] n = false
in_ranges ((lo, hi) ∷ ranges) n = within lo hi n || in_ranges ranges n

-- Reserved ranges: for carriers, protocols, documentation, benchmarks and the future.
abbrev pub reserved4 : List (ℕ × ℕ)
reserved4 =
    (ip 100 64 0 0, ip 100 127 255 255)
    ∷ (ip 192 0 0 0, ip 192 0 0 255)
    ∷ (ip 192 0 2 0, ip 192 0 2 255)
    ∷ (ip 198 18 0 0, ip 198 19 255 255)
    ∷ (ip 198 51 100 0, ip 198 51 100 255)
    ∷ (ip 203 0 113 0, ip 203 0 113 255)
    ∷ (ip 240 0 0 0, ip 255 255 255 255)
    ∷ []

-- This machine, private networks, link-local and multicast addresses, and the reserved ranges.
abbrev pub refused4 : List (ℕ × ℕ)
refused4 =
    (ip 127 0 0 0, ip 127 255 255 255)
    ∷ (ip 10 0 0 0, ip 10 255 255 255)
    ∷ (ip 172 16 0 0, ip 172 31 255 255)
    ∷ (ip 192 168 0 0, ip 192 168 255 255)
    ∷ (0, 0)
    ∷ (ip 169 254 0 0, ip 169 254 255 255)
    ∷ (ip 224 0 0 0, ip 239 255 255 255)
    ∷ reserved4

-- The same for IPv6, with or without a zone; `::` and the documentation range are only refused without.
abbrev pub refused6 : List (ℕ × ℕ)
refused6 =
    (1, 1)
    ∷ (0xfc00 * 2 ^ 112, 0xfe00 * 2 ^ 112 - 1)
    ∷ (0xfe80 * 2 ^ 112, 0xfec0 * 2 ^ 112 - 1)
    ∷ (0xff00 * 2 ^ 112, 2 ^ 128 - 1)
    ∷ []

abbrev pub refused6_unzoned : List (ℕ × ℕ)
refused6_unzoned = (0, 0) ∷ (0x20010db8 * 2 ^ 96, 0x20010db9 * 2 ^ 96 - 1) ∷ []

-- The IPv4 addresses that are mapped into IPv6.
abbrev pub is_mapped : ℕ → Bool
is_mapped = within (0xffff * 2 ^ 32) (0x10000 * 2 ^ 32 - 1)

loopback4 : (n : ℕ) → is_loopback (v4 n) ≡ within (ip 127 0 0 0) (ip 127 255 255 255) n
unfolding is_loopback
loopback4 n = ground arith

private4 :
    (n : ℕ)
    → is_private (v4 n) ≡ (
        within (ip 10 0 0 0) (ip 10 255 255 255) n
        || within (ip 172 16 0 0) (ip 172 31 255 255) n
        || within (ip 192 168 0 0) (ip 192 168 255 255) n)
unfolding is_private
private4 n = ground arith

link_local4 :
    (n : ℕ) → is_link_local_unicast (v4 n) ≡ within (ip 169 254 0 0) (ip 169 254 255 255) n
unfolding is_link_local_unicast
link_local4 n = ground arith

link_local_multicast4 :
    (n : ℕ) → is_link_local_multicast (v4 n) ≡ within (ip 224 0 0 0) (ip 224 0 0 255) n
unfolding is_link_local_multicast
link_local_multicast4 n = ground arith

multicast4 : (n : ℕ) → is_multicast (v4 n) ≡ within (ip 224 0 0 0) (ip 239 255 255 255) n
unfolding is_multicast
multicast4 n = ground arith

unspecified4 : (n : ℕ) → is_unspecified (v4 n) ≡ within 0 0 n
unfolding is_unspecified
unspecified4 n = ground arith

reserved4_lem : (n : ℕ) → any_prefix blocked_prefixes (v4 n) ≡ in_ranges reserved4 n
unfolding any_prefix contains_addr in_ranges
reserved4_lem n = ground arith

-- The tests of the guard in one disjunction; `lm` is a part of `mc`.
one_test :
    (l p1 p2 p3 u ll lm mc r : Bool)
    → (lm && not mc) ≡ false
    → (if (l || (p1 || p2 || p3) || u || (ll || lm) || (mc || false)) then false else not r)
      ≡ not (l || (p1 || (p2 || (p3 || (u || (ll || (mc || r)))))))
one_test true p1 p2 p3 u ll lm mc r h = refl
one_test false true p2 p3 u ll lm mc r h = refl
one_test false false true p3 u ll lm mc r h = refl
one_test false false false true u ll lm mc r h = refl
one_test false false false false true ll lm mc r h = refl
one_test false false false false false true lm mc r h = refl
one_test false false false false false false true true r h = refl
one_test false false false false false false true false r h = absurd (cc h)
one_test false false false false false false false true r h = refl
one_test false false false false false false false false r h = refl

link_local_is_multicast4 :
    (n : ℕ)
    → (within (ip 224 0 0 0) (ip 224 0 0 255) n
        && not (within (ip 224 0 0 0) (ip 239 255 255 255) n))
      ≡ false
link_local_is_multicast4 n = ground arith

-- An IPv4 address is public exactly when it lies in none of the refused ranges.
pub is_public_unmapped-v4 : (n : ℕ) → is_public_unmapped (v4 n) ≡ not (in_ranges refused4 n)
unfolding is_public_unmapped is_interface_local_multicast in_ranges
is_public_unmapped-v4 n =
    rw
      (
        loopback4 n,
        private4 n,
        unspecified4 n,
        link_local4 n,
        link_local_multicast4 n,
        multicast4 n,
        reserved4_lem n,
      )
      (one_test (within (ip 127 0 0 0) (ip 127 255 255 255) n)
        (within (ip 10 0 0 0) (ip 10 255 255 255) n) (within (ip 172 16 0 0) (ip 172 31 255 255) n)
        (within (ip 192 168 0 0) (ip 192 168 255 255) n) (within 0 0 n)
        (within (ip 169 254 0 0) (ip 169 254 255 255) n) (within (ip 224 0 0 0) (ip 224 0 0 255) n)
        (within (ip 224 0 0 0) (ip 239 255 255 255) n) (in_ranges reserved4 n)
        (link_local_is_multicast4 n))

mapped_lem : (n : ℕ) → (n / 2 ^ 32 == 0xffff) ≡ is_mapped n
mapped_lem n = ground arith

loopback6 : (n : ℕ) (zone : Bool) → is_loopback (v6 n zone) ≡ within 1 1 n
unfolding is_loopback
loopback6 n zone = ground arith

private6 :
    (n : ℕ) (zone : Bool)
    → is_private (v6 n zone) ≡ within (0xfc00 * 2 ^ 112) (0xfe00 * 2 ^ 112 - 1) n
unfolding is_private
private6 n zone = ground arith

link_local6 :
    (n : ℕ) (zone : Bool)
    → is_link_local_unicast (v6 n zone) ≡ within (0xfe80 * 2 ^ 112) (0xfec0 * 2 ^ 112 - 1) n
unfolding is_link_local_unicast
link_local6 n zone = ground arith

multicast6 :
    (n : ℕ) (zone : Bool) → is_multicast (v6 n zone) ≡ within (0xff00 * 2 ^ 112) (2 ^ 128 - 1) n
unfolding is_multicast
multicast6 n zone = ground arith

-- The test for a scope of multicast adds nothing to the one for multicast.
scoped_is_multicast : (m s : Bool) → ((m && s) && not m) ≡ false
scoped_is_multicast true true = refl
scoped_is_multicast true false = refl
scoped_is_multicast false s = refl

unspecified6 : (n : ℕ) (zone : Bool) → is_unspecified (v6 n zone) ≡ (within 0 0 n && not zone)
unfolding is_unspecified
unspecified6 n zone = ap (λ b. b && not zone) zero
  where
    zero : (n == 0) ≡ within 0 0 n
    zero = ground arith

abbrev documentation6 : ℕ → Bool
documentation6 = within (0x20010db8 * 2 ^ 96) (0x20010db9 * 2 ^ 96 - 1)

documentation6_lem :
    (n : ℕ) (zone : Bool) → any_prefix blocked_prefixes (v6 n zone) ≡ (not zone && documentation6 n)
unfolding any_prefix contains_addr
documentation6_lem n zone =
    last (not zone && n / 2 ^ 96 == 0x20010db8) ∙ ap (λ b. not zone && b) doc
  where
    last : (b : Bool) → (b || false) ≡ b
    last true = refl
    last false = refl

    doc : (n / 2 ^ 96 == 0x20010db8) ≡ documentation6 n
    doc = ground arith

one_test6 :
    (z l p u ll lm mc il d : Bool)
    → (lm && not mc) ≡ false
    → (il && not mc) ≡ false
    → (if (l || p || (u && not z) || (ll || lm) || (mc || il)) then false else not (not z && d))
      ≡ not ((l || (p || (ll || (mc || false)))) || not z && (u || (d || false)))
one_test6 z true p u ll lm mc il d h h' = refl
one_test6 z false true u ll lm mc il d h h' = refl
one_test6 z false false u ll true false il d h h' = absurd (cc h)
one_test6 z false false u ll lm false true d h h' = absurd (cc h')
one_test6 true false false true true lm mc il d h h' = refl
one_test6 true false false true false true true il d h h' = refl
one_test6 true false false true false false true il d h h' = refl
one_test6 true false false true false false false false d h h' = refl
one_test6 true false false false true lm mc il d h h' = refl
one_test6 true false false false false true true il d h h' = refl
one_test6 true false false false false false true il d h h' = refl
one_test6 true false false false false false false false d h h' = refl
one_test6 false false false true true lm mc il d h h' = refl
one_test6 false false false true false lm true il d h h' = refl
one_test6 false false false true false false false false d h h' = refl
one_test6 false false false false true lm mc il d h h' = refl
one_test6 false false false false false true true il d h h' = refl
one_test6 false false false false false false true il d h h' = refl
one_test6 false false false false false false false false true h h' = refl
one_test6 false false false false false false false false false h h' = refl

is_public_unmapped-v6 :
    (n : ℕ) (zone : Bool)
    → is_public_unmapped (v6 n zone)
      ≡ not (in_ranges refused6 n || not zone && in_ranges refused6_unzoned n)
unfolding is_public_unmapped is_link_local_multicast is_interface_local_multicast is_multicast
    in_ranges
is_public_unmapped-v6 n zone =
    let top = n / 2 ^ 120 == 0xff in
    let s = n / 2 ^ 112 % 16 in
    rw
      (
        loopback6 n zone,
        private6 n zone,
        unspecified6 n zone,
        link_local6 n zone,
        documentation6_lem n zone,
      )
      (one_test6 zone (within 1 1 n) (within (0xfc00 * 2 ^ 112) (0xfe00 * 2 ^ 112 - 1) n)
          (within 0 0 n) (within (0xfe80 * 2 ^ 112) (0xfec0 * 2 ^ 112 - 1) n) (top && s == 2) top
          (top && s == 1) (documentation6 n) (scoped_is_multicast top (s == 2))
          (scoped_is_multicast top (s == 1))
        ∙ ap
            (λ m. not (
              (within 1 1 n
                || (within (0xfc00 * 2 ^ 112) (0xfe00 * 2 ^ 112 - 1) n
                    || (within (0xfe80 * 2 ^ 112) (0xfec0 * 2 ^ 112 - 1) n || (m || false))))
              || not zone && (within 0 0 n || (documentation6 n || false))))
            (multicast6 n zone))

-- What may be reached, by ranges alone: an IPv4 address that is mapped into IPv6 counts as that.
unfoldable pub reachable : Addr → Bool
unfolding in_ranges
reachable no_addr = false
reachable (v4 n) = not (in_ranges refused4 n)
reachable (v6 n zone) =
    if is_mapped n
    then not (in_ranges refused4 (n - 0xffff * 2 ^ 32))
    else not (in_ranges refused6 n || not zone && in_ranges refused6_unzoned n)

mapped_bits : (n : ℕ) → is_mapped n ≡ true → n % 2 ^ 32 ≡ n - 0xffff * 2 ^ 32
mapped_bits n h = ground arith

-- `IsPublic` lets an address through exactly when it lies outside the refused ranges of its family. An IPv4
-- address that is mapped into IPv6 is judged as an IPv4 address. The unspecified IPv6 address and the
-- IPv6 documentation range are refused only without a zone.
pub is_public-reachable : (a : Addr) → is_public a ≡ reachable a
unfolding is_public unmap reachable
is_public-reachable no_addr = unfold is_public_unmapped in refl
is_public-reachable (v4 n) = is_public_unmapped-v4 n
is_public-reachable (v6 n zone) = elim (Bool-cases (is_mapped n)) [
  | inl e ↦
      rw (mapped_lem n, e)
        (is_public_unmapped-v4 (n % 2 ^ 32)
          ∙ ap (λ k. not (in_ranges refused4 k)) (mapped_bits n e))
  | inr e ↦ rw (mapped_lem n, e) (is_public_unmapped-v6 n zone)
]
