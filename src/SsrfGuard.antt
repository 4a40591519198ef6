-- ===== src/SsrfGuard.antt =====
-- server/internal/proxy/ssrfguard/ssrfguard.go: which addresses the proxy may connect to. An address is
-- the number of its 32 or 128 bits; what the guard uses of net/netip is written out.
pub mod Ranges
mod Examples
use bumshi.Common.{
  ℕ, ◌-◌, ◌*◌, ◌/◌, ◌%◌, ◌^◌, ◌+◌, Bool, true, false, not, ◌&&◌, ◌||◌, Option, none, some, List, [],
  ◌∷◌, Bytes, ◌==◌, if◌then◌else◌,
}

-- `netip.Addr`: the zero value, an IPv4 address, or an IPv6 address, and whether that has a zone.
pub data Addr : Type 0 where
  no_addr : Addr
  v4 : ℕ → Addr
  v6 : ℕ → Bool → Addr

-- The bits of four groups of 8 bits.
abbrev pub ip : ℕ → ℕ → ℕ → ℕ → ℕ
ip a b c d = ((a * 256 + b) * 256 + c) * 256 + d

-- `Addr.Unmap`: an IPv4 address that is mapped into IPv6 is taken out.
unfoldable pub unmap : Addr → Addr
unmap no_addr = no_addr
unmap (v4 n) = v4 n
unmap (v6 n zone) = if n / 2 ^ 32 == 0xffff then v4 (n % 2 ^ 32) else v6 n zone

-- Whether the first `bits` of 32, or of 128, are these.
abbrev top4 : ℕ → ℕ → ℕ → Bool
top4 bits first n = n / 2 ^ (32 - bits) == first

abbrev top6 : ℕ → ℕ → ℕ → Bool
top6 bits first n = n / 2 ^ (128 - bits) == first

unfoldable pub is_loopback : Addr → Bool
is_loopback no_addr = false
is_loopback (v4 n) = top4 8 127 n
is_loopback (v6 n zone) = n == 1

unfoldable pub is_private : Addr → Bool
is_private no_addr = false
is_private (v4 n) = top4 8 10 n || top4 12 (172 * 16 + 1) n || top4 16 (192 * 256 + 168) n
is_private (v6 n zone) = top6 7 0x7e n

-- A comparison with the two addresses, so that one with a zone differs.
unfoldable pub is_unspecified : Addr → Bool
is_unspecified no_addr = false
is_unspecified (v4 n) = n == 0
is_unspecified (v6 n zone) = n == 0 && not zone

unfoldable pub is_link_local_unicast : Addr → Bool
is_link_local_unicast no_addr = false
is_link_local_unicast (v4 n) = top4 16 (169 * 256 + 254) n
is_link_local_unicast (v6 n zone) = top6 10 0x3fa n

-- The scope of an IPv6 multicast address, the last 4 of its first 16 bits.
abbrev scope : ℕ → ℕ
scope n = n / 2 ^ 112 % 16

unfoldable pub is_link_local_multicast : Addr → Bool
is_link_local_multicast no_addr = false
is_link_local_multicast (v4 n) = top4 24 ((224 * 256 + 0) * 256 + 0) n
is_link_local_multicast (v6 n zone) = top6 8 0xff n && scope n == 2

unfoldable pub is_multicast : Addr → Bool
is_multicast no_addr = false
is_multicast (v4 n) = top4 4 14 n
is_multicast (v6 n zone) = top6 8 0xff n

unfoldable pub is_interface_local_multicast : Addr → Bool
is_interface_local_multicast no_addr = false
is_interface_local_multicast (v4 n) = false
is_interface_local_multicast (v6 n zone) = top6 8 0xff n && scope n == 1

-- `netip.Prefix`: the address of the network and its length.
pub data Prefix : Type 0 where
  prefix4 : ℕ → ℕ → Prefix
  prefix6 : ℕ → ℕ → Prefix

-- `Prefix.Contains`: only an address of the same family, and none with a zone.
unfoldable pub contains_addr : Prefix → Addr → Bool
contains_addr (prefix4 net bits) (v4 n) = n / 2 ^ (32 - bits) == net / 2 ^ (32 - bits)
contains_addr (prefix6 net bits) (v6 n zone) =
    not zone && n / 2 ^ (128 - bits) == net / 2 ^ (128 - bits)
contains_addr _ _ = false

abbrev pub blocked_prefixes : List Prefix
blocked_prefixes =
    prefix4 (ip 100 64 0 0) 10
    ∷ prefix4 (ip 192 0 0 0) 24
    ∷ prefix4 (ip 192 0 2 0) 24
    ∷ prefix4 (ip 198 18 0 0) 15
    ∷ prefix4 (ip 198 51 100 0) 24
    ∷ prefix4 (ip 203 0 113 0) 24
    ∷ prefix4 (ip 240 0 0 0) 4
    ∷ prefix6 (0x20010db8 * 2 ^ 96) 32
    ∷ []

unfoldable pub any_prefix : List Prefix → Addr → Bool
unfolding contains_addr
any_prefix [] a = false
any_prefix (p ∷ ps) a = contains_addr p a || any_prefix ps a

abbrev pub is_valid_addr : Addr → Bool
is_valid_addr no_addr = false
is_valid_addr _ = true

-- The tests of `IsPublic` on the address that was taken out.
unfoldable pub is_public_unmapped : Addr → Bool
unfolding is_loopback is_private is_unspecified is_link_local_unicast is_link_local_multicast
    is_multicast is_interface_local_multicast any_prefix
is_public_unmapped a =
    if not (is_valid_addr a)
    then false
    else if is_loopback a
        || is_private a
        || is_unspecified a
        || (is_link_local_unicast a || is_link_local_multicast a)
        || (is_multicast a || is_interface_local_multicast a)
    then false
    else not (any_prefix blocked_prefixes a)

-- `IsPublic`
unfoldable pub is_public : Addr → Bool
unfolding unmap is_public_unmapped
is_public a = is_public_unmapped (unmap a)

-- The errors of `Control`: the one of net.SplitHostPort, and ErrBlockedAddress.
pub data DialError : Type 0 where
  bad_host_port blocked_address : DialError

-- `Control`, with net.SplitHostPort and netip.ParseAddr; `none` lets the connection be made.
unfoldable pub control : (Bytes → Option Bytes) → (Bytes → Option Addr) → Bytes → Option DialError
unfolding is_public
control split_host parse_addr address = elim (split_host address) [
  | none ↦ some bad_host_port
  | some host ↦ elim (parse_addr host) [
    | none ↦ some blocked_address
    | some a ↦ if not (is_public a) then some blocked_address else none
  ]
]
