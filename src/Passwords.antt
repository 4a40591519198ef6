-- ===== src/Passwords.antt =====
-- server/internal/auth/password.go and pbkdf2.go. HMAC-SHA256 is a parameter: its sum of a message under a
-- key, and the length of its sums.
pub mod Definition
pub mod Derive
pub mod Lengths
pub mod RoundTrip
mod Examples
use bumshi.Common.{
  ℕ, zero, suc, ◌+◌, ◌-◌, ◌*◌, ◌/◌, ◌%◌, ◌^◌, bit_xor, Bool, true, false, not, Option, none, some,
  List, [], ◌∷◌, ◌++◌, Bytes, codes, length, take, if◌then◌else◌,
}
use bumshi.Strings.{ℤ, pos, negsuc, atoi, eq, itoa, join, split}
use bumshi.Base64.{std_alphabet, encode, decode}

pub record Prf : Type 0 where
  pub sum : Bytes → Bytes → Bytes
  pub size : ℕ

-- `t[x] ^= u[x]` for the bytes of `t`; `u` is as long, since both are sums.
unfoldable pub xor_into : Bytes → Bytes → Bytes
xor_into [] u = []
xor_into t [] = t
xor_into (x ∷ t) (y ∷ u) = bit_xor x y % 2 ^ 8 ∷ xor_into t u

-- The four bytes of a block's number.
unfoldable pub block_number : ℕ → Bytes
block_number i = i / 2 ^ 24 % 2 ^ 8 ∷ i / 2 ^ 16 % 2 ^ 8 ∷ i / 2 ^ 8 % 2 ^ 8 ∷ i % 2 ^ 8 ∷ []

-- The inner loop, for the rounds that are left, on `u` and `t`.
unfoldable pub rounds : Prf → Bytes → ℕ → Bytes → Bytes → Bytes
unfolding xor_into
rounds prf password zero u t = t
rounds prf password (suc left) u t =
    let u' = prf.sum password u in rounds prf password left u' (xor_into t u')

-- One turn of the outer loop.
unfoldable pub derive_block : Prf → Bytes → Bytes → ℕ → ℕ → Bytes
unfolding rounds block_number
derive_block prf password salt iter i =
    let t = prf.sum password (salt ++ block_number i) in rounds prf password (iter - 1) t t

-- The outer loop, from block `i` on, for the blocks that are left.
unfoldable pub blocks : Prf → Bytes → Bytes → ℕ → ℕ → ℕ → Bytes
unfolding derive_block
blocks prf password salt iter zero i = []
blocks prf password salt iter (suc left) i =
    derive_block prf password salt iter i ++ blocks prf password salt iter left (i + 1)

-- `pbkdf2SHA256`
unfoldable pub pbkdf2 : Prf → Bytes → Bytes → ℕ → ℕ → Bytes
unfolding blocks
pbkdf2 prf password salt iter key_len =
    take key_len (blocks prf password salt iter ((key_len + prf.size - 1) / prf.size) 1)

abbrev pub iterations : ℕ
iterations = 600000

abbrev pub key_length : ℕ
key_length = 32

abbrev pub hash_scheme : Bytes
hash_scheme = codes "pbkdf2_sha256"

-- `HashPassword`, for a salt that was read, or none.
unfoldable pub hash_password : Prf → Option Bytes → Bytes → Option Bytes
unfolding join itoa encode pbkdf2
hash_password prf none password = none
hash_password prf (some salt) password = some (
    join
      (hash_scheme
        ∷ itoa iterations
        ∷ encode std_alphabet salt
        ∷ encode std_alphabet (pbkdf2 prf password salt iterations key_length)
        ∷ [])
      (codes "$"))

-- A number of iterations: not zero, not negative.
unfoldable pub iteration_count : Option ℤ → Option ℕ
iteration_count none = none
iteration_count (some (negsuc n)) = none
iteration_count (some (pos zero)) = none
iteration_count (some (pos (suc n))) = some (suc n)

-- What a stored hash says: its iterations, its salt and its key.
stored_hash : Bytes → Option (ℕ × Bytes × Bytes) → Option (ℕ × Bytes × Bytes)
stored_hash scheme parsed = if eq scheme hash_scheme then parsed else none

parse_fields : Option ℕ → Option Bytes → Option Bytes → Option (ℕ × Bytes × Bytes)
parse_fields (some iter) (some salt) (some want) = some (iter, salt, want)
parse_fields _ _ _ = none

pub parse_parts : List Bytes → Option (ℕ × Bytes × Bytes)
unfolding parse_fields stored_hash eq iteration_count atoi decode
parse_parts (scheme ∷ iter ∷ salt ∷ want ∷ []) = stored_hash scheme (
    parse_fields (iteration_count (atoi iter)) (decode std_alphabet salt)
      (decode std_alphabet want))
parse_parts _ = none

pub check_stored : Prf → Bytes → Option (ℕ × Bytes × Bytes) → Option Bool
unfolding pbkdf2 eq
check_stored prf password none = none
check_stored prf password (some (iter, salt, want)) =
    some (eq (pbkdf2 prf password salt iter (length want)) want)

-- `VerifyPassword`; `none` stands for `ErrInvalidHash`.
unfoldable pub verify_password : Prf → Bytes → Bytes → Option Bool
unfolding parse_parts split check_stored
verify_password prf encoded password = check_stored prf password (parse_parts (split encoded b'$'))
