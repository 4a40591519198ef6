-- ===== src/Passwords/Definition.antt =====
-- PBKDF2 as RFC 8018, 5.2, defines it, over octets. Nothing here is taken from the code but the record of
-- the pseudorandom function.
use bumshi.Common.{ℕ, zero, suc, ◌+◌, ◌-◌, ◌/◌, ◌%◌, bit_xor, [], ◌∷◌, ◌++◌, Bytes, take}
use bumshi.Passwords.{Prf}

-- A number in so many octets, the most significant octet first.
unfoldable pub big_endian : ℕ → ℕ → Bytes
big_endian zero i = []
big_endian (suc n) i = big_endian n (i / 256) ++ i % 256 ∷ []

-- XOR of two texts of one length.
unfoldable pub xor_octets : Bytes → Bytes → Bytes
xor_octets [] u = []
xor_octets (x ∷ t) [] = []
xor_octets (x ∷ t) (y ∷ u) = bit_xor x y ∷ xor_octets t u

module _ (prf : Prf) (password salt : Bytes) where
  -- U_1 = PRF(P, S || INT(i)), and U_n = PRF(P, U_{n-1}); counted from 0.
  unfoldable pub u : ℕ → ℕ → Bytes
  unfolding big_endian
  u i zero = prf.sum password (salt ++ big_endian 4 i)
  u i (suc n) = prf.sum password (u i n)

  -- F(P, S, c, i) = U_1 XOR U_2 XOR ... XOR U_c; counted from 0.
  unfoldable pub f : ℕ → ℕ → Bytes
  unfolding xor_octets u
  f i zero = u i zero
  f i (suc n) = xor_octets (f i n) (u i (suc n))

  -- T_i || T_{i+1} || ..., for as many blocks as are left.
  unfoldable pub t_blocks : ℕ → ℕ → ℕ → Bytes
  unfolding f
  t_blocks iter zero i = []
  t_blocks iter (suc left) i = f i (iter - 1) ++ t_blocks iter left (i + 1)

  -- DK = the first dkLen octets of T_1 || ... || T_l.
  unfoldable pub derived_key : ℕ → ℕ → ℕ → Bytes
  unfolding t_blocks
  derived_key iter l key_len = take key_len (t_blocks iter l 1)
