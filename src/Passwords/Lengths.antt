-- ===== src/Passwords/Lengths.antt =====
-- server/internal/auth/pbkdf2.go: the length and the bytes of a derived key.
use bumshi.Common.{
  ℕ, zero, suc, ◌+◌, ◌-◌, ◌*◌, ◌/◌, ◌%◌, ◌<◌, ◌≤◌, bit_xor, All-append, [], ◌∷◌, ◌++◌, ◌≡◌, refl,
  ◌∙◌, arith, Bytes, length, take, length-append, length-take,
}
use native.Mathlib.Nat.{mod-lt, mul_comm}
use native.Mathlib.Omega.{div_any}
use bumshi.Base64.RoundTrip.{IsBytes}
use bumshi.Passwords.{Prf, xor_into, block_number, rounds, derive_block, blocks, pbkdf2}

-- Every byte of a text stays one, and a text keeps its length.
length-xor_into : (t u : Bytes) → length (xor_into t u) ≡ length t
unfolding xor_into
length-xor_into [] u = refl
length-xor_into (x ∷ t) [] = refl
length-xor_into (x ∷ t) (y ∷ u) = omega (arith, length-xor_into t u)

IsBytes-xor_into : (t u : Bytes) → IsBytes t → IsBytes (xor_into t u)
unfolding xor_into
IsBytes-xor_into [] u h = tt
IsBytes-xor_into (x ∷ t) [] h = h
IsBytes-xor_into (x ∷ t) (y ∷ u) (hx, h) =
    (mod-lt (bit_xor x y) (omega arith), IsBytes-xor_into t u h)

more_blocks : {a b : ℕ} (left s : ℕ) → a ≡ s → b ≡ left * s → a + b ≡ suc left * s
more_blocks left s ea eb =
    let next : suc left * s ≡ s + left * s = ground arith in omega (arith, next, ea, eb)

IsBytes-take : (n : ℕ) (t : Bytes) → IsBytes t → IsBytes (take n t)
IsBytes-take zero t h = tt
IsBytes-take (suc n) [] h = tt
IsBytes-take (suc n) (x ∷ t) (hx, h) = (hx, IsBytes-take n t h)

module _ (prf : Prf) (size : (key text : Bytes) → length (prf.sum key text) ≡ prf.size)
    (bytes : (key text : Bytes) → IsBytes (prf.sum key text)) (password : Bytes) where
  rounds_shape :
      (left : ℕ) (u t : Bytes)
      → length t ≡ prf.size
      → IsBytes t
      → (length (rounds prf password left u t) ≡ prf.size) × IsBytes (rounds prf password left u t)
  unfolding rounds
  rounds_shape zero u t e h = (e, h)
  rounds_shape (suc left) u t e h =
      let u' = prf.sum password u in
      rounds_shape left u' (xor_into t u') (length-xor_into t u' ∙ e) (IsBytes-xor_into t u' h)

  blocks_shape :
      (salt : Bytes) (iter left i : ℕ)
      → (length (blocks prf password salt iter left i) ≡ left * prf.size)
        × IsBytes (blocks prf password salt iter left i)
  unfolding blocks derive_block
  blocks_shape salt iter zero i = (omega arith, tt)
  blocks_shape salt iter (suc left) i =
      let start = prf.sum password (salt ++ block_number i) in
      let (e1, h1) =
        rounds_shape (iter - 1) start start (size password (salt ++ block_number i))
          (bytes password (salt ++ block_number i)) in
      let (e2, h2) = blocks_shape salt iter left (i + 1) in
      (
        length-append (derive_block prf password salt iter i)
              (blocks prf password salt iter left (i + 1))
            ∙ more_blocks left prf.size e1 e2,
        All-append _ (derive_block prf password salt iter i)
            (blocks prf password salt iter left (i + 1)) h1 h2,
      )

enough_blocks : (k s : ℕ) → 0 < s → k ≤ (k + s - 1) / s * s
enough_blocks k s h =
    let whole : s * ((k + s - 1) / s) + (k + s - 1) % s ≡ k + s - 1 = div_any (k + s - 1) s in
    let rest : (k + s - 1) % s < s = mod-lt (k + s - 1) h in
    let turn : s * ((k + s - 1) / s) ≡ (k + s - 1) / s * s = mul_comm s ((k + s - 1) / s) in
    omega (arith, whole, rest, turn)

-- A key has the length that is asked for.
pub length-pbkdf2 :
    (prf : Prf) (password salt : Bytes) (iter key_len : ℕ)
    → ((key text : Bytes) → length (prf.sum key text) ≡ prf.size)
    → ((key text : Bytes) → IsBytes (prf.sum key text))
    → 0 < prf.size
    → length (pbkdf2 prf password salt iter key_len) ≡ key_len
unfolding pbkdf2
length-pbkdf2 prf password salt iter key_len size bytes some_size =
    let n : ℕ = (key_len + prf.size - 1) / prf.size in
    let all = length-take key_len (blocks prf password salt iter n 1) in
    let long = (blocks_shape prf size bytes password salt iter n 1).0 in
    let enough = enough_blocks key_len prf.size some_size in omega (arith, all, long, enough)

pub pbkdf2-IsBytes :
    (prf : Prf) (password salt : Bytes) (iter key_len : ℕ)
    → ((key text : Bytes) → length (prf.sum key text) ≡ prf.size)
    → ((key text : Bytes) → IsBytes (prf.sum key text))
    → IsBytes (pbkdf2 prf password salt iter key_len)
unfolding pbkdf2
pbkdf2-IsBytes prf password salt iter key_len size bytes =
    IsBytes-take key_len (blocks prf password salt iter ((key_len + prf.size - 1) / prf.size) 1)
      (blocks_shape prf size bytes password salt iter ((key_len + prf.size - 1) / prf.size) 1).1
