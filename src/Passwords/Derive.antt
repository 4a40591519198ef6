-- ===== src/Passwords/Derive.antt =====
-- server/internal/auth/pbkdf2.go against the definition of PBKDF2 (RFC 8018, 5.2).
use bumshi.Common.{
  ℕ, zero, suc, ◌+◌, ◌-◌, ◌*◌, ◌/◌, ◌%◌, ◌<◌, ◌≤◌, ◌^◌, Bool, true, ◌&&◌, bit_xor, ltb, [], ◌∷◌,
  ◌++◌, ◌≡◌, refl, sym, ap, ◌∙◌, arith, Bytes, length, take,
}
use native.Mathlib.Nat.{div-div-eq-div-mul, lt_of_mul-lt-mul_right, mod-lt, mul_comm, mod-eq_of_lt}
use native.Mathlib.Omega.{div_any}
use bumshi.Base64.RoundTrip.{IsBytes}
use bumshi.Passwords.{Prf, xor_into, block_number, rounds, derive_block, blocks, pbkdf2}
use bumshi.Passwords.Definition.{big_endian, xor_octets, u, f, t_blocks, derived_key}

-- Over a small range, every value is checked by evaluation.
all_below : ℕ → (ℕ → Bool) → Bool
all_below zero p = true
all_below (suc n) p = p n && all_below n p

all_below-true : (n : ℕ) (p : ℕ → Bool) (x : ℕ) → all_below n p ≡ true → x < n → p x ≡ true
unfolding all_below
all_below-true zero p x h lt = absurd (omega (arith, lt))
all_below-true (suc n) p x h lt = ground (arith, all_below-true n p x)

xor_table : all_below 256 (λ x. all_below 256 (λ y. ltb (bit_xor x y) 256)) ≡ true
unfolding all_below
xor_table = refl

bit_xor-lt : (x y : ℕ) → x < 256 → y < 256 → bit_xor x y < 256
bit_xor-lt x y hx hy =
    let row = all_below-true 256 (λ x. all_below 256 (λ y. ltb (bit_xor x y) 256)) x xor_table hx in
    let cell = all_below-true 256 (λ y. ltb (bit_xor x y) 256) y row hy in ground (arith, cell)

xor_into-xor_octets :
    (s t : Bytes) → length s ≡ length t → IsBytes s → IsBytes t → xor_into s t ≡ xor_octets s t
unfolding xor_into xor_octets
xor_into-xor_octets [] t e hs ht = refl
xor_into-xor_octets (x ∷ s) [] e hs ht = absurd (omega (arith, e))
xor_into-xor_octets (x ∷ s) (y ∷ t) e (hx, hs) (hy, ht) =
    let within : bit_xor x y % 2 ^ 8 ≡ bit_xor x y = mod-eq_of_lt (bit_xor-lt x y hx hy) in
    ap (λ c. c ∷ xor_into s t) within
    ∙ ap (λ r. bit_xor x y ∷ r) (xor_into-xor_octets s t (omega (arith, e)) hs ht)

length-xor_octets : (s t : Bytes) → length s ≡ length t → length (xor_octets s t) ≡ length s
unfolding xor_octets
length-xor_octets [] t e = refl
length-xor_octets (x ∷ s) [] e = absurd (omega (arith, e))
length-xor_octets (x ∷ s) (y ∷ t) e =
    let rest = length-xor_octets s t (omega (arith, e)) in omega (arith, rest)

xor_octets-IsBytes : (s t : Bytes) → IsBytes s → IsBytes t → IsBytes (xor_octets s t)
unfolding xor_octets
xor_octets-IsBytes [] t hs ht = tt
xor_octets-IsBytes (x ∷ s) [] hs ht = tt
xor_octets-IsBytes (x ∷ s) (y ∷ t) (hx, hs) (hy, ht) =
    (bit_xor-lt x y hx hy, xor_octets-IsBytes s t hs ht)

block_number-big_endian : (i : ℕ) → block_number i ≡ big_endian 4 i
unfolding block_number big_endian
block_number-big_endian i =
    let two : i / 256 / 256 ≡ i / 2 ^ 16 = div-div-eq-div-mul i 256 256 in
    let three : i / 256 / 256 / 256 ≡ i / 2 ^ 24 =
      ap (λ k. k / 256) two ∙ div-div-eq-div-mul i (2 ^ 16) 256 in
    ap (λ k. k % 256 ∷ i / 2 ^ 16 % 256 ∷ i / 256 % 256 ∷ i % 256 ∷ []) (sym three)
    ∙ ap (λ k. i / 256 / 256 / 256 % 256 ∷ k % 256 ∷ i / 256 % 256 ∷ i % 256 ∷ []) (sym two)

less_blocks : (a b s : ℕ) → a * s < b * s + s → a ≤ b
less_blocks a b s h =
    let next : suc b * s ≡ s + b * s = ground arith in
    let fewer : a < suc b = lt_of_mul-lt-mul_right s (omega (arith, h, next)) in
    omega (arith, fewer)

-- The quotient of the code is CEIL(dkLen / hLen).
ceiling : (k s l : ℕ) → 0 < s → k ≤ l * s → l * s < k + s → (k + s - 1) / s ≡ l
ceiling k s l h enough least =
    let whole : s * ((k + s - 1) / s) + (k + s - 1) % s ≡ k + s - 1 = div_any (k + s - 1) s in
    let rest : (k + s - 1) % s < s = mod-lt (k + s - 1) h in
    let turn : s * ((k + s - 1) / s) ≡ (k + s - 1) / s * s = mul_comm s ((k + s - 1) / s) in
    let up : (k + s - 1) / s ≤ l =
      less_blocks ((k + s - 1) / s) l s (omega (arith, whole, rest, turn)) in
    let down : l ≤ (k + s - 1) / s =
      less_blocks l ((k + s - 1) / s) s (omega (arith, whole, rest, turn)) in
    omega arith

module _ (prf : Prf) (size : (key text : Bytes) → length (prf.sum key text) ≡ prf.size)
    (bytes : (key text : Bytes) → IsBytes (prf.sum key text)) (password salt : Bytes) where
  u_shape :
      (i n : ℕ) → (length (u prf password salt i n) ≡ prf.size) × IsBytes (u prf password salt i n)
  unfolding u
  u_shape i zero = (size password (salt ++ big_endian 4 i), bytes password (salt ++ big_endian 4 i))
  u_shape i (suc n) =
      (size password (u prf password salt i n), bytes password (u prf password salt i n))

  f_shape :
      (i n : ℕ) → (length (f prf password salt i n) ≡ prf.size) × IsBytes (f prf password salt i n)
  unfolding f
  f_shape i zero = u_shape i zero
  f_shape i (suc n) =
      let (e, h) = f_shape i n in
      let (e', h') = u_shape i (suc n) in
      (
        length-xor_octets _ (u prf password salt i (suc n)) (e ∙ sym e') ∙ e,
        xor_octets-IsBytes (f prf password salt i n) (u prf password salt i (suc n)) h h',
      )

  rounds_lem :
      (i left n : ℕ)
      → rounds prf password left (u prf password salt i n) (f prf password salt i n)
        ≡ f prf password salt i (left + n)
  unfolding rounds u f
  rounds_lem i zero n = let same : n ≡ 0 + n = omega arith in ap (f prf password salt i) same
  rounds_lem i (suc left) n =
      let (e, h) = f_shape i n in
      let (e', h') = u_shape i (suc n) in
      let later : left + suc n ≡ suc left + n = omega arith in
      ap (rounds prf password left (u prf password salt i (suc n))) (
        xor_into-xor_octets (f prf password salt i n) (u prf password salt i (suc n)) (e ∙ sym e') h
          h')
      ∙ rounds_lem i left (suc n)
      ∙ ap (f prf password salt i) later

  derive_block_lem :
      (iter i : ℕ) → derive_block prf password salt iter i ≡ f prf password salt i (iter - 1)
  unfolding derive_block u f
  derive_block_lem iter i =
      let none_before : iter - 1 + 0 ≡ iter - 1 = omega arith in
      ap (λ b. let t = prf.sum password (salt ++ b) in rounds prf password (iter - 1) t t)
        (block_number-big_endian i)
      ∙ rounds_lem i (iter - 1) 0
      ∙ ap (f prf password salt i) none_before

  blocks_lem :
      (iter left i : ℕ)
      → blocks prf password salt iter left i ≡ t_blocks prf password salt iter left i
  unfolding blocks t_blocks
  blocks_lem iter zero i = refl
  blocks_lem iter (suc left) i =
      rw (derive_block_lem iter i) (rw (blocks_lem iter left (i + 1)) refl)

-- The loops over one buffer derive the key that RFC 8018 defines as PBKDF2 from the same pseudorandom
-- function, whose sums are `prf.size` bytes: `l` is CEIL(dkLen / hLen), the least number of blocks that
-- are long enough.
pub pbkdf2_lem :
    (prf : Prf) (password salt : Bytes) (iter key_len l : ℕ)
    → ((key text : Bytes) → length (prf.sum key text) ≡ prf.size)
    → ((key text : Bytes) → IsBytes (prf.sum key text))
    → 0 < prf.size
    → key_len ≤ l * prf.size
    → l * prf.size < key_len + prf.size
    → pbkdf2 prf password salt iter key_len ≡ derived_key prf password salt iter l key_len
unfolding pbkdf2 derived_key
pbkdf2_lem prf password salt iter key_len l size bytes some_size enough least =
    ap (λ n. take key_len (blocks prf password salt iter n 1))
      (ceiling key_len prf.size l some_size enough least)
    ∙ ap (take key_len) (blocks_lem prf size bytes password salt iter l 1)
