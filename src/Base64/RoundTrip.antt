-- ===== src/Base64/RoundTrip.antt =====
-- Decoding what was encoded, for both alphabets.
use bumshi.Common.{
  ℕ, ◌<◌, some, List, [], ◌∷◌, map, ◌≡◌, ◌≢◌, ◌⊎◌, inl, inr, refl, arith, Bytes, All, Lacks,
}
use bumshi.Base64.{
  Alphabet, url_alphabet, std_alphabet, sextets, digit, encode, digit_value, values, join_sextets,
  decode,
}

-- Every element is a byte.
abbrev pub IsBytes : Bytes → Type 0
IsBytes = All (λ c. c < 256)

sextets-lt : (s : Bytes) → IsBytes s → All (λ v. v < 64) (sextets s)
unfolding sextets
sextets-lt [] h = tt
sextets-lt (a ∷ []) h = omega arith
sextets-lt (a ∷ b ∷ []) h = omega arith
sextets-lt (a ∷ b ∷ c ∷ s) (ha, (hb, (hc, h))) =
    (omega arith, (omega arith, (omega arith, (omega arith, sextets-lt s h))))

join_sextets-sextets : (s : Bytes) → IsBytes s → join_sextets (sextets s) ≡ some s
unfolding sextets join_sextets
join_sextets-sextets [] h = refl
join_sextets-sextets (a ∷ []) h = ground arith
join_sextets-sextets (a ∷ b ∷ []) h = ground arith
join_sextets-sextets (a ∷ b ∷ c ∷ s) (ha, (hb, (hc, h))) = ground (arith, join_sextets-sextets s h)

-- The two alphabets that the program uses.
abbrev pub IsUsed : Alphabet → Type 0
IsUsed k = (k ≡ url_alphabet) ⊎ (k ≡ std_alphabet)

digit_value-digit : (k : Alphabet) (v : ℕ) → IsUsed k → v < 64 → digit_value k (digit k v) ≡ some v
unfolding digit digit_value
digit_value-digit k v (inl e) h = rw e (ground arith)
digit_value-digit k v (inr e) h = rw e (ground arith)

digit-ne_break :
    (k : Alphabet) (v : ℕ) → IsUsed k → v < 64 → (digit k v ≢ b'\n') × (digit k v ≢ b'\r')
unfolding digit
digit-ne_break k v (inl e) h = rw e (ground arith)
digit-ne_break k v (inr e) h = rw e (ground arith)

values-map :
    (k : Alphabet) (vs : List ℕ)
    → IsUsed k
    → All (λ v. v < 64) vs
    → values k (map (digit k) vs) ≡ some vs
unfolding values
values-map k [] used h = refl
values-map k (v ∷ vs) used (hv, h) =
    ground
      (arith, digit_value-digit k v used hv, digit-ne_break k v used hv, values-map k vs used h)

-- Every byte string is read back from its encoding.
pub decode-encode :
    (k : Alphabet) (s : Bytes) → IsUsed k → IsBytes s → decode k (encode k s) ≡ some s
unfolding decode encode
decode-encode k s used h =
    rw (values-map k (sextets s) used (sextets-lt s h), decode) (join_sextets-sextets s h)

digit-ne_slash : (v : ℕ) → digit url_alphabet v ≢ b'/'
unfolding digit
digit-ne_slash v = ground arith

map-Lacks : (vs : List ℕ) → Lacks b'/' (map (digit url_alphabet) vs)
map-Lacks [] = tt
map-Lacks (v ∷ vs) = (digit-ne_slash v, map-Lacks vs)

-- A URL token is one path segment.
pub encode-Lacks : (s : Bytes) → Lacks b'/' (encode url_alphabet s)
unfolding encode
encode-Lacks s = map-Lacks (sextets s)

pub encode-ne-nil : (k : Alphabet) (s : Bytes) → s ≢ [] → encode k s ≢ []
unfolding encode sextets
encode-ne-nil k [] ne e = ne refl
encode-ne-nil k (a ∷ []) ne e = cc
encode-ne-nil k (a ∷ b ∷ []) ne e = cc
encode-ne-nil k (a ∷ b ∷ c ∷ s) ne e = cc
