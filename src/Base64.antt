-- ===== src/Base64.antt =====
-- Go's encoding/base64 without padding, as the program uses it: RawURLEncoding for proxy links and
-- RawStdEncoding for password hashes. `Alphabet` is the two characters in which they differ.
pub mod RoundTrip
use bumshi.Common.{
  ℕ, ◌+◌, ◌-◌, ◌*◌, ◌/◌, ◌%◌, Bool, true, false, ◌||◌, Option, none, some, List, [], ◌∷◌, map,
  Bytes, ltb, ◌==◌, if◌then◌else◌,
}

pub record Alphabet : Type 0 where
  pub digit_62 : ℕ
  pub digit_63 : ℕ

abbrev pub url_alphabet : Alphabet
url_alphabet = record { digit_62 = b'-'; digit_63 = b'_' }

abbrev pub std_alphabet : Alphabet
std_alphabet = record { digit_62 = b'+'; digit_63 = b'/' }

-- The sextets of a byte string.
unfoldable pub sextets : Bytes → List ℕ
sextets [] = []
sextets (a ∷ []) = (a / 4) ∷ (a % 4 * 16) ∷ []
sextets (a ∷ b ∷ []) = (a / 4) ∷ (a % 4 * 16 + b / 16) ∷ (b % 16 * 4) ∷ []
sextets (a ∷ b ∷ c ∷ s) =
    (a / 4) ∷ (a % 4 * 16 + b / 16) ∷ (b % 16 * 4 + c / 64) ∷ (c % 64) ∷ sextets s

unfoldable pub digit : Alphabet → ℕ → ℕ
digit k v =
    if ltb v 26
    then v + b'A'
    else if ltb v 52
    then v - 26 + b'a'
    else if ltb v 62
    then v - 52 + b'0'
    else if v == 62
    then k.digit_62
    else k.digit_63

-- `EncodeToString`
unfoldable pub encode : Alphabet → Bytes → Bytes
unfolding sextets digit
encode k s = map (digit k) (sextets s)

unfoldable pub digit_value : Alphabet → ℕ → Option ℕ
digit_value k c =
    if c == k.digit_62
    then some 62
    else if c == k.digit_63
    then some 63
    else if ltb c b'0'
    then none
    else if ltb c (b'9' + 1)
    then some (c - b'0' + 52)
    else if ltb c b'A'
    then none
    else if ltb c (b'Z' + 1)
    then some (c - b'A')
    else if ltb c b'a'
    then none
    else if ltb c (b'z' + 1)
    then some (c - b'a' + 26)
    else none

abbrev cons_value : Option ℕ → Option (List ℕ) → Option (List ℕ)
cons_value (some v) (some vs) = some (v ∷ vs)
cons_value _ _ = none

-- Line breaks are skipped, and any other character outside the alphabet is an error.
unfoldable pub values : Alphabet → Bytes → Option (List ℕ)
unfolding digit_value
values k [] = some []
values k (c ∷ s) =
    let rest = values k s in
    if c == b'\n' || c == b'\r' then rest else cons_value (digit_value k c) rest

abbrev cons_three : ℕ → ℕ → ℕ → Option Bytes → Option Bytes
cons_three x y z none = none
cons_three x y z (some s) = some (x ∷ y ∷ z ∷ s)

-- Groups of four sextets; one left over is an error, and the unused bits of the last are ignored.
unfoldable pub join_sextets : List ℕ → Option Bytes
join_sextets [] = some []
join_sextets (a ∷ []) = none
join_sextets (a ∷ b ∷ []) = some ((a * 4 + b / 16) ∷ [])
join_sextets (a ∷ b ∷ c ∷ []) = some ((a * 4 + b / 16) ∷ (b % 16 * 16 + c / 4) ∷ [])
join_sextets (a ∷ b ∷ c ∷ d ∷ s) =
    cons_three (a * 4 + b / 16) (b % 16 * 16 + c / 4) (c % 4 * 64 + d) (join_sextets s)

-- `DecodeString`
unfoldable pub decode : Alphabet → Bytes → Option Bytes
unfolding values join_sextets
decode k s = elim (values k s) [ none ↦ none | some vs ↦ join_sextets vs ]
