-- ===== src/Passwords/Examples.antt =====
-- The theorems on passwords at a concrete function of one byte.
use native.Mathlib.Nat.{mod-lt}
use bumshi.Common.{◌+◌, ◌%◌, true, Option, some, [], ◌∷◌, ◌≡◌, refl, arith, Bytes, codes, length}
use bumshi.Strings.{eq}
use bumshi.Base64.RoundTrip.{IsBytes}
use bumshi.Passwords.{Prf, pbkdf2, iterations, key_length, hash_password, verify_password}
use bumshi.Passwords.Definition.{derived_key}
use bumshi.Passwords.Derive.{pbkdf2_lem}
use bumshi.Passwords.RoundTrip.{stored_text, verify_password-hash_password}

abbrev sizes : Prf
sizes = record { sum = λ key text. (length key + length text) % 256 ∷ []; size = 1 }

sizes-IsBytes : (key text : Bytes) → IsBytes (sizes.sum key text)
sizes-IsBytes key text = (mod-lt (length key + length text) (omega arith), tt)

abbrev salt : Bytes
salt = 7 ∷ 8 ∷ []

stored_for :
    hash_password sizes (some salt) (codes "secret")
    ≡ some (stored_text sizes salt (codes "secret"))
unfolding hash_password stored_text
stored_for = refl

two_rounds : pbkdf2 sizes (codes "secret") salt 2 3 ≡ 11 ∷ 11 ∷ 11 ∷ []
unfolding pbkdf2
two_rounds = refl

unknown_scheme : verify_password sizes (codes "md5$1$$") [] ≡ Option.none
unfolding verify_password
unknown_scheme = refl

-- A stored hash with an empty key accepts every password.
empty_key : verify_password sizes (codes "pbkdf2_sha256$1$$") (codes "anything") ≡ some true
unfolding verify_password
empty_key = refl

pbkdf2_lem_example :
    pbkdf2 sizes (codes "secret") salt 2 3 ≡ derived_key sizes (codes "secret") salt 2 3 3
pbkdf2_lem_example =
    pbkdf2_lem sizes (codes "secret") salt 2 3 3 (λ key text. refl) sizes-IsBytes (omega arith)
      (omega arith) (omega arith)

verify_password-hash_password_example :
    (verify_password sizes (stored_text sizes salt (codes "secret")) (codes "other")
      ≡ some (
          eq
            (pbkdf2 sizes (codes "other") salt iterations key_length)
            (pbkdf2 sizes (codes "secret") salt iterations key_length)))
    × (verify_password sizes (stored_text sizes salt (codes "secret")) (codes "secret") ≡ some true)
verify_password-hash_password_example =
    verify_password-hash_password sizes salt (codes "secret") (codes "other")
      (stored_text sizes salt (codes "secret")) (λ key text. refl) sizes-IsBytes (omega arith)
      (omega arith) stored_for
