-- ===== src/Passwords/RoundTrip.antt =====
-- server/internal/auth/password.go: checking a password against what was stored for one.
use bumshi.Common.{
  ℕ, ◌<◌, true, false, some, List, [], ◌∷◌, ◌++◌, map, ◌≡◌, ◌≢◌, inr, refl, sym, ap, ◌∙◌, arith,
  Bytes, codes, length, ==_self, Lacks, append_assoc, append-nil, ◌==◌,
}
use bumshi.Strings.{eq, itoa, join, split, split_on, atoi}
use bumshi.Strings.Laws.{eq_self}
use bumshi.Base64.{std_alphabet, encode, sextets, digit}
use bumshi.Base64.RoundTrip.{IsBytes, decode-encode}
use bumshi.Passwords.{
  Prf, pbkdf2, iterations, key_length, hash_scheme, hash_password, iteration_count, parse_parts,
  check_stored, verify_password,
}
use bumshi.Passwords.Lengths.{length-pbkdf2, pbkdf2-IsBytes}

digit-ne_dollar : (v : ℕ) → digit std_alphabet v ≢ b'$'
unfolding digit
digit-ne_dollar v = ground arith

map-Lacks_dollar : (vs : List ℕ) → Lacks b'$' (map (digit std_alphabet) vs)
map-Lacks_dollar [] = tt
map-Lacks_dollar (v ∷ vs) = (digit-ne_dollar v, map-Lacks_dollar vs)

encode-Lacks_dollar : (s : Bytes) → Lacks b'$' (encode std_alphabet s)
unfolding encode
encode-Lacks_dollar s = map-Lacks_dollar (sextets s)

not_equal : (a b : ℕ) → a ≢ b → (a == b) ≡ false
not_equal a b h = ground arith

-- A part that lacks the separator is one part.
split_on-part :
    (sep : ℕ) (cur s rest : Bytes)
    → Lacks sep s
    → split_on sep cur (s ++ sep ∷ rest) ≡ (cur ++ s) ∷ split_on sep [] rest
unfolding split_on
split_on-part sep cur [] rest h =
    rw (==_self sep, split_on) (ap (λ p. p ∷ split_on sep [] rest) (sym (append-nil cur)))
split_on-part sep cur (c ∷ s) rest (hc, h) =
    rw (not_equal c sep hc, split_on)
      (split_on-part sep (cur ++ c ∷ []) s rest h
        ∙ ap (λ p. p ∷ split_on sep [] rest) (append_assoc cur (c ∷ []) s))

pub split_on-last : (sep : ℕ) (cur s : Bytes) → Lacks sep s → split_on sep cur s ≡ (cur ++ s) ∷ []
unfolding split_on
split_on-last sep cur [] h = ap (λ p. p ∷ []) (sym (append-nil cur))
split_on-last sep cur (c ∷ s) (hc, h) =
    rw (not_equal c sep hc, split_on)
      (split_on-last sep (cur ++ c ∷ []) s h ∙ ap (λ p. p ∷ []) (append_assoc cur (c ∷ []) s))

split-four :
    (a b c d : Bytes)
    → Lacks b'$' a
    → Lacks b'$' b
    → Lacks b'$' c
    → Lacks b'$' d
    → split (join (a ∷ b ∷ c ∷ d ∷ []) (codes "$")) b'$' ≡ a ∷ b ∷ c ∷ d ∷ []
unfolding split join
split-four a b c d ha hb hc hd =
    split_on-part b'$' [] a (b ++ b'$' ∷ (c ++ b'$' ∷ d)) ha
    ∙ ap (λ r. a ∷ r)
        (split_on-part b'$' [] b (c ++ b'$' ∷ d) hb
          ∙ ap (λ r. b ∷ r)
              (split_on-part b'$' [] c d hc ∙ ap (λ r. c ∷ r) (split_on-last b'$' [] d hd)))

iterations_read : iteration_count (atoi (itoa iterations)) ≡ some iterations
unfolding iteration_count atoi itoa
iterations_read = refl

iterations-Lacks : Lacks b'$' (itoa iterations)
unfolding itoa
iterations-Lacks = omega arith

scheme-Lacks : Lacks b'$' hash_scheme
scheme-Lacks = omega arith

split-hash :
    (prf : Prf) (salt password : Bytes)
    → split
        (join
          (hash_scheme
            ∷ itoa iterations
            ∷ encode std_alphabet salt
            ∷ encode std_alphabet (pbkdf2 prf password salt iterations key_length)
            ∷ [])
          (codes "$"))
        b'$'
      ≡ hash_scheme
        ∷ itoa iterations
        ∷ encode std_alphabet salt
        ∷ encode std_alphabet (pbkdf2 prf password salt iterations key_length)
        ∷ []
split-hash prf salt password =
    split-four hash_scheme (itoa iterations) (encode std_alphabet salt)
      (encode std_alphabet (pbkdf2 prf password salt iterations key_length)) scheme-Lacks
      iterations-Lacks (encode-Lacks_dollar salt)
      (encode-Lacks_dollar (pbkdf2 prf password salt iterations key_length))

-- What is stored is read back as it was.
parse_hash :
    (salt key : Bytes)
    → IsBytes salt
    → IsBytes key
    → parse_parts
        (hash_scheme ∷ itoa iterations ∷ encode std_alphabet salt ∷ encode std_alphabet key ∷ [])
      ≡ some (iterations, salt, key)
unfolding parse_parts
parse_hash salt key hs hk = rw iterations_read (
    rw (decode-encode std_alphabet salt (inr refl) hs)
      (rw (decode-encode std_alphabet key (inr refl) hk) refl))

-- `HashPassword` of a salt that was read.
unfoldable pub stored_text : Prf → Bytes → Bytes → Bytes
stored_text prf salt password =
    join
      (hash_scheme
        ∷ itoa iterations
        ∷ encode std_alphabet salt
        ∷ encode std_alphabet (pbkdf2 prf password salt iterations key_length)
        ∷ [])
      (codes "$")

verify_password-stored :
    (prf : Prf) (salt password attempt : Bytes)
    → ((key text : Bytes) → length (prf.sum key text) ≡ prf.size)
    → ((key text : Bytes) → IsBytes (prf.sum key text))
    → 0 < prf.size
    → IsBytes salt
    → verify_password prf (stored_text prf salt password) attempt
      ≡ some (
          eq
            (pbkdf2 prf attempt salt iterations key_length)
            (pbkdf2 prf password salt iterations key_length))
unfolding verify_password stored_text check_stored
verify_password-stored prf salt password attempt size bytes some_size hs =
    let key : Bytes = pbkdf2 prf password salt iterations key_length in
    let key_bytes = pbkdf2-IsBytes prf password salt iterations key_length size bytes in
    let long : length key ≡ key_length =
      length-pbkdf2 prf password salt iterations key_length size bytes some_size in
    ap (λ parts. check_stored prf attempt (parse_parts parts)) (split-hash prf salt password)
    ∙ ap (check_stored prf attempt) (parse_hash salt key hs key_bytes)
    ∙ ap (λ n. some (eq (pbkdf2 prf attempt salt iterations n) key)) long

-- What is stored for one password accepts another if and only if the two derive the same key under the
-- salt; in particular it accepts the password itself.
pub verify_password-hash_password :
    (prf : Prf) (salt password attempt stored : Bytes)
    → ((key text : Bytes) → length (prf.sum key text) ≡ prf.size)
    → ((key text : Bytes) → IsBytes (prf.sum key text))
    → 0 < prf.size
    → IsBytes salt
    → hash_password prf (some salt) password ≡ some stored
    → (verify_password prf stored attempt
        ≡ some (
            eq
              (pbkdf2 prf attempt salt iterations key_length)
              (pbkdf2 prf password salt iterations key_length)))
      × (verify_password prf stored password ≡ some true)
unfolding hash_password stored_text
verify_password-hash_password prf salt password attempt stored size bytes some_size hs made =
    let same : stored_text prf salt password ≡ stored = cc in
    let check = λ (t : Bytes). verify_password-stored prf salt password t size bytes some_size hs in
    (
      ap (λ t. verify_password prf t attempt) (sym same) ∙ check attempt,
      ap (λ t. verify_password prf t password) (sym same)
          ∙ check password
          ∙ ap some (eq_self (pbkdf2 prf password salt iterations key_length)),
    )
