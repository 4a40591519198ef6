-- ===== src/Cookies/Hex.antt =====
-- `strconv.FormatUint(n, 16)`, and that it tells numbers apart. Sixteen digits hold every uint64.
use native.Mathlib.Nat.{pow-suc}
use bumshi.Common.{
  ℕ, zero, suc, ◌+◌, ◌-◌, ◌*◌, ◌/◌, ◌%◌, ◌^◌, ◌<◌, [], ◌∷◌, ◌≡◌, ◌≢◌, ap, sym, ◌∙◌, arith, Bytes,
  ltb, ◌==◌, if◌then◌else◌, Lacks, inl, inr, Bool-cases,
}

pub hex_digit : ℕ → ℕ
hex_digit d = if ltb d 10 then b'0' + d else b'a' + (d - 10)

-- The digits of `n` in front of `out`, the last one first; the first argument bounds their number.
pub hex_on : ℕ → ℕ → Bytes → Bytes
hex_on zero n out = out
hex_on (suc f) n out =
    let longer = hex_on f (n / 16) (hex_digit (n % 16) ∷ out) in
    if n / 16 == 0 then hex_digit (n % 16) ∷ out else longer

unfoldable pub format_hex : ℕ → Bytes
unfolding hex_on hex_digit
format_hex n = hex_on 16 n []

digit_value : ℕ → ℕ
digit_value c = if ltb c b'a' then c - b'0' else c - b'a' + 10

value_from : ℕ → Bytes → ℕ
value_from n [] = n
value_from n (c ∷ s) = value_from (n * 16 + digit_value c) s

digit_value-hex_digit : (d : ℕ) → d < 16 → digit_value (hex_digit d) ≡ d
unfolding digit_value hex_digit
digit_value-hex_digit d h = ground arith

value_digit :
    (n : ℕ) (out : Bytes) → value_from (n / 16) (hex_digit (n % 16) ∷ out) ≡ value_from n out
unfolding value_from
value_digit n out =
    ap (λ k. value_from k out) (omega (arith, digit_value-hex_digit (n % 16) (omega arith)))

value_last :
    (n : ℕ) (out : Bytes) → n < 16 → value_from 0 (hex_digit (n % 16) ∷ out) ≡ value_from n out
unfolding value_from
value_last n out h =
    ap (λ k. value_from k out) (omega (arith, digit_value-hex_digit (n % 16) (omega arith)))

value-hex_on :
    (f n : ℕ) (out : Bytes)
    → n < 16 ^ suc f
    → value_from 0 (hex_on (suc f) n out) ≡ value_from n out
unfolding hex_on
value-hex_on zero n out h = elim (Bool-cases (n / 16 == 0)) [
  | inl e ↦ rw e (value_last n out (omega arith))
  | inr e ↦ rw e (value_last n out (omega arith))
]
value-hex_on (suc f) n out h = elim (Bool-cases (n / 16 == 0)) [
  | inl e ↦ rw e (value_last n out (ground arith))
  | inr e ↦ rw e (
      value-hex_on f (n / 16) (hex_digit (n % 16) ∷ out) (omega (arith, pow-suc 16 (suc f)))
      ∙ value_digit n out)
]

-- Different numbers are printed differently.
pub format_hex-injective : (m n : ℕ) → m < 2 ^ 64 → n < 2 ^ 64 → format_hex m ≡ format_hex n → m ≡ n
unfolding format_hex value_from
format_hex-injective m n hm hn e =
    sym (value-hex_on 15 m [] hm) ∙ ap (value_from 0) e ∙ value-hex_on 15 n [] hn

hex_digit-ne : (d : ℕ) → d < 16 → hex_digit d ≢ b'_'
unfolding hex_digit
hex_digit-ne d h = ground arith

hex_on-Lacks : (f n : ℕ) (out : Bytes) → Lacks b'_' out → Lacks b'_' (hex_on f n out)
unfolding hex_on
hex_on-Lacks zero n out h = h
hex_on-Lacks (suc f) n out h =
    let digit : Lacks b'_' (hex_digit (n % 16) ∷ out) = (hex_digit-ne (n % 16) (omega arith), h) in
    elim (Bool-cases (n / 16 == 0)) [
      | inl e ↦ rw e digit
      | inr e ↦ rw e (hex_on-Lacks f (n / 16) (hex_digit (n % 16) ∷ out) digit)
    ]

-- No digit is an underscore.
pub format_hex-Lacks : (n : ℕ) → Lacks b'_' (format_hex n)
unfolding format_hex
format_hex-Lacks n = hex_on-Lacks 16 n [] tt
