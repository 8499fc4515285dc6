-- ===== src/Text/Decimal.antt =====
-- `Display` of an unsigned integer.
use rust_streaming_quotes.Base.{
  ℕ, zero, suc, ◌+◌, ◌-◌, ◌*◌, ◌/◌, ◌%◌, ◌<◌, ◌≤◌, ◌≡◌, refl, false, [], ◌∷◌, ltb, if◌then◌else◌,
  arith, inl, inr, Bool-cases, All, Lacks, Option, none, some, leb, ◌&&◌, ◌≢◌, ◌∙◌,
}
use rust_streaming_quotes.Text.{Text, is_whitespace}

-- The digits of a number, the last one last, before `out`; the fuel bounds their number.
emit : ℕ → ℕ → Text → Text
emit zero n out = out
emit (suc fuel) n out =
    let digit = b'0' + n % 10 in
    let rest = emit fuel (n / 10) (digit ∷ out) in if ltb n 10 then digit ∷ out else rest

-- A number has fewer digits than its value plus one.
unfoldable pub display_nat : ℕ → Text
unfolding emit
display_nat n = emit (suc n) n []

-- The reference reading of a run of digits, behind the number `n`.
unfoldable pub read_digits : Text → ℕ → Option ℕ
read_digits [] n = some n
read_digits (c ∷ s) n =
    if leb b'0' c && leb c b'9' then read_digits s (n * 10 + (c - b'0')) else none

unfoldable pub parse_nat : Text → Option ℕ
unfolding read_digits
parse_nat [] = none
parse_nat (c ∷ s) = read_digits (c ∷ s) 0

read_last : (n : ℕ) (out : Text) → read_digits ((b'0' + n % 10) ∷ out) (n / 10) ≡ read_digits out n
unfolding read_digits
read_last n out = ground arith

read_digits-emit :
    (fuel n : ℕ) (out : Text) → n < fuel → read_digits (emit fuel n out) 0 ≡ read_digits out n
unfolding emit
read_digits-emit zero n out h = elim h [ ]
read_digits-emit (suc fuel) n out h = elim (Bool-cases (ltb n 10)) [
  | inl e ↦ rw e (ground (arith, read_last n out))
  | inr e ↦
      rw e (read_digits-emit fuel (n / 10) ((b'0' + n % 10) ∷ out) (ground arith) ∙ read_last n out)
]

emit-ne-nil : (fuel n : ℕ) (out : Text) → out ≢ [] → emit fuel n out ≢ []
unfolding emit
emit-ne-nil zero n out h = h
emit-ne-nil (suc fuel) n out h = ground (arith, emit-ne-nil fuel (n / 10) ((b'0' + n % 10) ∷ out))

parse_nat_some : (s : Text) → s ≢ [] → parse_nat s ≡ read_digits s 0
unfolding parse_nat
parse_nat_some [] h = absurd (h refl)
parse_nat_some (c ∷ s) h = refl

pub display_nat-ne-nil : (n : ℕ) → display_nat n ≢ []
unfolding display_nat emit
display_nat-ne-nil n = ground (arith, emit-ne-nil n (n / 10) ((b'0' + n % 10) ∷ []))

pub read_digits-display_nat : (n : ℕ) → read_digits (display_nat n) 0 ≡ some n
unfolding display_nat read_digits
read_digits-display_nat n = read_digits-emit (suc n) n [] (omega arith)

-- A printed number reads back as itself.
pub parse_nat-display_nat : (n : ℕ) → parse_nat (display_nat n) ≡ some n
parse_nat-display_nat n = parse_nat_some _ (display_nat-ne-nil n) ∙ read_digits-display_nat n

abbrev pub IsDigit : ℕ → Type 0
IsDigit c = (b'0' ≤ c) × (c ≤ b'9')

emit-IsDigit : (fuel n : ℕ) (out : Text) → All IsDigit out → All IsDigit (emit fuel n out)
unfolding emit
emit-IsDigit zero n out h = h
emit-IsDigit (suc fuel) n out h = ground (arith, emit-IsDigit fuel (n / 10) ((b'0' + n % 10) ∷ out))

pub display_nat-IsDigit : (n : ℕ) → All IsDigit (display_nat n)
unfolding display_nat
display_nat-IsDigit n = emit-IsDigit (suc n) n [] tt

digit_solid : (c : ℕ) → IsDigit c → is_whitespace c ≡ false
unfolding is_whitespace
digit_solid c h = ground arith

digits_solid : (s : Text) → All IsDigit s → Lacks is_whitespace s
digits_solid [] h = tt
digits_solid (c ∷ s) (h, hs) = (digit_solid c h, digits_solid s hs)

pub display_nat_solid : (n : ℕ) → Lacks is_whitespace (display_nat n)
display_nat_solid n = digits_solid _ (display_nat-IsDigit n)
