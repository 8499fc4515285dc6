-- ===== src/Core/Types/Price.antt =====
-- On the printed price of quote-core/src/types.rs.
use rust_streaming_quotes.Base.{
  ℕ, suc, ◌+◌, ◌*◌, ◌/◌, ◌%◌, ◌≡◌, ◌≢◌, refl, ap, ◌∙◌, false, some, [], ◌∷◌, ◌++◌, ltb, ◌==◌, arith,
  All, Lacks, inl, inr, Bool-cases,
}
use rust_streaming_quotes.Base.Int.{ℤ, pos, negsuc}
use rust_streaming_quotes.Text.{Text, split}
use rust_streaming_quotes.Text.Split.{split_first, split_single}
use rust_streaming_quotes.Text.Decimal.{
  display_nat, parse_nat, parse_nat-display_nat, read_digits-display_nat, display_nat-IsDigit,
  IsDigit, display_nat-ne-nil,
}
use rust_streaming_quotes.Core.Types.{
  display_two, display_price, dot, read_amount, read_parts, negate, plain, read_price,
}

digits-Lacks-dot : (s : Text) → All IsDigit s → Lacks dot s
digits-Lacks-dot [] h = tt
digits-Lacks-dot (c ∷ s) (h, hs) = (ground arith, digits-Lacks-dot s hs)

parse_nat-display_two : (n : ℕ) → parse_nat (display_two n) ≡ some n
unfolding display_two
parse_nat-display_two n = elim (Bool-cases (ltb n 10)) [
  | inl e ↦ rw e (unfold parse_nat in read_digits-display_nat n)
  | inr e ↦ rw e (parse_nat-display_nat n)
]

display_two-IsDigit : (n : ℕ) → All IsDigit (display_two n)
unfolding display_two
display_two-IsDigit n = elim (Bool-cases (ltb n 10)) [
  | inl e ↦ rw (e, All) ((omega arith, omega arith), display_nat-IsDigit n)
  | inr e ↦ rw (e, All) (display_nat-IsDigit n)
]

-- Both parts around the dot are read back.
read_parts-display :
    (a b : ℕ) → read_parts (split dot (display_nat a ++ b'.' ∷ display_two b)) ≡ some (a * 100 + b)
unfolding read_parts
read_parts-display a b =
    rw
      (
        split_first dot (display_nat a) b'.' (display_two b)
            (digits-Lacks-dot _ (display_nat-IsDigit a)) refl,
        split_single dot (display_two b) (digits-Lacks-dot _ (display_two-IsDigit b)),
        parse_nat-display_nat a,
        parse_nat-display_two b,
      )
      (unfold read_amount in refl)

abbrev amount : ℕ → Text
amount n = display_nat (n / 100) ++ b'.' ∷ display_two (n % 100)

read_parts-amount : (n : ℕ) → read_parts (split dot (amount n)) ≡ some n
read_parts-amount n = read_parts-display (n / 100) (n % 100) ∙ ap some (omega arith)

-- A text that starts with a digit has no sign.
read_price-plain :
    (s t : Text)
    → s ≢ []
    → All IsDigit s
    → read_price (s ++ t) ≡ plain (read_parts (split dot (s ++ t)))
unfolding read_price
read_price-plain [] t h hs = absurd (h refl)
read_price-plain (c ∷ s) t h (hc, hs) = let e : (c == b'-') ≡ false = ground arith in rw e

-- Printing a price loses nothing: the printed text, read as a sign, whole units and hundredths, is
-- the price again.
pub read_price-display_price : (price : ℤ) → read_price (display_price price) ≡ some price
unfolding display_price read_price plain negate
read_price-display_price (pos n) =
    read_price-plain (display_nat (n / 100)) (b'.' ∷ display_two (n % 100))
      (display_nat-ne-nil (n / 100)) (display_nat-IsDigit (n / 100))
    ∙ ap plain (read_parts-amount n)
read_price-display_price (negsuc n) = ap negate (read_parts-amount (suc n))
