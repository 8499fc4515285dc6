-- ===== src/Core/Types.antt =====
-- quote-core/src/types.rs.
pub mod Price
use rust_streaming_quotes.Base.{
  ℕ, zero, suc, ◌+◌, ◌-◌, ◌*◌, ◌/◌, ◌%◌, ◌<◌, ◌≤◌, ◌≡◌, ◌≢◌, refl, ap, ◌∙◌, true, false, Bool,
  Option, none, some, List, [], ◌∷◌, ◌++◌, ltb, ◌==◌, if◌then◌else◌, codes, arith, All, Lacks,
  append_assoc,
}
use rust_streaming_quotes.Base.Int.{ℤ, pos, negsuc, is_negative, unsigned_abs}
use rust_streaming_quotes.Text.{Text, split}
use rust_streaming_quotes.Text.Split.{split_first, split_single}
use rust_streaming_quotes.Text.Decimal.{
  display_nat, parse_nat, read_digits, parse_nat-display_nat, display_nat-IsDigit, IsDigit,
}

-- `price` is an `i64` of hundredths, `volume` a `u32`, `timestamp_ms` a `u128`.
pub record StockQuote : Type 0 where
  pub ticker : Text
  pub price : ℤ
  pub volume : ℕ
  pub timestamp_ms : ℕ

-- `{:02}`.
display_two : ℕ → Text
display_two n = if ltb n 10 then b'0' ∷ display_nat n else display_nat n

-- `{}{}.{:02}` with the sign, the whole part and the hundredths.
unfoldable pub display_price : ℤ → Text
unfolding display_two display_nat
display_price price =
    let abs = unsigned_abs price in
    let major = abs / 100 in
    let minor = abs % 100 in
    let sign : Text = if is_negative price then codes "-" else [] in
    sign ++ (display_nat major ++ (codes "." ++ display_two minor))

-- `impl Display for StockQuote`.
unfoldable pub display_quote : StockQuote → Text
unfolding display_price display_nat
display_quote q =
    q.ticker
    ++ (codes " price="
        ++ (display_price q.price
            ++ (codes " volume="
                ++ (display_nat q.volume ++ (codes " ts_ms=" ++ display_nat q.timestamp_ms)))))

abbrev dot : ℕ → Bool
dot c = c == b'.'

-- The reference reading of a price: an optional sign, whole units, a dot, hundredths.
read_amount : Option ℕ → Option ℕ → Option ℕ
read_amount none minor = none
read_amount (some major) none = none
read_amount (some major) (some minor) = some (major * 100 + minor)

read_parts : List Text → Option ℕ
read_parts [] = none
read_parts (a ∷ []) = none
read_parts (a ∷ b ∷ []) = read_amount (parse_nat a) (parse_nat b)
read_parts (a ∷ b ∷ c ∷ r) = none

negate : Option ℕ → Option ℤ
negate none = none
negate (some zero) = some (pos 0)
negate (some (suc n)) = some (negsuc n)

plain : Option ℕ → Option ℤ
plain none = none
plain (some n) = some (pos n)

unfoldable pub read_price : Text → Option ℤ
unfolding read_parts read_amount negate plain parse_nat split
read_price [] = none
read_price (c ∷ s) =
    if c == b'-' then negate (read_parts (split dot s)) else plain (read_parts (split dot (c ∷ s)))
