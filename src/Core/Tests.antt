-- ===== src/Core/Tests.antt =====
-- Runs and instances of the theorems on quote-core, most of them on the inputs of its own tests.
use rust_streaming_quotes.Base.{◌≡◌, ◌≢◌, ◌↔◌, refl, some, none, List, [], ◌∷◌, codes, ok, err}
use rust_streaming_quotes.Base.Int.{pos, negsuc}
use rust_streaming_quotes.Text.{Text, split_whitespace, is_whitespace, trim, to_ascii_uppercase}
use rust_streaming_quotes.Text.Order.{cmp}
use rust_streaming_quotes.TextSet.{IsAscending, contains}
use rust_streaming_quotes.Core.Error.{missing_command, extra_args}
use rust_streaming_quotes.Core.Tickers.{
  IoError, other, parse_tickers_csv, normalize_line, read_tickers, cursor,
}
use rust_streaming_quotes.Core.Tickers.AsSet.{sorted, ticker_set, parse_tickers_csv-sorted}
use rust_streaming_quotes.Core.Tickers.Laws.{IsTicker, csv_tickers}
use rust_streaming_quotes.Core.Tickers.Lines.{line_tickers, read_tickers_outcomes}
use rust_streaming_quotes.Core.Protocol.{stream, parse_command, format_stream_command_line}
use rust_streaming_quotes.Core.Protocol.Parse.{
  interpret, parse_command_lem, parse_command-ne-missing,
}
use rust_streaming_quotes.Core.Protocol.RoundTrip.{parse_command-format_line}
use rust_streaming_quotes.Core.Types.{StockQuote, display_price, display_quote, read_price}
use rust_streaming_quotes.Core.Types.Price.{read_price-display_price}
use rust_streaming_quotes.Core.Wire.{ping, encode_v1, decode}
use rust_streaming_quotes.Core.Wire.Laws.{decode-encode_v1}
use rust_streaming_quotes.Core.Loopback.{loopback, parse_port}
use rust_streaming_quotes.Core.PlainPost.{plain_post, to_list}

abbrev aapl : Text
aapl = codes "AAPL"

abbrev tsla : Text
tsla = codes "TSLA"

csv_sorts :
    parse_tickers_csv (codes " aapl, TSLA, ,goog ,AAPL,, tsla ") ≡ aapl ∷ codes "GOOG" ∷ tsla ∷ []
unfolding parse_tickers_csv
csv_sorts = refl

inline_comment : normalize_line (codes "  tsla#comment  ") ≡ some tsla
unfolding normalize_line
inline_comment = refl

full_comment : normalize_line (codes "   #only  # still") ≡ none
unfolding normalize_line
full_comment = refl

read_sorts :
    read_tickers (cursor (codes "msft\naapl\r\nGOOG\nAAPL\n  goog\n# ignored\n"))
    ≡ ok (aapl ∷ codes "GOOG" ∷ codes "MSFT" ∷ [])
unfolding read_tickers
read_sorts = refl

happy_path :
    parse_command loopback (codes "STREAM udp://127.0.0.1:34254 AAPL,TSLA")
    ≡ ok (stream 34254 (aapl ∷ tsla ∷ []))
unfolding parse_command parse_port
happy_path = refl

spaces_in_list :
    parse_command loopback (codes "  STREAM   udp://127.0.0.1:1   aapl,  tsla , ,goog  ")
    ≡ ok (stream 1 (aapl ∷ codes "GOOG" ∷ tsla ∷ []))
unfolding parse_command parse_port
spaces_in_list = refl

aapl-IsTicker : IsTicker aapl
unfolding trim to_ascii_uppercase
aapl-IsTicker = record {
  some_text = λ e. cc;
  trimmed = refl;
  upper = refl;
  no_comma = (refl, (refl, (refl, (refl, tt))));
}

tsla-IsTicker : IsTicker tsla
unfolding trim to_ascii_uppercase
tsla-IsTicker = record {
  some_text = λ e. cc;
  trimmed = refl;
  upper = refl;
  no_comma = (refl, (refl, (refl, (refl, tt))));
}

parse_command-format_line_example :
    parse_command loopback (format_stream_command_line loopback 6001 (aapl ∷ tsla ∷ []))
    ≡ ok (stream 6001 (aapl ∷ tsla ∷ []))
unfolding cmp is_whitespace
parse_command-format_line_example =
    parse_command-format_line loopback 6001 (aapl ∷ tsla ∷ []) (λ e. cc) ((refl, tt), (tt, tt))
      (aapl-IsTicker, (tsla-IsTicker, tt))
      ((refl, (refl, (refl, (refl, tt)))), ((refl, (refl, (refl, (refl, tt)))), tt))

parse_command_lem_example :
    parse_command loopback (codes " PING x ")
    ≡ interpret loopback (split_whitespace (codes " PING x "))
parse_command_lem_example = parse_command_lem loopback (codes " PING x ")

parse_command-ne-missing_example :
    (parse_command loopback (codes "STREAM") ≢ err missing_command)
    × (parse_command loopback (codes "STREAM") ≢ err extra_args)
parse_command-ne-missing_example = parse_command-ne-missing loopback (codes "STREAM")

abbrev mixed_case : Text
mixed_case = codes "STREAM udp://127.0.0.1:7 tsla, aapl"

abbrev three_parts : Text
three_parts = codes "b,a, B"

abbrev boom : IoError
boom = record { kind = other; message = codes "boom" }

read_price-display_price_example : read_price (display_price (negsuc 5)) ≡ some (negsuc 5)
read_price-display_price_example = read_price-display_price (negsuc 5)

abbrev apple : StockQuote
apple = record { ticker = aapl; price = pos 1_234_500; volume = 1500; timestamp_ms = 1_700_000 }

shown : display_quote apple ≡ codes "AAPL price=12345.00 volume=1500 ts_ms=1700000"
unfolding display_quote
shown = refl

below_a_unit : display_price (negsuc 4) ≡ codes "-0.05"
unfolding display_price
below_a_unit = refl

decode-encode_v1_example : decode plain_post (1 ∷ 1 ∷ []) ≡ ok ping
unfolding encode_v1 to_list
decode-encode_v1_example = decode-encode_v1 plain_post ping (1 ∷ 1 ∷ []) refl

parse_tickers_csv-sorted_example :
    IsAscending (parse_tickers_csv (codes "b, A,b"))
    × ((t : Text)
        → contains t (parse_tickers_csv (codes "b, A,b"))
          ≡ contains t (csv_tickers (codes "b, A,b")))
    × (parse_tickers_csv (codes "b, A,b") ≡ sorted (ticker_set (codes "b, A,b")))
    × ((parse_tickers_csv (codes "b, A,b") ≡ parse_tickers_csv (codes "a,B"))
        ↔ (ticker_set (codes "b, A,b") ≡ ticker_set (codes "a,B")))
parse_tickers_csv-sorted_example = parse_tickers_csv-sorted (codes "b, A,b") (codes "a,B")

read_tickers_outcomes_example :
    ((out : List Text) × (read_tickers (cursor (codes "b\na")) ≡ ok out)
      × IsAscending out
      × ((t : Text) → contains t out ≡ contains t (line_tickers (codes "b\na"))))
    × (read_tickers (record { content = codes "b\na"; failure = some boom }) ≡ err boom)
read_tickers_outcomes_example = read_tickers_outcomes (codes "b\na") boom
