-- ===== src/Core/Protocol.antt =====
-- quote-core/src/protocol.rs: the text command `STREAM udp://<address> <tickers>`.
pub mod Parse
pub mod RoundTrip
use rust_streaming_quotes.Base.{
  Option, none, some, List, [], ◌∷◌, ◌++◌, if◌then◌else◌, is_empty, codes, Result, ok, err, ◌>>=◌,
  ◌>>◌, ok_or, refuse_if,
}
use rust_streaming_quotes.Text.{Text, trim, split_whitespace, join, text_eq, strip_prefix}
use rust_streaming_quotes.Core.Net.{Net}
use rust_streaming_quotes.Core.Error.{
  ProtocolError, empty_command, missing_command, unknown_command, missing_udp_target,
  bad_udp_scheme, invalid_udp_address, missing_tickers, empty_tickers,
}
use rust_streaming_quotes.Core.Tickers.{parse_tickers_csv}

-- `Iterator::next`: the first part, and the parts that are left.
next : List Text → Option (Text × List Text)
next [] = none
next (part ∷ parts) = some (part, parts)

abbrev pub space : Text
space = codes " "

module _ (net : Net) where
  open net use {SocketAddr, parse, display}

  pub data Command : Type 0 where
    stream : SocketAddr → List Text → Command

  -- The arm of `"STREAM"`; `parts` is what the iterator has left.
  parse_stream : List Text → Result Command ProtocolError
  unfolding next
  parse_stream parts = do
    (udp_uri, rest) ← ok_or (next parts) missing_udp_target
    let tickers_raw = join space rest
    refuse_if (is_empty (trim tickers_raw)) missing_tickers
    addr_str ← ok_or (strip_prefix (codes "udp://") udp_uri) bad_udp_scheme
    udp_target ← ok_or (parse addr_str) (invalid_udp_address addr_str)
    let tickers = parse_tickers_csv tickers_raw
    refuse_if (is_empty tickers) empty_tickers
    ok (stream udp_target tickers)

  -- The command word, and the arm that it selects.
  parse_parts : List Text → Result Command ProtocolError
  unfolding next parse_stream
  parse_parts words = do
    (cmd, parts) ← ok_or (next words) missing_command
    if text_eq cmd (codes "STREAM") then parse_stream parts else err (unknown_command cmd)

  unfoldable pub parse_command : Text → Result Command ProtocolError
  unfolding parse_parts trim split_whitespace text_eq parse_tickers_csv join strip_prefix
  parse_command line = do
    let trimmed = trim line
    refuse_if (is_empty trimmed) empty_command
    parse_parts (split_whitespace trimmed)

  unfoldable pub format_stream_command : SocketAddr → List Text → Text
  unfolding join
  format_stream_command udp_target tickers =
      let list = join (codes ",") tickers in
      codes "STREAM udp://" ++ (display udp_target ++ (codes " " ++ list))

  unfoldable pub format_stream_command_line : SocketAddr → List Text → Text
  unfolding format_stream_command
  format_stream_command_line udp_target tickers =
      format_stream_command udp_target tickers ++ codes "\n"
