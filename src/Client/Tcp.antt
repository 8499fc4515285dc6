-- ===== src/Client/Tcp.antt =====
-- quote-client/src/tcp.rs: the command and the server's reply.
pub mod Agreement
use rust_streaming_quotes.Base.{
  ℕ, Bool, true, false, ◌&&◌, Option, none, some, List, [], ◌∷◌, ◌++◌, ◌==◌, ◌||◌, if◌then◌else◌,
  Result, ok, err, ◌>>=◌, ◌>>◌, map_err, refuse_if, codes, is_empty,
}
use rust_streaming_quotes.Text.{Text, trim, text_eq, strip_prefix}
use rust_streaming_quotes.Core.Net.{Net}
use rust_streaming_quotes.Core.Protocol.{format_stream_command_line}
use rust_streaming_quotes.Core.Tickers.{IoError}

-- The `anyhow::Error` of `send_stream_command`.
pub data SubscribeError : Type 0 where
  io : IoError → SubscribeError
  no_response : SubscribeError
  server_error unexpected : Text → SubscribeError

-- `'\r'` or `'\n'`.
unfoldable pub is_line_end : ℕ → Bool
is_line_end c = c == b'\r' || c == b'\n'

drop_if_last : Bool → ℕ → Text → Text
drop_if_last true c [] = []
drop_if_last false c [] = c ∷ []
drop_if_last b c (d ∷ s) = c ∷ d ∷ s

-- `trim_end_matches`.
unfoldable pub trim_end_matches : (ℕ → Bool) → Text → Text
unfolding drop_if_last
trim_end_matches p [] = []
trim_end_matches p (c ∷ s) = drop_if_last (p c) c (trim_end_matches p s)

-- What follows `ERR`.
read_error : Text → Option Text → Result (Unit {0}) SubscribeError
read_error resp none = err (unexpected resp)
read_error resp (some rest) = err (server_error (trim rest))

-- The part behind `read_line`, on the line that it read.
unfoldable pub read_reply : Text → Result (Unit {0}) SubscribeError
unfolding is_line_end trim_end_matches text_eq read_error strip_prefix
read_reply line =
    let resp = trim_end_matches is_line_end line in
    if is_empty line
    then err no_response
    else if text_eq resp (codes "OK")
    then ok tt
    else read_error resp (strip_prefix (codes "ERR") resp)

-- What the connection does: the results of `connect`, `write_all` and `flush`, and that of
-- `read_line` after the peer got the given text.
pub record Stream : Type 0 where
  pub connect : Result (Unit {0}) IoError
  pub write_all : Result (Unit {0}) IoError
  pub flush : Result (Unit {0}) IoError
  pub read_line : Text → Result Text IoError

unfoldable pub send_stream_command :
    (net : Net) → Stream → net.SocketAddr → List Text → Result (Unit {0}) SubscribeError
unfolding read_reply
send_stream_command net stream udp_target tickers = do
  _ ← map_err io stream.connect
  let cmd = format_stream_command_line net udp_target tickers
  _ ← map_err io stream.write_all
  _ ← map_err io stream.flush
  line ← map_err io (stream.read_line cmd)
  read_reply line
