-- ===== src/Client/Tcp/Agreement.antt =====
-- On quote-client/src/tcp.rs against quote-server/src/tcp.rs: the command and the reply, on both ends.
use rust_streaming_quotes.Base.{
  ℕ, ◌≡◌, ◌≢◌, refl, ap, ◌∙◌, arith, Bool, false, Option, none, some, List, [], ◌∷◌, ◌++◌, ◌==◌,
  Result, ok, err, codes, if◌then◌else◌, All, Lacks,
}
use rust_streaming_quotes.Assoc.{lookup}
use rust_streaming_quotes.Text.{Text, text_eq, strip_prefix, is_whitespace, trim}
use rust_streaming_quotes.TextSet.{IsAscending}
use rust_streaming_quotes.Core.Net.{Net}
use rust_streaming_quotes.Core.Protocol.{
  Command, stream, parse_command, format_stream_command, format_stream_command_line,
}
use rust_streaming_quotes.Core.Protocol.RoundTrip.{parse_command-format_line}
use rust_streaming_quotes.Core.Tickers.{IoError}
use rust_streaming_quotes.Core.Tickers.Laws.{IsTicker}
use rust_streaming_quotes.Core.Types.{StockQuote}
use rust_streaming_quotes.Core.Wire.{Bytes, Postcard}
use rust_streaming_quotes.Server.Channel.{Channels}
use rust_streaming_quotes.Server.Hub.{client_already_exists, display_hub_error}
use rust_streaming_quotes.Server.Tcp.Conn.{
  CommandError, display_command_error, ok_reply, err_reply, extract_command, Shared, Conn,
  handle_conn,
}
use rust_streaming_quotes.Server.Tcp.Conn.Answers.{answer, handle_conn-answer}
use rust_streaming_quotes.Client.Tcp.{
  SubscribeError, server_error, is_line_end, trim_end_matches, read_error, read_reply, Stream,
  send_stream_command, drop_if_last,
}

-- What `read_line` takes of a text: all up to the first line break, which it includes.
unfoldable pub first_line : Text → Text
first_line [] = []
first_line (c ∷ s) = if c == b'\n' then c ∷ [] else c ∷ first_line s

trim_end_matches_keeps :
    (p : ℕ → Bool) (c : ℕ) (s : Text)
    → p c ≡ false
    → trim_end_matches p (c ∷ s) ≡ c ∷ trim_end_matches p s
unfolding trim_end_matches drop_if_last
trim_end_matches_keeps p c s h = keep (trim_end_matches p s)
  where
    keep : (t : Text) → drop_if_last (p c) c t ≡ c ∷ t
    keep [] = ground arith
    keep (d ∷ t) = ground arith

trim_end_matches-err :
    (s : Text)
    → trim_end_matches is_line_end (codes "ERR " ++ s)
      ≡ codes "ERR " ++ trim_end_matches is_line_end s
unfolding is_line_end
trim_end_matches-err s =
    trim_end_matches_keeps is_line_end b'E' (codes "RR " ++ s) refl
    ∙ ap (λ t. b'E' ∷ t)
        (trim_end_matches_keeps is_line_end b'R' (codes "R " ++ s) refl
          ∙ ap (λ t. b'R' ∷ t)
              (trim_end_matches_keeps is_line_end b'R' (b' ' ∷ s) refl
                ∙ ap (λ t. b'R' ∷ t) (trim_end_matches_keeps is_line_end b' ' s refl)))

read_reply-ok_reply : read_reply (first_line ok_reply) ≡ ok tt
unfolding read_reply first_line
read_reply-ok_reply = refl

-- The text that the client reports for an error.
unfoldable pub reported : Text → Text
reported e = trim (b' ' ∷ trim_end_matches is_line_end (first_line (e ++ codes "\n")))

pub read_reply-err_reply :
    (e : Text) → read_reply (first_line (err_reply e)) ≡ err (server_error (reported e))
unfolding read_reply first_line text_eq read_error strip_prefix reported
read_reply-err_reply e = let rest = first_line (e ++ codes "\n") in rw (trim_end_matches-err rest)

module _ (net : Net) (post : Postcard) (channels : Channels StockQuote)
    (os_send : ℕ → net.SocketAddr → Bytes → Result (Unit {0}) IoError) where
  -- What the client makes of the reply to a command.
  unfoldable pub told :
      ℕ → Result (Command net) CommandError → Option ℕ → Result (Unit {0}) SubscribeError
  told cid (err e) found = err (server_error (reported (display_command_error e)))
  told cid (ok cmd) (some tx) =
      err (server_error (reported (display_hub_error (client_already_exists cid))))
  told cid (ok cmd) none = ok tt

  read_reply-answer :
      (cid : ℕ) (command : Result (Command net) CommandError) (found : Option ℕ)
      → read_reply (first_line (answer net post channels os_send cid command found))
        ≡ told cid command found
  unfolding answer told
  read_reply-answer cid (err e) found = read_reply-err_reply (display_command_error e)
  read_reply-answer cid (ok cmd) (some tx) =
      read_reply-err_reply (display_hub_error (client_already_exists cid))
  read_reply-answer cid (ok cmd) none = read_reply-ok_reply

  -- The client's stream ends at this connection of the server: nothing fails on the way, and the
  -- line that the client reads is the first line of what the server wrote.
  pub record IsConnected (tcp_stream : Stream) (request : Text)
      (conn : Conn net post channels os_send) (shared : Shared net post channels os_send)
      : Type 0 where
    pub connects : tcp_stream.connect ≡ ok tt
    pub sends : tcp_stream.write_all ≡ ok tt
    pub flushes : tcp_stream.flush ≡ ok tt
    pub replies : conn.write_all ≡ ok tt
    pub arrives : conn.read ≡ ok request
    pub answers :
        tcp_stream.read_line request
        ≡ ok (first_line (handle_conn net post channels os_send conn shared).written)

  -- The client returns success exactly if the server read a command and registered it under a free
  -- number, and otherwise the error that the server printed.
  pub send_stream_command_lem :
      (tcp_stream : Stream) (target : net.SocketAddr) (tickers : List Text)
      (conn : Conn net post channels os_send) (shared : Shared net post channels os_send)
      → IsConnected tcp_stream (format_stream_command_line net target tickers) conn shared
      → send_stream_command net tcp_stream target tickers
        ≡ told shared.curr_client_id
            (extract_command net post channels os_send conn.read)
            (lookup ◌==◌ shared.curr_client_id shared.hub.clients)
  unfolding send_stream_command
  send_stream_command_lem tcp_stream target tickers conn shared c =
      rw
        (
          c.connects,
          c.sends,
          c.flushes,
          c.answers,
          send_stream_command,
          handle_conn-answer net post channels os_send conn shared c.replies,
        )
        (read_reply-answer _ _ _)

  request-extract_command :
      (target : net.SocketAddr) (tickers : List Text) (cmd : Command net)
      → parse_command net (format_stream_command_line net target tickers) ≡ ok cmd
      → extract_command net post channels os_send
          (ok (format_stream_command_line net target tickers))
        ≡ ok cmd
  unfolding extract_command format_stream_command_line format_stream_command
  request-extract_command target tickers cmd e = rw e

  -- The command of a nonempty, ascending list of normalised tickers without white space arrives at
  -- the server as it was meant, and the client is told whether it was registered.
  pub send_stream_command-extract_command :
      (tcp_stream : Stream) (target : net.SocketAddr) (tickers : List Text)
      (conn : Conn net post channels os_send) (shared : Shared net post channels os_send)
      → tickers ≢ []
      → IsAscending tickers
      → All IsTicker tickers
      → All (Lacks is_whitespace) tickers
      → IsConnected tcp_stream (format_stream_command_line net target tickers) conn shared
      → (extract_command net post channels os_send conn.read ≡ ok (stream target tickers))
        × (send_stream_command net tcp_stream target tickers
            ≡ told shared.curr_client_id
                (ok (stream target tickers))
                (lookup ◌==◌ shared.curr_client_id shared.hub.clients))
  send_stream_command-extract_command tcp_stream target tickers conn shared h asc ht hw c =
      let parsed =
        request-extract_command target tickers (stream target tickers)
          (parse_command-format_line net target tickers h asc ht hw) in
      let extracted = ap (extract_command net post channels os_send) c.arrives ∙ parsed in
      (
        extracted,
        send_stream_command_lem tcp_stream target tickers conn shared c
            ∙ ap
                (λ x.
                  told shared.curr_client_id x
                    (lookup ◌==◌ shared.curr_client_id shared.hub.clients))
                extracted,
      )
