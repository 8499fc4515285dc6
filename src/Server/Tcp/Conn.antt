-- ===== src/Server/Tcp/Conn.antt =====
-- quote-server/src/tcp.rs: `handle_conn`, the thread of one connection.
pub mod Answers
pub mod Released
pub mod Steps
use rust_streaming_quotes.Base.{
  ℕ, suc, ◌+◌, ◌%◌, ◌^◌, Bool, true, false, Option, none, some, List, [], ◌∷◌, ◌++◌, if◌then◌else◌,
  Result, ok, err, ◌>>=◌, ◌>>◌, map_err, refuse_if, codes, is_empty,
}
use rust_streaming_quotes.Assoc.{update}
use rust_streaming_quotes.Text.{Text}
use rust_streaming_quotes.TextSet.{contains}
use rust_streaming_quotes.Core.Error.{ProtocolError, display_protocol_error}
use rust_streaming_quotes.Core.Net.{Net}
use rust_streaming_quotes.Core.Protocol.{Command, stream, parse_command}
use rust_streaming_quotes.Core.Tickers.{IoError}
use rust_streaming_quotes.Core.Types.{StockQuote}
use rust_streaming_quotes.Core.Wire.{Bytes, Postcard}
use rust_streaming_quotes.Server.Channel.{Channels}
use rust_streaming_quotes.Server.Hub.{
  ClientId, HubError, display_hub_error, Hub, add_client, remove_client, drop_rx,
}
use rust_streaming_quotes.Server.Ping.{Instant, LastPingMap}
use rust_streaming_quotes.Server.Session.{Sess, Tick, Exit, running, finished, failed, run_session}

-- The `anyhow::Error` of `extract_command`.
pub data CommandError : Type 0 where
  io : IoError → CommandError
  closed : CommandError
  protocol : ProtocolError → CommandError

unfoldable pub display_command_error : CommandError → Text
display_command_error (io e) = e.message
display_command_error closed = codes "client closed connection"
display_command_error (protocol e) = display_protocol_error e

-- The two replies.
abbrev pub ok_reply : Text
ok_reply = codes "OK\n"

abbrev pub err_reply : Text → Text
err_reply e = codes "ERR " ++ (e ++ codes "\n")

module _ (net : Net) (post : Postcard) (channels : Channels StockQuote)
    (os_send : ℕ → net.SocketAddr → Bytes → Result (Unit {0}) IoError) where
  open net use {SocketAddr}
  open post use {Error}
  open channels use {Chan, drop_receiver}

  -- `read` is the result of `read_line`: the line, which is empty at the end of the stream.
  unfoldable pub extract_command : Result Text IoError → Result (Command net) CommandError
  extract_command read = do
    line ← map_err io read
    refuse_if (is_empty line) closed
    map_err protocol (parse_command net line)

  -- What the connections share.
  pub record Shared : Type 0 where
    pub hub : Hub channels
    pub curr_client_id : ℕ
    pub last_ping : LastPingMap net post

  -- What a connection meets: what is read, how the two writes and the flush end, and, for the
  -- session, its start, its socket's count of calls and its rounds. `meanwhile` is what the other
  -- threads do to the shared state until the session ends.
  pub record Conn : Type 0 where
    pub read : Result Text IoError
    pub write_all : Result (Unit {0}) IoError
    pub flush : Result (Unit {0}) IoError
    pub session_start : Instant
    pub attempts : ℕ
    pub ticks : List (Tick net post os_send)
    pub meanwhile : Shared → Shared

  -- `returned` is `Ok(())`, `broken` an error of the stream, `serving` a session that still runs.
  pub data Handled : Type 0 where
    returned serving : Handled
    broken : IoError → Handled

  -- What is left of a connection: the shared state, the reply, unless writing it failed, the datagrams that were sent,
  -- and the result.
  pub record Report : Type 0 where
    pub shared : Shared
    pub written : Text
    pub delivered : List (SocketAddr × Bytes)
    pub handled : Handled

  -- What follows `run_session`.
  close : ClientId → ℕ → Shared → Sess net post os_send × Exit Error × LastPingMap net post → Report
  unfolding drop_rx remove_client
  close cid rx now (s, exit, map) =
      let ended : Report = record {
        shared = record now {
          hub = (remove_client channels (drop_rx channels rx now.hub) cid).0;
          last_ping = map;
        };
        written = ok_reply;
        delivered = s.delivered;
        handled = returned;
      } in
      elim exit [
        | running ↦ record {
          shared = now;
          written = ok_reply;
          delivered = s.delivered;
          handled = serving;
        }
        | finished c ↦ ended
        | failed e ↦ ended
      ]

  serve : Conn → ClientId → ℕ → SocketAddr → List Text → Shared → Report
  unfolding close run_session
  serve conn cid rx udp_target tickers before =
      let now = conn.meanwhile before in
      close cid rx now (
        run_session net post os_send tickers udp_target conn.session_start conn.attempts conn.ticks
          now.last_ping)

  -- A registered client, from the reply on.
  welcome : Conn → ClientId → ℕ → SocketAddr → List Text → Shared → Report
  unfolding serve drop_rx remove_client
  welcome conn cid rx udp_target tickers shared = elim conn.write_all [
    | err e ↦ record {
      shared = record shared {
        hub = drop_rx channels rx (remove_client channels shared.hub cid).0;
      };
      written = [];
      delivered = [];
      handled = broken e;
    }
    | ok _ ↦ elim conn.flush [
      | err e ↦ record {
        shared = record shared { hub = drop_rx channels rx shared.hub };
        written = ok_reply;
        delivered = [];
        handled = broken e;
      }
      | ok _ ↦ serve conn cid rx udp_target tickers shared
    ]
  ]

  -- A reply whose own failure is ignored.
  refuse : Conn → Text → Shared → Report
  refuse conn e shared = record {
    shared = shared;
    written = elim conn.write_all [ ok _ ↦ err_reply e | err x ↦ [] ];
    delivered = [];
    handled = returned;
  }

  -- A parsed command.
  enter : Conn → Command net → Shared → Report
  unfolding welcome refuse display_hub_error add_client
  enter conn (stream udp_target tickers) shared =
      let cid = shared.curr_client_id in
      let counted : Shared = record shared { curr_client_id = (cid + 1) % 2 ^ 64 } in
      let (hub, registered) = add_client channels shared.hub cid in
      elim registered [
        | ok rx ↦ welcome conn cid rx udp_target tickers (record counted { hub = hub })
        | err e ↦ refuse conn (display_hub_error e) (record counted { hub = hub })
      ]

  unfoldable pub handle_conn : Conn → Shared → Report
  unfolding extract_command enter refuse display_command_error
  handle_conn conn shared = elim (extract_command conn.read) [
    | err e ↦ refuse conn (display_command_error e) shared
    | ok cmd ↦ enter conn cmd shared
  ]
