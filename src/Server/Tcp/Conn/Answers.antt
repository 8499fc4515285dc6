-- ===== src/Server/Tcp/Conn/Answers.antt =====
-- On `handle_conn` of quote-server/src/tcp.rs: the reply.
use rust_streaming_quotes.Base.{
  ℕ, ◌≡◌, refl, Option, none, some, Option-cases, inl, inr, Result-cases, List, ◌==◌, Result, ok,
  err,
}
use rust_streaming_quotes.Assoc.{lookup}
use rust_streaming_quotes.Text.{Text}
use rust_streaming_quotes.Core.Net.{Net}
use rust_streaming_quotes.Core.Protocol.{Command, stream}
use rust_streaming_quotes.Core.Tickers.{IoError}
use rust_streaming_quotes.Core.Types.{StockQuote}
use rust_streaming_quotes.Core.Wire.{Bytes, Postcard}
use rust_streaming_quotes.Server.Channel.{Channels}
use rust_streaming_quotes.Server.Hub.{
  ClientId, client_already_exists, display_hub_error, add_client,
}
use rust_streaming_quotes.Server.Ping.{LastPingMap}
use rust_streaming_quotes.Server.Session.{Sess, Exit, running, finished, failed, run_session}
use rust_streaming_quotes.Server.Tcp.Conn.{
  CommandError, display_command_error, ok_reply, err_reply, extract_command, Shared, Conn, close,
  serve, welcome, refuse, enter, handle_conn,
}

module _ (net : Net) (post : Postcard) (channels : Channels StockQuote)
    (os_send : ℕ → net.SocketAddr → Bytes → Result (Unit {0}) IoError) where
  open net use {SocketAddr}
  open post use {Error}

  -- The reply, by the command and by whether the client's number is taken.
  unfoldable pub answer : ClientId → Result (Command net) CommandError → Option ℕ → Text
  answer cid (err e) found = err_reply (display_command_error e)
  answer cid (ok cmd) (some tx) = err_reply (display_hub_error (client_already_exists cid))
  answer cid (ok cmd) none = ok_reply

  close-written :
      (cid : ClientId) (rx : ℕ) (now : Shared net post channels os_send)
      (x : Sess net post os_send × Exit Error × LastPingMap net post)
      → (close net post channels os_send cid rx now x).written ≡ ok_reply
  unfolding close
  close-written cid rx now (s, running, map) = refl
  close-written cid rx now (s, finished c, map) = refl
  close-written cid rx now (s, failed e, map) = refl

  serve-written :
      (conn : Conn net post channels os_send) (cid : ClientId) (rx : ℕ) (target : SocketAddr)
      (tickers : List Text) (shared : Shared net post channels os_send)
      → (serve net post channels os_send conn cid rx target tickers shared).written ≡ ok_reply
  unfolding serve
  serve-written conn cid rx target tickers shared =
      let now = conn.meanwhile shared in
      close-written cid rx now (
        run_session net post os_send tickers target conn.session_start conn.attempts conn.ticks
          now.last_ping)

  welcome-written :
      (conn : Conn net post channels os_send) (cid : ClientId) (rx : ℕ) (target : SocketAddr)
      (tickers : List Text) (shared : Shared net post channels os_send)
      → conn.write_all ≡ ok tt
      → (welcome net post channels os_send conn cid rx target tickers shared).written ≡ ok_reply
  unfolding welcome
  welcome-written conn cid rx target tickers shared w = elim (Result-cases conn.flush) [
    | inr (e, f) ↦ rw (w, f, welcome)
    | inl (u, f) ↦ rw (w, f, welcome) (serve-written conn cid rx target tickers shared)
  ]

  enter-written :
      (conn : Conn net post channels os_send) (cmd : Command net)
      (shared : Shared net post channels os_send)
      → conn.write_all ≡ ok tt
      → (enter net post channels os_send conn cmd shared).written
        ≡ answer shared.curr_client_id
            (ok cmd)
            (lookup ◌==◌ shared.curr_client_id shared.hub.clients)
  unfolding enter answer add_client refuse
  enter-written conn (stream target tickers) shared w =
      elim (Option-cases (lookup ◌==◌ shared.curr_client_id shared.hub.clients)) [
        | inl e ↦
            rw (e, add_client, enter)
              (welcome-written conn shared.curr_client_id shared.hub.next_chan target tickers _ w)
        | inr (tx, e) ↦ rw (e, w, add_client, enter, refuse)
      ]

  -- If writing does not fail, the reply is OK exactly if the command was parsed and its number was
  -- free, and otherwise ERR with the printed error.
  pub handle_conn-answer :
      (conn : Conn net post channels os_send) (shared : Shared net post channels os_send)
      → conn.write_all ≡ ok tt
      → (handle_conn net post channels os_send conn shared).written
        ≡ answer shared.curr_client_id
            (extract_command net post channels os_send conn.read)
            (lookup ◌==◌ shared.curr_client_id shared.hub.clients)
  unfolding handle_conn answer refuse
  handle_conn-answer conn shared w =
      elim (Result-cases (extract_command net post channels os_send conn.read)) [
        | inr (e, x) ↦ rw (x, w, handle_conn, refuse)
        | inl (cmd, x) ↦ rw (x, handle_conn) (enter-written conn cmd shared w)
      ]
