-- ===== src/Server/Tcp/Conn/Released.antt =====
-- On `handle_conn` of quote-server/src/tcp.rs: the client's registration at the hub afterwards.
use rust_streaming_quotes.Base.{
  ℕ, ◌+◌, ◌%◌, ◌^◌, ◌≡◌, ◌≢◌, refl, arith, none, some, inl, inr, Result-cases, List, ◌==◌, ==_iff,
  Result,
}
use rust_streaming_quotes.Assoc.{lookup, lookup-remove}
use rust_streaming_quotes.Text.{Text}
use rust_streaming_quotes.Core.Net.{Net}
use rust_streaming_quotes.Core.Protocol.{Command, stream}
use rust_streaming_quotes.Core.Tickers.{IoError}
use rust_streaming_quotes.Core.Types.{StockQuote}
use rust_streaming_quotes.Core.Wire.{Bytes, Postcard}
use rust_streaming_quotes.Server.Channel.{Channels}
use rust_streaming_quotes.Server.Hub.{ClientId, Hub, add_client, remove_client, drop_rx}
use rust_streaming_quotes.Server.Hub.Delivery.{mail, mailbox, deliver}
use rust_streaming_quotes.Server.Ping.{LastPingMap}
use rust_streaming_quotes.Server.Session.{Sess, Exit, running, finished, failed, run_session}
use rust_streaming_quotes.Server.Tcp.Conn.{
  extract_command, Shared, Conn, serving, Report, close, serve, welcome, refuse, enter, handle_conn,
}

module _ (net : Net) (post : Postcard) (channels : Channels StockQuote)
    (os_send : ℕ → net.SocketAddr → Bytes → Result (Unit {0}) IoError) where
  open net use {SocketAddr}
  open post use {Error}
  open channels use {Chan, drop_receiver, drop_receiver_lem}

  -- The next broadcast finds no mailbox of the client, or drops it.
  abbrev pub IsGone : ClientId → Hub channels → Type 0
  IsGone cid hub = (q : StockQuote) → deliver q (mailbox channels hub cid) ≡ none

  remove_client-IsGone :
      (cid : ClientId) (hub : Hub channels) → IsGone cid (remove_client channels hub cid).0
  unfolding remove_client mailbox mail deliver
  remove_client-IsGone cid hub q = ground (arith, lookup-remove ◌==◌ ==_iff cid cid hub.clients)

  -- A client whose receiver is gone.
  drop_rx-IsGone :
      (cid : ClientId) (rx : ℕ) (hub : Hub channels)
      → lookup ◌==◌ cid hub.clients ≡ some rx
      → IsGone cid (drop_rx channels rx hub)
  unfolding drop_rx mailbox mail deliver
  drop_rx-IsGone cid rx hub e q = ground (arith, drop_receiver_lem (hub.chan rx))

  drop_removed-IsGone :
      (cid : ClientId) (rx : ℕ) (hub : Hub channels)
      → IsGone cid (drop_rx channels rx (remove_client channels hub cid).0)
  unfolding drop_rx remove_client mailbox mail deliver
  drop_removed-IsGone cid rx hub q = ground (arith, lookup-remove ◌==◌ ==_iff cid cid hub.clients)

  -- A report of a connection that does not serve any more.
  abbrev Leaves : ClientId → Report net post channels os_send → Type 0
  Leaves cid r = r.handled ≢ serving → IsGone cid r.shared.hub

  close-Leaves :
      (cid : ClientId) (rx : ℕ) (now : Shared net post channels os_send)
      (x : Sess net post os_send × Exit Error × LastPingMap net post)
      → Leaves cid (close net post channels os_send cid rx now x)
  unfolding close
  close-Leaves cid rx now (s, running, map) = λ h. absurd (h refl)
  close-Leaves cid rx now (s, finished c, map) =
      λ h. remove_client-IsGone cid (drop_rx channels rx now.hub)
  close-Leaves cid rx now (s, failed e, map) =
      λ h. remove_client-IsGone cid (drop_rx channels rx now.hub)

  serve-Leaves :
      (conn : Conn net post channels os_send) (cid : ClientId) (rx : ℕ) (target : SocketAddr)
      (tickers : List Text) (shared : Shared net post channels os_send)
      → Leaves cid (serve net post channels os_send conn cid rx target tickers shared)
  unfolding serve
  serve-Leaves conn cid rx target tickers shared =
      let now = conn.meanwhile shared in
      close-Leaves cid rx now (
        run_session net post os_send tickers target conn.session_start conn.attempts conn.ticks
          now.last_ping)

  welcome-Leaves :
      (conn : Conn net post channels os_send) (cid : ClientId) (rx : ℕ) (target : SocketAddr)
      (tickers : List Text) (shared : Shared net post channels os_send)
      → lookup ◌==◌ cid shared.hub.clients ≡ some rx
      → Leaves cid (welcome net post channels os_send conn cid rx target tickers shared)
  unfolding welcome
  welcome-Leaves conn cid rx target tickers shared e = elim (Result-cases conn.write_all) [
    | inr (x, w) ↦ rw (w, welcome) (λ h. drop_removed-IsGone cid rx shared.hub)
    | inl (u, w) ↦ elim (Result-cases conn.flush) [
      | inr (x, f) ↦ rw (w, f, welcome) (λ h. drop_rx-IsGone cid rx shared.hub e)
      | inl (v, f) ↦ rw (w, f, welcome) (serve-Leaves conn cid rx target tickers shared)
    ]
  ]

  enter-Leaves :
      (conn : Conn net post channels os_send) (cmd : Command net)
      (shared : Shared net post channels os_send)
      → lookup ◌==◌ shared.curr_client_id shared.hub.clients ≡ none
      → Leaves shared.curr_client_id (enter net post channels os_send conn cmd shared)
  unfolding enter add_client lookup
  enter-Leaves conn (stream target tickers) shared free =
      let entered : Shared net post channels os_send = record shared {
        hub = (add_client channels shared.hub shared.curr_client_id).0;
        curr_client_id = (shared.curr_client_id + 1) % 2 ^ 64;
      } in
      let known : lookup ◌==◌ shared.curr_client_id entered.hub.clients
          ≡ some shared.hub.next_chan =
        ground arith in
      rw (free, add_client, enter)
        (welcome-Leaves conn shared.curr_client_id shared.hub.next_chan target tickers entered
          known)

  -- A connection whose client number was free leaves no live registration: once its thread has
  -- returned, on whatever path, the next broadcast finds no mailbox under the number, or drops it.
  pub handle_conn-released :
      (conn : Conn net post channels os_send) (shared : Shared net post channels os_send)
      (q : StockQuote)
      → lookup ◌==◌ shared.curr_client_id shared.hub.clients ≡ none
      → (handle_conn net post channels os_send conn shared).handled ≢ serving
      → deliver q (
          mailbox channels
            (handle_conn net post channels os_send conn shared).shared.hub
            shared.curr_client_id)
        ≡ none
  unfolding handle_conn refuse mailbox mail deliver
  handle_conn-released conn shared q free ends =
      elim (Result-cases (extract_command net post channels os_send conn.read)) [
        | inr (e, x) ↦ rw (x, handle_conn) (ground arith)
        | inl (cmd, x) ↦
            rw (x, handle_conn)
              (enter-Leaves conn cmd shared free (λ h. ends (rw (x, handle_conn) h)) q)
      ]
