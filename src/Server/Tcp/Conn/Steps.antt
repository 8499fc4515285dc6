-- ===== src/Server/Tcp/Conn/Steps.antt =====
-- On `handle_conn` of quote-server/src/tcp.rs: a connection as the steps of one thread.
use rust_streaming_quotes.Base.{
  ℕ, suc, ◌+◌, ◌%◌, ◌^◌, ◌≡◌, arith, ap, ◌∙◌, List, inl, inr, Result, Result-cases, ok, err,
}
use rust_streaming_quotes.Text.{Text}
use rust_streaming_quotes.Core.Net.{Net}
use rust_streaming_quotes.Core.Protocol.{Command, stream}
use rust_streaming_quotes.Core.Tickers.{IoError}
use rust_streaming_quotes.Core.Types.{StockQuote}
use rust_streaming_quotes.Core.Wire.{Bytes, Postcard}
use rust_streaming_quotes.Server.Channel.{Channels}
use rust_streaming_quotes.Server.Hub.{ClientId, Hub, HubError, add_client}
use rust_streaming_quotes.Server.Ping.{LastPingMap}
use rust_streaming_quotes.Server.Session.{Sess, Exit, running, finished, failed, run_session}
use rust_streaming_quotes.Server.Tcp.Conn.{
  extract_command, Shared, Conn, Handled, serving, Report, close, serve, welcome, refuse, enter,
  handle_conn,
}
use rust_streaming_quotes.Server.System.Moves.{add_client-Added}
use rust_streaming_quotes.Server.System.{
  ConnPc, Memory, Move, refuse_command, take_id, register, reject, answer, write_fails, unregister,
  hang_up, flush_fails, end_session, leave,
}

module _ (net : Net) (post : Postcard) (channels : Channels StockQuote)
    (os_send : ℕ → net.SocketAddr → Bytes → Result (Unit {0}) IoError) where
  open net use {SocketAddr}
  open post use {Error}

  -- The steps of one thread, oldest first; `others` is what the other threads do while it is in its
  -- session.
  pub data Trace (others : Memory channels → Memory channels) (m' : Memory channels) (p' : ConnPc)
      : Memory channels → ConnPc → Type 0 where
    stop : Trace others m' p' m' p'
    move :
        {m n : Memory channels} {p q : ConnPc}
        → Move channels m p n q
        → Trace others m' p' n q
        → Trace others m' p' m p
    meanwhile :
        {m : Memory channels} {cid rx : ℕ}
        → Trace others m' p' (others m) (ConnPc.serving cid rx)
        → Trace others m' p' m (ConnPc.serving cid rx)

  abbrev pub memory_of : ℕ → Shared net post channels os_send → Memory channels
  memory_of started s = record { hub = s.hub; curr_client_id = s.curr_client_id; started = started }

  -- `meanwhile` of a connection, on the memory.
  abbrev pub others_of :
      Conn net post channels os_send → LastPingMap net post → Memory channels → Memory channels
  others_of conn last_ping m = memory_of m.started (
      conn.meanwhile
        (record { hub = m.hub; curr_client_id = m.curr_client_id; last_ping = last_ping }))

  -- Where a thread stands that has come to a result.
  abbrev pub pc_of : ClientId → ℕ → Handled net post channels os_send → ConnPc
  pc_of cid rx serving = ConnPc.serving cid rx
  pc_of cid rx _ = ConnPc.finished

  refused :
      (hub : Hub channels) (cid : ClientId) (e : HubError)
      → (add_client channels hub cid).1 ≡ err e
      → (add_client channels hub cid).0 ≡ hub
  unfolding add_client
  refused hub cid e f = ground arith

  module _ (conn : Conn net post channels os_send) (map : LastPingMap net post) where
    abbrev shared_of : Hub channels → ClientId → Shared net post channels os_send
    shared_of hub next = record { hub = hub; curr_client_id = next; last_ping = map }

    -- From a point of the thread to a report.
    abbrev Goes :
        Memory channels → ConnPc → ClientId → ℕ → Report net post channels os_send → Type 0
    Goes m p cid rx r =
        (started : ℕ) × Trace (others_of conn map) (memory_of started r.shared)
          (pc_of cid rx r.handled) m p

    close-Goes :
        (n cid rx : ℕ) (now : Shared net post channels os_send)
        (x : Sess net post os_send × Exit Error × LastPingMap net post)
        → Goes
            (memory_of n now)
            (ConnPc.serving cid rx)
            cid
            rx
            (close net post channels os_send cid rx now x)
    unfolding close
    close-Goes n cid rx now (s, running, last) = (n, stop)
    close-Goes n cid rx now (s, finished c, last) = (n, move end_session (move leave stop))
    close-Goes n cid rx now (s, failed e, last) = (n, move end_session (move leave stop))

    serve-Goes :
        (n cid rx : ℕ) (target : SocketAddr) (tickers : List Text) (hub : Hub channels)
        (next : ClientId)
        → Goes
            (memory_of n (shared_of hub next))
            (ConnPc.serving cid rx)
            cid
            rx
            (serve net post channels os_send conn cid rx target tickers (shared_of hub next))
    unfolding serve
    serve-Goes n cid rx target tickers hub next =
        let now = conn.meanwhile (shared_of hub next) in
        let (k, t) = close-Goes n cid rx now (
          run_session net post os_send tickers target conn.session_start conn.attempts conn.ticks
            now.last_ping) in
        (k, meanwhile t)

    welcome-Goes :
        (n cid rx : ℕ) (target : SocketAddr) (tickers : List Text) (hub : Hub channels)
        (next : ClientId)
        → Goes
            (memory_of n (shared_of hub next))
            (ConnPc.welcomed cid rx)
            cid
            rx
            (welcome net post channels os_send conn cid rx target tickers (shared_of hub next))
    unfolding welcome
    welcome-Goes n cid rx target tickers hub next = elim (Result-cases conn.write_all) [
      | inr (x, w) ↦ rw (w, welcome) (n, move write_fails (move unregister (move hang_up stop)))
      | inl (u, w) ↦ elim (Result-cases conn.flush) [
        | inr (x, f) ↦ rw (w, f, welcome) (n, move flush_fails stop)
        | inl (v, f) ↦
            rw (w, f, welcome)
              (let (k, t) = serve-Goes n cid rx target tickers hub next in (k, move answer t))
      ]
    ]

    enter-Goes :
        (n : ℕ) (cmd : Command net) (hub : Hub channels) (cid : ClientId)
        → Goes
            (memory_of n (shared_of hub cid))
            ConnPc.reading
            cid
            hub.next_chan
            (enter net post channels os_send conn cmd (shared_of hub cid))
    unfolding enter refuse
    enter-Goes n (stream target tickers) hub cid =
        elim (Result-cases (add_client channels hub cid).1) [
          | inl (rx, e) ↦
              let known = e ∙ ap ok (add_client-Added channels hub cid rx e).0 in
              let (k, t) =
                welcome-Goes (suc n) cid hub.next_chan target tickers
                  (add_client channels hub cid).0 ((cid + 1) % 2 ^ 64) in
              rw (known, enter) (k, move take_id (move (register known) t))
          | inr (e, f) ↦
              rw (f, enter, refused hub cid e f) (suc n, move take_id (move (reject f) stop))
        ]

    -- `handle_conn` is a run of the steps of a connection, with what the other threads do during its
    -- session in between: from the start of the thread to its end, or into the session that it still
    -- serves, with the same hub and the same next client number.
    pub handle_conn-Trace :
        (n : ℕ) (hub : Hub channels) (cid : ClientId)
        → Goes
            (memory_of n (shared_of hub cid))
            ConnPc.reading
            cid
            hub.next_chan
            (handle_conn net post channels os_send conn (shared_of hub cid))
    unfolding handle_conn refuse
    handle_conn-Trace n hub cid =
        elim (Result-cases (extract_command net post channels os_send conn.read)) [
          | inr (e, x) ↦ rw (x, handle_conn) (n, move refuse_command stop)
          | inl (cmd, x) ↦ rw (x, handle_conn) (enter-Goes n cmd hub cid)
        ]
