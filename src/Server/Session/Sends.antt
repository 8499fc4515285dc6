-- ===== src/Server/Session/Sends.antt =====
-- On quote-server/src/session.rs: the datagrams of a session on any network.
use rust_streaming_quotes.Base.{
  ℕ, ◌≡◌, refl, Bool, true, false, List, [], ◌∷◌, ◌++◌, if◌then◌else◌, Result, ok, err, arith,
  Bool-cases, Result-cases, inl, inr, All, All-append,
}
use rust_streaming_quotes.Text.{Text}
use rust_streaming_quotes.TextSet.{contains}
use rust_streaming_quotes.Core.Error.{WireError}
use rust_streaming_quotes.Core.Net.{Net}
use rust_streaming_quotes.Core.Tickers.{IoError}
use rust_streaming_quotes.Core.Types.{StockQuote}
use rust_streaming_quotes.Core.Wire.{Bytes, quote, Postcard, encode_v1, decode}
use rust_streaming_quotes.Core.Wire.Laws.{decode-encode_v1}
use rust_streaming_quotes.Server.Ping.{Instant}
use rust_streaming_quotes.Server.Session.{
  SendError, Exit, running, finished, failed, Waited, got, timeout, disconnected, Sess, send_quote,
  count_result, handle_quote, drain, ping_expired, Tick, wait, tick, session_loop, fresh_session,
}

is_ok : Result (Unit {0}) IoError → Bool
is_ok (ok _) = true
is_ok (err e) = false

module _ (net : Net) (post : Postcard)
    (os_send : ℕ → net.SocketAddr → Bytes → Result (Unit {0}) IoError) where
  open net use {SocketAddr}
  open post use {Error}

  -- A property that `handle_quote` keeps is kept by the whole session.
  module _ (tickers : List Text) (target : SocketAddr) (P : Sess net post os_send → Type 0)
      (keep : (q : StockQuote) (s : Sess net post os_send)
        → P s
        → P (handle_quote net post os_send tickers target q s).0) where
    drain-keeps :
        (qs : List StockQuote) (s : Sess net post os_send)
        → P s
        → P (drain net post os_send tickers target qs s).0
    unfolding drain
    drain-keeps [] s h = h
    drain-keeps (q ∷ qs) s h =
        pick (handle_quote net post os_send tickers target q s) _ (keep q s h)
          (drain-keeps qs _ (keep q s h))
      where
        pick :
            (x rest : Sess net post os_send × Result (Unit {0}) (SendError Error))
            → P x.0
            → P rest.0
            → let y : Sess net post os_send × Result (Unit {0}) (SendError Error) = elim x.1 [
              | ok _ ↦ rest
              | err e ↦ (x.0, err e)
            ] in
              P y.0
        pick (s', ok u) rest a b = b
        pick (s', err e) rest a b = a

    exit-keeps :
        (x : Sess net post os_send × Result (Unit {0}) (SendError Error))
        (rest : Sess net post os_send × Exit Error)
        → P x.0
        → P rest.0
        → let y : Sess net post os_send × Exit Error = elim x.1 [
          | ok _ ↦ rest
          | err e ↦ (x.0, failed e)
        ] in
          P y.0
    exit-keeps (s, ok u) rest a b = b
    exit-keeps (s, err e) rest a b = a

    wait-keeps :
        (w : Waited) (s : Sess net post os_send)
        → P s
        → P (wait net post os_send tickers target w s).0
    unfolding wait
    wait-keeps (got q) s h =
        exit-keeps (handle_quote net post os_send tickers target q s) _ (keep q s h) (keep q s h)
    wait-keeps timeout s h = h
    wait-keeps disconnected s h = h

    tick-keeps :
        (start : Instant) (t : Tick net post os_send) (s : Sess net post os_send)
        → P s
        → P (tick net post os_send tickers target start t s).0
    unfolding tick
    tick-keeps start t s h = elim (Bool-cases t.shutdown) [
      | inl e ↦ rw (e, tick) h
      | inr e ↦ elim (Bool-cases (ping_expired net post os_send t.last_ping target start t.now)) [
        | inl x ↦ rw (e, x, tick) h
        | inr x ↦
            rw (e, x, tick)
              (exit-keeps (drain net post os_send tickers target t.drained s) _
                (drain-keeps t.drained s h) (wait-keeps t.waited _ (drain-keeps t.drained s h)))
      ]
    ]

    pub session_loop-keeps :
        (start : Instant) (ts : List (Tick net post os_send)) (s : Sess net post os_send)
        → P s
        → P (session_loop net post os_send tickers target start ts s).0
    unfolding session_loop
    session_loop-keeps start [] s h = h
    session_loop-keeps start (t ∷ ts) s h =
        pick (tick net post os_send tickers target start t s) _ (tick-keeps start t s h)
          (session_loop-keeps start ts _ (tick-keeps start t s h))
      where
        pick :
            (x rest : Sess net post os_send × Exit Error)
            → P x.0
            → P rest.0
            → let y : Sess net post os_send × Exit Error = elim x.1 [
              | running ↦ rest
              | finished c ↦ (x.0, finished c)
              | failed e ↦ (x.0, failed e)
            ] in
              P y.0
        pick (s', running) rest a b = b
        pick (s', finished c) rest a b = a
        pick (s', failed e) rest a b = a

  -- A datagram to the client, which its `decode` reads as a quote that it asked for.
  pub record IsWanted (tickers : List Text) (target : SocketAddr) (sent : SocketAddr × Bytes)
      : Type 0 where
    pub to_target : sent.0 ≡ target
    pub content : StockQuote
    pub readable : decode post sent.1 ≡ ok (quote content)
    pub subscribed : contains content.ticker tickers ≡ true

  -- What one quote adds to the datagrams sent.
  send_quote-delivered :
      (target : SocketAddr) (q : StockQuote) (s : Sess net post os_send) (bytes : Bytes)
      → encode_v1 post (quote q) ≡ ok bytes
      → (send_quote net post os_send target q s).0.delivered ≡ (
          if is_ok (os_send s.attempts target bytes)
          then s.delivered ++ (target, bytes) ∷ []
          else s.delivered)
  unfolding send_quote is_ok
  send_quote-delivered target q s bytes e = ground arith

  send_quote_unsent :
      (target : SocketAddr) (q : StockQuote) (s : Sess net post os_send) (x : WireError Error)
      → encode_v1 post (quote q) ≡ err x
      → (send_quote net post os_send target q s).0.delivered ≡ s.delivered
  unfolding send_quote
  send_quote_unsent target q s x e = ground arith

  handle_quote-delivered :
      (tickers : List Text) (target : SocketAddr) (q : StockQuote) (s : Sess net post os_send)
      → (handle_quote net post os_send tickers target q s).0.delivered ≡ (
          if contains q.ticker tickers
          then (send_quote net post os_send target q s).0.delivered
          else s.delivered)
  unfolding handle_quote count_result
  handle_quote-delivered tickers target q s = ground arith

  handle_quote-IsWanted :
      (tickers : List Text) (target : SocketAddr) (q : StockQuote) (s : Sess net post os_send)
      → All (IsWanted tickers target) s.delivered
      → All (IsWanted tickers target) (handle_quote net post os_send tickers target q s).0.delivered
  handle_quote-IsWanted tickers target q s h =
      rw (handle_quote-delivered tickers target q s)
        (elim (Bool-cases (contains q.ticker tickers)) [
          | inr l ↦ rw l h
          | inl l ↦ elim (Result-cases (encode_v1 post (quote q))) [
            | inr (x, e) ↦ rw (l, send_quote_unsent target q s x e) h
            | inl (bytes, e) ↦
                rw (l, send_quote-delivered target q s bytes e)
                  (elim (Bool-cases (is_ok (os_send s.attempts target bytes))) [
                    | inr n ↦ rw n h
                    | inl y ↦ rw y (
                        All-append (IsWanted tickers target) s.delivered _ h (
                          record {
                            to_target = refl;
                            content = q;
                            readable = decode-encode_v1 post (quote q) bytes e;
                            subscribed = l;
                          },
                          tt,
                        ))
                  ])
          ]
        ])

  -- Whatever the network does, every datagram of a session goes to the session's client and reads
  -- as a quote for a ticker that the client asked for.
  pub session-IsWanted :
      (tickers : List Text) (target : SocketAddr) (start : Instant) (attempts : ℕ)
      (ts : List (Tick net post os_send))
      → All
          (IsWanted tickers target)
          (session_loop net post os_send tickers target start ts
            (fresh_session net post os_send attempts)).0.delivered
  session-IsWanted tickers target start attempts ts =
      session_loop-keeps tickers target (λ s. All (IsWanted tickers target) s.delivered)
        (handle_quote-IsWanted tickers target) start ts (fresh_session net post os_send attempts) tt
