-- ===== src/Server/Session.antt =====
-- quote-server/src/session.rs: the thread that serves one client.
pub mod Streak
pub mod Sends
pub mod Ends
pub mod Taken
pub mod Reliable
use rust_streaming_quotes.Base.{
  ℕ, suc, ◌+◌, ◌-◌, Bool, true, false, Option, none, some, List, [], ◌∷◌, ◌++◌, ◌==◌, ltb, leb,
  if◌then◌else◌, Result, ok, err, ◌>>=◌, map_err,
}
use rust_streaming_quotes.Assoc.{lookup, remove}
use rust_streaming_quotes.Text.{Text}
use rust_streaming_quotes.TextSet.{contains}
use rust_streaming_quotes.Core.Constants.{ping_timeout}
use rust_streaming_quotes.Core.Error.{WireError}
use rust_streaming_quotes.Core.Net.{Net}
use rust_streaming_quotes.Core.Tickers.{IoError}
use rust_streaming_quotes.Core.Types.{StockQuote}
use rust_streaming_quotes.Core.Wire.{Bytes, UdpPacketV1, quote, Postcard, encode_v1}
use rust_streaming_quotes.Server.Hub.{add_usize}
use rust_streaming_quotes.Server.Ping.{Instant, LastPingMap}

abbrev pub back_to_back_send_err_limit : ℕ
back_to_back_send_err_limit = 20

-- `anyhow::Error`, from `encode_v1` or from `send_to`.
pub data SendError (E : Type 0) : Type 0 where
  wire : WireError E → SendError E
  io : IoError → SendError E

-- Why the loop of a session was left by `break`.
pub data Cause : Type 0 where
  shutdown_requested ping_expired_for channel_closed : Cause

pub data Exit (E : Type 0) : Type 0 where
  running : Exit E
  finished : Cause → Exit E
  failed : SendError E → Exit E

-- The result of `recv_timeout`.
pub data Waited : Type 0 where
  got : StockQuote → Waited
  timeout disconnected : Waited

-- `os_send n target bytes` is the result of the `n`-th `send_to` on the socket.
module _ (net : Net) (post : Postcard)
    (os_send : ℕ → net.SocketAddr → Bytes → Result (Unit {0}) IoError) where
  open net use {SocketAddr, addr_eq}
  open post use {Error}

  -- The error counter, and the socket: its calls so far, the datagrams that went out, oldest first.
  -- `results` notes the results of `send_quote`, newest first; the program does not read it.
  pub record Sess : Type 0 where
    pub err_count : ℕ
    pub attempts : ℕ
    pub delivered : List (SocketAddr × Bytes)
    pub results : List Bool

  transmit : SocketAddr → Bytes → Sess → Sess × Result (Unit {0}) (SendError Error)
  transmit target bytes s = elim (os_send s.attempts target bytes) [
    | ok _ ↦ (
      record s {
        attempts = suc s.attempts;
        delivered = s.delivered ++ (target, bytes) ∷ [];
        results = true ∷ s.results;
      },
      ok tt,
    )
    | err e ↦ (record s { attempts = suc s.attempts; results = false ∷ s.results }, err (io e))
  ]

  unfoldable pub send_quote :
      SocketAddr → StockQuote → Sess → Sess × Result (Unit {0}) (SendError Error)
  unfolding transmit encode_v1
  send_quote target q s = elim (encode_v1 post (quote q)) [
    | ok bytes ↦ transmit target bytes s
    | err e ↦ (record s { results = false ∷ s.results }, err (wire e))
  ]

  -- The arms for the result of `send_quote`.
  count_result :
      Sess → Result (Unit {0}) (SendError Error) → Sess × Result (Unit {0}) (SendError Error)
  count_result s (ok _) = (record s { err_count = 0 }, ok tt)
  count_result s (err e) =
      let n = add_usize s.err_count 1 in
      if leb back_to_back_send_err_limit n
      then (record s { err_count = n }, err e)
      else (record s { err_count = n }, ok tt)

  unfoldable pub handle_quote :
      List Text → SocketAddr → StockQuote → Sess → Sess × Result (Unit {0}) (SendError Error)
  unfolding send_quote count_result contains
  handle_quote tickers target q s =
      let (s', result) = send_quote target q s in
      if contains q.ticker tickers then count_result s' result else (s, ok tt)

  -- `for q in rx.try_iter()`, on the quotes that it yields.
  drain :
      List Text → SocketAddr → List StockQuote → Sess → Sess × Result (Unit {0}) (SendError Error)
  unfolding handle_quote
  drain tickers target [] s = (s, ok tt)
  drain tickers target (q ∷ qs) s =
      let (s', result) = handle_quote tickers target q s in
      let rest = drain tickers target qs s' in elim result [ ok _ ↦ rest | err e ↦ (s', err e) ]

  unfoldable pub ping_expired : LastPingMap net post → SocketAddr → Instant → Instant → Bool
  unfolding lookup
  ping_expired last_ping target session_start now =
      let age : ℕ = elim (lookup addr_eq target last_ping) [
        | some t ↦ now - t
        | none ↦ now - session_start
      ] in
      ltb ping_timeout age

  -- What one round of the loop meets: the flag, the clock, the map of last pings, the quotes that
  -- `try_iter` yields, and what `recv_timeout` returns.
  pub record Tick : Type 0 where
    pub shutdown : Bool
    pub now : Instant
    pub last_ping : LastPingMap net post
    pub drained : List StockQuote
    pub waited : Waited

  -- The arms for the result of `recv_timeout`, behind the drained queue.
  wait : List Text → SocketAddr → Waited → Sess → Sess × Exit Error
  unfolding handle_quote
  wait tickers target (got q) s =
      let (s', result) = handle_quote tickers target q s in
      elim result [ ok _ ↦ (s', running) | err e ↦ (s', failed e) ]
  wait tickers target timeout s = (s, running)
  wait tickers target disconnected s = (s, finished channel_closed)

  -- One round of the loop.
  unfoldable pub tick : List Text → SocketAddr → Instant → Tick → Sess → Sess × Exit Error
  unfolding drain wait ping_expired
  tick tickers target session_start t s =
      let (s', result) = drain tickers target t.drained s in
      if t.shutdown
      then (s, finished shutdown_requested)
      else if ping_expired t.last_ping target session_start t.now
      then (s, finished ping_expired_for)
      else elim result [ ok _ ↦ wait tickers target t.waited s' | err e ↦ (s', failed e) ]

  unfoldable pub session_loop :
      List Text → SocketAddr → Instant → List Tick → Sess → Sess × Exit Error
  unfolding tick
  session_loop tickers target start [] s = (s, running)
  session_loop tickers target start (t ∷ ts) s =
      let (s', exit) = tick tickers target start t s in
      let rest = session_loop tickers target start ts s' in
      elim exit [ running ↦ rest | finished c ↦ (s', finished c) | failed e ↦ (s', failed e) ]

  -- Behind the loop: a `break` leads to the removal of the entry, an error returns before it.
  leave : SocketAddr → Exit Error → LastPingMap net post → LastPingMap net post
  leave target running map = map
  leave target (finished c) map = remove addr_eq target map
  leave target (failed e) map = map

  abbrev pub fresh_session : ℕ → Sess
  fresh_session attempts = record {
    err_count = 0;
    attempts = attempts;
    delivered = [];
    results = [];
  }

  -- `run_session` on the rounds that take place; `map` is the map of last pings at its end.
  unfoldable pub run_session :
      List Text
      → SocketAddr
      → Instant
      → ℕ
      → List Tick
      → LastPingMap net post
      → Sess × Exit Error × LastPingMap net post
  unfolding session_loop leave remove
  run_session tickers target start attempts ticks map =
      let (s, exit) = session_loop tickers target start ticks (fresh_session attempts) in
      (s, exit, leave target exit map)
