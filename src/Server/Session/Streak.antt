-- ===== src/Server/Session/Streak.antt =====
-- On quote-server/src/session.rs: the counter of errors.
use rust_streaming_quotes.Base.{
  ℕ, suc, ◌<◌, ◌≡◌, refl, ◌∙◌, Bool, true, false, List, [], ◌∷◌, leb, Result, ok, err, arith,
  Bool-cases, inl, inr,
}
use rust_streaming_quotes.Text.{Text}
use rust_streaming_quotes.TextSet.{contains}
use rust_streaming_quotes.Core.Net.{Net}
use rust_streaming_quotes.Core.Tickers.{IoError}
use rust_streaming_quotes.Core.Types.{StockQuote}
use rust_streaming_quotes.Core.Wire.{Bytes, Postcard}
use rust_streaming_quotes.Server.Hub.{add_usize}
use rust_streaming_quotes.Server.Ping.{Instant}
use rust_streaming_quotes.Server.Session.{
  back_to_back_send_err_limit, SendError, Exit, running, finished, failed, Waited, got, timeout,
  disconnected, Sess, send_quote, count_result, handle_quote, drain, ping_expired, Tick, wait, tick,
  session_loop, fresh_session,
}

-- How many of the newest results are failures, in a row.
unfoldable pub streak : List Bool → ℕ
streak [] = 0
streak (true ∷ results) = 0
streak (false ∷ results) = suc (streak results)

module _ (net : Net) (post : Postcard)
    (os_send : ℕ → net.SocketAddr → Bytes → Result (Unit {0}) IoError) where
  open net use {SocketAddr}
  open post use {Error}

  -- The counter is the streak, which is below the limit.
  abbrev pub IsSteady : Sess net post os_send → Type 0
  IsSteady s = (s.err_count ≡ streak s.results) × (streak s.results < back_to_back_send_err_limit)

  abbrev Outcome : Sess net post os_send × Result (Unit {0}) (SendError Error) → Type 0
  Outcome (s, ok _) = IsSteady s
  Outcome (s, err e) = streak s.results ≡ back_to_back_send_err_limit

  abbrev pub ExitOutcome : Sess net post os_send × Exit Error → Type 0
  ExitOutcome (s, running) = IsSteady s
  ExitOutcome (s, finished c) = IsSteady s
  ExitOutcome (s, failed e) = streak s.results ≡ back_to_back_send_err_limit

  is_ok : Result (Unit {0}) (SendError Error) → Bool
  is_ok (ok _) = true
  is_ok (err e) = false

  send_quote-results :
      (target : SocketAddr) (q : StockQuote) (s : Sess net post os_send)
      → ((send_quote net post os_send target q s).0.err_count ≡ s.err_count)
        × ((send_quote net post os_send target q s).0.results
            ≡ is_ok (send_quote net post os_send target q s).1 ∷ s.results)
  unfolding send_quote is_ok
  send_quote-results target q s = (ground arith, ground arith)

  count_result-Outcome :
      (s : Sess net post os_send) (r : Result (Unit {0}) (SendError Error)) (results : List Bool)
      → s.results ≡ is_ok r ∷ results
      → s.err_count ≡ streak results
      → streak results < back_to_back_send_err_limit
      → Outcome (count_result net post os_send s r)
  unfolding count_result is_ok streak
  count_result-Outcome s (ok u) results e c b = (ground arith, ground arith)
  count_result-Outcome s (err x) results e c b =
      elim (Bool-cases (leb back_to_back_send_err_limit (add_usize s.err_count 1))) [
        | inl l ↦ rw (l, count_result) (ground arith)
        | inr l ↦ rw (l, count_result) (ground arith, ground arith)
      ]

  handle_quote-Outcome :
      (tickers : List Text) (target : SocketAddr) (q : StockQuote) (s : Sess net post os_send)
      → IsSteady s
      → Outcome (handle_quote net post os_send tickers target q s)
  unfolding handle_quote
  handle_quote-Outcome tickers target q s (e, b) = elim (Bool-cases (contains q.ticker tickers)) [
    | inl l ↦
        let (same_count, noted) = send_quote-results target q s in
        rw (l, handle_quote) (count_result-Outcome _ _ s.results noted (same_count ∙ e) b)
    | inr l ↦ rw (l, handle_quote) (e, b)
  ]

  -- What follows a result is done on success only.
  pass-Outcome :
      (x : Sess net post os_send × Result (Unit {0}) (SendError Error))
      (rest : Sess net post os_send × Result (Unit {0}) (SendError Error))
      → Outcome x
      → (IsSteady x.0 → Outcome rest)
      → Outcome (elim x.1 [ ok _ ↦ rest | err e ↦ (x.0, err e) ])
  pass-Outcome (s, ok u) rest h k = k h
  pass-Outcome (s, err e) rest h k = h

  drain-Outcome :
      (tickers : List Text) (target : SocketAddr) (qs : List StockQuote) (s : Sess net post os_send)
      → IsSteady s
      → Outcome (drain net post os_send tickers target qs s)
  unfolding drain
  drain-Outcome tickers target [] s h = h
  drain-Outcome tickers target (q ∷ qs) s h =
      pass-Outcome (handle_quote net post os_send tickers target q s) _
        (handle_quote-Outcome tickers target q s h) (λ k. drain-Outcome tickers target qs _ k)

  exit_of-Outcome :
      (x : Sess net post os_send × Result (Unit {0}) (SendError Error))
      (rest : Sess net post os_send × Exit Error)
      → Outcome x
      → (IsSteady x.0 → ExitOutcome rest)
      → ExitOutcome (elim x.1 [ ok _ ↦ rest | err e ↦ (x.0, failed e) ])
  exit_of-Outcome (s, ok u) rest h k = k h
  exit_of-Outcome (s, err e) rest h k = h

  wait-Outcome :
      (tickers : List Text) (target : SocketAddr) (w : Waited) (s : Sess net post os_send)
      → IsSteady s
      → ExitOutcome (wait net post os_send tickers target w s)
  unfolding wait
  wait-Outcome tickers target (got q) s h =
      exit_of-Outcome (handle_quote net post os_send tickers target q s) _
        (handle_quote-Outcome tickers target q s h) (λ k. k)
  wait-Outcome tickers target timeout s h = h
  wait-Outcome tickers target disconnected s h = h

  tick-Outcome :
      (tickers : List Text) (target : SocketAddr) (start : Instant) (t : Tick net post os_send)
      (s : Sess net post os_send)
      → IsSteady s
      → ExitOutcome (tick net post os_send tickers target start t s)
  unfolding tick
  tick-Outcome tickers target start t s h = elim (Bool-cases t.shutdown) [
    | inl e ↦ rw (e, tick) h
    | inr e ↦ elim (Bool-cases (ping_expired net post os_send t.last_ping target start t.now)) [
      | inl x ↦ rw (e, x, tick) h
      | inr x ↦
          rw (e, x, tick)
            (exit_of-Outcome (drain net post os_send tickers target t.drained s) _
              (drain-Outcome tickers target t.drained s h)
              (λ k. wait-Outcome tickers target t.waited _ k))
    ]
  ]

  loop-Outcome :
      (x rest : Sess net post os_send × Exit Error)
      → ExitOutcome x
      → (IsSteady x.0 → ExitOutcome rest)
      → ExitOutcome (elim x.1 [
        | running ↦ rest
        | finished c ↦ (x.0, finished c)
        | failed e ↦ (x.0, failed e)
      ])
  loop-Outcome (s, running) rest h k = k h
  loop-Outcome (s, finished c) rest h k = h
  loop-Outcome (s, failed e) rest h k = h

  session_loop-Outcome :
      (tickers : List Text) (target : SocketAddr) (start : Instant)
      (ts : List (Tick net post os_send)) (s : Sess net post os_send)
      → IsSteady s
      → ExitOutcome (session_loop net post os_send tickers target start ts s)
  unfolding session_loop
  session_loop-Outcome tickers target start [] s h = h
  session_loop-Outcome tickers target start (t ∷ ts) s h =
      loop-Outcome (tick net post os_send tickers target start t s) _
        (tick-Outcome tickers target start t s h)
        (λ k. session_loop-Outcome tickers target start ts _ k)

  -- A session fails exactly at the twentieth failure in a row: as long as it runs, or if it was left
  -- by `break`, its counter is the number of failures since the last success, which is below twenty;
  -- if it failed, the newest failures in a row number twenty.
  pub session-streak :
      (tickers : List Text) (target : SocketAddr) (start : Instant) (attempts : ℕ)
      (ts : List (Tick net post os_send))
      → ExitOutcome (
          session_loop net post os_send tickers target start ts
            (fresh_session net post os_send attempts))
  unfolding streak
  session-streak tickers target start attempts ts =
      session_loop-Outcome tickers target start ts (fresh_session net post os_send attempts)
        (refl, omega arith)
