-- ===== src/Server/Main/Stages.antt =====
-- On `main` of quote-server/src/main.rs: what was started, and how it ends.
use rust_streaming_quotes.Base.{
  ◌≡◌, ◌≢◌, refl, arith, true, List, [], ◌∷◌, ltb, if◌then◌else◌, Result, Result-cases, ok, err,
  inl, inr,
}
use rust_streaming_quotes.Text.{Text}
use rust_streaming_quotes.TextSet.{IsAscending}
use rust_streaming_quotes.Core.Tickers.{IoError, FileSystem}
use rust_streaming_quotes.Server.Load.{TickerArgs, load_server_tickers_from_args}
use rust_streaming_quotes.Server.Load.Loaded.{load_server_tickers_from_args-IsServed}
use rust_streaming_quotes.Server.Tcp.Accept.{
  Handle, Listener, AcceptRound, Ended, running, stopped, panicked, failed, run_tcp_listener,
}
use rust_streaming_quotes.Server.Tcp.Reaped.{count}
use rust_streaming_quotes.Server.Tcp.Joined.{Settled, run_tcp_listener-Settled}
use rust_streaming_quotes.Server.Main.{
  ping_listener, generator, Outcome, serving, done, crashed, failed_with, ServerRun, Startup,
  after_listener, main,
}

-- Both threads in the background were started, the generator with tickers to quote.
abbrev pub IsReady : ServerRun → Type 0
IsReady s =
    (tickers : List Text) × (s.spawned ≡ ping_listener ∷ generator tickers ∷ [])
    × (tickers ≢ [])
    × IsAscending tickers

-- What each outcome stands for, with `h` any thread of a connection.
abbrev pub StandsFor : Handle → ServerRun → Outcome → Type 0
StandsFor h s serving = IsReady s × (s.joined ≡ [])
StandsFor h s done =
    IsReady s
    × (s.joined ≡ s.spawned)
    × (s.flag_stored ≡ true)
    × (count h s.listener.joined ≡ (if ltb h s.listener.next_thread then 1 else 0))
StandsFor h s crashed = ⊥
StandsFor h s (failed_with e) = s.joined ≡ []

after_listener_lem :
    (h : Handle) (tickers : List Text) (r : Listener × Ended)
    → Settled h r
    → tickers ≢ []
    → IsAscending tickers
    → let s = after_listener (ping_listener ∷ generator tickers ∷ []) r in StandsFor h s s.outcome
unfolding after_listener
after_listener_lem h tickers (l, running) e n a = ((tickers, refl, n, a), refl)
after_listener_lem h tickers (l, stopped) e n a = ((tickers, refl, n, a), refl, refl, e)
after_listener_lem h tickers (l, panicked) e n a = absurd e
after_listener_lem h tickers (l, failed x) e n a = refl

-- A listener that cannot bind starts no thread.
any_bind-Settled :
    (h : Handle) (bind : Result (Unit {0}) IoError) (rs : List AcceptRound)
    → Settled h (run_tcp_listener bind rs)
unfolding run_tcp_listener count
any_bind-Settled h (ok u) rs = run_tcp_listener-Settled h rs
any_bind-Settled h (err e) rs = ground arith

-- `main` never crashes on an index. While it serves, and when it is done, both threads in the background
-- have been started, the generator's with a nonempty, strictly ascending list of tickers; when it is
-- done, it has set the flag and joined both, and the listener has joined every connection's thread
-- once; when it fails, it has joined neither.
pub main_lem :
    (open_file : FileSystem) (args : TickerArgs) (w : Startup) (h : Handle)
    → StandsFor h (main open_file args w) (main open_file args w).outcome
unfolding main
main_lem open_file args w h = elim (Result-cases w.set_handler) [
  | inr (e, f) ↦ rw (f, main) refl
  | inl (u, f) ↦ elim (Result-cases w.udp_bind) [
    | inr (e, b) ↦ rw (f, b, main) refl
    | inl (v, b) ↦ elim (Result-cases (load_server_tickers_from_args open_file args)) [
      | inr (e, l) ↦ rw (f, b, l, main) refl
      | inl (ts, l) ↦
          let (some_ticker, ascending) =
            load_server_tickers_from_args-IsServed open_file args ts l in
          rw (f, b, l, main)
            (after_listener_lem h ts _ (any_bind-Settled h w.tcp_bind w.rounds) some_ticker
              ascending)
    ]
  ]
]
