-- ===== src/Server/Main.antt =====
-- quote-server/src/main.rs: the generator's thread, and `main`.
pub mod Rounds
pub mod Stages
use rust_streaming_quotes.Base.{
  ℕ, suc, zero, Bool, true, false, Option, none, some, List, [], ◌∷◌, ◌++◌, if◌then◌else◌, Result,
  ok, err, map_err,
}
use rust_streaming_quotes.Text.{Text}
use rust_streaming_quotes.Core.Tickers.{IoError, FileSystem}
use rust_streaming_quotes.Core.Types.{StockQuote}
use rust_streaming_quotes.Server.Channel.{Channels}
use rust_streaming_quotes.Server.Hub.{Hub, BroadcastStats, display_stats, not_empty, broadcast}
use rust_streaming_quotes.Server.Generator.{Draws, QuoteGenerator, default_config, next_batch}
use rust_streaming_quotes.Server.Generator as Generator
use rust_streaming_quotes.Server.Load.{TickerArgs, LoadError, load_server_tickers_from_args}
use rust_streaming_quotes.Server.Tcp.Accept.{
  AcceptRound, Ended, running, stopped, panicked, failed, Listener, no_threads, run_tcp_listener,
}

module _ (channels : Channels StockQuote) where
  -- The statistics that are logged.
  log : BroadcastStats → List Text → List Text
  unfolding not_empty display_stats
  log stats logged = if not_empty stats then logged ++ display_stats stats ∷ [] else logged

  -- `for q in quote_batch`, with the lines that are logged; `meanwhile n` is what the other threads
  -- do to the hub before the `n`-th broadcast.
  unfoldable pub broadcast_batch :
      (ℕ → Hub channels → Hub channels)
      → ℕ
      → List StockQuote
      → Hub channels × List Text
      → Hub channels × List Text
  unfolding log broadcast
  broadcast_batch meanwhile n [] (hub, logged) = (hub, logged)
  broadcast_batch meanwhile n (q ∷ qs) (hub, logged) =
      let (hub', stats) = broadcast channels (meanwhile n hub) q in
      broadcast_batch meanwhile (suc n) qs (hub', log stats logged)

  -- What one round of the generator's loop meets: the flag, the draws for each ticker, and the other
  -- threads.
  pub record Round : Type 0 where
    pub shutdown : Bool
    pub draws : Text → Draws
    pub meanwhile : ℕ → Hub channels → Hub channels

  pub record Producer : Type 0 where
    pub q_gen : QuoteGenerator
    pub hub : Hub channels
    pub logged : List Text

  -- One round, without its sleep.
  unfoldable pub produce : Round → Producer → Producer
  unfolding next_batch broadcast_batch
  produce r s =
      let (q_gen, quote_batch) = next_batch r.draws s.q_gen in
      let (hub, logged) = broadcast_batch r.meanwhile 0 quote_batch (s.hub, s.logged) in
      record { q_gen = q_gen; hub = hub; logged = logged }

  -- The generator's thread on the rounds that take place, and whether it has stopped.
  unfoldable pub generator_loop : List Round → Producer → Producer × Bool
  unfolding produce
  generator_loop [] s = (s, false)
  generator_loop (r ∷ rs) s =
      let rest = generator_loop rs (produce r s) in if r.shutdown then (s, true) else rest

  -- `start_price` are the draws of `QuoteGenerator::new`.
  unfoldable pub run_generator :
      (Text → ℕ) → List Text → List Round → Hub channels → Producer × Bool
  unfolding generator_loop Generator.new
  run_generator start_price tickers rounds hub =
      generator_loop rounds (record {
        q_gen = Generator.new start_price tickers default_config;
        hub = hub;
        logged = [];
      })

-- The threads in the background; the generator's has its tickers.
pub data Background : Type 0 where
  ping_listener : Background
  generator : List Text → Background

-- The `anyhow::Error` of `main`.
pub data MainError : Type 0 where
  io : IoError → MainError
  load : LoadError → MainError

-- How `main` ended, if it did.
pub data Outcome : Type 0 where
  serving done crashed : Outcome
  failed_with : MainError → Outcome

-- The threads that were spawned and those that were joined, oldest first, and whether `main` has set
-- the flag itself; `listener` are the threads of the connections.
pub record ServerRun : Type 0 where
  pub spawned : List Background
  pub joined : List Background
  pub flag_stored : Bool
  pub listener : Listener
  pub outcome : Outcome

-- What `main` meets: the results of `set_handler`, of `bind` for the UDP socket and of `bind` for the
-- listener, and the rounds of the listener.
pub record Startup : Type 0 where
  pub set_handler : Result (Unit {0}) IoError
  pub udp_bind : Result (Unit {0}) IoError
  pub tcp_bind : Result (Unit {0}) IoError
  pub rounds : List AcceptRound

abbrev stopped_early : List Background → MainError → ServerRun
stopped_early spawned e = record {
  spawned = spawned;
  joined = [];
  flag_stored = false;
  listener = no_threads;
  outcome = failed_with e;
}

-- What follows `run_tcp_listener`.
after_listener : List Background → Listener × Ended → ServerRun
after_listener handles (l, ended) =
    let left : Outcome → ServerRun = λ outcome. record {
      spawned = handles;
      joined = [];
      flag_stored = false;
      listener = l;
      outcome = outcome;
    } in
    elim ended [
      | running ↦ left serving
      | panicked ↦ left crashed
      | failed e ↦ left (failed_with (io e))
      | stopped ↦ record {
        spawned = handles;
        joined = handles;
        flag_stored = true;
        listener = l;
        outcome = done;
      }
    ]

unfoldable pub main : FileSystem → TickerArgs → Startup → ServerRun
unfolding load_server_tickers_from_args run_tcp_listener after_listener
main open_file args w = elim w.set_handler [
  | err e ↦ stopped_early [] (io e)
  | ok _ ↦ elim w.udp_bind [
    | err e ↦ stopped_early [] (io e)
    | ok _ ↦ elim (load_server_tickers_from_args open_file args) [
      | err e ↦ stopped_early (ping_listener ∷ []) (load e)
      | ok tickers ↦
          after_listener (ping_listener ∷ generator tickers ∷ [])
            (run_tcp_listener w.tcp_bind w.rounds)
    ]
  ]
]
