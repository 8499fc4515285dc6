-- ===== src/Server/MainTests.antt =====
-- Instances of the theorems on the generator's thread and on the start of the server.
use rust_streaming_quotes.Base.{
  ℕ, ◌≡◌, refl, arith, true, false, none, some, List, [], ◌∷◌, ◌++◌, codes, ok, err, All,
}
use rust_streaming_quotes.Base.Int.{pos}
use rust_streaming_quotes.Assoc.{lookup}
use rust_streaming_quotes.Text.{Text}
use rust_streaming_quotes.TextSet.{contains}
use rust_streaming_quotes.Core.Tickers.{other, FileSystem}
use rust_streaming_quotes.Core.Types.{StockQuote}
use rust_streaming_quotes.Server.SimpleChannels.{Chan, simple_channels}
use rust_streaming_quotes.Server.Hub.{Hub, new, add_client}
use rust_streaming_quotes.Server.Hub.Delivery.{mailbox}
use rust_streaming_quotes.Server.Hub.Registry.{empty_mailbox}
use rust_streaming_quotes.Server.Hub.Invariant.{IsValid, new-IsValid, add_client-IsValid}
use rust_streaming_quotes.Server.Generator.{Draws, QuoteGenerator, default_config, keys, next_batch}
use rust_streaming_quotes.Server.Generator as Generator
use rust_streaming_quotes.Server.Generator.Batch.{IsQuote, named_tickers}
use rust_streaming_quotes.Server.Generator.Bounds.{IsDraw, IsBounded, batches, batches-IsBounded}
use rust_streaming_quotes.Server.Generator.Started.{Distinct, every_batch-tickers}
use rust_streaming_quotes.Server.Load.{TickerArgs}
use rust_streaming_quotes.Server.Main.{Round, Producer, produce, Startup, main}
use rust_streaming_quotes.Server.Main.Rounds.{produce-mailbox}
use rust_streaming_quotes.Server.Main.Stages.{StandsFor, main_lem}

abbrev unused : ℕ → Chan
unused k = record { queue = []; capacity = 0; connected = false }

abbrev one_client : Hub simple_channels
one_client = (add_client simple_channels (new simple_channels unused 0) 1).0

one_client-IsValid : IsValid simple_channels one_client
one_client-IsValid =
    add_client-IsValid simple_channels (new simple_channels unused 0) 1
      (new-IsValid simple_channels unused 0)

abbrev draws : Text → Draws
draws t = record { moved = λ p. pos 7; random_range = λ n. 0; now_ms = 5 }

abbrev generator : QuoteGenerator
generator = record {
  cfg = default_config;
  states = (codes "A", pos 0) ∷ (codes "B", pos 9) ∷ [];
  high_volume = codes "B" ∷ [];
}

abbrev round : Round simple_channels
round = record { shutdown = false; draws = draws; meanwhile = λ n hub. hub }

abbrev producer : Producer simple_channels
producer = record { q_gen = generator; hub = one_client; logged = [] }

produce-mailbox_example :
    (qs : List StockQuote) × (mailbox simple_channels (produce simple_channels round producer).hub 1
      ≡ some (record { queue = [] ++ qs; capacity = 256; connected = true }))
    × (named_tickers qs ≡ keys generator.states)
    × All (IsQuote generator.cfg generator.high_volume draws) qs
    × (keys (produce simple_channels round producer).q_gen.states ≡ keys generator.states)
unfolding mailbox add_client new lookup keys
produce-mailbox_example =
    produce-mailbox simple_channels round producer 1 (empty_mailbox 256) one_client-IsValid
      (λ n hub v. (v, refl)) refl refl (omega arith)

draws-IsDraw : (t : Text) → IsDraw (draws t)
draws-IsDraw t = record { in_range = λ n l. l; saturates = λ p. omega arith }

batches-IsBounded_example :
    All IsBounded
      (batches
        (draws ∷ draws ∷ [])
        (Generator.new (λ t. 5000) (codes "A" ∷ codes "AAPL" ∷ []) default_config)).1
batches-IsBounded_example =
    batches-IsBounded (λ t. 5000) (codes "A" ∷ codes "AAPL" ∷ []) (draws ∷ draws ∷ [])
      (draws-IsDraw, (draws-IsDraw, tt))

every_batch-tickers_example :
    let quotes =
      (next_batch draws
        (batches (draws ∷ []) (
          Generator.new
            (λ t. 5000)
            (codes "A" ∷ codes "B" ∷ codes "A" ∷ [])
            default_config)).0).1 in
    Distinct (named_tickers quotes)
    × ((u : Text)
        → contains u (named_tickers quotes) ≡ contains u (codes "A" ∷ codes "B" ∷ codes "A" ∷ []))
every_batch-tickers_example =
    every_batch-tickers (λ t. 5000) (codes "A" ∷ codes "B" ∷ codes "A" ∷ []) default_config
      (draws ∷ []) draws

abbrev no_files : FileSystem
no_files path = err (record { kind = other; message = codes "no such file" })

-- The listener accepts one client and is asked to shut down.
abbrev startup : Startup
startup = record {
  set_handler = ok tt;
  udp_bind = ok tt;
  tcp_bind = ok tt;
  rounds =
      record { finished = λ h. false; shutdown = false; accepted = ok (ok tt) }
      ∷ record { finished = λ h. false; shutdown = true; accepted = ok (ok tt) }
      ∷ [];
}

abbrev two_tickers : TickerArgs
two_tickers = record { tickers_file = none; tickers = some (codes "a,b") }

main_lem_example :
    StandsFor 0 (main no_files two_tickers startup) (main no_files two_tickers startup).outcome
main_lem_example = main_lem no_files two_tickers startup 0
