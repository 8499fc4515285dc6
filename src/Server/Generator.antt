-- ===== src/Server/Generator.antt =====
-- quote-server/src/generator.rs. The random draws and the arithmetic of floats are parameters.
pub mod Batch
pub mod Bounds
pub mod Started
use rust_streaming_quotes.Base.{
  ℕ, ◌+◌, ◌≤◌, Bool, true, false, Option, none, some, List, [], ◌∷◌, ◌++◌, map, if◌then◌else◌, leb,
  codes,
}
use rust_streaming_quotes.Base.Int.{ℤ, pos, negsuc, pos_part, neg_part}
use rust_streaming_quotes.Assoc.{lookup, insert}
use rust_streaming_quotes.Core.Types.{StockQuote}
use rust_streaming_quotes.Text.{Text, text_eq}
use rust_streaming_quotes.TextSet.{contains}

-- `max_rel_step` is read by the draws only.
pub record GeneratorConfig : Type 0 where
  pub min_price : ℤ

abbrev pub default_config : GeneratorConfig
default_config = record { min_price = pos 1 }

-- What one call of `next_quote` draws: `moved price` is `((1.0 + delta) * price as f64).round()` as
-- an i64, `random_range n` a draw from `0..n`, `now_ms` the time.
pub record Draws : Type 0 where
  pub moved : ℤ → ℤ
  pub random_range : ℕ → ℕ
  pub now_ms : ℕ

pub record QuoteGenerator : Type 0 where
  pub cfg : GeneratorConfig
  pub states : List (Text × ℤ)
  pub high_volume : List Text

pub high_volume_tickers : List Text
high_volume_tickers = codes "AAPL" ∷ codes "MSFT" ∷ codes "TSLA" ∷ []

-- `collect` into a HashMap, one insertion after the other; `start_price` draws from `5000..50000`.
start_states : (Text → ℕ) → List Text → List (Text × ℤ) → List (Text × ℤ)
unfolding insert
start_states start_price [] states = states
start_states start_price (t ∷ tickers) states =
    start_states start_price tickers (insert text_eq t (pos (start_price t)) states)

unfoldable pub new : (Text → ℕ) → List Text → GeneratorConfig → QuoteGenerator
unfolding high_volume_tickers start_states
new start_price tickers cfg = record {
  cfg = cfg;
  states = start_states start_price tickers [];
  high_volume = high_volume_tickers;
}

-- `i64::max`.
unfoldable pub max : ℤ → ℤ → ℤ
max a b = if leb (pos_part b + neg_part a) (pos_part a + neg_part b) then a else b

-- A write through `get_mut`.
unfoldable pub set_price : Text → ℤ → List (Text × ℤ) → List (Text × ℤ)
set_price t price [] = []
set_price t price ((u, p) ∷ states) =
    let rest = set_price t price states in
    if text_eq t u then (u, price) ∷ states else (u, p) ∷ rest

pub volume_of : List Text → Draws → Text → ℕ
volume_of high_volume d ticker =
    if contains ticker high_volume then 1000 + d.random_range 5000 else 100 + d.random_range 1000

unfoldable pub next_quote : Draws → QuoteGenerator → Text → QuoteGenerator × Option StockQuote
unfolding max set_price volume_of lookup
next_quote d g ticker = elim (lookup text_eq ticker g.states) [
  | none ↦ (g, none)
  | some price ↦
      let price' = max (d.moved price) g.cfg.min_price in
      (
        record g { states = set_price ticker price' g.states },
        some (record {
          ticker = ticker;
          price = price';
          volume = volume_of g.high_volume d ticker;
          timestamp_ms = d.now_ms;
        }),
      )
]

unfoldable pub push_some : Option StockQuote → List StockQuote → List StockQuote
push_some none out = out
push_some (some q) out = out ++ q ∷ []

-- The loop of `next_batch`; `draws t` are the draws for the ticker `t`.
unfoldable pub batch_loop :
    (Text → Draws) → List Text → QuoteGenerator → List StockQuote → QuoteGenerator × List StockQuote
unfolding next_quote push_some
batch_loop draws [] g out = (g, out)
batch_loop draws (t ∷ keys) g out =
    let (g', q) = next_quote (draws t) g t in batch_loop draws keys g' (push_some q out)

unfoldable pub keys : List (Text × ℤ) → List Text
keys [] = []
keys ((t, p) ∷ states) = t ∷ keys states

unfoldable pub next_batch : (Text → Draws) → QuoteGenerator → QuoteGenerator × List StockQuote
unfolding batch_loop keys
next_batch draws g = batch_loop draws (keys g.states) g []
