-- ===== src/Server/Generator/Bounds.antt =====
-- On quote-server/src/generator.rs: the ranges of the numbers in the quotes.
use rust_streaming_quotes.Base.{
  ℕ, ◌≤◌, ◌<◌, ◌≡◌, refl, sym, subst, ◌∙◌, arith, if◌then◌else◌, Bool-cases, List, [], ◌∷◌, ◌++◌,
  inl, inr, All, All-append, All-map,
}
use rust_streaming_quotes.Base.Int.{ℤ, pos, ◌≤ℤ◌, IsI64}
use rust_streaming_quotes.Core.Types.{StockQuote}
use rust_streaming_quotes.Text.{Text}
use rust_streaming_quotes.TextSet.{contains}
use rust_streaming_quotes.Server.Generator.{
  default_config, Draws, QuoteGenerator, high_volume_tickers, new, max, volume_of, next_batch,
}
use rust_streaming_quotes.Server.Generator.Batch.{IsQuote, next_batch_lem, next_batch-kept}

-- The generator of the draws keeps to its ranges, and the conversion to an i64 saturates.
pub record IsDraw (d : Draws) : Type 0 where
  pub in_range : (n : ℕ) → 0 < n → d.random_range n < n
  pub saturates : (price : ℤ) → IsI64 (d.moved price)

pub record IsBounded (q : StockQuote) : Type 0 where
  pub positive : pos 1 ≤ℤ q.price
  pub fits : IsI64 q.price
  pub volume :
      if contains q.ticker high_volume_tickers
      then (1000 ≤ q.volume) × (q.volume < 6000)
      else (100 ≤ q.volume) × (q.volume < 1100)

max-IsI64 : (a b : ℤ) → IsI64 a → IsI64 b → IsI64 (max a b)
unfolding max
max-IsI64 a b ha hb = ground arith

IsQuote-IsBounded :
    (draws : Text → Draws)
    → ((t : Text) → IsDraw (draws t))
    → (q : StockQuote) → IsQuote default_config high_volume_tickers draws q
    → IsBounded q
unfolding volume_of
IsQuote-IsBounded draws h q v = record {
  positive = v.floor;
  fits = subst IsI64 (sym v.step.1) (max-IsI64 _ _ ((h q.ticker).saturates v.step.0) (omega arith));
  volume = elim (Bool-cases (contains q.ticker high_volume_tickers)) [
    | inl e ↦ rw e (ground (arith, v.volume, (h q.ticker).in_range 5000))
    | inr e ↦ rw e (ground (arith, v.volume, (h q.ticker).in_range 1000))
  ];
}

-- The batches of a generator, one after the other.
unfoldable pub batches : List (Text → Draws) → QuoteGenerator → QuoteGenerator × List StockQuote
unfolding next_batch
batches [] g = (g, [])
batches (draws ∷ ds) g =
    let (g', out) = next_batch draws g in let (g'', rest) = batches ds g' in (g'', out ++ rest)

batches-IsBounded_from :
    (ds : List (Text → Draws)) (g : QuoteGenerator)
    → g.cfg ≡ default_config
    → g.high_volume ≡ high_volume_tickers
    → All (λ draws. (t : Text) → IsDraw (draws t)) ds
    → All IsBounded (batches ds g).1
unfolding batches
batches-IsBounded_from [] g c hv h = tt
batches-IsBounded_from (draws ∷ ds) g c hv h =
    let (cfg, high) = next_batch-kept draws g in
    let quotes =
      subst (λ k. All (IsQuote k high_volume_tickers draws) (next_batch draws g).1) c
        (subst (λ l. All (IsQuote g.cfg l draws) (next_batch draws g).1) hv
          (next_batch_lem draws g).1) in
    All-append IsBounded (next_batch draws g).1 _ (All-map (IsQuote-IsBounded draws h.0) _ quotes)
      (batches-IsBounded_from ds (next_batch draws g).0 (cfg ∙ c) (high ∙ hv) h.1)

-- In any number of batches of a new generator with the default configuration, if the draws keep to
-- their ranges and the moved prices fit an i64, each price is at least 1 and fits an i64, and each
-- volume is from 1000 to 5999 for the tickers of high volume and from 100 to 1099 for the others.
pub batches-IsBounded :
    (start_price : Text → ℕ) (tickers : List Text) (ds : List (Text → Draws))
    → All (λ draws. (t : Text) → IsDraw (draws t)) ds
    → All IsBounded (batches ds (new start_price tickers default_config)).1
unfolding new
batches-IsBounded start_price tickers ds h =
    batches-IsBounded_from ds (new start_price tickers default_config) refl refl h
