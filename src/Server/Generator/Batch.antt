-- ===== src/Server/Generator/Batch.antt =====
-- On `next_quote` and `next_batch` of quote-server/src/generator.rs.
use rust_streaming_quotes.Base.{
  ◌≡◌, ◌≢◌, refl, ap, sym, subst, ◌∙◌, arith, Bool, true, false, ◌||◌, Option, none, some, List, [],
  ◌∷◌, ◌++◌, if◌then◌else◌, Bool-cases, inl, inr, All, All-append, append_assoc, append-nil,
}
use rust_streaming_quotes.Base.Int.{ℤ, ◌≤ℤ◌}
use rust_streaming_quotes.Assoc.{lookup}
use rust_streaming_quotes.Core.Types.{StockQuote}
use rust_streaming_quotes.Text.{Text, text_eq}
use rust_streaming_quotes.Text.Order.{text_eq_iff}
use rust_streaming_quotes.Server.Generator.{
  GeneratorConfig, Draws, QuoteGenerator, max, set_price, volume_of, next_quote, push_some,
  batch_loop, keys, next_batch,
}

max_lem : (a b : ℤ) → b ≤ℤ max a b
unfolding max
max_lem a b = ground arith

lookup-set_price :
    (u t : Text) (price : ℤ) (states : List (Text × ℤ))
    → lookup text_eq t states ≢ none
    → lookup text_eq u (set_price t price states)
      ≡ (if text_eq u t then some price else lookup text_eq u states)
unfolding set_price lookup
lookup-set_price u t price [] h = absurd (h refl)
lookup-set_price u t price ((v, p) ∷ states) h = elim (Bool-cases (text_eq t v)) [
  | inl e ↦
      let same : t ≡ v = (text_eq_iff t v).0 e in rw (e, sym same, set_price, lookup) (ground arith)
  | inr e ↦
      let ih = lookup-set_price u t price states (λ n. h (ground arith)) in
      ground (arith, ih, text_eq_iff u t, text_eq_iff t v, text_eq_iff u v)
]

keys-set_price :
    (t : Text) (price : ℤ) (states : List (Text × ℤ))
    → keys (set_price t price states) ≡ keys states
unfolding set_price keys
keys-set_price t price [] = refl
keys-set_price t price ((u, p) ∷ states) = ground (arith, keys-set_price t price states)

has_key : Text → List Text → Bool
has_key t [] = false
has_key t (u ∷ us) = text_eq t u || has_key t us

lookup-keys :
    (t : Text) (states : List (Text × ℤ))
    → has_key t (keys states) ≡ true
    → (price : ℤ) × (lookup text_eq t states ≡ some price)
unfolding lookup keys has_key
lookup-keys t [] h = absurd (ground arith)
lookup-keys t ((u, p) ∷ states) h = elim (Bool-cases (text_eq t u)) [
  | inl e ↦ (p, rw e)
  | inr e ↦
      let (price, found) = lookup-keys t states (ground arith) in (price, rw (e, lookup) found)
]

-- A quote for the ticker, at least at the minimal price, with the volume of its ticker.
pub record IsQuote (cfg : GeneratorConfig) (high_volume : List Text) (draws : Text → Draws)
    (q : StockQuote) : Type 0 where
  pub floor : cfg.min_price ≤ℤ q.price
  pub step : (last : ℤ) × (q.price ≡ max ((draws q.ticker).moved last) cfg.min_price)
  pub volume : q.volume ≡ volume_of high_volume (draws q.ticker) q.ticker
  pub time : q.timestamp_ms ≡ (draws q.ticker).now_ms

-- What one call does, for a ticker that the generator knows.
record IsNext (g : QuoteGenerator) (draws : Text → Draws) (t : Text)
    (r : QuoteGenerator × Option StockQuote) : Type 0 where
  pub item : StockQuote
  pub made : r.1 ≡ some item
  pub named : item.ticker ≡ t
  pub valid : IsQuote g.cfg g.high_volume draws item
  pub same_keys : keys r.0.states ≡ keys g.states
  pub same_cfg : r.0.cfg ≡ g.cfg
  pub same_high : r.0.high_volume ≡ g.high_volume

next_quote_lem :
    (draws : Text → Draws) (g : QuoteGenerator) (t : Text)
    → has_key t (keys g.states) ≡ true
    → IsNext g draws t (next_quote (draws t) g t)
unfolding next_quote
next_quote_lem draws g t h =
    let (price, found) = lookup-keys t g.states h in
    let d = draws t in
    let price' = max (d.moved price) g.cfg.min_price in
    rw (found, next_quote)
      (record {
        item = record {
          ticker = t;
          price = price';
          volume = volume_of g.high_volume d t;
          timestamp_ms = d.now_ms;
        };
        made = refl;
        named = refl;
        valid = record {
          floor = max_lem (d.moved price) g.cfg.min_price;
          step = (price, refl);
          volume = refl;
          time = refl;
        };
        same_keys = keys-set_price t price' g.states;
        same_cfg = refl;
        same_high = refl;
      })

has_key_middle : (t : Text) (seen us : List Text) → has_key t (seen ++ t ∷ us) ≡ true
unfolding has_key
has_key_middle t [] us = ground (arith, (text_eq_iff t t).1 refl)
has_key_middle t (u ∷ seen) us = ground (arith, has_key_middle t seen us)

keys_from : (seen us : List Text) → All (λ t. has_key t (seen ++ us) ≡ true) us
keys_from seen [] = tt
keys_from seen (u ∷ us) = (
  has_key_middle u seen us,
  subst (λ xs. All (λ t. has_key t xs ≡ true) us) (append_assoc seen (u ∷ []) us)
      (keys_from (seen ++ u ∷ []) us),
)

All-has_key : (us : List Text) → All (λ t. has_key t us ≡ true) us
All-has_key us = keys_from [] us

unfoldable pub named_tickers : List StockQuote → List Text
named_tickers [] = []
named_tickers (q ∷ qs) = q.ticker ∷ named_tickers qs

named_tickers-append :
    (qs : List StockQuote) (q : StockQuote)
    → named_tickers (qs ++ q ∷ []) ≡ named_tickers qs ++ q.ticker ∷ []
unfolding named_tickers
named_tickers-append [] q = refl
named_tickers-append (p ∷ qs) q = ap (λ ts. p.ticker ∷ ts) (named_tickers-append qs q)

-- What the loop makes of the keys that are left.
record IsBatch (cfg : GeneratorConfig) (high_volume : List Text) (draws : Text → Draws)
    (ks : List Text) (g : QuoteGenerator) (out : List StockQuote)
    (r : QuoteGenerator × List StockQuote) : Type 0 where
  pub names : named_tickers r.1 ≡ named_tickers out ++ ks
  pub same_keys : keys r.0.states ≡ keys g.states
  pub kept_cfg : r.0.cfg ≡ g.cfg
  pub kept_high : r.0.high_volume ≡ g.high_volume
  pub quotes : All (IsQuote cfg high_volume draws) r.1

batch_loop_lem :
    (cfg : GeneratorConfig) (high_volume : List Text) (draws : Text → Draws) (ks : List Text)
    (g : QuoteGenerator) (out : List StockQuote)
    → g.cfg ≡ cfg
    → g.high_volume ≡ high_volume
    → All (λ t. has_key t (keys g.states) ≡ true) ks
    → All (IsQuote cfg high_volume draws) out
    → IsBatch cfg high_volume draws ks g out (batch_loop draws ks g out)
unfolding batch_loop push_some
batch_loop_lem cfg high draws [] g out c hv h v = record {
  names = sym (append-nil (named_tickers out));
  same_keys = refl;
  kept_cfg = refl;
  kept_high = refl;
  quotes = v;
}
batch_loop_lem cfg high draws (t ∷ ks) g out c hv h v =
    let n = next_quote_lem draws g t h.0 in
    let g' = (next_quote (draws t) g t).0 in
    let valid : IsQuote cfg high draws n.item =
      subst (λ k. IsQuote k high draws n.item) c
        (subst (λ l. IsQuote g.cfg l draws n.item) hv n.valid) in
    let known = subst (λ us. All (λ u. has_key u us ≡ true) ks) (sym n.same_keys) h.1 in
    let ih =
      batch_loop_lem cfg high draws ks g' (out ++ n.item ∷ []) (n.same_cfg ∙ c) (n.same_high ∙ hv)
        known (All-append (IsQuote cfg high draws) out (n.item ∷ []) v (valid, tt)) in
    rw (n.made, batch_loop)
      (record {
        names =
            ih.names
            ∙ ap (λ ts. ts ++ ks)
                (named_tickers-append out n.item ∙ ap (λ u. named_tickers out ++ u ∷ []) n.named)
            ∙ append_assoc (named_tickers out) (t ∷ []) ks;
        same_keys = ih.same_keys ∙ n.same_keys;
        kept_cfg = ih.kept_cfg ∙ n.same_cfg;
        kept_high = ih.kept_high ∙ n.same_high;
        quotes = ih.quotes;
      })

-- A batch has one quote for each ticker of the generator, in the order of its map; each price is at
-- least the minimal one, each volume and time is what was drawn for the ticker; and the generator
-- keeps its tickers.
pub next_batch_lem :
    (draws : Text → Draws) (g : QuoteGenerator)
    → let r = next_batch draws g in
      (named_tickers r.1 ≡ keys g.states)
      × All (IsQuote g.cfg g.high_volume draws) r.1
      × (keys r.0.states ≡ keys g.states)
unfolding next_batch named_tickers
next_batch_lem draws g =
    let b =
      batch_loop_lem g.cfg g.high_volume draws (keys g.states) g [] refl refl
        (All-has_key (keys g.states)) tt in
    (b.names, b.quotes, b.same_keys)

-- A batch changes the prices of the generator only.
pub next_batch-kept :
    (draws : Text → Draws) (g : QuoteGenerator)
    → ((next_batch draws g).0.cfg ≡ g.cfg) × ((next_batch draws g).0.high_volume ≡ g.high_volume)
unfolding next_batch
next_batch-kept draws g =
    let b =
      batch_loop_lem g.cfg g.high_volume draws (keys g.states) g [] refl refl
        (All-has_key (keys g.states)) tt in
    (b.kept_cfg, b.kept_high)

-- The quote of a known ticker carries the price that the generator keeps for it, and the prices of
-- the other tickers stay as they are.
pub next_quote-lookup :
    (draws : Text → Draws) (g : QuoteGenerator) (t u : Text) (price : ℤ)
    → lookup text_eq t g.states ≡ some price
    → let r = next_quote (draws t) g t in
      let price' = max ((draws t).moved price) g.cfg.min_price in
      (lookup text_eq u r.0.states
        ≡ (if text_eq u t then some price' else lookup text_eq u g.states))
      × ((q : StockQuote) × (r.1 ≡ some q) × (q.ticker ≡ t) × (q.price ≡ price'))
unfolding next_quote
next_quote-lookup draws g t u price found =
    let d = draws t in
    let price' = max (d.moved price) g.cfg.min_price in
    rw (found, next_quote)
      (
        lookup-set_price u t price' g.states (λ n. cc),
        (
          record {
            ticker = t;
            price = price';
            volume = volume_of g.high_volume d t;
            timestamp_ms = d.now_ms;
          },
          refl,
          refl,
          refl,
        ),
      )
