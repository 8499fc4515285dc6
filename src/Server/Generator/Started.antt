-- ===== src/Server/Generator/Started.antt =====
-- On quote-server/src/generator.rs: the tickers of a new generator.
use rust_streaming_quotes.Base.{
  ℕ, ◌≡◌, refl, ap, sym, subst, ◌∙◌, arith, Bool, false, not, ◌&&◌, ◌||◌, Bool-cases, List, [], ◌∷◌,
  inl, inr,
}
use rust_streaming_quotes.Base.Int.{ℤ, pos}
use rust_streaming_quotes.Assoc.{remove, insert}
use rust_streaming_quotes.Text.{Text, text_eq}
use rust_streaming_quotes.Text.Order.{text_eq_iff}
use rust_streaming_quotes.TextSet.{contains}
use rust_streaming_quotes.Server.Generator.{
  GeneratorConfig, Draws, QuoteGenerator, start_states, new, keys, next_batch,
}
use rust_streaming_quotes.Server.Generator.Batch.{named_tickers, next_batch_lem}
use rust_streaming_quotes.Server.Generator.Bounds.{batches}

or_false : (b : Bool) → (b || false) ≡ b
or_false b = ground arith

-- No ticker twice.
abbrev pub Distinct : List Text → Type 0
Distinct [] = Unit
Distinct (t ∷ ts) = (contains t ts ≡ false) × Distinct ts

contains-remove :
    (u t : Text) (states : List (Text × ℤ))
    → contains u (keys (remove text_eq t states)) ≡ (not (text_eq u t) && contains u (keys states))
unfolding contains keys remove
contains-remove u t [] = ground arith
contains-remove u t ((v, p) ∷ states) =
    ground (arith, contains-remove u t states, text_eq_iff u t, text_eq_iff t v, text_eq_iff u v)

remove-Distinct :
    (t : Text) (states : List (Text × ℤ))
    → Distinct (keys states)
    → Distinct (keys (remove text_eq t states))
unfolding keys remove
remove-Distinct t [] h = tt
remove-Distinct t ((v, p) ∷ states) h = elim (Bool-cases (text_eq t v)) [
  | inl e ↦ rw (e, Distinct) (remove-Distinct t states h.1)
  | inr e ↦
      rw (e, Distinct) (ground (arith, contains-remove v t states), remove-Distinct t states h.1)
]

start_states-keys :
    (start_price : Text → ℕ) (tickers : List Text) (states : List (Text × ℤ))
    → Distinct (keys states)
    → Distinct (keys (start_states start_price tickers states))
      × ((u : Text)
          → contains u (keys (start_states start_price tickers states))
            ≡ (contains u tickers || contains u (keys states)))
unfolding start_states insert keys contains
start_states-keys start_price [] states d = (d, λ u. refl)
start_states-keys start_price (t ∷ tickers) states d =
    let (d', c) =
      start_states-keys start_price tickers (insert text_eq t (pos (start_price t)) states)
        (ground (arith, contains-remove t t states, text_eq_iff t t), remove-Distinct t states d) in
    (d', λ u. ground (arith, c u, contains-remove u t states))

batches-keys :
    (ds : List (Text → Draws)) (g : QuoteGenerator) → keys (batches ds g).0.states ≡ keys g.states
unfolding batches
batches-keys [] g = refl
batches-keys (draws ∷ ds) g = batches-keys ds (next_batch draws g).0 ∙ (next_batch_lem draws g).2

-- Every batch of a generator, the first and any later one, has exactly one quote for each of the
-- tickers that it was made with, however often they were listed.
pub every_batch-tickers :
    (start_price : Text → ℕ) (tickers : List Text) (cfg : GeneratorConfig)
    (ds : List (Text → Draws)) (draws : Text → Draws)
    → let quotes = (next_batch draws (batches ds (new start_price tickers cfg)).0).1 in
      Distinct (named_tickers quotes)
      × ((u : Text) → contains u (named_tickers quotes) ≡ contains u tickers)
unfolding new keys contains
every_batch-tickers start_price tickers cfg ds draws =
    let g = new start_price tickers cfg in
    let (d, c) = start_states-keys start_price tickers [] tt in
    let names = (next_batch_lem draws (batches ds g).0).0 ∙ batches-keys ds g in
    (subst Distinct (sym names) d, λ u. ap (contains u) names ∙ c u ∙ or_false (contains u tickers))
