-- ===== src/Core/Tickers/AsSet.antt =====
-- On quote-core/src/tickers.rs: the tickers of a command as a set, which has no order and no repetition.
use mathlib.Core.Quot
use mathlib.Core.Quot.{Quot, Quot-set}
use rust_streaming_quotes.Base.{◌≡◌, ◌↔◌, ap, sym, ◌∙◌, List, []}
use rust_streaming_quotes.Text.{Text}
use rust_streaming_quotes.TextSet.{contains, IsAscending}
use rust_streaming_quotes.TextSet.Laws.{
  SameMembers, insert_all, insert_all_same, contains-insert_all_nil,
}
use rust_streaming_quotes.Core.Tickers.{parse_tickers_csv}
use rust_streaming_quotes.Core.Tickers.Laws.{
  csv_tickers, parse_tickers_csv_lem, parse_tickers_csv-IsAscending,
}

-- Lists of tickers, up to order and repetition.
abbrev pub TickerSet : Type 0
TickerSet = Quot SameMembers

pub texts_IsSet : IsSet (List Text)
texts_IsSet = hlevel

-- The ascending list of the members.
pub sorted : TickerSet → List Text
sorted = Quot.lift texts_IsSet (λ ts. insert_all ts []) insert_all_same

-- The tickers that stand in a text.
abbrev pub ticker_set : Text → TickerSet
ticker_set raw = Quot.mk (csv_tickers raw)

sorted-mk : (s : TickerSet) → Quot.mk (sorted s) ≡ s
unfolding sorted
sorted-mk = Quot.ind (λ s. Quot-set _ _) (λ ts. Quot.sound (λ a. contains-insert_all_nil a ts))

-- `parse_tickers_csv` returns the ascending list (sorted, with no duplicates) of the normalised parts
-- of its text: two texts give the same list exactly if they name the same set of tickers.
pub parse_tickers_csv-sorted :
    (raw raw' : Text)
    → IsAscending (parse_tickers_csv raw)
      × ((t : Text) → contains t (parse_tickers_csv raw) ≡ contains t (csv_tickers raw))
      × (parse_tickers_csv raw ≡ sorted (ticker_set raw))
      × ((parse_tickers_csv raw ≡ parse_tickers_csv raw') ↔ (ticker_set raw ≡ ticker_set raw'))
unfolding sorted
parse_tickers_csv-sorted raw raw' = (
  (parse_tickers_csv-IsAscending raw).0,
  (parse_tickers_csv-IsAscending raw).1,
  parse_tickers_csv_lem raw,
  (
    λ e.
        sym (sorted-mk (ticker_set raw))
        ∙ ap Quot.mk (sym (parse_tickers_csv_lem raw) ∙ e ∙ parse_tickers_csv_lem raw')
        ∙ sorted-mk (ticker_set raw'),
    λ e. parse_tickers_csv_lem raw ∙ ap sorted e ∙ sym (parse_tickers_csv_lem raw'),
  ),
)
