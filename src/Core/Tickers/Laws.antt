-- ===== src/Core/Tickers/Laws.antt =====
-- On `parse_tickers_csv` of quote-core/src/tickers.rs.
use mathlib.Core.List.{filter_map}
use rust_streaming_quotes.Base.{
  ℕ, ◌≡◌, ◌≢◌, refl, ap, ◌∙◌, inl, inr, false, Option, none, some, List, [], ◌∷◌, if◌then◌else◌,
  is_empty, arith, All, Lacks, Bool-cases,
}
use rust_streaming_quotes.Text.{Text, trim, split, join, to_ascii_uppercase, to_ascii_upper}
use rust_streaming_quotes.Text.Split.{split-Lacks, split-join}
use rust_streaming_quotes.Text.Trim.{trim-trim, trim-upper, trim-Lacks, to_ascii_uppercase_idem}
use rust_streaming_quotes.TextSet.{contains, IsAscending}
use rust_streaming_quotes.TextSet.Laws.{
  insert_all, insert_all-IsAscending, contains-insert_all_nil, insert_all_self, insert_all_same,
  insert_all-All,
}
use rust_streaming_quotes.Core.Tickers.{comma, csv_loop, parse_tickers_csv}

-- What one part of a CSV text contributes.
unfoldable pub normalize_part : Text → Option Text
normalize_part part = if is_empty (trim part) then none else some (to_ascii_uppercase (trim part))

abbrev pub csv_tickers : Text → List Text
csv_tickers raw = filter_map normalize_part (split comma raw)

csv_loop_lem :
    (parts set : List Text) → csv_loop parts set ≡ insert_all (filter_map normalize_part parts) set
unfolding csv_loop insert_all filter_map normalize_part
csv_loop_lem [] set = refl
csv_loop_lem (part ∷ parts) set = elim (Bool-cases (is_empty (trim part))) [
  | inl e ↦ rw e (csv_loop_lem parts set)
  | inr e ↦ rw e (csv_loop_lem parts _)
]

pub parse_tickers_csv_lem : (raw : Text) → parse_tickers_csv raw ≡ insert_all (csv_tickers raw) []
unfolding parse_tickers_csv
parse_tickers_csv_lem raw = csv_loop_lem (split comma raw) []

-- `parse_tickers_csv` returns a strictly ascending list (sorted, with no duplicates) whose members
-- are the trimmed, upper-cased parts between commas that are not blank.
pub parse_tickers_csv-IsAscending :
    (raw : Text)
    → IsAscending (parse_tickers_csv raw)
      × ((t : Text) → contains t (parse_tickers_csv raw) ≡ contains t (csv_tickers raw))
parse_tickers_csv-IsAscending raw =
    rw (parse_tickers_csv_lem raw)
      (insert_all-IsAscending (csv_tickers raw) [] tt, λ t. contains-insert_all_nil t _)

-- Order and repetition of the parts do not matter: two texts with the same set of normalised parts
-- give the same list.
pub parse_tickers_csv_same :
    (raw raw' : Text)
    → ((t : Text) → contains t (csv_tickers raw) ≡ contains t (csv_tickers raw'))
    → parse_tickers_csv raw ≡ parse_tickers_csv raw'
parse_tickers_csv_same raw raw' h =
    rw (parse_tickers_csv_lem raw, parse_tickers_csv_lem raw') (insert_all_same _ _ h)

-- A normalised ticker: not empty, trimmed, in upper case, with no comma.
pub record IsTicker (t : Text) : Type 0 where
  pub some_text : t ≢ []
  pub trimmed : trim t ≡ t
  pub upper : to_ascii_uppercase t ≡ t
  pub no_comma : Lacks comma t

to_ascii_upper-comma : (c : ℕ) → comma c ≡ false → comma (to_ascii_upper c) ≡ false
unfolding to_ascii_upper
to_ascii_upper-comma c h = ground arith

upper-Lacks-comma : (s : Text) → Lacks comma s → Lacks comma (to_ascii_uppercase s)
unfolding to_ascii_uppercase
upper-Lacks-comma [] h = tt
upper-Lacks-comma (c ∷ s) (hc, h) = (to_ascii_upper-comma c hc, upper-Lacks-comma s h)

upper-ne-nil : (s : Text) → is_empty s ≡ false → to_ascii_uppercase s ≢ []
unfolding to_ascii_uppercase
upper-ne-nil [] h e = cc
upper-ne-nil (c ∷ s) h e = cc

normalized-IsTicker :
    (part : Text)
    → Lacks comma part
    → is_empty (trim part) ≡ false
    → IsTicker (to_ascii_uppercase (trim part))
normalized-IsTicker part h e = record {
  some_text = upper-ne-nil _ e;
  trimmed = trim-upper (trim part) ∙ ap to_ascii_uppercase (trim-trim part);
  upper = to_ascii_uppercase_idem _;
  no_comma = upper-Lacks-comma _ (trim-Lacks comma part h);
}

parts-IsTicker :
    (parts : List Text) → All (Lacks comma) parts → All IsTicker (filter_map normalize_part parts)
unfolding filter_map normalize_part
parts-IsTicker [] h = tt
parts-IsTicker (part ∷ parts) (hp, h) = elim (Bool-cases (is_empty (trim part))) [
  | inl e ↦ rw e (parts-IsTicker parts h)
  | inr e ↦ rw e (normalized-IsTicker part hp e, parts-IsTicker parts h)
]

pub parse_tickers_csv-IsTicker : (raw : Text) → All IsTicker (parse_tickers_csv raw)
parse_tickers_csv-IsTicker raw = rw (parse_tickers_csv_lem raw) (
    insert_all-All IsTicker (csv_tickers raw) []
      (parts-IsTicker (split comma raw) (split-Lacks comma raw)) tt)

normalize_part_self : (t : Text) → IsTicker t → normalize_part t ≡ some t
unfolding normalize_part
normalize_part_self [] h = absurd (h.some_text refl)
normalize_part_self (c ∷ t) h = rw (h.trimmed) (ap some h.upper)

normalize_parts_self : (ts : List Text) → All IsTicker ts → filter_map normalize_part ts ≡ ts
unfolding filter_map
normalize_parts_self [] h = refl
normalize_parts_self (t ∷ ts) (ht, h) =
    rw (normalize_part_self t ht) (ap (◌∷◌ t) (normalize_parts_self ts h))

All-no_comma : (ts : List Text) → All IsTicker ts → All (Lacks comma) ts
All-no_comma [] h = tt
All-no_comma (t ∷ ts) (ht, h) = (ht.no_comma, All-no_comma ts h)

pub parse_tickers_csv_nil : parse_tickers_csv (join (b',' ∷ []) []) ≡ insert_all [] []
unfolding parse_tickers_csv join insert_all
parse_tickers_csv_nil = refl

-- Parsing the comma-joined form of normalised tickers sorts them and drops duplicates.
pub parse_tickers_csv-join :
    (ts : List Text) → All IsTicker ts → parse_tickers_csv (join (b',' ∷ []) ts) ≡ insert_all ts []
parse_tickers_csv-join [] h = parse_tickers_csv_nil
parse_tickers_csv-join (t ∷ ts) h =
    rw
      (
        parse_tickers_csv_lem,
        split-join comma b',' (t ∷ ts) refl (λ e. cc) (All-no_comma (t ∷ ts) h),
      )
      (ap (λ us. insert_all us []) (normalize_parts_self (t ∷ ts) h))

-- Printing a parsed list as CSV and parsing it again changes nothing.
pub parse_tickers_csv_idem :
    (raw : Text)
    → parse_tickers_csv (join (b',' ∷ []) (parse_tickers_csv raw)) ≡ parse_tickers_csv raw
parse_tickers_csv_idem raw =
    parse_tickers_csv-join _ (parse_tickers_csv-IsTicker raw)
    ∙ insert_all_self _ (parse_tickers_csv-IsAscending raw).0
