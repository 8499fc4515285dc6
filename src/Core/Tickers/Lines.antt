-- ===== src/Core/Tickers/Lines.antt =====
-- On `normalize_line` and `read_tickers` of quote-core/src/tickers.rs.
use mathlib.Core.List.{filter_map}
use rust_streaming_quotes.Base.{
  ◌≡◌, ◌≢◌, refl, sym, ap, ◌∙◌, inl, inr, false, none, some, List, [], ◌∷◌, ◌++◌, map,
  if◌then◌else◌, is_empty, ok, err, arith, All, Lacks, Option-cases,
}
use rust_streaming_quotes.Text.{
  Text, is_whitespace, trim, trim_start, trim_end, split, join, chop_cr,
}
use rust_streaming_quotes.Text.Split.{split-join, split_single, split_first, split-ne-nil}
use rust_streaming_quotes.Text.Trim.{
  trim-trim, trim-Lacks, trim_start-Lacks, trim-chop_cr, trim-append_solid, trim-trim_start,
  chop_cr-Lacks,
}
use rust_streaming_quotes.TextSet.{insert, contains, IsAscending}
use rust_streaming_quotes.TextSet.Laws.{insert_all, insert_all-IsAscending, contains-insert_all_nil}
use rust_streaming_quotes.Core.Tickers.{
  IoError, cursor, comma, hash, newline, last_line, lines_of, starts_with_hash, normalize_line,
  insert_some, read_loop, read_tickers, parse_tickers_csv,
}
use rust_streaming_quotes.Core.Tickers.Laws.{
  normalize_part, parse_tickers_csv_lem, parse_tickers_csv_nil,
}

starts_with_hash-Lacks : (s : Text) → Lacks hash s → starts_with_hash s ≡ false
unfolding starts_with_hash
starts_with_hash-Lacks [] h = refl
starts_with_hash-Lacks (c ∷ s) h = h.0

-- A line without `#` is read like a CSV part.
normalize_line_plain : (w : Text) → Lacks hash w → normalize_line w ≡ normalize_part w
unfolding normalize_line normalize_part
normalize_line_plain w h =
    let hs = trim-Lacks hash w h in
    ground (arith, starts_with_hash-Lacks (trim w) hs, split_single hash (trim w) hs, trim-trim w)

hash_solid : is_whitespace b'#' ≡ false
unfolding is_whitespace
hash_solid = refl

comment_cases :
    (s w t : Text)
    → trim (w ++ b'#' ∷ t) ≡ s ++ b'#' ∷ trim_end t
    → split hash (s ++ b'#' ∷ trim_end t) ≡ s ∷ split hash (trim_end t)
    → trim s ≡ trim w
    → starts_with_hash s ≡ false
    → normalize_line (w ++ b'#' ∷ t) ≡ normalize_part w
unfolding normalize_line normalize_part
comment_cases [] w t et es ew h = ground arith
comment_cases (c ∷ s) w t et es ew h = ground arith

-- `normalize_line` cuts off the comment: a line is read like the text before its first `#`, whether
-- there is a `#` or not.
pub normalize_line_comment :
    (w t : Text)
    → Lacks hash w
    → (normalize_line w ≡ normalize_part w) × (normalize_line (w ++ b'#' ∷ t) ≡ normalize_part w)
normalize_line_comment w t h =
    let hs = trim_start-Lacks hash w h in
    (
      normalize_line_plain w h,
      comment_cases (trim_start w) w t (trim-append_solid w b'#' t hash_solid)
          (split_first hash (trim_start w) b'#' (trim_end t) hs refl) (trim-trim_start w)
          (starts_with_hash-Lacks (trim_start w) hs),
    )

-- The lines of a text that is read to its end.
unfoldable pub plain_lines : List Text → List Text
plain_lines [] = []
plain_lines (s ∷ []) = if is_empty s then [] else s ∷ []
plain_lines (s ∷ t ∷ ss) = chop_cr s ∷ plain_lines (t ∷ ss)

-- What each line of a text contributes.
unfoldable pub line_tickers : Text → List Text
unfolding plain_lines
line_tickers s = filter_map normalize_line (plain_lines (split newline s))

lines_of_plain : (ss : List Text) → lines_of none ss ≡ map ok (plain_lines ss)
unfolding lines_of last_line plain_lines
lines_of_plain [] = refl
lines_of_plain (s ∷ []) = ground arith
lines_of_plain (s ∷ t ∷ ss) = ap (◌∷◌ (ok (chop_cr s))) (lines_of_plain (t ∷ ss))

read_loop_plain :
    (ss set : List Text)
    → read_loop (map ok ss) set ≡ ok (insert_all (filter_map normalize_line ss) set)
unfolding read_loop insert_some insert_all filter_map
read_loop_plain [] set = refl
read_loop_plain (s ∷ ss) set = elim (Option-cases (normalize_line s)) [
  | inl e ↦ rw e (read_loop_plain ss set)
  | inr (t, e) ↦ rw e (read_loop_plain ss (insert t set))
]

read_tickers_lem : (s : Text) → read_tickers (cursor s) ≡ ok (insert_all (line_tickers s) [])
unfolding read_tickers line_tickers
read_tickers_lem s = rw (lines_of_plain (split newline s)) (read_loop_plain _ [])

pub read_tickers_ok :
    (s : Text)
    → (out : List Text) × (read_tickers (cursor s) ≡ ok out)
      × IsAscending out
      × ((t : Text) → contains t out ≡ contains t (line_tickers s))
read_tickers_ok s = (
  insert_all (line_tickers s) [],
  read_tickers_lem s,
  insert_all-IsAscending (line_tickers s) [] tt,
  λ t. contains-insert_all_nil t _,
)

read_loop_failed :
    (e : IoError) (ss set : List Text) → ss ≢ [] → read_loop (lines_of (some e) ss) set ≡ err e
unfolding read_loop lines_of last_line
read_loop_failed e [] set h = absurd (h refl)
read_loop_failed e (s ∷ []) set h = refl
read_loop_failed e (s ∷ t ∷ ss) set h = read_loop_failed e (t ∷ ss) _ (λ q. cc)

pub read_tickers_failed :
    (s : Text) (e : IoError) → read_tickers (record { content = s; failure = some e }) ≡ err e
unfolding read_tickers
read_tickers_failed s e = read_loop_failed e (split newline s) [] (split-ne-nil newline s)

-- Reading a text to its end succeeds, with the strictly ascending list of what its lines contribute;
-- a read error is passed on, whatever lines came before it.
pub read_tickers_outcomes :
    (s : Text) (e : IoError)
    → ((out : List Text) × (read_tickers (cursor s) ≡ ok out)
        × IsAscending out
        × ((t : Text) → contains t out ≡ contains t (line_tickers s)))
      × (read_tickers (record { content = s; failure = some e }) ≡ err e)
read_tickers_outcomes s e = (read_tickers_ok s, read_tickers_failed s e)

-- No separator of either format, and no comment.
abbrev pub IsPlain : Text → Type 0
IsPlain w = Lacks comma w × Lacks hash w × Lacks newline w

normalize_line-chop_cr : (w : Text) → Lacks hash w → normalize_line (chop_cr w) ≡ normalize_part w
unfolding normalize_part
normalize_line-chop_cr w h =
    normalize_line_plain (chop_cr w) (chop_cr-Lacks hash w h) ∙ rw (trim-chop_cr w)

normalize_lines_plain :
    (ws : List Text)
    → All IsPlain ws
    → filter_map normalize_line (plain_lines ws) ≡ filter_map normalize_part ws
unfolding filter_map plain_lines normalize_part trim
normalize_lines_plain [] h = refl
normalize_lines_plain ([] ∷ []) h = refl
normalize_lines_plain ((c ∷ w) ∷ []) (h, _) = rw (normalize_line_plain (c ∷ w) h.1)
normalize_lines_plain (w ∷ v ∷ ws) (h, hs) =
    rw (normalize_line-chop_cr w h.1, normalize_lines_plain (v ∷ ws) hs)

All-no_comma : (ws : List Text) → All IsPlain ws → All (Lacks comma) ws
All-no_comma [] h = tt
All-no_comma (w ∷ ws) (h, hs) = (h.0, All-no_comma ws hs)

All-no_newline : (ws : List Text) → All IsPlain ws → All (Lacks newline) ws
All-no_newline [] h = tt
All-no_newline (w ∷ ws) (h, hs) = (h.2, All-no_newline ws hs)

read_tickers_nil : read_tickers (cursor (join (b'\n' ∷ []) [])) ≡ ok []
unfolding read_tickers join
read_tickers_nil = refl

-- Both formats agree: items that hold no comma, `#` or line break give the same list one to a line
-- and joined by commas.
pub read_tickers-parse_tickers_csv :
    (ws : List Text)
    → All IsPlain ws
    → read_tickers (cursor (join (b'\n' ∷ []) ws)) ≡ ok (parse_tickers_csv (join (b',' ∷ []) ws))
unfolding line_tickers insert_all
read_tickers-parse_tickers_csv [] h = read_tickers_nil ∙ sym (ap ok parse_tickers_csv_nil)
read_tickers-parse_tickers_csv (w ∷ ws) h = rw (
  read_tickers_lem,
  split-join newline b'\n' (w ∷ ws) refl (λ e. cc) (All-no_newline (w ∷ ws) h),
  normalize_lines_plain (w ∷ ws) h,
  parse_tickers_csv_lem,
  split-join comma b',' (w ∷ ws) refl (λ e. cc) (All-no_comma (w ∷ ws) h),
)
