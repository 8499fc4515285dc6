-- ===== src/Server/Load/Loaded.antt =====
-- On `load_server_tickers_from_args` of quote-server/src/main.rs.
use rust_streaming_quotes.Base.{
  ◌≡◌, ◌≢◌, sym, arith, Option, none, some, List, [], ◌∷◌, ◌||◌, Result, ok, err, Result-cases,
  Option-cases, Bool-cases, inl, inr, is_empty, map_err, refuse_if, ◌>>=◌, ◌>>◌,
}
use rust_streaming_quotes.Text.{Text, trim}
use rust_streaming_quotes.TextSet.{IsAscending}
use rust_streaming_quotes.Core.Tickers.{
  IoError, Reader, FileSystem, cursor, read_tickers, read_tickers_from_path, parse_tickers_csv,
}
use rust_streaming_quotes.Core.Tickers.Laws.{parse_tickers_csv-IsAscending}
use rust_streaming_quotes.Core.Tickers.Lines.{read_tickers_ok, read_tickers_failed}
use rust_streaming_quotes.Server.Load.{
  default_tickers, load_server_tickers, TickerArgs, LoadError, io, empty_file, empty_list,
  empty_default, load_from_file, read_text, has_char, load_from_text, load_default,
  load_server_tickers_from_args,
}

read_tickers_sorted :
    (s : Text) (failure : Option IoError) (ts : List Text)
    → read_tickers (record { content = s; failure = failure }) ≡ ok ts
    → IsAscending ts
read_tickers_sorted s none ts e =
    let (out, found, sorted, _) = read_tickers_ok s in
    let same : out ≡ ts = cc in rw (sym same) sorted
read_tickers_sorted s (some x) ts e = absurd (cc (read_tickers_failed s x))

pub read_tickers-IsAscending :
    (r : Reader) (ts : List Text) → read_tickers r ≡ ok ts → IsAscending ts
read_tickers-IsAscending r ts e = read_tickers_sorted r.content r.failure ts e

pub read_tickers_from_path-IsAscending :
    (open_file : FileSystem) (path : Text) (ts : List Text)
    → read_tickers_from_path open_file path ≡ ok ts
    → IsAscending ts
unfolding read_tickers_from_path
read_tickers_from_path-IsAscending open_file path ts e = elim (Result-cases (open_file path)) [
  | inl (r, f) ↦ read_tickers-IsAscending r ts (ground arith)
  | inr (x, f) ↦ absurd (ground arith)
]

-- The check that follows each of the three readings.
guard_ok :
    (r : Result (List Text) IoError) (e : LoadError) (ts : List Text)
    → (do v ← map_err io r; refuse_if (is_empty v) e; ok v) ≡ ok ts
    → (r ≡ ok ts) × (ts ≢ [])
guard_ok (ok []) e ts h = absurd (cc h)
guard_ok (ok (v ∷ vs)) e ts h = (ground arith, λ n. cc)
guard_ok (err x) e ts h = absurd (cc h)

-- A list that is worth serving.
abbrev pub IsServed : List Text → Type 0
IsServed ts = (ts ≢ []) × IsAscending ts

load_from_file-IsServed :
    (open_file : FileSystem) (path : Text) (ts : List Text)
    → load_from_file open_file path ≡ ok ts
    → IsServed ts
unfolding load_from_file load_server_tickers
load_from_file-IsServed open_file path ts e =
    let (read, some_ticker) =
      guard_ok (load_server_tickers open_file (some path)) (empty_file path) ts e in
    (some_ticker, read_tickers_from_path-IsAscending open_file path ts read)

read_text-IsAscending : (raw : Text) (ts : List Text) → read_text raw ≡ ok ts → IsAscending ts
unfolding read_text
read_text-IsAscending raw ts e = elim (Bool-cases (has_char b'\n' raw || has_char b'#' raw)) [
  | inl h ↦ read_tickers-IsAscending (cursor raw) ts (ground arith)
  | inr h ↦
      let same : parse_tickers_csv raw ≡ ts = ground arith in
      rw (sym same) (parse_tickers_csv-IsAscending raw).0
]

load_from_text-IsServed : (raw : Text) (ts : List Text) → load_from_text raw ≡ ok ts → IsServed ts
unfolding load_from_text
load_from_text-IsServed raw ts e = elim (Bool-cases (is_empty (trim raw))) [
  | inl h ↦ absurd (ground arith)
  | inr h ↦
      let (read, some_ticker) = guard_ok (read_text (trim raw)) empty_list ts (ground arith) in
      (some_ticker, read_text-IsAscending (trim raw) ts read)
]

load_default-IsServed :
    (open_file : FileSystem) (ts : List Text) → load_default open_file ≡ ok ts → IsServed ts
unfolding load_default load_server_tickers
load_default-IsServed open_file ts e =
    let (read, some_ticker) = guard_ok (load_server_tickers open_file none) empty_default ts e in
    (some_ticker, read_tickers-IsAscending (cursor default_tickers) ts read)

-- From whichever source, the tickers that the server starts with are a nonempty, strictly ascending
-- list.
pub load_server_tickers_from_args-IsServed :
    (open_file : FileSystem) (args : TickerArgs) (ts : List Text)
    → load_server_tickers_from_args open_file args ≡ ok ts
    → (ts ≢ []) × IsAscending ts
unfolding load_server_tickers_from_args
load_server_tickers_from_args-IsServed open_file args ts e = elim (Option-cases args.tickers_file) [
  | inr (p, f) ↦ load_from_file-IsServed open_file p ts (ground arith)
  | inl f ↦ elim (Option-cases args.tickers) [
    | inr (raw, t) ↦ load_from_text-IsServed raw ts (ground arith)
    | inl t ↦ load_default-IsServed open_file ts (ground arith)
  ]
]
