-- ===== src/Core/Tickers.antt =====
-- quote-core/src/tickers.rs.
pub mod Laws
pub mod AsSet
pub mod Lines
use rust_streaming_quotes.Base.{
  ℕ, ◌≡◌, refl, Bool, true, false, ◌||◌, Option, none, some, List, [], ◌∷◌, ◌==◌, if◌then◌else◌,
  is_empty, codes, Result, ok, err, ◌>>=◌,
}
use rust_streaming_quotes.Text.{Text, trim, split, chop_cr, to_ascii_uppercase}
use rust_streaming_quotes.TextSet.{insert}

-- `std::io::ErrorKind`, as far as the program tells kinds apart.
pub data ErrorKind : Type 0 where
  would_block timed_out not_found other : ErrorKind

-- `std::io::Error`.
pub record IoError : Type 0 where
  pub kind : ErrorKind
  pub message : Text

-- A reader: what can be read, and then the end of the input (`none`) or an error.
pub record Reader : Type 0 where
  pub content : Text
  pub failure : Option IoError

-- `io::Cursor::new`.
abbrev pub cursor : Text → Reader
cursor s = record { content = s; failure = none }

abbrev pub newline : ℕ → Bool
newline c = c == b'\n'

abbrev pub comma : ℕ → Bool
comma c = c == b','

abbrev pub hash : ℕ → Bool
hash c = c == b'#'

-- What stands behind the last line break: a last line, unless it is empty or the read fails.
last_line : Option IoError → Text → List (Result Text IoError)
last_line (some e) s = err e ∷ []
last_line none s = if is_empty s then [] else ok s ∷ []

lines_of : Option IoError → List Text → List (Result Text IoError)
unfolding last_line
lines_of failure [] = []
lines_of failure (s ∷ []) = last_line failure s
lines_of failure (s ∷ t ∷ ss) = ok (chop_cr s) ∷ lines_of failure (t ∷ ss)

-- `BufRead::lines`.
unfoldable pub lines : Reader → List (Result Text IoError)
unfolding lines_of chop_cr split
lines r = lines_of r.failure (split newline r.content)

-- `s.split('#').next().unwrap_or("")`.
first_part : List Text → Text
first_part [] = []
first_part (s ∷ ss) = s

-- `starts_with('#')`.
starts_with_hash : Text → Bool
starts_with_hash [] = false
starts_with_hash (c ∷ s) = hash c

unfoldable pub normalize_line : Text → Option Text
unfolding trim split to_ascii_uppercase first_part starts_with_hash
normalize_line line =
    let s = trim line in
    let t = trim (first_part (split hash s)) in
    if is_empty s || starts_with_hash s
    then none
    else if is_empty t
    then none
    else some (to_ascii_uppercase t)

-- `if let Some(t) = … { set.insert(t) }`.
insert_some : Option Text → List Text → List Text
insert_some none set = set
insert_some (some t) set = insert t set

read_loop : List (Result Text IoError) → List Text → Result (List Text) IoError
read_loop [] set = ok set
read_loop (item ∷ items) set = do
  line ← item
  read_loop items (insert_some (normalize_line line) set)

unfoldable pub read_tickers : Reader → Result (List Text) IoError
unfolding read_loop lines insert_some insert normalize_line
read_tickers r = read_loop (lines r) []

-- `File::open`.
abbrev pub FileSystem : Type 0
FileSystem = Text → Result Reader IoError

unfoldable pub read_tickers_from_path : FileSystem → Text → Result (List Text) IoError
unfolding read_tickers
read_tickers_from_path open_file path = do f ← open_file path; read_tickers f

csv_loop : List Text → List Text → List Text
csv_loop [] set = set
csv_loop (part ∷ parts) set =
    let t = trim part in
    csv_loop parts (if is_empty t then set else insert (to_ascii_uppercase t) set)

unfoldable pub parse_tickers_csv : Text → List Text
unfolding csv_loop split trim insert to_ascii_uppercase
parse_tickers_csv raw = csv_loop (split comma raw) []
