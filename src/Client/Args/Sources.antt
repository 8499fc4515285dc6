-- ===== src/Client/Args/Sources.antt =====
-- On quote-client/src/cli.rs and tickers.rs: `validate` and `load_tickers` together.
use rust_streaming_quotes.Base.{
  ◌≡◌, ◌≢◌, refl, ap, sym, ◌∙◌, arith, Bool, true, false, not, ◌&&◌, Option, none, some, List, [],
  ◌∷◌, Result, ok, err, Result-cases, Option-cases, Bool-cases, inl, inr, ◌⊎◌, is_empty, refuse_if,
  ◌>>=◌, ◌>>◌,
}
use rust_streaming_quotes.Text.{Text, trim}
use rust_streaming_quotes.TextSet.{IsAscending}
use rust_streaming_quotes.Core.Tickers.{
  IoError, FileSystem, read_tickers_from_path, parse_tickers_csv,
}
use rust_streaming_quotes.Core.Tickers.Laws.{parse_tickers_csv-IsAscending}
use rust_streaming_quotes.Server.Load.{has_char}
use rust_streaming_quotes.Server.Load.Loaded.{read_tickers_from_path-IsAscending}
use rust_streaming_quotes.Client.Args.{
  Args, is_some, check_file, validate, missing_source, empty_from_arg, load_from_file,
  load_from_arg, load_tickers,
}

load_from_file_ok :
    (open_file : FileSystem) (path : Text) (ts : List Text)
    → load_from_file open_file path ≡ ok ts
    → (ts ≢ []) × IsAscending ts
unfolding load_from_file
load_from_file_ok open_file path ts e =
    elim (Result-cases (read_tickers_from_path open_file path)) [
      | inr (x, r) ↦ absurd (ground arith)
      | inl (v, r) ↦ elim (Bool-cases (is_empty v)) [
        | inl h ↦ absurd (ground arith)
        | inr h ↦
            let same : v ≡ ts = ground arith in
            (
              some_ticker ts (rw (sym same) h),
              read_tickers_from_path-IsAscending open_file path ts (r ∙ ap ok same),
            )
      ]
    ]
  where
    some_ticker : (xs : List Text) → is_empty xs ≡ false → xs ≢ []
    some_ticker [] h = absurd (ground arith)
    some_ticker (x ∷ xs) h = λ n. cc

load_from_arg_ok :
    (raw : Text) (ts : List Text)
    → load_from_arg raw ≡ ok ts
    → (ts ≢ []) × (ts ≡ parse_tickers_csv raw)
unfolding load_from_arg
load_from_arg_ok raw ts e = pick (parse_tickers_csv raw) e
  where
    pick :
        (v : List Text)
        → (do refuse_if (is_empty v) (empty_from_arg raw); ok v) ≡ ok ts
        → (ts ≢ []) × (ts ≡ v)
    pick [] e = absurd (cc e)
    pick (x ∷ xs) e = let same : x ∷ xs ≡ ts = ground arith in ((λ n. cc), sym same)

-- One source of tickers: a file that exists, or a text.
abbrev pub HasSource : (Text → Result Bool IoError) → Args → Type 0
HasSource metadata args =
    ((path : Text) × (args.tickers_file ≡ some path)
      × (args.tickers ≡ none)
      × (metadata path ≡ ok true))
    ⊎ ((raw : Text) × (args.tickers_file ≡ none) × (args.tickers ≡ some raw))

check_file_ok :
    (metadata : Text → Result Bool IoError) (path : Text)
    → check_file metadata (some path) ≡ ok tt
    → metadata path ≡ ok true
unfolding check_file
check_file_ok metadata path e = elim (Result-cases (metadata path)) [
  | inr (x, m) ↦ absurd (ground arith)
  | inl (b, m) ↦ elim (Bool-cases b) [ inl h ↦ m ∙ ap ok h | inr h ↦ absurd (ground arith) ]
]

-- `HasSource` on the parts of the arguments, from the last three checks.
sources_ok :
    (metadata : Text → Result Bool IoError) (args : Args) (file text : Option Text)
    → args.tickers_file ≡ file
    → args.tickers ≡ text
    → check_file metadata file ≡ ok tt
    → (not (is_some file) && not (is_some text)) ≡ false
    → (is_some file && is_some text) ≡ false
    → HasSource metadata args
unfolding is_some
sources_ok metadata args none none ef et c n m = absurd (ground arith)
sources_ok metadata args none (some raw) ef et c n m = inr (raw, ef, et)
sources_ok metadata args (some path) none ef et c n m =
    inl (path, ef, et, check_file_ok metadata path c)
sources_ok metadata args (some path) (some raw) ef et c n m = absurd (ground arith)

refuse_if_ok :
    {E : Type 0} (b : Bool) (e : E) (rest : Result (Unit {0}) E)
    → (do refuse_if b e; rest) ≡ ok tt
    → (b ≡ false) × (rest ≡ ok tt)
refuse_if_ok true e rest h = absurd (cc h)
refuse_if_ok false e rest h = (refl, h)

last_check : {E : Type 0} (b : Bool) (e : E) → refuse_if b e ≡ ok tt → b ≡ false
last_check true e h = absurd (cc h)
last_check false e h = refl

then_ok :
    {E : Type 0} (first rest : Result (Unit {0}) E)
    → (do _ ← first; rest) ≡ ok tt
    → (first ≡ ok tt) × (rest ≡ ok tt)
then_ok (ok u) rest h = (refl, h)
then_ok (err e) rest h = absurd (cc h)

-- Arguments that pass the check name a server that is not blank and has a colon, and one source of
-- tickers, which exists if it is a file.
pub validate_ok :
    (metadata : Text → Result Bool IoError) (args : Args)
    → validate metadata args ≡ ok tt
    → (is_empty (trim args.server) ≡ false)
      × (has_char b':' args.server ≡ true)
      × HasSource metadata args
unfolding validate
validate_ok metadata args e =
    let (server, e1) = refuse_if_ok (is_empty (trim args.server)) _ _ e in
    let (port, e2) = refuse_if_ok (not (has_char b':' args.server)) _ _ e1 in
    let (file, e3) = then_ok (check_file metadata args.tickers_file) _ e2 in
    let (some_source, e4) =
      refuse_if_ok (not (is_some args.tickers_file) && not (is_some args.tickers)) _ _ e3 in
    let one_source = last_check (is_some args.tickers_file && is_some args.tickers) _ e4 in
    (
      server,
      ground arith,
      sources_ok metadata args args.tickers_file args.tickers refl refl file some_source one_source,
    )

load_from_file-ne-missing_source :
    (open_file : FileSystem) (path : Text) → load_from_file open_file path ≢ err missing_source
unfolding load_from_file
load_from_file-ne-missing_source open_file path h =
    elim (Result-cases (read_tickers_from_path open_file path)) [
      | inr (x, r) ↦ ground arith
      | inl (v, r) ↦ elim (Bool-cases (is_empty v)) [ inl e ↦ ground arith | inr e ↦ ground arith ]
    ]

load_from_arg-ne-missing_source : (raw : Text) → load_from_arg raw ≢ err missing_source
unfolding load_from_arg
load_from_arg-ne-missing_source raw h = elim (Bool-cases (is_empty (parse_tickers_csv raw))) [
  | inl e ↦ ground arith
  | inr e ↦ ground arith
]

-- With arguments that pass the check, loading does not find the source missing.
pub load_tickers-ne-missing_source :
    (metadata : Text → Result Bool IoError) (open_file : FileSystem) (args : Args)
    → validate metadata args ≡ ok tt
    → load_tickers open_file args ≢ err missing_source
unfolding load_tickers
load_tickers-ne-missing_source metadata open_file args e l = elim (validate_ok metadata args e).2 [
  | inl (path, f, t, m) ↦ load_from_file-ne-missing_source open_file path (ground arith)
  | inr (raw, f, t) ↦ load_from_arg-ne-missing_source raw (ground arith)
]

-- Tickers that are loaded, from whichever source, are a nonempty, strictly ascending list.
pub load_tickers_ok :
    (open_file : FileSystem) (args : Args) (ts : List Text)
    → load_tickers open_file args ≡ ok ts
    → (ts ≢ []) × IsAscending ts
unfolding load_tickers
load_tickers_ok open_file args ts e = elim (Option-cases args.tickers_file) [
  | inr (p, f) ↦ load_from_file_ok open_file p ts (ground arith)
  | inl f ↦ elim (Option-cases args.tickers) [
    | inl t ↦ absurd (ground arith)
    | inr (raw, t) ↦
        let (some_ticker, same) = load_from_arg_ok raw ts (ground arith) in
        (some_ticker, rw same (parse_tickers_csv-IsAscending raw).0)
  ]
]
