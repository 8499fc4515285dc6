-- ===== src/Server/Load.antt =====
-- The tickers of the server: quote-server/src/config.rs and `load_server_tickers_from_args` of
-- quote-server/src/main.rs.
pub mod Loaded
use rust_streaming_quotes.Base.{
  ℕ, Bool, true, false, Option, none, some, List, [], ◌∷◌, ◌++◌, ◌||◌, ◌==◌, if◌then◌else◌, Result,
  ok, err, ◌>>=◌, ◌>>◌, map_err, refuse_if, is_empty, codes,
}
use rust_streaming_quotes.Core.Constants.{from_millis}
use rust_streaming_quotes.Core.Tickers.{
  IoError, FileSystem, cursor, read_tickers, read_tickers_from_path, parse_tickers_csv,
}
use rust_streaming_quotes.Text.{Text, trim}

-- quote-server/assets/tickers.txt.
default_tickers : Text
default_tickers =
    codes "AAPL\nMSFT\nGOOGL\nAMZN\nNVDA\nMETA\nTSLA\nJPM\nJNJ\nV\nPG\nUNH\nHD\nDIS\nPYPL\n"
    ++ (codes "NFLX\nADBE\nCRM\nINTC\nCSCO\nPFE\nABT\nTMO\nABBV\nLLY\nPEP\nCOST\nTXN\nAVGO\n"
        ++ (codes "ACN\nQCOM\nDHR\nMDT\nNKE\nUPS\nRTX\nHON\nORCL\nLIN\nAMGN\nLOW\nSBUX\nSPGI\n"
            ++ (codes "INTU\nISRG\nT\nBMY\nDE\nPLD\nCI\nCAT\nGS\nUNP\nAMT\nAXP\nMS\nBLK\nGE\nSYK\n"
                ++ (codes
                      "GILD\nMMM\nMO\nLMT\nFISV\nADI\nBKNG\nC\nSO\nNEE\nZTS\nTGT\nDUK\nICE\nBDX\nPNC\n"
                    ++ (codes
                          "CMCSA\nSCHW\nMDLZ\nTJX\nUSB\nCL\nEMR\nAPD\nCOF\nFDX\nAON\nWM\nECL\nITW\nVRTX\n"
                        ++ (codes
                              "D\nNSC\nPGR\nETN\nFIS\nPSA\nKLAC\nMCD\nADP\nAPTV\nAEP\nMCO\nSHW\nDD\nROP\nSLB\n"
                            ++ (codes "HUM\nBSX\nNOC\nEW")))))))

abbrev pub udp_socket_tick : ℕ
udp_socket_tick = from_millis 10

abbrev pub quote_interval : ℕ
quote_interval = from_millis 500

unfoldable pub load_server_tickers : FileSystem → Option Text → Result (List Text) IoError
unfolding default_tickers read_tickers read_tickers_from_path
load_server_tickers open_file (some p) = read_tickers_from_path open_file p
load_server_tickers open_file none = read_tickers (cursor default_tickers)

-- The two fields of the server's `Args` that name tickers.
pub record TickerArgs : Type 0 where
  pub tickers_file : Option Text
  pub tickers : Option Text

-- The `anyhow::Error` of `load_server_tickers_from_args`.
pub data LoadError : Type 0 where
  io : IoError → LoadError
  empty_file : Text → LoadError
  empty_text empty_list empty_default : LoadError

-- `contains`.
unfoldable pub has_char : ℕ → Text → Bool
has_char c [] = false
has_char c (d ∷ s) = d == c || has_char c s

load_from_file : FileSystem → Text → Result (List Text) LoadError
unfolding load_server_tickers
load_from_file open_file p = do
  v ← map_err io (load_server_tickers open_file (some p))
  refuse_if (is_empty v) (empty_file p)
  ok v

-- The tickers in a text that is not blank.
unfoldable pub read_text : Text → Result (List Text) IoError
unfolding has_char read_tickers parse_tickers_csv
read_text raw =
    if has_char b'\n' raw || has_char b'#' raw
    then read_tickers (cursor raw)
    else ok (parse_tickers_csv raw)

load_from_text : Text → Result (List Text) LoadError
unfolding read_text trim
load_from_text raw = do
  let raw_trimmed = trim raw
  refuse_if (is_empty raw_trimmed) empty_text
  v ← map_err io (read_text raw_trimmed)
  refuse_if (is_empty v) empty_list
  ok v

load_default : FileSystem → Result (List Text) LoadError
unfolding load_server_tickers
load_default open_file = do
  v ← map_err io (load_server_tickers open_file none)
  refuse_if (is_empty v) empty_default
  ok v

unfoldable pub load_server_tickers_from_args :
    FileSystem → TickerArgs → Result (List Text) LoadError
unfolding load_from_file load_from_text load_default
load_server_tickers_from_args open_file args = elim args.tickers_file [
  | some p ↦ load_from_file open_file p
  | none ↦ elim args.tickers [ some raw ↦ load_from_text raw | none ↦ load_default open_file ]
]
