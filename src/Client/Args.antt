-- ===== src/Client/Args.antt =====
-- quote-client/src/cli.rs and tickers.rs: the arguments, their check, and the tickers they name. That
-- clap admits only one source of tickers is not relied on.
pub mod Sources
use rust_streaming_quotes.Base.{
  ℕ, Bool, true, false, not, ◌&&◌, ◌||◌, ◌==◌, Option, none, some, List, [], ◌∷◌, ◌++◌,
  if◌then◌else◌, Result, ok, err, ◌>>=◌, ◌>>◌, map_err, refuse_if, is_empty, codes,
}
use rust_streaming_quotes.Core.Net.{Net}
use rust_streaming_quotes.Core.Tickers.{
  IoError, not_found, FileSystem, read_tickers_from_path, parse_tickers_csv,
}
use rust_streaming_quotes.Server.Load.{has_char}
use rust_streaming_quotes.Text.{Text, trim}

-- `std::net::IpAddr`, by the bits of an address.
pub data IpAddr : Type 0 where
  v4 v6 : ℕ → IpAddr

pub record Args : Type 0 where
  pub server : Text
  pub udp_port : ℕ
  pub bind_ip : IpAddr
  pub tickers_file : Option Text
  pub tickers : Option Text

-- The `anyhow::Error` of `validate`.
pub data ArgsError : Type 0 where
  server_empty : ArgsError
  server_without_port : Text → ArgsError
  file_not_found : Text → IoError → ArgsError
  not_a_file : Text → ArgsError
  no_source two_sources : ArgsError

is_some : Option Text → Bool
is_some none = false
is_some (some t) = true

-- `metadata path` says whether the path is a file.
check_file : (Text → Result Bool IoError) → Option Text → Result (Unit {0}) ArgsError
check_file metadata none = ok tt
check_file metadata (some path) = do
  is_file ← map_err (file_not_found path) (metadata path)
  refuse_if (not is_file) (not_a_file path)

unfoldable pub validate : (Text → Result Bool IoError) → Args → Result (Unit {0}) ArgsError
unfolding check_file is_some trim has_char
validate metadata args = do
  refuse_if (is_empty (trim args.server)) server_empty
  refuse_if (not (has_char b':' args.server)) (server_without_port args.server)
  _ ← check_file metadata args.tickers_file
  refuse_if (not (is_some args.tickers_file) && not (is_some args.tickers)) no_source
  refuse_if (is_some args.tickers_file && is_some args.tickers) two_sources

pub tcp_server : Args → Text
tcp_server args = args.server

unfoldable pub advertise_ip : Args → IpAddr
advertise_ip args = args.bind_ip

-- The first of the addresses that the resolver gives.
unfoldable pub server_socket_addr :
    (net : Net)
    → (Text → Result (List net.SocketAddr) IoError)
    → Args
    → Result net.SocketAddr IoError
server_socket_addr net to_socket_addrs args = elim (to_socket_addrs args.server) [
  | err e ↦ err e
  | ok addrs ↦ elim addrs [
    | [] ↦ err (record { kind = not_found; message = codes "no addresses resolved" })
    | a ∷ rest ↦ ok a
  ]
]

pub data TickersError : Type 0 where
  missing_source : TickersError
  empty_from_file empty_from_arg : Text → TickersError
  read_file : Text → IoError → TickersError

-- `debug` is the form `{:?}` of a path or a string.
unfoldable pub display_tickers_error : (Text → Text) → TickersError → Text
display_tickers_error debug missing_source =
    codes "tickers source is missing: provide either --tickers-file or --tickers"
display_tickers_error debug (empty_from_file path) =
    codes "tickers list is empty (file: " ++ (debug path ++ codes ")")
display_tickers_error debug (empty_from_arg raw) =
    codes "tickers list is empty (--tickers value: " ++ (debug raw ++ codes ")")
display_tickers_error debug (read_file path source) =
    codes "failed to read tickers file: " ++ debug path

load_from_file : FileSystem → Text → Result (List Text) TickersError
unfolding read_tickers_from_path
load_from_file open_file path = do
  tickers ← map_err (read_file path) (read_tickers_from_path open_file path)
  refuse_if (is_empty tickers) (empty_from_file path)
  ok tickers

load_from_arg : Text → Result (List Text) TickersError
unfolding parse_tickers_csv
load_from_arg raw = do
  let tickers = parse_tickers_csv raw
  refuse_if (is_empty tickers) (empty_from_arg raw)
  ok tickers

unfoldable pub load_tickers : FileSystem → Args → Result (List Text) TickersError
unfolding load_from_file load_from_arg
load_tickers open_file args = elim args.tickers_file [
  | some path ↦ load_from_file open_file path
  | none ↦ elim args.tickers [ some raw ↦ load_from_arg raw | none ↦ err missing_source ]
]
