-- ===== src/Client/Main.antt =====
-- quote-client/src/main.rs: `main`, from the parsed arguments on.
pub mod Subscribed
use rust_streaming_quotes.Base.{
  ℕ, Bool, false, Option, none, some, List, [], ◌∷◌, Result, ok, err, ◌>>=◌, map_err,
}
use rust_streaming_quotes.Text.{Text}
use rust_streaming_quotes.Core.Net.{Net}
use rust_streaming_quotes.Core.Tickers.{IoError, FileSystem}
use rust_streaming_quotes.Core.Wire.{Postcard}
use rust_streaming_quotes.Server.Ping.{Status}
use rust_streaming_quotes.Client.Args.{
  IpAddr, Args, ArgsError, TickersError, validate, load_tickers, advertise_ip, server_socket_addr,
}
use rust_streaming_quotes.Client.Tcp.{Stream, SubscribeError, send_stream_command}
use rust_streaming_quotes.Client.Udp.Receiver.{Receiver, ReceiveRound, run_udp_receiver}

-- The `anyhow::Error` of `main`, but for those of the receiver, which are in its status.
pub data MainError : Type 0 where
  io : IoError → MainError
  invalid : ArgsError → MainError
  tickers : TickersError → MainError
  subscribe : SubscribeError → MainError

-- `socket_addr` is `SocketAddr::new`.
module _ (net : Net) (post : Postcard) (socket_addr : IpAddr → ℕ → net.SocketAddr) where
  open net use {SocketAddr}

  -- What `main` meets: the result of `set_handler`, the files, the resolver, the connection to an
  -- address, the result of `bind` for the UDP socket, the rounds of the receiver, and the flag when it
  -- starts.
  pub record Startup : Type 0 where
    pub set_handler : Result (Unit {0}) IoError
    pub metadata : Text → Result Bool IoError
    pub open_file : FileSystem
    pub to_socket_addrs : Text → Result (List SocketAddr) IoError
    pub tcp_stream : SocketAddr → Stream
    pub udp_bind : Result (Unit {0}) IoError
    pub rounds : List (ReceiveRound net post)
    pub shutdown : Bool

  -- The value is what the receiver leaves behind, if `main` gets as far.
  unfoldable pub main : Startup → Args → Result (Receiver net post × Status × Bool) MainError
  unfolding validate load_tickers advertise_ip server_socket_addr send_stream_command
      run_udp_receiver
  main w args = do
    _ ← map_err io w.set_handler
    _ ← map_err invalid (validate w.metadata args)
    ts ← map_err tickers (load_tickers w.open_file args)
    let udp_advertise_addr = socket_addr (advertise_ip args) args.udp_port
    server ← map_err io (server_socket_addr net w.to_socket_addrs args)
    _ ← map_err subscribe (send_stream_command net (w.tcp_stream server) udp_advertise_addr ts)
    ok (run_udp_receiver net post w.udp_bind w.rounds w.shutdown)
