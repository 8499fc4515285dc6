-- ===== src/Client/Main/Subscribed.antt =====
-- On `main` of quote-client/src/main.rs: what has happened when the receiver starts.
use rust_streaming_quotes.Base.{
  ℕ, ◌≡◌, ◌≢◌, refl, sym, subst, ◌∙◌, arith, Bool, Option, none, some, List, [], ◌==◌, Result, ok,
  err, ◌>>=◌, map_err,
}
use rust_streaming_quotes.Text.{Text}
use rust_streaming_quotes.TextSet.{IsAscending}
use rust_streaming_quotes.Core.Net.{Net}
use rust_streaming_quotes.Core.Tickers.{IoError}
use rust_streaming_quotes.Core.Wire.{Bytes, Postcard}
use rust_streaming_quotes.Core.Types.{StockQuote}
use rust_streaming_quotes.Core.Protocol.{Command, format_stream_command_line}
use rust_streaming_quotes.Assoc.{lookup}
use rust_streaming_quotes.Server.Channel.{Channels}
use rust_streaming_quotes.Server.Tcp.Conn.{CommandError, extract_command, Shared, Conn}
use rust_streaming_quotes.Server.Ping.{Status}
use rust_streaming_quotes.Client.Args.{
  IpAddr, Args, validate, load_tickers, advertise_ip, server_socket_addr,
}
use rust_streaming_quotes.Client.Args.Sources.{HasSource, validate_ok, load_tickers_ok}
use rust_streaming_quotes.Client.Tcp.{send_stream_command}
use rust_streaming_quotes.Client.Tcp.Agreement.{IsConnected, told, send_stream_command_lem}
use rust_streaming_quotes.Client.Udp.Receiver.{Receiver, run_udp_receiver}
use rust_streaming_quotes.Client.Main.{io, invalid, tickers, subscribe, Startup, main}

-- The first part of a chain, and the rest.
then_ok :
    {A B E F : Type 0} (f : E → F) (first : Result A E) (rest : A → Result B F) (b : B)
    → (map_err f first >>= rest) ≡ ok b
    → (a : A) × (first ≡ ok a) × (rest a ≡ ok b)
then_ok f (ok a) rest b e = (a, refl, e)
then_ok f (err x) rest b e = absurd (cc e)

module _ (net : Net) (post : Postcard) (socket_addr : IpAddr → ℕ → net.SocketAddr) where
  open net use {SocketAddr}

  -- The stages before the receiver, which have all succeeded.
  pub record IsSubscribed (w : Startup net post socket_addr) (args : Args) : Type 0 where
    pub source : HasSource w.metadata args
    pub wanted : List Text
    pub loaded : load_tickers w.open_file args ≡ ok wanted
    pub some_wanted : wanted ≢ []
    pub ascending : IsAscending wanted
    pub server : SocketAddr
    pub resolved : server_socket_addr net w.to_socket_addrs args ≡ ok server
    pub accepted :
        send_stream_command net
          (w.tcp_stream server)
          (socket_addr args.bind_ip args.udp_port)
          wanted
        ≡ ok tt

  main-IsSubscribed :
      (w : Startup net post socket_addr) (args : Args) (r : Receiver net post × Status × Bool)
      → main net post socket_addr w args ≡ ok r
      → IsSubscribed w args × (r ≡ run_udp_receiver net post w.udp_bind w.rounds w.shutdown)
  unfolding main advertise_ip
  main-IsSubscribed w args r e =
      let (u, h, e1) = then_ok io w.set_handler _ r e in
      let (v, valid, e2) = then_ok invalid (validate w.metadata args) _ r e1 in
      let (ts, loaded, e3) = then_ok tickers (load_tickers w.open_file args) _ r e2 in
      let (server, resolved, e4) =
        then_ok io (server_socket_addr net w.to_socket_addrs args) _ r e3 in
      let (x, accepted, e5) =
        then_ok subscribe
          (send_stream_command net (w.tcp_stream server) (socket_addr args.bind_ip args.udp_port)
            ts)
          _ r e4 in
      let (some_ticker, ascending) = load_tickers_ok w.open_file args ts loaded in
      (
        record {
          source = (validate_ok w.metadata args valid).2;
          wanted = ts;
          loaded = loaded;
          some_wanted = some_ticker;
          ascending = ascending;
          server = server;
          resolved = resolved;
          accepted = accepted;
        },
        ground arith,
      )

  module _ (channels : Channels StockQuote)
      (os_send : ℕ → SocketAddr → Bytes → Result (Unit {0}) IoError) where
    told_ok :
        (cid : ℕ) (command : Result (Command net) CommandError) (found : Option ℕ)
        → told net post channels os_send cid command found ≡ ok tt
        → ((cmd : Command net) × (command ≡ ok cmd)) × (found ≡ none)
    unfolding told
    told_ok cid (err x) found e = absurd (cc e)
    told_ok cid (ok cmd) (some tx) e = absurd (cc e)
    told_ok cid (ok cmd) none e = ((cmd, refl), refl)

    -- Before `main` starts its receiver, every stage has succeeded: the arguments name one source of
    -- tickers, the tickers were loaded and are a nonempty, strictly ascending list, the server was
    -- resolved and its reply was `OK`; and a server on the other end of the stream has parsed a
    -- command, and found the client's number free.
    pub main-registered :
        (w : Startup net post socket_addr) (args : Args) (r : Receiver net post × Status × Bool)
        (server : SocketAddr) (ts : List Text) (conn : Conn net post channels os_send)
        (shared : Shared net post channels os_send)
        → main net post socket_addr w args ≡ ok r
        → server_socket_addr net w.to_socket_addrs args ≡ ok server
        → load_tickers w.open_file args ≡ ok ts
        → IsConnected net post channels os_send
            (w.tcp_stream server)
            (format_stream_command_line net (socket_addr args.bind_ip args.udp_port) ts)
            conn
            shared
        → IsSubscribed w args
          × (r ≡ run_udp_receiver net post w.udp_bind w.rounds w.shutdown)
          × ((cmd : Command net) × (extract_command net post channels os_send conn.read ≡ ok cmd))
          × (lookup ◌==◌ shared.curr_client_id shared.hub.clients ≡ none)
    main-registered w args r server ts conn shared e resolved loaded connected =
        let (s, receives) = main-IsSubscribed w args r e in
        let same_server : s.server ≡ server = cc (s.resolved, resolved) in
        let same_wanted : s.wanted ≡ ts = cc (s.loaded, loaded) in
        let target = socket_addr args.bind_ip args.udp_port in
        let accepted : send_stream_command net (w.tcp_stream server) target ts ≡ ok tt =
          subst (λ x. send_stream_command net (w.tcp_stream x) target ts ≡ ok tt) same_server
            (subst (λ x. send_stream_command net (w.tcp_stream s.server) target x ≡ ok tt)
              same_wanted s.accepted) in
        let (parsed, free) = told_ok _ _ _ (
          sym (
            send_stream_command_lem net post channels os_send (w.tcp_stream server) _ ts conn shared
              connected)
          ∙ accepted) in
        (s, receives, parsed, free)
