-- ===== src/Client/MainTests.antt =====
-- Instances of the theorems on the start of the client and on its quotes.
use rust_streaming_quotes.Base.{
  ℕ, ◌≡◌, refl, arith, true, false, none, some, List, [], ◌∷◌, ◌==◌, codes, Result, ok, err, All,
}
use mathlib.Core.List.{Memᴰ}
use rust_streaming_quotes.Base.Int.{pos}
use rust_streaming_quotes.Assoc.{lookup}
use rust_streaming_quotes.Text.{Text}
use rust_streaming_quotes.TextSet.{contains}
use rust_streaming_quotes.Core.Loopback.{loopback, parse_port, display_port}
use rust_streaming_quotes.Core.PlainPost.{plain_post, to_list, quote_bytes, encode_v1-quote}
use rust_streaming_quotes.Core.Protocol.{Command, parse_command, format_stream_command_line}
use rust_streaming_quotes.Core.Tickers.{IoError, other, timed_out}
use rust_streaming_quotes.Core.Types.{StockQuote}
use rust_streaming_quotes.Core.Wire.{Bytes}
use rust_streaming_quotes.Server.SimpleChannels.{Chan, simple_channels}
use rust_streaming_quotes.Server.Channel.{sent}
use rust_streaming_quotes.Server.Ping.{is_tick, datagram, broken}
use rust_streaming_quotes.Server.Session.{Tick, timeout, session_loop, fresh_session, ping_expired}
use rust_streaming_quotes.Server.Session.Taken.{taken}
use rust_streaming_quotes.Server.Tcp.Conn.{Shared, Conn, extract_command, handle_conn}
use rust_streaming_quotes.Client.Args.{IpAddr, v4, Args, load_tickers, server_socket_addr}
use rust_streaming_quotes.Client.Tcp.{Stream}
use rust_streaming_quotes.Client.Tcp.Agreement.{first_line, IsConnected}
use rust_streaming_quotes.Client.Udp.Receiver.{ReceiveRound, run_udp_receiver}
use rust_streaming_quotes.Client.Udp.Delivered.{no_more, in_vain, arrives, asked_for, shown_exact}
use rust_streaming_quotes.Client.Udp.Delivered.Lossy.{shown_wanted}
use rust_streaming_quotes.Client.Main.{Startup, main}
use rust_streaming_quotes.Client.Main.Subscribed.{IsSubscribed, main-registered}

abbrev good_socket : ℕ → ℕ → Bytes → Result (Unit {0}) IoError
good_socket n a bytes = ok tt

abbrev unused : ℕ → Chan
unused k = record { queue = []; capacity = 0; connected = false }

abbrev shared : Shared loopback plain_post simple_channels good_socket
shared = record {
  hub = record { clients = []; capacity_per_client = 256; chan = unused; next_chan = 0 };
  curr_client_id = 1;
  last_ping = [];
}

abbrev request : Text
request = format_stream_command_line loopback 6001 (codes "AAPL" ∷ [])

abbrev conn : Conn loopback plain_post simple_channels good_socket
conn = record {
  read = ok request;
  write_all = ok tt;
  flush = ok tt;
  session_start = 10;
  attempts = 0;
  ticks = [];
  meanwhile = λ s. s;
}

abbrev peer : Stream
peer = record {
  connect = ok tt;
  write_all = ok tt;
  flush = ok tt;
  read_line = λ line. ok (
      first_line (handle_conn loopback plain_post simple_channels good_socket conn shared).written);
}

abbrev socket_addr : IpAddr → ℕ → ℕ
socket_addr ip port = port

abbrev args : Args
args = record {
  server = codes "localhost:5555";
  udp_port = 6001;
  bind_ip = v4 0x7f000001;
  tickers_file = none;
  tickers = some (codes "aapl");
}

abbrev startup : Startup loopback plain_post socket_addr
startup = record {
  set_handler = ok tt;
  metadata = λ path. err (record { kind = other; message = codes "no such file" });
  open_file = λ path. err (record { kind = other; message = codes "no such file" });
  to_socket_addrs = λ server. ok (5555 ∷ []);
  tcp_stream = λ addr. peer;
  udp_bind = ok tt;
  rounds = [];
  shutdown = true;
}

main_runs :
    main loopback plain_post socket_addr startup args
    ≡ ok (run_udp_receiver loopback plain_post (ok tt) [] true)
unfolding main first_line handle_conn format_stream_command_line parse_command display_port
    parse_port
main_runs = refl

connected : IsConnected loopback plain_post simple_channels good_socket peer request conn shared
connected = record {
  connects = refl;
  sends = refl;
  flushes = refl;
  replies = refl;
  arrives = refl;
  answers = refl;
}

main-registered_example :
    IsSubscribed loopback plain_post socket_addr startup args
    × (run_udp_receiver loopback plain_post (ok tt) [] true
        ≡ run_udp_receiver loopback plain_post startup.udp_bind startup.rounds startup.shutdown)
    × ((cmd : Command loopback) × (extract_command loopback plain_post simple_channels good_socket
            conn.read
          ≡ ok cmd))
    × (lookup ◌==◌ 1 shared.hub.clients ≡ none)
unfolding server_socket_addr load_tickers
main-registered_example =
    main-registered loopback plain_post socket_addr simple_channels good_socket startup args
      (run_udp_receiver loopback plain_post (ok tt) [] true) 5555 (codes "AAPL" ∷ []) conn shared
      main_runs refl refl connected

abbrev apple : StockQuote
apple = record { ticker = codes "AAPL"; price = pos 100; volume = 5; timestamp_ms = 7 }

abbrev tesla : StockQuote
tesla = record { ticker = codes "TSLA"; price = pos 90; volume = 2; timestamp_ms = 8 }

-- Two quotes are taken from the channel in one round of the session.
abbrev ticks : List (Tick loopback plain_post good_socket)
ticks =
    record {
      shutdown = false;
      now = 20;
      last_ping = (6001, 15) ∷ [];
      drained = tesla ∷ apple ∷ [];
      waited = timeout;
    }
    ∷ []

abbrev wanted : List Text
wanted = codes "AAPL" ∷ []

both_taken : taken loopback plain_post good_socket 6001 10 ticks ≡ tesla ∷ apple ∷ []
unfolding taken lookup ping_expired
both_taken = refl

one_sent :
    (session_loop loopback plain_post good_socket wanted 6001 10 ticks
      (fresh_session loopback plain_post good_socket 0)).0.delivered
    ≡ (6001, quote_bytes apple) ∷ []
unfolding session_loop lookup to_list quote_bytes
one_sent = refl

-- The first round waits in vain.
abbrev rounds : List (ReceiveRound loopback plain_post)
rounds =
    record {
      shutdown = false;
      received = broken (record { kind = timed_out; message = [] });
      connect = ok tt;
      try_send = sent;
    }
    ∷ record {
      shutdown = false;
      received = datagram (quote_bytes apple) 5556;
      connect = ok tt;
      try_send = sent;
    }
    ∷ []

shown_exact_example :
    (run_udp_receiver loopback plain_post (ok tt) rounds false).0.shown
    ≡ asked_for wanted (taken loopback plain_post good_socket 6001 10 ticks)
unfolding is_tick to_list quote_bytes
shown_exact_example =
    shown_exact loopback plain_post quote_bytes encode_v1-quote good_socket wanted 6001 5556 10 0
      ticks rounds false (λ n a bytes. refl) (rw both_taken (omega arith, (omega arith, tt)))
      (rw one_sent (in_vain refl refl refl (arrives refl refl no_more))) (refl, (refl, tt))

shown_wanted_example :
    All
      (λ q. contains q.ticker wanted ≡ true)
      (run_udp_receiver loopback plain_post (ok tt) rounds false).0.shown
unfolding to_list quote_bytes
shown_wanted_example =
    shown_wanted loopback plain_post good_socket wanted 6001 10 0 ticks rounds false
      (rw one_sent (omega arith, tt))
      (rw one_sent (
        (λ bytes src e. absurd (ground arith)),
        ((λ bytes src e. (6001, Memᴰ.head (ground arith))), tt),
      ))
      (refl, (refl, tt))
