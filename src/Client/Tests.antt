-- ===== src/Client/Tests.antt =====
-- Runs and instances of the theorems on quote-client.
use rust_streaming_quotes.Base.{
  ℕ, ◌≡◌, ◌≢◌, refl, some, none, Bool, true, false, List, [], ◌∷◌, ◌==◌, codes, Result, ok, err,
  arith,
}
use rust_streaming_quotes.Base.Int.{pos}
use rust_streaming_quotes.Assoc.{lookup}
use rust_streaming_quotes.Text.{Text, trim, is_whitespace, to_ascii_uppercase}
use rust_streaming_quotes.Text.Order.{cmp}
use rust_streaming_quotes.Core.Constants.{ping_interval}
use rust_streaming_quotes.Core.Protocol.{stream, format_stream_command_line}
use rust_streaming_quotes.Core.Tickers.{IoError, other, FileSystem}
use rust_streaming_quotes.Core.Tickers.Laws.{IsTicker}
use rust_streaming_quotes.Core.Types.{StockQuote}
use rust_streaming_quotes.Core.Wire.{Bytes}
use rust_streaming_quotes.Core.Loopback.{loopback}
use rust_streaming_quotes.Core.PlainPost.{plain_post, quote_bytes}
use rust_streaming_quotes.Server.SimpleChannels.{Chan, simple_channels}
use rust_streaming_quotes.Server.Ping.{datagram}
use rust_streaming_quotes.Server.Session.{ping_expired}
use rust_streaming_quotes.Server.Tcp.Conn.{Shared, Conn, extract_command, handle_conn}
use rust_streaming_quotes.Client.Args.{Args, v4}
use rust_streaming_quotes.Client.Tcp.{Stream, send_stream_command}
use rust_streaming_quotes.Client.Tcp.Agreement.{
  first_line, told, IsConnected, send_stream_command_lem, send_stream_command-extract_command,
}
use rust_streaming_quotes.Base.{not, ltb, ◌≤◌, ◌+◌}
use rust_streaming_quotes.Client.Udp.Ping.{Clock, nap, sleep_loop, send_pings, stuck}
use rust_streaming_quotes.Client.Udp.Stops.{SetFrom, StoppedBy, keep_alive_ends}
use rust_streaming_quotes.Client.Udp.Sleeps.{IsPrompt}
use rust_streaming_quotes.Client.Udp.Pace.{Follows, send_pings-paced, keep_alive}
use rust_streaming_quotes.Client.Udp.Receiver.{ReceiveRound, run_udp_receiver}
use rust_streaming_quotes.Client.Udp.Receiver.Shown
use rust_streaming_quotes.Client.Udp.Receiver.Shown.{quotes, arrivals, run_udp_receiver_lem}
use rust_streaming_quotes.Server.Channel.{sent}

abbrev aapl : Text
aapl = codes "AAPL"

abbrev good_socket : ℕ → ℕ → Bytes → Result (Unit {0}) IoError
good_socket n a bytes = ok tt

abbrev unused : ℕ → Chan
unused k = record { queue = []; capacity = 0; connected = false }

abbrev shared : Shared loopback plain_post simple_channels good_socket
shared = record {
  hub = record { clients = []; capacity_per_client = 256; chan = unused; next_chan = 0 };
  curr_client_id = 1;
  last_ping = [];
}

-- A session that is still running.
conn_of : Text → Conn loopback plain_post simple_channels good_socket
conn_of line = record {
  read = ok line;
  write_all = ok tt;
  flush = ok tt;
  session_start = 10;
  attempts = 0;
  ticks = [];
  meanwhile = λ s. s;
}

-- The server on the other end.
peer : Stream
unfolding conn_of
peer = record {
  connect = ok tt;
  write_all = ok tt;
  flush = ok tt;
  read_line = λ line. ok (
      first_line
        (handle_conn loopback plain_post simple_channels good_socket (conn_of line)
          shared).written);
}

abbrev request : Text
request = format_stream_command_line loopback 6001 (aapl ∷ [])

connected :
    IsConnected loopback plain_post simple_channels good_socket peer request
      (conn_of request)
      shared
unfolding peer conn_of
connected = record {
  connects = refl;
  sends = refl;
  flushes = refl;
  replies = refl;
  arrives = refl;
  answers = refl;
}

send_stream_command_lem_example :
    send_stream_command loopback peer 6001 (aapl ∷ [])
    ≡ told loopback plain_post simple_channels good_socket 1
        (extract_command loopback plain_post simple_channels good_socket (conn_of request).read)
        (lookup ◌==◌ 1 [])
send_stream_command_lem_example =
    send_stream_command_lem loopback plain_post simple_channels good_socket peer 6001 (aapl ∷ [])
      (conn_of request) shared connected

aapl-IsTicker : IsTicker aapl
unfolding trim to_ascii_uppercase
aapl-IsTicker = record {
  some_text = λ e. cc;
  trimmed = refl;
  upper = refl;
  no_comma = (refl, (refl, (refl, (refl, tt))));
}

send_stream_command-extract_command_example :
    (extract_command loopback plain_post simple_channels good_socket (conn_of request).read
      ≡ ok (stream 6001 (aapl ∷ [])))
    × (send_stream_command loopback peer 6001 (aapl ∷ [])
        ≡ told loopback plain_post simple_channels good_socket 1
            (ok (stream 6001 (aapl ∷ [])))
            (lookup ◌==◌ 1 []))
unfolding is_whitespace cmp
send_stream_command-extract_command_example =
    send_stream_command-extract_command loopback plain_post simple_channels good_socket peer 6001
      (aapl ∷ []) (conn_of request) shared (λ e. cc) (tt, tt) (aapl-IsTicker, tt)
      ((refl, (refl, (refl, (refl, tt)))), tt) connected

abbrev never : ℕ → Bool
never t = false

-- Every send and every sleep is late by three nanoseconds at most.
abbrev slow_clock : Clock
slow_clock = record {
  leaves = λ t. t + 1;
  returns = λ t. t + 2;
  wakes = λ t step. t + step + 3;
  leaves_lem = λ t. omega arith;
  returns_lem = λ t. omega arith;
  wakes_lem = λ t step. omega arith;
}

slow_clock-IsPrompt : IsPrompt 3 slow_clock
slow_clock-IsPrompt = record { sends = λ t. omega arith; sleeps = λ t step. omega arith }

send_pings-paced_example :
    let r =
      send_pings loopback plain_post slow_clock never 2_000_000_000
        (ok tt ∷ ok tt ∷ ok tt ∷ [])
        5 in
    Follows (λ a b. a + 2_000_000_000 ≤ b) none r.0 × (r.1 ≢ stuck)
send_pings-paced_example =
    send_pings-paced loopback plain_post slow_clock never 2_000_000_000 (ok tt ∷ ok tt ∷ ok tt ∷ [])
      5

-- The second ping leaves behind ten late sleeps.
two_pings :
    (send_pings loopback plain_post slow_clock never ping_interval (ok tt ∷ ok tt ∷ []) 5).0
    ≡ 6 ∷ 2_000_000_038 ∷ []
unfolding send_pings
two_pings = refl

-- The second ping arrives a second late.
keep_alive_example :
    ping_expired loopback plain_post good_socket ((6001, 16) ∷ []) 6001 0 3_000_000_038 ≡ false
unfolding lookup
keep_alive_example =
    keep_alive loopback plain_post slow_clock never good_socket 3 (ok tt ∷ ok tt ∷ []) 5 6
      2_000_000_038 [] [] ((6001, 16) ∷ []) 6001 0 3_000_000_038 10 1_000_000_000
      slow_clock-IsPrompt two_pings refl (omega arith) (omega arith)

abbrev apple : StockQuote
apple = record { ticker = aapl; price = pos 100; volume = 5; timestamp_ms = 7 }

abbrev receive_rounds : List (ReceiveRound loopback plain_post)
receive_rounds =
    record { shutdown = false; received = datagram (9 ∷ []) 4000; connect = ok tt; try_send = sent }
    ∷ record {
      shutdown = false;
      received = datagram (quote_bytes apple) 5556;
      connect = ok tt;
      try_send = sent;
    }
    ∷ record {
      shutdown = true;
      received = datagram (quote_bytes apple) 5556;
      connect = ok tt;
      try_send = sent;
    }
    ∷ []

run_udp_receiver_lem_example :
    let r = run_udp_receiver loopback plain_post (ok tt) receive_rounds false in
    (r.0.shown ≡ quotes loopback plain_post (arrivals loopback plain_post receive_rounds))
    × (r.0.announced ≡ Shown.told loopback plain_post receive_rounds)
run_udp_receiver_lem_example =
    run_udp_receiver_lem loopback plain_post receive_rounds false (refl, (refl, (refl, tt)))

abbrev by_list : Args
by_list = record {
  server = codes "localhost:5555";
  udp_port = 6001;
  bind_ip = v4 0x7f000001;
  tickers_file = none;
  tickers = some (codes "aapl");
}

abbrev no_metadata : Text → Result Bool IoError
no_metadata path = err (record { kind = other; message = codes "no such file" })

abbrev no_files : FileSystem
no_files path = err (record { kind = other; message = codes "no such file" })

-- The flag is set after three nanoseconds.
abbrev soon : ℕ → Bool
soon t = not (ltb t 3)

soon-SetFrom : SetFrom 3 soon
soon-SetFrom t l = ground arith

keep_alive_ends_example :
    StoppedBy loopback plain_post slow_clock 6
      (send_pings loopback plain_post slow_clock soon 2 (ok tt ∷ ok tt ∷ ok tt ∷ ok tt ∷ []) 0)
    × (7 ≤ 3 + 200_000_000 + 3)
unfolding nap sleep_loop
keep_alive_ends_example =
    keep_alive_ends loopback plain_post slow_clock soon 3 3 2 (ok tt ∷ ok tt ∷ ok tt ∷ ok tt ∷ []) 0
      2 7 soon-SetFrom slow_clock-IsPrompt (omega arith) (refl, (refl, (refl, (refl, tt))))
      (omega arith) (omega arith) refl
