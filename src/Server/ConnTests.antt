-- ===== src/Server/ConnTests.antt =====
-- Runs and instances of the theorems on the listener, the connections, the tickers and the generator
-- of quote-server.
use rust_streaming_quotes.Base.{
  ℕ, ◌≡◌, refl, some, none, Bool, true, false, List, [], ◌∷◌, ◌==◌, ◌||◌, codes, Result, ok, err,
}
use rust_streaming_quotes.Base.Int.{pos}
use rust_streaming_quotes.Assoc.{lookup}
use rust_streaming_quotes.Text.{Text}
use rust_streaming_quotes.TextSet.{contains}
use rust_streaming_quotes.Core.Tickers.{IoError, other, FileSystem}
use rust_streaming_quotes.Core.Wire.{Bytes}
use rust_streaming_quotes.Core.Protocol.{parse_command}
use rust_streaming_quotes.Core.Loopback.{loopback, parse_port}
use rust_streaming_quotes.Core.PlainPost.{plain_post}
use rust_streaming_quotes.Server.SimpleChannels.{Chan, simple_channels}
use rust_streaming_quotes.Server.Hub.{add_client}
use rust_streaming_quotes.Server.Hub.Delivery.{mailbox, deliver}
use rust_streaming_quotes.Server.Session.{Tick, timeout, run_session}
use rust_streaming_quotes.Server.Tcp.Accept.{
  Handle, Reaped, reap_finished_sessions, AcceptRound, run_tcp_listener, stopped,
}
use rust_streaming_quotes.Server.Tcp.Reaped.{IsReaped, reap_finished_sessions_lem}
use rust_streaming_quotes.Server.Tcp.Joined.{Settled, run_tcp_listener-Settled}
use rust_streaming_quotes.Server.Tcp.Conn.{Shared, Conn, handle_conn}
use rust_streaming_quotes.Server.Tcp.Conn.Released.{handle_conn-released}
use rust_streaming_quotes.Server.System.{reading}
use rust_streaming_quotes.Server.Tcp.Conn.Steps.{
  Trace, others_of, memory_of, pc_of, handle_conn-Trace,
}
use rust_streaming_quotes.Server.Generator.{Draws, QuoteGenerator, default_config, next_batch}

abbrev is_done : Handle → Bool
is_done h = h == 7 || h == 9

reap_finished_sessions_lem_example :
    (r : Reaped) × (reap_finished_sessions is_done (7 ∷ 8 ∷ 9 ∷ []) [] ≡ some r)
    × IsReaped is_done (7 ∷ 8 ∷ 9 ∷ []) [] 8 r
reap_finished_sessions_lem_example = reap_finished_sessions_lem is_done (7 ∷ 8 ∷ 9 ∷ []) [] 8

reaped : reap_finished_sessions is_done (7 ∷ 8 ∷ 9 ∷ []) [] ≡ some (8 ∷ [], 9 ∷ 7 ∷ [])
unfolding reap_finished_sessions
reaped = refl

abbrev accepted_round : AcceptRound
accepted_round = record { finished = λ h. false; shutdown = false; accepted = ok (ok tt) }

abbrev last_round : AcceptRound
last_round = record { finished = λ h. h == 0; shutdown = true; accepted = ok (ok tt) }

abbrev accept_rounds : List AcceptRound
accept_rounds = accepted_round ∷ accepted_round ∷ last_round ∷ []

run_tcp_listener-Settled_example : Settled 1 (run_tcp_listener (ok tt) accept_rounds)
run_tcp_listener-Settled_example = run_tcp_listener-Settled 1 accept_rounds

all_joined :
    run_tcp_listener (ok tt) accept_rounds
    ≡ (record { session_handles = []; next_thread = 2; joined = 1 ∷ 0 ∷ [] }, stopped)
unfolding run_tcp_listener
all_joined = refl

abbrev good_socket : ℕ → ℕ → Bytes → Result (Unit {0}) IoError
good_socket n a bytes = ok tt

abbrev unused : ℕ → Chan
unused k = record { queue = []; capacity = 0; connected = false }

abbrev shared : Shared loopback plain_post simple_channels good_socket
shared = record {
  hub = record { clients = []; capacity_per_client = 256; chan = unused; next_chan = 0 };
  curr_client_id = 1;
  last_ping = [];
}

-- The session meets the end of the server in its first round.
abbrev last_tick : Tick loopback plain_post good_socket
last_tick = record { shutdown = true; now = 20; last_ping = []; drained = []; waited = timeout }

abbrev conn : Conn loopback plain_post simple_channels good_socket
conn = record {
  read = ok (codes "STREAM udp://127.0.0.1:6001 AAPL\n");
  write_all = ok tt;
  flush = ok tt;
  session_start = 10;
  attempts = 0;
  ticks = last_tick ∷ [];
  meanwhile = λ s. s;
}

handle_conn-released_example :
    deliver
      (record { ticker = codes "AAPL"; price = pos 1; volume = 1; timestamp_ms = 1 })
      (mailbox simple_channels
        (handle_conn loopback plain_post simple_channels good_socket conn shared).shared.hub
        1)
    ≡ none
unfolding handle_conn parse_command parse_port run_session add_client lookup
handle_conn-released_example =
    handle_conn-released loopback plain_post simple_channels good_socket conn shared
      (record { ticker = codes "AAPL"; price = pos 1; volume = 1; timestamp_ms = 1 }) refl (λ e. cc)

handle_conn-Trace_example :
    let r = handle_conn loopback plain_post simple_channels good_socket conn shared in
    (started : ℕ) × Trace loopback plain_post simple_channels good_socket
      (others_of loopback plain_post simple_channels good_socket conn [])
      (memory_of loopback plain_post simple_channels good_socket started r.shared)
      (pc_of loopback plain_post simple_channels good_socket 1 0 r.handled)
      (memory_of loopback plain_post simple_channels good_socket 0 shared)
      reading
handle_conn-Trace_example =
    handle_conn-Trace loopback plain_post simple_channels good_socket conn [] 0 shared.hub 1

abbrev no_files : FileSystem
no_files path = err (record { kind = other; message = codes "no such file" })

abbrev draws : Text → Draws
draws t = record { moved = λ p. p; random_range = λ n. 0; now_ms = 5 }

abbrev generator : QuoteGenerator
generator = record {
  cfg = default_config;
  states = (codes "A", pos 0) ∷ (codes "B", pos 9) ∷ [];
  high_volume = codes "B" ∷ [];
}

batch :
    (next_batch draws generator).1
    ≡ record { ticker = codes "A"; price = pos 1; volume = 100; timestamp_ms = 5 }
      ∷ record { ticker = codes "B"; price = pos 9; volume = 1000; timestamp_ms = 5 }
      ∷ []
unfolding next_batch contains
batch = refl
