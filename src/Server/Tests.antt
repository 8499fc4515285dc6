-- ===== src/Server/Tests.antt =====
-- Runs and instances of the theorems on quote-server.
use rust_streaming_quotes.Base.{
  ℕ, ◌≡◌, ◌≢◌, ◌+◌, zero, suc, refl, some, none, not, true, false, List, [], ◌∷◌, ◌==◌, codes,
  Result, ok, err, arith, is_empty, length, if◌then◌else◌, ◌&&◌, ◌⊎◌,
}
use rust_streaming_quotes.Base.Int.{pos}
use rust_streaming_quotes.Assoc.{lookup}
use rust_streaming_quotes.Text.{Text}
use rust_streaming_quotes.Core.Tickers.{IoError, other, timed_out}
use rust_streaming_quotes.Core.Types.{StockQuote}
use rust_streaming_quotes.Core.Wire.{Bytes}
use rust_streaming_quotes.Core.Loopback.{loopback}
use rust_streaming_quotes.Core.PlainPost.{
  plain_post, to_list, from_list, quote_bytes, encode_v1-quote,
}
use rust_streaming_quotes.Server.Channel.{sent, full, disconnected}
use rust_streaming_quotes.Server.SimpleChannels.{Chan, send, simple_channels}
use rust_streaming_quotes.Server.Hub.{
  Hub, client_already_exists, new, add_client, remove_client, broadcast, not_empty, display_stats,
}
use rust_streaming_quotes.Server.Hub.Loop.{Mailbox, outcomes, count}
use rust_streaming_quotes.Server.Hub.Invariant.{IsValid}
use rust_streaming_quotes.Server.Hub.Runs.{Call, adds, receives, run, run-new-IsValid}
use rust_streaming_quotes.Server.Hub.Delivery.{mailbox, deliver, broadcast-mailbox, broadcast-stats}
use rust_streaming_quotes.Server.Hub.Registry.{
  empty_mailbox, is_registered, add_client-remove_client-mailbox,
}
use rust_streaming_quotes.Server.Ping.{Round, datagram, broken, run_udp_ping_listener}
use rust_streaming_quotes.Server.Ping.Timers.{timer, listener-timer}
use rust_streaming_quotes.Server.Session.{
  Tick, failed, finished, running, ping_expired_for, io, got, timeout, session_loop, fresh_session,
  run_session, ping_expired,
}
use rust_streaming_quotes.Server.Session.Streak.{ExitOutcome, session-streak}
use rust_streaming_quotes.Server.Session.Ends.{
  has_stop, session-ends, left_by_break, run_session-lookup, stale_ping,
}
use rust_streaming_quotes.Server.Session.Taken.{taken, datagrams}
use rust_streaming_quotes.Server.Session.Reliable.{session_loop_exact}

abbrev aapl : Text
aapl = codes "AAPL"

abbrev apple : StockQuote
apple = record { ticker = aapl; price = pos 100; volume = 5; timestamp_ms = 7 }

abbrev tesla : StockQuote
tesla = record { ticker = codes "TSLA"; price = pos 90; volume = 2; timestamp_ms = 8 }

abbrev unused : ℕ → Chan
unused k = record { queue = []; capacity = 0; connected = false }

abbrev two_added : List Call
two_added = adds 1 ∷ adds 2 ∷ receives 0 ∷ []

abbrev two_clients : Hub simple_channels
two_clients = run simple_channels (new simple_channels unused 0) two_added

run-new-IsValid_example :
    IsValid simple_channels (run simple_channels (new simple_channels unused 0) two_added)
run-new-IsValid_example = run-new-IsValid simple_channels unused 0 two_added

broadcast-mailbox_example :
    mailbox simple_channels (broadcast simple_channels two_clients apple).0 2
    ≡ deliver apple (mailbox simple_channels two_clients 2)
broadcast-mailbox_example =
    broadcast-mailbox simple_channels two_clients apple 2 run-new-IsValid_example

broadcast-stats_example :
    let st = (broadcast simple_channels two_clients apple).1 in
    let fates = outcomes simple_channels two_clients.chan two_clients.clients in
    (st.sent_count ≡ count sent fates)
    × (st.dropped_full ≡ count full fates)
    × (st.dropped_dead ≡ count disconnected fates)
    × (st.sent_count + st.dropped_full + st.dropped_dead ≡ length two_clients.clients)
    × (not_empty st ≡ not (is_empty two_clients.clients))
unfolding run new
broadcast-stats_example =
    broadcast-stats simple_channels two_clients apple run-new-IsValid_example (omega arith)

add_client-remove_client-mailbox_example :
    (((m : Mailbox) × (mailbox simple_channels two_clients 1 ≡ some m)
        × (add_client simple_channels two_clients 1 ≡ (two_clients, err (client_already_exists 1))))
      ⊎ ((mailbox simple_channels two_clients 1 ≡ none)
          × ((add_client simple_channels two_clients 1).1 ≡ ok two_clients.next_chan)
          × (mailbox simple_channels (add_client simple_channels two_clients 1).0 2 ≡ (
              if 2 == 1
              then some (empty_mailbox two_clients.capacity_per_client)
              else mailbox simple_channels two_clients 2))))
    × (mailbox simple_channels (remove_client simple_channels two_clients 1).0 2
        ≡ (if 2 == 1 then none else mailbox simple_channels two_clients 2))
    × ((remove_client simple_channels two_clients 1).1
        ≡ is_registered (mailbox simple_channels two_clients 1))
add_client-remove_client-mailbox_example =
    add_client-remove_client-mailbox simple_channels two_clients 1 2 run-new-IsValid_example

both_get_it :
    (broadcast simple_channels two_clients apple).1
    ≡ record { sent_count = 2; dropped_full = 0; dropped_dead = 0 }
unfolding broadcast run new send
both_get_it = refl

shown_stats :
    display_stats (record { sent_count = 2; dropped_full = 10; dropped_dead = 0 })
    ≡ codes "sent=2 dropped_full=10 dropped_dead=0"
unfolding display_stats
shown_stats = refl

abbrev quiet : IoError
quiet = record { kind = timed_out; message = codes "timed out" }

abbrev ping_bytes : Bytes
ping_bytes = 1 ∷ 1 ∷ []

-- A ping from port 6001, a silent round, and the removal of the entry of port 6002.
abbrev rounds : List (Round loopback plain_post)
rounds =
    record { shutdown = false; received = datagram ping_bytes 6001; now = 10; removed = [] }
    ∷ record { shutdown = false; received = broken quiet; now = 20; removed = 6002 ∷ [] }
    ∷ []

listener-timer_example :
    lookup ◌==◌ 6001 (run_udp_ping_listener loopback plain_post (ok tt) rounds []).0
    ≡ timer loopback plain_post 6001 rounds (lookup ◌==◌ 6001 [])
listener-timer_example = listener-timer loopback plain_post 6001 rounds []

ping_noted :
    lookup ◌==◌ 6001 (run_udp_ping_listener loopback plain_post (ok tt) rounds []).0 ≡ some 10
unfolding run_udp_ping_listener from_list lookup
ping_noted = refl

abbrev Send : Type 0
Send = ℕ → ℕ → Bytes → Result (Unit {0}) IoError

abbrev good_socket : Send
good_socket n a bytes = ok tt

abbrev boom : IoError
boom = record { kind = other; message = codes "network is unreachable" }

abbrev bad_socket : Send
bad_socket n a bytes = err boom

abbrev copies : ℕ → List StockQuote
copies zero = []
copies (suc n) = apple ∷ copies n

abbrev round_of : (send : Send) → List StockQuote → Tick loopback plain_post send
round_of send qs = record {
  shutdown = false;
  now = 1000;
  last_ping = [];
  drained = qs;
  waited = got tesla;
}

abbrev wanted : List Text
wanted = aapl ∷ []

session-streak_example : ExitOutcome loopback plain_post bad_socket (
    session_loop loopback plain_post bad_socket wanted 6001 0
      (round_of bad_socket (copies 20) ∷ [])
      (fresh_session loopback plain_post bad_socket 0))
session-streak_example =
    session-streak loopback plain_post bad_socket wanted 6001 0 0
      (round_of bad_socket (copies 20) ∷ [])

gives_up :
    (session_loop loopback plain_post bad_socket wanted 6001 0
      (round_of bad_socket (copies 20) ∷ [])
      (fresh_session loopback plain_post bad_socket 0)).1
    ≡ failed (io boom)
unfolding session_loop ping_expired to_list
gives_up = refl

goes_on_at_nineteen :
    (session_loop loopback plain_post bad_socket wanted 6001 0
      (round_of bad_socket (copies 19) ∷ [])
      (fresh_session loopback plain_post bad_socket 0)).1
    ≡ running
unfolding session_loop ping_expired to_list
goes_on_at_nineteen = refl

stop_round : Tick loopback plain_post good_socket
stop_round = record { shutdown = true; now = 2000; last_ping = []; drained = []; waited = timeout }

session-ends_example :
    (session_loop loopback plain_post good_socket wanted 6001 0
      (round_of good_socket [] ∷ stop_round ∷ [])
      (fresh_session loopback plain_post good_socket 0)).1
    ≢ running
unfolding has_stop stop_round ping_expired
session-ends_example =
    session-ends loopback plain_post good_socket wanted 6001 0
      (round_of good_socket [] ∷ stop_round ∷ []) (fresh_session loopback plain_post good_socket 0)
      refl

run_session-lookup_example :
    let r =
      run_session loopback plain_post good_socket wanted 6001 0 0
        (stop_round ∷ [])
        ((6001, 5) ∷ (6002, 6) ∷ []) in
    lookup ◌==◌ 6002 r.2 ≡ (
      if left_by_break loopback plain_post good_socket r.1 && 6002 == 6001
      then none
      else lookup ◌==◌ 6002 ((6001, 5) ∷ (6002, 6) ∷ []))
run_session-lookup_example =
    run_session-lookup loopback plain_post good_socket wanted 6001 6002 0 0 (stop_round ∷ [])
      ((6001, 5) ∷ (6002, 6) ∷ [])

-- A session that starts at 9_999_999_900, a tenth of a microsecond before its first round, at an
-- address whose entry is ten seconds old.
abbrev reused : Tick loopback plain_post good_socket
reused = record {
  shutdown = false;
  now = 10_000_000_000;
  last_ping = (6001, 5) ∷ [];
  drained = apple ∷ [];
  waited = timeout;
}

stale_ping_example :
    let r =
      run_session loopback plain_post good_socket wanted 6001 9_999_999_900 0
        (reused ∷ [])
        ((6001, 5) ∷ []) in
    (r.0 ≡ fresh_session loopback plain_post good_socket 0) × (r.1 ≡ finished ping_expired_for)
unfolding lookup
stale_ping_example =
    stale_ping loopback plain_post good_socket wanted 6001 9_999_999_900 5 0 reused []
      ((6001, 5) ∷ []) refl refl (omega arith)

session_loop_exact_example :
    (session_loop loopback plain_post good_socket wanted 6001 0
      (round_of good_socket (tesla ∷ apple ∷ []) ∷ stop_round ∷ [])
      (fresh_session loopback plain_post good_socket 0)).0.delivered
    ≡ datagrams quote_bytes wanted 6001 (
        taken loopback plain_post good_socket 6001 0
          (round_of good_socket (tesla ∷ apple ∷ []) ∷ stop_round ∷ []))
session_loop_exact_example =
    session_loop_exact loopback plain_post good_socket quote_bytes (λ n a bytes. refl)
      encode_v1-quote wanted 6001 0 0 (round_of good_socket (tesla ∷ apple ∷ []) ∷ stop_round ∷ [])
