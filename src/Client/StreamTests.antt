-- ===== src/Client/StreamTests.antt =====
-- An instance of the theorem on a round of the generator that reaches the screen of a client.
use rust_streaming_quotes.Base.{
  ℕ, ◌≡◌, refl, arith, true, false, some, List, [], ◌∷◌, codes, Result, ok,
}
use rust_streaming_quotes.Base.Int.{pos}
use rust_streaming_quotes.Assoc.{lookup}
use rust_streaming_quotes.Text.{Text, text_eq}
use rust_streaming_quotes.TextSet.{contains}
use rust_streaming_quotes.Core.Loopback.{loopback}
use rust_streaming_quotes.Core.PlainPost.{plain_post, to_list, quote_bytes, encode_v1-quote}
use rust_streaming_quotes.Core.Tickers.{IoError}
use rust_streaming_quotes.Core.Types.{StockQuote}
use rust_streaming_quotes.Core.Wire.{Bytes}
use rust_streaming_quotes.Server.SimpleChannels.{Chan, simple_channels, send}
use rust_streaming_quotes.Server.Hub.{Hub, new, add_client}
use rust_streaming_quotes.Server.Hub.Loop.{Mailbox}
use rust_streaming_quotes.Server.Hub.Delivery.{mailbox}
use rust_streaming_quotes.Server.Hub.Registry.{empty_mailbox}
use rust_streaming_quotes.Server.Hub.Invariant.{IsValid, new-IsValid, add_client-IsValid}
use rust_streaming_quotes.Server.Generator.{Draws, default_config, keys}
use rust_streaming_quotes.Server.Generator.Batch.{named_tickers}
use rust_streaming_quotes.Server.Main.{Round, Producer, produce}
use rust_streaming_quotes.Server.Channel.{sent}
use rust_streaming_quotes.Server.Ping.{datagram}
use rust_streaming_quotes.Server.Session.{Tick, timeout, session_loop, fresh_session, ping_expired}
use rust_streaming_quotes.Server.Session.Taken.{stops}
use rust_streaming_quotes.Client.Udp.Receiver.{ReceiveRound, run_udp_receiver}
use rust_streaming_quotes.Client.Udp.Delivered.{no_more, arrives}
use rust_streaming_quotes.Client.Udp.Delivered.FromGenerator.{wanted_of, IsDrain, produce-shown}

abbrev good_socket : ℕ → ℕ → Bytes → Result (Unit {0}) IoError
good_socket n a bytes = ok tt

abbrev unused : ℕ → Chan
unused k = record { queue = []; capacity = 0; connected = false }

abbrev one_client : Hub simple_channels
one_client = (add_client simple_channels (new simple_channels unused 0) 1).0

one_client-IsValid : IsValid simple_channels one_client
one_client-IsValid =
    add_client-IsValid simple_channels (new simple_channels unused 0) 1
      (new-IsValid simple_channels unused 0)

abbrev draws : Text → Draws
draws t = record { moved = λ p. pos 100; random_range = λ n. 0; now_ms = 5 }

abbrev producer : Producer simple_channels
producer = record {
  q_gen = record {
    cfg = default_config;
    states = (codes "TSLA", pos 9) ∷ (codes "AAPL", pos 9) ∷ [];
    high_volume = [];
  };
  hub = one_client;
  logged = [];
}

abbrev round : Round simple_channels
round = record { shutdown = false; draws = draws; meanwhile = λ n hub. hub }

abbrev made : Text → StockQuote
made t = record { ticker = t; price = pos 100; volume = 100; timestamp_ms = 5 }

abbrev filled : Mailbox
filled = record {
  queue = made (codes "TSLA") ∷ made (codes "AAPL") ∷ [];
  capacity = 256;
  connected = true;
}

mailbox-filled :
    mailbox simple_channels (produce simple_channels round producer).hub 1 ≡ some filled
unfolding mailbox add_client new lookup produce text_eq send contains
mailbox-filled = refl

abbrev drain : Tick loopback plain_post good_socket
drain = record {
  shutdown = false;
  now = 20;
  last_ping = (6001, 15) ∷ [];
  drained = made (codes "TSLA") ∷ made (codes "AAPL") ∷ [];
  waited = timeout;
}

drain-IsDrain :
    IsDrain simple_channels loopback plain_post good_socket quote_bytes encode_v1-quote 6001 10
      drain filled.queue
unfolding stops ping_expired lookup
drain-IsDrain = record { all_drained = refl; none_waited = refl; in_time = refl }

abbrev wanted : List Text
wanted = codes "AAPL" ∷ []

one_sent :
    (session_loop loopback plain_post good_socket wanted 6001 10
      (drain ∷ [])
      (fresh_session loopback plain_post good_socket 0)).0.delivered
    ≡ (6001, quote_bytes (made (codes "AAPL"))) ∷ []
unfolding session_loop lookup to_list quote_bytes
one_sent = refl

abbrev rounds : List (ReceiveRound loopback plain_post)
rounds =
    record {
      shutdown = false;
      received = datagram (quote_bytes (made (codes "AAPL"))) 5556;
      connect = ok tt;
      try_send = sent;
    }
    ∷ []

produce-shown_example :
    named_tickers (run_udp_receiver loopback plain_post (ok tt) rounds false).0.shown
    ≡ wanted_of wanted (codes "TSLA" ∷ codes "AAPL" ∷ [])
unfolding mailbox add_client new lookup keys to_list quote_bytes
produce-shown_example =
    produce-shown simple_channels loopback plain_post good_socket quote_bytes encode_v1-quote round
      producer 1 (empty_mailbox 256) filled wanted 6001 5556 10 drain rounds false
      (λ n a bytes. refl) one_client-IsValid (λ n hub v. (v, refl)) refl refl refl (omega arith)
      mailbox-filled drain-IsDrain (omega arith, (omega arith, tt))
      (rw one_sent (arrives refl refl no_more)) (refl, tt)
