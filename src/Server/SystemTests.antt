-- ===== src/Server/SystemTests.antt =====
-- Concrete schedules of the threads of the server.
use rust_streaming_quotes.Base.{
  ℕ, ◌≡◌, ◌==◌, refl, arith, true, none, some, [], ◌∷◌, ◌++◌, ok, codes,
}
use rust_streaming_quotes.Base.Int.{pos}
use rust_streaming_quotes.Assoc.{lookup}
use rust_streaming_quotes.Core.Types.{StockQuote}
use rust_streaming_quotes.Server.SimpleChannels.{simple_channels, send as simple_send}
use rust_streaming_quotes.Server.Hub.{add_client, new, start, send_one, tally, take_rx, drop_rx}
use rust_streaming_quotes.Server.System.{
  System, Step, of_conn, of_gen, Reach, begin, later, take_id, register, answer, snapshot, send,
  flush_fails, receive, all_sent, remove_dead, all_removed, done, then,
}
use rust_streaming_quotes.Server.System.Interleaved.{reachable-live, reachable-accepted}
use rust_streaming_quotes.Server.System.Order.Logged.{since}
use rust_streaming_quotes.Server.System.Order.Exact.{received-since}
use rust_streaming_quotes.Server.System.Order.{history, received}
use rust_streaming_quotes.Server.System.Order.Sorted.{received-history}
use rust_streaming_quotes.Server.System.Swept.{abandoned-swept}
use mathlib.Core.List.{Sublistᴰ}

abbrev no_channels : ℕ → simple_channels.Chan
no_channels k = simple_channels.bounded 1

abbrev apple : StockQuote
apple = record { ticker = codes "AAPL"; price = pos 5; volume = 7; timestamp_ms = 9 }

-- The system that a schedule leads to.
record Run : Type 1 where
  last : System simple_channels
  reach : Reach simple_channels no_channels 0 last

abbrev then_step : (r : Run) → {t : System simple_channels} → Step simple_channels r.last t → Run
then_step r {t} st = record { last = t; reach = later r.reach st }

-- A command is parsed.
abbrev entered : Run
entered = then_step (record { last = _; reach = begin }) (of_conn 0 take_id)

first_accepted : (add_client simple_channels entered.last.mem.hub 1).1 ≡ ok 0
unfolding add_client lookup new
first_accepted = refl

-- A client is registered before the snapshot of a broadcast, and served behind the send to it.
unfoldable serving_one : Run
unfolding add_client start new
serving_one =
    then_step
      (then_step
        (then_step (then_step entered (of_conn 0 (register first_accepted)))
          (of_gen (snapshot {q = apple})))
        (of_gen send))
      (of_conn 0 answer)

reachable-live_example :
    (lookup ◌==◌ 1 serving_one.last.mem.hub.clients ≡ some 0)
    × ((serving_one.last.mem.hub.chan 0).connected ≡ true)
unfolding serving_one
reachable-live_example =
    reachable-live simple_channels 0 {cid = 1} {rx = 0} serving_one.reach (omega arith) refl

reachable-accepted_example :
    (add_client simple_channels entered.last.mem.hub 1).1 ≡ ok entered.last.mem.hub.next_chan
reachable-accepted_example =
    reachable-accepted simple_channels 0 {cid = 1} entered.reach (omega arith) refl

-- The client receives the quote.
unfoldable served_one : Run
unfolding serving_one
served_one = then_step serving_one (of_conn 0 receive)

served_one_received : received simple_channels 0 served_one.reach ≡ apple ∷ []
unfolding served_one serving_one add_client start new send_one tally simple_send
served_one_received = refl

received-history_example :
    Sublistᴰ
      (received simple_channels 0 served_one.reach)
      (history simple_channels served_one.reach)
unfolding served_one serving_one
received-history_example =
    received-history simple_channels 0 served_one.reach (omega arith) (omega arith)

-- The broadcast is over.
unfoldable rested_one : Run
unfolding served_one serving_one send_one simple_send
rested_one = then_step (then_step served_one (of_gen all_sent)) (of_gen all_removed)

received-since_example :
    received simple_channels 0 rested_one.reach ++ (rested_one.last.mem.hub.chan 0).queue
    ≡ since simple_channels 0 rested_one.reach
unfolding rested_one served_one serving_one add_client start new send_one tally simple_send take_rx
received-since_example =
    received-since simple_channels 0 {cid = 1} {k = 0} rested_one.reach (omega arith) (omega arith)
      refl (omega arith) refl

-- A client is registered, and the flush of its reply fails.
unfoldable broken_one : Run
unfolding add_client new
broken_one =
    then_step (then_step entered (of_conn 0 (register first_accepted))) (of_conn 0 flush_fails)

-- While a broadcast finds the client and removes it, a command arrives on another connection.
unfoldable swept_one : Run
unfolding broken_one add_client new start send_one tally simple_send drop_rx
swept_one =
    then_step
      (then_step
        (then_step
          (then_step
            (then_step (then_step broken_one (of_gen (snapshot {q = apple}))) (of_conn 1 take_id))
            (of_gen send))
          (of_gen all_sent))
        (of_gen remove_dead))
      (of_gen all_removed)

abandoned-swept_example : lookup ◌==◌ 1 swept_one.last.mem.hub.clients ≡ none
unfolding swept_one broken_one add_client new start send_one tally simple_send drop_rx lookup
abandoned-swept_example =
    abandoned-swept simple_channels 1 0 apple broken_one.reach refl (λ i. ground arith)
      (then (of_conn 1 take_id) (
        then (of_gen send)
          (then (of_gen all_sent) (then (of_gen remove_dead) (then (of_gen all_removed) done)))))
      (omega arith) refl
