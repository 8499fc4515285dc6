-- ===== src/Server/Hub/Runs.antt =====
-- On quote-server/src/hub.rs: sequences of calls of the hub, with the receivers in between.
use rust_streaming_quotes.Base.{ℕ, List, [], ◌∷◌}
use rust_streaming_quotes.Core.Types.{StockQuote}
use rust_streaming_quotes.Server.Channel.{Channels}
use rust_streaming_quotes.Server.Hub.{
  ClientId, Hub, new, add_client, remove_client, broadcast, take_rx, drop_rx,
}
use rust_streaming_quotes.Server.Hub.Invariant.{
  IsValid, take_rx-IsValid, drop_rx-IsValid, new-IsValid, add_client-IsValid, remove_client-IsValid,
  broadcast-IsValid,
}

-- The calls of the hub's interface, and what the holder of the receiver of a channel does.
pub data Call : Type 0 where
  adds removes : ClientId → Call
  broadcasts : StockQuote → Call
  receives hangs_up : ℕ → Call

module _ (channels : Channels StockQuote) where
  unfoldable pub after : Hub channels → Call → Hub channels
  unfolding add_client remove_client broadcast take_rx drop_rx
  after hub (adds cid) = (add_client channels hub cid).0
  after hub (removes cid) = (remove_client channels hub cid).0
  after hub (broadcasts q) = (broadcast channels hub q).0
  after hub (receives k) = take_rx channels k hub
  after hub (hangs_up k) = drop_rx channels k hub

  unfoldable pub run : Hub channels → List Call → Hub channels
  unfolding after
  run hub [] = hub
  run hub (c ∷ cs) = run (after hub c) cs

  step-IsValid :
      (hub : Hub channels) (c : Call) → IsValid channels hub → IsValid channels (after hub c)
  step-IsValid hub (adds cid) v = unfold after in add_client-IsValid channels hub cid v
  step-IsValid hub (removes cid) v = unfold after in remove_client-IsValid channels hub cid v
  step-IsValid hub (broadcasts q) v = unfold after in broadcast-IsValid channels hub q v
  step-IsValid hub (receives k) v = unfold after in take_rx-IsValid channels k hub v
  step-IsValid hub (hangs_up k) v = unfold after in drop_rx-IsValid channels k hub v

  run-IsValid :
      (hub : Hub channels) (cs : List Call) → IsValid channels hub → IsValid channels (run hub cs)
  unfolding run
  run-IsValid hub [] v = v
  run-IsValid hub (c ∷ cs) v = run-IsValid (after hub c) cs (step-IsValid hub c v)

  -- After any sequence of calls on a new hub, in between which receivers take messages or go away, no
  -- two entries share a client or a channel, every registered channel was allocated and has the hub's
  -- capacity, and no queue is longer than that.
  pub run-new-IsValid :
      (store : ℕ → channels.Chan) (next : ℕ) (cs : List Call)
      → IsValid channels (run (new channels store next) cs)
  run-new-IsValid store next cs = run-IsValid _ cs (new-IsValid channels store next)
