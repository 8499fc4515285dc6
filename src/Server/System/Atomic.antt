-- ===== src/Server/System/Atomic.antt =====
-- On the generator of the server: `Hub::broadcast` of quote-server/src/hub.rs as the steps of its thread.
use rust_streaming_quotes.Base.{ℕ, List, [], ◌∷◌}
use rust_streaming_quotes.Core.Types.{StockQuote}
use rust_streaming_quotes.Server.Channel.{Channels}
use rust_streaming_quotes.Server.Hub.{
  ClientId, Progress, start, send_loop, remove_clients, broadcast,
}
use rust_streaming_quotes.Server.System.{
  Memory, GenPc, resting, sending, removing, GenMove, snapshot, send, all_sent, remove_dead,
  all_removed,
}

module _ (channels : Channels StockQuote) where
  -- The steps of the generator with no step of another thread in between, oldest first.
  pub data GenTrace (m' : Memory channels) (g' : GenPc channels)
      : Memory channels → GenPc channels → Type 0 where
    stop : GenTrace m' g' m' g'
    move :
        {m n : Memory channels} {g h : GenPc channels}
        → GenMove channels m g n h
        → GenTrace m' g' n h
        → GenTrace m' g' m g

  module _ {m' : Memory channels} {g' : GenPc channels} where
    send_loop-trace :
        (m : Memory channels) (q : StockQuote) (es : List (ClientId × ℕ)) (p : Progress channels)
        → (let last = send_loop channels q es p in
            GenTrace m' g'
              (record m { hub = record m.hub { chan = last.store } })
              (sending q [] last))
        → GenTrace m' g' (record m { hub = record m.hub { chan = p.store } }) (sending q es p)
    unfolding send_loop
    send_loop-trace m q [] p t = t
    send_loop-trace m q ((cid, tx) ∷ es) p t = move send (send_loop-trace m q es _ t)

  remove_clients-trace :
      (cids : List ClientId) (m : Memory channels)
      → GenTrace (record m { hub = remove_clients channels cids m.hub }) resting m (removing cids)
  unfolding remove_clients
  remove_clients-trace [] m = move all_removed stop
  remove_clients-trace (cid ∷ cids) m = move remove_dead (remove_clients-trace cids _)

  -- `broadcast` is what the steps of the generator do if no other thread comes in between.
  pub broadcast-GenTrace :
      (m : Memory channels) (q : StockQuote)
      → GenTrace (record m { hub = (broadcast channels m.hub q).0 }) resting m resting
  unfolding broadcast start
  broadcast-GenTrace m q = move snapshot (
      send_loop-trace m q m.hub.clients (start channels m.hub)
        (move all_sent (remove_clients-trace _ _)))
