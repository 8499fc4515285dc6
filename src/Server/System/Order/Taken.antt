-- ===== src/Server/System/Order/Taken.antt =====
-- On the connections of the server: what one step takes from a channel.
use rust_streaming_quotes.Base.{
  ℕ, ◌<◌, ◌≡◌, ◌==◌, refl, arith, true, Bool-cases, some, List, [], ◌∷◌, ◌++◌, inl, inr, ◌⊎◌,
}
use rust_streaming_quotes.Assoc.{lookup}
use rust_streaming_quotes.Core.Types.{StockQuote}
use rust_streaming_quotes.Server.Channel.{Channels, behind}
use rust_streaming_quotes.Server.Hub.{remove_client, take_rx, drop_rx}
use rust_streaming_quotes.Server.Hub.Invariant.{IsValid}
use rust_streaming_quotes.Server.System.{
  ConnPc, Memory, Move, register, receive, hang_up, flush_fails, end_session,
}
use rust_streaming_quotes.Server.System.Facts.{held, registered}
use rust_streaming_quotes.Server.System.Moves.{add_client-Added}
use rust_streaming_quotes.Server.System.Order.{front, taken}

pub front-behind : (qs : List StockQuote) → front qs ++ behind qs ≡ qs
front-behind [] = refl
front-behind (q ∷ qs) = refl

module _ (channels : Channels StockQuote) where
  open channels use {queue, connected, bounded_lem, recv_lem, drop_receiver_lem}

  -- What a step takes from a connected channel is the front of its queue; or the channel is new.
  pub Move-queue :
      (k : ℕ) {m m' : Memory channels} {p p' : ConnPc} (mv : Move channels m p m' p')
      → IsValid channels m.hub
      → k < m'.hub.next_chan
      → connected (m'.hub.chan k) ≡ true
      → ((k < m.hub.next_chan)
          × (connected (m.hub.chan k) ≡ true)
          × (taken channels k mv ++ queue (m'.hub.chan k) ≡ queue (m.hub.chan k)))
        ⊎ ((k ≡ m.hub.next_chan) × (taken channels k mv ≡ []) × (queue (m'.hub.chan k) ≡ []))
  unfolding remove_client take_rx drop_rx
  Move-queue k {m} (register {cid} {rx} g) v l o =
      let (at, _, _, chan, d) = add_client-Added channels m.hub cid rx g in
      rw chan (ground (arith, bounded_lem m.hub.capacity_per_client v.room))
  Move-queue k {m} (receive {rx = rx}) v l o =
      ground (arith, recv_lem (m.hub.chan rx), front-behind (queue (m.hub.chan rx)))
  Move-queue k {m} (hang_up {rx}) v l o = ground (arith, drop_receiver_lem (m.hub.chan rx))
  Move-queue k {m} (flush_fails {rx = rx}) v l o = ground (arith, drop_receiver_lem (m.hub.chan rx))
  Move-queue k {m} (end_session {rx = rx}) v l o = ground (arith, drop_receiver_lem (m.hub.chan rx))
  Move-queue k mv v l o = inl (l, o, refl)

  -- Only the holder of a connected receiver takes anything.
  pub Move-taken :
      (k : ℕ) {m m' : Memory channels} {p p' : ConnPc} (mv : Move channels m p m' p')
      → ((rx : ℕ) → held p ≡ some rx → rx < m.hub.next_chan)
      → ((c r : ℕ)
          → registered p ≡ some (c, r)
          → (lookup ◌==◌ c m.hub.clients ≡ some r) × (connected (m.hub.chan r) ≡ true))
      → (taken channels k mv ≡ []) ⊎ ((k < m'.hub.next_chan) × (connected (m'.hub.chan k) ≡ true))
  unfolding take_rx
  Move-taken k {m} (receive {cid} {rx}) below live = elim (Bool-cases (k == rx)) [
    | inl e ↦ inr (ground (arith, below rx refl, live cid rx refl, recv_lem (m.hub.chan rx)))
    | inr e ↦ inl (rw e refl)
  ]
  Move-taken k mv below live = inl refl
