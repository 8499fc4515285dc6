-- ===== src/Server/System/Order/Logged.antt =====
-- On the threads of the server: what is broadcast since a client registered, and how the steps of
-- the connections keep to it.
use rust_streaming_quotes.Base.{
  ℕ, ◌<◌, ◌≤◌, ◌≡◌, ◌==◌, refl, arith, ap, sym, ◌∙◌, true, Bool-cases, some, List, [], ◌∷◌, ◌++◌,
  inl, inr, ◌⊎◌, length, append_assoc, if◌then◌else◌, ==_iff,
}
use rust_streaming_quotes.Assoc.{lookup, lookup-remove}
use rust_streaming_quotes.Core.Types.{StockQuote}
use rust_streaming_quotes.Server.Channel.{Channels}
use rust_streaming_quotes.Server.Hub.{remove_client, take_rx, drop_rx}
use rust_streaming_quotes.Server.Hub.Invariant.{IsValid}
use rust_streaming_quotes.Server.Hub.Loop.{has_tx}
use rust_streaming_quotes.Server.Hub.Delivery.{lookup-has_tx}
use rust_streaming_quotes.Server.System.{
  ConnPc, Memory, Move, register, unregister, leave, receive, hang_up, flush_fails, end_session,
  GenPc, resting, sending, removing, System, of_conn, of_gen, Reach, begin, later,
}
use rust_streaming_quotes.Server.System.Moves.{add_client-Added}
use rust_streaming_quotes.Server.System.Order.{taken, announced, Flow, Pending}
use rust_streaming_quotes.Server.System.Order.Taken.{front-behind}
use rust_streaming_quotes.Server.System.Order.Pushed.{has_tx-Allocated}

module _ (channels : Channels StockQuote) where
  open channels use {
    Chan, queue, connected, capacity, bounded_lem, recv_lem, drop_receiver_lem, try_send,
    try_send_room,
  }

  -- A step that makes channel `k` starts the log of what is broadcast to it anew.
  abbrev pub renewed :
      (k : ℕ) {m m' : Memory channels} {p p' : ConnPc}
      → Move channels m p m' p'
      → List StockQuote
      → List StockQuote
  renewed k (register {rx = rx} _) log = if k == rx then [] else log
  renewed k _ log = log

  -- The quote that the generator is about to send to channel `k`.
  abbrev pub due : ℕ → GenPc channels → List StockQuote
  due k (sending q rest p) = if has_tx k rest then q ∷ [] else []
  due k _ = []

  -- What was received from channel `k`, what waits in it and what is about to be sent are the log, as
  -- long as that fits the channel.
  abbrev pub Exact :
      ℕ → Memory channels → List StockQuote → List StockQuote → GenPc channels → Type 0
  Exact k m got log g =
      (cid : ℕ)
      → lookup ◌==◌ cid m.hub.clients ≡ some k
      → connected (m.hub.chan k) ≡ true
      → length log ≤ capacity (m.hub.chan k)
      → (got ++ queue (m.hub.chan k)) ++ due k g ≡ log

  entry_made :
      (m : Memory channels) (cid k : ℕ)
      → IsValid channels m.hub
      → lookup ◌==◌ cid m.hub.clients ≡ some k
      → k < m.hub.next_chan
  entry_made m cid k v e =
      has_tx-Allocated k m.hub.next_chan m.hub.clients v.allocated
        (lookup-has_tx channels cid k m.hub.clients e)

  -- A registered channel that is connected behind a step was so before, and lost its front at most;
  -- or it is new.
  Move-entry :
      (k cid : ℕ) {m m' : Memory channels} {p p' : ConnPc} (mv : Move channels m p m' p')
      (log : List StockQuote)
      → IsValid channels m.hub
      → lookup ◌==◌ cid m'.hub.clients ≡ some k
      → connected (m'.hub.chan k) ≡ true
      → ((lookup ◌==◌ cid m.hub.clients ≡ some k)
          × (connected (m.hub.chan k) ≡ true)
          × (taken channels k mv ++ queue (m'.hub.chan k) ≡ queue (m.hub.chan k))
          × (renewed k mv log ≡ log)
          × (capacity (m'.hub.chan k) ≡ capacity (m.hub.chan k)))
        ⊎ ((k ≡ m.hub.next_chan)
            × (taken channels k mv ≡ [])
            × (queue (m'.hub.chan k) ≡ [])
            × (renewed k mv log ≡ []))
  unfolding remove_client take_rx drop_rx lookup
  Move-entry k cid {m} (register {cid = c} {rx = rx} g) log v e o =
      let (at, _, clients, chan, _) = add_client-Added channels m.hub c rx g in
      let e' = sym (ap (λ es. lookup ◌==◌ cid es) clients) ∙ e in
      rw chan (
        ground (
          arith,
          entry_made m cid k v,
          bounded_lem m.hub.capacity_per_client v.room,
          sym (ap (λ f. connected (f k)) chan) ∙ o,
        ))
  Move-entry k cid {m} (unregister {cid = c}) log v e o =
      ground (arith, lookup-remove ◌==◌ ==_iff cid c m.hub.clients)
  Move-entry k cid {m} (leave {cid = c}) log v e o =
      ground (arith, lookup-remove ◌==◌ ==_iff cid c m.hub.clients)
  Move-entry k cid {m} (receive {rx = rx}) log v e o =
      ground (arith, recv_lem (m.hub.chan rx), front-behind (queue (m.hub.chan rx)))
  Move-entry k cid {m} (hang_up {rx}) log v e o = ground (arith, drop_receiver_lem (m.hub.chan rx))
  Move-entry k cid {m} (flush_fails {rx = rx}) log v e o =
      ground (arith, drop_receiver_lem (m.hub.chan rx))
  Move-entry k cid {m} (end_session {rx = rx}) log v e o =
      ground (arith, drop_receiver_lem (m.hub.chan rx))
  Move-entry k cid mv log v e o = inl (e, o, refl, refl, refl)

  -- Nothing is due to a channel that is not made yet.
  due_unmade :
      (k : ℕ) (m : Memory channels) (got hist : List StockQuote) (g : GenPc channels)
      → Pending channels k m got hist g
      → m.hub.next_chan ≤ k
      → due k g ≡ []
  due_unmade k m got hist resting h l = refl
  due_unmade k m got hist (sending q rest p) h l = elim (Bool-cases (has_tx k rest)) [
    | inl e ↦ absurd (omega (arith, (h.1 e).is_made, l))
    | inr e ↦ rw e refl
  ]
  due_unmade k m got hist (removing cids) h l = refl

  pub Move-Exact :
      (k : ℕ) {m m' : Memory channels} {p p' : ConnPc} (mv : Move channels m p m' p')
      (got log hist : List StockQuote) (g : GenPc channels)
      → IsValid channels m.hub
      → Flow channels k m got hist g
      → Exact k m got log g
      → Exact k m' (got ++ taken channels k mv) (renewed k mv log) g
  Move-Exact k {m} {m'} mv got log hist g v f x cid e o l = elim (Move-entry k cid mv log v e o) [
    | inl h ↦
        rw (h.3, append_assoc got (taken channels k mv) (queue (m'.hub.chan k)), h.2)
          (x cid h.0 h.1 (ground (arith, l, h.3, h.4)))
    | inr h ↦
        rw
          (
            h.1,
            h.2,
            h.3,
            f.unmade (omega (arith, h.0)),
            due_unmade k m got hist g f.pending (omega (arith, h.0)),
          )
          refl
  ]

  module _ {chan : ℕ → Chan} {next : ℕ} where
    -- The quotes whose broadcast started behind the registration of channel `k`, oldest first.
    abbrev pub since : ℕ → {s : System channels} → Reach channels chan next s → List StockQuote
    since k begin = []
    since k (later r (of_conn i mv)) = renewed k mv (since k r)
    since k (later r (of_gen mv)) = since k r ++ announced channels mv
