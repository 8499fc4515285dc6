-- ===== src/Server/System/Moves.antt =====
-- On the connections of the server: what one step changes, in the connection and in the memory.
use rust_streaming_quotes.Base.{
  ℕ, suc, ◌<◌, ◌≤◌, ◌≡◌, ◌≢◌, ◌==◌, refl, arith, true, none, some, Option-cases, ◌∷◌, ok, inl, inr,
  ◌⊎◌, All, ==_iff,
}
use rust_streaming_quotes.Assoc.{lookup, update, lookup-remove}
use rust_streaming_quotes.Core.Types.{StockQuote}
use rust_streaming_quotes.Server.Channel.{Channels}
use rust_streaming_quotes.Server.Hub.{ClientId, Hub, add_client, remove_client, take_rx, drop_rx}
use rust_streaming_quotes.Server.Hub.Invariant.{
  IsValid, All-remove, add_client-IsValid, remove_client-IsValid, take_rx-IsValid, drop_rx-IsValid,
}
use rust_streaming_quotes.Server.System.{
  ConnPc, Memory, Move, refuse_command, take_id, register, reject, answer, write_fails, unregister,
  hang_up, flush_fails, receive, end_session, leave,
}
use rust_streaming_quotes.Server.System.Facts.{ident, held, registered, coming}

module _ (channels : Channels StockQuote) where
  open channels use {connected, bounded_lem, recv_lem}

  -- What `add_client` does when it registers the client.
  abbrev pub Added : (hub : Hub channels) → ClientId → ℕ → Type 0
  Added hub cid rx =
      (rx ≡ hub.next_chan)
      × (lookup ◌==◌ cid hub.clients ≡ none)
      × ((add_client channels hub cid).0.clients ≡ (cid, rx) ∷ hub.clients)
      × ((add_client channels hub cid).0.chan
          ≡ update hub.chan rx (channels.bounded hub.capacity_per_client))
      × ((add_client channels hub cid).0.next_chan ≡ suc hub.next_chan)

  pub add_client-Added :
      (hub : Hub channels) (cid rx : ℕ) → (add_client channels hub cid).1 ≡ ok rx → Added hub cid rx
  unfolding add_client
  add_client-Added hub cid rx e = elim (Option-cases (lookup ◌==◌ cid hub.clients)) [
    | inr (tx, f) ↦ absurd (ground arith)
    | inl f ↦ ground (arith, f)
  ]

  pub Move-IsValid :
      {m m' : Memory channels} {p p' : ConnPc}
      → Move channels m p m' p'
      → IsValid channels m.hub
      → IsValid channels m'.hub
  Move-IsValid refuse_command v = v
  Move-IsValid take_id v = v
  Move-IsValid {m} (register {cid} _) v = add_client-IsValid channels m.hub cid v
  Move-IsValid (reject _) v = v
  Move-IsValid answer v = v
  Move-IsValid write_fails v = v
  Move-IsValid {m} (unregister {cid}) v = remove_client-IsValid channels m.hub cid v
  Move-IsValid {m} (hang_up {rx}) v = drop_rx-IsValid channels rx m.hub v
  Move-IsValid {m} (flush_fails {rx}) v = drop_rx-IsValid channels rx m.hub v
  Move-IsValid {m} (receive {rx}) v = take_rx-IsValid channels rx m.hub v
  Move-IsValid {m} (end_session {rx}) v = drop_rx-IsValid channels rx m.hub v
  Move-IsValid {m} (leave {cid}) v = remove_client-IsValid channels m.hub cid v

  -- Where the numbers of a connection behind a step come from.
  pub ident-back :
      {m m' : Memory channels} {p p' : ConnPc} {x : ℕ}
      → Move channels m p m' p'
      → ident p' ≡ some x
      → (ident p ≡ some x) ⊎ ((x ≡ m.curr_client_id) × (m'.started ≡ suc m.started))
  ident-back take_id e = ground arith
  ident-back mv e = ground arith

  pub held-back :
      {m m' : Memory channels} {p p' : ConnPc} {x : ℕ}
      → Move channels m p m' p'
      → held p' ≡ some x
      → (held p ≡ some x) ⊎ ((x ≡ m.hub.next_chan) × (m'.hub.next_chan ≡ suc m.hub.next_chan))
  held-back {m} {x} (register {cid} {rx} g) e =
      let (a, _, _, _, d) = add_client-Added m.hub cid rx g in ground arith
  held-back mv e = ground arith

  pub coming-back :
      {m m' : Memory channels} {p p' : ConnPc} {x : ℕ}
      → Move channels m p m' p'
      → coming p' ≡ some x
      → (x ≡ m.curr_client_id) × (m'.hub.clients ≡ m.hub.clients)
  coming-back take_id e = ground arith
  coming-back mv e = absurd (ground arith)

  pub registered-back :
      {m m' : Memory channels} {p p' : ConnPc} {x rx : ℕ}
      → Move channels m p m' p'
      → registered p' ≡ some (x, rx)
      → (registered p ≡ some (x, rx)) ⊎ (coming p ≡ some x)
  registered-back (register _) e = ground arith
  registered-back mv e = ground arith

  -- The numbers only grow.
  pub next_chan-grows :
      {m m' : Memory channels} {p p' : ConnPc}
      → Move channels m p m' p'
      → m.hub.next_chan ≤ m'.hub.next_chan
  unfolding remove_client take_rx drop_rx
  next_chan-grows {m} (register {cid} {rx} g) = ground (arith, add_client-Added m.hub cid rx g)
  next_chan-grows mv = ground arith

  pub started-grows :
      {m m' : Memory channels} {p p' : ConnPc} → Move channels m p m' p' → m.started ≤ m'.started
  started-grows take_id = omega arith
  started-grows mv = omega arith

  -- What a step does to the registry, but for the client whose step it is.
  pub vacant-kept :
      {m m' : Memory channels} {p p' : ConnPc} {j : ℕ}
      → Move channels m p m' p'
      → coming p ≢ some j
      → lookup ◌==◌ j m.hub.clients ≡ none
      → lookup ◌==◌ j m'.hub.clients ≡ none
  unfolding remove_client take_rx drop_rx lookup
  vacant-kept {m} {j} (register {cid} {rx} g) n e = ground (arith, add_client-Added m.hub cid rx g)
  vacant-kept {m} {j} (unregister {cid}) n e =
      ground (arith, lookup-remove ◌==◌ ==_iff j cid m.hub.clients)
  vacant-kept {m} {j} (leave {cid}) n e =
      ground (arith, lookup-remove ◌==◌ ==_iff j cid m.hub.clients)
  vacant-kept mv n e = e

  pub entry-kept :
      {m m' : Memory channels} {p p' : ConnPc} {j tx : ℕ}
      → Move channels m p m' p'
      → ident p ≢ some j
      → lookup ◌==◌ j m.hub.clients ≡ some tx
      → lookup ◌==◌ j m'.hub.clients ≡ some tx
  unfolding remove_client take_rx drop_rx lookup
  entry-kept {m} {j} (register {cid} {rx} g) n e = ground (arith, add_client-Added m.hub cid rx g)
  entry-kept {m} {j} (unregister {cid}) n e =
      ground (arith, lookup-remove ◌==◌ ==_iff j cid m.hub.clients)
  entry-kept {m} {j} (leave {cid}) n e =
      ground (arith, lookup-remove ◌==◌ ==_iff j cid m.hub.clients)
  entry-kept mv n e = e

  -- No other connection's channel loses its receiver.
  pub connected-kept :
      {m m' : Memory channels} {p p' : ConnPc} {k : ℕ}
      → Move channels m p m' p'
      → held p ≢ some k
      → k < m.hub.next_chan
      → connected (m.hub.chan k) ≡ true
      → connected (m'.hub.chan k) ≡ true
  unfolding remove_client take_rx drop_rx
  connected-kept {m} {k} (register {cid} {rx} g) n l e =
      let (at, _, _, chan, _) = add_client-Added m.hub cid rx g in rw chan (ground arith)
  connected-kept mv n l e = ground arith

  -- What the connection whose step it is counts on is there.
  pub own-live :
      {m m' : Memory channels} {p p' : ConnPc} {cid rx : ℕ}
      → Move channels m p m' p'
      → IsValid channels m.hub
      → ((c r : ℕ)
          → registered p ≡ some (c, r)
          → (lookup ◌==◌ c m.hub.clients ≡ some r) × (connected (m.hub.chan r) ≡ true))
      → registered p' ≡ some (cid, rx)
      → (lookup ◌==◌ cid m'.hub.clients ≡ some rx) × (connected (m'.hub.chan rx) ≡ true)
  unfolding take_rx lookup
  own-live {m} (register {cid} {rx} g) v h e =
      let (_, _, clients, chan, _) = add_client-Added m.hub cid rx g in
      rw (clients, chan) (ground (arith, bounded_lem m.hub.capacity_per_client v.room))
  own-live {m} (receive {cid} {rx}) v h e = ground (arith, h cid rx refl, recv_lem (m.hub.chan rx))
  own-live {m} (answer {cid} {rx}) v h e = ground (arith, h cid rx refl)
  own-live mv v h e = absurd (ground arith)

  -- The registry after a step holds the entries it held, and the new one.
  pub All-kept :
      {m m' : Memory channels} {p p' : ConnPc} (P : ClientId × ℕ → Type 0)
      → Move channels m p m' p'
      → ((cid : ℕ) → coming p ≡ some cid → P (cid, m.hub.next_chan))
      → All P m.hub.clients
      → All P m'.hub.clients
  unfolding remove_client take_rx drop_rx
  All-kept {m} P (register {cid} {rx} g) n h =
      let (at, _, clients, _, _) = add_client-Added m.hub cid rx g in
      rw (clients, at) (n cid refl, h)
  All-kept {m} P (unregister {cid}) n h = All-remove P cid m.hub.clients h
  All-kept {m} P (leave {cid}) n h = All-remove P cid m.hub.clients h
  All-kept P mv n h = h
