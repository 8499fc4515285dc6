-- ===== src/Server/System/Owned.antt =====
-- On the threads of the server: which connection a registered channel belongs to.
use rust_streaming_quotes.Base.{
  ℕ, ◌≡◌, ◌==◌, refl, arith, ap, sym, ◌∙◌, true, false, Bool-cases, some, inl, inr, ◌⊎◌, ==_iff,
}
use rust_streaming_quotes.Assoc.{lookup, lookup-remove}
use rust_streaming_quotes.Core.Types.{StockQuote}
use rust_streaming_quotes.Server.Channel.{Channels}
use rust_streaming_quotes.Server.Hub.{new, remove_client, take_rx, drop_rx, Progress}
use rust_streaming_quotes.Server.Hub.Loop.{send_one-store}
use rust_streaming_quotes.Server.System.{
  ConnPc, move_to, Memory, Move, register, unregister, hang_up, flush_fails, receive, end_session,
  leave, GenPc, GenMove, send, sent_to, remove_dead, System, of_conn, of_gen, Reach, begin, later,
}
use rust_streaming_quotes.Server.System.Facts.{held}
use rust_streaming_quotes.Server.System.Moves.{add_client-Added}
use rust_streaming_quotes.Server.System.Broadcasts.{try_send-connected}

module _ (channels : Channels StockQuote) where
  open channels use {Chan, connected, recv_lem, drop_receiver_lem}

  -- Some connection holds the receiver.
  abbrev pub Holder : (ℕ → ConnPc) → ℕ → Type 0
  Holder conn tx = (i : ℕ) × (held (conn i) ≡ some tx)

  -- Every registered channel that has its receiver has a holder.
  abbrev pub Owned : Memory channels → (ℕ → ConnPc) → Type 0
  Owned m conn =
      (cid tx : ℕ)
      → lookup ◌==◌ cid m.hub.clients ≡ some tx
      → connected (m.hub.chan tx) ≡ true
      → Holder conn tx

  -- A registered channel that is connected behind a step was so before, or is the new one.
  Move-entry :
      {m m' : Memory channels} {p p' : ConnPc} (cid : ℕ) {tx : ℕ}
      → Move channels m p m' p'
      → lookup ◌==◌ cid m'.hub.clients ≡ some tx
      → connected (m'.hub.chan tx) ≡ true
      → ((lookup ◌==◌ cid m.hub.clients ≡ some tx) × (connected (m.hub.chan tx) ≡ true))
        ⊎ (held p' ≡ some tx)
  unfolding remove_client take_rx drop_rx lookup
  Move-entry {m} cid {tx} (register {cid = c} {rx = rx} g) e o =
      let (at, _, clients, chan, _) = add_client-Added channels m.hub c rx g in
      let e' = sym (ap (λ es. lookup ◌==◌ cid es) clients) ∙ e in
      let o' = sym (ap (λ f. connected (f tx)) chan) ∙ o in ground arith
  Move-entry {m} cid (unregister {cid = c}) e o =
      ground (arith, lookup-remove ◌==◌ ==_iff cid c m.hub.clients)
  Move-entry {m} cid (leave {cid = c}) e o =
      ground (arith, lookup-remove ◌==◌ ==_iff cid c m.hub.clients)
  Move-entry {m} cid (hang_up {rx}) e o = ground (arith, drop_receiver_lem (m.hub.chan rx))
  Move-entry {m} cid (flush_fails {rx = rx}) e o = ground (arith, drop_receiver_lem (m.hub.chan rx))
  Move-entry {m} cid (end_session {rx = rx}) e o = ground (arith, drop_receiver_lem (m.hub.chan rx))
  Move-entry {m} cid (receive {rx = rx}) e o = ground (arith, recv_lem (m.hub.chan rx))
  Move-entry cid mv e o = inl (e, o)

  -- A connection that lets its receiver go closes the channel.
  Move-released :
      {m m' : Memory channels} {p p' : ConnPc} {tx : ℕ}
      → Move channels m p m' p'
      → held p ≡ some tx
      → (held p' ≡ some tx) ⊎ (connected (m'.hub.chan tx) ≡ false)
  unfolding drop_rx
  Move-released {m} (hang_up {rx}) e = ground (arith, drop_receiver_lem (m.hub.chan rx))
  Move-released {m} (flush_fails {rx = rx}) e = ground (arith, drop_receiver_lem (m.hub.chan rx))
  Move-released {m} (end_session {rx = rx}) e = ground (arith, drop_receiver_lem (m.hub.chan rx))
  Move-released (register _) e = absurd (ground arith)
  Move-released mv e = ground arith

  module _ {m m' : Memory channels} (conn : ℕ → ConnPc) (i : ℕ) {p p' : ConnPc} (here : conn i ≡ p)
      (mv : Move channels m p m' p') where
    own-Holder : (tx : ℕ) → held p' ≡ some tx → Holder (move_to conn i p') tx
    own-Holder tx e = (i, ground arith)

    -- A holder still holds, or has closed the channel.
    kept-Holder :
        (tx : ℕ)
        → connected (m'.hub.chan tx) ≡ true
        → Holder conn tx
        → Holder (move_to conn i p') tx
    kept-Holder tx o (j, h) = elim (Bool-cases (j == i)) [
      | inr other ↦ (j, rw other h)
      | inl same ↦
          let at : j ≡ i = ground arith in
          own-Holder tx
            (elim (Move-released mv (sym (ap held here) ∙ ap (λ k. held (conn k)) (sym at) ∙ h)) [
              | inl k ↦ k
              | inr c ↦ absurd (ground arith)
            ])
    ]

    Move-Owned : Owned m conn → Owned m' (move_to conn i p')
    Move-Owned owned cid tx e o = elim (Move-entry cid mv e o) [
      | inr h ↦ own-Holder tx h
      | inl old ↦ kept-Holder tx o (owned cid tx old.0 old.1)
    ]

  -- A send opens and closes no channel.
  pub sent_connected :
      (m : Memory channels) (q : StockQuote) (cid tx : ℕ) (p : Progress channels) (k : ℕ)
      → connected (m.hub.chan k) ≡ connected ((sent_to channels m q cid tx p).store k)
  sent_connected m q cid tx p k =
      rw (send_one-store channels q cid tx (record p { store = m.hub.chan }))
        (ground (arith, try_send-connected channels q (m.hub.chan k)))

  GenMove-Owned :
      {m m' : Memory channels} (conn : ℕ → ConnPc) {g g' : GenPc channels}
      → GenMove channels m g m' g'
      → Owned m conn
      → Owned m' conn
  unfolding remove_client
  GenMove-Owned {m} conn (send {q} {cid} {tx} {rest} {p}) owned j k e o =
      owned j k e (sent_connected m q cid tx p k ∙ o)
  GenMove-Owned {m} conn (remove_dead {cid}) owned j k e o =
      ground (arith, owned j k, lookup-remove ◌==◌ ==_iff j cid m.hub.clients)
  GenMove-Owned conn mv owned j k e o = owned j k e o

  module _ {chan : ℕ → Chan} {next : ℕ} where
    pub Reach-Owned : {s : System channels} → Reach channels chan next s → Owned s.mem s.conn
    unfolding new lookup
    Reach-Owned begin cid tx e o = absurd (ground arith)
    Reach-Owned (later {s} r (of_conn i mv)) cid tx e o =
        Move-Owned s.conn i refl mv (Reach-Owned r) cid tx e o
    Reach-Owned (later {s} r (of_gen mv)) cid tx e o =
        GenMove-Owned s.conn mv (Reach-Owned r) cid tx e o
