-- ===== src/Server/Hub/Delivery.antt =====
-- The hub as a map from clients to mailboxes: what each operation does to every client's mailbox,
-- and what it returns.
use rust_streaming_quotes.Base.{
  ℕ, ◌+◌, ◌<◌, ◌^◌, ◌≡◌, refl, ap, ◌∙◌, Bool, true, false, not, List, [], ◌∷◌, ◌==◌, if◌then◌else◌,
  length, arith, Option, none, some, is_empty, ltb, ==_iff,
}
use rust_streaming_quotes.Assoc.{lookup, lookup-remove}
use rust_streaming_quotes.Core.Types.{StockQuote}
use rust_streaming_quotes.Server.Channel.{Channels, sent, full, disconnected}
use rust_streaming_quotes.Server.Hub.{
  ClientId, Hub, not_empty, remove_client, remove_clients, send_loop, broadcast, Progress, start,
  add_usize,
}
use rust_streaming_quotes.Server.Hub.Loop.{
  Mailbox, push, Apart, IsRegistry, has_tx, has_id, dead, view, view-try_send, outcomes, count,
  send_loop-store, send_loop-counts, send_loop-dropped, count_total, length-outcomes,
}
use rust_streaming_quotes.Server.Hub.Invariant.{IsValid}

-- What a broadcast does to one client: without a receiver it is dropped, otherwise the quote goes to
-- the end of its queue if there is room.
unfoldable pub deliver : StockQuote → Option Mailbox → Option Mailbox
deliver q none = none
deliver q (some m) = if m.connected then some (push q m) else none

module _ (channels : Channels StockQuote) where
  open channels use {Chan, bounded, connected, bounded_lem, try_send}

  unfoldable pub mail : (ℕ → Chan) → Option ℕ → Option Mailbox
  mail store none = none
  mail store (some tx) = some (view channels (store tx))

  -- The mailbox of a client, if it is registered.
  unfoldable pub mailbox : Hub channels → ClientId → Option Mailbox
  unfolding mail lookup
  mailbox hub cid = mail hub.chan (lookup ◌==◌ cid hub.clients)

  Apart-dead :
      (cid tx : ℕ) (store : ℕ → Chan) (m : List (ClientId × ℕ))
      → Apart cid tx m
      → dead channels cid store m ≡ false
  unfolding dead
  Apart-dead cid tx store [] h = refl
  Apart-dead cid tx store ((i, k) ∷ m) h = ground (arith, Apart-dead cid tx store m h.1)

  unfoldable pub is_dead : (ℕ → Chan) → Option ℕ → Bool
  is_dead store none = false
  is_dead store (some tx) = not (connected (store tx))

  pub dead-lookup :
      (cid : ℕ) (store : ℕ → Chan) (m : List (ClientId × ℕ))
      → IsRegistry m
      → dead channels cid store m ≡ is_dead store (lookup ◌==◌ cid m)
  unfolding dead is_dead lookup
  dead-lookup cid store [] h = refl
  dead-lookup cid store ((i, k) ∷ m) h =
      ground (arith, Apart-dead i k store m h.0, dead-lookup cid store m h.1)

  pub lookup-has_tx :
      (cid tx : ℕ) (m : List (ClientId × ℕ)) → lookup ◌==◌ cid m ≡ some tx → has_tx tx m ≡ true
  unfolding lookup has_tx
  lookup-has_tx cid tx [] h = cc
  lookup-has_tx cid tx ((i, k) ∷ m) h = ground (arith, lookup-has_tx cid tx m)

  remove_clients-lookup :
      (ids : List ClientId) (hub : Hub channels) (cid : ℕ)
      → (lookup ◌==◌ cid (remove_clients channels ids hub).clients
          ≡ (if has_id cid ids then none else lookup ◌==◌ cid hub.clients))
        × ((remove_clients channels ids hub).chan ≡ hub.chan)
  unfolding remove_clients remove_client has_id
  remove_clients-lookup [] hub cid = (refl, refl)
  remove_clients-lookup (i ∷ ids) hub cid = ground (
    arith,
    remove_clients-lookup ids (remove_client channels hub i).0 cid,
    lookup-remove ◌==◌ ==_iff cid i hub.clients,
  )

  -- The loop of a broadcast from its start.
  abbrev swept : Hub channels → StockQuote → Progress channels
  swept hub q = send_loop channels q hub.clients (start channels hub)

  swept-dropped :
      (hub : Hub channels) (q : StockQuote) (cid : ClientId)
      → IsRegistry hub.clients
      → has_id cid (swept hub q).dropped_disconnected
        ≡ is_dead hub.chan (lookup ◌==◌ cid hub.clients)
  unfolding start has_id
  swept-dropped hub q cid r =
      send_loop-dropped channels q cid hub.clients (start channels hub) r
      ∙ dead-lookup cid hub.chan hub.clients r

  swept-view :
      (hub : Hub channels) (q : StockQuote) (cid tx : ℕ)
      → IsRegistry hub.clients
      → lookup ◌==◌ cid hub.clients ≡ some tx
      → view channels ((swept hub q).store tx) ≡ push q (view channels (hub.chan tx))
  unfolding start
  swept-view hub q cid tx r e =
      ap (view channels) (
        rw (
          send_loop-store channels q hub.clients (start channels hub) tx r,
          lookup-has_tx cid tx hub.clients e,
        ))
      ∙ (view-try_send channels q (hub.chan tx)).0

  mail-swept :
      (hub : Hub channels) (q : StockQuote) (cid : ClientId) (found : Option ℕ)
      → IsRegistry hub.clients
      → lookup ◌==◌ cid hub.clients ≡ found
      → mail (swept hub q).store (if is_dead hub.chan found then none else found)
        ≡ deliver q (mail hub.chan found)
  unfolding mail deliver is_dead
  mail-swept hub q cid none r e = refl
  mail-swept hub q cid (some tx) r e = ground (arith, swept-view hub q cid tx r e)

  -- A broadcast does to every client what `deliver` says of its mailbox, and touches no other:
  -- a slow client loses the quote, a vanished one its registration, and nobody else notices.
  pub broadcast-mailbox :
      (hub : Hub channels) (q : StockQuote) (cid : ClientId)
      → IsValid channels hub
      → mailbox (broadcast channels hub q).0 cid ≡ deliver q (mailbox hub cid)
  unfolding broadcast mailbox
  broadcast-mailbox hub q cid v =
      let p = swept hub q in
      let kept = record hub { chan = p.store } in
      let removed = remove_clients-lookup p.dropped_disconnected kept cid in
      rw (removed.0, removed.1, swept-dropped hub q cid v.registry)
        (mail-swept hub q cid (lookup ◌==◌ cid hub.clients) v.registry refl)

  is_empty-length :
      (m : List (ClientId × ℕ)) (a b c : ℕ)
      → a + b + c ≡ length m
      → length m < 2 ^ 64
      → (if ltb 0 (add_usize (add_usize a c) b) then true else false) ≡ not (is_empty m)
  is_empty-length [] a b c e h = ground arith
  is_empty-length (x ∷ m) a b c e h = ground arith

  -- The statistics of a broadcast count the clients by the fate of their copy of the quote, and add
  -- up to the number of clients; they are empty exactly if no client was registered.
  pub broadcast-stats :
      (hub : Hub channels) (q : StockQuote)
      → IsValid channels hub
      → length hub.clients < 2 ^ 64
      → let st = (broadcast channels hub q).1 in
        let fates = outcomes channels hub.chan hub.clients in
        (st.sent_count ≡ count sent fates)
        × (st.dropped_full ≡ count full fates)
        × (st.dropped_dead ≡ count disconnected fates)
        × (st.sent_count + st.dropped_full + st.dropped_dead ≡ length hub.clients)
        × (not_empty st ≡ not (is_empty hub.clients))
  unfolding broadcast start not_empty
  broadcast-stats hub q v b =
      let counts =
        send_loop-counts channels q hub.clients (start channels hub) v.registry (omega arith)
          (omega arith) in
      let total = count_total (outcomes channels hub.chan hub.clients) in
      let size = length-outcomes channels hub.chan hub.clients in
      (
        omega (arith, counts),
        omega (arith, counts),
        omega (arith, counts),
        omega (arith, counts, total, size),
        is_empty-length hub.clients _ _ _ (omega (arith, counts, total, size)) b,
      )
