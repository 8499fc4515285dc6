-- ===== src/Server/System/Broadcasts.antt =====
-- On the generator of the server: a step of a broadcast keeps what holds of the connections.
use rust_streaming_quotes.Base.{
  ℕ, ◌<◌, ◌≡◌, ◌==◌, refl, arith, All-map, All-zip, All-append, Bool-cases, not, some, List, [],
  ◌∷◌, ◌++◌, if◌then◌else◌, inl, inr, All, ==_iff,
}
use rust_streaming_quotes.Assoc.{lookup, lookup-remove}
use rust_streaming_quotes.Core.Types.{StockQuote}
use rust_streaming_quotes.Server.Channel.{Channels, disconnected}
use rust_streaming_quotes.Server.Hub.{ClientId, Hub, Progress, remove_client, start}
use rust_streaming_quotes.Server.Hub.Invariant.{All-remove, remove_client-IsValid, try_send-IsValid}
use rust_streaming_quotes.Server.Hub.Loop.{
  Mailbox, IsRegistry, view, view-try_send, send_one-store, send_one-counts, push, fate, same,
}
use rust_streaming_quotes.Server.System.{
  ConnPc, Memory, GenPc, GenMove, snapshot, send, all_sent, remove_dead, all_removed, sent_to,
}
use rust_streaming_quotes.Server.System.Facts.{Inv, IsSeen, IsDoomed, GenInv}

disconnected_fate : (c : Mailbox) → same disconnected (fate c) ≡ not c.connected
unfolding fate same
disconnected_fate c = ground arith

-- Each entry of a registry is found.
entries_found :
    (es : List (ClientId × ℕ)) → IsRegistry es → All (λ e. lookup ◌==◌ e.0 es ≡ some e.1) es
unfolding lookup
entries_found [] r = tt
entries_found ((cid, tx) ∷ es) r = (
  ground arith,
  All-map (λ e h. ground (arith, h)) es (All-zip _ _ es r.0 (entries_found es r.1)),
)

module _ (channels : Channels StockQuote) where
  open channels use {connected, try_send}

  pub try_send-connected :
      (q : StockQuote) (c : channels.Chan) → connected (try_send q c).0 ≡ connected c
  unfolding push
  try_send-connected q c = ground (arith, (view-try_send channels q c).0)

  module _ {m : Memory channels} {conn : ℕ → ConnPc} (inv : Inv channels m conn) where
    open inv use {valid, counted, known, below, own_id, in_store, own_rx, vacant, live}

    snapshot-IsSeen :
        (e : ClientId × ℕ)
        → e.0 < m.curr_client_id
        → lookup ◌==◌ e.0 m.hub.clients ≡ some e.1
        → IsSeen channels m conn e
    snapshot-IsSeen (cid, tx) l f = record {
      old = l;
      not_coming = λ i c. ground (arith, vacant i cid c, f);
      same_rx = λ i rx c. ground (arith, live i cid rx c, f);
    }

    pub sent_to-dropped :
        (q : StockQuote) (cid tx : ℕ) (p : Progress channels)
        → (sent_to channels m q cid tx p).dropped_disconnected ≡ (
            if not (connected (m.hub.chan tx))
            then p.dropped_disconnected ++ cid ∷ []
            else p.dropped_disconnected)
    sent_to-dropped q cid tx p = ground (
      arith,
      (send_one-counts channels q cid tx (record p { store = m.hub.chan })).2,
      disconnected_fate (view channels (m.hub.chan tx)),
    )

    -- A client that is sent to in vain is not counted on.
    send-IsDoomed :
        (q : StockQuote) (cid tx : ℕ) (p : Progress channels)
        → IsSeen channels m conn (cid, tx)
        → All (IsDoomed channels m conn) p.dropped_disconnected
        → All (IsDoomed channels m conn) (sent_to channels m q cid tx p).dropped_disconnected
    send-IsDoomed q cid tx p s h = elim (Bool-cases (connected (m.hub.chan tx))) [
      | inl e ↦ rw (sent_to-dropped q cid tx p, e) h
      | inr e ↦
          rw (sent_to-dropped q cid tx p, e)
            (All-append (IsDoomed channels m conn) p.dropped_disconnected (cid ∷ []) h (
              record {
                old = s.old;
                not_coming = s.not_coming;
                not_live = λ i rx c. ground (arith, live i cid rx c, s.same_rx i rx c);
              },
              tt,
            ))
    ]

    remove_dead-Inv :
        (cid : ℕ)
        → IsDoomed channels m conn cid
        → Inv channels (record m { hub = (remove_client channels m.hub cid).0 }) conn
    unfolding remove_client
    remove_dead-Inv cid d = record {
      valid = remove_client-IsValid channels m.hub cid valid;
      counted = counted;
      known = All-remove (λ e. e.0 < m.curr_client_id) cid m.hub.clients known;
      below = below;
      own_id = own_id;
      in_store = in_store;
      own_rx = own_rx;
      vacant = λ i x c. ground (arith, vacant i x c, lookup-remove ◌==◌ ==_iff x cid m.hub.clients);
      live = λ i x rx c.
          ground
            (arith, live i x rx c, d.not_live i rx, lookup-remove ◌==◌ ==_iff x cid m.hub.clients);
    }

    send-Inv :
        (q : StockQuote) (cid tx : ℕ) (p : Progress channels)
        → Inv channels
            (record m { hub = record m.hub { chan = (sent_to channels m q cid tx p).store } })
            conn
    send-Inv q cid tx p =
        rw (send_one-store channels q cid tx (record p { store = m.hub.chan })) (record {
          valid = try_send-IsValid channels q tx m.hub valid;
          counted = counted;
          known = known;
          below = below;
          own_id = own_id;
          in_store = in_store;
          own_rx = own_rx;
          vacant = vacant;
          live = λ i x rx c. ground (arith, live i x rx c, try_send-connected q (m.hub.chan rx));
        })

    hub-IsSeen :
        (hub : Hub channels) (e : ClientId × ℕ)
        → IsSeen channels m conn e
        → IsSeen channels (record m { hub = hub }) conn e
    hub-IsSeen hub e s = record { old = s.old; not_coming = s.not_coming; same_rx = s.same_rx }

    hub-IsDoomed :
        (hub : Hub channels) (cid : ClientId)
        → IsDoomed channels m conn cid
        → IsDoomed channels (record m { hub = hub }) conn cid
    hub-IsDoomed hub cid s = record {
      old = s.old;
      not_coming = s.not_coming;
      not_live = s.not_live;
    }

    pub GenMove-Inv :
        {m' : Memory channels} {g g' : GenPc channels}
        → GenMove channels m g m' g'
        → GenInv channels m conn g
        → Inv channels m' conn
    GenMove-Inv snapshot h = inv
    GenMove-Inv (send {q} {cid} {tx} {rest} {p}) h = send-Inv q cid tx p
    GenMove-Inv all_sent h = inv
    GenMove-Inv (remove_dead {cid}) h = remove_dead-Inv cid h.0
    GenMove-Inv all_removed h = inv

    pub GenMove-GenInv :
        {m' : Memory channels} {g g' : GenPc channels}
        → GenMove channels m g m' g'
        → GenInv channels m conn g
        → GenInv channels m' conn g'
    unfolding start
    GenMove-GenInv snapshot h = (
      All-map (λ e f. snapshot-IsSeen e f.0 f.1) m.hub.clients
          (All-zip _ _ m.hub.clients known (entries_found m.hub.clients valid.registry)),
      tt,
    )
    GenMove-GenInv (send {q} {cid} {tx} {rest} {p}) h = (
      All-map (hub-IsSeen _) rest h.0.1,
      All-map (hub-IsDoomed _) _ (send-IsDoomed q cid tx p h.0.0 h.1),
    )
    GenMove-GenInv all_sent h = h.1
    GenMove-GenInv (remove_dead {cid} {cids}) h = All-map (hub-IsDoomed _) cids h.1
    GenMove-GenInv all_removed h = tt

  pub GenMove-started :
      {m m' : Memory channels} {g g' : GenPc channels}
      → GenMove channels m g m' g'
      → m'.started ≡ m.started
  GenMove-started snapshot = refl
  GenMove-started mv = refl
