-- ===== src/Server/System/Order/Pushed.antt =====
-- On the generator of the server: a step of a broadcast adds to a channel what is announced, once
-- and behind all that waits.
use rust_streaming_quotes.Base.{
  ℕ, ◌<◌, ◌≡◌, ◌==◌, refl, arith, ap, sym, ◌∙◌, true, false, Bool-cases, List, [], ◌∷◌, ◌++◌,
  append_assoc, append-nil, inl, inr, ◌⊎◌,
}
use rust_streaming_quotes.Core.Types.{StockQuote}
use rust_streaming_quotes.Server.Channel.{Channels}
use rust_streaming_quotes.Server.Hub.{ClientId, Progress, remove_client, start}
use rust_streaming_quotes.Server.Hub.Invariant.{IsValid, Allocated}
use rust_streaming_quotes.Server.Hub.Loop.{
  has_tx, Apart-has_tx, view-try_send, push, send_one-store,
}
use rust_streaming_quotes.Server.System.{
  Memory, GenPc, sending, GenMove, snapshot, send, all_sent, remove_dead, all_removed, sent_to,
}
use rust_streaming_quotes.Server.System.Order.{
  announced, Waits, Pending, Flow, Sublist-snoc, Sublist-both,
}
use mathlib.Core.List.{Sublistᴰ}

pub has_tx-Allocated :
    (k next : ℕ) (es : List (ClientId × ℕ)) → Allocated next es → has_tx k es ≡ true → k < next
unfolding has_tx
has_tx-Allocated k next [] a e = absurd (ground arith)
has_tx-Allocated k next ((cid, tx) ∷ es) a e = ground (arith, has_tx-Allocated k next es a.1)

module _ (channels : Channels StockQuote) where
  open channels use {Chan, queue, connected, try_send}

  pub pushed :
      (q : StockQuote) (c : Chan)
      → (connected (try_send q c).0 ≡ connected c)
        × ((queue (try_send q c).0 ≡ queue c) ⊎ (queue (try_send q c).0 ≡ queue c ++ q ∷ []))
  unfolding push
  pushed q c = ground (arith, (view-try_send channels q c).0)

  -- The announced quote goes behind what waits.
  push-queue :
      (got : List StockQuote) (q : StockQuote) (c : Chan) (past : List StockQuote)
      → Sublistᴰ (got ++ queue c) past
      → Sublistᴰ (got ++ queue (try_send q c).0) (past ++ q ∷ [])
  push-queue got q c past s = elim (pushed q c).1 [
    | inl e ↦ rw e (Sublist-snoc q s)
    | inr e ↦ rw (e, sym (append_assoc got (queue c) (q ∷ []))) (Sublist-both q s)
  ]

  -- The memory behind a send.
  abbrev pub behind_send :
      Memory channels → StockQuote → ℕ → ℕ → Progress channels → Memory channels
  behind_send m q cid tx p = record m {
    hub = record m.hub { chan = (sent_to channels m q cid tx p).store };
  }

  module _ (k : ℕ) (m : Memory channels) (q : StockQuote) (cid tx : ℕ) (p : Progress channels) where
    pub other_chan : k == tx ≡ false → (behind_send m q cid tx p).hub.chan k ≡ m.hub.chan k
    other_chan e = rw (send_one-store channels q cid tx (record p { store = m.hub.chan }), e) refl

    pub this_chan :
        k == tx ≡ true → (behind_send m q cid tx p).hub.chan k ≡ (try_send q (m.hub.chan k)).0
    this_chan e =
        rw (send_one-store channels q cid tx (record p { store = m.hub.chan })) (ground arith)

  module _ (k : ℕ) {got hist : List StockQuote} where
    snapshot-Flow :
        {m : Memory channels} {g : GenPc channels} (q : StockQuote)
        → IsValid channels m.hub
        → Flow channels k m got hist g
        → Flow channels k m got (hist ++ q ∷ []) (sending q m.hub.clients (start channels m.hub))
    snapshot-Flow {m} q v f = record {
      seen = Sublist-snoc q f.seen;
      queued = λ l o. Sublist-snoc q (f.queued l o);
      unmade = f.unmade;
      pending = (
        v.registry,
        λ h.
            let l = has_tx-Allocated k m.hub.next_chan m.hub.clients v.allocated h in
            record { is_made = l; past = hist; is_last = refl; behind_past = f.queued l },
      );
    }

    -- What channel `k` does not see.
    keep-Waits :
        {m m' : Memory channels} {q : StockQuote}
        → m'.hub.chan k ≡ m.hub.chan k
        → m'.hub.next_chan ≡ m.hub.next_chan
        → Waits channels k m got hist q
        → Waits channels k m' got hist q
    keep-Waits e d w = record {
      is_made = rw d w.is_made;
      past = w.past;
      is_last = w.is_last;
      behind_past = rw e w.behind_past;
    }

    keep-Flow :
        {m m' : Memory channels} {g g' : GenPc channels}
        → m'.hub.chan k ≡ m.hub.chan k
        → m'.hub.next_chan ≡ m.hub.next_chan
        → Pending channels k m' got hist g'
        → Flow channels k m got hist g
        → Flow channels k m' got hist g'
    keep-Flow e d p f = record {
      seen = f.seen;
      queued = rw (e, d) f.queued;
      unmade = rw d f.unmade;
      pending = p;
    }

    send-Flow :
        (m : Memory channels) (q : StockQuote) (cid tx : ℕ) (rest : List (ClientId × ℕ))
        (p : Progress channels)
        → Flow channels k m got hist (sending q ((cid, tx) ∷ rest) p)
        → Flow channels k
            (behind_send m q cid tx p)
            got
            hist
            (sending q rest (sent_to channels m q cid tx p))
    unfolding has_tx
    send-Flow m q cid tx rest p f = elim (Bool-cases (k == tx)) [
      | inr e ↦
          keep-Flow (other_chan k m q cid tx p e) refl
            (
              f.pending.0.1,
              λ h. keep-Waits (other_chan k m q cid tx p e) refl (f.pending.1 (ground arith)),
            )
            f
      | inl e ↦
          let w = f.pending.1 (ground arith) in
          record {
            seen = f.seen;
            queued = λ l o.
                rw (this_chan k m q cid tx p e, w.is_last)
                  (push-queue got q (m.hub.chan k) w.past (
                    w.behind_past (
                      sym (pushed q (m.hub.chan k)).0
                      ∙ ap connected (sym (this_chan k m q cid tx p e))
                      ∙ o)));
            unmade = f.unmade;
            pending = (
              f.pending.0.1,
              λ h. absurd (ground (arith, Apart-has_tx channels cid tx rest f.pending.0.0)),
            );
          }
    ]

    pub GenMove-Flow :
        {m m' : Memory channels} {g g' : GenPc channels} (mv : GenMove channels m g m' g')
        → IsValid channels m.hub
        → Flow channels k m got hist g
        → Flow channels k m' got (hist ++ announced channels mv) g'
    unfolding remove_client
    GenMove-Flow (snapshot {q}) v f = snapshot-Flow q v f
    GenMove-Flow {m} (send {q} {cid} {tx} {rest} {p}) v f =
        rw (append-nil hist) (send-Flow m q cid tx rest p f)
    GenMove-Flow all_sent v f = rw (append-nil hist) (keep-Flow refl refl tt f)
    GenMove-Flow remove_dead v f = rw (append-nil hist) (keep-Flow refl refl tt f)
    GenMove-Flow all_removed v f = rw (append-nil hist) (keep-Flow refl refl tt f)
