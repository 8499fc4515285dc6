-- ===== src/Server/System/Order/Sorted.antt =====
-- On the threads of the server: a client receives in the order of the broadcasts.
use rust_streaming_quotes.Base.{
  ℕ, ◌-◌, ◌^◌, ◌<◌, ◌≤◌, ◌≡◌, refl, arith, true, List, [], ◌++◌, append_assoc, append-nil, inl, inr,
  ◌⊎◌,
}
use rust_streaming_quotes.Core.Types.{StockQuote}
use rust_streaming_quotes.Server.Channel.{Channels}
use rust_streaming_quotes.Server.Hub.{new}
use rust_streaming_quotes.Server.Hub.Invariant.{IsValid}
use rust_streaming_quotes.Server.System.{
  ConnPc, Memory, Move, GenPc, resting, sending, removing, System, of_conn, of_gen, Reach, begin,
  later,
}
use rust_streaming_quotes.Server.System.Interleaved.{Reach-Inv, Step-started}
use rust_streaming_quotes.Server.System.Moves.{next_chan-grows}
use rust_streaming_quotes.Server.System.Order.{
  taken, history, received, Pending, Flow, Sublist-start,
}
use rust_streaming_quotes.Server.System.Order.Taken.{Move-queue, Move-taken}
use rust_streaming_quotes.Server.System.Order.Pushed.{GenMove-Flow}
use mathlib.Core.List.{Sublistᴰ}

module _ (channels : Channels StockQuote) where
  open channels use {Chan, queue, connected}

  module _ (k : ℕ) {m m' : Memory channels} {p p' : ConnPc} (mv : Move channels m p m' p')
      (got hist : List StockQuote) (v : IsValid channels m.hub) where
    -- What is received and what waits, together, stay what they were.
    kept :
        (past : List StockQuote)
        → k < m.hub.next_chan
        → (connected (m.hub.chan k) ≡ true → Sublistᴰ (got ++ queue (m.hub.chan k)) past)
        → connected (m'.hub.chan k) ≡ true
        → Sublistᴰ ((got ++ taken channels k mv) ++ queue (m'.hub.chan k)) past
    kept past l s o =
        elim (Move-queue channels k mv v (omega (arith, next_chan-grows channels mv)) o) [
          | inr h ↦ absurd (omega (arith, h.0))
          | inl h ↦ rw (append_assoc got (taken channels k mv) (queue (m'.hub.chan k)), h.2) (s h.1)
        ]

    Move-Pending :
        (g : GenPc channels)
        → Pending channels k m got hist g
        → Pending channels k m' (got ++ taken channels k mv) hist g
    Move-Pending resting h = tt
    Move-Pending (sending q rest p) h = (
      h.0,
      λ e.
          let w = h.1 e in
          record {
            is_made = omega (arith, w.is_made, next_chan-grows channels mv);
            past = w.past;
            is_last = w.is_last;
            behind_past = kept w.past w.is_made w.behind_past;
          },
    )
    Move-Pending (removing cids) h = tt

    module _ {g : GenPc channels} (f : Flow channels k m got hist g) where
      Move-queued :
          k < m'.hub.next_chan
          → connected (m'.hub.chan k) ≡ true
          → Sublistᴰ ((got ++ taken channels k mv) ++ queue (m'.hub.chan k)) hist
      Move-queued l o = elim (Move-queue channels k mv v l o) [
        | inl h ↦ kept hist h.0 (f.queued h.0) o
        | inr h ↦ rw (h.1, h.2, append-nil got, append-nil got) f.seen
      ]

      Move-Flow :
          ((taken channels k mv ≡ [])
            ⊎ ((k < m'.hub.next_chan) × (connected (m'.hub.chan k) ≡ true)))
          → Flow channels k m' (got ++ taken channels k mv) hist g
      Move-Flow t = record {
        seen = elim t [
          | inl e ↦ rw (e, append-nil got) f.seen
          | inr h ↦ Sublist-start _ _ (Move-queued h.0 h.1)
        ];
        queued = Move-queued;
        unmade = λ l. elim t [
          | inl e ↦
              rw (e, append-nil got) (f.unmade (omega (arith, l, next_chan-grows channels mv)))
          | inr h ↦ absurd (omega (arith, h.0, l))
        ];
        pending = Move-Pending g f.pending;
      }

  module _ {chan : ℕ → Chan} {next : ℕ} where
    pub Reach-Flow :
        {s : System channels} (k : ℕ) (r : Reach channels chan next s)
        → s.mem.started < 2 ^ 64 - 1
        → next ≤ k
        → Flow channels k s.mem (received channels k r) (history channels r) s.gen
    unfolding new
    Reach-Flow k begin l n = record {
      seen = Sublistᴰ.slnil;
      queued = λ h o. absurd (omega (arith, h, n));
      unmade = λ h. refl;
      pending = tt;
    }
    Reach-Flow k (later {s} r (of_conn i mv)) l n =
        let before : s.mem.started < 2 ^ 64 - 1 =
          omega (arith, l, Step-started channels {s = s} (of_conn i mv)) in
        let inv = (Reach-Inv channels r before).0 in
        Move-Flow k mv _ _ inv.valid (Reach-Flow k r before n)
          (Move-taken channels k mv (inv.in_store i) (inv.live i))
    Reach-Flow k (later {s} r (of_gen mv)) l n =
        let before : s.mem.started < 2 ^ 64 - 1 =
          omega (arith, l, Step-started channels {s = s} (of_gen mv)) in
        GenMove-Flow channels k mv (Reach-Inv channels r before).0.valid (Reach-Flow k r before n)

    -- In every order of the steps of the connections and of the generator,
    -- as long as fewer than 2 ^ 64 - 1 commands were parsed, what was
    -- received from a channel that the hub made is a subsequence of the
    -- quotes whose broadcast has started: a client receives them in that
    -- order, and each of them once at most.
    pub received-history :
        {s : System channels} (k : ℕ) (r : Reach channels chan next s)
        → s.mem.started < 2 ^ 64 - 1
        → next ≤ k
        → Sublistᴰ (received channels k r) (history channels r)
    received-history k r l n = (Reach-Flow k r l n).seen
