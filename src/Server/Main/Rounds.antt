-- ===== src/Server/Main/Rounds.antt =====
-- On the generator's thread of quote-server/src/main.rs: what its rounds do to the clients of the hub.
use rust_streaming_quotes.Base.{
  ℕ, suc, ◌+◌, ◌≤◌, ◌≡◌, refl, ap, sym, ◌∙◌, arith, true, Option, some, List, [], ◌∷◌, ◌++◌, length,
  length-append, All, append_assoc, append-nil,
}
use rust_streaming_quotes.Text.{Text}
use rust_streaming_quotes.Core.Types.{StockQuote}
use rust_streaming_quotes.Server.Channel.{Channels}
use rust_streaming_quotes.Server.Hub.{ClientId, Hub, broadcast}
use rust_streaming_quotes.Server.Hub.Loop.{Mailbox, push}
use rust_streaming_quotes.Server.Hub.Delivery.{mailbox, deliver, broadcast-mailbox}
use rust_streaming_quotes.Server.Hub.Invariant.{IsValid, broadcast-IsValid}
use rust_streaming_quotes.Server.Generator.{keys, next_batch}
use rust_streaming_quotes.Server.Generator.Batch.{IsQuote, named_tickers, next_batch_lem}
use rust_streaming_quotes.Server.Main.{broadcast_batch, Round, Producer, produce}

-- One quote after the other.
unfoldable pub deliver_all : List StockQuote → Option Mailbox → Option Mailbox
unfolding deliver
deliver_all [] m = m
deliver_all (q ∷ qs) m = deliver_all qs (deliver q m)

deliver_all-room :
    (qs : List StockQuote) (m : Mailbox)
    → m.connected ≡ true
    → length m.queue + length qs ≤ m.capacity
    → deliver_all qs (some m) ≡ some (record m { queue = m.queue ++ qs })
unfolding deliver_all deliver push
deliver_all-room [] m c l = ap (λ xs. some (record m { queue = xs })) (sym (append-nil m.queue))
deliver_all-room (q ∷ qs) m c l =
    let more = record m { queue = m.queue ++ q ∷ [] } in
    let first : deliver q (some m) ≡ some more = ground arith in
    ap (deliver_all qs) first
    ∙ deliver_all-room qs more c (omega (arith, l, length-append m.queue (q ∷ [])))
    ∙ ap (λ xs. some (record m { queue = xs })) (append_assoc m.queue (q ∷ []) qs)

length-named_tickers : (qs : List StockQuote) → length (named_tickers qs) ≡ length qs
unfolding named_tickers
length-named_tickers [] = refl
length-named_tickers (q ∷ qs) = omega (arith, length-named_tickers qs)

module _ (channels : Channels StockQuote) where
  -- What the other threads do keeps the hub well formed and the client's mailbox as it is.
  abbrev pub LeavesAlone : ClientId → (ℕ → Hub channels → Hub channels) → Type 0
  LeavesAlone cid meanwhile =
      (n : ℕ) (hub : Hub channels)
      → IsValid channels hub
      → IsValid channels (meanwhile n hub)
        × (mailbox channels (meanwhile n hub) cid ≡ mailbox channels hub cid)

  broadcast_batch-mailbox :
      (cid : ClientId) (meanwhile : ℕ → Hub channels → Hub channels)
      → LeavesAlone cid meanwhile
      → (n : ℕ) (qs : List StockQuote) (hub : Hub channels) (logged : List Text)
      → IsValid channels hub
      → let hub' = (broadcast_batch channels meanwhile n qs (hub, logged)).0 in
        IsValid channels hub'
        × (mailbox channels hub' cid ≡ deliver_all qs (mailbox channels hub cid))
  unfolding broadcast_batch deliver_all
  broadcast_batch-mailbox cid meanwhile h n [] hub logged v = (v, refl)
  broadcast_batch-mailbox cid meanwhile h n (q ∷ qs) hub logged v =
      let (v', same) = h n hub v in
      let after = (broadcast channels (meanwhile n hub) q).0 in
      let (last, all) =
        broadcast_batch-mailbox cid meanwhile h (suc n) qs after _
          (broadcast-IsValid channels (meanwhile n hub) q v') in
      (
        last,
        all
            ∙ ap (deliver_all qs)
                (broadcast-mailbox channels (meanwhile n hub) q cid v' ∙ ap (deliver q) same),
      )

  -- In one round of the generator's loop, a registered client with a live receiver and room for a
  -- quote per ticker gets exactly one quote for each ticker, in the order of the generator's map, behind
  -- what its queue held; each has at least the minimal price and the volume and time that were drawn
  -- for it; and the generator keeps its tickers. The other threads may do anything in between that
  -- keeps the hub well formed and this client's mailbox as it is.
  pub produce-mailbox :
      (r : Round channels) (s : Producer channels) (cid : ClientId) (m : Mailbox)
      → IsValid channels s.hub
      → LeavesAlone cid r.meanwhile
      → mailbox channels s.hub cid ≡ some m
      → m.connected ≡ true
      → length m.queue + length (keys s.q_gen.states) ≤ m.capacity
      → (qs : List StockQuote) × (mailbox channels (produce channels r s).hub cid
          ≡ some (record m { queue = m.queue ++ qs }))
        × (named_tickers qs ≡ keys s.q_gen.states)
        × All (IsQuote s.q_gen.cfg s.q_gen.high_volume r.draws) qs
        × (keys (produce channels r s).q_gen.states ≡ keys s.q_gen.states)
  unfolding produce
  produce-mailbox r s cid m v quiet e c l =
      let (names, valid, same) = next_batch_lem r.draws s.q_gen in
      let qs = (next_batch r.draws s.q_gen).1 in
      (
        qs,
        (broadcast_batch-mailbox cid r.meanwhile quiet 0 qs s.hub s.logged v).1
            ∙ ap (deliver_all qs) e
            ∙ deliver_all-room qs m c
                (omega (arith, l, sym (length-named_tickers qs) ∙ ap length names)),
        names,
        valid,
        same,
      )
