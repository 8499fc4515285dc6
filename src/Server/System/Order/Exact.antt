-- ===== src/Server/System/Order/Exact.antt =====
-- On the threads of the server: a client whose channel does not overflow receives all that is
-- broadcast.
use rust_streaming_quotes.Base.{
  ℕ, ◌-◌, ◌^◌, ◌<◌, ◌≤◌, ◌≡◌, ◌==◌, arith, ap, sym, subst, ◌∙◌, true, false, Bool-cases, some, List,
  [], ◌∷◌, ◌++◌, inl, inr, length, length-append, append_assoc, append-nil, ==_iff,
}
use rust_streaming_quotes.Assoc.{lookup, lookup-remove}
use rust_streaming_quotes.Core.Types.{StockQuote}
use rust_streaming_quotes.Server.Channel.{Channels}
use rust_streaming_quotes.Server.Hub.{ClientId, Progress, new, remove_client}
use rust_streaming_quotes.Server.Hub.Loop.{IsRegistry, has_tx, Apart-has_tx, view-try_send, push}
use rust_streaming_quotes.Server.Hub.Delivery.{lookup-has_tx}
use rust_streaming_quotes.Server.System.{
  Memory, GenPc, resting, sending, sent_to, GenMove, snapshot, send, all_sent, remove_dead,
  all_removed, System, of_conn, of_gen, Reach, begin, later,
}
use rust_streaming_quotes.Server.System.Facts.{registered}
use rust_streaming_quotes.Server.System.Interleaved.{Reach-Inv, Step-started, reachable-live}
use rust_streaming_quotes.Server.System.Order.Sorted.{Reach-Flow}
use rust_streaming_quotes.Server.System.Order.{announced, received, Flow}
use rust_streaming_quotes.Server.System.Order.Pushed.{pushed, behind_send, other_chan, this_chan}
use rust_streaming_quotes.Server.System.Order.Logged.{due, Exact, Move-Exact, since}

module _ (channels : Channels StockQuote) where
  open channels use {Chan, queue, connected, capacity, try_send, try_send_room}

  -- With room for the quote, a send puts it at the end.
  room_pushed :
      (q : StockQuote) (c : Chan)
      → connected c ≡ true
      → length (queue c) < capacity c
      → queue (try_send q c).0 ≡ queue c ++ q ∷ []
  room_pushed q c o l = (try_send_room q c o l).0

  capacity_kept : (q : StockQuote) (c : Chan) → capacity (try_send q c).0 ≡ capacity c
  unfolding push
  capacity_kept q c = ground (arith, (view-try_send channels q c).0)

  has_room :
      (got qs log : List StockQuote) (q : StockQuote) (n : ℕ)
      → (got ++ qs) ++ q ∷ [] ≡ log
      → length log ≤ n
      → length qs < n
  has_room got qs log q n e l =
      ground (arith, length-append (got ++ qs) (q ∷ []), length-append got qs)

  send-Exact :
      (k : ℕ) (m : Memory channels) (got log : List StockQuote) (q : StockQuote) (cid tx : ℕ)
      (rest : List (ClientId × ℕ)) (p : Progress channels)
      → IsRegistry ((cid, tx) ∷ rest)
      → Exact channels k m got log (sending q ((cid, tx) ∷ rest) p)
      → Exact channels k
          (behind_send channels m q cid tx p)
          got
          log
          (sending q rest (sent_to channels m q cid tx p))
  unfolding has_tx
  send-Exact k m got log q cid tx rest p reg x c e o l = elim (Bool-cases (k == tx)) [
    | inr n ↦
        let at = other_chan channels k m q cid tx p n in
        rw at (ground (arith, x c e (ap connected (sym at) ∙ o) (ground (arith, l))))
    | inl n ↦
        let at = this_chan channels k m q cid tx p n in
        let o' = sym (pushed channels q (m.hub.chan k)).0 ∙ ap connected (sym at) ∙ o in
        let l' : length log ≤ capacity (m.hub.chan k) =
          ground (arith, l, capacity_kept q (m.hub.chan k)) in
        let whole : (got ++ queue (m.hub.chan k)) ++ q ∷ [] ≡ log = ground (arith, x c e o' l') in
        let alone : has_tx k rest ≡ false =
          ground (arith, Apart-has_tx channels cid tx rest reg.0) in
        rw
          (
            at,
            room_pushed q (m.hub.chan k) o' (has_room got _ log q _ whole l'),
            alone,
            sym (append_assoc got (queue (m.hub.chan k)) (q ∷ [])),
            append-nil ((got ++ queue (m.hub.chan k)) ++ q ∷ []),
          )
          whole
  ]

  GenMove-Exact :
      (k : ℕ) {m m' : Memory channels} {g g' : GenPc channels} (mv : GenMove channels m g m' g')
      (got log hist : List StockQuote)
      → Flow channels k m got hist g
      → Exact channels k m got log g
      → Exact channels k m' got (log ++ announced channels mv) g'
  unfolding remove_client has_tx
  GenMove-Exact k {m} (snapshot {q}) got log hist f x = λ cid e o l.
      let before = x cid e o (omega (arith, l, length-append log (q ∷ []))) in
      rw (lookup-has_tx channels cid k m.hub.clients e)
        (ap (λ qs. qs ++ q ∷ []) (sym (append-nil (got ++ queue (m.hub.chan k))) ∙ before))
  GenMove-Exact k {m} (send {q} {cid} {tx} {rest} {p}) got log hist f x =
      rw (append-nil log) (send-Exact k m got log q cid tx rest p f.pending.0 x)
  GenMove-Exact k all_sent got log hist f x = rw (append-nil log) x
  GenMove-Exact k {m} (remove_dead {cid = c}) got log hist f x = λ cid e o l. rw (append-nil log) (
      x cid (ground (arith, e, lookup-remove ◌==◌ ==_iff cid c m.hub.clients)) o
        (rw (sym (append-nil log)) l))
  GenMove-Exact k all_removed got log hist f x = rw (append-nil log) x

  module _ {chan : ℕ → Chan} {next : ℕ} where
    Reach-Exact :
        {s : System channels} (k : ℕ) (r : Reach channels chan next s)
        → s.mem.started < 2 ^ 64 - 1
        → next ≤ k
        → Exact channels k s.mem (received channels k r) (since channels k r) s.gen
    unfolding new lookup
    Reach-Exact k begin l n = λ cid e o h. absurd (ground arith)
    Reach-Exact k (later {s} r (of_conn i mv)) l n =
        let before : s.mem.started < 2 ^ 64 - 1 =
          omega (arith, l, Step-started channels {s = s} (of_conn i mv)) in
        Move-Exact channels k mv _ _ _ s.gen (Reach-Inv channels r before).0.valid
          (Reach-Flow channels k r before n) (Reach-Exact k r before n)
    Reach-Exact k (later {s} r (of_gen mv)) l n =
        let before : s.mem.started < 2 ^ 64 - 1 =
          omega (arith, l, Step-started channels {s = s} (of_gen mv)) in
        GenMove-Exact k mv _ _ _ (Reach-Flow channels k r before n) (Reach-Exact k r before n)

    -- In every order of the steps of the connections and of the generator,
    -- as long as fewer than 2 ^ 64 - 1 commands were parsed: if no more
    -- quotes were broadcast since the registration of a client than its
    -- channel holds, then between two broadcasts what the client received
    -- and what waits in its channel are exactly these quotes, in the order
    -- in which they were broadcast.
    pub received-since :
        {s : System channels} (i : ℕ) {cid k : ℕ} (r : Reach channels chan next s)
        → s.mem.started < 2 ^ 64 - 1
        → next ≤ k
        → registered (s.conn i) ≡ some (cid, k)
        → length (since channels k r) ≤ capacity (s.mem.hub.chan k)
        → s.gen ≡ resting
        → received channels k r ++ queue (s.mem.hub.chan k) ≡ since channels k r
    received-since {s} i {cid} {k} r l n e h g =
        let (f, o) = reachable-live channels i r l e in
        let whole : (received channels k r ++ queue (s.mem.hub.chan k)) ++ due channels k resting
            ≡ since channels k r =
          subst
            (λ g.
              (received channels k r ++ queue (s.mem.hub.chan k)) ++ due channels k g
              ≡ since channels k r)
            g (Reach-Exact k r l n cid f o h) in
        sym (append-nil (received channels k r ++ queue (s.mem.hub.chan k))) ∙ whole
