-- ===== src/Server/System/Due.antt =====
-- On the threads of the server: a client without a receiver, from the snapshot of a broadcast to its
-- removal.
use rust_streaming_quotes.Base.{
  ℕ, ◌+◌, ◌<◌, ◌≡◌, ◌≢◌, ◌==◌, arith, sym, ◌∙◌, true, false, Bool-cases, not, ◌&&◌, some, none,
  List, [], ◌∷◌, ◌++◌, inl, inr, ◌⊎◌, All-map, ==_iff,
}
use rust_streaming_quotes.Assoc.{lookup, lookup-remove}
use rust_streaming_quotes.Core.Types.{StockQuote}
use rust_streaming_quotes.Server.Channel.{Channels}
use rust_streaming_quotes.Server.Hub.{ClientId, Progress, remove_client, take_rx, drop_rx}
use rust_streaming_quotes.Server.Hub.Invariant.{Allocated}
use rust_streaming_quotes.Server.Hub.Loop.{dead, has_id}
use rust_streaming_quotes.Server.System.{
  ConnPc, move_to, Memory, Move, register, receive, hang_up, flush_fails, end_session, GenPc,
  resting, sending, removing, GenMove, snapshot, send, all_sent, remove_dead, all_removed, sent_to,
}
use rust_streaming_quotes.Server.System.Facts.{coming, Inv}
use rust_streaming_quotes.Server.System.Moves.{
  add_client-Added, coming-back, next_chan-grows, started-grows, vacant-kept,
}
use rust_streaming_quotes.Server.System.Kept.{at-move_to}
use rust_streaming_quotes.Server.System.Broadcasts.{sent_to-dropped, GenMove-started}
use rust_streaming_quotes.Server.System.Owned.{sent_connected}

has_id-append :
    (c : ClientId) (xs ys : List ClientId) → has_id c xs ≡ true → has_id c (xs ++ ys) ≡ true
unfolding has_id
has_id-append c [] ys h = absurd (ground arith)
has_id-append c (x ∷ xs) ys h = ground (arith, has_id-append c xs ys)

has_id-last : (c : ClientId) (xs : List ClientId) → has_id c (xs ++ c ∷ []) ≡ true
unfolding has_id
has_id-last c [] = ground arith
has_id-last c (x ∷ xs) = ground (arith, has_id-last c xs)

module _ (channels : Channels StockQuote) where
  open channels use {Chan, connected, bounded_lem, recv_lem, drop_receiver_lem}

  -- Of the channels that are made, none that has lost its receiver gets one.
  abbrev Closes : ℕ → (ℕ → Chan) → (ℕ → Chan) → Type 0
  Closes next store store' =
      (k : ℕ) → k < next → connected (store k) ≡ false → connected (store' k) ≡ false

  dead-kept :
      (c : ClientId) (next : ℕ) (store store' : ℕ → Chan) (es : List (ClientId × ℕ))
      → Closes next store store'
      → Allocated next es
      → dead channels c store es ≡ true
      → dead channels c store' es ≡ true
  unfolding dead
  dead-kept c next store store' [] f a h = h
  dead-kept c next store store' ((i, tx) ∷ es) f a h =
      ground (arith, f tx a.0, dead-kept c next store store' es f a.1)

  Move-Closes :
      {m m' : Memory channels} {p p' : ConnPc}
      → Move channels m p m' p'
      → Closes m.hub.next_chan m.hub.chan m'.hub.chan
  unfolding remove_client take_rx drop_rx
  Move-Closes {m} (register {cid} {rx} g) k l e =
      let (at, _, _, chan, _) = add_client-Added channels m.hub cid rx g in rw chan (ground arith)
  Move-Closes {m} (receive {rx = rx}) k l e = ground (arith, recv_lem (m.hub.chan rx))
  Move-Closes {m} (hang_up {rx}) k l e = ground (arith, drop_receiver_lem (m.hub.chan rx))
  Move-Closes {m} (flush_fails {rx = rx}) k l e = ground (arith, drop_receiver_lem (m.hub.chan rx))
  Move-Closes {m} (end_session {rx = rx}) k l e = ground (arith, drop_receiver_lem (m.hub.chan rx))
  Move-Closes mv k l e = e

  -- The generator is going to find the client without a receiver, or to remove it.
  abbrev pub Due : ClientId → Memory channels → GenPc channels → Type 0
  Due c m resting = ⊥
  Due c m (sending q rest p) =
      (Allocated m.hub.next_chan rest × (dead channels c m.hub.chan rest ≡ true))
      ⊎ (has_id c p.dropped_disconnected ≡ true)
  Due c m (removing cids) = has_id c cids ≡ true

  -- The client is no longer registered, or is about to be removed; nobody registers it again.
  pub record IsSwept (c : ClientId) (m : Memory channels) (conn : ℕ → ConnPc) (g : GenPc channels)
      : Type 0 where
    pub old : c < m.curr_client_id
    pub not_coming : (i : ℕ) → coming (conn i) ≢ some c
    pub fate : (lookup ◌==◌ c m.hub.clients ≡ none) ⊎ Due c m g

  Move-Due :
      (c : ClientId) {m m' : Memory channels} {p p' : ConnPc} (g : GenPc channels)
      → Move channels m p m' p'
      → Due c m g
      → Due c m' g
  Move-Due c resting mv d = d
  Move-Due c {m} {m'} (sending q rest p) mv (inl (a, d)) = inl (
    All-map (λ e l. omega (arith, l, next_chan-grows channels mv)) rest a,
    dead-kept c m.hub.next_chan m.hub.chan m'.hub.chan rest (Move-Closes mv) a d,
  )
  Move-Due c (sending q rest p) mv (inr d) = inr d
  Move-Due c (removing cids) mv d = d

  pub Move-IsSwept :
      (c : ClientId) {m m' : Memory channels} (conn : ℕ → ConnPc) (i : ℕ) {p' : ConnPc}
      (g : GenPc channels)
      → m.curr_client_id ≡ m.started + 1
      → m'.curr_client_id ≡ m'.started + 1
      → Move channels m (conn i) m' p'
      → IsSwept c m conn g
      → IsSwept c m' (move_to conn i p') g
  Move-IsSwept c {m} {m'} conn i {p'} g n n' mv s = record {
    old = omega (arith, s.old, started-grows channels mv);
    not_coming = λ j e. elim (at-move_to coming conn i j e) [
      | inr h ↦ s.not_coming j h.1
      | inl h ↦ absurd (omega (arith, (coming-back channels mv h.1).0, s.old))
    ];
    fate = elim s.fate [
      | inl h ↦ inl (vacant-kept channels mv (s.not_coming i) h)
      | inr d ↦ inr (Move-Due c g mv d)
    ];
  }

  send-Due :
      (c : ClientId) {m : Memory channels} {conn : ℕ → ConnPc} (q : StockQuote) (cid tx : ℕ)
      (rest : List (ClientId × ℕ)) (p : Progress channels)
      → Inv channels m conn
      → Due c m (sending q ((cid, tx) ∷ rest) p)
      → Due c
          (record m { hub = record m.hub { chan = (sent_to channels m q cid tx p).store } })
          (sending q rest (sent_to channels m q cid tx p))
  unfolding dead
  send-Due c {m} q cid tx rest p inv (inr d) = inr (elim (Bool-cases (connected (m.hub.chan tx))) [
    | inl o ↦ rw (sent_to-dropped channels inv q cid tx p, o) d
    | inr o ↦
        rw (sent_to-dropped channels inv q cid tx p, o)
          (has_id-append c p.dropped_disconnected (cid ∷ []) d)
  ])
  send-Due c {m} q cid tx rest p inv (inl (a, d)) =
      elim (Bool-cases (c == cid && not (connected (m.hub.chan tx)))) [
        | inl e ↦
            let o : connected (m.hub.chan tx) ≡ false = ground arith in
            let same : c ≡ cid = ground arith in
            inr (
              rw (sent_to-dropped channels inv q cid tx p, o, same)
                (has_id-last cid p.dropped_disconnected))
        | inr e ↦ inl (
          a.1,
          dead-kept c m.hub.next_chan m.hub.chan _ rest
              (λ k l o. sym (sent_connected channels m q cid tx p k) ∙ o) a.1 (ground arith),
        )
      ]

  GenMove-fate :
      (c : ClientId) {m m' : Memory channels} {conn : ℕ → ConnPc} {g g' : GenPc channels}
      → Inv channels m conn
      → GenMove channels m g m' g'
      → (lookup ◌==◌ c m.hub.clients ≡ none) ⊎ Due c m g
      → (lookup ◌==◌ c m'.hub.clients ≡ none) ⊎ Due c m' g'
  unfolding remove_client dead has_id
  GenMove-fate c inv snapshot (inl h) = inl h
  GenMove-fate c inv snapshot (inr d) = absurd d
  GenMove-fate c inv (send {q} {cid} {tx} {rest} {p}) (inl h) = inl h
  GenMove-fate c inv (send {q} {cid} {tx} {rest} {p}) (inr d) =
      inr (send-Due c q cid tx rest p inv d)
  GenMove-fate c inv all_sent (inl h) = inl h
  GenMove-fate c inv all_sent (inr (inl (a, d))) = absurd (ground arith)
  GenMove-fate c inv all_sent (inr (inr d)) = inr d
  GenMove-fate c {m} inv (remove_dead {cid} {cids}) (inl h) =
      inl (ground (arith, lookup-remove ◌==◌ ==_iff c cid m.hub.clients))
  GenMove-fate c {m} inv (remove_dead {cid} {cids}) (inr d) = elim (Bool-cases (c == cid)) [
    | inl e ↦ inl (ground (arith, lookup-remove ◌==◌ ==_iff c cid m.hub.clients))
    | inr e ↦ inr (ground arith)
  ]
  GenMove-fate c inv all_removed (inl h) = inl h
  GenMove-fate c inv all_removed (inr d) = absurd (ground arith)

  pub GenMove-IsSwept :
      (c : ClientId) {m m' : Memory channels} {conn : ℕ → ConnPc} {g g' : GenPc channels}
      → Inv channels m conn
      → Inv channels m' conn
      → GenMove channels m g m' g'
      → IsSwept c m conn g
      → IsSwept c m' conn g'
  GenMove-IsSwept c inv inv' mv s = record {
    old = omega (arith, s.old, inv.counted, inv'.counted, GenMove-started channels mv);
    not_coming = s.not_coming;
    fate = GenMove-fate c inv mv s.fate;
  }
