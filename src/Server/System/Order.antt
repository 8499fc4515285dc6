-- ===== src/Server/System/Order.antt =====
-- On the threads of the server: the order in which a client receives what is broadcast. The logs
-- are read off the steps; the program does not keep them.
pub mod Pushed
pub mod Taken
pub mod Sorted
pub mod Logged
pub mod Exact
use rust_streaming_quotes.Base.{
  ℕ, ◌<◌, ◌≤◌, ◌≡◌, ◌==◌, true, if◌then◌else◌, List, [], ◌∷◌, ◌++◌, append-nil, subst,
}
use rust_streaming_quotes.Core.Types.{StockQuote}
use rust_streaming_quotes.Server.Channel.{Channels}
use rust_streaming_quotes.Server.Hub.Loop.{IsRegistry, has_tx}
use rust_streaming_quotes.Server.System.{
  ConnPc, Memory, Move, receive, GenPc, resting, sending, removing, GenMove, snapshot, Reach, begin,
  later, System, of_conn, of_gen,
}
use mathlib.Core.List.{Sublistᴰ}
use mathlib.Core.List.Sublistᴰ

-- The oldest message of a queue, if there is one.
abbrev pub front {ℓ} : {A : Type ℓ} → List A → List A
front [] = []
front (x ∷ xs) = x ∷ []

module _ {ℓ} {A : Type ℓ} where
  pub Sublist-snoc : (x : A) {xs ys : List A} → Sublistᴰ xs ys → Sublistᴰ xs (ys ++ x ∷ [])
  Sublist-snoc x {xs} {ys} s =
      subst (λ l. Sublistᴰ l (ys ++ x ∷ [])) (append-nil xs)
        (Sublistᴰ.append s (Sublistᴰ.nil-sublist (x ∷ [])))

  pub Sublist-both :
      (x : A) {xs ys : List A} → Sublistᴰ xs ys → Sublistᴰ (xs ++ x ∷ []) (ys ++ x ∷ [])
  Sublist-both x s = Sublistᴰ.append s (Sublistᴰ.refl (x ∷ []))

  pub Sublist-start : (xs zs : List A) {ys : List A} → Sublistᴰ (xs ++ zs) ys → Sublistᴰ xs ys
  Sublist-start xs zs {ys} s =
      Sublistᴰ.trans
        (subst (λ l. Sublistᴰ l (xs ++ zs)) (append-nil xs)
          (Sublistᴰ.append (Sublistᴰ.refl xs) (Sublistᴰ.nil-sublist zs)))
        s

module _ (channels : Channels StockQuote) where
  open channels use {Chan, queue, connected}

  -- What a step of a connection takes from channel `k`.
  abbrev pub taken :
      (k : ℕ) {m m' : Memory channels} {p p' : ConnPc} → Move channels m p m' p' → List StockQuote
  taken k {m} (receive {rx = rx}) = if k == rx then front (queue (m.hub.chan rx)) else []
  taken k _ = []

  -- The quote whose broadcast a step of the generator starts.
  abbrev pub announced :
      {m m' : Memory channels} {g g' : GenPc channels}
      → GenMove channels m g m' g'
      → List StockQuote
  announced (snapshot {q}) = q ∷ []
  announced _ = []

  module _ {chan : ℕ → Chan} {next : ℕ} where
    -- The quotes that were broadcast, oldest first.
    abbrev pub history : {s : System channels} → Reach channels chan next s → List StockQuote
    history begin = []
    history (later r (of_conn i mv)) = history r
    history (later r (of_gen mv)) = history r ++ announced mv

    -- The quotes that were received from channel `k`, oldest first.
    abbrev pub received : ℕ → {s : System channels} → Reach channels chan next s → List StockQuote
    received k begin = []
    received k (later r (of_conn i mv)) = received k r ++ taken k mv
    received k (later r (of_gen mv)) = received k r

  module _ (k : ℕ) (m : Memory channels) (got hist : List StockQuote) where
    -- Of the broadcast of `q`, which channel `k` has not been sent, nothing was received.
    pub record Waits (q : StockQuote) : Type 0 where
      pub is_made : k < m.hub.next_chan
      pub past : List StockQuote
      pub is_last : hist ≡ past ++ q ∷ []
      pub behind_past :
          connected (m.hub.chan k) ≡ true → Sublistᴰ (got ++ queue (m.hub.chan k)) past

    abbrev pub Pending : GenPc channels → Type 0
    Pending resting = Unit
    Pending (sending q rest p) = IsRegistry rest × (has_tx k rest ≡ true → Waits q)
    Pending (removing cids) = Unit

    -- What was received from channel `k`, what waits in it, and what was broadcast.
    pub record Flow (g : GenPc channels) : Type 0 where
      pub seen : Sublistᴰ got hist
      pub queued :
          k < m.hub.next_chan
          → connected (m.hub.chan k) ≡ true
          → Sublistᴰ (got ++ queue (m.hub.chan k)) hist
      pub unmade : m.hub.next_chan ≤ k → got ≡ []
      pub pending : Pending g
