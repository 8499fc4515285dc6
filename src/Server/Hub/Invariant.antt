-- ===== src/Server/Hub/Invariant.antt =====
-- On quote-server/src/hub.rs: the well-formedness of the registry, over all operations.
use rust_streaming_quotes.Base.{
  ℕ, suc, ◌<◌, ◌≤◌, ◌≡◌, ◌≢◌, ap, sym, ◌∙◌, inl, inr, List, [], ◌∷◌, ◌==◌, length, length-append,
  arith, All, Bool-cases, none, Option-cases,
}
use rust_streaming_quotes.Assoc.{lookup, remove, update}
use rust_streaming_quotes.Core.Types.{StockQuote}
use rust_streaming_quotes.Server.Channel.{Channels, behind}
use rust_streaming_quotes.Server.Hub.{
  ClientId, Hub, new, add_client, remove_client, remove_clients, send_loop, broadcast, Progress,
  start, take_rx, drop_rx,
}
use rust_streaming_quotes.Server.Hub.Loop.{push, Apart, IsRegistry, view-try_send, send_loop-store}

module _ {κ} (P : ClientId × ℕ → Type κ) where
  pub All-remove : (cid : ℕ) (m : List (ClientId × ℕ)) → All P m → All P (remove ◌==◌ cid m)
  unfolding remove
  All-remove cid [] h = tt
  All-remove cid ((i, tx) ∷ m) h = elim (Bool-cases (cid == i)) [
    | inl e ↦ rw (e, All) (All-remove cid m h.1)
    | inr e ↦ rw (e, All) (h.0, All-remove cid m h.1)
  ]

remove-IsRegistry :
    (cid : ℕ) (m : List (ClientId × ℕ)) → IsRegistry m → IsRegistry (remove ◌==◌ cid m)
unfolding remove
remove-IsRegistry cid [] h = tt
remove-IsRegistry cid ((i, tx) ∷ m) h = elim (Bool-cases (cid == i)) [
  | inl e ↦ rw (e, IsRegistry) (remove-IsRegistry cid m h.1)
  | inr e ↦
      rw (e, IsRegistry)
        (All-remove (λ f. (f.0 ≢ i) × (f.1 ≢ tx)) cid m h.0, remove-IsRegistry cid m h.1)
]

-- Every channel in use was allocated.
abbrev pub Allocated : ℕ → List (ClientId × ℕ) → Type 0
Allocated next = All (λ e. e.1 < next)

fresh-Apart :
    (cid next : ℕ) (m : List (ClientId × ℕ))
    → lookup ◌==◌ cid m ≡ none
    → Allocated next m
    → Apart cid next m
unfolding lookup
fresh-Apart cid next [] h a = tt
fresh-Apart cid next ((i, tx) ∷ m) h a =
    ((λ e. ground arith, λ e. omega arith), fresh-Apart cid next m (ground arith) a.1)

Allocated-suc : (next : ℕ) (m : List (ClientId × ℕ)) → Allocated next m → Allocated (suc next) m
Allocated-suc next [] a = tt
Allocated-suc next ((i, tx) ∷ m) a = (omega arith, Allocated-suc next m a.1)

length-behind : (qs : List StockQuote) → length (behind qs) ≤ length qs
length-behind [] = omega arith
length-behind (q ∷ qs) = omega arith

module _ (channels : Channels StockQuote) where
  open channels use {
    Chan, bounded, queue, capacity, connected, bounded_lem, recv, drop_receiver, recv_lem,
    drop_receiver_lem,
  }

  -- A registered client's channel has the hub's capacity, and keeps to it.
  abbrev pub Sized : ℕ → (ℕ → Chan) → List (ClientId × ℕ) → Type 0
  Sized cap store = All (λ e. (capacity (store e.1) ≡ cap) × (length (queue (store e.1)) ≤ cap))

  pub record IsValid (hub : Hub channels) : Type 0 where
    pub registry : IsRegistry hub.clients
    pub allocated : Allocated hub.next_chan hub.clients
    pub sized : Sized hub.capacity_per_client hub.chan hub.clients
    pub room : 0 < hub.capacity_per_client

  Sized-update :
      (cap next : ℕ) (store : ℕ → Chan) (c : Chan) (m : List (ClientId × ℕ))
      → Allocated next m
      → Sized cap store m
      → Sized cap (update store next c) m
  Sized-update cap next store c [] a h = tt
  Sized-update cap next store c ((i, tx) ∷ m) a h =
      (ground arith, Sized-update cap next store c m a.1 h.1)

  -- A receiver's end of a channel may take a message or go, at any time.
  pub Sized-receiver :
      (cap k : ℕ) (store : ℕ → Chan) (c : Chan) (m : List (ClientId × ℕ))
      → capacity c ≡ capacity (store k)
      → length (queue c) ≤ length (queue (store k))
      → Sized cap store m
      → Sized cap (update store k c) m
  Sized-receiver cap k store c [] e l h = tt
  Sized-receiver cap k store c ((i, tx) ∷ m) e l h = (
    elim (Bool-cases (tx == k)) [
      | inl same ↦
          let at : tx ≡ k = ground arith in
          rw same (e ∙ ap (λ j. capacity (store j)) (sym at) ∙ h.0.0, ground arith)
      | inr other ↦ rw other h.0
    ],
    Sized-receiver cap k store c m e l h.1,
  )

  pub new-IsValid : (store : ℕ → Chan) (next : ℕ) → IsValid (new channels store next)
  unfolding new
  new-IsValid store next = record { registry = tt; allocated = tt; sized = tt; room = omega arith }

  pub add_client-IsValid :
      (hub : Hub channels) (cid : ℕ) → IsValid hub → IsValid (add_client channels hub cid).0
  unfolding add_client
  add_client-IsValid hub cid v = elim (Option-cases (lookup ◌==◌ cid hub.clients)) [
    | inr (tx, e) ↦ rw (e, add_client) v
    | inl e ↦
        rw (e, add_client)
          (record {
            registry = (fresh-Apart cid hub.next_chan hub.clients e v.allocated, v.registry);
            allocated = (omega arith, Allocated-suc hub.next_chan hub.clients v.allocated);
            sized = (
              ground (arith, bounded_lem hub.capacity_per_client v.room),
              Sized-update hub.capacity_per_client hub.next_chan hub.chan _ hub.clients v.allocated
                  v.sized,
            );
            room = v.room;
          })
  ]

  pub remove_client-IsValid :
      (hub : Hub channels) (cid : ℕ) → IsValid hub → IsValid (remove_client channels hub cid).0
  unfolding remove_client
  remove_client-IsValid hub cid v = record {
    registry = remove-IsRegistry cid hub.clients v.registry;
    allocated = All-remove (λ e. e.1 < hub.next_chan) cid hub.clients v.allocated;
    sized = All-remove _ cid hub.clients v.sized;
    room = v.room;
  }

  pub remove_clients-IsValid :
      (ids : List ClientId) (hub : Hub channels)
      → IsValid hub
      → IsValid (remove_clients channels ids hub)
  unfolding remove_clients
  remove_clients-IsValid [] hub v = v
  remove_clients-IsValid (cid ∷ ids) hub v =
      remove_clients-IsValid ids _ (remove_client-IsValid hub cid v)

  try_send_sized :
      (q : StockQuote) (cap : ℕ) (c : Chan)
      → capacity c ≡ cap
      → length (queue c) ≤ cap
      → (capacity (channels.try_send q c).0 ≡ cap)
        × (length (queue (channels.try_send q c).0) ≤ cap)
  unfolding push
  try_send_sized q cap c e h =
      ground (arith, (view-try_send channels q c).0, length-append (queue c) (q ∷ []))

  Sized-send :
      (q : StockQuote) (cap k : ℕ) (store : ℕ → Chan) (m : List (ClientId × ℕ))
      → Sized cap store m
      → Sized cap (update store k (channels.try_send q (store k)).0) m
  Sized-send q cap k store [] h = tt
  Sized-send q cap k store ((i, tx) ∷ m) h = (
    elim (Bool-cases (tx == k)) [
      | inl same ↦
          let at : tx ≡ k = ground arith in
          rw same (try_send_sized q cap (store k) (rw (← at) h.0.0) (rw (← at) h.0.1))
      | inr other ↦ rw other h.0
    ],
    Sized-send q cap k store m h.1,
  )

  loop-Sized :
      (q : StockQuote) (cap : ℕ) (p : Progress channels) (all m : List (ClientId × ℕ))
      → IsRegistry all
      → Sized cap p.store m
      → Sized cap (send_loop channels q all p).store m
  loop-Sized q cap p all [] r h = tt
  loop-Sized q cap p all ((i, tx) ∷ m) r h = (one, loop-Sized q cap p all m r h.1)
    where
      one :
          (capacity ((send_loop channels q all p).store tx) ≡ cap)
          × (length (queue ((send_loop channels q all p).store tx)) ≤ cap)
      one =
          rw (send_loop-store channels q all p tx r)
            (ground (arith, try_send_sized q cap (p.store tx) h.0.0 h.0.1))

  pub broadcast-IsValid :
      (hub : Hub channels) (q : StockQuote) → IsValid hub → IsValid (broadcast channels hub q).0
  unfolding broadcast start
  broadcast-IsValid hub q v =
      let p = send_loop channels q hub.clients (start channels hub) in
      remove_clients-IsValid p.dropped_disconnected (record hub { chan = p.store })
        (record {
          registry = v.registry;
          allocated = v.allocated;
          sized =
              loop-Sized q hub.capacity_per_client (start channels hub) hub.clients hub.clients
                v.registry v.sized;
          room = v.room;
        })

  pub take_rx-IsValid :
      (k : ℕ) (hub : Hub channels) → IsValid hub → IsValid (take_rx channels k hub)
  unfolding take_rx
  take_rx-IsValid k hub v =
      let (taken, size, _) = recv_lem (hub.chan k) in
      record {
        registry = v.registry;
        allocated = v.allocated;
        sized =
            Sized-receiver hub.capacity_per_client k hub.chan (recv (hub.chan k)) hub.clients size
              (rw taken (length-behind (queue (hub.chan k)))) v.sized;
        room = v.room;
      }

  pub drop_rx-IsValid :
      (k : ℕ) (hub : Hub channels) → IsValid hub → IsValid (drop_rx channels k hub)
  unfolding drop_rx
  drop_rx-IsValid k hub v =
      let (_, size, shorter) = drop_receiver_lem (hub.chan k) in
      record {
        registry = v.registry;
        allocated = v.allocated;
        sized =
            Sized-receiver hub.capacity_per_client k hub.chan (drop_receiver (hub.chan k))
              hub.clients size shorter v.sized;
        room = v.room;
      }

  -- One send of a broadcast.
  pub try_send-IsValid :
      (q : StockQuote) (k : ℕ) (hub : Hub channels)
      → IsValid hub
      → IsValid (record hub { chan = update hub.chan k (channels.try_send q (hub.chan k)).0 })
  try_send-IsValid q k hub v = record {
    registry = v.registry;
    allocated = v.allocated;
    sized = Sized-send q hub.capacity_per_client k hub.chan hub.clients v.sized;
    room = v.room;
  }
