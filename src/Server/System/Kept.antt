-- ===== src/Server/System/Kept.antt =====
-- On the connections of the server: a step of one keeps what holds of all of them.
use rust_streaming_quotes.Base.{
  ℕ, suc, ◌+◌, ◌-◌, ◌^◌, ◌<◌, ◌≤◌, ◌≡◌, ◌≢◌, ◌==◌, refl, arith, All-map, Bool, true, false, Option,
  none, some, List, [], ◌∷◌, if◌then◌else◌, inl, inr, ◌⊎◌, All,
}
use rust_streaming_quotes.Assoc.{lookup}
use rust_streaming_quotes.Core.Types.{StockQuote}
use rust_streaming_quotes.Server.Channel.{Channels}
use rust_streaming_quotes.Server.Hub.{ClientId}
use rust_streaming_quotes.Server.System.{
  ConnPc, move_to, Memory, Move, take_id, GenPc, resting, sending, removing,
}
use rust_streaming_quotes.Server.System.Facts.{
  ident, held, registered, coming, Inv, IsSeen, IsDoomed, GenInv,
}
use rust_streaming_quotes.Server.System.Moves.{
  Move-IsValid, ident-back, held-back, coming-back, registered-back, next_chan-grows, started-grows,
  vacant-kept, entry-kept, connected-kept, own-live, All-kept,
}

module _ {A : Type 0} (f : ConnPc → Option A) {p o : ConnPc} {x : A} where
  by_test :
      (b : Bool)
      → f (if b then p else o) ≡ some x
      → ((b ≡ true) × (f p ≡ some x)) ⊎ ((b ≡ false) × (f o ≡ some x))
  by_test true e = inl (refl, e)
  by_test false e = inr (refl, e)

-- The moved connection, or another one.
pub at-move_to :
    {A : Type 0} (f : ConnPc → Option A) (conn : ℕ → ConnPc) (i j : ℕ) {p : ConnPc} {x : A}
    → f (move_to conn i p j) ≡ some x
    → ((j ≡ i) × (f p ≡ some x)) ⊎ ((j ≢ i) × (f (conn j) ≡ some x))
at-move_to f conn i j e = elim (by_test f (j == i) e) [
  | inl h ↦ inl (ground arith, h.1)
  | inr h ↦ inr (ground arith, h.1)
]

coming-ident : (p : ConnPc) (x : ℕ) → coming p ≡ some x → ident p ≡ some x
coming-ident p x e = ground arith

registered-ident : (p : ConnPc) (x rx : ℕ) → registered p ≡ some (x, rx) → ident p ≡ some x
registered-ident p x rx e = ground arith

registered-held : (p : ConnPc) (x rx : ℕ) → registered p ≡ some (x, rx) → held p ≡ some rx
registered-held p x rx e = ground arith

module _ (channels : Channels StockQuote) where
  open channels use {connected}

  module _ {m m' : Memory channels} {conn : ℕ → ConnPc} (inv : Inv channels m conn) (i : ℕ)
      {p p' : ConnPc} (here : conn i ≡ p) (mv : Move channels m p m' p') where
    open inv use {valid, counted, known, below, own_id, in_store, own_rx, vacant, live}

    other_id : (j x : ℕ) → j ≢ i → ident (conn j) ≡ some x → ident p ≢ some x
    other_id j x n e e' = ground (arith, own_id j i x e)

    other_rx : (j x : ℕ) → j ≢ i → held (conn j) ≡ some x → held p ≢ some x
    other_rx j x n e e' = ground (arith, own_rx j i x e)

    -- The holder of a number behind the step held it before, or has just taken it.
    ident-was :
        (j x : ℕ)
        → ident (move_to conn i p' j) ≡ some x
        → (ident (conn j) ≡ some x)
          ⊎ ((j ≡ i) × (x ≡ m.curr_client_id) × (m'.started ≡ suc m.started))
    ident-was j x e = elim (at-move_to ident conn i j e) [
      | inr h ↦ inl h.1
      | inl h ↦ ground (arith, ident-back channels mv h.1)
    ]

    held-was :
        (j x : ℕ)
        → held (move_to conn i p' j) ≡ some x
        → (held (conn j) ≡ some x)
          ⊎ ((j ≡ i) × (x ≡ m.hub.next_chan) × (m'.hub.next_chan ≡ suc m.hub.next_chan))
    held-was j x e = elim (at-move_to held conn i j e) [
      | inr h ↦ inl h.1
      | inl h ↦ ground (arith, held-back channels mv h.1)
    ]

    Move-counted : m'.started < 2 ^ 64 - 1 → m'.curr_client_id ≡ m'.started + 1
    Move-counted l = go mv l
      where
        go :
            {p p' : ConnPc} {m' : Memory channels}
            → Move channels m p m' p'
            → m'.started < 2 ^ 64 - 1
            → m'.curr_client_id ≡ m'.started + 1
        go take_id l = ground (arith, counted)
        go mv l = counted

    module _ (l : m'.started < 2 ^ 64 - 1) where
      id-grows : m.curr_client_id ≤ m'.curr_client_id
      id-grows = omega (arith, counted, Move-counted l, started-grows channels mv)

      Move-known : All (λ e. e.0 < m'.curr_client_id) m'.hub.clients
      Move-known =
          All-kept channels (λ e. e.0 < m'.curr_client_id) mv
            (λ cid e. ground (arith, below i cid, coming-ident p cid e, id-grows))
            (All-map (λ e h. omega (arith, h, id-grows)) m.hub.clients known)

      Move-below : (j x : ℕ) → ident (move_to conn i p' j) ≡ some x → x < m'.curr_client_id
      Move-below j x e =
          ground (arith, ident-was j x e, below j x, id-grows, counted, Move-counted l)

    Move-own_id :
        (j k x : ℕ)
        → ident (move_to conn i p' j) ≡ some x
        → ident (move_to conn i p' k) ≡ some x
        → j ≡ k
    Move-own_id j k x e e' =
        ground (arith, ident-was j x e, ident-was k x e', below j x, below k x, own_id j k x)

    Move-in_store : (j x : ℕ) → held (move_to conn i p' j) ≡ some x → x < m'.hub.next_chan
    Move-in_store j x e = ground (arith, held-was j x e, in_store j x, next_chan-grows channels mv)

    Move-own_rx :
        (j k x : ℕ)
        → held (move_to conn i p' j) ≡ some x
        → held (move_to conn i p' k) ≡ some x
        → j ≡ k
    Move-own_rx j k x e e' =
        ground (arith, held-was j x e, held-was k x e', in_store j x, in_store k x, own_rx j k x)

    known_vacant : (x : ℕ) → m.curr_client_id ≤ x → lookup ◌==◌ x m.hub.clients ≡ none
    unfolding lookup
    known_vacant x l = go m.hub.clients known
      where
        go :
            (es : List (ClientId × ℕ))
            → All (λ e. e.0 < m.curr_client_id) es
            → lookup ◌==◌ x es ≡ none
        go [] h = refl
        go ((cid, tx) ∷ es) h = ground (arith, go es h.1)

    Move-vacant :
        (j x : ℕ) → coming (move_to conn i p' j) ≡ some x → lookup ◌==◌ x m'.hub.clients ≡ none
    Move-vacant j x e = elim (at-move_to coming conn i j e) [
      | inl h ↦
          let (at, same) = coming-back channels mv h.1 in rw same (known_vacant x (omega arith))
      | inr h ↦
          vacant-kept channels mv
            (λ c. other_id j x h.0 (coming-ident (conn j) x h.1) (coming-ident p x c))
            (vacant j x h.1)
    ]

    Move-live :
        (j x rx : ℕ)
        → registered (move_to conn i p' j) ≡ some (x, rx)
        → (lookup ◌==◌ x m'.hub.clients ≡ some rx) × (connected (m'.hub.chan rx) ≡ true)
    Move-live j x rx e = elim (at-move_to registered conn i j e) [
      | inl h ↦ own-live channels mv valid (rw (← here) (live i)) h.1
      | inr h ↦
          let (entry, open') = live j x rx h.1 in
          let rx_held = registered-held (conn j) x rx h.1 in
          (
            entry-kept channels mv (other_id j x h.0 (registered-ident (conn j) x rx h.1)) entry,
            connected-kept channels mv (other_rx j rx h.0 rx_held) (in_store j rx rx_held) open',
          )
    ]

    pub Move-Inv : m'.started < 2 ^ 64 - 1 → Inv channels m' (move_to conn i p')
    Move-Inv l = record {
      valid = Move-IsValid channels mv valid;
      counted = Move-counted l;
      known = Move-known l;
      below = Move-below l;
      own_id = Move-own_id;
      in_store = Move-in_store;
      own_rx = Move-own_rx;
      vacant = Move-vacant;
      live = Move-live;
    }

    coming-new :
        (j x : ℕ)
        → coming (move_to conn i p' j) ≡ some x
        → (coming (conn j) ≡ some x) ⊎ (x ≡ m.curr_client_id)
    coming-new j x e = elim (at-move_to coming conn i j e) [
      | inr h ↦ inl h.1
      | inl h ↦ inr (coming-back channels mv h.1).0
    ]

    registered-new :
        (j x rx : ℕ)
        → registered (move_to conn i p' j) ≡ some (x, rx)
        → (registered (conn j) ≡ some (x, rx)) ⊎ (coming (conn j) ≡ some x)
    registered-new j x rx e = elim (at-move_to registered conn i j e) [
      | inr h ↦ inl h.1
      | inl h ↦ ground (arith, registered-back channels mv h.1)
    ]

    Move-IsSeen :
        m'.started < 2 ^ 64 - 1
        → (e : ClientId × ℕ) → IsSeen channels m conn e
        → IsSeen channels m' (move_to conn i p') e
    Move-IsSeen l (cid, tx) s = record {
      old = omega (arith, s.old, id-grows l);
      not_coming = λ j c. ground (arith, coming-new j cid c, s.not_coming j, s.old);
      same_rx = λ j rx c. ground (arith, registered-new j cid rx c, s.not_coming j, s.same_rx j rx);
    }

    Move-IsDoomed :
        m'.started < 2 ^ 64 - 1
        → (cid : ClientId) → IsDoomed channels m conn cid
        → IsDoomed channels m' (move_to conn i p') cid
    Move-IsDoomed l cid s = record {
      old = omega (arith, s.old, id-grows l);
      not_coming = λ j c. ground (arith, coming-new j cid c, s.not_coming j, s.old);
      not_live =
          λ j rx c. ground (arith, registered-new j cid rx c, s.not_coming j, s.not_live j rx);
    }

    pub Move-GenInv :
        m'.started < 2 ^ 64 - 1
        → (g : GenPc channels) → GenInv channels m conn g
        → GenInv channels m' (move_to conn i p') g
    Move-GenInv l resting h = tt
    Move-GenInv l (sending q rest t) h =
        (All-map (Move-IsSeen l) rest h.0, All-map (Move-IsDoomed l) t.dropped_disconnected h.1)
    Move-GenInv l (removing cids) h = All-map (Move-IsDoomed l) cids h
