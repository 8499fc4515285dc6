-- ===== src/Server/System/Facts.antt =====
-- On the threads of the server: what holds between any two steps.
use rust_streaming_quotes.Base.{ℕ, ◌+◌, ◌<◌, ◌≡◌, ◌≢◌, ◌==◌, true, Option, none, some, All}
use rust_streaming_quotes.Assoc.{lookup}
use rust_streaming_quotes.Core.Types.{StockQuote}
use rust_streaming_quotes.Server.Channel.{Channels}
use rust_streaming_quotes.Server.Hub.{ClientId}
use rust_streaming_quotes.Server.Hub.Invariant.{IsValid}
use rust_streaming_quotes.Server.System.{
  ConnPc, entering, welcomed, unwritten, dropping, serving, leaving, GenPc, resting, sending,
  removing, Memory,
}

-- The client number of a connection, from `fetch_add` to the removal.
abbrev pub ident : ConnPc → Option ℕ
ident (entering cid) = some cid
ident (welcomed cid rx) = some cid
ident (unwritten cid rx) = some cid
ident (serving cid rx) = some cid
ident (leaving cid) = some cid
ident _ = none

-- The receiver that a connection holds.
abbrev pub held : ConnPc → Option ℕ
held (welcomed cid rx) = some rx
held (unwritten cid rx) = some rx
held (dropping rx) = some rx
held (serving cid rx) = some rx
held _ = none

-- The registration that a connection counts on.
abbrev pub registered : ConnPc → Option (ℕ × ℕ)
registered (welcomed cid rx) = some (cid, rx)
registered (serving cid rx) = some (cid, rx)
registered _ = none

-- The connection stands before its registration.
abbrev pub coming : ConnPc → Option ℕ
coming (entering cid) = some cid
coming _ = none

module _ (channels : Channels StockQuote) where
  open channels use {connected}

  -- What holds of the connections and the memory.
  pub record Inv (m : Memory channels) (conn : ℕ → ConnPc) : Type 0 where
    pub valid : IsValid channels m.hub
    pub counted : m.curr_client_id ≡ m.started + 1
    pub known : All (λ e. e.0 < m.curr_client_id) m.hub.clients
    pub below : (i cid : ℕ) → ident (conn i) ≡ some cid → cid < m.curr_client_id
    pub own_id : (i j cid : ℕ) → ident (conn i) ≡ some cid → ident (conn j) ≡ some cid → i ≡ j
    pub in_store : (i rx : ℕ) → held (conn i) ≡ some rx → rx < m.hub.next_chan
    pub own_rx : (i j rx : ℕ) → held (conn i) ≡ some rx → held (conn j) ≡ some rx → i ≡ j
    pub vacant : (i cid : ℕ) → coming (conn i) ≡ some cid → lookup ◌==◌ cid m.hub.clients ≡ none
    pub live :
        (i cid rx : ℕ)
        → registered (conn i) ≡ some (cid, rx)
        → (lookup ◌==◌ cid m.hub.clients ≡ some rx) × (connected (m.hub.chan rx) ≡ true)

  -- An entry of a snapshot is of no connection that is still to be registered, and names the receiver
  -- of the connection that counts on it.
  pub record IsSeen (m : Memory channels) (conn : ℕ → ConnPc) (e : ClientId × ℕ) : Type 0 where
    pub old : e.0 < m.curr_client_id
    pub not_coming : (i : ℕ) → coming (conn i) ≢ some e.0
    pub same_rx : (i rx : ℕ) → registered (conn i) ≡ some (e.0, rx) → rx ≡ e.1

  -- No connection counts on the registration of this client.
  pub record IsDoomed (m : Memory channels) (conn : ℕ → ConnPc) (cid : ClientId) : Type 0 where
    pub old : cid < m.curr_client_id
    pub not_coming : (i : ℕ) → coming (conn i) ≢ some cid
    pub not_live : (i rx : ℕ) → registered (conn i) ≢ some (cid, rx)

  -- What holds of the generator.
  abbrev pub GenInv : Memory channels → (ℕ → ConnPc) → GenPc channels → Type 0
  GenInv m conn resting = Unit
  GenInv m conn (sending q rest p) =
      All (IsSeen m conn) rest × All (IsDoomed m conn) p.dropped_disconnected
  GenInv m conn (removing cids) = All (IsDoomed m conn) cids
