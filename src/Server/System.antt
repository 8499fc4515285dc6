-- ===== src/Server/System.antt =====
-- The threads of the server around the hub, interleaved in any order: the connections, which run
-- `handle_conn` of quote-server/src/tcp.rs, and the generator of quote-server/src/main.rs, which runs
-- `Hub::broadcast` of quote-server/src/hub.rs. The hub's mutex and each channel operation make one
-- step each; a broadcast holds the mutex for its snapshot and for each removal only.
pub mod Facts
pub mod Moves
pub mod Kept
pub mod Broadcasts
pub mod Interleaved
pub mod Owned
pub mod Due
pub mod Swept
pub mod Atomic
pub mod Order
use rust_streaming_quotes.Base.{
  ℕ, suc, ◌+◌, ◌%◌, ◌^◌, ◌≡◌, ◌==◌, Bool, true, false, Option, none, some, List, [], ◌∷◌,
  if◌then◌else◌, Result, ok, err,
}
use rust_streaming_quotes.Assoc.{lookup}
use rust_streaming_quotes.Core.Types.{StockQuote}
use rust_streaming_quotes.Server.Channel.{Channels}
use rust_streaming_quotes.Server.Hub.{
  ClientId, Hub, HubError, Progress, new, add_client, remove_client, take_rx, drop_rx, send_one,
  start,
}

-- Where a connection stands, with its client number and its receiver where it has them.
pub data ConnPc : Type 0 where
  reading : ConnPc  -- before the command is parsed
  entering : ClientId → ConnPc  -- behind `fetch_add`, before `add_client`
  welcomed : ClientId → ℕ → ConnPc  -- before `OK` is written
  unwritten : ClientId → ℕ → ConnPc  -- the write failed, before `remove_client`
  dropping : ℕ → ConnPc  -- the write failed, before the receiver is dropped
  serving : ClientId → ℕ → ConnPc  -- in `run_session`
  leaving : ClientId → ConnPc  -- behind `run_session`, before `remove_client`
  finished : ConnPc

-- `f` with thread `i` at `a`.
abbrev pub move_to {ℓ} : {A : Type ℓ} → (ℕ → A) → ℕ → A → ℕ → A
move_to f i a j = if j == i then a else f j

module _ (channels : Channels StockQuote) where
  -- Where the generator stands in `broadcast`: the rest of the snapshot and the loop's variables,
  -- of which `store` is out of date; or the clients that are still to be removed.
  pub data GenPc : Type 0 where
    resting : GenPc
    sending : StockQuote → List (ClientId × ℕ) → Progress channels → GenPc
    removing : List ClientId → GenPc

  -- `started` counts the commands that were parsed; the program does not have it.
  pub record Memory : Type 0 where
    pub hub : Hub channels
    pub curr_client_id : ℕ
    pub started : ℕ

  -- One step of a connection.
  pub data Move (m : Memory) : ConnPc → Memory → ConnPc → Type 0 where
    refuse_command : Move m reading m finished
    take_id :
        Move m reading
          (record m { curr_client_id = (m.curr_client_id + 1) % 2 ^ 64; started = suc m.started })
          (entering m.curr_client_id)
    register :
        {cid rx : ℕ}
        → (add_client channels m.hub cid).1 ≡ ok rx
        → Move m
            (entering cid)
            (record m { hub = (add_client channels m.hub cid).0 })
            (welcomed cid rx)
    reject :
        {cid : ℕ} {e : HubError}
        → (add_client channels m.hub cid).1 ≡ err e
        → Move m (entering cid) m finished
    answer : {cid rx : ℕ} → Move m (welcomed cid rx) m (serving cid rx)
    write_fails : {cid rx : ℕ} → Move m (welcomed cid rx) m (unwritten cid rx)
    unregister :
        {cid rx : ℕ}
        → Move m
            (unwritten cid rx)
            (record m { hub = (remove_client channels m.hub cid).0 })
            (dropping rx)
    hang_up :
        {rx : ℕ} → Move m (dropping rx) (record m { hub = drop_rx channels rx m.hub }) finished
    flush_fails :
        {cid rx : ℕ}
        → Move m (welcomed cid rx) (record m { hub = drop_rx channels rx m.hub }) finished
    receive :
        {cid rx : ℕ}
        → Move m (serving cid rx) (record m { hub = take_rx channels rx m.hub }) (serving cid rx)
    end_session :
        {cid rx : ℕ}
        → Move m (serving cid rx) (record m { hub = drop_rx channels rx m.hub }) (leaving cid)
    leave :
        {cid : ℕ}
        → Move m (leaving cid) (record m { hub = (remove_client channels m.hub cid).0 }) finished

  -- The loop's variables after one more send, on the channels as they are now.
  abbrev pub sent_to : Memory → StockQuote → ClientId → ℕ → Progress channels → Progress channels
  sent_to m q cid tx p = send_one channels q cid tx (record p { store = m.hub.chan })

  -- One step of the generator.
  pub data GenMove (m : Memory) : GenPc → Memory → GenPc → Type 0 where
    snapshot :
        {q : StockQuote} → GenMove m resting m (sending q m.hub.clients (start channels m.hub))
    send :
        {q : StockQuote} {cid tx : ℕ} {rest : List (ClientId × ℕ)} {p : Progress channels}
        → GenMove m
            (sending q ((cid, tx) ∷ rest) p)
            (record m { hub = record m.hub { chan = (sent_to m q cid tx p).store } })
            (sending q rest (sent_to m q cid tx p))
    all_sent :
        {q : StockQuote} {p : Progress channels}
        → GenMove m (sending q [] p) m (removing p.dropped_disconnected)
    remove_dead :
        {cid : ClientId} {cids : List ClientId}
        → GenMove m
            (removing (cid ∷ cids))
            (record m { hub = (remove_client channels m.hub cid).0 })
            (removing cids)
    all_removed : GenMove m (removing []) m resting

  -- A connection that has not been accepted yet stands at `reading`.
  pub record System : Type 0 where
    pub mem : Memory
    pub conn : ℕ → ConnPc
    pub gen : GenPc

  pub data Step (s : System) : System → Type 0 where
    of_conn :
        (i : ℕ) {m : Memory} {p : ConnPc}
        → Move s.mem (s.conn i) m p
        → Step s (record s { mem = m; conn = move_to s.conn i p })
    of_gen :
        {m : Memory} {g : GenPc} → GenMove s.mem s.gen m g → Step s (record s { mem = m; gen = g })

  -- `main`, behind the start of its threads.
  abbrev pub initial : (ℕ → channels.Chan) → ℕ → System
  initial chan next = record {
    mem = record { hub = new channels chan next; curr_client_id = 1; started = 0 };
    conn = λ i. reading;
    gen = resting;
  }

  pub data Reach (chan : ℕ → channels.Chan) (next : ℕ) : System → Type 0 where
    begin : Reach chan next (initial chan next)
    later : {s t : System} → Reach chan next s → Step s t → Reach chan next t

  -- The steps from one system to another, oldest first.
  pub data Steps (t : System) : System → Type 0 where
    done : Steps t t
    then : {s u : System} → Step s u → Steps t u → Steps t s
