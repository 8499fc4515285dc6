-- ===== src/Server/Hub.antt =====
-- quote-server/src/hub.rs. The mutex makes each access of the registry one step, and a poisoned
-- mutex is entered all the same, so the registry is a plain field; a `Sender` and its `Receiver`
-- share a channel of the store, which both name by its number.
pub mod Loop
pub mod Invariant
pub mod Runs
pub mod Delivery
pub mod Registry
use rust_streaming_quotes.Base.{
  ℕ, suc, ◌+◌, ◌%◌, ◌^◌, Bool, true, false, Option, none, some, List, [], ◌∷◌, ◌++◌, ◌==◌, ltb,
  if◌then◌else◌, Result, ok, err, codes, length,
}
use rust_streaming_quotes.Assoc.{lookup, remove, update}
use rust_streaming_quotes.Text.{Text}
use rust_streaming_quotes.Text.Decimal.{display_nat}
use rust_streaming_quotes.Core.Types.{StockQuote}
use rust_streaming_quotes.Server.Channel.{Channels, SendResult, sent, full, disconnected}

-- `u64`.
abbrev pub ClientId : Type 0
ClientId = ℕ

-- `a + b` in `usize` (64 bits).
abbrev pub add_usize : ℕ → ℕ → ℕ
add_usize a b = (a + b) % 2 ^ 64

pub data HubError : Type 0 where
  client_already_exists : ClientId → HubError

unfoldable pub display_hub_error : HubError → Text
unfolding display_nat
display_hub_error (client_already_exists cid) = codes "client already exists: " ++ display_nat cid

pub record BroadcastStats : Type 0 where
  pub sent_count : ℕ
  pub dropped_full : ℕ
  pub dropped_dead : ℕ

unfoldable pub display_stats : BroadcastStats → Text
unfolding display_nat
display_stats st =
    codes "sent="
    ++ (display_nat st.sent_count
        ++ (codes " dropped_full="
            ++ (display_nat st.dropped_full
                ++ (codes " dropped_dead=" ++ display_nat st.dropped_dead))))

unfoldable pub not_empty : BroadcastStats → Bool
not_empty st =
    if ltb 0 (add_usize (add_usize st.sent_count st.dropped_dead) st.dropped_full)
    then true
    else false

module _ (channels : Channels StockQuote) where
  open channels use {Chan, bounded, try_send, recv, drop_receiver}

  pub record Hub : Type 0 where
    pub clients : List (ClientId × ℕ)
    pub capacity_per_client : ℕ
    pub chan : ℕ → Chan
    pub next_chan : ℕ

  -- `Hub::new`, in a store in which the channels from `next` on are not in use.
  unfoldable pub new : (ℕ → Chan) → ℕ → Hub
  new chan next = record { clients = []; capacity_per_client = 256; chan = chan; next_chan = next }

  unfoldable pub add_client : Hub → ClientId → Hub × Result ℕ HubError
  unfolding lookup
  add_client hub cid = elim (lookup ◌==◌ cid hub.clients) [
    | some tx ↦ (hub, err (client_already_exists cid))
    | none ↦ (
      record hub {
        clients = (cid, hub.next_chan) ∷ hub.clients;
        chan = update hub.chan hub.next_chan (bounded hub.capacity_per_client);
        next_chan = suc hub.next_chan;
      },
      ok hub.next_chan,
    )
  ]

  pub is_some : Option ℕ → Bool
  is_some none = false
  is_some (some tx) = true

  unfoldable pub remove_client : Hub → ClientId → Hub × Bool
  unfolding lookup remove is_some
  remove_client hub cid =
      (record hub { clients = remove ◌==◌ cid hub.clients }, is_some (lookup ◌==◌ cid hub.clients))

  -- What the holder of a receiver does with it: it takes a message, or lets it go out of scope.
  unfoldable pub take_rx : ℕ → Hub → Hub
  take_rx rx hub = record hub { chan = update hub.chan rx (recv (hub.chan rx)) }

  unfoldable pub drop_rx : ℕ → Hub → Hub
  drop_rx rx hub = record hub { chan = update hub.chan rx (drop_receiver (hub.chan rx)) }

  -- The variables of the loop of `broadcast`.
  pub record Progress : Type 0 where
    pub store : ℕ → Chan
    pub sent_count : ℕ
    pub dropped_full : ℕ
    pub dropped_disconnected : List ClientId

  unfoldable pub tally : ClientId → SendResult → Progress → Progress
  tally cid sent p = record p { sent_count = add_usize p.sent_count 1 }
  tally cid disconnected p = record p { dropped_disconnected = p.dropped_disconnected ++ cid ∷ [] }
  tally cid full p = record p { dropped_full = add_usize p.dropped_full 1 }

  unfoldable pub send_one : StockQuote → ClientId → ℕ → Progress → Progress
  unfolding tally
  send_one q cid tx p =
      let (c, result) = try_send q (p.store tx) in
      tally cid result (record p { store = update p.store tx c })

  unfoldable pub send_loop : StockQuote → List (ClientId × ℕ) → Progress → Progress
  unfolding send_one
  send_loop q [] p = p
  send_loop q ((cid, tx) ∷ rest) p = send_loop q rest (send_one q cid tx p)

  unfoldable pub remove_clients : List ClientId → Hub → Hub
  unfolding remove_client
  remove_clients [] hub = hub
  remove_clients (cid ∷ cids) hub = remove_clients cids (remove_client hub cid).0

  -- The loop's variables before the first round.
  unfoldable pub start : Hub → Progress
  start hub = record {
    store = hub.chan;
    sent_count = 0;
    dropped_full = 0;
    dropped_disconnected = [];
  }

  unfoldable pub broadcast : Hub → StockQuote → Hub × BroadcastStats
  unfolding send_loop remove_clients start
  broadcast hub q =
      let snapshot = hub.clients in
      let p = send_loop q snapshot (start hub) in
      (
        remove_clients p.dropped_disconnected (record hub { chan = p.store }),
        record {
          sent_count = p.sent_count;
          dropped_full = p.dropped_full;
          dropped_dead = length p.dropped_disconnected;
        },
      )
