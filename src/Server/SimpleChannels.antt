-- ===== src/Server/SimpleChannels.antt =====
-- Channels as records of their contents: an instance of the interface `Channels`.
use rust_streaming_quotes.Base.{
  ℕ, ◌<◌, ◌≤◌, ◌≡◌, refl, arith, Bool, true, false, List, [], ◌∷◌, ◌++◌, ltb, length, if◌then◌else◌,
}
use rust_streaming_quotes.Core.Types.{StockQuote}
use rust_streaming_quotes.Server.Channel.{Channels, behind, SendResult, sent, full, disconnected}

pub record Chan : Type 0 where
  pub queue : List StockQuote
  pub capacity : ℕ
  pub connected : Bool

abbrev empty_chan : ℕ → Chan
empty_chan n = record { queue = []; capacity = n; connected = true }

unfoldable pub send : StockQuote → Chan → Chan × SendResult
send q c =
    if c.connected
    then (if ltb (length c.queue) c.capacity
        then (record c { queue = c.queue ++ q ∷ [] }, sent)
        else (c, full))
    else (c, disconnected)

abbrev take_first : Chan → Chan
take_first c = record c { queue = behind c.queue }

abbrev hang_up : Chan → Chan
hang_up c = record c { queue = []; connected = false }

pub send_dead : (q : StockQuote) (c : Chan) → c.connected ≡ false → send q c ≡ (c, disconnected)
unfolding send
send_dead q c h = rw h

pub send_full :
    (q : StockQuote) (c : Chan)
    → c.connected ≡ true
    → c.capacity ≤ length c.queue
    → send q c ≡ (c, full)
unfolding send
send_full q c h l =
    let no_room : ltb (length c.queue) c.capacity ≡ false = ground arith in rw (h, no_room)

pub send_room :
    (q : StockQuote) (c : Chan)
    → c.connected ≡ true
    → length c.queue < c.capacity
    → ((send q c).0.queue ≡ c.queue ++ q ∷ [])
      × ((send q c).0.capacity ≡ c.capacity)
      × ((send q c).0.connected ≡ true)
      × ((send q c).1 ≡ sent)
unfolding send
send_room q c h l = (ground arith, ground arith, ground arith, ground arith)

abbrev pub simple_channels : Channels StockQuote
simple_channels = record {
  Chan = Chan;
  bounded = empty_chan;
  try_send = send;
  recv = take_first;
  drop_receiver = hang_up;
  queue = λ c. c.queue;
  capacity = λ c. c.capacity;
  connected = λ c. c.connected;
  bounded_lem = λ n h. (refl, refl, refl);
  try_send_dead = send_dead;
  try_send_full = send_full;
  try_send_room = send_room;
  recv_lem = λ c. (refl, refl, refl);
  drop_receiver_lem = λ c. (refl, refl, omega arith);
}
