-- ===== src/Client/Udp/Receiver.antt =====
-- quote-client/src/udp.rs: `run_udp_receiver`.
pub mod Shown
use rust_streaming_quotes.Base.{
  ℕ, Bool, true, false, Option, none, some, List, [], ◌∷◌, ◌++◌, if◌then◌else◌, Result, ok, err,
  take,
}
use rust_streaming_quotes.Core.Net.{Net}
use rust_streaming_quotes.Core.Tickers.{IoError}
use rust_streaming_quotes.Core.Types.{StockQuote}
use rust_streaming_quotes.Core.Wire.{Bytes, UdpPacketV1, quote, ping, Postcard, decode}
use rust_streaming_quotes.Server.Channel.{SendResult, sent, full, disconnected}
use rust_streaming_quotes.Server.Ping.{
  buffer_size, is_tick, Status, running, stopped, failed, Received, datagram, broken,
}

module _ (net : Net) (post : Postcard) where
  open net use {SocketAddr}

  -- `peer` is the address that the socket is connected to, so `connected` is that there is one;
  -- `announced` are the addresses that were put into the channel of the ping thread, and `shown` the
  -- quotes that were printed, oldest first.
  pub record Receiver : Type 0 where
    pub peer : Option SocketAddr
    pub announced : List SocketAddr
    pub shown : List StockQuote

  -- What one round of the loop meets: the flag, the end of `recv_from` or `recv`, and the results of
  -- `connect` to the sender and of `try_send` to the ping thread, which may have ended.
  pub record ReceiveRound : Type 0 where
    pub shutdown : Bool
    pub received : Received net post
    pub connect : Result (Unit {0}) IoError
    pub try_send : SendResult

  unfoldable pub handle_pkt : UdpPacketV1 → Receiver → Receiver
  handle_pkt ping s = s
  handle_pkt (quote q) s = record s { shown = s.shown ++ q ∷ [] }

  -- The sender goes into the channel of the ping thread, unless that refuses it.
  unfoldable pub announce : SendResult → SocketAddr → Receiver → Receiver
  announce sent src s = record s { announced = s.announced ++ src ∷ [] }
  announce full src s = s
  announce disconnected src s = s

  -- The first packet, whose sender is the server.
  first_pkt :
      Result (Unit {0}) IoError
      → SendResult
      → UdpPacketV1
      → SocketAddr
      → Receiver
      → Receiver × Status
  unfolding handle_pkt announce
  first_pkt (err e) result pkt src s = (s, failed e)
  first_pkt (ok _) result pkt src s =
      (handle_pkt pkt (announce result src (record s { peer = some src })), running)

  -- A datagram, before and after the socket is connected.
  handle_bytes :
      Option SocketAddr
      → Result (Unit {0}) IoError
      → SendResult
      → Bytes
      → SocketAddr
      → Receiver
      → Receiver × Status
  unfolding first_pkt handle_pkt
  handle_bytes none connect result bytes src s = elim (decode post (take buffer_size bytes)) [
    | ok pkt ↦ first_pkt connect result pkt src s
    | err e ↦ (s, running)
  ]
  handle_bytes (some a) connect result bytes src s = elim (decode post (take buffer_size bytes)) [
    | ok pkt ↦ (handle_pkt pkt s, running)
    | err e ↦ (s, running)
  ]

  receive :
      Received net post → Result (Unit {0}) IoError → SendResult → Receiver → Receiver × Status
  unfolding handle_bytes is_tick decode
  receive (datagram bytes src) connect result s = handle_bytes s.peer connect result bytes src s
  receive (broken e) connect result s = if is_tick e.kind then (s, running) else (s, failed e)

  unfoldable pub receive_loop : List ReceiveRound → Receiver → Receiver × Status
  unfolding receive
  receive_loop [] s = (s, running)
  receive_loop (r ∷ rs) s =
      let (s', status) = receive r.received r.connect r.try_send s in
      let rest = receive_loop rs s' in
      if r.shutdown
      then (s, stopped)
      else elim status [ running ↦ rest | stopped ↦ (s', stopped) | failed e ↦ (s', failed e) ]

  abbrev pub fresh_receiver : Receiver
  fresh_receiver = record { peer = none; announced = []; shown = [] }

  -- `run_udp_receiver`: `bound` is the result of `bind` and `try_clone`. The last component is the
  -- flag that it leaves behind for the ping thread.
  unfoldable pub run_udp_receiver :
      Result (Unit {0}) IoError → List ReceiveRound → Bool → Receiver × Status × Bool
  unfolding receive_loop
  run_udp_receiver (err e) rounds shutdown = (fresh_receiver, failed e, shutdown)
  run_udp_receiver (ok _) rounds shutdown =
      let (s, status) = receive_loop rounds fresh_receiver in
      elim status [
        | running ↦ (s, running, shutdown)
        | stopped ↦ (s, stopped, true)
        | failed e ↦ (s, failed e, true)
      ]
