-- ===== src/Server/Ping.antt =====
-- quote-server/src/udp_ping.rs: one thread that notes when each address last sent a ping.
pub mod Timers
use rust_streaming_quotes.Base.{
  ℕ, Bool, true, false, Option, none, some, List, [], ◌∷◌, ◌==◌, ◌||◌, if◌then◌else◌, Result, ok,
  err, take,
}
use rust_streaming_quotes.Assoc.{lookup, remove, insert}
use rust_streaming_quotes.Core.Net.{Net}
use rust_streaming_quotes.Core.Tickers.{
  IoError, ErrorKind, would_block, timed_out, not_found, other,
}
use rust_streaming_quotes.Core.Wire.{Bytes, UdpPacketV1, quote, ping, Postcard, decode}

-- `Instant`, in nanoseconds.
abbrev pub Instant : Type 0
Instant = ℕ

-- The size of the receive buffer; the rest of a longer datagram is lost.
abbrev pub buffer_size : ℕ
buffer_size = 2048

-- The kinds of error that only mean that nothing arrived in time.
unfoldable pub is_tick : ErrorKind → Bool
is_tick would_block = true
is_tick timed_out = true
is_tick not_found = false
is_tick other = false

-- How far a thread has come: its loop runs on, or it returned `Ok(())` or an error.
pub data Status : Type 0 where
  running stopped : Status
  failed : IoError → Status

module _ (net : Net) (post : Postcard) where
  open net use {SocketAddr, addr_eq}

  abbrev pub LastPingMap : Type 0
  LastPingMap = List (SocketAddr × Instant)

  -- `recv_from`: a datagram and its sender, or an error.
  pub data Received : Type 0 where
    datagram : Bytes → SocketAddr → Received
    broken : IoError → Received

  -- What one round of the loop meets: the flag, the end of the wait, the clock, and the addresses
  -- whose entries ending sessions removed since the last round (there is no other writer).
  pub record Round : Type 0 where
    pub shutdown : Bool
    pub received : Received
    pub now : Instant
    pub removed : List SocketAddr

  unfoldable pub remove_all : List SocketAddr → LastPingMap → LastPingMap
  unfolding remove
  remove_all [] map = map
  remove_all (a ∷ as') map = remove_all as' (remove addr_eq a map)

  -- The arms for `decode(&buf[..n])`.
  handle_datagram : Bytes → SocketAddr → Instant → LastPingMap → LastPingMap
  handle_datagram bytes src now map = elim (decode post (take buffer_size bytes)) [
    | ok pkt ↦ elim pkt [ ping ↦ insert addr_eq src now map | quote q ↦ map ]
    | err e ↦ map
  ]

  -- One `recv_from`, and whether the loop goes on.
  handle_received : Received → Instant → LastPingMap → LastPingMap × Status
  unfolding handle_datagram is_tick insert decode
  handle_received (datagram bytes src) now map = (handle_datagram bytes src now map, running)
  handle_received (broken e) now map = if is_tick e.kind then (map, running) else (map, failed e)

  -- The loop on the rounds that take place; it is still running when they are used up.
  ping_loop : List Round → LastPingMap → LastPingMap × Status
  unfolding handle_received remove_all
  ping_loop [] map = (map, running)
  ping_loop (r ∷ rs) map =
      let current = remove_all r.removed map in
      let (map', status) = handle_received r.received r.now current in
      let rest = ping_loop rs map' in
      if r.shutdown
      then (current, stopped)
      else elim status [ running ↦ rest | stopped ↦ (map', stopped) | failed e ↦ (map', failed e) ]

  -- `timeout_set` is the result of `set_read_timeout`.
  unfoldable pub run_udp_ping_listener :
      Result (Unit {0}) IoError → List Round → LastPingMap → LastPingMap × Status
  unfolding ping_loop
  run_udp_ping_listener (ok _) rounds map = ping_loop rounds map
  run_udp_ping_listener (err e) rounds map = (map, failed e)
