-- ===== src/Client/Udp/Ping.antt =====
-- quote-client/src/udp.rs: `run_ping`, the thread that keeps the subscription alive. `shutdown t` is
-- what a read of the flag at time `t` returns; how long sleeps and sends take is a parameter.
use rust_streaming_quotes.Base.{
  ℕ, zero, suc, ◌+◌, ◌-◌, ◌≤◌, Bool, true, false, ◌&&◌, not, Option, none, some, List, [], ◌∷◌, ltb,
  if◌then◌else◌, Result, ok, err,
}
use rust_streaming_quotes.Core.Constants.{from_millis}
use rust_streaming_quotes.Core.Error.{WireError}
use rust_streaming_quotes.Core.Net.{Net}
use rust_streaming_quotes.Core.Tickers.{IoError}
use rust_streaming_quotes.Core.Wire.{Bytes, ping, Postcard, encode_v1}
use rust_streaming_quotes.Server.Ping.{Instant}

abbrev pub tick_rate_ms : ℕ
tick_rate_ms = 200

unfoldable pub min : ℕ → ℕ → ℕ
min a b = if ltb b a then b else a

-- How time passes from one read of the flag at `t` to the next one. Behind the outer loop's, the
-- datagram leaves at `leaves t` and `send_to` returns at `returns t`; behind the inner loop's, a
-- sleep for `step` ends at `wakes t step`, which `std::thread::sleep` promises not to be too early. An
-- inner loop that finds the flag set and the outer loop behind it count as one read.
pub record Clock : Type 0 where
  pub leaves : Instant → Instant
  pub returns : Instant → Instant
  pub wakes : Instant → ℕ → Instant
  pub leaves_lem : (t : Instant) → t ≤ leaves t
  pub returns_lem : (t : Instant) → leaves t ≤ returns t
  pub wakes_lem : (t : Instant) (step : ℕ) → t + step ≤ wakes t step

-- The inner loop, from the time of a read of the flag: when it ends; `none` if the fuel is used up.
unfoldable pub sleep_loop : Clock → (Instant → Bool) → ℕ → ℕ → ℕ → Instant → ℕ → Option Instant
unfolding min
sleep_loop clock shutdown interval tick zero now slept =
    if ltb slept interval && not (shutdown now) then none else some now
sleep_loop clock shutdown interval tick (suc fuel) now slept =
    let step = min (interval - slept) tick in
    elim (ltb slept interval && not (shutdown now)) [
      | true ↦ sleep_loop clock shutdown interval tick fuel (clock.wakes now step) (slept + step)
      | false ↦ some now
    ]

-- A step is at least one nanosecond, so the interval is fuel enough.
unfoldable pub nap : Clock → (Instant → Bool) → ℕ → Instant → Option Instant
unfolding sleep_loop
nap clock shutdown interval start =
    sleep_loop clock shutdown interval (from_millis tick_rate_ms) interval start 0

-- How the thread ended, if it did; `stuck` is out of fuel.
pub data PingEnd (E : Type 0) : Type 0 where
  running stopped stuck : PingEnd E
  failed : IoError → PingEnd E
  unencoded : WireError E → PingEnd E

-- What `recv_timeout` on the address channel returns.
pub data Announced (A : Type 0) : Type 0 where
  address : A → Announced A
  timeout disconnected : Announced A

module _ (net : Net) (post : Postcard) where
  open net use {SocketAddr}
  open post use {Error}

  -- The loop that waits for the server's address, on its rounds: the flag, and what is received.
  unfoldable pub wait_address :
      List (Bool × Announced SocketAddr) → Option SocketAddr × PingEnd Error
  wait_address [] = (none, running)
  wait_address ((shutdown, received) ∷ rounds) =
      let rest = wait_address rounds in
      if shutdown then (none, stopped) else elim received [
        | address a ↦ (some a, running)
        | timeout ↦ rest
        | disconnected ↦ (none, stopped)
      ]

  unfoldable pub cons_time : Instant → List Instant × PingEnd Error → List Instant × PingEnd Error
  cons_time t (times, end) = (t ∷ times, end)

  -- The outer loop, on the results of its sends: when each ping left, and how it ended.
  unfoldable pub send_pings :
      Clock
      → (Instant → Bool)
      → ℕ
      → List (Result (Unit {0}) IoError)
      → Instant
      → List Instant × PingEnd Error
  unfolding nap cons_time
  send_pings clock shutdown interval [] now = ([], running)
  send_pings clock shutdown interval (sent ∷ rest) now = elim (shutdown now) [
    | true ↦ ([], stopped)
    | false ↦ elim sent [
      | err e ↦ ([], failed e)
      | ok _ ↦ elim (nap clock shutdown interval (clock.returns now)) [
        | none ↦ (clock.leaves now ∷ [], stuck)
        | some woken ↦ cons_time (clock.leaves now) (send_pings clock shutdown interval rest woken)
      ]
    ]
  ]

  -- `run_ping`: `now` is the time at which the wait for the address ends.
  unfoldable pub run_ping :
      Clock
      → (Instant → Bool)
      → ℕ
      → List (Bool × Announced SocketAddr)
      → List (Result (Unit {0}) IoError)
      → Instant
      → Option (SocketAddr × Bytes) × List Instant × PingEnd Error
  unfolding wait_address send_pings encode_v1
  run_ping clock shutdown interval rounds sends now =
      let (found, waiting) = wait_address rounds in
      elim found [
        | none ↦ (none, [], waiting)
        | some server_addr ↦ elim (encode_v1 post ping) [
          | err e ↦ (none, [], unencoded e)
          | ok bytes ↦
              let (times, end) = send_pings clock shutdown interval sends now in
              (some (server_addr, bytes), times, end)
        ]
      ]
