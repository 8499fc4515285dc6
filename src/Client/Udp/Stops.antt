-- ===== src/Client/Udp/Stops.antt =====
-- On `run_ping` of quote-client/src/udp.rs: how the keep-alive thread ends once the flag is set.
use rust_streaming_quotes.Base.{
  ℕ, zero, suc, ◌+◌, ◌-◌, ◌<◌, ◌≤◌, ◌≡◌, refl, arith, Bool, true, false, ◌&&◌, not, some, List, [],
  ◌∷◌, ltb, Result, ok, Bool-cases, inl, inr, length, All,
}
use rust_streaming_quotes.Core.Constants.{from_millis}
use rust_streaming_quotes.Core.Net.{Net}
use rust_streaming_quotes.Core.Tickers.{IoError}
use rust_streaming_quotes.Core.Wire.{Postcard}
use rust_streaming_quotes.Server.Ping.{Instant}
use rust_streaming_quotes.Client.Udp.Ping.{
  tick_rate_ms, Clock, min, sleep_loop, nap, PingEnd, stopped, cons_time, send_pings,
}
use rust_streaming_quotes.Client.Udp.Sleeps.{IsNap, IsPrompt, nap_lem}

-- From `end` on, each read of the flag finds it set.
abbrev pub SetFrom : Instant → (Instant → Bool) → Type 0
SetFrom end shutdown = (t : Instant) → end ≤ t → shutdown t ≡ true

module _ (clock : Clock) (shutdown : Instant → Bool) (end late : Instant) where
  open clock use {wakes, returns}

  -- A sleep that goes on does not reach further than a late step behind `end`.
  sleep_loop_ends :
      (interval tick fuel : ℕ) (now : Instant) (slept : ℕ) (woken : Instant)
      → SetFrom end shutdown
      → IsPrompt late clock
      → now ≤ end + tick + late
      → sleep_loop clock shutdown interval tick fuel now slept ≡ some woken
      → woken ≤ end + tick + late
  unfolding sleep_loop min
  sleep_loop_ends interval tick zero now slept woken f pr b e = ground arith
  sleep_loop_ends interval tick (suc fuel) now slept woken f pr b e =
      elim (Bool-cases (ltb slept interval && not (shutdown now))) [
        | inr h ↦ ground arith
        | inl h ↦
            let step = min (interval - slept) tick in
            sleep_loop_ends interval tick fuel (wakes now step) (slept + step) woken f pr
              (ground (arith, f now, pr.sleeps now step)) (continued h e)
      ]
    where
      continued :
          (ltb slept interval && not (shutdown now)) ≡ true
          → sleep_loop clock shutdown interval tick (suc fuel) now slept ≡ some woken
          → (let step = min (interval - slept) tick in
              sleep_loop clock shutdown interval tick fuel (wakes now step) (slept + step))
            ≡ some woken
      continued h e = ground arith

moves_on :
    (shutdown : Instant → Bool) (interval : ℕ) (now start woken : Instant)
    → IsNap shutdown interval start woken
    → 0 < interval
    → now ≤ start
    → shutdown now ≡ false
    → now < woken
moves_on shutdown interval now start woken n i l h = elim n.whole [
  | inl e ↦ omega (arith, e)
  | inr e ↦ ground (arith, n.later)
]

module _ (net : Net) (post : Postcard) (clock : Clock) where
  open post use {Error}
  open clock use {leaves, returns, leaves_lem, returns_lem}

  -- How a thread has ended, and when its pings left.
  abbrev pub StoppedBy : Instant → List Instant × PingEnd Error → Type 0
  StoppedBy end (times, how) = All (λ t. t < end) times × (how ≡ stopped)

  cons_time-StoppedBy :
      (end now : Instant) (x : List Instant × PingEnd Error)
      → now < end
      → StoppedBy end x
      → StoppedBy end (cons_time net post now x)
  unfolding cons_time
  cons_time-StoppedBy end now (times, how) l h = ((l, h.0), h.1)

  send_pings-StoppedBy :
      (shutdown : Instant → Bool) (end late : Instant) (interval : ℕ)
      (sends : List (Result (Unit {0}) IoError)) (now : Instant)
      → SetFrom end shutdown
      → IsPrompt late clock
      → 0 < interval
      → All (λ r. r ≡ ok tt) sends
      → end - now < length sends
      → StoppedBy (end + late) (send_pings net post clock shutdown interval sends now)
  unfolding send_pings
  send_pings-StoppedBy shutdown end late interval [] now f pr i ok' l = absurd (omega (arith, l))
  send_pings-StoppedBy shutdown end late interval (r ∷ rs) now f pr i ok' l =
      elim (Bool-cases (shutdown now)) [
        | inl h ↦ rw (h, send_pings) (tt, refl)
        | inr h ↦
            let (woken, e, n) = nap_lem clock shutdown interval (returns now) in
            let early : now < end = ground (arith, f now) in
            let ahead : now < woken =
              moves_on shutdown interval now (returns now) woken n i
                (omega (arith, leaves_lem now, returns_lem now)) h in
            rw (h, ok'.0, e, send_pings)
              (cons_time-StoppedBy (end + late) (leaves now) _
                (omega (arith, early, returns_lem now, pr.sends now))
                (send_pings-StoppedBy shutdown end late interval rs woken f pr i ok'.1
                  (omega (arith, l, early, ahead))))
      ]

  -- If the flag is set for good at the time `end`, and no send and no sleep takes more than `late`
  -- longer than it has to, then each ping leaves before `end + late`, the thread ends by itself if no
  -- send fails, and a sleep that began before `end` is over at 200 milliseconds and `late` behind
  -- `end`, however long the interval is.
  pub keep_alive_ends :
      (shutdown : Instant → Bool) (end late : Instant) (interval : ℕ)
      (sends : List (Result (Unit {0}) IoError)) (now start woken : Instant)
      → SetFrom end shutdown
      → IsPrompt late clock
      → 0 < interval
      → All (λ r. r ≡ ok tt) sends
      → end - now < length sends
      → start ≤ end
      → nap clock shutdown interval start ≡ some woken
      → StoppedBy (end + late) (send_pings net post clock shutdown interval sends now)
        × (woken ≤ end + from_millis tick_rate_ms + late)
  unfolding nap
  keep_alive_ends shutdown end late interval sends now start woken f pr i ok' l before e = (
    send_pings-StoppedBy shutdown end late interval sends now f pr i ok' l,
    sleep_loop_ends clock shutdown end late interval (from_millis tick_rate_ms) interval start 0
        woken f pr (omega (arith, before)) e,
  )
