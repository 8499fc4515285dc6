-- ===== src/Server/Session/Ends.antt =====
-- On quote-server/src/session.rs: the ends of `run_session`, and the map of last pings behind it.
use rust_streaming_quotes.Base.{
  ℕ, ◌+◌, ◌<◌, ◌≡◌, ◌≢◌, refl, ap, Bool, true, false, ◌||◌, ◌&&◌, List, [], ◌∷◌, if◌then◌else◌,
  none, some, Result, arith, Bool-cases, inl, inr,
}
use rust_streaming_quotes.Assoc.{lookup, lookup-remove}
use rust_streaming_quotes.Text.{Text}
use rust_streaming_quotes.Core.Constants.{ping_timeout}
use rust_streaming_quotes.Core.Net.{Net}
use rust_streaming_quotes.Core.Tickers.{IoError}
use rust_streaming_quotes.Core.Wire.{Bytes, Postcard}
use rust_streaming_quotes.Server.Ping.{Instant, LastPingMap}
use rust_streaming_quotes.Server.Session.{
  shutdown_requested, ping_expired_for, Exit, running, finished, failed, Sess, ping_expired, Tick,
  tick, session_loop, leave, fresh_session, run_session,
}

module _ (net : Net) (post : Postcard)
    (os_send : ℕ → net.SocketAddr → Bytes → Result (Unit {0}) IoError) where
  open net use {SocketAddr, addr_eq, addr_eq_iff}
  open post use {Error}

  -- Some round finds the flag set, or the client silent for longer than the timeout.
  unfoldable pub has_stop : SocketAddr → Instant → List (Tick net post os_send) → Bool
  has_stop target start [] = false
  has_stop target start (t ∷ ts) =
      (t.shutdown || ping_expired net post os_send t.last_ping target start t.now)
      || has_stop target start ts

  loop_ends :
      (x rest : Sess net post os_send × Exit Error)
      → (x.1 ≡ running → rest.1 ≢ running)
      → let y : Sess net post os_send × Exit Error = elim x.1 [
        | running ↦ rest
        | finished c ↦ (x.0, finished c)
        | failed e ↦ (x.0, failed e)
      ] in
        y.1 ≢ running
  loop_ends (s, running) rest h = h refl
  loop_ends (s, finished c) rest h = λ e. cc
  loop_ends (s, failed x) rest h = λ e. cc

  tick_shutdown :
      (tickers : List Text) (target : SocketAddr) (start : Instant) (t : Tick net post os_send)
      (s : Sess net post os_send)
      → t.shutdown ≡ true
      → tick net post os_send tickers target start t s ≡ (s, finished shutdown_requested)
  unfolding tick
  tick_shutdown tickers target start t s h = rw (h, tick)

  tick_expired :
      (tickers : List Text) (target : SocketAddr) (start : Instant) (t : Tick net post os_send)
      (s : Sess net post os_send)
      → t.shutdown ≡ false
      → ping_expired net post os_send t.last_ping target start t.now ≡ true
      → tick net post os_send tickers target start t s ≡ (s, finished ping_expired_for)
  unfolding tick
  tick_expired tickers target start t s h e = rw (h, e, tick)

  tick_stops :
      (tickers : List Text) (target : SocketAddr) (start : Instant) (t : Tick net post os_send)
      (s : Sess net post os_send)
      → (t.shutdown || ping_expired net post os_send t.last_ping target start t.now) ≡ true
      → (tick net post os_send tickers target start t s).1 ≢ running
  tick_stops tickers target start t s h r = elim (Bool-cases t.shutdown) [
    | inl e ↦ cc (tick_shutdown tickers target start t s e)
    | inr e ↦ cc (tick_expired tickers target start t s e (ground arith))
  ]

  -- A session does not outlive a round in which shutdown is requested or its client has been silent
  -- for longer than the timeout.
  pub session-ends :
      (tickers : List Text) (target : SocketAddr) (start : Instant)
      (ts : List (Tick net post os_send)) (s : Sess net post os_send)
      → has_stop target start ts ≡ true
      → (session_loop net post os_send tickers target start ts s).1 ≢ running
  unfolding session_loop has_stop
  session-ends tickers target start [] s h = absurd (ground arith)
  session-ends tickers target start (t ∷ ts) s h =
      let stops = t.shutdown || ping_expired net post os_send t.last_ping target start t.now in
      loop_ends (tick net post os_send tickers target start t s) _ (elim (Bool-cases stops) [
        | inl e ↦ λ goes_on. absurd (tick_stops tickers target start t s e goes_on)
        | inr e ↦ λ goes_on. session-ends tickers target start ts _ (ground arith)
      ])

  -- The loop was left by `break`.
  unfoldable pub left_by_break : Exit Error → Bool
  left_by_break running = false
  left_by_break (finished c) = true
  left_by_break (failed e) = false

  lookup-leave :
      (target other : SocketAddr) (exit : Exit Error) (map : LastPingMap net post)
      → lookup addr_eq other (leave net post os_send target exit map)
        ≡ (if left_by_break exit && addr_eq other target then none else lookup addr_eq other map)
  unfolding leave left_by_break
  lookup-leave target other running map = refl
  lookup-leave target other (finished c) map = lookup-remove addr_eq addr_eq_iff other target map
  lookup-leave target other (failed e) map = refl

  -- A session that is left by `break` removes the client's entry and no other; one that fails on
  -- twenty errors leaves every entry as it is, its client's included.
  pub run_session-lookup :
      (tickers : List Text) (target other : SocketAddr) (start : Instant) (attempts : ℕ)
      (ts : List (Tick net post os_send)) (map : LastPingMap net post)
      → let r = run_session net post os_send tickers target start attempts ts map in
        lookup addr_eq other r.2
        ≡ (if left_by_break r.1 && addr_eq other target then none else lookup addr_eq other map)
  unfolding run_session
  run_session-lookup tickers target other start attempts ts map =
      lookup-leave target other
        (session_loop net post os_send tickers target start ts
          (fresh_session net post os_send attempts)).1
        map

  ping_expired_late :
      (map : LastPingMap net post) (target : SocketAddr) (start last now : Instant)
      → lookup addr_eq target map ≡ some last
      → last + ping_timeout < now
      → ping_expired net post os_send map target start now ≡ true
  unfolding ping_expired
  ping_expired_late map target start last now e late = ground arith

  loop_stops :
      (tickers : List Text) (target : SocketAddr) (start : Instant) (t : Tick net post os_send)
      (ts : List (Tick net post os_send)) (s : Sess net post os_send)
      → tick net post os_send tickers target start t s ≡ (s, finished ping_expired_for)
      → session_loop net post os_send tickers target start (t ∷ ts) s
        ≡ (s, finished ping_expired_for)
  unfolding session_loop
  loop_stops tickers target start t ts s e = rw (ap (λ x. x.1) e, ap (λ x. x.0) e, session_loop)

  -- An entry that an earlier client of the address left behind ends a new session in its first
  -- round, before it sends anything, however recently the session started.
  pub stale_ping :
      (tickers : List Text) (target : SocketAddr) (start last : Instant) (attempts : ℕ)
      (t : Tick net post os_send) (ts : List (Tick net post os_send)) (map : LastPingMap net post)
      → t.shutdown ≡ false
      → lookup addr_eq target t.last_ping ≡ some last
      → last + ping_timeout < t.now
      → let r = run_session net post os_send tickers target start attempts (t ∷ ts) map in
        (r.0 ≡ fresh_session net post os_send attempts) × (r.1 ≡ finished ping_expired_for)
  unfolding run_session
  stale_ping tickers target start last attempts t ts map h e late =
      let fresh = fresh_session net post os_send attempts in
      let gone = loop_stops tickers target start t ts fresh (
        tick_expired tickers target start t fresh h
          (ping_expired_late t.last_ping target start last t.now e late)) in
      (ap (λ x. x.0) gone, ap (λ x. x.1) gone)
