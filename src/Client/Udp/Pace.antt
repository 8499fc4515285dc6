-- ===== src/Client/Udp/Pace.antt =====
-- On `run_ping` of quote-client/src/udp.rs and `ping_expired` of quote-server/src/session.rs: the
-- times of the pings.
use rust_streaming_quotes.Base.{
  ℕ, ◌+◌, ◌*◌, ◌≤◌, ◌≡◌, ◌≢◌, ◌++◌, subst, arith, Bool, true, false, Option, none, some, List, [],
  ◌∷◌, Result, Bool-cases, Result-cases, inl, inr,
}
use rust_streaming_quotes.Assoc.{lookup}
use rust_streaming_quotes.Core.Constants.{from_secs, from_millis, ping_interval}
use rust_streaming_quotes.Core.Net.{Net}
use rust_streaming_quotes.Core.Tickers.{IoError}
use rust_streaming_quotes.Core.Wire.{Bytes, Postcard}
use rust_streaming_quotes.Server.Ping.{Instant, LastPingMap}
use rust_streaming_quotes.Server.Session.{ping_expired}
use rust_streaming_quotes.Client.Udp.Ping.{
  tick_rate_ms, Clock, nap, PingEnd, running, stopped, failed, stuck, cons_time, send_pings,
}
use rust_streaming_quotes.Client.Udp.Sleeps.{IsPrompt, nap_lem, sleep_loop_late}

-- Each time stands in a relation to the one before it.
unfoldable pub Follows : (Instant → Instant → Type 0) → Option Instant → List Instant → Type 0
Follows R last [] = Unit
Follows R none (t ∷ ts) = Follows R (some t) ts
Follows R (some a) (t ∷ ts) = R a t × Follows R (some t) ts

follows_at :
    (R : Instant → Instant → Type 0) (before after : List Instant) (a b : Instant)
    (last : Option Instant)
    → Follows R last (before ++ a ∷ b ∷ after)
    → R a b
unfolding Follows
follows_at R [] after a b none h = h.0
follows_at R [] after a b (some t) h = h.1.0
follows_at R (x ∷ before) after a b none h = follows_at R before after a b (some x) h
follows_at R (x ∷ before) after a b (some t) h = follows_at R before after a b (some x) h.1

module _ (net : Net) (post : Postcard) (clock : Clock) (shutdown : Instant → Bool)
    (interval : ℕ) where
  open post use {Error}
  open clock use {leaves, returns, leaves_lem, returns_lem}

  -- Pings that follow each other, and an end that is not for want of fuel.
  abbrev IsPaced :
      (Instant → Instant → Type 0) → Option Instant → List Instant × PingEnd Error → Type 0
  IsPaced R last (times, end) = Follows R last times × (end ≢ stuck)

  -- What one sleep between two pings makes true of their times.
  abbrev Sleeps : (Instant → Instant → Type 0) → Type 0
  Sleeps R =
      (t woken : Instant)
      → nap clock shutdown interval (returns t) ≡ some woken
      → returns t + interval ≤ woken
      → R (leaves t) (leaves woken)

  module _ (R : Instant → Instant → Type 0) where
    cons_time-IsPaced :
        (last : Option Instant) (now : Instant) (x : List Instant × PingEnd Error)
        → Follows R last (now ∷ [])
        → IsPaced R (some now) x
        → IsPaced R last (cons_time net post now x)
    unfolding cons_time Follows
    cons_time-IsPaced none now (times, end) r h = h
    cons_time-IsPaced (some a) now (times, end) r h = ((r.0, h.0), h.1)

    ended-IsPaced :
        (last : Option Instant) (end : PingEnd Error) → end ≢ stuck → IsPaced R last ([], end)
    unfolding Follows
    ended-IsPaced none end h = (tt, h)
    ended-IsPaced (some a) end h = (tt, h)

    send_pings_stopped :
        (sends : List (Result (Unit {0}) IoError)) (now : Instant) (last : Option Instant)
        → shutdown now ≡ true
        → IsPaced R last (send_pings net post clock shutdown interval sends now)
    unfolding send_pings
    send_pings_stopped [] now last h = ended-IsPaced last running (λ e. cc)
    send_pings_stopped (r ∷ rs) now last h =
        rw (h, send_pings) (ended-IsPaced last stopped (λ e. cc))

    send_pings-IsPaced :
        (sends : List (Result (Unit {0}) IoError)) (now : Instant) (last : Option Instant)
        → Sleeps R
        → Follows R last (leaves now ∷ [])
        → IsPaced R last (send_pings net post clock shutdown interval sends now)
    unfolding send_pings Follows
    send_pings-IsPaced [] now last s r = ended-IsPaced last running (λ e. cc)
    send_pings-IsPaced (x ∷ rs) now last s r = elim (Bool-cases (shutdown now)) [
      | inl h ↦ send_pings_stopped (x ∷ rs) now last h
      | inr h ↦ elim (Result-cases x) [
        | inr (e, f) ↦ rw (h, f, send_pings) (ended-IsPaced last (failed e) (λ e. cc))
        | inl (u, f) ↦
            let (woken, found, n) = nap_lem clock shutdown interval (returns now) in
            rw (h, f, found, send_pings)
              (cons_time-IsPaced last (leaves now) _ r (elim n.whole [
                | inl l ↦
                    send_pings-IsPaced rs woken (some (leaves now)) s (s now woken found l, tt)
                | inr on ↦ send_pings_stopped rs woken (some (leaves now)) on
              ]))
      ]
    ]

  -- The pings leave at least the interval apart, whenever the flag is set, whichever send fails and
  -- however long sends and sleeps take, and the fuel of the sleeps is enough.
  pub send_pings-paced :
      (sends : List (Result (Unit {0}) IoError)) (now : Instant)
      → let r = send_pings net post clock shutdown interval sends now in
        Follows (λ a b. a + interval ≤ b) none r.0 × (r.1 ≢ stuck)
  unfolding Follows
  send_pings-paced sends now =
      send_pings-IsPaced (λ a b. a + interval ≤ b) sends now none
        (λ t woken e l. omega (arith, l, returns_lem t, leaves_lem woken)) tt

  -- If no send and no sleep is more than `late` late, two pings are less than that many delays more
  -- than the interval apart.
  send_pings-prompt :
      {late : ℕ}
      → IsPrompt late clock
      → (n : ℕ) (sends : List (Result (Unit {0}) IoError)) (now : Instant)
      → interval ≤ n * from_millis tick_rate_ms
      → Follows
          (λ a b. b ≤ a + interval + n * late + late + late)
          none
          (send_pings net post clock shutdown interval sends now).0
  unfolding Follows nap
  send_pings-prompt {late} pr n sends now i =
      (send_pings-IsPaced (λ a b. b ≤ a + interval + n * late + late + late) sends now none
        (λ t woken e l. omega (
          arith,
          sleep_loop_late clock shutdown interval (from_millis tick_rate_ms) pr n interval
              (returns t) 0 woken (omega arith) (omega (arith, i)) e,
          pr.sends t,
          leaves_lem t,
          pr.sends woken,
          returns_lem woken,
        ))
        tt).0

module _ (net : Net) (post : Postcard) (clock : Clock) (shutdown : Instant → Bool) where
  -- A client that pings at `PING_INTERVAL` keeps its session. If no send and no sleep of the client
  -- takes more than `late` longer than it has to, and the newest ping that the server has noted
  -- arrived `lag` after it left, the server does not time the client out until the next ping arrives,
  -- provided that its own lag and twelve such delays are not more than `lag` and three seconds.
  pub keep_alive :
      (os_send : ℕ → net.SocketAddr → Bytes → Result (Unit {0}) IoError) (late : ℕ)
      (sends : List (Result (Unit {0}) IoError)) (start a b : Instant) (before after : List Instant)
      (map : LastPingMap net post) (client : net.SocketAddr) (session_start now lag lag' : ℕ)
      → IsPrompt late clock
      → (send_pings net post clock shutdown ping_interval sends start).0 ≡ before ++ a ∷ b ∷ after
      → lookup net.addr_eq client map ≡ some (a + lag)
      → now ≤ b + lag'
      → lag' + 12 * late ≤ lag + from_secs 3
      → ping_expired net post os_send map client session_start now ≡ false
  unfolding ping_expired
  keep_alive os_send late sends start a b before after map client session_start now lag lag' pr e
        found n l =
      let times =
        send_pings-prompt net post clock shutdown ping_interval pr 10 sends start (omega arith) in
      let spaced : b ≤ a + ping_interval + 10 * late + late + late =
        follows_at _ before after a b none (subst (Follows _ none) e times) in
      ground arith
