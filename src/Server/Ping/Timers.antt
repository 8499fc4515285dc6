-- ===== src/Server/Ping/Timers.antt =====
-- On quote-server/src/udp_ping.rs: the map of last pings, seen from one address.
use rust_streaming_quotes.Base.{
  ◌≡◌, refl, Bool, true, false, Option, none, some, List, [], ◌∷◌, ◌||◌, ◌&&◌, if◌then◌else◌, ok,
  err, take, arith,
}
use rust_streaming_quotes.Assoc.{lookup, remove, lookup-remove, lookup-insert}
use rust_streaming_quotes.Core.Net.{Net}
use rust_streaming_quotes.Core.Wire.{Bytes, quote, ping, Postcard, decode}
use rust_streaming_quotes.Server.Ping.{
  Instant, buffer_size, is_tick, LastPingMap, Received, datagram, broken, Round, remove_all,
  handle_datagram, handle_received, ping_loop, run_udp_ping_listener,
}

module _ (net : Net) (post : Postcard) where
  open net use {SocketAddr, addr_eq, addr_eq_iff}

  unfoldable pub mentions : SocketAddr → List SocketAddr → Bool
  mentions a [] = false
  mentions a (b ∷ bs) = addr_eq a b || mentions a bs

  unfoldable pub is_ping : Bytes → Bool
  is_ping bytes = elim (decode post (take buffer_size bytes)) [
    | ok pkt ↦ elim pkt [ ping ↦ true | quote q ↦ false ]
    | err e ↦ false
  ]

  -- The timer of one address, after the entries of ended sessions went.
  unfoldable pub cleared : SocketAddr → List SocketAddr → Option Instant → Option Instant
  unfolding mentions
  cleared a gone last = if mentions a gone then none else last

  -- The timer of one address: a ping from it sets the timer to the clock, whatever else arrives
  -- leaves it alone; it stops with the loop.
  unfoldable pub timer : SocketAddr → List (Round net post) → Option Instant → Option Instant
  unfolding cleared is_ping is_tick
  timer a [] last = last
  timer a (r ∷ rs) last =
      let current = cleared a r.removed last in
      let go_on = timer a rs current in
      let hit = timer a rs (some r.now) in
      elim r.shutdown [
        | true ↦ current
        | false ↦ elim r.received [
          | datagram bytes src ↦ elim (is_ping bytes && addr_eq a src) [
            | true ↦ hit
            | false ↦ go_on
          ]
          | broken e ↦ elim (is_tick e.kind) [ true ↦ go_on | false ↦ current ]
        ]
      ]

  lookup-remove_all :
      (a : SocketAddr) (gone : List SocketAddr) (map : LastPingMap net post)
      → lookup addr_eq a (remove_all net post gone map) ≡ cleared a gone (lookup addr_eq a map)
  unfolding remove_all cleared
  lookup-remove_all a [] map = refl
  lookup-remove_all a (b ∷ bs) map = ground (
    arith,
    lookup-remove_all a bs (remove addr_eq b map),
    lookup-remove addr_eq addr_eq_iff a b map,
  )

  lookup-handle_datagram :
      (a : SocketAddr) (bytes : Bytes) (src : SocketAddr) (now : Instant)
      (map : LastPingMap net post)
      → lookup addr_eq a (handle_datagram net post bytes src now map)
        ≡ (if is_ping bytes && addr_eq a src then some now else lookup addr_eq a map)
  unfolding handle_datagram is_ping
  lookup-handle_datagram a bytes src now map =
      ground (arith, lookup-insert addr_eq addr_eq_iff a src now map)

  -- `received` is the round's event, taken apart.
  round-timer :
      (a : SocketAddr) (r : Round net post) (rs : List (Round net post))
      (map : LastPingMap net post)
      → ((m : LastPingMap net post)
          → lookup addr_eq a (ping_loop net post rs m).0 ≡ timer a rs (lookup addr_eq a m))
      → (received : Received net post) → r.received ≡ received
      → lookup addr_eq a (ping_loop net post (r ∷ rs) map).0
        ≡ timer a (r ∷ rs) (lookup addr_eq a map)
  unfolding ping_loop timer handle_received
  round-timer a r rs map ih (datagram bytes src) e =
      let current = remove_all net post r.removed map in
      let map' = handle_datagram net post bytes src r.now current in
      ground (
        arith,
        ih map',
        lookup-remove_all a r.removed map,
        lookup-handle_datagram a bytes src r.now current,
      )
  round-timer a r rs map ih (broken x) e =
      let current = remove_all net post r.removed map in
      ground (arith, ih current, lookup-remove_all a r.removed map)

  ping_loop-timer :
      (a : SocketAddr) (rs : List (Round net post)) (map : LastPingMap net post)
      → lookup addr_eq a (ping_loop net post rs map).0 ≡ timer a rs (lookup addr_eq a map)
  ping_loop-timer a [] map = unfold ping_loop timer in refl
  ping_loop-timer a (r ∷ rs) map =
      round-timer a r rs map (λ m. ping_loop-timer a rs m) r.received refl

  -- Whatever arrives, in whatever order, the entry of an address is what its own timer says: the
  -- time of its last ping since the entry was last removed. Quotes, garbage and other senders do
  -- not change it.
  pub listener-timer :
      (a : SocketAddr) (rs : List (Round net post)) (map : LastPingMap net post)
      → lookup addr_eq a (run_udp_ping_listener net post (ok tt) rs map).0
        ≡ timer a rs (lookup addr_eq a map)
  unfolding run_udp_ping_listener
  listener-timer a rs map = ping_loop-timer a rs map
