-- ===== src/Client/Udp/Delivered/Lossy.antt =====
-- On quote-server/src/session.rs and quote-client/src/udp.rs: the quotes of a session, through a
-- network that may lose, repeat and reorder datagrams.
use rust_streaming_quotes.Base.{
  ℕ, ◌≤◌, ◌≡◌, refl, ap, sym, subst, ◌∙◌, arith, Bool, true, List, [], ◌∷◌, Result, ok, take,
  length, All, All-map, Bool-cases, Result-cases, inl, inr,
}
use mathlib.Core.List.{Memᴰ}
use rust_streaming_quotes.Text.{Text}
use rust_streaming_quotes.TextSet.{contains}
use rust_streaming_quotes.Core.Net.{Net}
use rust_streaming_quotes.Core.Tickers.{IoError}
use rust_streaming_quotes.Core.Types.{StockQuote}
use rust_streaming_quotes.Core.Wire.{Bytes, UdpPacketV1, quote, ping, Postcard, decode}
use rust_streaming_quotes.Server.Ping.{Instant, buffer_size, is_tick, Received, datagram, broken}
use rust_streaming_quotes.Server.Session.{Tick, session_loop, fresh_session}
use rust_streaming_quotes.Server.Session.Sends.{session-IsWanted}
use rust_streaming_quotes.Client.Udp.Receiver.{ReceiveRound, run_udp_receiver}
use rust_streaming_quotes.Client.Udp.Receiver.Shown.{
  arrivals, quotes, readable, Connects, run_udp_receiver_lem,
}
use rust_streaming_quotes.Client.Udp.Delivered.{take_all}

All-mem : {A : Type 0} (P : A → Type 0) {x : A} {xs : List A} → All P xs → Memᴰ x xs → P x
All-mem P h (Memᴰ.head e) = subst P (sym e) h.0
All-mem P h (Memᴰ.tail m) = All-mem P h.1 m

module _ (net : Net) (post : Postcard) where
  open net use {SocketAddr}

  -- Each datagram that reaches the receiver is one of those that were sent; they may be lost,
  -- repeated and reordered on the way.
  abbrev pub ComeFrom : List (SocketAddr × Bytes) → List (ReceiveRound net post) → Type 0
  ComeFrom sent = All (λ r.
      (bytes : Bytes) (src : SocketAddr)
      → r.received ≡ datagram bytes src
      → (target : SocketAddr) × Memᴰ (target, bytes) sent)

  -- What is read of a datagram has the property, if it is a quote.
  abbrev Reads : (StockQuote → Type 0) → Received net post → Type 0
  Reads P received =
      (bytes : Bytes) (src : SocketAddr) (q : StockQuote)
      → received ≡ datagram bytes src
      → decode post (take buffer_size bytes) ≡ ok (quote q)
      → P q

  quotes-cons :
      (P : StockQuote → Type 0) (pkt : UdpPacketV1) (src : SocketAddr)
      (xs : List (UdpPacketV1 × SocketAddr))
      → ((q : StockQuote) → pkt ≡ quote q → P q)
      → All P (quotes net post xs)
      → All P (quotes net post ((pkt, src) ∷ xs))
  unfolding quotes
  quotes-cons P ping src xs h hs = hs
  quotes-cons P (quote q) src xs h hs = (h q refl, hs)

  arrivals-step :
      (P : StockQuote → Type 0) (r : ReceiveRound net post) (rs : List (ReceiveRound net post))
      (received : Received net post)
      → r.received ≡ received
      → Reads P received
      → All P (quotes net post (arrivals net post rs))
      → All P (quotes net post (arrivals net post (r ∷ rs)))
  unfolding arrivals quotes readable
  arrivals-step P r rs (broken e) er h hs = elim (Bool-cases r.shutdown) [
    | inl s ↦ rw (s, arrivals) tt
    | inr s ↦ elim (Bool-cases (is_tick e.kind)) [
      | inl t ↦ rw (s, er, t, arrivals) hs
      | inr t ↦ rw (s, er, t, arrivals) tt
    ]
  ]
  arrivals-step P r rs (datagram bytes src) er h hs = elim (Bool-cases r.shutdown) [
    | inl s ↦ rw (s, arrivals) tt
    | inr s ↦ elim (Result-cases (decode post (take buffer_size bytes))) [
      | inl (pkt, d) ↦
          rw (s, er, d, arrivals)
            (quotes-cons P pkt src _ (λ q e. h bytes src q refl (d ∙ ap ok e)) hs)
      | inr (x, d) ↦ rw (s, er, d, arrivals) hs
    ]
  ]

  arrivals-All :
      (P : StockQuote → Type 0) (rs : List (ReceiveRound net post))
      → All (λ r. Reads P r.received) rs
      → All P (quotes net post (arrivals net post rs))
  unfolding arrivals quotes
  arrivals-All P [] h = tt
  arrivals-All P (r ∷ rs) h = arrivals-step P r rs r.received refl h.0 (arrivals-All P rs h.1)

  -- Whatever the network loses, repeats or reorders of a session's datagrams, and whichever sends fail,
  -- if the datagrams fit the receive buffer, no other datagram reaches the client and its connects
  -- succeed, it shows only quotes of the tickers that it asked for.
  pub shown_wanted :
      (os_send : ℕ → SocketAddr → Bytes → Result (Unit {0}) IoError) (tickers : List Text)
      (target : SocketAddr) (start : Instant) (attempts : ℕ) (ts : List (Tick net post os_send))
      (rs : List (ReceiveRound net post)) (shutdown : Bool)
      → let sent =
          (session_loop net post os_send tickers target start ts
            (fresh_session net post os_send attempts)).0.delivered in
        All (λ d. length d.1 ≤ buffer_size) sent
        → ComeFrom sent rs
        → Connects net post rs
        → All
            (λ q. contains q.ticker tickers ≡ true)
            (run_udp_receiver net post (ok tt) rs shutdown).0.shown
  shown_wanted os_send tickers target start attempts ts rs shutdown fits from connects =
      subst (All (λ q. contains q.ticker tickers ≡ true))
        (sym (run_udp_receiver_lem net post rs shutdown connects).0)
        (arrivals-All _ rs (
          All-map
            (λ r come bytes src q e d.
              let (target', found) = come bytes src e in
              let small = All-mem _ fits found in
              let wanted =
                All-mem _ (session-IsWanted net post os_send tickers target start attempts ts)
                  found in
              let same =
                sym d ∙ ap (decode post) (take_all buffer_size bytes small) ∙ wanted.readable in
              ground (arith, same, wanted.subscribed))
            rs from))
