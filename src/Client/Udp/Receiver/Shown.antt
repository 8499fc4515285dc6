-- ===== src/Client/Udp/Receiver/Shown.antt =====
-- On `run_udp_receiver` of quote-client/src/udp.rs, by the datagrams that arrive.
use rust_streaming_quotes.Base.{
  ◌≡◌, refl, sym, arith, Bool, true, false, Option, none, some, List, [], ◌∷◌, ◌++◌, if◌then◌else◌,
  ok, err, take, Option-cases, Result-cases, inl, inr, append_assoc, append-nil,
}
use rust_streaming_quotes.Core.Error.{WireError}
use rust_streaming_quotes.Core.Net.{Net}
use rust_streaming_quotes.Core.Types.{StockQuote}
use rust_streaming_quotes.Core.Wire.{Bytes, UdpPacketV1, quote, ping, Postcard, decode}
use rust_streaming_quotes.Server.Channel.{SendResult, sent, full, disconnected}
use rust_streaming_quotes.Server.Ping.{
  buffer_size, is_tick, Status, running, stopped, failed, Received, datagram, broken,
}
use rust_streaming_quotes.Client.Udp.Receiver.{
  Receiver, ReceiveRound, handle_pkt, announce, first_pkt, handle_bytes, receive, receive_loop,
  fresh_receiver, run_udp_receiver,
}

module _ (net : Net) (post : Postcard) where
  open net use {SocketAddr}
  open post use {Error}

  -- The packet and the sender of a datagram that can be read.
  unfoldable pub readable : Received net post → Option (UdpPacketV1 × SocketAddr)
  readable (broken e) = none
  readable (datagram bytes src) = elim (decode post (take buffer_size bytes)) [
    | ok pkt ↦ some (pkt, src)
    | err e ↦ none
  ]

  -- The packets that arrive until the first round that stops the loop: the flag, or an error that is
  -- not a timeout.
  unfoldable pub arrivals : List (ReceiveRound net post) → List (UdpPacketV1 × SocketAddr)
  unfolding readable is_tick
  arrivals [] = []
  arrivals (r ∷ rs) =
      let rest = arrivals rs in
      elim r.shutdown [
        | true ↦ []
        | false ↦ elim r.received [
          | broken e ↦ if is_tick e.kind then rest else []
          | datagram bytes src ↦ elim (readable (datagram bytes src)) [
            | some x ↦ x ∷ rest
            | none ↦ rest
          ]
        ]
      ]

  unfoldable pub quotes : List (UdpPacketV1 × SocketAddr) → List StockQuote
  quotes [] = []
  quotes ((ping, src) ∷ xs) = quotes xs
  quotes ((quote q, src) ∷ xs) = q ∷ quotes xs

  -- A sender that the channel of the ping thread took.
  unfoldable pub taken : SendResult → SocketAddr → List SocketAddr
  taken sent src = src ∷ []
  taken full src = []
  taken disconnected src = []

  -- The address that is announced: the sender of the first arrival, if the channel took it.
  unfoldable pub told : List (ReceiveRound net post) → List SocketAddr
  unfolding readable is_tick
  told [] = []
  told (r ∷ rs) =
      let rest = told rs in
      elim r.shutdown [
        | true ↦ []
        | false ↦ elim r.received [
          | broken e ↦ if is_tick e.kind then rest else []
          | datagram bytes src ↦ elim (readable (datagram bytes src)) [
            | some x ↦ taken r.try_send src
            | none ↦ rest
          ]
        ]
      ]

  -- Senders are announced only while there is no peer.
  unfoldable pub newly : Option SocketAddr → List (ReceiveRound net post) → List SocketAddr
  unfolding told
  newly none rs = told rs
  newly (some a) rs = []

  -- Every `connect` succeeds.
  abbrev pub Connects : List (ReceiveRound net post) → Type 0
  Connects [] = Unit
  Connects (r ∷ rs) = (r.connect ≡ ok tt) × Connects rs

  -- What the loop shows and announces, by the arrivals.
  abbrev Told : List (ReceiveRound net post) → Receiver net post → Type 0
  Told rs s =
      ((receive_loop net post rs s).0.shown ≡ s.shown ++ quotes (arrivals rs))
      × ((receive_loop net post rs s).0.announced ≡ s.announced ++ newly s.peer rs)

  bad_datagram :
      (r : ReceiveRound net post) (rs : List (ReceiveRound net post)) (s : Receiver net post)
      (bytes : Bytes) (src : SocketAddr) (x : WireError Error)
      → ((s' : Receiver net post) → Told rs s')
      → r.received ≡ datagram bytes src
      → decode post (take buffer_size bytes) ≡ err x
      → Told (r ∷ rs) s
  unfolding receive_loop receive handle_bytes arrivals quotes newly told readable
  bad_datagram r rs s bytes src x ih er d = elim (Option-cases s.peer) [
    | inl p ↦
        (ground (arith, ih s, append-nil s.shown), ground (arith, ih s, append-nil s.announced))
    | inr (a, p) ↦
        (ground (arith, ih s, append-nil s.shown), ground (arith, ih s, append-nil s.announced))
  ]

  announce_lem :
      (result : SendResult) (src : SocketAddr) (s : Receiver net post)
      → let t = announce net post result src s in
        (t.peer ≡ s.peer) × (t.shown ≡ s.shown) × (t.announced ≡ s.announced ++ taken result src)
  unfolding announce taken
  announce_lem sent src s = (refl, refl, refl)
  announce_lem full src s = (refl, refl, sym (append-nil s.announced))
  announce_lem disconnected src s = (refl, refl, sym (append-nil s.announced))

  first_datagram :
      (r : ReceiveRound net post) (rs : List (ReceiveRound net post)) (s : Receiver net post)
      (bytes : Bytes) (src : SocketAddr) (pkt : UdpPacketV1)
      → ((s' : Receiver net post) → Told rs s')
      → r.connect ≡ ok tt
      → r.received ≡ datagram bytes src
      → s.peer ≡ none
      → decode post (take buffer_size bytes) ≡ ok pkt
      → Told (r ∷ rs) s
  unfolding receive_loop receive handle_bytes first_pkt handle_pkt arrivals quotes newly told
      readable
  first_datagram r rs s bytes src ping ih c er ep d =
      let s' = announce net post r.try_send src (record s { peer = some src }) in
      let (at, same, more) = announce_lem r.try_send src (record s { peer = some src }) in
      (
        ground (arith, ih s', append-nil s.shown),
        ground (
          arith,
          ih s',
          append-nil s.announced,
          append-nil (s.announced ++ taken r.try_send src),
        ),
      )
  first_datagram r rs s bytes src (quote q) ih c er ep d =
      let s1 = announce net post r.try_send src (record s { peer = some src }) in
      let (at, same, more) = announce_lem r.try_send src (record s { peer = some src }) in
      let s' : Receiver net post = record s1 { shown = s1.shown ++ q ∷ [] } in
      (
        ground (
          arith,
          ih s',
          append-nil s.shown,
          append_assoc s.shown (q ∷ []) (quotes (arrivals rs)),
        ),
        ground (
          arith,
          ih s',
          append-nil s.announced,
          append-nil (s.announced ++ taken r.try_send src),
        ),
      )

  later_datagram :
      (r : ReceiveRound net post) (rs : List (ReceiveRound net post)) (s : Receiver net post)
      (bytes : Bytes) (src : SocketAddr) (pkt : UdpPacketV1) (a : SocketAddr)
      → ((s' : Receiver net post) → Told rs s')
      → r.received ≡ datagram bytes src
      → s.peer ≡ some a
      → decode post (take buffer_size bytes) ≡ ok pkt
      → Told (r ∷ rs) s
  unfolding receive_loop receive handle_bytes handle_pkt arrivals quotes newly told readable
  later_datagram r rs s bytes src ping a ih er ep d =
      (ground (arith, ih s, append-nil s.shown), ground (arith, ih s, append-nil s.announced))
  later_datagram r rs s bytes src (quote q) a ih er ep d =
      let s' : Receiver net post = record s { shown = s.shown ++ q ∷ [] } in
      (
        ground (
          arith,
          ih s',
          append-nil s.shown,
          append_assoc s.shown (q ∷ []) (quotes (arrivals rs)),
        ),
        ground (arith, ih s', append-nil s.announced),
      )

  receive_step :
      (r : ReceiveRound net post) (rs : List (ReceiveRound net post)) (s : Receiver net post)
      (received : Received net post) (peer : Option SocketAddr)
      → ((s' : Receiver net post) → Told rs s')
      → r.connect ≡ ok tt
      → r.received ≡ received
      → s.peer ≡ peer
      → Told (r ∷ rs) s
  unfolding receive_loop receive arrivals quotes newly told handle_bytes first_pkt handle_pkt
  receive_step r rs s (broken e) peer ih c er ep =
      (ground (arith, ih s, append-nil s.shown), ground (arith, ih s, append-nil s.announced))
  receive_step r rs s (datagram bytes src) none ih c er ep =
      elim (Result-cases (decode post (take buffer_size bytes))) [
        | inr (e, d) ↦ bad_datagram r rs s bytes src e ih er d
        | inl (pkt, d) ↦ first_datagram r rs s bytes src pkt ih c er ep d
      ]
  receive_step r rs s (datagram bytes src) (some a) ih c er ep =
      elim (Result-cases (decode post (take buffer_size bytes))) [
        | inr (e, d) ↦ bad_datagram r rs s bytes src e ih er d
        | inl (pkt, d) ↦ later_datagram r rs s bytes src pkt a ih er ep d
      ]

  no_rounds : (s : Receiver net post) → Told [] s
  unfolding receive_loop arrivals quotes newly told
  no_rounds s = elim (Option-cases s.peer) [
    | inl p ↦ (sym (append-nil s.shown), ground (arith, append-nil s.announced))
    | inr (a, p) ↦ (sym (append-nil s.shown), ground (arith, append-nil s.announced))
  ]

  receive_loop-Told :
      (rs : List (ReceiveRound net post)) (s : Receiver net post) → Connects rs → Told rs s
  receive_loop-Told [] s c = no_rounds s
  receive_loop-Told (r ∷ rs) s c =
      receive_step r rs s r.received s.peer (λ s'. receive_loop-Told rs s' c.1) c.0 refl refl

  -- If every `connect` succeeds, the receiver prints the quotes of all datagrams that can be read, in the order of arrival, up to
  -- the round that stops it, and announces to the ping thread the sender of the first of them, if the
  -- channel takes it, and nothing else.
  pub run_udp_receiver_lem :
      (rs : List (ReceiveRound net post)) (shutdown : Bool)
      → Connects rs
      → let r = run_udp_receiver net post (ok tt) rs shutdown in
        (r.0.shown ≡ quotes (arrivals rs)) × (r.0.announced ≡ told rs)
  unfolding run_udp_receiver newly
  run_udp_receiver_lem rs shutdown c =
      end (receive_loop net post rs (fresh_receiver net post))
        (receive_loop-Told rs (fresh_receiver net post) c)
    where
      end :
          (x : Receiver net post × Status)
          → (x.0.shown ≡ quotes (arrivals rs)) × (x.0.announced ≡ told rs)
          → let y : Receiver net post × Status × Bool = elim x.1 [
            | running ↦ (x.0, running, shutdown)
            | stopped ↦ (x.0, stopped, true)
            | failed e ↦ (x.0, failed e, true)
          ] in
            (y.0.shown ≡ quotes (arrivals rs)) × (y.0.announced ≡ told rs)
      end (s, running) h = h
      end (s, stopped) h = h
      end (s, failed e) h = h
