-- ===== src/Client/Udp/Delivered.antt =====
-- On quote-server/src/session.rs and quote-client/src/udp.rs: the quotes of a session, on their way
-- through the network to the client that shows them.
pub mod Lossy
pub mod FromGenerator
use rust_streaming_quotes.Base.{
  ℕ, zero, suc, ◌≤◌, ◌≡◌, refl, ap, sym, subst, ◌∙◌, arith, Bool, true, false, Option, none, some,
  List, [], ◌∷◌, ◌++◌, if◌then◌else◌, Result, ok, err, take, length, All, All-map, Bool-cases,
  Result-cases, inl, inr,
}
use mathlib.Core.List.{Memᴰ}
use rust_streaming_quotes.Text.{Text}
use rust_streaming_quotes.TextSet.{contains}
use rust_streaming_quotes.Core.Net.{Net}
use rust_streaming_quotes.Core.Tickers.{IoError}
use rust_streaming_quotes.Core.Types.{StockQuote}
use rust_streaming_quotes.Core.Wire.{Bytes, UdpPacketV1, quote, ping, Postcard, encode_v1, decode}
use rust_streaming_quotes.Core.Wire.Laws.{decode-encode_v1}
use rust_streaming_quotes.Server.Ping.{Instant, buffer_size, is_tick, Received, datagram, broken}
use rust_streaming_quotes.Server.Session.{Tick, session_loop, fresh_session}
use rust_streaming_quotes.Server.Session.Taken.{taken, datagrams}
use rust_streaming_quotes.Server.Session.Reliable.{session_loop_exact}
use rust_streaming_quotes.Server.Session.Sends.{IsWanted, session-IsWanted}
use rust_streaming_quotes.Client.Udp.Receiver.{ReceiveRound, run_udp_receiver}
use rust_streaming_quotes.Client.Udp.Receiver.Shown.{
  arrivals, quotes, readable, Connects, run_udp_receiver_lem,
}

take_all : {A : Type 0} (n : ℕ) (xs : List A) → length xs ≤ n → take n xs ≡ xs
take_all zero [] h = refl
take_all zero (x ∷ xs) h = absurd (omega (arith, h))
take_all (suc n) [] h = refl
take_all (suc n) (x ∷ xs) h = ap (λ ys. x ∷ ys) (take_all n xs (omega (arith, h)))

-- The quotes of the wanted tickers.
unfoldable pub asked_for : List Text → List StockQuote → List StockQuote
unfolding contains
asked_for tickers [] = []
asked_for tickers (q ∷ qs) =
    if contains q.ticker tickers then q ∷ asked_for tickers qs else asked_for tickers qs

module _ (net : Net) (post : Postcard) where
  open net use {SocketAddr}

  -- The rounds of a receiver which all datagrams reach, one after the other, from one sender; it may
  -- wait in vain in between.
  pub data Carries (src : SocketAddr)
      : List (ReceiveRound net post) → List (SocketAddr × Bytes) → Type 0 where
    no_more : Carries src [] []
    in_vain :
        {r : ReceiveRound net post} {rs : List (ReceiveRound net post)}
        {ds : List (SocketAddr × Bytes)} {e : IoError}
        → r.shutdown ≡ false
        → r.received ≡ broken e
        → is_tick e.kind ≡ true
        → Carries src rs ds
        → Carries src (r ∷ rs) ds
    arrives :
        {r : ReceiveRound net post} {rs : List (ReceiveRound net post)}
        {ds : List (SocketAddr × Bytes)} {target : SocketAddr} {bytes : Bytes}
        → r.shutdown ≡ false
        → r.received ≡ datagram bytes src
        → Carries src rs ds
        → Carries src (r ∷ rs) ((target, bytes) ∷ ds)

  -- What a receiver reads of datagrams.
  read_all : SocketAddr → List (SocketAddr × Bytes) → List (UdpPacketV1 × SocketAddr)
  unfolding decode
  read_all src [] = []
  read_all src ((target, bytes) ∷ ds) = elim (decode post (take buffer_size bytes)) [
    | ok pkt ↦ (pkt, src) ∷ read_all src ds
    | err e ↦ read_all src ds
  ]

  Carries-arrivals :
      (src : SocketAddr) {rs : List (ReceiveRound net post)} {ds : List (SocketAddr × Bytes)}
      → Carries src rs ds
      → arrivals net post rs ≡ read_all src ds
  unfolding arrivals read_all readable
  Carries-arrivals src no_more = refl
  Carries-arrivals src (in_vain s e t c) = ground (arith, Carries-arrivals src c)
  Carries-arrivals src (arrives {bytes = bytes} s e c) =
      elim (Result-cases (decode post (take buffer_size bytes))) [
        | inl (pkt, d) ↦ ground (arith, Carries-arrivals src c)
        | inr (x, d) ↦ ground (arith, Carries-arrivals src c)
      ]

  module _ (encode : StockQuote → Bytes)
      (encodes : (q : StockQuote) → encode_v1 post (quote q) ≡ ok (encode q)) where
    -- The datagram of the quote fits into the receive buffer.
    abbrev pub Fits : StockQuote → Type 0
    Fits q = length (encode q) ≤ buffer_size

    quotes_read :
        (tickers : List Text) (target src : SocketAddr) (qs : List StockQuote)
        → All Fits qs
        → quotes net post (read_all src (datagrams encode tickers target qs)) ≡ asked_for tickers qs
    unfolding read_all datagrams quotes asked_for
    quotes_read tickers target src [] h = refl
    quotes_read tickers target src (q ∷ qs) h =
        let whole = take_all buffer_size (encode q) h.0 in
        let back = decode-encode_v1 post (quote q) (encode q) (encodes q) in
        elim (Bool-cases (contains q.ticker tickers)) [
          | inr e ↦ rw (e, read_all) (quotes_read tickers target src qs h.1)
          | inl e ↦
              rw (e, whole, back, read_all)
                (ap (λ rest. q ∷ rest) (quotes_read tickers target src qs h.1))
        ]

    -- If every quote can be encoded, no send and no connect fails, the datagrams fit the receive buffer, and they all arrive from
    -- one sender in their order, then the client shows exactly the quotes of its tickers that its session
    -- takes from the channel, once each and in that order.
    pub shown_exact :
        (os_send : ℕ → SocketAddr → Bytes → Result (Unit {0}) IoError) (tickers : List Text)
        (target src : SocketAddr) (start : Instant) (attempts : ℕ)
        (ts : List (Tick net post os_send)) (rs : List (ReceiveRound net post)) (shutdown : Bool)
        → ((n : ℕ) (a : SocketAddr) (bytes : Bytes) → os_send n a bytes ≡ ok tt)
        → All Fits (taken net post os_send target start ts)
        → Carries src rs
            (session_loop net post os_send tickers target start ts
              (fresh_session net post os_send attempts)).0.delivered
        → Connects net post rs
        → (run_udp_receiver net post (ok tt) rs shutdown).0.shown
          ≡ asked_for tickers (taken net post os_send target start ts)
    shown_exact os_send tickers target src start attempts ts rs shutdown sends fits c connects =
        (run_udp_receiver_lem net post rs shutdown connects).0
        ∙ ap (quotes net post) (
            Carries-arrivals src c
            ∙ ap (read_all src) (
                session_loop_exact net post os_send encode sends encodes tickers target start
                  attempts ts))
        ∙ quotes_read tickers target src (taken net post os_send target start ts) fits
