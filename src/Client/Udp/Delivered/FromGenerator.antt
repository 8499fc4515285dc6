-- ===== src/Client/Udp/Delivered/FromGenerator.antt =====
-- On quote-server/src/main.rs, hub.rs and session.rs and quote-client/src/udp.rs: a round of the
-- generator, on its way through the hub, a session and the network to the screen of a client.
use rust_streaming_quotes.Base.{
  ℕ, ◌≤◌, ◌≡◌, refl, ap, sym, subst, ◌∙◌, arith, Bool, true, false, some, List, [], ◌∷◌, ◌++◌,
  append-nil, if◌then◌else◌, Result, ok, length, All,
}
use rust_streaming_quotes.Text.{Text}
use rust_streaming_quotes.TextSet.{contains}
use rust_streaming_quotes.Core.Net.{Net}
use rust_streaming_quotes.Core.Tickers.{IoError}
use rust_streaming_quotes.Core.Types.{StockQuote}
use rust_streaming_quotes.Core.Wire.{Bytes, quote, Postcard, encode_v1}
use rust_streaming_quotes.Server.Channel.{Channels}
use rust_streaming_quotes.Server.Ping.{Instant}
use rust_streaming_quotes.Server.Hub.{ClientId}
use rust_streaming_quotes.Server.Hub.Loop.{Mailbox}
use rust_streaming_quotes.Server.Hub.Delivery.{mailbox}
use rust_streaming_quotes.Server.Hub.Invariant.{IsValid}
use rust_streaming_quotes.Server.Generator.{keys}
use rust_streaming_quotes.Server.Generator.Batch.{named_tickers}
use rust_streaming_quotes.Server.Main.{Round, Producer, produce}
use rust_streaming_quotes.Server.Main.Rounds.{LeavesAlone, produce-mailbox}
use rust_streaming_quotes.Server.Session.{Tick, timeout, session_loop, fresh_session}
use rust_streaming_quotes.Server.Session.Taken.{waited_quotes, stops, taken, taken_in, goes_on}
use rust_streaming_quotes.Client.Udp.Receiver.{ReceiveRound, run_udp_receiver}
use rust_streaming_quotes.Client.Udp.Receiver.Shown.{Connects}
use rust_streaming_quotes.Client.Udp.Delivered.{Carries, Fits, asked_for, shown_exact}

-- Those of the tickers that are wanted.
unfoldable pub wanted_of : List Text → List Text → List Text
unfolding contains
wanted_of tickers [] = []
wanted_of tickers (t ∷ ts) =
    if contains t tickers then t ∷ wanted_of tickers ts else wanted_of tickers ts

named_tickers-asked_for :
    (tickers : List Text) (qs : List StockQuote)
    → named_tickers (asked_for tickers qs) ≡ wanted_of tickers (named_tickers qs)
unfolding named_tickers asked_for wanted_of
named_tickers-asked_for tickers [] = refl
named_tickers-asked_for tickers (q ∷ qs) = ground (arith, named_tickers-asked_for tickers qs)

module _ (channels : Channels StockQuote) (net : Net) (post : Postcard)
    (os_send : ℕ → net.SocketAddr → Bytes → Result (Unit {0}) IoError) (encode : StockQuote → Bytes)
    (encodes : (q : StockQuote) → encode_v1 post (quote q) ≡ ok (encode q)) where
  open net use {SocketAddr}

  -- A round of a session that goes on and takes all of the client's queue.
  pub record IsDrain (target : SocketAddr) (start : Instant) (t : Tick net post os_send)
      (queue : List StockQuote) : Type 0 where
    pub all_drained : t.drained ≡ queue
    pub none_waited : t.waited ≡ timeout
    pub in_time : stops net post os_send target start t ≡ false

  taken_drain :
      (target : SocketAddr) (start : Instant) (t : Tick net post os_send) (queue : List StockQuote)
      → IsDrain target start t queue
      → taken net post os_send target start (t ∷ []) ≡ queue
  unfolding taken taken_in goes_on waited_quotes
  taken_drain target start t queue d =
      rw (d.in_time, d.none_waited, d.all_drained) (append-nil (queue ++ []) ∙ append-nil queue)

  -- A round of the generator reaches the screen. Its conditions: the hub is well formed and holds a
  -- registered client with a live receiver, whose queue is empty and has room for a quote per ticker;
  -- while the round is broadcast, the other threads, the client's own session too, keep the hub well
  -- formed and leave this client's mailbox as it is; in its next round the session is not stopped,
  -- drains the whole queue and waits for nothing more; every quote can be encoded, no send and no connect
  -- fails, and the datagrams fit the receive buffer and arrive from one sender in their order. Then the
  -- client shows exactly one quote for each of the generator's tickers that it asked for, in the
  -- generator's order.
  pub produce-shown :
      (r : Round channels) (s : Producer channels) (cid : ClientId) (m after : Mailbox)
      (tickers : List Text) (target src : SocketAddr) (start : Instant) (t : Tick net post os_send)
      (rs : List (ReceiveRound net post)) (shutdown : Bool)
      → ((n : ℕ) (a : SocketAddr) (bytes : Bytes) → os_send n a bytes ≡ ok tt)
      → IsValid channels s.hub
      → LeavesAlone channels cid r.meanwhile
      → mailbox channels s.hub cid ≡ some m
      → m.connected ≡ true
      → m.queue ≡ []
      → length (keys s.q_gen.states) ≤ m.capacity
      → mailbox channels (produce channels r s).hub cid ≡ some after
      → IsDrain target start t after.queue
      → All (Fits net post encode encodes) after.queue
      → Carries net post src rs
          (session_loop net post os_send tickers target start
            (t ∷ [])
            (fresh_session net post os_send 0)).0.delivered
      → Connects net post rs
      → named_tickers (run_udp_receiver net post (ok tt) rs shutdown).0.shown
        ≡ wanted_of tickers (keys s.q_gen.states)
  produce-shown r s cid m after tickers target src start t rs shutdown sends v alone e c empty room
        held drain fits carries connects =
      let (qs, filled, names, _, _) =
        produce-mailbox channels r s cid m v alone e c (omega (arith, room, ap length empty)) in
      let same : after ≡ record m { queue = m.queue ++ qs } = cc (held, filled) in
      let got = taken_drain target start t after.queue drain in
      let shown =
        shown_exact net post encode encodes os_send tickers target src start 0 (t ∷ []) rs shutdown
          sends (subst (All (Fits net post encode encodes)) (sym got) fits) carries connects in
      ap named_tickers
        (shown ∙ ap (asked_for tickers) (got ∙ ap (λ x. x.queue) same ∙ ap (λ xs. xs ++ qs) empty))
      ∙ named_tickers-asked_for tickers qs
      ∙ ap (wanted_of tickers) names
