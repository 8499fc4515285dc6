-- ===== src/Server/Session/Taken.antt =====
-- On quote-server/src/session.rs: what a session takes from its channel, and the datagrams for it.
use rust_streaming_quotes.Base.{
  ℕ, ◌≡◌, refl, Bool, true, false, ◌||◌, List, [], ◌∷◌, ◌++◌, if◌then◌else◌, Result, arith,
}
use rust_streaming_quotes.Text.{Text}
use rust_streaming_quotes.TextSet.{contains}
use rust_streaming_quotes.Core.Net.{Net}
use rust_streaming_quotes.Core.Tickers.{IoError}
use rust_streaming_quotes.Core.Types.{StockQuote}
use rust_streaming_quotes.Core.Wire.{Bytes, Postcard}
use rust_streaming_quotes.Server.Ping.{Instant}
use rust_streaming_quotes.Server.Session.{Waited, got, timeout, disconnected, ping_expired, Tick}

unfoldable pub waited_quotes : Waited → List StockQuote
waited_quotes (got q) = q ∷ []
waited_quotes timeout = []
waited_quotes disconnected = []

unfoldable pub waited_on : Waited → Bool
waited_on (got q) = true
waited_on timeout = true
waited_on disconnected = false

module _ (net : Net) (post : Postcard)
    (os_send : ℕ → net.SocketAddr → Bytes → Result (Unit {0}) IoError) where
  open net use {SocketAddr}

  -- The round meets a request to shut down, or a client that has been silent for too long.
  unfoldable pub stops : SocketAddr → Instant → Tick net post os_send → Bool
  stops target start t = t.shutdown || ping_expired net post os_send t.last_ping target start t.now

  -- The quotes that a round takes from the channel.
  unfoldable pub taken_in : SocketAddr → Instant → Tick net post os_send → List StockQuote
  unfolding stops waited_quotes
  taken_in target start t = if stops target start t then [] else t.drained ++ waited_quotes t.waited

  unfoldable pub goes_on : SocketAddr → Instant → Tick net post os_send → Bool
  unfolding stops waited_on
  goes_on target start t = if stops target start t then false else waited_on t.waited

  -- The quotes that a session takes, up to the round that ends it.
  unfoldable pub taken : SocketAddr → Instant → List (Tick net post os_send) → List StockQuote
  unfolding taken_in goes_on
  taken target start [] = []
  taken target start (t ∷ ts) =
      let rest = taken target start ts in
      taken_in target start t ++ (if goes_on target start t then rest else [])

module _ {A : Type 0} (encode : StockQuote → Bytes) where
  -- One datagram for each quote of a wanted ticker.
  unfoldable pub datagrams : List Text → A → List StockQuote → List (A × Bytes)
  datagrams tickers target [] = []
  datagrams tickers target (q ∷ qs) =
      if contains q.ticker tickers
      then (target, encode q) ∷ datagrams tickers target qs
      else datagrams tickers target qs

  pub datagrams-append :
      (tickers : List Text) (target : A) (qs rs : List StockQuote)
      → datagrams tickers target (qs ++ rs)
        ≡ datagrams tickers target qs ++ datagrams tickers target rs
  unfolding datagrams
  datagrams-append tickers target [] rs = refl
  datagrams-append tickers target (q ∷ qs) rs =
      ground (arith, datagrams-append tickers target qs rs)
