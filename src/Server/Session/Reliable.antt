-- ===== src/Server/Session/Reliable.antt =====
-- On quote-server/src/session.rs: the datagrams of a session whose sends do not fail.
use rust_streaming_quotes.Base.{
  ℕ, ◌≡◌, ◌≢◌, refl, ap, sym, ◌∙◌, true, false, List, [], ◌∷◌, ◌++◌, if◌then◌else◌, Result, ok, err,
  arith, Bool-cases, inl, inr, append_assoc, append-nil,
}
use rust_streaming_quotes.Text.{Text}
use rust_streaming_quotes.Core.Net.{Net}
use rust_streaming_quotes.Core.Tickers.{IoError}
use rust_streaming_quotes.Core.Types.{StockQuote}
use rust_streaming_quotes.Core.Wire.{Bytes, quote, Postcard, encode_v1}
use rust_streaming_quotes.Server.Ping.{Instant}
use rust_streaming_quotes.Server.Session.{
  SendError, shutdown_requested, ping_expired_for, channel_closed, Exit, running, finished, failed,
  Waited, got, timeout, disconnected, Sess, send_quote, count_result, handle_quote, drain,
  ping_expired, Tick, wait, tick, session_loop, fresh_session,
}
use rust_streaming_quotes.Server.Session.Taken.{
  waited_quotes, waited_on, stops, taken_in, goes_on, taken, datagrams, datagrams-append,
}

module _ (net : Net) (post : Postcard)
    (os_send : ℕ → net.SocketAddr → Bytes → Result (Unit {0}) IoError) where
  open net use {SocketAddr}
  open post use {Error}

  module _ (encode : StockQuote → Bytes)
      (sends : (n : ℕ) (a : SocketAddr) (bytes : Bytes) → os_send n a bytes ≡ ok tt)
      (encodes : (q : StockQuote) → encode_v1 post (quote q) ≡ ok (encode q)) where
    handle_quote_reliable :
        (tickers : List Text) (target : SocketAddr) (q : StockQuote) (s : Sess net post os_send)
        → ((handle_quote net post os_send tickers target q s).0.delivered
            ≡ s.delivered ++ datagrams encode tickers target (q ∷ []))
          × ((handle_quote net post os_send tickers target q s).1 ≡ ok tt)
    unfolding handle_quote send_quote count_result datagrams
    handle_quote_reliable tickers target q s = (
      ground (arith, sends s.attempts target (encode q), encodes q, append-nil s.delivered),
      ground (arith, sends s.attempts target (encode q), encodes q),
    )

    drain_step :
        (x rest : Sess net post os_send × Result (Unit {0}) (SendError Error))
        → x.1 ≡ ok tt
        → elim x.1 [ ok _ ↦ rest | err e ↦ (x.0, err e) ] ≡ rest
    drain_step (s, ok u) rest e = refl
    drain_step (s, err x) rest e = cc

    drain_reliable :
        (tickers : List Text) (target : SocketAddr) (qs : List StockQuote)
        (s : Sess net post os_send)
        → ((drain net post os_send tickers target qs s).0.delivered
            ≡ s.delivered ++ datagrams encode tickers target qs)
          × ((drain net post os_send tickers target qs s).1 ≡ ok tt)
    unfolding drain datagrams
    drain_reliable tickers target [] s = (sym (append-nil s.delivered), refl)
    drain_reliable tickers target (q ∷ qs) s =
        let x = handle_quote net post os_send tickers target q s in
        let first = handle_quote_reliable tickers target q s in
        let ih = drain_reliable tickers target qs x.0 in
        let here = drain_step x (drain net post os_send tickers target qs x.0) first.1 in
        (
          ap (λ y. y.0.delivered) here
              ∙ ih.0
              ∙ ap (λ d. d ++ datagrams encode tickers target qs) first.0
              ∙ append_assoc s.delivered (datagrams encode tickers target (q ∷ []))
                  (datagrams encode tickers target qs)
              ∙ ap (λ d. s.delivered ++ d)
                  (sym (datagrams-append encode tickers target (q ∷ []) qs)),
          ap (λ y. y.1) here ∙ ih.1,
        )

    exit_step :
        (x : Sess net post os_send × Result (Unit {0}) (SendError Error))
        (rest : Sess net post os_send × Exit Error)
        → x.1 ≡ ok tt
        → elim x.1 [ ok _ ↦ rest | err e ↦ (x.0, failed e) ] ≡ rest
    exit_step (s, ok u) rest e = refl
    exit_step (s, err x) rest e = cc

    wait_reliable :
        (tickers : List Text) (target : SocketAddr) (w : Waited) (s : Sess net post os_send)
        → ((wait net post os_send tickers target w s).0.delivered
            ≡ s.delivered ++ datagrams encode tickers target (waited_quotes w))
          × ((wait net post os_send tickers target w s).1 ≡ elim w [
            | got q ↦ running
            | timeout ↦ running
            | disconnected ↦ finished channel_closed
          ])
    unfolding wait datagrams waited_quotes
    wait_reliable tickers target (got q) s =
        let x = handle_quote net post os_send tickers target q s in
        let done = handle_quote_reliable tickers target q s in
        let here = exit_step x (x.0, running) done.1 in
        (ap (λ y. y.0.delivered) here ∙ done.0, ap (λ y. y.1) here)
    wait_reliable tickers target timeout s = (sym (append-nil s.delivered), refl)
    wait_reliable tickers target disconnected s = (sym (append-nil s.delivered), refl)

    tick_stopped :
        (tickers : List Text) (target : SocketAddr) (start : Instant) (t : Tick net post os_send)
        (s : Sess net post os_send)
        → stops net post os_send target start t ≡ true
        → tick net post os_send tickers target start t s
          ≡ (s, finished (if t.shutdown then shutdown_requested else ping_expired_for))
    unfolding tick stops
    tick_stopped tickers target start t s h = elim (Bool-cases t.shutdown) [
      | inl e ↦ rw (e, tick)
      | inr e ↦
          let gone : ping_expired net post os_send t.last_ping target start t.now ≡ true =
            ground arith in
          rw (e, gone, tick)
    ]

    tick_on :
        (tickers : List Text) (target : SocketAddr) (start : Instant) (t : Tick net post os_send)
        (s : Sess net post os_send)
        → stops net post os_send target start t ≡ false
        → tick net post os_send tickers target start t s
          ≡ wait net post os_send tickers target t.waited
              (drain net post os_send tickers target t.drained s).0
    unfolding tick stops
    tick_on tickers target start t s h =
        let x = drain net post os_send tickers target t.drained s in
        let flag : t.shutdown ≡ false = ground arith in
        let alive : ping_expired net post os_send t.last_ping target start t.now ≡ false =
          ground arith in
        rw (flag, alive, tick)
          (exit_step x (wait net post os_send tickers target t.waited x.0)
            (drain_reliable tickers target t.drained s).1)

    exit_goes_on :
        (w : Waited) (exit : Exit Error)
        → exit
          ≡ elim w [ got q ↦ running | timeout ↦ running | disconnected ↦ finished channel_closed ]
        → if waited_on w then exit ≡ running else exit ≢ running
    unfolding waited_on
    exit_goes_on (got q) exit e = e
    exit_goes_on timeout exit e = e
    exit_goes_on disconnected exit e = λ h. cc

    tick_reliable :
        (tickers : List Text) (target : SocketAddr) (start : Instant) (t : Tick net post os_send)
        (s : Sess net post os_send)
        → ((tick net post os_send tickers target start t s).0.delivered
            ≡ s.delivered
              ++ datagrams encode tickers target (taken_in net post os_send target start t))
          × ((if goes_on net post os_send target start t
              then (tick net post os_send tickers target start t s).1 ≡ running
              else (tick net post os_send tickers target start t s).1 ≢ running))
    unfolding taken_in goes_on datagrams
    tick_reliable tickers target start t s =
        elim (Bool-cases (stops net post os_send target start t)) [
          | inl e ↦
              let halt = tick_stopped tickers target start t s e in
              rw (e, taken_in, goes_on)
                (
                  ap (λ y. y.0.delivered) halt ∙ sym (append-nil s.delivered),
                  λ h. cc (ap (λ y. y.1) halt),
                )
          | inr e ↦
              let x = drain net post os_send tickers target t.drained s in
              let drained = drain_reliable tickers target t.drained s in
              let waited = wait_reliable tickers target t.waited x.0 in
              let go = tick_on tickers target start t s e in
              rw (e, taken_in, goes_on)
                (
                  ap (λ y. y.0.delivered) go
                      ∙ waited.0
                      ∙ ap (λ d. d ++ datagrams encode tickers target (waited_quotes t.waited))
                          drained.0
                      ∙ append_assoc s.delivered (datagrams encode tickers target t.drained) _
                      ∙ ap (λ d. s.delivered ++ d)
                          (sym (
                            datagrams-append encode tickers target t.drained
                              (waited_quotes t.waited))),
                  exit_goes_on t.waited _ (ap (λ y. y.1) go ∙ waited.1),
                )
        ]

    loop_on :
        (x rest : Sess net post os_send × Exit Error)
        → x.1 ≡ running
        → elim x.1 [ running ↦ rest | finished c ↦ (x.0, finished c) | failed e ↦ (x.0, failed e) ]
          ≡ rest
    loop_on (s, running) rest h = refl
    loop_on (s, finished c) rest h = cc
    loop_on (s, failed e) rest h = cc

    loop_off :
        (x rest : Sess net post os_send × Exit Error)
        → x.1 ≢ running
        → elim x.1 [ running ↦ rest | finished c ↦ (x.0, finished c) | failed e ↦ (x.0, failed e) ]
          ≡ x
    loop_off (s, running) rest h = absurd (h refl)
    loop_off (s, finished c) rest h = refl
    loop_off (s, failed e) rest h = refl

    session_loop_reliable :
        (tickers : List Text) (target : SocketAddr) (start : Instant)
        (ts : List (Tick net post os_send)) (s : Sess net post os_send)
        → (session_loop net post os_send tickers target start ts s).0.delivered
          ≡ s.delivered ++ datagrams encode tickers target (taken net post os_send target start ts)
    unfolding session_loop taken datagrams
    session_loop_reliable tickers target start [] s = sym (append-nil s.delivered)
    session_loop_reliable tickers target start (t ∷ ts) s =
        let x = tick net post os_send tickers target start t s in
        let rest = session_loop net post os_send tickers target start ts x.0 in
        let here = tick_reliable tickers target start t s in
        elim (Bool-cases (goes_on net post os_send target start t)) [
          | inl e ↦
              let on : x.1 ≡ running = ground (arith, here.1) in
              ap (λ y. y.0.delivered) (loop_on x rest on)
              ∙ session_loop_reliable tickers target start ts x.0
              ∙ ap
                  (λ d.
                    d ++ datagrams encode tickers target (taken net post os_send target start ts))
                  here.0
              ∙ append_assoc s.delivered _ _
              ∙ ap (λ d. s.delivered ++ d) (sym (datagrams-append encode tickers target _ _))
              ∙ rw e
          | inr e ↦
              let off : x.1 ≢ running = λ h. ground (arith, here.1) in
              ap (λ y. y.0.delivered) (loop_off x rest off)
              ∙ here.0
              ∙ rw (e, append-nil (taken_in net post os_send target start t))
        ]

    -- If no send fails, a session sends exactly the quotes of the wanted tickers that it takes from
    -- its channel up to the round that ends it, once each and in their order.
    pub session_loop_exact :
        (tickers : List Text) (target : SocketAddr) (start : Instant) (attempts : ℕ)
        (ts : List (Tick net post os_send))
        → (session_loop net post os_send tickers target start ts
            (fresh_session net post os_send attempts)).0.delivered
          ≡ datagrams encode tickers target (taken net post os_send target start ts)
    session_loop_exact tickers target start attempts ts =
        session_loop_reliable tickers target start ts (fresh_session net post os_send attempts)
