-- ===== src/Server/Tcp/Joined.antt =====
-- On `run_tcp_listener` of quote-server/src/tcp.rs: the handles of its threads.
use rust_streaming_quotes.Base.{
  ◌+◌, ◌≡◌, refl, List, [], ◌∷◌, ◌++◌, ltb, if◌then◌else◌, Result, ok, err, arith, Bool-cases, inl,
  inr,
}
use rust_streaming_quotes.Core.Tickers.{IoError}
use rust_streaming_quotes.Server.Tcp.Accept.{
  Handle, Listener, Ended, running, stopped, panicked, failed, AcceptRound, spawn, join_all,
  accept_loop, run_tcp_listener, no_threads,
}
use rust_streaming_quotes.Server.Tcp.Reaped.{count, reap_finished_sessions_lem}

-- Each thread that was started is joined once or still held once, and there is no other handle.
abbrev Holds : Handle → Listener → Type 0
Holds h s = count h s.session_handles + count h s.joined ≡ (if ltb h s.next_thread then 1 else 0)

count-append : (h : Handle) (xs ys : List Handle) → count h (xs ++ ys) ≡ count h xs + count h ys
unfolding count
count-append h [] ys = omega arith
count-append h (x ∷ xs) ys = ground (arith, count-append h xs ys)

spawn-Holds : (h : Handle) (s : Listener) → Holds h s → Holds h (spawn s)
unfolding spawn count
spawn-Holds h s e = ground (arith, count-append h s.session_handles (s.next_thread ∷ []))

join_all-Holds :
    (h : Handle) (hs : List Handle) (s : Listener)
    → ((join_all hs s).session_handles ≡ [])
      × ((join_all hs s).next_thread ≡ s.next_thread)
      × (count h (join_all hs s).joined ≡ count h hs + count h s.joined)
unfolding join_all count
join_all-Holds h [] s = (refl, refl, ground arith)
join_all-Holds h (x ∷ hs) s =
    let ih = join_all-Holds h hs (record s { joined = x ∷ s.joined }) in
    (ih.0, ih.1, ground (arith, ih.2))

-- What the end of the listener says of the handles it held.
abbrev pub Settled : Handle → Listener × Ended → Type 0
Settled h (s, running) = Holds h s
Settled h (s, failed e) = Holds h s
Settled h (s, panicked) = ⊥
Settled h (s, stopped) = count h s.joined ≡ (if ltb h s.next_thread then 1 else 0)

Settled-accepted :
    (h : Handle) (accepted : Result (Result (Unit {0}) IoError) IoError)
    (spawned waited : Listener × Ended) (s : Listener)
    → Settled h spawned
    → Settled h waited
    → Holds h s
    → let y : Listener × Ended = elim accepted [
      | ok nonblocking ↦ elim nonblocking [ ok _ ↦ spawned | err e ↦ (s, failed e) ]
      | err e ↦ waited
    ] in
      Settled h y
Settled-accepted h (ok (ok u)) spawned waited s a b c = a
Settled-accepted h (ok (err e)) spawned waited s a b c = c
Settled-accepted h (err e) spawned waited s a b c = b

accept_loop-Settled :
    (h : Handle) (rs : List AcceptRound) (s : Listener) → Holds h s → Settled h (accept_loop rs s)
unfolding accept_loop
accept_loop-Settled h [] s e = e
accept_loop-Settled h (r ∷ rs) s e =
    let (reaped, found, made) =
      reap_finished_sessions_lem r.finished s.session_handles s.joined h in
    let s' = record s { session_handles = reaped.0; joined = reaped.1 } in
    let e' : Holds h s' = omega (arith, made.counts, e) in
    elim (Bool-cases r.shutdown) [
      | inl stop ↦
          rw (found, stop, accept_loop)
            (let end = join_all-Holds h reaped.0 s' in ground (arith, end, e'))
      | inr on ↦
          rw (found, on, accept_loop)
            (Settled-accepted h r.accepted _ _ s'
              (accept_loop-Settled h rs (spawn s') (spawn-Holds h s' e'))
              (accept_loop-Settled h rs s' e') e')
    ]

-- The listener never panics on an index; a thread that it started is, as long as the listener runs
-- or if it failed, either held or joined once, and when the listener has stopped it was joined once.
pub run_tcp_listener-Settled :
    (h : Handle) (rs : List AcceptRound) → Settled h (run_tcp_listener (ok tt) rs)
unfolding run_tcp_listener count
run_tcp_listener-Settled h rs = accept_loop-Settled h rs no_threads (ground arith)
