-- ===== src/Server/System/Swept.antt =====
-- On the threads of the server: a broadcast removes the clients whose receivers are gone, whatever
-- the other threads do in between.
use rust_streaming_quotes.Base.{
  ℕ, ◌-◌, ◌^◌, ◌<◌, ◌≤◌, ◌≡◌, ◌≢◌, ◌==◌, refl, arith, subst, ◌∙◌, false, Bool-cases, some, none,
  List, [], ◌∷◌, inl, inr, All,
}
use rust_streaming_quotes.Assoc.{lookup}
use rust_streaming_quotes.Core.Types.{StockQuote}
use rust_streaming_quotes.Server.Channel.{Channels}
use rust_streaming_quotes.Server.Hub.{ClientId, start}
use rust_streaming_quotes.Server.Hub.Delivery.{is_dead, dead-lookup}
use rust_streaming_quotes.Server.System.{
  ConnPc, Memory, resting, sending, snapshot, System, Step, of_conn, of_gen, Steps, done, then,
  Reach, later,
}
use rust_streaming_quotes.Server.System.Facts.{held}
use rust_streaming_quotes.Server.System.Moves.{started-grows}
use rust_streaming_quotes.Server.System.Broadcasts.{GenMove-started}
use rust_streaming_quotes.Server.System.Interleaved.{Reach-Inv, Step-started}
use rust_streaming_quotes.Server.System.Owned.{Reach-Owned}
use rust_streaming_quotes.Server.System.Due.{Due, IsSwept, Move-IsSwept, GenMove-IsSwept}

module _ (channels : Channels StockQuote) where
  open channels use {Chan, connected}

  Steps-started : {u s : System channels} → Steps channels u s → s.mem.started ≤ u.mem.started
  Steps-started done = omega arith
  Steps-started (then st sts) = omega (arith, Step-started channels st, Steps-started sts)

  entry_known :
      (c curr : ℕ) {tx : ℕ} (es : List (ClientId × ℕ))
      → All (λ e. e.0 < curr) es
      → lookup ◌==◌ c es ≡ some tx
      → c < curr
  unfolding lookup
  entry_known c curr [] a e = absurd (ground arith)
  entry_known c curr {tx} ((i, k) ∷ es) a e = ground (arith, entry_known c curr {tx = tx} es a.1)

  module _ {chan : ℕ → Chan} {next : ℕ} where
    Step-IsSwept :
        (c : ClientId) {s t : System channels}
        → Reach channels chan next s
        → Step channels s t
        → t.mem.started < 2 ^ 64 - 1
        → IsSwept channels c s.mem s.conn s.gen
        → IsSwept channels c t.mem t.conn t.gen
    Step-IsSwept c {s} r (of_conn i mv) l h =
        let before = Reach-Inv channels r (omega (arith, l, started-grows channels mv)) in
        let after = Reach-Inv channels (later r (of_conn i mv)) l in
        Move-IsSwept channels c s.conn i s.gen before.0.counted after.0.counted mv h
    Step-IsSwept c {s} r (of_gen mv) l h =
        let before = Reach-Inv channels r (omega (arith, l, GenMove-started channels mv)) in
        let after = Reach-Inv channels (later r (of_gen mv)) l in
        GenMove-IsSwept channels c before.0 after.0 mv h

    Steps-IsSwept :
        (c : ClientId) {u s : System channels}
        → Reach channels chan next s
        → Steps channels u s
        → u.mem.started < 2 ^ 64 - 1
        → IsSwept channels c s.mem s.conn s.gen
        → IsSwept channels c u.mem u.conn u.gen
    Steps-IsSwept c r done l h = h
    Steps-IsSwept c r (then st sts) l h =
        Steps-IsSwept c (later r st) sts l
          (Step-IsSwept c r st (omega (arith, l, Steps-started sts)) h)

    -- A broadcast takes its snapshot when no connection holds the receiver of some registered client any
    -- more. Whatever the connections do while the broadcast runs and behind it, in any order and as long
    -- as fewer than 2 ^ 64 - 1 commands were parsed, once the generator rests again the client is no
    -- longer registered.
    pub abandoned-swept :
        {mem : Memory channels} {conn : ℕ → ConnPc} {u : System channels} (cid tx : ℕ)
        (q : StockQuote)
        → Reach channels chan next (record { mem = mem; conn = conn; gen = resting })
        → lookup ◌==◌ cid mem.hub.clients ≡ some tx
        → ((i : ℕ) → held (conn i) ≢ some tx)
        → Steps channels u (record {
          mem = mem;
          conn = conn;
          gen = sending q mem.hub.clients (start channels mem.hub);
        })
        → u.mem.started < 2 ^ 64 - 1
        → u.gen ≡ resting
        → lookup ◌==◌ cid u.mem.hub.clients ≡ none
    unfolding is_dead
    abandoned-swept {mem} {conn} {u} cid tx q r e free sts l g =
        let inv = (Reach-Inv channels r (omega (arith, l, Steps-started sts))).0 in
        let closed : connected (mem.hub.chan tx) ≡ false =
          elim (Bool-cases (connected (mem.hub.chan tx))) [
            | inr o ↦ o
            | inl o ↦ let (i, h) = Reach-Owned channels r cid tx e o in absurd (free i h)
          ] in
        let now : IsSwept channels cid mem conn
            (sending q mem.hub.clients (start channels mem.hub)) =
          record {
            old = entry_known cid mem.curr_client_id mem.hub.clients inv.known e;
            not_coming = λ i c. ground (arith, inv.vacant i cid c, e);
            fate = inr (
                inl (
                  inv.valid.allocated,
                  dead-lookup channels cid mem.hub.chan mem.hub.clients inv.valid.registry
                      ∙ rw (e, is_dead, closed) refl,
                ));
          } in
        elim (Steps-IsSwept cid (later r (of_gen snapshot)) sts l now).fate [
          | inl h ↦ h
          | inr d ↦ absurd (subst (Due channels cid u.mem) g d)
        ]
