-- ===== src/Server/System/Interleaved.antt =====
-- On the threads of the server: what holds in every order of their steps.
use rust_streaming_quotes.Base.{ℕ, ◌-◌, ◌^◌, ◌<◌, ◌≤◌, ◌≡◌, ◌==◌, refl, arith, true, some, ok}
use rust_streaming_quotes.Assoc.{lookup}
use rust_streaming_quotes.Core.Types.{StockQuote}
use rust_streaming_quotes.Server.Channel.{Channels}
use rust_streaming_quotes.Server.Hub.{new, add_client}
use rust_streaming_quotes.Server.Hub.Invariant.{new-IsValid}
use rust_streaming_quotes.Server.System.{
  entering, System, Step, of_conn, of_gen, initial, Reach, begin, later,
}
use rust_streaming_quotes.Server.System.Facts.{registered, Inv, GenInv}
use rust_streaming_quotes.Server.System.Moves.{started-grows}
use rust_streaming_quotes.Server.System.Kept.{Move-Inv, Move-GenInv}
use rust_streaming_quotes.Server.System.Broadcasts.{GenMove-Inv, GenMove-GenInv, GenMove-started}

module _ (channels : Channels StockQuote) where
  open channels use {Chan, connected}

  -- What holds of a system of threads.
  abbrev pub SystemInv : System channels → Type 0
  SystemInv s = Inv channels s.mem s.conn × GenInv channels s.mem s.conn s.gen

  initial-Inv : (chan : ℕ → Chan) (next : ℕ) → SystemInv (initial channels chan next)
  unfolding new lookup
  initial-Inv chan next = (
    record {
      valid = new-IsValid channels chan next;
      counted = omega arith;
      known = tt;
      below = λ i x e. absurd (ground arith);
      own_id = λ i j x e e'. absurd (ground arith);
      in_store = λ i x e. absurd (ground arith);
      own_rx = λ i j x e e'. absurd (ground arith);
      vacant = λ i x e. refl;
      live = λ i x rx e. absurd (ground arith);
    },
    tt,
  )

  pub Step-started : {s t : System channels} → Step channels s t → s.mem.started ≤ t.mem.started
  Step-started (of_conn i mv) = started-grows channels mv
  Step-started {s} (of_gen mv) = omega (arith, GenMove-started channels mv)

  Step-Inv :
      {s t : System channels}
      → Step channels s t
      → t.mem.started < 2 ^ 64 - 1
      → SystemInv s
      → SystemInv t
  Step-Inv {s} (of_conn i mv) l (inv, gen) =
      (Move-Inv channels inv i refl mv l, Move-GenInv channels inv i refl mv l s.gen gen)
  Step-Inv (of_gen mv) l (inv, gen) =
      (GenMove-Inv channels inv mv gen, GenMove-GenInv channels inv mv gen)

  module _ {chan : ℕ → Chan} {next : ℕ} where
    pub Reach-Inv :
        {s : System channels}
        → Reach channels chan next s
        → s.mem.started < 2 ^ 64 - 1
        → SystemInv s
    Reach-Inv begin l = initial-Inv chan next
    Reach-Inv (later r st) l = Step-Inv st l (Reach-Inv r (omega (arith, Step-started st)))

    -- In every order of the steps of the connections and of the generator, as long as fewer than
    -- 2 ^ 64 - 1 commands were parsed, a client that is about to be told `OK` or is served is registered under its
    -- number with its own channel, which is connected: no broadcast and no other connection removes it.
    pub reachable-live :
        {s : System channels} (i : ℕ) {cid rx : ℕ}
        → Reach channels chan next s
        → s.mem.started < 2 ^ 64 - 1
        → registered (s.conn i) ≡ some (cid, rx)
        → (lookup ◌==◌ cid s.mem.hub.clients ≡ some rx) × (connected (s.mem.hub.chan rx) ≡ true)
    reachable-live i r l e = (Reach-Inv r l).0.live i _ _ e

    -- As long as fewer than 2 ^ 64 - 1 commands were parsed, the number of a connection that is about to register is free in every
    -- order of the steps, so `add_client` accepts it.
    pub reachable-accepted :
        {s : System channels} (i : ℕ) {cid : ℕ}
        → Reach channels chan next s
        → s.mem.started < 2 ^ 64 - 1
        → s.conn i ≡ entering cid
        → (add_client channels s.mem.hub cid).1 ≡ ok s.mem.hub.next_chan
    unfolding add_client
    reachable-accepted {s} i {cid} r l e = ground (arith, (Reach-Inv r l).0.vacant i cid (rw e))
