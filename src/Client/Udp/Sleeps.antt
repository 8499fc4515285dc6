-- ===== src/Client/Udp/Sleeps.antt =====
-- On the sleeps of `run_ping` of quote-client/src/udp.rs: how long they last, on any clock.
use rust_streaming_quotes.Base.{
  ℕ, zero, suc, ◌+◌, ◌-◌, ◌*◌, ◌<◌, ◌≤◌, ◌≡◌, refl, arith, Bool, true, false, ◌&&◌, not, some, ltb,
  Bool-cases, inl, inr, ◌⊎◌,
}
use rust_streaming_quotes.Core.Constants.{from_millis}
use rust_streaming_quotes.Server.Ping.{Instant}
use rust_streaming_quotes.Client.Udp.Ping.{Clock, min, sleep_loop, nap}

-- Where the sleep between two pings ends: it is as long as the interval at least, or the flag was set.
pub record IsNap (shutdown : Instant → Bool) (interval : ℕ) (start woken : Instant) : Type 0 where
  pub later : start ≤ woken
  pub whole : (start + interval ≤ woken) ⊎ (shutdown woken ≡ true)

-- No send and no sleep takes more than `late` longer than it has to.
pub record IsPrompt (late : ℕ) (clock : Clock) : Type 0 where
  pub sends : (t : Instant) → clock.returns t ≤ t + late
  pub sleeps : (t : Instant) (step : ℕ) → clock.wakes t step ≤ t + step + late

module _ (clock : Clock) (shutdown : Instant → Bool) (interval tick : ℕ) where
  open clock use {wakes, wakes_lem}

  sleep_loop_lem :
      (fuel : ℕ) (now : Instant) (slept : ℕ)
      → 0 < tick
      → slept ≤ interval
      → interval ≤ slept + fuel
      → (woken : Instant) × (sleep_loop clock shutdown interval tick fuel now slept ≡ some woken)
        × IsNap shutdown (interval - slept) now woken
  unfolding sleep_loop min
  sleep_loop_lem zero now slept t b f =
      (now, ground arith, record { later = omega arith; whole = inl (omega (arith, b, f)) })
  sleep_loop_lem (suc fuel) now slept t b f =
      elim (Bool-cases (ltb slept interval && not (shutdown now))) [
        | inl e ↦
            let step = min (interval - slept) tick in
            let (woken, r, n) =
              sleep_loop_lem fuel (wakes now step) (slept + step) t (ground arith) (ground arith) in
            (
              woken,
              rw (e, sleep_loop) r,
              record {
                later = omega (arith, n.later, wakes_lem now step);
                whole = elim n.whole [
                  | inr on ↦ inr on
                  | inl l ↦ inl (ground (arith, wakes_lem now step, l))
                ];
              },
            )
        | inr e ↦ (now, rw (e, sleep_loop) refl, record { later = omega arith; whole = end_of e })
      ]
    where
      end_of :
          (ltb slept interval && not (shutdown now)) ≡ false
          → (now + (interval - slept) ≤ now) ⊎ (shutdown now ≡ true)
      end_of e = elim (Bool-cases (shutdown now)) [ inl on ↦ inr on | inr off ↦ inl (ground arith) ]

  -- A sleep of `n` steps at most.
  pub sleep_loop_late :
      {late : ℕ}
      → IsPrompt late clock
      → (n fuel : ℕ) (now : Instant) (slept : ℕ) (woken : Instant) → slept ≤ interval
      → interval ≤ slept + n * tick
      → sleep_loop clock shutdown interval tick fuel now slept ≡ some woken
      → woken ≤ now + (interval - slept) + n * late
  unfolding sleep_loop min
  sleep_loop_late pr n zero now slept woken b l e = ground arith
  sleep_loop_late {late} pr n (suc fuel) now slept woken b l e =
      elim (Bool-cases (ltb slept interval && not (shutdown now))) [
        | inr h ↦ ground arith
        | inl h ↦
            let step = min (interval - slept) tick in
            let ih =
              sleep_loop_late pr (n - 1) fuel (wakes now step) (slept + step) woken (ground arith)
                (fewer n h l) (continued h e) in
            omega (arith, ih, pr.sleeps now step, one_more n h l, stays h)
      ]
    where
      continued :
          (ltb slept interval && not (shutdown now)) ≡ true
          → sleep_loop clock shutdown interval tick (suc fuel) now slept ≡ some woken
          → (let step = min (interval - slept) tick in
              sleep_loop clock shutdown interval tick fuel (wakes now step) (slept + step))
            ≡ some woken
      continued h e = ground arith

      one_more :
          (n : ℕ)
          → (ltb slept interval && not (shutdown now)) ≡ true
          → interval ≤ slept + n * tick
          → (n - 1) * late + late ≡ n * late
      one_more zero h l = absurd (ground arith)
      one_more (suc n) h l = ground arith

      stays :
          (ltb slept interval && not (shutdown now)) ≡ true
          → slept + min (interval - slept) tick ≤ interval
      stays h = ground arith

      fewer :
          (n : ℕ)
          → (ltb slept interval && not (shutdown now)) ≡ true
          → interval ≤ slept + n * tick
          → interval ≤ slept + min (interval - slept) tick + (n - 1) * tick
      fewer zero h l = absurd (ground arith)
      fewer (suc n) h l = ground arith

pub nap_lem :
    (clock : Clock) (shutdown : Instant → Bool) (interval : ℕ) (start : Instant)
    → (woken : Instant) × (nap clock shutdown interval start ≡ some woken)
      × IsNap shutdown interval start woken
unfolding nap
nap_lem clock shutdown interval start =
    let (woken, e, n) =
      sleep_loop_lem clock shutdown interval (from_millis 200) interval start 0 (omega arith)
        (omega arith) (omega arith) in
    (
      woken,
      e,
      record {
        later = n.later;
        whole = elim n.whole [ inl l ↦ inl (omega (arith, l)) | inr on ↦ inr on ];
      },
    )
