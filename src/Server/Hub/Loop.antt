-- ===== src/Server/Hub/Loop.antt =====
-- The loop of `broadcast`: what it does to the channels, and what it counts.
use rust_streaming_quotes.Base.{
  ℕ, suc, ◌+◌, ◌<◌, ◌^◌, ◌≡◌, ◌≢◌, refl, ap, inl, inr, Bool, true, false, not, ◌||◌, ◌&&◌, List, [],
  ◌∷◌, ◌++◌, ◌==◌, ltb, if◌then◌else◌, length, length-append, arith, All, Bool-cases,
}
use rust_streaming_quotes.Assoc.{update}
use rust_streaming_quotes.Core.Types.{StockQuote}
use rust_streaming_quotes.Server.Channel.{Channels, SendResult, sent, full, disconnected}
use rust_streaming_quotes.Server.Hub.{ClientId, Progress, tally, send_one, send_loop, add_usize}

-- What a channel is, for its two ends.
pub record Mailbox : Type 0 where
  pub queue : List StockQuote
  pub capacity : ℕ
  pub connected : Bool

-- A message goes to the end of the queue, if a receiver is left and there is room.
unfoldable pub push : StockQuote → Mailbox → Mailbox
push q m =
    if m.connected && ltb (length m.queue) m.capacity
    then record m { queue = m.queue ++ q ∷ [] }
    else m

unfoldable pub fate : Mailbox → SendResult
fate m =
    if m.connected then (if ltb (length m.queue) m.capacity then sent else full) else disconnected

-- No entry shares its client or its channel with another.
abbrev pub Apart : ClientId → ℕ → List (ClientId × ℕ) → Type 0
Apart cid tx = All (λ e. (e.0 ≢ cid) × (e.1 ≢ tx))

abbrev pub IsRegistry : List (ClientId × ℕ) → Type 0
IsRegistry [] = Unit
IsRegistry ((cid, tx) ∷ m) = Apart cid tx m × IsRegistry m

unfoldable pub has_tx : ℕ → List (ClientId × ℕ) → Bool
has_tx k [] = false
has_tx k ((cid, tx) ∷ m) = k == tx || has_tx k m

unfoldable pub has_id : ClientId → List ClientId → Bool
has_id cid [] = false
has_id cid (i ∷ ids) = cid == i || has_id cid ids

unfoldable pub same : SendResult → SendResult → Bool
same sent sent = true
same full full = true
same disconnected disconnected = true
same _ _ = false

unfoldable pub count : SendResult → List SendResult → ℕ
unfolding same
count r [] = 0
count r (x ∷ xs) = if same r x then suc (count r xs) else count r xs

module _ (channels : Channels StockQuote) where
  open channels use {
    Chan, bounded, try_send, queue, capacity, connected, try_send_dead, try_send_full,
    try_send_room,
  }

  abbrev pub view : Chan → Mailbox
  view c = record { queue = queue c; capacity = capacity c; connected = connected c }

  pub view-try_send :
      (q : StockQuote) (c : Chan)
      → (view (try_send q c).0 ≡ push q (view c)) × ((try_send q c).1 ≡ fate (view c))
  unfolding push fate
  view-try_send q c = elim (Bool-cases (connected c)) [
    | inr e ↦ ground (arith, try_send_dead q c e)
    | inl e ↦ elim (Bool-cases (ltb (length (queue c)) (capacity c))) [
      | inl l ↦ ground (arith, try_send_room q c e (ground arith))
      | inr l ↦ ground (arith, try_send_full q c e (ground arith))
    ]
  ]

  abbrev pub outcomes : (ℕ → Chan) → List (ClientId × ℕ) → List SendResult
  outcomes store [] = []
  outcomes store ((cid, tx) ∷ m) = fate (view (store tx)) ∷ outcomes store m

  -- Who is registered with a channel that has lost its receiver.
  unfoldable pub dead : ClientId → (ℕ → Chan) → List (ClientId × ℕ) → Bool
  dead cid store [] = false
  dead cid store ((i, tx) ∷ m) = cid == i && not (connected (store tx)) || dead cid store m

  outcomes-update :
      (cid tx : ℕ) (store : ℕ → Chan) (c : Chan) (m : List (ClientId × ℕ))
      → Apart cid tx m
      → outcomes (update store tx c) m ≡ outcomes store m
  outcomes-update cid tx store c [] h = refl
  outcomes-update cid tx store c ((i, k) ∷ m) h =
      ground (arith, outcomes-update cid tx store c m h.1)

  dead-update :
      (j cid tx : ℕ) (store : ℕ → Chan) (c : Chan) (m : List (ClientId × ℕ))
      → Apart cid tx m
      → dead j (update store tx c) m ≡ dead j store m
  unfolding dead
  dead-update j cid tx store c [] h = refl
  dead-update j cid tx store c ((i, k) ∷ m) h = ground (arith, dead-update j cid tx store c m h.1)

  pub Apart-has_tx : (cid tx : ℕ) (m : List (ClientId × ℕ)) → Apart cid tx m → has_tx tx m ≡ false
  unfolding has_tx
  Apart-has_tx cid tx [] h = refl
  Apart-has_tx cid tx ((i, k) ∷ m) h = ground (arith, Apart-has_tx cid tx m h.1)

  pub send_one-store :
      (q : StockQuote) (cid tx : ℕ) (p : Progress channels)
      → (send_one channels q cid tx p).store ≡ update p.store tx (try_send q (p.store tx)).0
  unfolding send_one tally
  send_one-store q cid tx p = ground arith

  pub send_loop-store :
      (q : StockQuote) (m : List (ClientId × ℕ)) (p : Progress channels) (k : ℕ)
      → IsRegistry m
      → (send_loop channels q m p).store k
        ≡ (if has_tx k m then (try_send q (p.store k)).0 else p.store k)
  unfolding send_loop has_tx
  send_loop-store q [] p k h = refl
  send_loop-store q ((cid, tx) ∷ m) p k h =
      rw (send_loop-store q m (send_one channels q cid tx p) k h.1, send_one-store q cid tx p)
        (ground (arith, Apart-has_tx cid tx m h.0))

  -- The three effects of one send on the counters, by the fate of the message.
  pub send_one-counts :
      (q : StockQuote) (cid tx : ℕ) (p : Progress channels)
      → ((send_one channels q cid tx p).sent_count ≡ (
          if same sent (fate (view (p.store tx))) then add_usize p.sent_count 1 else p.sent_count))
        × ((send_one channels q cid tx p).dropped_full ≡ (
            if same full (fate (view (p.store tx)))
            then add_usize p.dropped_full 1
            else p.dropped_full))
        × ((send_one channels q cid tx p).dropped_disconnected ≡ (
            if same disconnected (fate (view (p.store tx)))
            then p.dropped_disconnected ++ cid ∷ []
            else p.dropped_disconnected))
  unfolding send_one tally same
  send_one-counts q cid tx p = ground (arith, (view-try_send q (p.store tx)).1)

  send_one-outcomes :
      (q : StockQuote) (cid tx : ℕ) (m : List (ClientId × ℕ)) (p : Progress channels)
      → Apart cid tx m
      → outcomes (send_one channels q cid tx p).store m ≡ outcomes p.store m
  send_one-outcomes q cid tx m p h =
      rw (send_one-store q cid tx p) (outcomes-update cid tx p.store _ m h)

  -- The counters count the fates of the message, as long as they do not overflow.
  pub send_loop-counts :
      (q : StockQuote) (m : List (ClientId × ℕ)) (p : Progress channels)
      → IsRegistry m
      → p.sent_count + length m < 2 ^ 64
      → p.dropped_full + length m < 2 ^ 64
      → ((send_loop channels q m p).sent_count ≡ p.sent_count + count sent (outcomes p.store m))
        × ((send_loop channels q m p).dropped_full
            ≡ p.dropped_full + count full (outcomes p.store m))
        × (length (send_loop channels q m p).dropped_disconnected
            ≡ length p.dropped_disconnected + count disconnected (outcomes p.store m))
  unfolding send_loop count
  send_loop-counts q [] p h b b' = (omega arith, omega arith, omega arith)
  send_loop-counts q ((cid, tx) ∷ m) p h b b' =
      let p' = send_one channels q cid tx p in
      let ih = send_loop-counts q m p' h.1 in
      ground (
        arith,
        ih,
        send_one-counts q cid tx p,
        send_one-outcomes q cid tx m p h.0,
        length-append p.dropped_disconnected (cid ∷ []),
      )

  has_id-append :
      (j cid : ℕ) (ids : List ℕ) → has_id j (ids ++ cid ∷ []) ≡ (has_id j ids || j == cid)
  unfolding has_id
  has_id-append j cid [] = ground arith
  has_id-append j cid (i ∷ ids) = ground (arith, has_id-append j cid ids)

  send_one-dead :
      (q : StockQuote) (j cid tx : ℕ) (m : List (ClientId × ℕ)) (p : Progress channels)
      → Apart cid tx m
      → dead j (send_one channels q cid tx p).store m ≡ dead j p.store m
  send_one-dead q j cid tx m p h =
      rw (send_one-store q cid tx p) (dead-update j cid tx p.store _ m h)

  -- The clients that the loop notes down are those whose receiver is gone.
  pub send_loop-dropped :
      (q : StockQuote) (j : ℕ) (m : List (ClientId × ℕ)) (p : Progress channels)
      → IsRegistry m
      → has_id j (send_loop channels q m p).dropped_disconnected
        ≡ (has_id j p.dropped_disconnected || dead j p.store m)
  unfolding send_loop dead fate same
  send_loop-dropped q j [] p h = ground arith
  send_loop-dropped q j ((cid, tx) ∷ m) p h = ground (
    arith,
    send_loop-dropped q j m (send_one channels q cid tx p) h.1,
    (send_one-counts q cid tx p).2,
    send_one-dead q j cid tx m p h.0,
    has_id-append j cid p.dropped_disconnected,
  )

pub count_total :
    (xs : List SendResult) → count sent xs + count full xs + count disconnected xs ≡ length xs
unfolding count
count_total [] = omega arith
count_total (sent ∷ xs) = omega (arith, count_total xs)
count_total (full ∷ xs) = omega (arith, count_total xs)
count_total (disconnected ∷ xs) = omega (arith, count_total xs)

pub length-outcomes :
    (channels : Channels StockQuote) (store : ℕ → channels.Chan) (m : List (ClientId × ℕ))
    → length (outcomes channels store m) ≡ length m
length-outcomes channels store [] = refl
length-outcomes channels store ((cid, tx) ∷ m) = ap suc (length-outcomes channels store m)
