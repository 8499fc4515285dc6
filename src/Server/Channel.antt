-- ===== src/Server/Channel.antt =====
-- The bounded channels of the crate crossbeam-channel, as the hub uses them. What is relied on is
-- what the crate documents of `bounded`, `try_send`, a receive and a dropped receiver.
use rust_streaming_quotes.Base.{ℕ, ◌<◌, ◌≤◌, ◌≡◌, Bool, true, false, List, [], ◌∷◌, ◌++◌, length}

-- `Ok(())`, `TrySendError::Full`, `TrySendError::Disconnected`.
pub data SendResult : Type 0 where
  sent full disconnected : SendResult

-- What is left of a queue without its oldest message.
abbrev pub behind {ℓ} : {A : Type ℓ} → List A → List A
behind [] = []
behind (x ∷ xs) = xs

-- `recv` leaves the channel behind a receive, which takes the oldest message if there is one.
-- `queue` holds the messages that wait, oldest first; `connected` says whether a receiver is left.
pub record Channels (M : Type 0) : Type 1 where
  pub Chan : Type 0
  pub bounded : ℕ → Chan
  pub try_send : M → Chan → Chan × SendResult
  pub recv : Chan → Chan
  pub drop_receiver : Chan → Chan
  pub queue : Chan → List M
  pub capacity : Chan → ℕ
  pub connected : Chan → Bool
  pub bounded_lem :
      (n : ℕ)
      → 0 < n
      → (queue (bounded n) ≡ []) × (capacity (bounded n) ≡ n) × (connected (bounded n) ≡ true)
  pub try_send_dead : (m : M) (c : Chan) → connected c ≡ false → try_send m c ≡ (c, disconnected)
  pub try_send_full :
      (m : M) (c : Chan)
      → connected c ≡ true
      → capacity c ≤ length (queue c)
      → try_send m c ≡ (c, full)
  pub try_send_room :
      (m : M) (c : Chan)
      → connected c ≡ true
      → length (queue c) < capacity c
      → (queue (try_send m c).0 ≡ queue c ++ m ∷ [])
        × (capacity (try_send m c).0 ≡ capacity c)
        × (connected (try_send m c).0 ≡ true)
        × ((try_send m c).1 ≡ sent)
  pub recv_lem :
      (c : Chan)
      → (queue (recv c) ≡ behind (queue c))
        × (capacity (recv c) ≡ capacity c)
        × (connected (recv c) ≡ connected c)
  pub drop_receiver_lem :
      (c : Chan)
      → (connected (drop_receiver c) ≡ false)
        × (capacity (drop_receiver c) ≡ capacity c)
        × (length (queue (drop_receiver c)) ≤ length (queue c))
