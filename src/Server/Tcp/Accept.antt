-- ===== src/Server/Tcp/Accept.antt =====
-- quote-server/src/tcp.rs: `run_tcp_listener`, which keeps the handles of the threads it started, and
-- `reap_finished_sessions`.
use rust_streaming_quotes.Base.{
  ℕ, zero, suc, Bool, Option, none, some, List, [], ◌∷◌, ◌++◌, ltb, length, if◌then◌else◌, Result,
  ok, err,
}
use rust_streaming_quotes.Core.Tickers.{IoError}

-- The handle of a thread, by the thread's number.
abbrev pub Handle : Type 0
Handle = ℕ

module _ {A : Type 0} where
  -- The elements before the last, and the last.
  unfoldable pub pop_last : A → List A → List A × A
  pop_last x [] = ([], x)
  pop_last x (y ∷ ys) = let (before, last) = pop_last y ys in (x ∷ before, last)

  unfoldable pub keep_first : A → Option (A × List A) → Option (A × List A)
  keep_first x none = none
  keep_first x (some (removed, rest)) = some (removed, x ∷ rest)

  -- `Vec::swap_remove`: the last element takes the place of the removed one; `none` for a panic.
  unfoldable pub swap_remove : ℕ → List A → Option (A × List A)
  unfolding pop_last keep_first
  swap_remove i [] = none
  swap_remove zero (x ∷ []) = some (x, [])
  swap_remove zero (x ∷ y ∷ ys) = let (before, last) = pop_last y ys in some (x, last ∷ before)
  swap_remove (suc i) (x ∷ xs) = keep_first x (swap_remove i xs)

  unfoldable pub get_elem? : List A → ℕ → Option A
  get_elem? [] i = none
  get_elem? (x ∷ xs) zero = some x
  get_elem? (x ∷ xs) (suc i) = get_elem? xs i

-- The handles that are left, and those that were joined, newest first.
abbrev pub Reaped : Type 0
Reaped = List Handle × List Handle

-- The loop from index `i` on; `none` if the fuel is used up or an index is out of range.
-- `finished h` is what `is_finished` returns, which is asked once for each handle.
unfoldable pub reap_loop : (Handle → Bool) → ℕ → ℕ → List Handle → List Handle → Option Reaped
unfolding swap_remove get_elem?
reap_loop finished zero i handles joined =
    if ltb i (length handles) then none else some (handles, joined)
reap_loop finished (suc fuel) i handles joined =
    let next = reap_loop finished fuel (suc i) handles joined in
    let removed : Option Reaped = elim (swap_remove i handles) [
      | some (h, rest) ↦ reap_loop finished fuel i rest (h ∷ joined)
      | none ↦ none
    ] in
    let step : Option Reaped = elim (get_elem? handles i) [
      | some h ↦ if finished h then removed else next
      | none ↦ none
    ] in
    if ltb i (length handles) then step else some (handles, joined)

unfoldable pub reap_finished_sessions : (Handle → Bool) → List Handle → List Handle → Option Reaped
unfolding reap_loop
reap_finished_sessions finished handles joined =
    reap_loop finished (length handles) 0 handles joined

-- What one round of the accept loop meets: which threads have finished, the flag, and the result of
-- `accept`, with that of `set_nonblocking(false)` on the accepted stream.
pub record AcceptRound : Type 0 where
  pub finished : Handle → Bool
  pub shutdown : Bool
  pub accepted : Result (Result (Unit {0}) IoError) IoError

pub record Listener : Type 0 where
  pub session_handles : List Handle
  pub next_thread : ℕ
  pub joined : List Handle

-- How the listener ended, if it did.
pub data Ended : Type 0 where
  running stopped panicked : Ended
  failed : IoError → Ended

-- `thread::spawn`.
unfoldable pub spawn : Listener → Listener
spawn s = record s {
  session_handles = s.session_handles ++ s.next_thread ∷ [];
  next_thread = suc s.next_thread;
}

-- The loop behind the accept loop, which consumes the handles.
unfoldable pub join_all : List Handle → Listener → Listener
join_all [] s = record s { session_handles = [] }
join_all (h ∷ hs) s = join_all hs (record s { joined = h ∷ s.joined })

unfoldable pub accept_loop : List AcceptRound → Listener → Listener × Ended
unfolding reap_finished_sessions spawn join_all
accept_loop [] s = (s, running)
accept_loop (r ∷ rs) s = elim (reap_finished_sessions r.finished s.session_handles s.joined) [
  | none ↦ (s, panicked)
  | some reaped ↦
      let s' = record s { session_handles = reaped.0; joined = reaped.1 } in
      let spawned = accept_loop rs (spawn s') in
      let waited = accept_loop rs s' in
      if r.shutdown then (join_all s'.session_handles s', stopped) else elim r.accepted [
        | ok nonblocking ↦ elim nonblocking [ ok _ ↦ spawned | err e ↦ (s', failed e) ]
        | err e ↦ waited
      ]
]

abbrev pub no_threads : Listener
no_threads = record { session_handles = []; next_thread = 0; joined = [] }

-- `bound` is the result of `bind` and of `set_nonblocking(true)`.
unfoldable pub run_tcp_listener : Result (Unit {0}) IoError → List AcceptRound → Listener × Ended
unfolding accept_loop
run_tcp_listener (err e) rounds = (no_threads, failed e)
run_tcp_listener (ok _) rounds = accept_loop rounds no_threads
