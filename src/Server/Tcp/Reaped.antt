-- ===== src/Server/Tcp/Reaped.antt =====
-- On `reap_finished_sessions` of quote-server/src/tcp.rs.
use rust_streaming_quotes.Base.{
  ℕ, zero, suc, ◌+◌, ◌<◌, ◌≤◌, ◌≡◌, refl, ap, sym, ◌∙◌, Bool, false, some, List, [], ◌∷◌, ◌++◌,
  ◌==◌, ltb, length, if◌then◌else◌, arith, Bool-cases, inl, inr, take, Lacks, Passes, All-append,
  append_assoc,
}
use rust_streaming_quotes.Server.Tcp.Accept.{
  Handle, pop_last, keep_first, swap_remove, get_elem?, Reaped, reap_loop, reap_finished_sessions,
}

-- How often a handle is in a list.
unfoldable pub count : Handle → List Handle → ℕ
count h [] = 0
count h (x ∷ xs) = if h == x then suc (count h xs) else count h xs

count-pop_last :
    (h x : Handle) (xs : List Handle)
    → (count h (x ∷ xs) ≡ count h ((pop_last x xs).1 ∷ (pop_last x xs).0))
      × (length (pop_last x xs).0 ≡ length xs)
unfolding count pop_last
count-pop_last h x [] = (refl, refl)
count-pop_last h x (y ∷ ys) = ground (arith, count-pop_last h y ys)

-- What `swap_remove` does at an index in range, behind a front part that stays.
record IsSwap (i : ℕ) (handles : List Handle) (h : Handle) (r : Handle × List Handle) : Type 0 where
  pub removed : swap_remove i handles ≡ some r
  pub element : get_elem? handles i ≡ some r.0
  pub size : suc (length r.1) ≡ length handles
  pub counts : count h handles ≡ count h (r.0 ∷ r.1)
  pub front : take i r.1 ≡ take i handles

swap_remove_lem :
    (h : Handle) (i : ℕ) (handles : List Handle)
    → i < length handles
    → (r : Handle × List Handle) × IsSwap i handles h r
unfolding swap_remove get_elem? count keep_first
swap_remove_lem h i [] l = absurd (omega arith)
swap_remove_lem h zero (x ∷ []) l =
    ((x, []), record { removed = refl; element = refl; size = refl; counts = refl; front = refl })
swap_remove_lem h zero (x ∷ y ∷ ys) l =
    let popped = count-pop_last h y ys in
    (
      (x, (pop_last y ys).1 ∷ (pop_last y ys).0),
      record {
        removed = refl;
        element = refl;
        size = ground (arith, popped);
        counts = ground (arith, popped);
        front = refl;
      },
    )
swap_remove_lem h (suc i) (x ∷ xs) l =
    let (r, ih) = swap_remove_lem h i xs (omega arith) in
    (
      (r.0, x ∷ r.1),
      record {
        removed = ground (arith, ih.removed);
        element = ih.element;
        size = ground (arith, ih.size);
        counts = ground (arith, ih.counts);
        front = ap (λ xs'. x ∷ xs') ih.front;
      },
    )

take_all : (i : ℕ) (handles : List Handle) → length handles ≤ i → take i handles ≡ handles
take_all zero [] l = refl
take_all zero (x ∷ xs) l = absurd (omega arith)
take_all (suc i) [] l = refl
take_all (suc i) (x ∷ xs) l = ap (λ ys. x ∷ ys) (take_all i xs (omega arith))

take_next :
    (finished : Handle → Bool) (i : ℕ) (handles : List Handle) (h : Handle)
    → get_elem? handles i ≡ some h
    → finished h ≡ false
    → Lacks finished (take i handles)
    → Lacks finished (take (suc i) handles)
unfolding get_elem?
take_next finished i [] h e f l = tt
take_next finished zero (x ∷ xs) h e f l = (ground arith, tt)
take_next finished (suc i) (x ∷ xs) h e f l = (l.0, take_next finished i xs h e f l.1)

-- Who is left is not finished, who was joined is; no handle is lost or doubled.
pub record IsReaped (finished : Handle → Bool) (handles joined : List Handle) (h : Handle)
    (reaped : Reaped) : Type 0 where
  pub kept : Lacks finished reaped.0
  pub counts : (count h reaped.0 + count h reaped.1 ≡ count h handles + count h joined)
  pub new : List Handle
  pub ended : Passes finished new
  pub joined_last : reaped.1 ≡ new ++ joined

reap_loop_lem :
    (finished : Handle → Bool) (fuel i : ℕ) (handles joined : List Handle) (h : Handle)
    → length handles ≤ i + fuel
    → Lacks finished (take i handles)
    → (r : Reaped) × (reap_loop finished fuel i handles joined ≡ some r)
      × IsReaped finished handles joined h r
unfolding reap_loop count
reap_loop_lem finished zero i handles joined h l front =
    let end : ltb i (length handles) ≡ false = ground arith in
    (
      (handles, joined),
      rw end,
      record {
        kept = rw (sym (take_all i handles (omega arith))) front;
        counts = refl;
        new = [];
        ended = tt;
        joined_last = refl;
      },
    )
reap_loop_lem finished (suc fuel) i handles joined h l front =
    elim (Bool-cases (ltb i (length handles))) [
      | inr end ↦ (
        (handles, joined),
        rw (end, reap_loop),
        record {
          kept = rw (sym (take_all i handles (ground arith))) front;
          counts = refl;
          new = [];
          ended = tt;
          joined_last = refl;
        },
      )
      | inl more ↦
          let (s, swap) = swap_remove_lem h i handles (ground arith) in
          elim (Bool-cases (finished s.0)) [
            | inl f ↦
                let (r, e, ih) =
                  reap_loop_lem finished fuel i s.1 (s.0 ∷ joined) h (omega (arith, swap.size))
                    (rw swap.front front) in
                (
                  r,
                  rw (more, swap.element, f, swap.removed, reap_loop) e,
                  record {
                    kept = ih.kept;
                    counts = ground (arith, ih.counts, swap.counts);
                    new = ih.new ++ s.0 ∷ [];
                    ended = All-append _ ih.new (s.0 ∷ []) ih.ended (f, tt);
                    joined_last = ih.joined_last ∙ sym (append_assoc ih.new (s.0 ∷ []) joined);
                  },
                )
            | inr f ↦
                let (r, e, ih) =
                  reap_loop_lem finished fuel (suc i) handles joined h (omega arith)
                    (take_next finished i handles s.0 swap.element f front) in
                (r, rw (more, swap.element, f, reap_loop) e, ih)
          ]
    ]

-- `reap_finished_sessions` ends within as many rounds as there are handles and uses no index out of
-- range. It joins the finished threads and keeps the others, each exactly once.
pub reap_finished_sessions_lem :
    (finished : Handle → Bool) (handles joined : List Handle) (h : Handle)
    → (r : Reaped) × (reap_finished_sessions finished handles joined ≡ some r)
      × IsReaped finished handles joined h r
unfolding reap_finished_sessions
reap_finished_sessions_lem finished handles joined h =
    reap_loop_lem finished (length handles) 0 handles joined h (omega arith) tt
