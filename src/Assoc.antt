-- ===== src/Assoc.antt =====
-- `std::collections::HashMap` as a list of entries in the order of iteration, which is not specified;
-- and the store that a shared handle points into, as a function.
use rust_streaming_quotes.Base.{
  ℕ, ◌≡◌, ◌↔◌, Bool, true, Option, none, some, List, [], ◌∷◌, ◌==◌, if◌then◌else◌, arith,
}

module _ {ℓ κ} {K : Type ℓ} {V : Type κ} (eq : K → K → Bool) where
  unfoldable pub lookup : K → List (K × V) → Option V
  lookup k [] = none
  lookup k ((j, v) ∷ m) = if eq k j then some v else lookup k m

  -- `HashMap::remove`.
  unfoldable pub remove : K → List (K × V) → List (K × V)
  remove k [] = []
  remove k ((j, v) ∷ m) = let rest = remove k m in if eq k j then rest else (j, v) ∷ rest

  -- `HashMap::insert`: the old entry of the key, if there is one, goes.
  unfoldable pub insert : K → V → List (K × V) → List (K × V)
  unfolding remove
  insert k v m = (k, v) ∷ remove k m

module _ {ℓ κ} {K : Type ℓ} {V : Type κ} (eq : K → K → Bool)
    (eq_iff : (a b : K) → (eq a b ≡ true) ↔ (a ≡ b)) where
  pub lookup-remove :
      (j k : K) (m : List (K × V))
      → lookup eq j (remove eq k m) ≡ (if eq j k then none else lookup eq j m)
  unfolding lookup remove
  lookup-remove j k [] = ground arith
  lookup-remove j k ((i, v) ∷ m) =
      ground (arith, lookup-remove j k m, eq_iff j k, eq_iff k i, eq_iff j i)

  pub lookup-insert :
      (j k : K) (v : V) (m : List (K × V))
      → lookup eq j (insert eq k v m) ≡ (if eq j k then some v else lookup eq j m)
  unfolding lookup insert
  lookup-insert j k v m = ground (arith, lookup-remove j k m)

-- `f` with the value at `k` replaced.
abbrev pub update {ℓ} : {A : Type ℓ} → (ℕ → A) → ℕ → A → ℕ → A
update f k v j = if j == k then v else f j
