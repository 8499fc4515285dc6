-- ===== src/TextSet.antt =====
-- `BTreeSet<String>` (and `HashSet<String>::contains`): a set of texts as the ascending list that
-- `into_iter().collect()` returns.
pub mod Laws
use rust_streaming_quotes.Base.{
  ◌≡◌, Bool, true, false, ◌||◌, List, [], ◌∷◌, Ordering, All, Option, none, some,
}
use rust_streaming_quotes.Text.{Text, text_eq}
use rust_streaming_quotes.Text.Order.{cmp}

-- `BTreeSet::insert`: an element that is there already stays.
unfoldable pub insert : Text → List Text → List Text
unfolding cmp
insert t [] = t ∷ []
insert t (x ∷ xs) = elim (cmp t x) [
  | Ordering.lt ↦ t ∷ x ∷ xs
  | Ordering.eq ↦ x ∷ xs
  | Ordering.gt ↦ x ∷ insert t xs
]

-- `contains`.
unfoldable pub contains : Text → List Text → Bool
unfolding text_eq
contains t [] = false
contains t (x ∷ xs) = text_eq t x || contains t xs

-- Each element stands strictly below all that follow it: sorted, and no duplicates.
abbrev pub IsAscending : List Text → Type 0
IsAscending [] = Unit
IsAscending (x ∷ xs) = All (λ y. cmp x y ≡ Ordering.lt) xs × IsAscending xs
