-- ===== src/Text/Order.antt =====
-- Equality of texts, and their order: the one of `BTreeSet<String>`.
use rust_streaming_quotes.Base.{◌≡◌, refl, true, [], ◌∷◌, ◌++◌, arith, ◌↔◌, compare, Ordering, some}
use rust_streaming_quotes.Text.{Text, text_eq, strip_prefix}

pub text_eq_iff : (s t : Text) → (text_eq s t ≡ true) ↔ (s ≡ t)
unfolding text_eq
text_eq_iff [] [] = ((λ _. refl), (λ _. refl))
text_eq_iff [] (b ∷ t) = ((λ h. cc), (λ h. cc))
text_eq_iff (a ∷ s) [] = ((λ h. cc), (λ h. cc))
text_eq_iff (a ∷ s) (b ∷ t) = ground (arith, text_eq_iff s t)

-- `str::cmp`.
unfoldable pub cmp : Text → Text → Ordering
cmp [] [] = Ordering.eq
cmp [] (b ∷ t) = Ordering.lt
cmp (a ∷ s) [] = Ordering.gt
cmp (a ∷ s) (b ∷ t) = elim (compare a b) [
  | Ordering.lt ↦ Ordering.lt
  | Ordering.eq ↦ cmp s t
  | Ordering.gt ↦ Ordering.gt
]

pub cmp_self : (s : Text) → cmp s s ≡ Ordering.eq
unfolding cmp
cmp_self [] = refl
cmp_self (a ∷ s) = ground (arith, cmp_self s)

pub cmp-eq : (s t : Text) → cmp s t ≡ Ordering.eq → s ≡ t
unfolding cmp
cmp-eq [] [] h = refl
cmp-eq [] (b ∷ t) h = cc
cmp-eq (a ∷ s) [] h = cc
cmp-eq (a ∷ s) (b ∷ t) h = ground (arith, cmp-eq s t)

pub cmp-gt : (s t : Text) → cmp s t ≡ Ordering.gt → cmp t s ≡ Ordering.lt
unfolding cmp
cmp-gt [] [] h = cc
cmp-gt [] (b ∷ t) h = cc
cmp-gt (a ∷ s) [] h = refl
cmp-gt (a ∷ s) (b ∷ t) h = ground (arith, cmp-gt s t)

pub cmp-lt : (s t : Text) → cmp s t ≡ Ordering.lt → cmp t s ≡ Ordering.gt
unfolding cmp
cmp-lt [] [] h = cc
cmp-lt [] (b ∷ t) h = refl
cmp-lt (a ∷ s) [] h = cc
cmp-lt (a ∷ s) (b ∷ t) h = ground (arith, cmp-lt s t)

pub cmp_trans :
    (s t u : Text) → cmp s t ≡ Ordering.lt → cmp t u ≡ Ordering.lt → cmp s u ≡ Ordering.lt
unfolding cmp
cmp_trans [] [] u h k = k
cmp_trans [] (b ∷ t) [] h k = cc
cmp_trans [] (b ∷ t) (c ∷ u) h k = refl
cmp_trans (a ∷ s) [] u h k = cc
cmp_trans (a ∷ s) (b ∷ t) [] h k = cc
cmp_trans (a ∷ s) (b ∷ t) (c ∷ u) h k = ground (arith, cmp_trans s t u)

pub strip_prefix-append : (p s : Text) → strip_prefix p (p ++ s) ≡ some s
unfolding strip_prefix
strip_prefix-append [] s = refl
strip_prefix-append (a ∷ p) s = ground (arith, strip_prefix-append p s)

-- Exactly the texts that begin with the prefix lose it.
pub strip_prefix-some : (p s t : Text) → strip_prefix p s ≡ some t → s ≡ p ++ t
unfolding strip_prefix
strip_prefix-some [] s t h = ground arith
strip_prefix-some (a ∷ p) [] t h = cc
strip_prefix-some (a ∷ p) (b ∷ s) t h = ground (arith, strip_prefix-some p s t)
