-- ===== src/TextSet/Laws.antt =====
-- Laws of the sets of texts.
use rust_streaming_quotes.Base.{
  ◌≡◌, refl, sym, subst, ◌∙◌, inl, inr, true, false, ◌||◌, List, [], ◌∷◌, arith, Ordering, All, ◌⊎◌,
}
use rust_streaming_quotes.Text.{Text, text_eq}
use rust_streaming_quotes.Text.Order.{cmp, cmp_self, cmp-eq, cmp-gt, cmp-lt, cmp_trans, text_eq_iff}
use rust_streaming_quotes.TextSet.{insert, contains, IsAscending}

Ordering-cases : (o : Ordering) → (o ≡ Ordering.lt) ⊎ ((o ≡ Ordering.eq) ⊎ (o ≡ Ordering.gt))
Ordering-cases Ordering.lt = inl refl
Ordering-cases Ordering.eq = inr (inl refl)
Ordering-cases Ordering.gt = inr (inr refl)

abbrev pub Below : Text → List Text → Type 0
Below t = All (λ y. cmp t y ≡ Ordering.lt)

Below-trans : (t x : Text) (xs : List Text) → cmp t x ≡ Ordering.lt → Below x xs → Below t xs
Below-trans t x [] h b = tt
Below-trans t x (y ∷ ys) h (hy, b) = (cmp_trans t x y h hy, Below-trans t x ys h b)

insert-Below :
    (x t : Text) (xs : List Text) → cmp x t ≡ Ordering.lt → Below x xs → Below x (insert t xs)
unfolding insert
insert-Below x t [] h b = (h, tt)
insert-Below x t (y ∷ ys) h b = ground (arith, insert-Below x t ys h b.1)

-- Insertion keeps the list ascending.
pub insert-IsAscending : (t : Text) (xs : List Text) → IsAscending xs → IsAscending (insert t xs)
unfolding insert
insert-IsAscending t [] h = (tt, tt)
insert-IsAscending t (x ∷ xs) h =
    ground (arith, insert-IsAscending t xs h.1, Below-trans t x xs, cmp-gt t x, insert-Below x t xs)

text_eq_self : (t : Text) → text_eq t t ≡ true
text_eq_self t = (text_eq_iff t t).1 refl

-- The members after an insertion are the new one and the old ones.
pub contains-insert :
    (a t : Text) (xs : List Text) → contains a (insert t xs) ≡ (text_eq a t || contains a xs)
unfolding insert contains
contains-insert a t [] = refl
contains-insert a t (x ∷ xs) = ground (arith, cmp-eq t x, contains-insert a t xs)

-- What is below a list is not in it.
Below-contains : (t : Text) (xs : List Text) → Below t xs → contains t xs ≡ false
unfolding contains
Below-contains t [] b = refl
Below-contains t (x ∷ xs) b =
    ground (arith, Below-contains t xs b.1, (text_eq_iff t x).0, cmp_self t)

contains-Below :
    (a t : Text) (xs : List Text) → Below t xs → contains a xs ≡ true → cmp t a ≡ Ordering.lt
unfolding contains
contains-Below a t [] b h = cc
contains-Below a t (x ∷ xs) b h = ground (arith, contains-Below a t xs b.1, (text_eq_iff a x).0)

abbrev pub SameMembers : List Text → List Text → Type 0
SameMembers xs ys = (a : Text) → contains a xs ≡ contains a ys

heads-eq :
    (x y : Text) (xs ys : List Text)
    → Below x xs
    → Below y ys
    → contains x (y ∷ ys) ≡ true
    → contains y (x ∷ xs) ≡ true
    → x ≡ y
unfolding contains
heads-eq x y xs ys bx by h k = ground (
  arith,
  (text_eq_iff x y).0,
  (text_eq_iff y x).0,
  contains-Below x y ys by,
  contains-Below y x xs bx,
  cmp-lt x y,
)

tail-SameMembers :
    (x : Text) (xs ys : List Text)
    → Below x xs
    → Below x ys
    → SameMembers (x ∷ xs) (x ∷ ys)
    → SameMembers xs ys
unfolding contains
tail-SameMembers x xs ys bx by h a =
    ground (arith, h a, (text_eq_iff a x).0, Below-contains x xs bx, Below-contains x ys by)

-- Ascending lists with the same members are the same list.
pub ascending_ext :
    (xs ys : List Text) → IsAscending xs → IsAscending ys → SameMembers xs ys → xs ≡ ys
unfolding contains
ascending_ext [] [] hx hy h = refl
ascending_ext [] (y ∷ ys) hx hy h = cc (h y, text_eq_self y)
ascending_ext (x ∷ xs) [] hx hy h = cc (h x, text_eq_self x)
ascending_ext (x ∷ xs) (y ∷ ys) hx hy h =
    let e = heads-eq x y xs ys hx.0 hy.0 (cc (h x, text_eq_self x)) (cc (h y, text_eq_self y)) in
    let below = subst (λ z. Below z ys) (sym e) hy.0 in
    let same = subst (λ z. SameMembers (x ∷ xs) (z ∷ ys)) (sym e) h in
    let rest = ascending_ext xs ys hx.1 hy.1 (tail-SameMembers x xs ys hx.0 below same) in
    cc (e, rest)

unfoldable pub insert_all : List Text → List Text → List Text
insert_all [] set = set
insert_all (t ∷ ts) set = insert_all ts (insert t set)

pub insert_all-IsAscending :
    (ts set : List Text) → IsAscending set → IsAscending (insert_all ts set)
unfolding insert_all
insert_all-IsAscending [] set h = h
insert_all-IsAscending (t ∷ ts) set h = insert_all-IsAscending ts _ (insert-IsAscending t set h)

pub contains-insert_all :
    (a : Text) (ts set : List Text)
    → contains a (insert_all ts set) ≡ (contains a ts || contains a set)
unfolding insert_all contains
contains-insert_all a [] set = refl
contains-insert_all a (t ∷ ts) set =
    ground (arith, contains-insert_all a ts (insert t set), contains-insert a t set)

pub contains-insert_all_nil :
    (a : Text) (ts : List Text) → contains a (insert_all ts []) ≡ contains a ts
unfolding contains
contains-insert_all_nil a ts = ground (arith, contains-insert_all a ts [])

-- The set made from an ascending list is that list.
pub insert_all_self : (ts : List Text) → IsAscending ts → insert_all ts [] ≡ ts
insert_all_self ts h =
    ascending_ext (insert_all ts []) ts (insert_all-IsAscending ts [] tt) h
      (λ a. contains-insert_all_nil a ts)

-- Lists with the same members make the same set.
pub insert_all_same :
    (ts us : List Text)
    → ((a : Text) → contains a ts ≡ contains a us)
    → insert_all ts [] ≡ insert_all us []
insert_all_same ts us h =
    ascending_ext _ _ (insert_all-IsAscending ts [] tt) (insert_all-IsAscending us [] tt)
      (λ a. contains-insert_all_nil a ts ∙ (h a ∙ sym (contains-insert_all_nil a us)))

module _ {κ} (P : Text → Type κ) where
  insert-All : (t : Text) (xs : List Text) → P t → All P xs → All P (insert t xs)
  unfolding insert
  insert-All t [] h hs = (h, tt)
  insert-All t (x ∷ xs) h hs = elim (Ordering-cases (cmp t x)) [
    | inl e ↦ rw (e, All) (h, hs)
    | inr (inl e) ↦ rw (e, All) hs
    | inr (inr e) ↦ rw (e, All) (hs.0, insert-All t xs h hs.1)
  ]

  pub insert_all-All : (ts set : List Text) → All P ts → All P set → All P (insert_all ts set)
  unfolding insert_all
  insert_all-All [] set h hs = hs
  insert_all-All (t ∷ ts) set (h, h') hs = insert_all-All ts _ h' (insert-All t set h hs)
