-- ===== src/Text/Split.antt =====
-- Laws of `split`, `split_whitespace` and `join`.
use rust_streaming_quotes.Base.{
  ℕ, ◌≡◌, ◌≢◌, refl, ap, ◌∙◌, inl, inr, Bool, true, false, List, [], ◌∷◌, ◌++◌, arith, Bool-cases,
  append-nil, All, Lacks, Passes,
}
use rust_streaming_quotes.Text.{
  Text, is_whitespace, cons_part, split, drop_empty, split_whitespace, join,
}

module _ (p : ℕ → Bool) where
  pub split-ne-nil : (s : Text) → split p s ≢ []
  unfolding split
  split-ne-nil [] e = cc
  split-ne-nil (c ∷ s) e = ground (arith, split-ne-nil s)

  cons_part-append :
      (c : ℕ) (ws vs : List Text) → ws ≢ [] → cons_part c (ws ++ vs) ≡ cons_part c ws ++ vs
  unfolding cons_part
  cons_part-append c [] vs h = absurd (h refl)
  cons_part-append c (w ∷ ws) vs h = refl

  -- A separator ends a part, whatever stands on its two sides.
  pub split-append :
      (s : Text) (c : ℕ) (t : Text) → p c ≡ true → split p (s ++ c ∷ t) ≡ split p s ++ split p t
  unfolding split
  split-append [] c t h = rw h
  split-append (d ∷ s) c t h = elim (Bool-cases (p d)) [
    | inl e ↦ rw (e, split-append s c t h)
    | inr e ↦
        rw (e, split-append s c t h)
          (unfold cons_part in cons_part-append d (split p s) (split p t) (split-ne-nil s))
  ]

  pub split_single : (w : Text) → Lacks p w → split p w ≡ w ∷ []
  unfolding split
  split_single [] h = refl
  split_single (c ∷ w) (hc, hw) = rw (hc, split_single w hw)

  pub split_first :
      (w : Text) (c : ℕ) (t : Text) → Lacks p w → p c ≡ true → split p (w ++ c ∷ t) ≡ w ∷ split p t
  split_first w c t h hc = rw (split-append w c t hc, split_single w h)

  cons_part-Lacks :
      (c : ℕ) (ws : List Text) → p c ≡ false → All (Lacks p) ws → All (Lacks p) (cons_part c ws)
  unfolding cons_part
  cons_part-Lacks c [] h hs = ((h, tt), tt)
  cons_part-Lacks c (w ∷ ws) h (hw, hs) = ((h, hw), hs)

  -- No part holds a separator.
  pub split-Lacks : (s : Text) → All (Lacks p) (split p s)
  unfolding split
  split-Lacks [] = (tt, tt)
  split-Lacks (c ∷ s) = elim (Bool-cases (p c)) [
    | inl e ↦ rw e (tt, split-Lacks s)
    | inr e ↦ rw e (cons_part-Lacks c _ e (split-Lacks s))
  ]

  -- Joining parts that hold no separator, and splitting, gives the parts back.
  pub split-join :
      (c : ℕ) (ws : List Text)
      → p c ≡ true
      → ws ≢ []
      → All (Lacks p) ws
      → split p (join (c ∷ []) ws) ≡ ws
  unfolding join
  split-join c [] hc h _ = absurd (h refl)
  split-join c (w ∷ []) hc h (hw, _) = split_single w hw
  split-join c (w ∷ v ∷ ws) hc h (hw, hs) =
      split_first w c (join (c ∷ []) (v ∷ ws)) hw hc
      ∙ ap (◌∷◌ w) (split-join c (v ∷ ws) hc (λ e. cc) hs)

-- A word: not empty, and no white space in it.
pub record IsWord (w : Text) : Type 0 where
  pub some_text : w ≢ []
  pub solid : Lacks is_whitespace w

drop_empty-append : (ws vs : List Text) → drop_empty (ws ++ vs) ≡ drop_empty ws ++ drop_empty vs
unfolding drop_empty
drop_empty-append [] vs = refl
drop_empty-append ([] ∷ ws) vs = drop_empty-append ws vs
drop_empty-append ((c ∷ w) ∷ ws) vs = ap (◌∷◌ (c ∷ w)) (drop_empty-append ws vs)

drop_empty-IsWord : (ws : List Text) → All (Lacks is_whitespace) ws → All IsWord (drop_empty ws)
unfolding drop_empty
drop_empty-IsWord [] h = tt
drop_empty-IsWord ([] ∷ ws) (_, h) = drop_empty-IsWord ws h
drop_empty-IsWord ((c ∷ w) ∷ ws) (hw, h) =
    (record { some_text = λ e. cc; solid = hw }, drop_empty-IsWord ws h)

drop_empty_self : (ws : List Text) → All IsWord ws → drop_empty ws ≡ ws
unfolding drop_empty
drop_empty_self [] h = refl
drop_empty_self ([] ∷ ws) (hw, h) = absurd (hw.some_text refl)
drop_empty_self ((c ∷ w) ∷ ws) (hw, h) = ap (◌∷◌ (c ∷ w)) (drop_empty_self ws h)

All-solid : (ws : List Text) → All IsWord ws → All (Lacks is_whitespace) ws
All-solid [] h = tt
All-solid (w ∷ ws) (hw, h) = (hw.solid, All-solid ws h)

split_whitespace_lem : (s : Text) → split_whitespace s ≡ drop_empty (split is_whitespace s)
unfolding split_whitespace
split_whitespace_lem s = refl

-- White space separates words that are not empty and hold no white space.
pub words-IsWord : (s : Text) → All IsWord (split_whitespace s)
words-IsWord s = rw split_whitespace_lem (drop_empty-IsWord _ (split-Lacks is_whitespace s))

pub words-append :
    (s : Text) (c : ℕ) (t : Text)
    → is_whitespace c ≡ true
    → split_whitespace (s ++ c ∷ t) ≡ split_whitespace s ++ split_whitespace t
words-append s c t h =
    rw
      (
        split_whitespace_lem (s ++ c ∷ t),
        split_whitespace_lem s,
        split_whitespace_lem t,
        split-append is_whitespace s c t h,
      )
      (drop_empty-append _ _)

pub words_nil : split_whitespace [] ≡ []
unfolding split_whitespace
words_nil = refl

pub words_blank : (t : Text) → Passes is_whitespace t → split_whitespace t ≡ []
words_blank [] h = words_nil
words_blank (c ∷ t) (hc, h) = rw (words-append [] c t hc, words_nil, words_blank t h)

pub words-append_blank :
    (s t : Text) → Passes is_whitespace t → split_whitespace (s ++ t) ≡ split_whitespace s
words-append_blank s [] h = rw (append-nil s)
words-append_blank s (c ∷ t) (hc, h) = rw (words-append s c t hc, words_blank t h) (append-nil _)

pub words_single : (w : Text) → IsWord w → split_whitespace w ≡ w ∷ []
words_single w h =
    rw (split_whitespace_lem w, split_single is_whitespace w h.solid)
      (drop_empty_self (w ∷ []) (h, tt))

pub words_first :
    (w : Text) (c : ℕ) (t : Text)
    → IsWord w
    → is_whitespace c ≡ true
    → split_whitespace (w ++ c ∷ t) ≡ w ∷ split_whitespace t
words_first w c t h hc = rw (words-append w c t hc, words_single w h)

-- Words joined by one white space character are split into the same words.
pub words-join :
    (c : ℕ) (ws : List Text)
    → is_whitespace c ≡ true
    → All IsWord ws
    → split_whitespace (join (c ∷ []) ws) ≡ ws
unfolding join
words-join c [] hc h = words_nil
words-join c (w ∷ []) hc (h, _) = words_single w h
words-join c (w ∷ v ∷ ws) hc (h, hs) =
    words_first w c (join (c ∷ []) (v ∷ ws)) h hc ∙ ap (◌∷◌ w) (words-join c (v ∷ ws) hc hs)

drop_empty-cons_part-ne-nil : (c : ℕ) (ws : List Text) → drop_empty (cons_part c ws) ≢ []
unfolding drop_empty cons_part
drop_empty-cons_part-ne-nil c [] e = cc
drop_empty-cons_part-ne-nil c (w ∷ ws) e = cc

-- A text with a character that is not white space has a word.
pub words_cons-ne-nil : (c : ℕ) (s : Text) → is_whitespace c ≡ false → split_whitespace (c ∷ s) ≢ []
unfolding split drop_empty
words_cons-ne-nil c s h =
    rw (split_whitespace_lem (c ∷ s), split, h) (drop_empty-cons_part-ne-nil c _)
