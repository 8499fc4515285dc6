-- ===== src/Text/Trim.antt =====
-- Laws of `trim`.
use rust_streaming_quotes.Base.{
  ℕ, ◌≡◌, ◌≢◌, refl, sym, ap, ◌∙◌, inl, inr, Bool, false, [], ◌∷◌, ◌++◌, arith, Bool-cases, Lacks,
  Passes, is_empty,
}
use rust_streaming_quotes.Text.{
  Text, is_whitespace, to_ascii_upper, to_ascii_uppercase, cons_end, trim_start, trim_end, trim,
  split_whitespace, chop_cr,
}
use rust_streaming_quotes.Text.Split.{
  words-append, words-append_blank, words_nil, words_cons-ne-nil,
}

-- What `trim_end` cuts off is white space.
pub trim_end_split : (s : Text) → (r : Text) × (Passes is_whitespace r) × (s ≡ trim_end s ++ r)
unfolding trim_end
trim_end_split [] = ([], tt, refl)
trim_end_split (c ∷ s) = let (r, hr, e) = trim_end_split s in go (trim_end s) r hr e
  where
    go :
        (t r : Text)
        → Passes is_whitespace r
        → s ≡ t ++ r
        → (q : Text) × (Passes is_whitespace q) × (c ∷ s ≡ cons_end c t ++ q)
    go [] r hr e = elim (Bool-cases (is_whitespace c)) [
      | inl h ↦ (c ∷ r, (h, hr), rw h (ap (◌∷◌ c) e))
      | inr h ↦ (r, hr, rw h (ap (◌∷◌ c) e))
    ]
    go (d ∷ t) r hr e = (r, hr, ap (◌∷◌ c) e)

words-trim_end : (s : Text) → split_whitespace (trim_end s) ≡ split_whitespace s
words-trim_end s =
    let (r, hr, e) = trim_end_split s in
    sym (words-append_blank (trim_end s) r hr) ∙ sym (ap split_whitespace e)

words-trim_start : (s : Text) → split_whitespace (trim_start s) ≡ split_whitespace s
unfolding trim_start
words-trim_start [] = refl
words-trim_start (c ∷ s) = elim (Bool-cases (is_whitespace c)) [
  | inl h ↦ rw (h, words-trim_start s, words-append [] c s h, words_nil)
  | inr h ↦ rw h
]

-- Trimming changes no word.
pub words-trim : (s : Text) → split_whitespace (trim s) ≡ split_whitespace s
unfolding trim
words-trim s = words-trim_end (trim_start s) ∙ words-trim_start s

-- A trimmed text starts with a character that is not white space.
abbrev HasStart : Text → Type 0
HasStart [] = Unit
HasStart (c ∷ s) = is_whitespace c ≡ false

trim_start-HasStart : (s : Text) → HasStart (trim_start s)
unfolding trim_start
trim_start-HasStart [] = tt
trim_start-HasStart (c ∷ s) = elim (Bool-cases (is_whitespace c)) [
  | inl h ↦ rw h (trim_start-HasStart s)
  | inr h ↦ rw h h
]

cons_end-HasStart : (c : ℕ) (t : Text) → is_whitespace c ≡ false → HasStart (cons_end c t)
unfolding cons_end
cons_end-HasStart c [] h = rw h h
cons_end-HasStart c (d ∷ t) h = h

trim_end-HasStart : (s : Text) → HasStart s → HasStart (trim_end s)
unfolding trim_end
trim_end-HasStart [] h = tt
trim_end-HasStart (c ∷ s) h = cons_end-HasStart c (trim_end s) h

trim-HasStart : (s : Text) → HasStart (trim s)
unfolding trim
trim-HasStart s = trim_end-HasStart (trim_start s) (trim_start-HasStart s)

HasStart-words : (s : Text) → HasStart s → is_empty s ≡ is_empty (split_whitespace s)
HasStart-words [] h = rw words_nil
HasStart-words (c ∷ s) h = ground (arith, words_cons-ne-nil c s h)

-- A text is blank exactly when it has no word.
pub trim-is_empty : (s : Text) → is_empty (trim s) ≡ is_empty (split_whitespace s)
trim-is_empty s = HasStart-words (trim s) (trim-HasStart s) ∙ ap is_empty (words-trim s)

trim_start_fixed : (s : Text) → HasStart s → trim_start s ≡ s
unfolding trim_start
trim_start_fixed [] h = refl
trim_start_fixed (c ∷ s) h = rw h

cons_end_fixed : (c : ℕ) (t : Text) → trim_end t ≡ t → trim_end (cons_end c t) ≡ cons_end c t
unfolding cons_end trim_end
cons_end_fixed c [] h = ground arith
cons_end_fixed c (d ∷ t) h = rw h

trim_end-trim_end : (s : Text) → trim_end (trim_end s) ≡ trim_end s
unfolding trim_end
trim_end-trim_end [] = refl
trim_end-trim_end (c ∷ s) = cons_end_fixed c (trim_end s) (trim_end-trim_end s)

pub trim-trim : (s : Text) → trim (trim s) ≡ trim s
unfolding trim
trim-trim s =
    rw (trim_start_fixed _ (trim_end-HasStart _ (trim_start-HasStart s)))
      (trim_end-trim_end (trim_start s))

cons_end_solid : (c : ℕ) (w : Text) → is_whitespace c ≡ false → cons_end c w ≡ c ∷ w
unfolding cons_end
cons_end_solid c [] h = rw h
cons_end_solid c (d ∷ w) h = refl

trim_end_solid : (w : Text) → Lacks is_whitespace w → trim_end w ≡ w
unfolding trim_end
trim_end_solid [] h = refl
trim_end_solid (c ∷ w) (hc, h) = rw (trim_end_solid w h) (cons_end_solid c w hc)

-- Trimming leaves a text without white space alone.
pub trim_solid : (w : Text) → Lacks is_whitespace w → trim w ≡ w
unfolding trim trim_start
trim_solid [] h = trim_end_solid [] h
trim_solid (c ∷ w) (hc, h) = rw hc (trim_end_solid (c ∷ w) (hc, h))

module _ (p : ℕ → Bool) where
  pub trim_start-Lacks : (s : Text) → Lacks p s → Lacks p (trim_start s)
  unfolding trim_start
  trim_start-Lacks [] h = h
  trim_start-Lacks (c ∷ s) h = ground (arith, trim_start-Lacks s h.1)

  cons_end-Lacks : (c : ℕ) (t : Text) → p c ≡ false → Lacks p t → Lacks p (cons_end c t)
  unfolding cons_end
  cons_end-Lacks c [] hc h = ground arith
  cons_end-Lacks c (d ∷ t) hc h = (hc, h)

  trim_end-Lacks : (s : Text) → Lacks p s → Lacks p (trim_end s)
  unfolding trim_end
  trim_end-Lacks [] h = h
  trim_end-Lacks (c ∷ s) h = cons_end-Lacks c (trim_end s) h.0 (trim_end-Lacks s h.1)

  -- Trimming brings in no character.
  pub trim-Lacks : (s : Text) → Lacks p s → Lacks p (trim s)
  unfolding trim
  trim-Lacks s h = trim_end-Lacks (trim_start s) (trim_start-Lacks s h)

module _ (p : ℕ → Bool) where
  pub chop_cr-Lacks : (s : Text) → Lacks p s → Lacks p (chop_cr s)
  unfolding chop_cr
  chop_cr-Lacks [] h = tt
  chop_cr-Lacks (c ∷ []) h = ground arith
  chop_cr-Lacks (c ∷ d ∷ s) (hc, h) = (hc, chop_cr-Lacks (d ∷ s) h)

to_ascii_upper-is_whitespace : (c : ℕ) → is_whitespace (to_ascii_upper c) ≡ is_whitespace c
unfolding to_ascii_upper is_whitespace
to_ascii_upper-is_whitespace c = ground arith

trim_start-upper :
    (s : Text) → trim_start (to_ascii_uppercase s) ≡ to_ascii_uppercase (trim_start s)
unfolding trim_start to_ascii_uppercase
trim_start-upper [] = refl
trim_start-upper (c ∷ s) = ground (arith, to_ascii_upper-is_whitespace c, trim_start-upper s)

cons_end-upper :
    (c : ℕ) (t : Text)
    → cons_end (to_ascii_upper c) (to_ascii_uppercase t) ≡ to_ascii_uppercase (cons_end c t)
unfolding cons_end to_ascii_uppercase
cons_end-upper c [] = ground (arith, to_ascii_upper-is_whitespace c)
cons_end-upper c (d ∷ t) = refl

trim_end-upper : (s : Text) → trim_end (to_ascii_uppercase s) ≡ to_ascii_uppercase (trim_end s)
unfolding trim_end to_ascii_uppercase
trim_end-upper [] = refl
trim_end-upper (c ∷ s) =
    ap (cons_end (to_ascii_upper c)) (trim_end-upper s) ∙ cons_end-upper c (trim_end s)

-- Upper case and trimming commute.
pub trim-upper : (s : Text) → trim (to_ascii_uppercase s) ≡ to_ascii_uppercase (trim s)
unfolding trim
trim-upper s = ap trim_end (trim_start-upper s) ∙ trim_end-upper (trim_start s)

pub to_ascii_upper_idem : (c : ℕ) → to_ascii_upper (to_ascii_upper c) ≡ to_ascii_upper c
unfolding to_ascii_upper
to_ascii_upper_idem c = ground arith

pub to_ascii_uppercase_idem :
    (s : Text) → to_ascii_uppercase (to_ascii_uppercase s) ≡ to_ascii_uppercase s
unfolding to_ascii_uppercase
to_ascii_uppercase_idem [] = refl
to_ascii_uppercase_idem (c ∷ s) = cc (to_ascii_upper_idem c, to_ascii_uppercase_idem s)

trim_start-append :
    (w : Text) (c : ℕ) (t : Text)
    → is_whitespace c ≡ false
    → trim_start (w ++ c ∷ t) ≡ trim_start w ++ c ∷ t
unfolding trim_start
trim_start-append [] c t h = rw h
trim_start-append (d ∷ w) c t h = ground (arith, trim_start-append w c t h)

trim_end_cons-ne-nil : (w : Text) (c : ℕ) (t : Text) → w ++ c ∷ t ≢ []
trim_end_cons-ne-nil [] c t e = cc
trim_end_cons-ne-nil (d ∷ w) c t e = cc

cons_end_some : (c : ℕ) (t : Text) → t ≢ [] → cons_end c t ≡ c ∷ t
unfolding cons_end
cons_end_some c [] h = absurd (h refl)
cons_end_some c (d ∷ t) h = refl

trim_end-append :
    (w : Text) (c : ℕ) (t : Text)
    → is_whitespace c ≡ false
    → trim_end (w ++ c ∷ t) ≡ w ++ c ∷ trim_end t
unfolding trim_end
trim_end-append [] c t h = cons_end_solid c (trim_end t) h
trim_end-append (d ∷ w) c t h =
    ap (cons_end d) (trim_end-append w c t h)
    ∙ cons_end_some d (w ++ c ∷ trim_end t) (trim_end_cons-ne-nil w c (trim_end t))

-- A character that is not white space splits the two ends of a trim.
pub trim-append_solid :
    (w : Text) (c : ℕ) (t : Text)
    → is_whitespace c ≡ false
    → trim (w ++ c ∷ t) ≡ trim_start w ++ c ∷ trim_end t
unfolding trim
trim-append_solid w c t h = rw (trim_start-append w c t h) (trim_end-append (trim_start w) c t h)

pub trim-trim_start : (s : Text) → trim (trim_start s) ≡ trim s
unfolding trim
trim-trim_start s = ap trim_end (trim_start_fixed _ (trim_start-HasStart s))

trim_start-chop_cr : (s : Text) → trim_start (chop_cr s) ≡ chop_cr (trim_start s)
unfolding chop_cr trim_start is_whitespace
trim_start-chop_cr [] = refl
trim_start-chop_cr (c ∷ []) = ground arith
trim_start-chop_cr (c ∷ d ∷ s) = elim (Bool-cases (is_whitespace c)) [
  | inl e ↦ rw e (trim_start-chop_cr (d ∷ s))
  | inr e ↦ rw e
]

trim_end-chop_cr : (s : Text) → trim_end (chop_cr s) ≡ trim_end s
unfolding chop_cr trim_end cons_end is_whitespace
trim_end-chop_cr [] = refl
trim_end-chop_cr (c ∷ []) = ground arith
trim_end-chop_cr (c ∷ d ∷ s) = ap (cons_end c) (trim_end-chop_cr (d ∷ s))

-- A carriage return at the end of a line is white space.
pub trim-chop_cr : (s : Text) → trim (chop_cr s) ≡ trim s
unfolding trim
trim-chop_cr s = ap trim_end (trim_start-chop_cr s) ∙ trim_end-chop_cr (trim_start s)
