-- ===== src/Text.antt =====
-- The functions of Rust's `str` and `char` that the program calls. A text is the list of its code
-- points; the order of texts by code points is the order by UTF-8 bytes.
pub mod Trim
pub mod Split
pub mod Order
pub mod Decimal
use rust_streaming_quotes.Base.{
  ℕ, ◌-◌, ◌≡◌, refl, Bool, true, false, ◌&&◌, ◌||◌, Option, none, some, List, [], ◌∷◌, ◌++◌, map,
  leb, ◌==◌, if◌then◌else◌, codes,
}

abbrev pub Text : Type 0
Text = List ℕ

-- `char::is_whitespace`: the Unicode property White_Space.
unfoldable pub is_whitespace : ℕ → Bool
is_whitespace c =
    (leb 0x9 c && leb c 0xd)
    || c == 0x20
    || c == 0x85
    || c == 0xa0
    || c == 0x1680
    || (leb 0x2000 c && leb c 0x200a)
    || c == 0x2028
    || c == 0x2029
    || c == 0x202f
    || c == 0x205f
    || c == 0x3000

unfoldable pub to_ascii_upper : ℕ → ℕ
to_ascii_upper c = if leb b'a' c && leb c b'z' then c - 32 else c

unfoldable pub to_ascii_uppercase : Text → Text
unfolding to_ascii_upper
to_ascii_uppercase = map to_ascii_upper

pub trim_start : Text → Text
trim_start [] = []
trim_start (c ∷ s) = if is_whitespace c then trim_start s else c ∷ s

-- Puts a character before a text whose end is already trimmed.
cons_end : ℕ → Text → Text
cons_end c [] = if is_whitespace c then [] else c ∷ []
cons_end c (d ∷ s) = c ∷ d ∷ s

pub trim_end : Text → Text
unfolding cons_end
trim_end [] = []
trim_end (c ∷ s) = cons_end c (trim_end s)

unfoldable pub trim : Text → Text
unfolding trim_start trim_end is_whitespace
trim s = trim_end (trim_start s)

-- Puts a character before the first part.
cons_part : ℕ → List Text → List Text
cons_part c [] = (c ∷ []) ∷ []
cons_part c (w ∷ ws) = (c ∷ w) ∷ ws

-- `str::split` by a test on characters: every separator ends a part, which may be empty.
unfoldable pub split : (ℕ → Bool) → Text → List Text
unfolding cons_part
split p [] = [] ∷ []
split p (c ∷ s) = let rest = split p s in if p c then [] ∷ rest else cons_part c rest

drop_empty : List Text → List Text
drop_empty [] = []
drop_empty ([] ∷ ws) = drop_empty ws
drop_empty ((c ∷ w) ∷ ws) = (c ∷ w) ∷ drop_empty ws

unfoldable pub split_whitespace : Text → List Text
unfolding split drop_empty is_whitespace
split_whitespace s = drop_empty (split is_whitespace s)

-- `join`: the separator stands between the parts.
unfoldable pub join : Text → List Text → Text
join sep [] = []
join sep (w ∷ []) = w
join sep (w ∷ v ∷ ws) = w ++ (sep ++ join sep (v ∷ ws))

-- `BufRead::lines` drops one `\r` before the `\n`.
unfoldable pub chop_cr : Text → Text
chop_cr [] = []
chop_cr (c ∷ []) = if c == b'\r' then [] else c ∷ []
chop_cr (c ∷ d ∷ s) = c ∷ chop_cr (d ∷ s)

unfoldable pub text_eq : Text → Text → Bool
text_eq [] [] = true
text_eq [] (b ∷ t) = false
text_eq (a ∷ s) [] = false
text_eq (a ∷ s) (b ∷ t) = a == b && text_eq s t

unfoldable pub strip_prefix : Text → Text → Option Text
strip_prefix [] s = some s
strip_prefix (a ∷ p) [] = none
strip_prefix (a ∷ p) (b ∷ s) = if a == b then strip_prefix p s else none

split_test :
    split_whitespace (codes "  STREAM  a\tb ") ≡ codes "STREAM" ∷ codes "a" ∷ codes "b" ∷ []
unfolding split_whitespace
split_test = refl
